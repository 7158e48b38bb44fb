-- ===== src/Gateway/Ranges/Bounds.antt =====
-- What `select` chooses: its ranges fit the blob, and are the bytes that the header asks for.
use iroh_content_discovery.Prelude.{
  ℕ, suc, ◌+◌, ◌-◌, ◌==◌, length, if◌then◌else◌, ◌^◌, ◌<◌, ◌≤◌, ◌≡◌, max, refl, inl, inr, Bool,
  true, false, ◌&&◌, ◌||◌, Option, none, some, List, [], ◌∷◌, ◌++◌, arith, ltb, leb, Bool-cases,
  Option-cases, ◌∙◌, sym,
}
use iroh_content_discovery.Prelude.Sort.{sort}
use iroh_content_discovery.Prelude.Bytes.{split_once, split, trim, strip_prefix}
use iroh_content_discovery.Gateway.Ranges.Header.{
  RangeSpec, asks, asked_by, suffix_spec, start_spec, spec_of_parts, and_spec, all_specs,
  header_specs, value_specs, requested,
}
use iroh_content_discovery.Gateway.Ranges.{
  Range, Selection, full, partial, unsatisfiable, range_ltb, merge_into, merge_sorted, merge,
  suffix_range, start_range, end_of, number, single_parts, single, add_part, collect, chosen,
  bytes_unit, select_parts, select,
}
use iroh_content_discovery.Gateway.Ranges.Merge.{
  covers, all, separated, total, nonempty, merge_into_overlap, merge_into_gap, separated-merge_into,
  covers-merge, all-sort,
}

total_le :
    (lo size : ℕ) (rs : List Range)
    → separated lo rs ≡ true
    → all (λ r. leb r.end size) rs ≡ true
    → total rs ≤ size - lo
total_le lo size [] h fit = omega arith
total_le lo size (r ∷ rs) h fit = ground (arith, total_le (suc r.end) size rs)

merge_into_fits :
    (size : ℕ) (last : Range) (rs : List Range)
    → leb last.end size ≡ true
    → all (λ r. leb r.end size) rs ≡ true
    → all (λ r. leb r.end size) (merge_into last rs) ≡ true
unfolding merge_into
merge_into_fits size last [] h hs = ground arith
merge_into_fits size last (r ∷ rs) h hs = elim (Bool-cases (leb r.start last.end)) [
  | inl e ↦ rw (merge_into_overlap last r rs e) (
      merge_into_fits size (record last { end = max last.end r.end }) rs (ground arith)
        (ground arith))
  | inr e ↦ rw (merge_into_gap last r rs e) (ground (arith, merge_into_fits size r rs))
]

-- A range of a blob: not empty and within it.
abbrev pub fits : ℕ → Range → Bool
fits size r = ltb r.start r.end && leb r.end size

all-nonempty : (size : ℕ) (rs : List Range) → all (fits size) rs ≡ true → all nonempty rs ≡ true
all-nonempty size [] h = refl
all-nonempty size (r ∷ rs) h = ground (arith, all-nonempty size rs)

all_ends :
    (size : ℕ) (rs : List Range) → all (fits size) rs ≡ true → all (λ r. leb r.end size) rs ≡ true
all_ends size [] h = refl
all_ends size (r ∷ rs) h = ground (arith, all_ends size rs)

merge_sorted_fits :
    (size : ℕ) (rs : List Range)
    → all (fits size) rs ≡ true
    → (separated 0 (merge_sorted rs) ≡ true) × (all (λ r. leb r.end size) (merge_sorted rs) ≡ true)
merge_sorted_fits size [] h = (refl, refl)
merge_sorted_fits size (r ∷ rs) h = (
  separated-merge_into 0 r rs (omega arith) (ground arith) (all-nonempty size rs (ground arith)),
  merge_into_fits size r rs (ground arith) (all_ends size rs (ground arith)),
)

merge_fits :
    (size : ℕ) (rs : List Range)
    → all (fits size) rs ≡ true
    → (separated 0 (merge rs) ≡ true) × (all (λ r. leb r.end size) (merge rs) ≡ true)
unfolding merge
merge_fits size rs h = merge_sorted_fits size (sort range_ltb rs) (all-sort (fits size) rs ∙ h)

-- The ranges of a selection.
abbrev pub parts_of : Selection → List Range
parts_of full = []
parts_of (partial rs) = rs
parts_of unsatisfiable = []

suffix_range_fits :
    (o : Option ℕ) (size : ℕ) → all (fits size) (parts_of (suffix_range o size)) ≡ true
unfolding suffix_range
suffix_range_fits none size = refl
suffix_range_fits (some n) size = ground arith

end_of_bounds :
    (start end : ℕ) (last : List ℕ) (size : ℕ)
    → size < 2 ^ 64
    → end_of start last size ≡ some end
    → start < size
    → (start < end) × (end ≤ size)
unfolding end_of
end_of_bounds start end [] size small e le = ground arith
end_of_bounds start end (b ∷ bs) size small e le = ground arith

start_range_fits :
    (o : Option ℕ) (last : List ℕ) (size : ℕ)
    → size < 2 ^ 64
    → all (fits size) (parts_of (start_range o last size)) ≡ true
unfolding start_range
start_range_fits none last size small = refl
start_range_fits (some start) last size small = elim (Option-cases (end_of start last size)) [
  | inl e ↦ rw (e, start_range) refl
  | inr (end, e) ↦ rw (e, start_range) (ground (arith, end_of_bounds start end last size small e))
]

single_parts_fits :
    (o : Option (List ℕ × List ℕ)) (size : ℕ)
    → size < 2 ^ 64
    → all (fits size) (parts_of (single_parts o size)) ≡ true
unfolding single_parts
single_parts_fits none size small = refl
single_parts_fits (some ([], last)) size small = suffix_range_fits (number last) size
single_parts_fits (some (b ∷ bs, last)) size small =
    start_range_fits (number (b ∷ bs)) last size small

all-append : (p : Range → Bool) (rs ss : List Range) → all p (rs ++ ss) ≡ (all p rs && all p ss)
all-append p [] ss = refl
all-append p (r ∷ rs) ss = ground (arith, all-append p rs ss)

covers-append : (b : ℕ) (rs ss : List Range) → covers b (rs ++ ss) ≡ (covers b rs || covers b ss)
covers-append b [] ss = refl
covers-append b (r ∷ rs) ss = ground (arith, covers-append b rs ss)

-- The selection of a part: the whole blob if it is malformed, or else the bytes that it asks for.
abbrev Reads : ℕ → Option RangeSpec → Selection → Type 0
Reads size none s = s ≡ full
Reads size (some spec) full = ⊥
Reads size (some spec) unsatisfiable = (b : ℕ) → asks size spec b ≡ false
Reads size (some spec) (partial rs) = (b : ℕ) → covers b rs ≡ asks size spec b

suffix_range-Reads : (size : ℕ) (o : Option ℕ) → Reads size (suffix_spec o) (suffix_range o size)
unfolding suffix_range
suffix_range-Reads size none = refl
suffix_range-Reads size (some n) = elim (Bool-cases (n == 0 || size == 0)) [
  | inl e ↦ rw e (λ b. ground arith)
  | inr e ↦ rw e (λ b. ground arith)
]

start_range-Reads :
    (size : ℕ) (o : Option ℕ) (last : List ℕ)
    → size < 2 ^ 64
    → Reads size (start_spec o last) (start_range o last size)
unfolding start_range end_of
start_range-Reads size none last small = refl
start_range-Reads size (some start) [] small = elim (Bool-cases (leb size start)) [
  | inl e ↦ rw e (λ b. ground arith)
  | inr e ↦ rw e (λ b. ground arith)
]
start_range-Reads size (some start) (c ∷ cs) small = elim (Option-cases (number (c ∷ cs))) [
  | inl e ↦ rw (e, start_range, end_of) refl
  | inr (last, e) ↦ elim (Bool-cases (ltb last start)) [
    | inl f ↦ rw (e, f, start_range, end_of) refl
    | inr f ↦ elim (Bool-cases (leb size start)) [
      | inl g ↦ rw (e, f, g, start_range, end_of) (λ b. ground arith)
      | inr g ↦ rw (e, f, g, start_range, end_of) (λ b. ground arith)
    ]
  ]
]

single_parts-Reads :
    (size : ℕ) (o : Option (List ℕ × List ℕ))
    → size < 2 ^ 64
    → Reads size (spec_of_parts o) (single_parts o size)
unfolding single_parts
single_parts-Reads size none small = refl
single_parts-Reads size (some ([], last)) small = suffix_range-Reads size (number last)
single_parts-Reads size (some (b ∷ bs, last)) small =
    start_range-Reads size (number (b ∷ bs)) last small

-- What the loop collects: nothing where the header is ignored, or else ranges of the blob with just
-- the bytes that are asked for.
abbrev Collected : ℕ → Option (List RangeSpec) → Option (List Range) → Type 0
Collected size none o = o ≡ none
Collected size (some specs) none = ⊥
Collected size (some specs) (some rs) =
    (all (fits size) rs ≡ true) × ((b : ℕ) → covers b rs ≡ asked_by size specs b)

add_part-none : (s : Selection) → add_part s none ≡ none
unfolding add_part
add_part-none full = refl
add_part-none unsatisfiable = refl
add_part-none (partial ranges) = refl

add_part-Collected :
    (size : ℕ) (spec : Option RangeSpec) (specs : Option (List RangeSpec)) (s : Selection)
    (rest : Option (List Range))
    → all (fits size) (parts_of s) ≡ true
    → Reads size spec s
    → Collected size specs rest
    → Collected size (and_spec spec specs) (add_part s rest)
unfolding add_part
add_part-Collected size none specs s rest h r c = rw r refl
add_part-Collected size (some spec) none s rest h r c = rw c (add_part-none s)
add_part-Collected size (some spec) (some specs) full rest h r c = absurd r
add_part-Collected size (some spec) (some specs) unsatisfiable none h r c = absurd c
add_part-Collected size (some spec) (some specs) unsatisfiable (some rs) h r c =
    (c.0, λ b. ground (arith, c.1 b, r b))
add_part-Collected size (some spec) (some specs) (partial ranges) none h r c = absurd c
add_part-Collected size (some spec) (some specs) (partial ranges) (some more) h r c = (
  ground (arith, all-append (fits size) ranges more, c.0),
  λ b. ground (arith, covers-append b ranges more, c.1 b, r b),
)

-- The parts from some index on.
abbrev specs_from : ℕ → List (List ℕ) → Option (List RangeSpec)
specs_from index parts = if ltb 16 (index + length parts) then none else all_specs parts

collect_many :
    (size index : ℕ) (parts : List (List ℕ))
    → 16 < index + length parts
    → index ≤ 16
    → collect size index parts ≡ none
unfolding collect
collect_many size index [] many low = absurd (omega arith)
collect_many size index (part ∷ parts) many low = elim (Bool-cases (leb 16 index)) [
  | inl e ↦ rw e refl
  | inr e ↦
      rw (e, collect_many size (suc index) parts (omega arith) (ground arith))
        (add_part-none (single (trim part) size))
]

collect-Collected :
    (size index : ℕ) (parts : List (List ℕ))
    → size < 2 ^ 64
    → index + length parts ≤ 16
    → Collected size (all_specs parts) (collect size index parts)
unfolding collect single all_specs
collect-Collected size index [] small few = (refl, λ b. refl)
collect-Collected size index (part ∷ parts) small few =
    let early : leb 16 index ≡ false = ground arith in
    rw early (
      add_part-Collected size (spec_of_parts (split_once 45 (trim part))) (all_specs parts)
        (single_parts (split_once 45 (trim part)) size) (collect size (suc index) parts)
        (single_parts_fits (split_once 45 (trim part)) size small)
        (single_parts-Reads size (split_once 45 (trim part)) small)
        (collect-Collected size (suc index) parts small (omega arith)))

header_specs-Collected :
    (size : ℕ) (parts : List (List ℕ))
    → size < 2 ^ 64
    → Collected size (header_specs parts) (collect size 0 parts)
unfolding header_specs
header_specs-Collected size parts small = elim (Bool-cases (ltb 16 (length parts))) [
  | inl e ↦ rw e (collect_many size 0 parts (ground arith) (omega arith))
  | inr e ↦ rw e (collect-Collected size 0 parts small (ground arith))
]

-- A chosen list of ranges: they ascend with gaps, are not empty, end within the blob, send no more
-- bytes than it has, and have just the bytes that are asked for.
pub record IsChoice (size : ℕ) (asked : ℕ → Bool) (rs : List Range) : Type 0 where
  pub gaps : separated 0 rs ≡ true
  pub within : all (λ r. leb r.end size) rs ≡ true
  pub sends : total rs ≤ size
  pub bytes : (b : ℕ) → covers b rs ≡ asked b

-- What is selected for what is asked for: the whole blob where the header is ignored.
abbrev pub Chosen : ℕ → Option (List RangeSpec) → Selection → Type 0
Chosen size none s = s ≡ full
Chosen size (some specs) full = ⊥
Chosen size (some specs) unsatisfiable = (b : ℕ) → asked_by size specs b ≡ false
Chosen size (some specs) (partial rs) = IsChoice size (λ b. asked_by size specs b) rs

chosen-Chosen :
    (size : ℕ) (specs : Option (List RangeSpec)) (o : Option (List Range))
    → Collected size specs o
    → Chosen size specs (chosen o)
unfolding chosen
chosen-Chosen size none o c = rw c refl
chosen-Chosen size (some specs) none c = absurd c
chosen-Chosen size (some specs) (some []) c = λ b. sym (c.1 b)
chosen-Chosen size (some specs) (some (r ∷ rs)) c =
    let (gaps, within) = merge_fits size (r ∷ rs) c.0 in
    record {
      gaps = gaps;
      within = within;
      sends = omega (arith, total_le 0 size (merge (r ∷ rs)) gaps within);
      bytes = λ b. covers-merge b (r ∷ rs) ∙ c.1 b;
    }

select_parts-Chosen :
    (o : Option (List ℕ)) (size : ℕ)
    → size < 2 ^ 64
    → Chosen size (value_specs o) (select_parts o size)
unfolding select_parts
select_parts-Chosen none size small = refl
select_parts-Chosen (some value) size small =
    chosen-Chosen size (header_specs (split 44 value)) (collect size 0 (split 44 value))
      (header_specs-Collected size (split 44 value) small)

-- A header that is missing, of another unit, of more than 16 parts or with a malformed part selects
-- the whole blob. Any other selects ranges that ascend with gaps between them, are not empty, end
-- within the blob, send together no more bytes than it has, and have just the bytes that a part asks
-- for: from a start to a last byte, from a start on, or so many at the end. It is unsatisfiable only
-- where no part asks for a byte. The size is a `u64`.
pub select-Chosen :
    (header : Option (List ℕ)) (size : ℕ)
    → size < 2 ^ 64
    → Chosen size (requested header) (select header size)
unfolding select
select-Chosen none size small = refl
select-Chosen (some header) size small =
    select_parts-Chosen (strip_prefix bytes_unit header) size small
