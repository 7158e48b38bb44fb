-- ===== src/Gateway/Ranges.antt =====
-- iroh-link-gateway/src/ranges.rs: the byte ranges of a `Range` header. A header is its list of
-- ASCII bytes.

pub mod Merge
pub mod Header
pub mod Bounds
use iroh_content_discovery.Prelude.{
  ℕ, suc, ◌+◌, ◌-◌, ◌*◌, ◌^◌, max, min, Bool, true, false, ◌&&◌, ◌||◌, not, Option, none, some,
  List, [], ◌∷◌, ◌++◌, ltb, leb, ◌==◌, if◌then◌else◌,
}
use iroh_content_discovery.Prelude.Bytes.{codes, split_once, split, trim, strip_prefix}
use iroh_content_discovery.Prelude.Sort.{sort}

pub record Range : Type 0 where
  pub start : ℕ
  pub end : ℕ

pub data Selection : Type 0 where
  full : Selection
  partial : List Range → Selection
  unsatisfiable : Selection

-- The order of `(range.start, range.end)`.
abbrev pub range_ltb : Range → Range → Bool
range_ltb r s = ltb r.start s.start || (r.start == s.start && ltb r.end s.end)

-- `last` is the end of the vector that is being built.
unfoldable pub merge_into : Range → List Range → List Range
merge_into last [] = last ∷ []
merge_into last (range ∷ ranges) = elim (leb range.start last.end) [
  | true ↦ merge_into (record last { end = max last.end range.end }) ranges
  | false ↦ last ∷ merge_into range ranges
]

abbrev pub merge_sorted : List Range → List Range
merge_sorted [] = []
merge_sorted (range ∷ ranges) = merge_into range ranges

unfoldable pub merge : List Range → List Range
unfolding merge_into sort
merge ranges = merge_sorted (sort range_ltb ranges)

abbrev is_digit : ℕ → Bool
is_digit b = leb 48 b && leb b 57

all_digits : List ℕ → Bool
all_digits [] = true
all_digits (b ∷ bs) = is_digit b && all_digits bs

decimal : ℕ → List ℕ → ℕ
decimal n [] = n
decimal n (b ∷ bs) = decimal (n * 10 + (b - 48)) bs

-- A digit string that fits `u64`.
unfoldable pub number : List ℕ → Option ℕ
unfolding all_digits decimal
number [] = none
number (b ∷ bs) =
    if all_digits (b ∷ bs)
    then (let n = decimal 0 (b ∷ bs) in if ltb n (2 ^ 64) then some n else none)
    else none

abbrev saturating_inc : ℕ → ℕ
saturating_inc n = min (n + 1) (2 ^ 64 - 1)

-- `-suffix`: the last bytes.
unfoldable pub suffix_range : Option ℕ → ℕ → Selection
suffix_range none size = full
suffix_range (some suffix) size =
    if suffix == 0 || size == 0
    then unsatisfiable
    else partial (record { start = size - suffix; end = size } ∷ [])

-- The exclusive end of `start-last`, or `none` where the header is ignored.
unfoldable pub end_of : ℕ → List ℕ → ℕ → Option ℕ
unfolding number
end_of start [] size = some size
end_of start (b ∷ bs) size = elim (number (b ∷ bs)) [
  | none ↦ none
  | some last ↦ if ltb last start then none else some (min (saturating_inc last) size)
]

unfoldable pub start_range : Option ℕ → List ℕ → ℕ → Selection
unfolding end_of
start_range none last size = full
start_range (some start) last size = elim (end_of start last size) [
  | none ↦ full
  | some end ↦
      if leb size start then unsatisfiable else partial (record { start = start; end = end } ∷ [])
]

unfoldable pub single_parts : Option (List ℕ × List ℕ) → ℕ → Selection
unfolding suffix_range start_range number
single_parts none size = full
single_parts (some ([], last)) size = suffix_range (number last) size
single_parts (some (b ∷ bs, last)) size = start_range (number (b ∷ bs)) last size

unfoldable pub single : List ℕ → ℕ → Selection
unfolding single_parts split_once
single value size = single_parts (split_once 45 value) size

-- One pass of the loop over the parts, before what the later passes collect.
unfoldable pub add_part : Selection → Option (List Range) → Option (List Range)
add_part full rest = none
add_part unsatisfiable rest = rest
add_part (partial ranges) none = none
add_part (partial ranges) (some more) = some (ranges ++ more)

-- The loop over the parts: `none` stands for an early return of the whole blob.
unfoldable pub collect : ℕ → ℕ → List (List ℕ) → Option (List Range)
unfolding single trim add_part
collect size index [] = some []
collect size index (part ∷ parts) =
    let rest = collect size (suc index) parts in
    if leb 16 index then none else add_part (single (trim part) size) rest

unfoldable pub chosen : Option (List Range) → Selection
unfolding merge
chosen none = full
chosen (some []) = unsatisfiable
chosen (some (range ∷ ranges)) = partial (merge (range ∷ ranges))

abbrev pub bytes_unit : List ℕ
bytes_unit = codes "bytes="

unfoldable pub select_parts : Option (List ℕ) → ℕ → Selection
unfolding collect split chosen
select_parts none size = full
select_parts (some value) size = chosen (collect size 0 (split 44 value))

unfoldable pub select : Option (List ℕ) → ℕ → Selection
unfolding select_parts strip_prefix
select none size = full
select (some value) size = select_parts (strip_prefix bytes_unit value) size
