-- ===== src/Gateway/Ranges/Merge.antt =====
-- What `merge` keeps and what it makes of the ranges.
use iroh_content_discovery.Prelude.{
  ℕ, suc, ◌+◌, ◌-◌, ◌≤◌, ◌≡◌, max, refl, inl, inr, Bool, true, false, ◌&&◌, ◌||◌, List, [], ◌∷◌,
  arith, ltb, leb, Bool-cases, ◌∙◌,
}
use iroh_content_discovery.Prelude.Sort.{sort, insert_sorted}
use iroh_content_discovery.Gateway.Ranges.{Range, range_ltb, merge_into, merge_sorted, merge}

-- Whether a byte is in one of the ranges.
abbrev pub covers : ℕ → List Range → Bool
covers b [] = false
covers b (r ∷ rs) = (leb r.start b && ltb b r.end) || covers b rs

-- Every range passes a test.
abbrev pub all : (Range → Bool) → List Range → Bool
all p [] = true
all p (r ∷ rs) = p r && all p rs

-- The starts do not go down, from some number on.
abbrev ascending : ℕ → List Range → Bool
ascending lo [] = true
ascending lo (r ∷ rs) = leb lo r.start && ascending r.start rs

-- The ranges are not empty, ascend, and leave a gap between each other.
abbrev pub separated : ℕ → List Range → Bool
separated lo [] = true
separated lo (r ∷ rs) = leb lo r.start && (ltb r.start r.end && separated (suc r.end) rs)

-- The bytes that are sent for the ranges.
abbrev pub total : List Range → ℕ
total [] = 0
total (r ∷ rs) = (r.end - r.start) + total rs

abbrev pub nonempty : Range → Bool
nonempty r = ltb r.start r.end

covers-insert_sorted :
    (b : ℕ) (x : Range) (rs : List Range)
    → covers b (insert_sorted range_ltb x rs) ≡ covers b (x ∷ rs)
unfolding insert_sorted
covers-insert_sorted b x [] = refl
covers-insert_sorted b x (r ∷ rs) = ground (arith, covers-insert_sorted b x rs)

covers-sort : (b : ℕ) (rs : List Range) → covers b (sort range_ltb rs) ≡ covers b rs
unfolding sort
covers-sort b [] = refl
covers-sort b (r ∷ rs) =
    ground (arith, covers-insert_sorted b r (sort range_ltb rs), covers-sort b rs)

all-insert_sorted :
    (p : Range → Bool) (x : Range) (rs : List Range)
    → all p (insert_sorted range_ltb x rs) ≡ all p (x ∷ rs)
unfolding insert_sorted
all-insert_sorted p x [] = refl
all-insert_sorted p x (r ∷ rs) = ground (arith, all-insert_sorted p x rs)

pub all-sort : (p : Range → Bool) (rs : List Range) → all p (sort range_ltb rs) ≡ all p rs
unfolding sort
all-sort p [] = refl
all-sort p (r ∷ rs) = ground (arith, all-insert_sorted p r (sort range_ltb rs), all-sort p rs)

ascending-insert_sorted :
    (lo : ℕ) (x : Range) (rs : List Range)
    → ascending lo rs ≡ true
    → lo ≤ x.start
    → ascending lo (insert_sorted range_ltb x rs) ≡ true
unfolding insert_sorted
ascending-insert_sorted lo x [] h le = ground arith
ascending-insert_sorted lo x (r ∷ rs) h le = elim (Bool-cases (range_ltb r x)) [
  | inl e ↦ rw e (ground (arith, ascending-insert_sorted r.start x rs))
  | inr e ↦ rw e (ground arith)
]

ascending-sort : (rs : List Range) → ascending 0 (sort range_ltb rs) ≡ true
unfolding sort
ascending-sort [] = refl
ascending-sort (r ∷ rs) =
    ascending-insert_sorted 0 r (sort range_ltb rs) (ascending-sort rs) (omega arith)

ascending_below :
    (lo hi : ℕ) (rs : List Range) → lo ≤ hi → ascending hi rs ≡ true → ascending lo rs ≡ true
ascending_below lo hi [] le h = refl
ascending_below lo hi (r ∷ rs) le h = ground arith

module _ (last r : Range) (rs : List Range) where
  pub merge_into_overlap :
      leb r.start last.end ≡ true
      → merge_into last (r ∷ rs) ≡ merge_into (record last { end = max last.end r.end }) rs
  unfolding merge_into
  merge_into_overlap e = rw (e, merge_into) refl

  pub merge_into_gap :
      leb r.start last.end ≡ false → merge_into last (r ∷ rs) ≡ last ∷ merge_into r rs
  unfolding merge_into
  merge_into_gap e = rw (e, merge_into) refl

covers-merge_into :
    (b : ℕ) (last : Range) (rs : List Range)
    → ascending last.start rs ≡ true
    → covers b (merge_into last rs) ≡ covers b (last ∷ rs)
unfolding merge_into
covers-merge_into b last [] h = refl
covers-merge_into b last (r ∷ rs) h = elim (Bool-cases (leb r.start last.end)) [
  | inl e ↦ rw (merge_into_overlap last r rs e) (
      covers-merge_into b (record last { end = max last.end r.end }) rs
        (ascending_below last.start r.start rs (ground arith) (ground arith))
      ∙ ground arith)
  | inr e ↦ rw (merge_into_gap last r rs e) (ground (arith, covers-merge_into b r rs))
]

pub separated-merge_into :
    (lo : ℕ) (last : Range) (rs : List Range)
    → lo ≤ last.start
    → nonempty last ≡ true
    → all nonempty rs ≡ true
    → separated lo (merge_into last rs) ≡ true
unfolding merge_into
separated-merge_into lo last [] le h hs = ground arith
separated-merge_into lo last (r ∷ rs) le h hs = elim (Bool-cases (leb r.start last.end)) [
  | inl e ↦ rw (merge_into_overlap last r rs e) (
      separated-merge_into lo (record last { end = max last.end r.end }) rs le (ground arith)
        (ground arith))
  | inr e ↦
      rw (merge_into_gap last r rs e) (ground (arith, separated-merge_into (suc last.end) r rs))
]

covers-merge_sorted :
    (b : ℕ) (rs : List Range) → ascending 0 rs ≡ true → covers b (merge_sorted rs) ≡ covers b rs
covers-merge_sorted b [] h = refl
covers-merge_sorted b (r ∷ rs) h = covers-merge_into b r rs (ground arith)

pub covers-merge : (b : ℕ) (rs : List Range) → covers b (merge rs) ≡ covers b rs
unfolding merge
covers-merge b rs = covers-merge_sorted b (sort range_ltb rs) (ascending-sort rs) ∙ covers-sort b rs
