-- ===== src/Gateway/Blobs/Selections.antt =====
-- The ranges that a request selects are in the blob.
use iroh_content_discovery.Prelude.{
  ℕ, suc, ◌^◌, ◌<◌, ◌≡◌, max, refl, inl, inr, true, ◌||◌, Option, none, some, List, [], ◌∷◌, arith,
  leb, All, Bool-cases, subst, sym,
}
use iroh_content_discovery.Prelude.Bytes.{split, strip_prefix}
use iroh_content_discovery.Prelude.Sort.{sort, insert_sorted}
use iroh_content_discovery.Gateway.Ranges.{
  Range, Selection, full, partial, unsatisfiable, range_ltb, merge_into, merge_sorted, merge,
  chosen, collect, bytes_unit, select_parts, select,
}
use iroh_content_discovery.Gateway.Ranges.Merge.{all, separated, merge_into_overlap, merge_into_gap}
use iroh_content_discovery.Gateway.Ranges.Bounds.{Chosen, select-Chosen}
use iroh_content_discovery.Gateway.Ranges.Header.{RangeSpec, requested}
use iroh_content_discovery.Gateway.Http.{Crates, Method, is_head}
use iroh_content_discovery.Gateway.Blobs.{Headers, range_ignored, single_range, selection}
use iroh_content_discovery.Gateway.Blobs.Length.{FitsIn}

-- The ranges of a selection are in the blob, and there is one.
abbrev pub SelectsIn : ℕ → Selection → Type 0
SelectsIn size full = Unit
SelectsIn size unsatisfiable = Unit
SelectsIn size (partial []) = ⊥
SelectsIn size (partial (range ∷ ranges)) = FitsIn size range × All (FitsIn size) ranges

separated-All :
    (lo size : ℕ) (rs : List Range)
    → separated lo rs ≡ true
    → all (λ r. leb r.end size) rs ≡ true
    → All (FitsIn size) rs
separated-All lo size [] h k = tt
separated-All lo size (r ∷ rs) h k =
    ((ground arith, ground arith), separated-All (suc r.end) size rs (ground arith) (ground arith))

merge_into_some : (last : Range) (rs : List Range) → ¬ (merge_into last rs ≡ [])
unfolding merge_into
merge_into_some last [] = λ p. cc
merge_into_some last (r ∷ rs) = elim (Bool-cases (leb r.start last.end)) [
  | inl e ↦
      rw (merge_into_overlap last r rs e)
        (merge_into_some (record last { end = max last.end r.end }) rs)
  | inr e ↦ rw (merge_into_gap last r rs e) (λ p. cc)
]

merge_sorted_some :
    (x : Range) (rs : List Range) → ¬ (merge_sorted (insert_sorted range_ltb x rs) ≡ [])
unfolding insert_sorted
merge_sorted_some x [] = merge_into_some x []
merge_sorted_some x (r ∷ rs) = elim (Bool-cases (range_ltb r x)) [
  | inl e ↦ rw e (merge_into_some r (insert_sorted range_ltb x rs))
  | inr e ↦ rw e (merge_into_some x (r ∷ rs))
]

chosen_some : (o : Option (List Range)) → ¬ (chosen o ≡ partial [])
unfolding chosen merge sort
chosen_some none = λ p. cc
chosen_some (some []) = λ p. cc
chosen_some (some (r ∷ rs)) = λ p. merge_sorted_some r (sort range_ltb rs) cc

Chosen-SelectsIn :
    (size : ℕ) (asked : Option (List RangeSpec)) (s : Selection)
    → Chosen size asked s
    → ¬ (s ≡ partial [])
    → SelectsIn size s
Chosen-SelectsIn size none s c n = subst (SelectsIn size) (sym c) tt
Chosen-SelectsIn size (some specs) full c n = tt
Chosen-SelectsIn size (some specs) unsatisfiable c n = tt
Chosen-SelectsIn size (some specs) (partial []) c n = absurd (n refl)
Chosen-SelectsIn size (some specs) (partial (r ∷ rs)) c n =
    separated-All 0 size (r ∷ rs) c.gaps c.within

select_parts_some : (o : Option (List ℕ)) (size : ℕ) → ¬ (select_parts o size ≡ partial [])
unfolding select_parts
select_parts_some none size = λ p. cc
select_parts_some (some value) size = chosen_some (collect size 0 (split 44 value))

select_some : (header : Option (List ℕ)) (size : ℕ) → ¬ (select header size ≡ partial [])
unfolding select
select_some none size = λ p. cc
select_some (some header) size = select_parts_some (strip_prefix bytes_unit header) size

select-SelectsIn :
    (header : Option (List ℕ)) (size : ℕ) → size < 2 ^ 64 → SelectsIn size (select header size)
select-SelectsIn header size small =
    Chosen-SelectsIn size (requested header) (select header size) (select-Chosen header size small)
      (select_some header size)

pub selection-SelectsIn :
    (lib : Crates) (tag : List ℕ) (method : Method) (headers : Headers) (size : ℕ)
    → size < 2 ^ 64
    → SelectsIn size (selection lib tag method headers size)
unfolding selection
selection-SelectsIn lib tag method headers size small =
    elim (Bool-cases (is_head method || range_ignored tag headers.if_range)) [
      | inl e ↦ rw e tt
      | inr e ↦ rw e (select-SelectsIn (single_range lib headers.range) size small)
    ]

pub selection_head :
    (lib : Crates) (tag : List ℕ) (method : Method) (headers : Headers) (size : ℕ)
    → is_head method ≡ true
    → selection lib tag method headers size ≡ full
unfolding selection
selection_head lib tag method headers size e = rw e refl
