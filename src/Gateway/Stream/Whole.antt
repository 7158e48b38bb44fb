-- ===== src/Gateway/Stream/Whole.antt =====
-- The prefix that is sniffed and the components that are read whole are the blob's.
use iroh_content_discovery.Prelude.{
  ℕ, ◌+◌, ◌-◌, ◌≤◌, ◌≡◌, refl, inl, inr, Bool, ◌&&◌, Option, none, some, List, [], ◌∷◌, ◌++◌, arith,
  ltb, leb, ◌==◌, min, length, slice, take, slice-append, slice_empty, take-slice, length-append,
  length-take, subst, Bool-cases, sym, ap, ◌∙◌,
}
use mathlib.Core.Option.{some-injective}
use iroh_content_discovery.Gateway.Stream.{
  Item, leaf, parent, failed, sniff_bytes, sniff_from, sniffed, sniff, read_from, read_whole,
  read_collection_blob,
}
use iroh_content_discovery.Gateway.Stream.Exact.{FromBlob}

-- The first bytes of a blob, no more than a limit; an error has none.
abbrev Beginning : List ℕ → ℕ → Option (List ℕ) → Type 0
Beginning blob limit none = Unit
Beginning blob limit (some bytes) = (bytes ≡ slice 0 (length bytes) blob) × (length bytes ≤ limit)

module _ (blob : List ℕ) where
  -- What follows a beginning makes it longer.
  beginning-append :
      (bytes more : List ℕ)
      → bytes ≡ slice 0 (length bytes) blob
      → more ≡ slice (length bytes) (length bytes + length more) blob
      → bytes ++ more ≡ slice 0 (length (bytes ++ more)) blob
  beginning-append bytes more e h = rw (length-append bytes more) (
      ap (λ bs. bs ++ more) e
      ∙ ap (λ bs. slice 0 (length bytes) blob ++ bs) h
      ∙ slice-append 0 (length bytes) (length bytes + length more) blob (omega arith) (omega arith))

  read_from-Beginning :
      (limit : ℕ) (bytes : List ℕ) (items : List Item)
      → FromBlob blob items
      → bytes ≡ slice 0 (length bytes) blob
      → length bytes ≤ limit
      → Beginning blob limit (read_from limit bytes items)
  unfolding read_from
  read_from-Beginning limit bytes [] h e le = (e, le)
  read_from-Beginning limit bytes (failed ∷ items) h e le = tt
  read_from-Beginning limit bytes (parent ∷ items) h e le =
      read_from-Beginning limit bytes items h e le
  read_from-Beginning limit bytes (leaf at more ∷ items) (h, hs) e le =
      elim (Bool-cases ((at == length bytes) && leb (length more) (limit - length bytes))) [
        | inr f ↦ rw f tt
        | inl f ↦
            let same : at ≡ length bytes = ground arith in
            rw f (
              read_from-Beginning limit (bytes ++ more) items hs
                (beginning-append bytes more e
                  (subst (λ n. more ≡ slice n (n + length more) blob) same h))
                (ground (arith, length-append bytes more)))
      ]

  sniff_from-Beginning :
      (prefix : List ℕ) (items : List Item)
      → FromBlob blob items
      → prefix ≡ slice 0 (length prefix) blob
      → length prefix ≤ sniff_bytes
      → Beginning blob sniff_bytes (sniff_from prefix items)
  unfolding sniff_from
  sniff_from-Beginning prefix [] h e le = (e, le)
  sniff_from-Beginning prefix (failed ∷ items) h e le = tt
  sniff_from-Beginning prefix (parent ∷ items) h e le = sniff_from-Beginning prefix items h e le
  sniff_from-Beginning prefix (leaf at bytes ∷ items) (h, hs) e le =
      let end = min (sniff_bytes - at) (length bytes) in
      elim (Bool-cases (ltb 0 end)) [
        | inr f ↦ rw f (sniff_from-Beginning prefix items hs e le)
        | inl f ↦ elim (Bool-cases (at == length prefix)) [
          | inr g ↦ rw (f, g) tt
          | inl g ↦
              let same : at ≡ length prefix = ground arith in
              let n : length (take end bytes) ≡ end = omega (arith, length-take end bytes) in
              let part : take end bytes ≡ slice at (at + length (take end bytes)) blob =
                ap (take end) h
                ∙ take-slice at end (at + length bytes) blob (omega arith)
                ∙ ap (λ k. slice at (at + k) blob) (sym n) in
              rw (f, g)
                (sniff_from-Beginning (prefix ++ take end bytes) items hs
                  (beginning-append prefix (take end bytes) e (
                    subst (λ k. take end bytes ≡ slice k (k + length (take end bytes)) blob) same
                      part))
                  (ground (arith, length-append prefix (take end bytes))))
        ]
      ]

  sniffed-Beginning :
      (size : ℕ) (closing : Bool) (o : Option (List ℕ)) (got : ℕ × List ℕ)
      → Beginning blob sniff_bytes o
      → sniffed size closing o ≡ some got
      → got ≡ (size, slice 0 (min size sniff_bytes) blob)
  unfolding sniffed
  sniffed-Beginning size closing none got h r = absurd cc
  sniffed-Beginning size closing (some prefix) got (e, le) r =
      elim (Bool-cases (closing && (length prefix == min size sniff_bytes))) [
        | inr f ↦ absurd grind arith
        | inl f ↦
            let n : length prefix ≡ min size sniff_bytes = ground arith in
            let same : some (size, prefix) ≡ some got = sym (rw f refl) ∙ r in
            sym (some-injective (size, prefix) got same)
            ∙ ap (λ p. (size, p)) (e ∙ ap (λ k. slice 0 k blob) n)
      ]

  read_whole-Beginning :
      (limit size : ℕ) (o : Option (List ℕ)) (got : List ℕ)
      → Beginning blob limit o
      → read_whole size o ≡ some got
      → got ≡ slice 0 size blob
  unfolding read_whole
  read_whole-Beginning limit size none got h r = absurd cc
  read_whole-Beginning limit size (some bytes) got (e, le) r =
      elim (Bool-cases (length bytes == size)) [
        | inr f ↦ absurd grind arith
        | inl f ↦
            let n : length bytes ≡ size = ground arith in
            let same : some bytes ≡ some got = sym (rw f refl) ∙ r in
            sym (some-injective bytes got same) ∙ e ∙ ap (λ k. slice 0 k blob) n
      ]

  -- What a sniff returns is the announced size and the first bytes of the blob, as many as are
  -- sniffed or as the size says.
  pub sniff-slice :
      (size : ℕ) (items : List Item) (closing : Bool) (got : ℕ × List ℕ)
      → FromBlob blob items
      → sniff size items closing ≡ some got
      → got ≡ (size, slice 0 (min size sniff_bytes) blob)
  unfolding sniff
  sniff-slice size items closing got h r =
      sniffed-Beginning size closing (sniff_from [] items) got
        (sniff_from-Beginning [] items h (sym (slice_empty 0 blob)) (omega arith)) r

  -- A component of a collection that is read is the first bytes of its blob, as many as the provider
  -- announced, and no more than the limit.
  pub read_collection_blob-slice :
      (limit size : ℕ) (items : List Item) (got : List ℕ)
      → FromBlob blob items
      → read_collection_blob limit size items ≡ some got
      → (got ≡ slice 0 size blob) × (size ≤ limit)
  unfolding read_collection_blob
  read_collection_blob-slice limit size items got h r = elim (Bool-cases (leb size limit)) [
    | inr f ↦ absurd grind arith
    | inl f ↦ (
      read_whole-Beginning limit size (read_from limit [] items) got
          (read_from-Beginning limit [] items h (sym (slice_empty 0 blob)) (omega arith))
          (sym (rw f refl) ∙ r),
      ground arith,
    )
  ]
