-- ===== src/Gateway/Stream/Exact.antt =====
-- A stream sends the bytes of its range and no others.
use iroh_content_discovery.Prelude.{
  ℕ, ◌+◌, ◌-◌, ◌≤◌, ◌≡◌, inl, inr, Bool, true, List, [], ◌∷◌, ◌++◌, arith, ltb, ◌==◌, min, max,
  length, slice, concat, slice-append, slice_empty, slice-slice, Bool-cases, sym, ap, ◌∙◌,
}
use iroh_content_discovery.Gateway.Ranges.{Range}
use iroh_content_discovery.Gateway.Stream.{
  Item, leaf, parent, failed, Streamed, stream_from, stream_content,
}

-- Verified items: each leaf has the bytes of the blob at its place.
abbrev pub FromBlob : List ℕ → List Item → Type 0
FromBlob blob [] = Unit
FromBlob blob (leaf at bytes ∷ items) =
    (bytes ≡ slice at (at + length bytes) blob) × FromBlob blob items
FromBlob blob (parent ∷ items) = FromBlob blob items
FromBlob blob (failed ∷ items) = FromBlob blob items

-- The leaves follow one another, from one place up to another, and none failed.
abbrev pub Covering : ℕ → ℕ → List Item → Type 0
Covering lo hi [] = lo ≡ hi
Covering lo hi (leaf at bytes ∷ items) = (at ≡ lo) × Covering (at + length bytes) hi items
Covering lo hi (parent ∷ items) = Covering lo hi items
Covering lo hi (failed ∷ items) = ⊥

module _ (blob : List ℕ) (range : Range) where
  -- A stream that sends the range up to some place in it, and up to its end if there is no error.
  abbrev pub Sends : Streamed → Type 0
  Sends s =
      (to : ℕ) × (concat s.chunks ≡ slice range.start to blob)
      × (to ≤ range.end)
      × (s.complete ≡ true → to ≡ range.end)

  -- What is sent is the blob's, from the offset on, whatever happens later.
  stream_from-slice :
      (offset : ℕ) (items : List Item) (closing : Bool)
      → FromBlob blob items
      → range.start ≤ offset
      → offset ≤ range.end
      → (to : ℕ) × (concat (stream_from range offset items closing).chunks ≡ slice offset to blob)
        × (offset ≤ to)
        × (to ≤ range.end)
        × ((stream_from range offset items closing).complete ≡ true → to ≡ range.end)
  unfolding stream_from concat
  stream_from-slice offset [] closing h lo hi =
      (offset, sym (slice_empty offset blob), omega arith, hi, λ e. ground arith)
  stream_from-slice offset (failed ∷ items) closing h lo hi =
      (offset, sym (slice_empty offset blob), omega arith, hi, λ e. cc)
  stream_from-slice offset (parent ∷ items) closing h lo hi =
      stream_from-slice offset items closing h lo hi
  stream_from-slice offset (leaf at bytes ∷ items) closing (h, hs) lo hi =
      let start = max at range.start in
      let end = min (at + length bytes) range.end in
      elim (Bool-cases (ltb start end)) [
        | inr e ↦ rw e (stream_from-slice offset items closing hs lo hi)
        | inl e ↦ elim (Bool-cases (start == offset)) [
          | inr f ↦ rw (e, f) (offset, sym (slice_empty offset blob), omega arith, hi, λ e. cc)
          | inl f ↦
              let (to, bs, le, within, full) =
                stream_from-slice end items closing hs (ground arith) (omega arith) in
              let same : start ≡ offset = ground arith in
              let sent : slice (start - at) (end - at) bytes ≡ slice offset end blob =
                ap (slice (start - at) (end - at)) h
                ∙ slice-slice at start end (at + length bytes) blob (omega arith) (ground arith)
                    (omega arith)
                ∙ ap (λ n. slice n end blob) same in
              rw (e, f)
                (
                  to,
                  ap (λ bs. bs ++ concat (stream_from range end items closing).chunks) sent
                      ∙ ap (λ bs. slice offset end blob ++ bs) bs
                      ∙ slice-append offset end to blob (ground arith) le,
                  ground arith,
                  within,
                  full,
                )
        ]
      ]

  -- Leaves that follow one another and reach over the range are all sent.
  stream_from-complete :
      (at offset hi : ℕ) (items : List Item)
      → Covering at hi items
      → range.start ≤ range.end
      → range.end ≤ hi
      → offset ≡ min (max at range.start) range.end
      → (stream_from range offset items true).complete ≡ true
  unfolding stream_from
  stream_from-complete at offset hi [] c le reach e = ground arith
  stream_from-complete at offset hi (failed ∷ items) c le reach e = absurd c
  stream_from-complete at offset hi (parent ∷ items) c le reach e =
      stream_from-complete at offset hi items c le reach e
  stream_from-complete at offset hi (leaf o bytes ∷ items) (same, c) le reach e =
      let start = max o range.start in
      let end = min (o + length bytes) range.end in
      let later = λ (to : ℕ) (q : to ≡ min (max (o + length bytes) range.start) range.end).
        stream_from-complete (o + length bytes) to hi items c le reach q in
      elim (Bool-cases (ltb start end)) [
        | inr f ↦ rw f (later offset (ground arith))
        | inl f ↦
            let g : start == offset ≡ true = ground arith in rw (f, g) (later end (ground arith))
      ]

  -- What a stream sends of a range is the blob's, from the start of the range up to some place in it,
  -- and all of the range if the stream ends without an error.
  pub stream_content-slice :
      (items : List Item) (closing : Bool)
      → FromBlob blob items
      → range.start ≤ range.end
      → Sends (stream_content range items closing)
  unfolding stream_content
  stream_content-slice items closing h le =
      let (to, bytes, _, within, full) =
        stream_from-slice range.start items closing h (omega arith) le in
      (to, bytes, within, full)

  -- Items that follow one another from before the range to behind it, in an exchange that ends as it
  -- should, make a stream that ends without an error.
  pub stream_content-complete :
      (items : List Item) (lo hi : ℕ)
      → Covering lo hi items
      → lo ≤ range.start
      → range.start ≤ range.end
      → range.end ≤ hi
      → (stream_content range items true).complete ≡ true
  unfolding stream_content
  stream_content-complete items lo hi c before le reach =
      stream_from-complete lo range.start hi items c le reach (omega arith)
