-- ===== src/Gateway/Blobs/Length.antt =====
-- A body has the length that its header announces.
use iroh_content_discovery.Prelude.{
  ℕ, ◌+◌, ◌-◌, ◌*◌, min, ◌^◌, ◌≤◌, ◌<◌, ◌≡◌, refl, sym, ap, subst, ◌∙◌, inl, inr, Bool, true,
  Option, none, some, List, [], ◌∷◌, ◌++◌, Result, ok, err, arith, ltb, ◌==◌, length, concat, slice,
  drop, length-append, length-take, length-drop, All, Bool-cases,
}
use mathlib.Core.Option.{some-injective}
use iroh_content_discovery.Gateway.Ranges.{Range}
use iroh_content_discovery.Gateway.Stream.{Item, Streamed, stream_content}
use iroh_content_discovery.Gateway.Stream.Exact.{
  FromBlob, Covering, stream_content-slice, stream_content-complete,
}
use iroh_content_discovery.Gateway.Http.{HttpError}
use iroh_content_discovery.Gateway.Blobs.{
  Source, Fetched, answered, failed_start, timed_out, chunks_for, crlf, part_header, closing_line,
  checked_add, lengths_onto, multipart_length, followed_by, fetched_content, part_content,
  multipart_content,
}

-- A stream of so many bytes, or of less if an error ends it.
abbrev pub Weighs : ℕ → Streamed → Type 0
Weighs n s = (length (concat s.chunks) ≤ n) × (s.complete ≡ true → length (concat s.chunks) ≡ n)

-- A content that was fetched, if there is one.
abbrev pub WeighsIfAny : ℕ → Result HttpError Streamed → Type 0
WeighsIfAny n (err e) = Unit
WeighsIfAny n (ok s) = Weighs n s

-- The items of an answer are the blob's.
abbrev pub IsVerified : List ℕ → Fetched → Type 0
IsVerified blob (answered items closing size) = FromBlob blob items
IsVerified blob failed_start = Unit
IsVerified blob timed_out = Unit

-- An answer that has all of the chunks that were asked for, as far as the blob has them.
abbrev pub IsWhole : List ℕ → Range → Fetched → Type 0
IsWhole blob chunks (answered items closing size) =
    (closing ≡ true)
    × (size ≡ length blob)
    × (lo hi : ℕ) × Covering lo hi items
    × (lo ≤ chunks.start * 1024)
    × (min (chunks.end * 1024) (length blob) ≤ hi)
IsWhole blob chunks failed_start = ⊥
IsWhole blob chunks timed_out = ⊥

abbrev pub FitsIn : ℕ → Range → Type 0
FitsIn size range = (range.start < range.end) × (range.end ≤ size)

length-slice : (blob : List ℕ) (a b : ℕ) → length (slice a b blob) ≡ min (b - a) (length blob - a)
length-slice blob a b = omega (arith, length-take (b - a) (drop a blob), length-drop a blob)

concat-append :
    (a b : List (List ℕ)) → length (concat (a ++ b)) ≡ length (concat a) + length (concat b)
unfolding concat
concat-append [] b = omega arith
concat-append (x ∷ a) b =
    omega (arith, concat-append a b, length-append x (concat (a ++ b)), length-append x (concat a))

followed_by-Weighs :
    (m n : ℕ) (first next : Streamed)
    → Weighs m first
    → Weighs n next
    → Weighs (m + n) (followed_by first next)
followed_by-Weighs m n first next (a, b) (c, d) = elim (Bool-cases first.complete) [
  | inr f ↦ rw f (omega arith, λ e. absurd cc)
  | inl f ↦
      let whole = b f in
      rw f (
        omega (arith, concat-append first.chunks next.chunks),
        λ e. omega (arith, d e, concat-append first.chunks next.chunks),
      )
]

checked_add_sum :
    (o : Option ℕ) (b sum : ℕ) → checked_add o b ≡ some sum → (a : ℕ) × (o ≡ some a) × (sum ≡ a + b)
checked_add_sum none b sum h = absurd cc
checked_add_sum (some a) b sum h = elim (Bool-cases (ltb (a + b) (2 ^ 64))) [
  | inl e ↦ (a, refl, sym (some-injective (a + b) sum (sym (rw e refl) ∙ h)))
  | inr e ↦ absurd cc
]

module _ (blob : List ℕ) (source : Source) where
  pub stream_content-Weighs :
      (range : Range) (items : List Item) (closing : Bool)
      → FitsIn (length blob) range
      → FromBlob blob items
      → Weighs (range.end - range.start) (stream_content range items closing)
  stream_content-Weighs range items closing (less, fits) h =
      let (to, bytes, within, full) =
        stream_content-slice blob range items closing h (omega arith) in
      let n = ap length bytes ∙ length-slice blob range.start to in
      (omega (arith, n), λ done. omega (arith, n, full done))

  fetched_content-Weighs :
      (range : Range) (f : Fetched)
      → FitsIn (length blob) range
      → IsVerified blob f
      → WeighsIfAny (range.end - range.start) (fetched_content source range f)
  unfolding fetched_content
  fetched_content-Weighs range timed_out fits h = tt
  fetched_content-Weighs range failed_start fits h = tt
  fetched_content-Weighs range (answered items closing size) fits h =
      elim (Bool-cases (size == source.size)) [
        | inr e ↦ rw e tt
        | inl e ↦ rw e (stream_content-Weighs range items closing fits h)
      ]

  part_content-Weighs :
      (range : Range) (boundary : List ℕ) (n : ℕ) (o : Result HttpError Streamed)
      → WeighsIfAny n o
      → Weighs
          (length (part_header source range boundary) + n + 2)
          (part_content source range boundary o)
  unfolding part_content concat
  part_content-Weighs range boundary n (err e) w = (omega arith, λ e. absurd cc)
  part_content-Weighs range boundary n (ok sent) (less, same) =
      let header = part_header source range boundary in
      elim (Bool-cases sent.complete) [
        | inr f ↦ rw f (
          omega (
            arith,
            length-append header (concat (sent.chunks ++ [])),
            concat-append sent.chunks [],
          ),
          λ e. absurd cc,
        )
        | inl f ↦
            let n = length-append header (concat (sent.chunks ++ crlf ∷ [])) in
            let m = concat-append sent.chunks (crlf ∷ []) in
            let whole = same f in rw f (omega (arith, n, m, whole), λ e. omega (arith, n, m, whole))
      ]

  -- What the parts weigh.
  abbrev parts_length : List ℕ → List Range → ℕ
  parts_length boundary [] = 0
  parts_length boundary (range ∷ ranges) =
      length (part_header source range boundary)
      + (range.end - range.start)
      + 2
      + parts_length boundary ranges

  lengths_onto_sum :
      (boundary : List ℕ) (o : Option ℕ) (sum : ℕ) (ranges : List Range)
      → lengths_onto source boundary o ranges ≡ some sum
      → (total : ℕ) × (o ≡ some total) × (sum ≡ total + parts_length boundary ranges)
  unfolding lengths_onto
  lengths_onto_sum boundary o sum [] h = (sum, h, omega arith)
  lengths_onto_sum boundary o sum (range ∷ ranges) h =
      let header = length (part_header source range boundary) in
      let body = range.end - range.start in
      let (t3, e3, s3) =
        lengths_onto_sum boundary (checked_add (checked_add (checked_add o header) body) 2) sum
          ranges h in
      let (t2, e2, s2) = checked_add_sum (checked_add (checked_add o header) body) 2 t3 e3 in
      let (t1, e1, s1) = checked_add_sum (checked_add o header) body t2 e2 in
      let (t0, e0, s0) = checked_add_sum o header t1 e1 in (t0, e0, omega (arith, s0, s1, s2, s3))

  multipart_content-Weighs :
      (fetch : Range → Fetched) (ranges : List Range) (boundary : List ℕ)
      → All (FitsIn (length blob)) ranges
      → All (λ r. IsVerified blob (fetch (chunks_for r))) ranges
      → Weighs
          (length (closing_line boundary) + parts_length boundary ranges)
          (multipart_content fetch source ranges boundary)
  unfolding multipart_content concat
  multipart_content-Weighs fetch [] boundary fits h = (
    omega (arith, length-append (closing_line boundary) []),
    λ e. omega (arith, length-append (closing_line boundary) []),
  )
  multipart_content-Weighs fetch (range ∷ ranges) boundary (fit, fits) (h, hs) =
      let f = fetch (chunks_for range) in
      subst (λ n. Weighs n (multipart_content fetch source (range ∷ ranges) boundary)) (omega arith)
        (followed_by-Weighs
          (length (part_header source range boundary) + (range.end - range.start) + 2)
          (length (closing_line boundary) + parts_length boundary ranges)
          (part_content source range boundary (fetched_content source range f))
          (multipart_content fetch source ranges boundary)
          (part_content-Weighs range boundary (range.end - range.start)
            (fetched_content source range f) (fetched_content-Weighs range f fit h))
          (multipart_content-Weighs fetch ranges boundary fits hs))

  -- The body of a multipart response has as many bytes as its header announces, or less if an error
  -- ends it: the ranges are in the blob, and the items that the provider sends are the blob's.
  pub multipart_content-length :
      (fetch : Range → Fetched) (ranges : List Range) (boundary : List ℕ) (total : ℕ)
      → All (FitsIn (length blob)) ranges
      → All (λ r. IsVerified blob (fetch (chunks_for r))) ranges
      → multipart_length source ranges boundary ≡ some total
      → Weighs total (multipart_content fetch source ranges boundary)
  unfolding multipart_length
  multipart_content-length fetch ranges boundary total fits h e =
      let start = length (closing_line boundary) in
      let (t, same, sum) = lengths_onto_sum boundary (some start) total ranges e in
      let n : length (closing_line boundary) + parts_length boundary ranges ≡ total =
        omega (arith, sum, some-injective start t same) in
      subst (λ n. Weighs n (multipart_content fetch source ranges boundary)) n
        (multipart_content-Weighs fetch ranges boundary fits h)

  part_content_whole :
      (range : Range) (boundary : List ℕ) (f : Fetched)
      → source.size ≡ length blob
      → FitsIn (length blob) range
      → IsVerified blob f
      → IsWhole blob (chunks_for range) f
      → (part_content source range boundary (fetched_content source range f)).complete ≡ true
  unfolding part_content fetched_content
  part_content_whole range boundary failed_start size fits v h = absurd h
  part_content_whole range boundary timed_out size fits v h = absurd h
  part_content_whole range boundary (answered items closing got) size (less, fits) v h =
      let (closes, announced, lo, hi, covering, before, reach) = h in
      let same : (got == source.size) ≡ true = ground arith in
      rw (same, closes)
        (stream_content-complete blob range items lo hi covering (omega arith) (omega arith)
          (omega arith))

  -- A provider of the blob that sends all of the chunks that it is asked for, as far as the blob has
  -- them, completes the body: the chunks of each range cover it.
  pub multipart_content_whole :
      (fetch : Range → Fetched) (ranges : List Range) (boundary : List ℕ)
      → source.size ≡ length blob
      → All (FitsIn (length blob)) ranges
      → All (λ r. IsVerified blob (fetch (chunks_for r))) ranges
      → All (λ r. IsWhole blob (chunks_for r) (fetch (chunks_for r))) ranges
      → (multipart_content fetch source ranges boundary).complete ≡ true
  unfolding multipart_content
  multipart_content_whole fetch [] boundary size fits v w = refl
  multipart_content_whole fetch (range ∷ ranges) boundary size (fit, fits) (v, vs) (w, ws) =
      rw
        (
          part_content_whole range boundary (fetch (chunks_for range)) size fit v w,
          multipart_content_whole fetch ranges boundary size fits vs ws,
        )
        refl
