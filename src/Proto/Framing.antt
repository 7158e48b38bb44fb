-- ===== src/Proto/Framing.antt =====
-- Framing: what is encoded is decoded, messages with bounded values fit, and padding is required.
use mathlib.Core.List.{append-nil}
use iroh_content_discovery.Prelude.{
  ℕ, ◌+◌, ◌-◌, ◌≤◌, ◌≡◌, refl, subst, Bool, true, false, none, some, List, [], ◌++◌, length, arith,
  Option-cases, inl, inr, length-append, length-replicate, replicate,
}
use iroh_content_discovery.Proto.{
  magic, max_dgram, max_value_len, strip_prefix, is_padded, frame, encode, decode,
}
use iroh_content_discovery.Proto.Messages.{
  Proto, Request, RequestV1, Response, ResponseV1, Postcard, IsValue, size,
}

length-frame :
    (b : Bool) (body : List ℕ)
    → length body ≤ 1192
    → (length (frame b body) ≡ (elim b [ true ↦ 1200 | false ↦ 8 + length body ]))
unfolding frame
length-frame true body h = omega (
  arith,
  length-append {0} body (replicate (1200 - (8 + length body)) 0),
  length-replicate {0} {A = ℕ} (1200 - (8 + length body)) 0,
)
length-frame false body h = omega arith

abbrev padding : Bool → List ℕ → List ℕ
padding true body = replicate (max_dgram - (length magic + length body)) 0
padding false body = []

frame-append : (b : Bool) (body : List ℕ) → frame b body ≡ magic ++ (body ++ padding b body)
unfolding frame
frame-append true body = refl
frame-append false body = rw append-nil

strip_prefix-magic : (bs : List ℕ) → strip_prefix magic (magic ++ bs) ≡ some bs
unfolding strip_prefix
strip_prefix-magic bs = refl

-- The value in a message has at most `MAX_VALUE_LEN` bytes.
abbrev pub IsBounded : Proto → Type 0
IsBounded (Proto.request (Request.v1 (RequestV1.put tx token v))) = length v ≤ max_value_len
IsBounded (Proto.response (Response.v1 (ResponseV1.value tx addr (some v)))) =
    length v ≤ max_value_len
IsBounded _ = Unit {0}

module _ (pc : Postcard) where
  size-le : (p : Proto) → IsValue p → IsBounded p → size pc.varint p ≤ 1192
  size-le (Proto.request (Request.v1 (RequestV1.prepare tx pad))) v b =
      omega (arith, pc.varint_ten tx v.0)
  size-le (Proto.request (Request.v1 (RequestV1.put tx token w))) v b =
      omega (arith, pc.varint_ten tx v.0, pc.varint_ten (length w) v.2)
  size-le (Proto.request (Request.v1 (RequestV1.get tx addr))) v b =
      omega (arith, pc.varint_ten tx v.0, pc.varint_three addr.port (omega arith))
  size-le (Proto.response (Response.v1 (ResponseV1.prepared tx addr token))) v b =
      omega (arith, pc.varint_ten tx v.0, pc.varint_three addr.port (omega arith))
  size-le (Proto.response (Response.v1 (ResponseV1.stored tx addr))) v b =
      omega (arith, pc.varint_ten tx v.0, pc.varint_three addr.port (omega arith))
  size-le (Proto.response (Response.v1 (ResponseV1.value tx addr none))) v b =
      omega (arith, pc.varint_ten tx v.0, pc.varint_three addr.port (omega arith))
  size-le (Proto.response (Response.v1 (ResponseV1.value tx addr (some w)))) v b = omega (
    arith,
    pc.varint_ten tx v.0,
    pc.varint_ten (length w) v.2,
    pc.varint_three addr.port (omega arith),
  )

  -- A datagram has at most `MAX_DGRAM` bytes, and exactly so many if it is padded.
  pub length-encode :
      (p : Proto) (bs : List ℕ)
      → IsValue p
      → encode pc p ≡ some bs
      → (length bs ≤ 1200)
        × (is_padded p ≡ true → length bs ≡ 1200)
        × (is_padded p ≡ false → length bs ≡ 8 + size pc.varint p)
  unfolding encode
  length-encode p bs v h = elim (Option-cases (pc.to_slice p 1192)) [
    | inl e ↦ absurd (cc)
    | inr (body, e) ↦
        let (exact, most) = pc.sized p 1192 body v e in
        ground (arith, length-frame (is_padded p) body most)
  ]

  decode_framed :
      (p : Proto) (body rest : List ℕ)
      → pc.from_bytes (body ++ rest) ≡ some p
      → length (magic ++ (body ++ rest)) ≤ 1200
      → (is_padded p ≡ true → length (magic ++ (body ++ rest)) ≡ 1200)
      → decode pc (magic ++ (body ++ rest)) ≡ some p
  unfolding decode
  decode_framed p body rest e most full = ground (arith, strip_prefix-magic (body ++ rest))

  -- Decoding a framed message, padded or not, gives the message back.
  pub decode-encode :
      (p : Proto) (bs : List ℕ) → IsValue p → encode pc p ≡ some bs → decode pc bs ≡ some p
  unfolding encode
  decode-encode p bs v h = elim (Option-cases (pc.to_slice p 1192)) [
    | inl e ↦ absurd (cc)
    | inr (body, e) ↦
        let (most, full, _) = length-encode p bs v h in
        let rest = padding (is_padded p) body in
        let shape : bs ≡ magic ++ (body ++ rest) =
          ground (arith, frame-append (is_padded p) body) in
        rw shape (
          decode_framed p body rest (pc.reads p 1192 body rest v e)
            (subst (λ x. length x ≤ 1200) shape most)
            (λ q. subst (λ x. length x ≡ 1200) shape (full q)))
  ]

  -- A message whose value, if it has one, has at most `MAX_VALUE_LEN` bytes always encodes, and into
  -- at most 1200 bytes.
  pub encode_bounded :
      (p : Proto)
      → IsValue p
      → IsBounded p
      → (bs : List ℕ) × (encode pc p ≡ some bs) × (length bs ≤ 1200)
  unfolding encode
  encode_bounded p v b =
      let (body, e) = pc.fits p 1192 v (size-le p v b) in
      let bs = frame (is_padded p) body in
      let sent : encode pc p ≡ some bs = rw e in (bs, sent, (length-encode p bs v sent).0)
