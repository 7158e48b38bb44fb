-- ===== src/Proto/Amplification.antt =====
-- What decodes was framed, has the types' ranges and is padded where it must be; so no reply is
-- longer than the request that caused it.
use iroh_content_discovery.Prelude.{
  ℕ, ◌+◌, ◌≤◌, ◌≡◌, ◌≢◌, refl, true, Option, none, some, List, [], ◌∷◌, length, arith, Option-cases,
  inl, inr,
}
use iroh_content_discovery.Net.{SocketAddrV4}
use iroh_content_discovery.Proto.{magic, strip_prefix, is_padded, encode, decode}
use iroh_content_discovery.Proto.Messages.{
  Proto, Request, RequestV1, Response, ResponseV1, Postcard, IsValue, size,
}
use iroh_content_discovery.Proto.Framing.{length-encode}

length-strip_prefix :
    (ps bs rest : List ℕ) → strip_prefix ps bs ≡ some rest → length bs ≡ length ps + length rest
unfolding strip_prefix
length-strip_prefix [] bs rest h = ground arith
length-strip_prefix (p ∷ ps) [] rest h = cc
length-strip_prefix (p ∷ ps) (b ∷ bs) rest h = ground (arith, length-strip_prefix ps bs rest)

-- What a decoded datagram tells of its bytes.
pub record IsFramed (pc : Postcard) (p : Proto) (bs : List ℕ) : Type 0 where
  pub values : IsValue p
  pub most : length bs ≤ 1200
  pub least : 8 + size pc.varint p ≤ length bs
  pub padded : is_padded p ≡ true → length bs ≡ 1200

-- A datagram is decoded only with the magic in front, with at most `MAX_DGRAM` bytes and no fewer
-- than its message takes, and a get request only with exactly `MAX_DGRAM` bytes.
pub decode-IsFramed :
    (pc : Postcard) (bs : List ℕ) (p : Proto)
    → decode pc bs ≡ some p
    → IsFramed pc p bs × (strip_prefix magic bs ≢ none)
unfolding decode
decode-IsFramed pc bs p h = elim (Option-cases (strip_prefix magic bs)) [
  | inl e ↦ absurd (ground arith)
  | inr (body, e) ↦ elim (Option-cases (pc.from_bytes body)) [
    | inl f ↦ absurd (ground arith)
    | inr (q, f) ↦
        let same : q ≡ p = ground arith in
        let (values, least) = pc.ranges body p (rw (← same) f) in
        (
          record {
            values = values;
            most = ground arith;
            least = omega (arith, length-strip_prefix magic bs body e);
            padded = λ pad. ground arith;
          },
          λ gone. cc,
        )
  ]
]

-- The response that answers a request, with the request's transaction id.
pub data Answers : RequestV1 → ResponseV1 → Type 0 where
  to_prepare :
      (tx : ℕ) (padding : List ℕ) (addr : SocketAddrV4) (token : List ℕ)
      → Answers (RequestV1.prepare tx padding) (ResponseV1.prepared tx addr token)
  to_put :
      (tx : ℕ) (token v : List ℕ) (addr : SocketAddrV4)
      → Answers (RequestV1.put tx token v) (ResponseV1.stored tx addr)
  to_get :
      (tx : ℕ) (addr : SocketAddrV4) (found : Option (List ℕ))
      → Answers (RequestV1.get tx addr) (ResponseV1.value tx addr found)

abbrev pub request : RequestV1 → Proto
request r = Proto.request (Request.v1 r)

abbrev pub response : ResponseV1 → Proto
response r = Proto.response (Response.v1 r)

-- No reply is longer than the datagram of the request that it answers: a forged source address
-- gains an attacker nothing.
pub encode-le_of_Answers :
    (pc : Postcard) (bs out : List ℕ) {r : RequestV1} {q : ResponseV1}
    → Answers r q
    → decode pc bs ≡ some (request r)
    → IsValue (response q)
    → encode pc (response q) ≡ some out
    → length out ≤ length bs
unfolding is_padded
encode-le_of_Answers pc bs out (to_prepare tx padding addr token) h v e =
    let f = (decode-IsFramed pc bs _ h).0 in
    omega (arith, (length-encode pc _ out v e).2 refl, pc.varint_three addr.port (omega arith))
encode-le_of_Answers pc bs out (to_put tx token w addr) h v e =
    let f = (decode-IsFramed pc bs _ h).0 in
    omega (arith, (length-encode pc _ out v e).2 refl, pc.varint_three addr.port (omega arith))
encode-le_of_Answers pc bs out (to_get tx addr found) h v e =
    let f = (decode-IsFramed pc bs _ h).0 in
    omega (arith, (length-encode pc _ out v e).0, f.padded refl)
