-- ===== src/Proto.antt =====
-- udp-addr-index-proto/src/lib.rs: the datagrams of the address index, framed and padded. The
-- postcard encoding of a message is a parameter, described in `Proto.Messages`.
pub mod Messages
pub mod Framing
pub mod Amplification
use iroh_content_discovery.Prelude.{
  ℕ, ◌+◌, ◌-◌, Bool, true, false, ◌||◌, not, Option, none, some, List, [], ◌∷◌, ◌++◌, ltb, ◌==◌,
  if◌then◌else◌, length, replicate,
}
use mathlib.Core.Option
use Messages.{Proto, Request, RequestV1, Response, Postcard}

abbrev pub magic : List ℕ
magic = 0 ∷ b'a' ∷ b'd' ∷ b'd' ∷ b'r' ∷ b'i' ∷ b'd' ∷ b'x' ∷ []

abbrev pub max_dgram : ℕ
max_dgram = 1200

abbrev pub max_value_len : ℕ
max_value_len = 1024

-- `<[u8]>::strip_prefix`
unfoldable pub strip_prefix : List ℕ → List ℕ → Option (List ℕ)
strip_prefix [] bs = some bs
strip_prefix (p ∷ ps) [] = none
strip_prefix (p ∷ ps) (b ∷ bs) = if p == b then strip_prefix ps bs else none

unfoldable pub is_padded : Proto → Bool
is_padded (Proto.request (Request.v1 (RequestV1.get tx addr))) = true
is_padded (Proto.request (Request.v1 (RequestV1.put tx token v))) = false
is_padded (Proto.request (Request.v1 (RequestV1.prepare tx padding))) = false
is_padded (Proto.response r) = false

-- The buffer behind the encoded message is zeroed for a padded message and cut off for others.
frame : Bool → List ℕ → List ℕ
frame true body = magic ++ (body ++ replicate (max_dgram - (length magic + length body)) 0)
frame false body = magic ++ body

unfoldable pub encode : Postcard → Proto → Option (List ℕ)
unfolding frame is_padded
encode pc p = Option.map (frame (is_padded p)) (pc.to_slice p (max_dgram - length magic))

unfoldable pub decode : Postcard → List ℕ → Option Proto
unfolding is_padded strip_prefix
decode pc bs = if ltb max_dgram (length bs) then none else elim (strip_prefix magic bs) [
  | none ↦ none
  | some body ↦ elim (pc.from_bytes body) [
    | none ↦ none
    | some p ↦ if not (is_padded p) || length bs == max_dgram then some p else none
  ]
]
