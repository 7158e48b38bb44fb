-- ===== src/Index/Token.antt =====
-- The write tokens of udp-addr-index/src/lib.rs: stateless, bound to a socket and to a time bucket.
-- `blake3::keyed_hash` is a parameter; the constant-time comparison is the loop of the source.
pub mod Compare
pub mod Laws
use Prim.Native.Nat.{bit_or, bit_xor}
use iroh_content_discovery.Prelude.Bytes.{to_be_bytes}
use iroh_content_discovery.Prelude.{
  ℕ, zero, suc, ◌+◌, ◌-◌, ◌/◌, ◌%◌, ◌^◌, ◌<◌, ◌≡◌, max, Bool, true, false, ◌||◌, Option, none, some,
  List, [], ◌∷◌, ◌++◌, ◌==◌, if◌then◌else◌, length, take, All,
}
use iroh_content_discovery.Net.{SocketAddrV4}
use iroh_content_discovery.Index.Store.{Limits}

-- `blake3::keyed_hash`, which gives 32 bytes for every key and input.
pub record KeyedHash : Type 0 where
  pub hash : List ℕ → List ℕ → List ℕ
  pub hash_bytes :
      (key input : List ℕ) → (length (hash key input) ≡ 32) × All (λ x. x < 256) (hash key input)

-- b"udp-addr-index-token-v1"
abbrev pub token_domain : List ℕ
token_domain =
    b'u' ∷ b'd' ∷ b'p' ∷ b'-' ∷ b'a' ∷ b'd' ∷ b'd' ∷ b'r' ∷ b'-' ∷ b'i' ∷ b'n' ∷ b'd' ∷ b'e' ∷ b'x'
    ∷ b'-' ∷ b't' ∷ b'o' ∷ b'k' ∷ b'e' ∷ b'n' ∷ b'-' ∷ b'v' ∷ b'1' ∷ []

unfoldable pub token_input : SocketAddrV4 → ℕ → List ℕ
unfolding to_be_bytes
token_input addr bucket =
    token_domain ++ (to_be_bytes 4 addr.ip ++ (to_be_bytes 2 addr.port ++ to_be_bytes 8 bucket))

unfoldable pub token_for : KeyedHash → List ℕ → SocketAddrV4 → ℕ → List ℕ
unfolding token_input take
token_for h key addr bucket = take 16 (h.hash key (token_input addr bucket))

unfoldable pub bucket : Limits → ℕ → ℕ
bucket limits now = now / max limits.token_bucket_secs 1

-- The fold of `token_eq` over the zipped tokens.
unfoldable pub token_difference : ℕ → List ℕ → List ℕ → ℕ
token_difference difference (l ∷ left) (r ∷ right) =
    token_difference (bit_or difference (bit_xor l r)) left right
token_difference difference _ _ = difference

unfoldable pub token_eq : List ℕ → List ℕ → Bool
unfolding token_difference
token_eq left right = token_difference 0 left right == 0

unfoldable pub issue_token : KeyedHash → List ℕ → Limits → SocketAddrV4 → ℕ → List ℕ
unfolding token_for bucket
issue_token h key limits addr now = token_for h key addr (bucket limits now)

-- `checked_sub(1)`
abbrev pub previous : ℕ → Option ℕ
previous zero = none
previous (suc n) = some n

unfoldable pub verify_token : KeyedHash → List ℕ → Limits → SocketAddrV4 → List ℕ → ℕ → Bool
unfolding token_for bucket token_eq
verify_token h key limits addr token now =
    let b = bucket limits now in
    token_eq (token_for h key addr b) token
    || elim (previous b) [ none ↦ false | some p ↦ token_eq (token_for h key addr p) token ]
