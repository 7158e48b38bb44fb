-- ===== src/Discovery/SignedRecord.antt =====
-- iroh-mainline-endpoint-discovery/src/record.rs: the signed value that an endpoint stores on index
-- servers, and the use of it by `AddrIndex` in addr_index.rs. Signatures and the postcard encoding
-- are parameters; a value is a list of bytes.

pub mod Bound
use iroh_content_discovery.Prelude.{
  ℕ, ◌≡◌, Bool, true, false, ◌&&◌, Option, none, some, List, [], ◌∷◌, if◌then◌else◌,
}
use iroh_content_discovery.Net.{SocketAddrV4, addr_eq}

pub record RecordPayloadV1 : Type 0 where
  pub addr : SocketAddrV4
  pub ts : ℕ

pub data RecordPayload : Type 0 where
  v1 : RecordPayloadV1 → RecordPayload

pub record SignedRecord (EndpointId Signature : Type 0) : Type 0 where
  pub endpoint_id : EndpointId
  pub payload : RecordPayload
  pub sig : Signature

-- Encoding into a vector does not fail, a signature that a key makes verifies under its public key,
-- and decoding reads what encoding wrote.
pub record Scheme : Type 1 where
  pub SecretKey : Type 0
  pub EndpointId : Type 0
  pub Signature : Type 0
  pub public : SecretKey → EndpointId
  pub sign_bytes : SecretKey → List ℕ → Signature
  pub verify_bytes : EndpointId → List ℕ → Signature → Bool
  pub payload_bytes : RecordPayload → List ℕ
  pub to_bytes : SignedRecord EndpointId Signature → List ℕ
  pub from_bytes : List ℕ → Option (SignedRecord EndpointId Signature)
  pub verifies :
      (secret : SecretKey) (bs : List ℕ)
      → verify_bytes (public secret) bs (sign_bytes secret bs) ≡ true
  pub reads : (r : SignedRecord EndpointId Signature) → from_bytes (to_bytes r) ≡ some r

abbrev pub payload_v1 : RecordPayload → RecordPayloadV1
payload_v1 (v1 p) = p

abbrev pub is_some : {A : Type 0} → Option A → Bool
is_some none = false
is_some (some a) = true

module _ (scheme : Scheme) where
  abbrev pub Signed : Type 0
  Signed = SignedRecord scheme.EndpointId scheme.Signature

  unfoldable pub sign : scheme.SecretKey → SocketAddrV4 → ℕ → Signed
  sign secret addr ts =
      let payload = v1 (record { addr = addr; ts = ts }) in
      record {
        endpoint_id = scheme.public secret;
        payload = payload;
        sig = scheme.sign_bytes secret (scheme.payload_bytes payload);
      }

  abbrev pub record_addr : Signed → SocketAddrV4
  record_addr r = (payload_v1 r.payload).addr

  unfoldable pub verify : Signed → Bool
  verify r = scheme.verify_bytes r.endpoint_id (scheme.payload_bytes r.payload) r.sig

  unfoldable pub checked : Option Signed → SocketAddrV4 → Option Signed
  unfolding verify
  checked none addr = none
  checked (some r) addr = if addr_eq (record_addr r) addr && verify r then some r else none

  unfoldable pub decode_record : List ℕ → SocketAddrV4 → Option Signed
  unfolding checked
  decode_record value addr = checked (scheme.from_bytes value) addr

  -- What `AddrIndex::publish` stores on the server that observed a socket.
  unfoldable pub value_for : scheme.SecretKey → ℕ → SocketAddrV4 → List ℕ
  unfolding sign
  value_for secret ts addr = scheme.to_bytes (sign secret addr ts)

  -- The test of `AddrIndex::lookup_uncached` that ends a lookup early.
  abbrev pub accept_value : SocketAddrV4 → List ℕ → Bool
  accept_value addr value = is_some (decode_record value addr)

  -- `filter_map` of the values that a lookup got.
  unfoldable pub lookup_records : SocketAddrV4 → List (List ℕ) → List Signed
  unfolding decode_record
  lookup_records addr [] = []
  lookup_records addr (value ∷ values) =
      let rest = lookup_records addr values in
      elim (decode_record value addr) [ none ↦ rest | some r ↦ r ∷ rest ]
