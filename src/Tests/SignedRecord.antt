-- ===== src/Tests/SignedRecord.antt =====
-- Signed records under a scheme whose signature is the key in front of the signed bytes.
use iroh_content_discovery.Prelude.{
  ℕ, ◌≡◌, refl, Bool, true, false, ◌&&◌, Option, none, some, List, [], ◌∷◌, arith, if◌then◌else◌,
  All, ◌==◌, ℕ_discrete, ap,
}
use iroh_content_discovery.Net.{SocketAddrV4, addr_eq, addr_discrete}
use iroh_content_discovery.Discovery.SignedRecord.{
  Scheme, RecordPayload, v1, SignedRecord, payload_v1, sign, verify, checked, decode_record,
  value_for, lookup_records,
}
use iroh_content_discovery.Discovery.SignedRecord.Bound.{
  IsBound, decode_record-value_for, lookup_records-IsBound,
}

program : Unit {0}
unfolding sign verify checked decode_record value_for lookup_records addr_discrete ℕ_discrete
program = tt

abbrev same_bytes : List ℕ → List ℕ → Bool
same_bytes [] [] = true
same_bytes [] (y ∷ ys) = false
same_bytes (x ∷ xs) [] = false
same_bytes (x ∷ xs) (y ∷ ys) = (x == y) && same_bytes xs ys

same_bytes_refl : (bs : List ℕ) → same_bytes bs bs ≡ true
same_bytes_refl [] = refl
same_bytes_refl (x ∷ xs) = ground (arith, same_bytes_refl xs)

abbrev TestRecord : Type 0
TestRecord = SignedRecord ℕ (List ℕ)

abbrev payload_bytes : RecordPayload → List ℕ
payload_bytes (v1 p) = p.addr.ip ∷ p.addr.port ∷ p.ts ∷ []

abbrev record_bytes : TestRecord → List ℕ
record_bytes r =
    let p = payload_v1 r.payload in r.endpoint_id ∷ p.addr.ip ∷ p.addr.port ∷ p.ts ∷ r.sig

abbrev parse_record : List ℕ → Option TestRecord
parse_record (id ∷ ip ∷ port ∷ ts ∷ sig) = some (record {
  endpoint_id = id;
  payload = v1 (record { addr = record { ip = ip; port = port }; ts = ts });
  sig = sig;
})
parse_record _ = none

payload_kept : (p : RecordPayload) → v1 (payload_v1 p) ≡ p
payload_kept (v1 p) = refl

parse-record_bytes : (r : TestRecord) → parse_record (record_bytes r) ≡ some r
parse-record_bytes r = ap (λ p. some (record r { payload = p })) (payload_kept r.payload)

abbrev scheme : Scheme
scheme = record {
  SecretKey = ℕ;
  EndpointId = ℕ;
  Signature = List ℕ;
  public = λ key. key;
  sign_bytes = λ key bs. key ∷ bs;
  verify_bytes = λ id bs sig. same_bytes sig (id ∷ bs);
  payload_bytes = payload_bytes;
  to_bytes = record_bytes;
  from_bytes = parse_record;
  verifies = λ key bs. same_bytes_refl (key ∷ bs);
  reads = parse-record_bytes;
}

abbrev slot_addr : SocketAddrV4
slot_addr = record { ip = 0xcb007107; port = 6881 }

abbrev copied_addr : SocketAddrV4
copied_addr = record { ip = 0xcb007107; port = 6882 }

decode_record-value_for_example :
    decode_record scheme (value_for scheme 7 100 slot_addr) copied_addr
    ≡ (if addr_eq slot_addr copied_addr then some (sign scheme 7 slot_addr 100) else none)
decode_record-value_for_example = decode_record-value_for scheme 7 100 slot_addr copied_addr

lookup_records-IsBound_example : All (IsBound scheme slot_addr) (
    lookup_records scheme slot_addr
      (value_for scheme 7 100 copied_addr ∷ value_for scheme 8 100 slot_addr ∷ []))
lookup_records-IsBound_example =
    lookup_records-IsBound scheme slot_addr
      (value_for scheme 7 100 copied_addr ∷ value_for scheme 8 100 slot_addr ∷ [])

-- A record that was copied from another slot is dropped.
copied :
    lookup_records scheme slot_addr
      (value_for scheme 7 100 copied_addr ∷ value_for scheme 8 100 slot_addr ∷ [])
    ≡ sign scheme 8 slot_addr 100 ∷ []
unfolding program
copied = refl
