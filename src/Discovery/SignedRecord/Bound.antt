-- ===== src/Discovery/SignedRecord/Bound.antt =====
-- A record is found only under the socket that it was signed for, and is found there.
use iroh_content_discovery.Prelude.{
  ℕ, ◌≡◌, inl, inr, true, ◌&&◌, Option, none, some, List, [], ◌∷◌, arith, if◌then◌else◌, All,
  Option-cases, Bool-cases, subst, ap, ◌∙◌,
}
use iroh_content_discovery.Net.{SocketAddrV4, addr_eq}
use iroh_content_discovery.Discovery.SignedRecord.{
  Scheme, v1, Signed, sign, record_addr, verify, checked, decode_record, value_for, lookup_records,
}

module _ (scheme : Scheme) where
  addr_eq_refl : (a : SocketAddrV4) → addr_eq a a ≡ true
  addr_eq_refl a = ground arith

  addr_eq_sound : (a b : SocketAddrV4) → addr_eq a b ≡ true → a ≡ b
  addr_eq_sound a b h = ground arith

  -- A record of a slot: signed for the slot, with a signature that verifies.
  abbrev pub IsBound : SocketAddrV4 → Signed scheme → Type 0
  IsBound addr r = (record_addr scheme r ≡ addr) × (verify scheme r ≡ true)

  abbrev BoundIfAny : SocketAddrV4 → Option (Signed scheme) → Type 0
  BoundIfAny addr none = Unit
  BoundIfAny addr (some r) = IsBound addr r

  checked-BoundIfAny :
      (o : Option (Signed scheme)) (addr : SocketAddrV4) → BoundIfAny addr (checked scheme o addr)
  unfolding checked
  checked-BoundIfAny none addr = tt
  checked-BoundIfAny (some s) addr =
      elim (Bool-cases (addr_eq (record_addr scheme s) addr && verify scheme s)) [
        | inl e ↦
            rw (e, checked) (addr_eq_sound (record_addr scheme s) addr (ground arith), ground arith)
        | inr e ↦ rw (e, checked) tt
      ]

  checked-sign :
      (secret : scheme.SecretKey) (ts : ℕ) (own addr : SocketAddrV4)
      → checked scheme (some (sign scheme secret own ts)) addr
        ≡ (if addr_eq own addr then some (sign scheme secret own ts) else none)
  unfolding checked sign verify
  checked-sign secret ts own addr =
      ground
        (arith, scheme.verifies secret (scheme.payload_bytes (v1 (record { addr = own; ts = ts }))))

  -- Decoding what was signed for a socket gives the record under that socket and, under every other
  -- socket, none.
  pub decode_record-value_for :
      (secret : scheme.SecretKey) (ts : ℕ) (own addr : SocketAddrV4)
      → decode_record scheme (value_for scheme secret ts own) addr
        ≡ (if addr_eq own addr then some (sign scheme secret own ts) else none)
  unfolding decode_record value_for
  decode_record-value_for secret ts own addr =
      ap (λ o. checked scheme o addr) (scheme.reads (sign scheme secret own ts))
      ∙ checked-sign secret ts own addr

  -- Every record that a lookup returns was signed for the socket that was looked up, by the key of
  -- its endpoint, whatever values the servers answered.
  pub lookup_records-IsBound :
      (addr : SocketAddrV4) (values : List (List ℕ))
      → All (IsBound addr) (lookup_records scheme addr values)
  unfolding lookup_records decode_record
  lookup_records-IsBound addr [] = tt
  lookup_records-IsBound addr (value ∷ values) =
      elim (Option-cases (decode_record scheme value addr)) [
        | inl e ↦ rw (e, lookup_records) (lookup_records-IsBound addr values)
        | inr (r, e) ↦
            rw (e, lookup_records)
              (
                subst (BoundIfAny addr) e (checked-BoundIfAny (scheme.from_bytes value) addr),
                lookup_records-IsBound addr values,
              )
      ]
