-- ===== src/Discovery/ServerList/Decoded.antt =====
-- A list that is decoded has at most two servers, each an address that can be asked.
use iroh_content_discovery.Prelude.{
  ℕ, ◌+◌, ◌≤◌, ◌≡◌, inl, inr, true, ◌&&◌, Option, none, some, List, [], ◌∷◌, ◌++◌, All, arith, ltb,
  leb, length, length-append, Bool-cases,
}
use iroh_content_discovery.Prelude.Sets.{contains}
use iroh_content_discovery.Net.{SocketAddrV4, addr_discrete}
use iroh_content_discovery.Discovery.ServerList.{
  Dns, ResourceRecord, valid_address, all_valid, unique_onto, new_list, new_if_any, collect_records,
  decode_records, decode_list,
}

-- Servers that an index may use.
abbrev pub AreServers : List SocketAddrV4 → Type 0
AreServers addrs = (length addrs ≤ 2) × All (λ a. valid_address a ≡ true) addrs

abbrev pub AreServersIfAny : Option (List SocketAddrV4) → Type 0
AreServersIfAny none = Unit
AreServersIfAny (some addrs) = AreServers addrs

All-append :
    (P : SocketAddrV4 → Type 0) (xs ys : List SocketAddrV4) → All P xs → All P ys → All P (xs ++ ys)
All-append P [] ys h k = k
All-append P (x ∷ xs) ys (p, h) k = (p, All-append P xs ys h k)

unique_onto-All :
    (kept addrs : List SocketAddrV4)
    → all_valid addrs ≡ true
    → All (λ a. valid_address a ≡ true) kept
    → (length (unique_onto kept addrs) ≤ length kept + length addrs)
      × All (λ a. valid_address a ≡ true) (unique_onto kept addrs)
unfolding unique_onto all_valid
unique_onto-All kept [] v h = (omega arith, h)
unique_onto-All kept (addr ∷ addrs) v h = elim (Bool-cases (contains addr_discrete kept addr)) [
  | inl e ↦ let (n, rest) = unique_onto-All kept addrs (ground arith) h in rw e (omega arith, rest)
  | inr e ↦
      let (n, rest) =
        unique_onto-All (kept ++ addr ∷ []) addrs (ground arith)
          (All-append (λ a. valid_address a ≡ true) kept (addr ∷ []) h (ground arith, tt)) in
      rw e (omega (arith, length-append kept (addr ∷ [])), rest)
]

new_list-AreServers : (addrs : List SocketAddrV4) → AreServersIfAny (new_list addrs)
unfolding new_list
new_list-AreServers addrs = elim (Bool-cases (leb (length addrs) 2 && all_valid addrs)) [
  | inr e ↦ rw e tt
  | inl e ↦ let (n, rest) = unique_onto-All [] addrs (ground arith) tt in rw e (ground arith, rest)
]

module _ (dns : Dns) where
  new_if_any-AreServers : (o : Option (List SocketAddrV4)) → AreServersIfAny (new_if_any dns o)
  unfolding new_if_any
  new_if_any-AreServers none = tt
  new_if_any-AreServers (some addrs) = new_list-AreServers addrs

  decode_records-AreServers :
      (records : Option (List ResourceRecord)) (name : Option (List ℕ))
      → AreServersIfAny (decode_records dns records name)
  unfolding decode_records
  decode_records-AreServers none name = tt
  decode_records-AreServers (some records) none = tt
  decode_records-AreServers (some records) (some name) =
      new_if_any-AreServers (collect_records dns name records)

  pub decode_list-AreServers : (value key : List ℕ) → AreServersIfAny (decode_list dns value key)
  unfolding decode_list
  decode_list-AreServers value key = elim (Bool-cases (ltb 1000 (length value))) [
    | inl e ↦ rw e tt
    | inr e ↦ rw e (decode_records-AreServers (dns.parse value) (dns.name (dns.z32_encode key)))
  ]
