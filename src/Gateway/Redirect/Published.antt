-- ===== src/Gateway/Redirect/Published.antt =====
-- What a publisher sets, the gateway serves.
use iroh_content_discovery.Prelude.{
  ℕ, ◌≡◌, refl, sym, ap, ◌∙◌, inl, inr, true, Option, none, some, List, [], ◌∷◌, ◌++◌, leb, length,
  Bool-cases,
}
use mathlib.Core.List.{append_assoc}
use mathlib.Core.Option.{some-injective}
use iroh_content_discovery.Prelude.Bytes.{codes, bytes_eq_refl, strip_suffix, to_ascii_lowercase}
use iroh_content_discovery.Prelude.Bytes.Suffix.{strip_suffix-restore}
use iroh_content_discovery.Prelude.Maps.{lookup, insert, lookup-insert_same}
use iroh_content_discovery.Gateway.Http.{Crates}
use iroh_content_discovery.Gateway.Urls.Origin.{RoundTrips, parse_z32_bytes-canonical}
use iroh_content_discovery.Discovery.Client.{bytes_discrete}
use iroh_content_discovery.Discovery.ServerList.{Dns, ResourceRecord, https, ttl_seconds}
use iroh_content_discovery.Discovery.Pkarr.{
  Signing, Publisher, edited, is_hostname, blake3_domain, set_raw, https_packet, record_name,
  set_https, set_blake3,
}
use iroh_content_discovery.Gateway.Redirect.{
  trim_dots, authority, authority_of, with_priority, least_target, least_targets, target_of,
  before_domain, hash_label, content_hash,
}

-- The host of a hash.
abbrev pub host_of : List ℕ → List ℕ
host_of text = text ++ b'.' ∷ blake3_domain

trim_dots-keeps :
    (xs : List ℕ) (c : ℕ) (cs : List ℕ)
    → trim_dots (c ∷ cs) ≡ c ∷ cs
    → trim_dots (xs ++ c ∷ cs) ≡ xs ++ c ∷ cs
unfolding trim_dots
trim_dots-keeps [] c cs h = h
trim_dots-keeps (b ∷ []) c cs h = rw (trim_dots-keeps [] c cs h) refl
trim_dots-keeps (b ∷ x ∷ xs) c cs h = rw (trim_dots-keeps (x ∷ xs) c cs h) refl

domain_trimmed : trim_dots (b'.' ∷ blake3_domain) ≡ b'.' ∷ blake3_domain
unfolding trim_dots
domain_trimmed = refl

authority-host :
    (text : List ℕ)
    → is_hostname (host_of text) ≡ true
    → authority 0 (host_of text) [] ≡ some (host_of text)
unfolding authority
authority-host text h = rw (trim_dots-keeps text b'.' blake3_domain domain_trimmed, h) refl

-- The record that names a host under a zone.
abbrev pub host_record : List ℕ → List ℕ → ResourceRecord
host_record zone host = record {
  name = zone;
  class_in = true;
  ttl = ttl_seconds;
  rdata = https 0 host [];
}

target_of-host :
    (zone text : List ℕ)
    → is_hostname (host_of text) ≡ true
    → target_of zone (host_record zone (host_of text) ∷ []) ≡ some (host_of text)
unfolding target_of least_targets authority_of with_priority least_target
target_of-host zone text h =
    rw (bytes_eq_refl (to_ascii_lowercase zone), authority-host text h) refl

module _ (lib : Crates) where
  content_hash-host :
      (hash : List ℕ)
      → RoundTrips lib
      → length hash ≡ 32
      → content_hash lib (host_of (lib.z32_encode hash)) ≡ some hash
  unfolding content_hash before_domain hash_label
  content_hash-host hash laws n =
      let text = lib.z32_encode hash in
      ap (λ host. before_domain lib (strip_suffix blake3_domain host))
        (sym (append_assoc text (codes ".") blake3_domain))
      ∙ ap (before_domain lib) (strip_suffix-restore (text ++ codes ".") blake3_domain)
      ∙ ap (hash_label lib) (strip_suffix-restore text (codes "."))
      ∙ (parse_z32_bytes-canonical lib text hash laws).1 (n, refl)

-- What `simple_dns` documents of a packet with one record: it is read back.
abbrev pub ReadsBack : Dns → ResourceRecord → Type 0
ReadsBack dns r =
    (bytes : List ℕ) → dns.build (r ∷ []) ≡ some bytes → dns.parse bytes ≡ some (r ∷ [])

module _ (dns : Dns) (s : Signing) (p q : Publisher s) (key : s.SigningKey) where
  set_raw-lookup :
      (bytes : List ℕ)
      → set_raw s p key (some bytes) ≡ some q
      → lookup bytes_discrete (s.public_key key) q.packets ≡ some (key, bytes)
  unfolding set_raw
  set_raw-lookup bytes h = elim (Bool-cases (leb (length bytes) 1000)) [
    | inr e ↦ absurd cc
    | inl e ↦
        let packets = insert bytes_discrete (s.public_key key) (key, bytes) p.packets in
        let r : Publisher s = edited s (record p { packets = packets }) in
        let same : r ≡ q = some-injective r q (sym (rw e refl) ∙ h) in
        ap (λ x. lookup bytes_discrete (s.public_key key) x.packets) (sym same)
        ∙ lookup-insert_same bytes_discrete (s.public_key key) (key, bytes) p.packets
  ]

  set_raw-built :
      (o : Option (List ℕ))
      → set_raw s p key o ≡ some q
      → (bytes : List ℕ) × (o ≡ some bytes)
        × (lookup bytes_discrete (s.public_key key) q.packets ≡ some (key, bytes))
  unfolding set_raw
  set_raw-built none h = absurd cc
  set_raw-built (some bytes) h = (bytes, refl, set_raw-lookup bytes h)

  -- The packet of a key, after a change that succeeded.
  abbrev Holds : List ResourceRecord → Type 0
  Holds records =
      (bytes : List ℕ) × (lookup bytes_discrete (s.public_key key) q.packets ≡ some (key, bytes))
      × (dns.parse bytes ≡ some records)

  set_https-Holds :
      (host : List ℕ)
      → ReadsBack dns (host_record (dns.z32_encode (s.public_key key)) host)
      → dns.name (dns.z32_encode (s.public_key key)) ≡ some (dns.z32_encode (s.public_key key))
      → dns.name host ≡ some host
      → set_https dns s p key [] host ≡ some q
      → (is_hostname host ≡ true)
        × Holds (host_record (dns.z32_encode (s.public_key key)) host ∷ [])
  unfolding set_https https_packet record_name
  set_https-Holds host laws zone_name host_name h = elim (Bool-cases (is_hostname host)) [
    | inr e ↦ absurd (let f : none ≡ some q = sym (rw e refl) ∙ h in cc)
    | inl e ↦
        let zone = dns.z32_encode (s.public_key key) in
        let record_of = host_record zone host in
        let set : set_raw s p key (dns.build (record_of ∷ [])) ≡ some q =
          sym (rw (e, zone_name, host_name) refl) ∙ h in
        let (bytes, built, held) = set_raw-built (dns.build (record_of ∷ [])) set in
        (e, (bytes, held, laws bytes built))
  ]

  -- A hash that is published under a key is what the gateway serves for that key: the packet that is
  -- published has a target, and the target is the host of the hash. The DNS crate reads the packet
  -- back and takes the two names as they are, and z-base-32 reads back 32 bytes.
  pub content_hash-set_blake3 :
      (lib : Crates) (hash : List ℕ)
      → ReadsBack dns
          (host_record (dns.z32_encode (s.public_key key)) (host_of (lib.z32_encode hash)))
      → RoundTrips lib
      → length hash ≡ 32
      → dns.z32_encode hash ≡ lib.z32_encode hash
      → dns.name (dns.z32_encode (s.public_key key)) ≡ some (dns.z32_encode (s.public_key key))
      → dns.name (host_of (lib.z32_encode hash)) ≡ some (host_of (lib.z32_encode hash))
      → set_blake3 dns s p key hash ≡ some q
      → (bytes : List ℕ) × (records : List ResourceRecord) × (host : List ℕ) × (lookup
            bytes_discrete
            (s.public_key key)
            q.packets
          ≡ some (key, bytes))
        × (dns.parse bytes ≡ some records)
        × (target_of (dns.z32_encode (s.public_key key)) records ≡ some host)
        × (content_hash lib host ≡ some hash)
  unfolding set_blake3
  content_hash-set_blake3 lib hash laws codec n same zone_name host_name h =
      let text = lib.z32_encode hash in
      let host = host_of text in
      let zone = dns.z32_encode (s.public_key key) in
      let set : set_https dns s p key [] host ≡ some q =
        ap (λ t. set_https dns s p key [] (host_of t)) (sym same) ∙ h in
      let (good, (bytes, held, parsed)) = set_https-Holds host laws zone_name host_name set in
      (
        bytes,
        host_record zone host ∷ [],
        host,
        held,
        parsed,
        target_of-host zone text good,
        content_hash-host lib hash codec n,
      )
