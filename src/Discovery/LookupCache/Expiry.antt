-- ===== src/Discovery/LookupCache/Expiry.antt =====
-- How long a lookup is remembered.
use iroh_content_discovery.Prelude.{
  ℕ, ◌+◌, ◌<◌, ◌≡◌, refl, inl, inr, false, none, some, List, [], ◌∷◌, leb, ltb, ◌==◌, if◌then◌else◌,
  arith, Bool-cases, ◌∙◌,
}
use iroh_content_discovery.Net.{SocketAddrV4}
use iroh_content_discovery.Gateway.Lru.{Lru}
use iroh_content_discovery.Discovery.LookupCache.{Remembered, cached, ttl_for, remember}

module _ {R : Type 0} (lru : Lru SocketAddrV4 (Remembered R)) (addr : SocketAddrV4) where
  cached_present :
      (now expires : ℕ) (records : List R) (c : lru.Cache)
      → lru.peek addr c ≡ some (expires, records)
      → (cached lru now addr c).1 ≡ (if leb expires now then none else some records)
  unfolding cached
  cached_present now expires records c h = elim (Bool-cases (leb expires now)) [
    | inl e ↦ rw (h, cached) (rw e refl)
    | inr e ↦ rw (h, cached) (rw e refl)
  ]

  ttl_for_positive : (ttl : ℕ) (records : List R) → 0 < ttl → (ttl_for ttl records == 0) ≡ false
  ttl_for_positive ttl [] h = ground arith
  ttl_for_positive ttl (r ∷ rs) h = ground arith

  -- In a cache that remembers for some time, a result is read back for that time, an empty one for
  -- at most `MISS_TTL`, and is not read back afterwards.
  pub cached-remember :
      (ttl now later : ℕ) (records : List R) (c : lru.Cache)
      → 0 < ttl
      → (cached lru later addr (remember lru ttl now addr records c)).1
        ≡ (if ltb later (now + ttl_for ttl records) then some records else none)
  unfolding remember
  cached-remember ttl now later records c h = rw (ttl_for_positive ttl records h) (
      cached_present later (now + ttl_for ttl records) records
        (lru.write addr (now + ttl_for ttl records, records) c)
        (lru.peek-write addr (now + ttl_for ttl records, records) c)
      ∙ ground arith)
