-- ===== src/Discovery/LookupCache.antt =====
-- iroh-mainline-endpoint-discovery/src/lookup_cache.rs: the cache of index lookups. The LRU cache of
-- the lru crate is a parameter, the clock of each call is an argument, and times are in
-- milliseconds. The locks that let concurrent callers share a lookup are not modelled.

pub mod Expiry
use iroh_content_discovery.Prelude.{
  ℕ, ◌+◌, Bool, true, false, Option, none, some, List, [], ◌∷◌, leb, ◌==◌, min, if◌then◌else◌,
}
use iroh_content_discovery.Net.{SocketAddrV4}
use iroh_content_discovery.Gateway.Lru.{Lru}

abbrev pub lookup_miss_ttl : ℕ
lookup_miss_ttl = 30000

abbrev pub Remembered : Type 0 → Type 0
Remembered R = ℕ × List R

-- How long a result is remembered.
abbrev pub ttl_for : {R : Type 0} → ℕ → List R → ℕ
ttl_for ttl [] = min ttl lookup_miss_ttl
ttl_for ttl (r ∷ rs) = ttl

module _ {R : Type 0} (lru : Lru SocketAddrV4 (Remembered R)) where
  -- `LookupCache::get`, whose `pop` of an expired entry leaves the cache without it.
  unfoldable pub cached : ℕ → SocketAddrV4 → lru.Cache → lru.Cache × Option (List R)
  cached now addr c = elim (lru.peek addr c) [
    | none ↦ (c, none)
    | some (expires, records) ↦
        if leb expires now
        then (lru.pop addr c, none)
        else (lru.write addr (expires, records) c, some records)
  ]

  unfoldable pub remember : ℕ → ℕ → SocketAddrV4 → List R → lru.Cache → lru.Cache
  remember ttl now addr records c =
      if ttl_for ttl records == 0 then c else lru.write addr (now + ttl_for ttl records, records) c
