-- ===== src/Gateway/ProviderCache.antt =====
-- iroh-link-gateway/src/provider_cache.rs: the endpoints that recently served a hash, and the
-- hashes that nobody served. The LRU cache, hashes and endpoint ids are parameters, the clock of
-- each call is an argument, and times are in milliseconds.

pub mod Recent
pub mod Calls
pub mod Probes
use iroh_content_discovery.Prelude.{
  ℕ, ◌+◌, ◌-◌, Bool, true, false, Option, none, some, List, [], ◌∷◌, ltb, if◌then◌else◌, take,
}
use iroh_content_discovery.Prelude.Maps.{insert, remove}
use iroh_content_discovery.Prelude.Sort.{sort}
use iroh_content_discovery.Gateway.Lru.{Lru}

abbrev pub provider_ttl : ℕ
provider_ttl = 300000

abbrev pub miss_ttl : ℕ
miss_ttl = 5000

abbrev pub max_providers : ℕ
max_providers = 4

pub record Probed : Type 0 where
  pub at : ℕ
  pub latency : ℕ

abbrev pub recent : ℕ → Probed → Bool
recent now probed = ltb (now - probed.at) provider_ttl

pub data Miss : Type 0 where
  not_found timed_out : Miss

pub record Entry (EndpointId : Type 0) : Type 0 where
  pub providers : List (EndpointId × Probed)
  pub missing : Option (Miss × ℕ)

module _ {EndpointId : Type 0} where
  abbrev pub no_entry : Entry EndpointId
  no_entry = record { providers = []; missing = none }

  -- `retain` of the providers with a recent probe.
  unfoldable pub retain_recent : ℕ → List (EndpointId × Probed) → List (EndpointId × Probed)
  retain_recent now [] = []
  retain_recent now ((provider, probed) ∷ ps) =
      let rest = retain_recent now ps in
      if recent now probed then (provider, probed) ∷ rest else rest

  abbrev pub faster : EndpointId × Probed → EndpointId × Probed → Bool
  faster (p, a) (q, b) = ltb a.latency b.latency

  abbrev pub entry_or : Option (Entry EndpointId) → Entry EndpointId
  entry_or none = no_entry
  entry_or (some entry) = entry

  abbrev pub missing_entry : ℕ → Entry EndpointId → Entry EndpointId × Option Miss
  missing_entry now entry = elim entry.missing [
    | none ↦ (entry, none)
    | some (miss, at) ↦
        if ltb (now - at) miss_ttl
        then (entry, some miss)
        else (record entry { missing = none }, none)
  ]

module _ {EndpointId : Type 0} (dec : Discrete EndpointId) where
  -- The entry after a passed probe: the endpoint is in front, and the oldest probes are dropped.
  unfoldable pub confirmed_entry : ℕ → EndpointId → ℕ → Entry EndpointId → Entry EndpointId
  unfolding take remove
  confirmed_entry now provider latency entry = record {
    providers =
        take max_providers
          (insert dec provider (record { at = now; latency = latency }) entry.providers);
    missing = none;
  }

module _ {Hash EndpointId : Type 0} (dec : Discrete EndpointId)
    (lru : Lru Hash (Entry EndpointId)) where
  unfoldable pub providers_of : ℕ → Hash → lru.Cache → lru.Cache × List (EndpointId × Probed)
  unfolding retain_recent sort
  providers_of now hash c = elim (lru.peek hash c) [
    | none ↦ (c, [])
    | some entry ↦
        let kept = retain_recent now entry.providers in
        (lru.write hash (record entry { providers = kept }) c, sort faster kept)
  ]

  unfoldable pub confirm : ℕ → Hash → EndpointId → ℕ → lru.Cache → lru.Cache
  unfolding confirmed_entry
  confirm now hash provider latency c =
      lru.write hash (confirmed_entry dec now provider latency (entry_or (lru.peek hash c))) c

  unfoldable pub forget : Hash → EndpointId → lru.Cache → lru.Cache
  unfolding remove
  forget hash provider c = elim (lru.peek hash c) [
    | none ↦ c
    | some entry ↦
        lru.write hash (record entry { providers = remove dec provider entry.providers }) c
  ]

  unfoldable pub missing_of : ℕ → Hash → lru.Cache → lru.Cache × Option Miss
  missing_of now hash c = elim (lru.peek hash c) [
    | none ↦ (c, none)
    | some entry ↦ let (entry', miss) = missing_entry now entry in (lru.write hash entry' c, miss)
  ]

  unfoldable pub record_missing : ℕ → Hash → Miss → lru.Cache → lru.Cache
  record_missing now hash miss c =
      lru.write hash (record (entry_or (lru.peek hash c)) { missing = some (miss, now) }) c
