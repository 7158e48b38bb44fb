-- ===== src/Tests/ProviderCache.antt =====
-- The provider cache over an LRU cache that is a map which keeps every key, with numbers for hashes
-- and endpoint ids.
use iroh_content_discovery.Prelude.{
  ℕ, ◌≡◌, refl, none, some, List, [], ◌∷◌, arith, ℕ_discrete, take,
}
use iroh_content_discovery.Prelude.Maps.{lookup, remove}
use iroh_content_discovery.Prelude.Sort.{sort, insert_sorted}
use iroh_content_discovery.Gateway.Lru.{Lru}
use iroh_content_discovery.Tests.Slots.{slots_of}
use iroh_content_discovery.Gateway.ProviderCache.{
  Entry, providers_of, confirmed_entry, confirm, forget, missing_of, record_missing, retain_recent,
}
use iroh_content_discovery.Gateway.ProviderCache.Calls.{passed, call, IsCache, call-IsCache}
use iroh_content_discovery.Gateway.ProviderCache.Recent.{IsEntry}

program : Unit {0}
unfolding lookup remove take sort insert_sorted ℕ_discrete providers_of confirmed_entry confirm
    forget missing_of record_missing retain_recent call
program = tt

abbrev Slots : Type 0
Slots = List (ℕ × Entry ℕ)

abbrev slots : Lru ℕ (Entry ℕ)
slots = slots_of ℕ_discrete

-- Hash 1 with the endpoints 10 and 11, which answered in 20 and 5 milliseconds.
abbrev two_providers : Slots
two_providers = confirm ℕ_discrete slots 2000 1 11 5 (confirm ℕ_discrete slots 1000 1 10 20 [])

empty-IsCache : IsCache ℕ_discrete ℕ_discrete slots 0 []
unfolding lookup
empty-IsCache hash e p = absurd cc

abbrev one_provider : Entry ℕ
one_provider = record { providers = (10, record { at = 1000; latency = 20 }) ∷ []; missing = none }

held_after_call :
    lookup ℕ_discrete 1 (call ℕ_discrete ℕ_discrete slots 1000 (passed 1 10 20) [])
    ≡ some one_provider
unfolding program
held_after_call = refl

call-IsCache_example : IsEntry ℕ_discrete 1000 one_provider
call-IsCache_example =
    call-IsCache ℕ_discrete ℕ_discrete slots 0 1000 (passed 1 10 20) [] (omega arith) empty-IsCache
      1 one_provider held_after_call

-- The fastest comes first, whichever was verified last.
fastest :
    (providers_of ℕ_discrete slots 3000 1 two_providers).1
    ≡ (11, record { at = 2000; latency = 5 }) ∷ (10, record { at = 1000; latency = 20 }) ∷ []
unfolding program
fastest = refl
