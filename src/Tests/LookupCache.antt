-- ===== src/Tests/LookupCache.antt =====
-- The lookup cache over a map that keeps every key, with numbers for records.
use iroh_content_discovery.Prelude.{ℕ, ◌≡◌, refl, none, some, [], ◌∷◌, ℕ_discrete}
use iroh_content_discovery.Prelude.Maps.{lookup}
use iroh_content_discovery.Net.{SocketAddrV4, addr_discrete}
use iroh_content_discovery.Gateway.Lru.{Lru}
use iroh_content_discovery.Tests.Slots.{slots_of}
use iroh_content_discovery.Discovery.LookupCache.{Remembered, cached, remember}

abbrev slots : Lru SocketAddrV4 (Remembered ℕ)
slots = slots_of addr_discrete

abbrev peer : SocketAddrV4
peer = record { ip = 0xcb007107; port = 6881 }

-- A miss is forgotten after thirty seconds, a hit is still there.
miss_forgotten : (cached slots 31000 peer (remember slots 60000 1000 peer [] [])).1 ≡ none
unfolding cached remember lookup addr_discrete ℕ_discrete
miss_forgotten = refl

hit_remembered :
    (cached slots 31000 peer (remember slots 60000 1000 peer (5 ∷ []) [])).1 ≡ some (5 ∷ [])
unfolding cached remember lookup addr_discrete ℕ_discrete
hit_remembered = refl
