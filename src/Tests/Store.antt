-- ===== src/Tests/Store.antt =====
-- The store of udp-addr-index at concrete inputs, after the tests of store.rs.
use iroh_content_discovery.Prelude.{◌≡◌, refl, none, some, [], ◌∷◌, arith, ℕ_discrete}
use iroh_content_discovery.Prelude.Maps.{lookup, remove}
use iroh_content_discovery.Prelude.Sets.{contains, discard}
use iroh_content_discovery.Net.{SocketAddrV4, addr_discrete}
use iroh_content_discovery.Index.Store.{Store, Limits, new, put, get, gc, len}
use iroh_content_discovery.Index.Store.Expirations.{insert_expiration, exp_discrete}
use iroh_content_discovery.Index.Store.Invariant.{IsValid}
use iroh_content_discovery.Index.Store.Room.{IsWithin}
use iroh_content_discovery.Index.Store.Gc.{IsCollected}
use iroh_content_discovery.Index.Store.Put.{put-IsValid, put-entries, get-live}

program : Unit {0}
unfolding new put get gc len insert_expiration exp_discrete addr_discrete ℕ_discrete lookup remove
    contains discard
program = tt

abbrev pub limits : Limits
limits = record {
  max_value_len = 4;
  max_entries = 1;
  max_entries_per_ip = 1;
  value_ttl_secs = 10;
  token_bucket_secs = 30;
}

abbrev a : SocketAddrV4
a = record { ip = 100; port = 1 }

abbrev b : SocketAddrV4
b = record { ip = 101; port = 2 }

abbrev filled : Store
filled = (put a (7 ∷ []) 0 limits new).0

-- `a_full_store_evicts_the_nearest_expiry`
evicts :
    ((get a 1 (put b (8 ∷ []) 1 limits filled).0).1 ≡ none)
    × ((get b 1 (put b (8 ∷ []) 1 limits filled).0).1 ≡ some (8 ∷ []))
    × (len (put b (8 ∷ []) 1 limits filled).0 ≡ 1)
unfolding program
evicts = (refl, refl, refl)

-- `replace_and_expire`
expires : (get a 9 filled).1 ≡ some (7 ∷ [])
unfolding program
expires = refl

expired : (get a 10 filled).1 ≡ none
unfolding program
expired = refl

pub new-IsValid : IsValid new
unfolding program
new-IsValid = record { distinct = tt; ascending = tt; agree = λ t x. refl; tally = λ ip. refl }

pub new-IsWithin : IsWithin limits new
unfolding program
new-IsWithin = record { total = omega arith; per_host = λ ip. omega arith }

put-IsValid_example : IsValid filled × IsWithin limits filled
put-IsValid_example = put-IsValid a (7 ∷ []) 0 limits new new-IsValid new-IsWithin

put-entries_example :
    lookup addr_discrete b (put b (8 ∷ []) 1 limits filled).0.entries
    ≡ some (record { value = 8 ∷ []; expires_at = 11 })
unfolding program
put-entries_example =
    put-entries b (8 ∷ []) 1 limits filled put-IsValid_example.0 put-IsValid_example.1 refl b

abbrev other_port : SocketAddrV4
other_port = record { ip = 100; port = 2 }

get-live_example : IsCollected 4 filled (get a 4 filled).0
get-live_example = (get-live a 4 filled put-IsValid_example.0).1
