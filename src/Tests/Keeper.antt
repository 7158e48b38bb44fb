-- ===== src/Tests/Keeper.antt =====
-- The index keeper at concrete times.
use iroh_content_discovery.Prelude.{
  ℕ, ◌<◌, ◌≡◌, inl, refl, true, false, none, some, [], ◌∷◌, arith, ok, err, All, ℕ_discrete,
}
use iroh_content_discovery.Prelude.Sets.{contains}
use iroh_content_discovery.Net.{SocketAddrV4, addr_discrete}
use iroh_content_discovery.Discovery.Keeper.{
  Record, IndexKeeper, Round, due, backing_off, pass, passes, is_live, attempt, next_wake,
  record_live, announce_pass, report,
}
use iroh_content_discovery.Discovery.Keeper.Publish.{
  pass-live, passes_quiet, pass-next, spins_in, pass_spins,
}

program : Unit {0}
unfolding contains addr_discrete ℕ_discrete due backing_off pass passes is_live attempt next_wake
    record_live announce_pass report
program = tt

abbrev index_server : SocketAddrV4
index_server = record { ip = 0xcb007105; port = 60125 }

abbrev home : SocketAddrV4
home = record { ip = 0xcb007107; port = 6881 }

abbrev new_keeper : IndexKeeper
new_keeper = record { record_now = none; servers_now = []; reported = false }

abbrev stored : Round
stored = record {
  active = true;
  address = some home;
  servers = index_server ∷ [];
  now = 1000;
  publication = ok home;
}

-- The address went away and the publication without one failed.
abbrev moved : Round
moved = record stored { address = none; now = 2000; publication = err 2500 }

abbrev back : ℕ → Round
back now = record stored { now = now }

abbrev published_keeper : IndexKeeper
published_keeper = (pass new_keeper none stored).keeper

abbrev published_record : Record
published_record = record {
  public = some home;
  mapping = home;
  at = stored.now;
  servers = stored.servers;
}

published : published_keeper.record_now ≡ some published_record
unfolding program
published = refl

pass-live_example : is_live (pass new_keeper none stored).keeper (some home) 1500000 ≡ true
unfolding program
pass-live_example = pass-live new_keeper none stored 1500000 refl refl (omega arith) (omega arith)

passes_quiet_example :
    All (λ p. p.1 ≡ false) (passes new_keeper (some 2500) (back 3000 ∷ back 32499 ∷ []))
passes_quiet_example =
    passes_quiet new_keeper 2500 (back 3000 ∷ back 32499 ∷ []) (omega arith, (omega arith, tt))

pass-next_example : (t : ℕ) × ((pass published_keeper none moved).next ≡ some t) × (2000 < t)
pass-next_example = pass-next published_keeper none moved refl (omega arith) (inl refl)

moved-due : due (some published_record) moved ≡ true
unfolding program
moved-due = refl

pass_spins_example :
    spins_in
      (pass published_keeper none moved).keeper
      (pass published_keeper none moved).failed
      (back 32500 ∷ back 32501 ∷ back 1000000 ∷ [])
    ≡ 3
pass_spins_example =
    pass_spins published_keeper published_record moved 2500
      (back 32500 ∷ back 32501 ∷ back 1000000 ∷ []) published refl moved-due refl
      (
        (refl, refl, refl, omega arith, omega arith),
        (
          (refl, refl, refl, omega arith, omega arith),
          ((refl, refl, refl, omega arith, omega arith), tt),
        ),
      )

-- The failure of that pass is reached: the state after `moved` is the one that spins.
moved-failed : (pass published_keeper none moved).failed ≡ some 2500
unfolding program
moved-failed = refl

-- An announcement for the stored address goes ahead, one for another address waits.
announces : (announce_pass published_keeper (some home) 5000).1 ≡ true
unfolding program
announces = refl

waits : (announce_pass published_keeper none 5000).1 ≡ false
unfolding program
waits = refl
