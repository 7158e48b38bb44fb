-- ===== src/Discovery/Keeper.antt =====
-- iroh-mainline-endpoint-discovery/src/index_keeper.rs: the keeper of the endpoint's index record,
-- and the announcements that wait for it. A `Round` holds what one pass of the loop in
-- `IndexKeeper::run` reads from outside, times are in milliseconds, and a set of servers is a list.

pub mod Publish
use iroh_content_discovery.Prelude.{
  ℕ, ◌+◌, ◌-◌, ◌*◌, Bool, true, false, ◌&&◌, ◌||◌, not, Option, none, some, List, [], ◌∷◌, ltb, leb,
  if◌then◌else◌, Result, ok, err,
}
use iroh_content_discovery.Prelude.Sets.{contains}
use iroh_content_discovery.Net.{SocketAddrV4, addr_discrete, addr_eq}

abbrev pub index_ttl : ℕ
index_ttl = 3600000

abbrev pub index_refresh : ℕ
index_refresh = 1800000

abbrev pub retry : ℕ
retry = 30000

pub record Record : Type 0 where
  pub public : Option SocketAddrV4
  pub mapping : SocketAddrV4
  pub at : ℕ
  pub servers : List SocketAddrV4

pub record IndexKeeper : Type 0 where
  pub record_now : Option Record
  pub servers_now : List SocketAddrV4
  pub reported : Bool

abbrev pub same_public : Option SocketAddrV4 → Option SocketAddrV4 → Bool
same_public none none = true
same_public (some a) (some b) = addr_eq a b
same_public none (some b) = false
same_public (some a) none = false

abbrev pub subset : List SocketAddrV4 → List SocketAddrV4 → Bool
subset [] ys = true
subset (x ∷ xs) ys = contains addr_discrete ys x && subset xs ys

abbrev pub same_servers : List SocketAddrV4 → List SocketAddrV4 → Bool
same_servers xs ys = subset xs ys && subset ys xs

abbrev pub is_disjoint : List SocketAddrV4 → List SocketAddrV4 → Bool
is_disjoint [] ys = true
is_disjoint (x ∷ xs) ys = not (contains addr_discrete ys x) && is_disjoint xs ys

-- `Record::is_live`: `saturating_duration_since` stops at 0, as subtraction does here.
unfoldable pub record_live : Record → Option SocketAddrV4 → List SocketAddrV4 → ℕ → Bool
record_live r public servers now =
    same_public r.public public
    && ((same_servers r.servers servers || not (is_disjoint r.servers servers))
        && ltb (now - r.at) index_ttl)

unfoldable pub is_live : IndexKeeper → Option SocketAddrV4 → ℕ → Bool
unfolding record_live
is_live k public now = elim k.record_now [
  | none ↦ false
  | some r ↦ record_live r public k.servers_now now
]

-- `notify_one` leaves a permit for the keeper.
unfoldable pub report : IndexKeeper → Option SocketAddrV4 → IndexKeeper
report k public = elim k.record_now [
  | none ↦ record k { reported = true }
  | some r ↦ if same_public r.public public then k else record k { reported = true }
]

pub record Round : Type 0 where
  pub active : Bool
  pub address : Option SocketAddrV4
  pub servers : List SocketAddrV4
  pub now : ℕ
  -- The socket under which the record was stored, or the time of the failure.
  pub publication : Result ℕ SocketAddrV4

-- What is left of a pass: the time to wake up is `none` where only a trigger wakes the loop.
pub record Pass : Type 0 where
  pub keeper : IndexKeeper
  pub failed : Option ℕ
  pub attempted : Bool
  pub next : Option ℕ

unfoldable pub due : Option Record → Round → Bool
due none i = true
due (some r) i =
    not (same_servers r.servers i.servers)
    || (not (same_public r.public i.address) || leb (r.at + index_refresh) i.now)

unfoldable pub backing_off : Option ℕ → ℕ → Bool
backing_off none now = false
backing_off (some failed) now = ltb now (failed + retry)

unfoldable pub next_wake : Option Record → Option ℕ → Option ℕ
next_wake r (some failed) = some (failed + retry)
next_wake none none = none
next_wake (some r) none = some (r.at + index_refresh)

abbrev store_record : IndexKeeper → Round → SocketAddrV4 → IndexKeeper
store_record k i mapping = record k {
  record_now =
      some (record { public = i.address; mapping = mapping; at = i.now; servers = i.servers });
}

-- The publication of a round and the state of the backoff after it.
unfoldable pub attempt : IndexKeeper → Round → Result ℕ SocketAddrV4 → Pass
unfolding next_wake
attempt k i (ok mapping) =
    let k' : IndexKeeper = store_record k i mapping in
    record { keeper = k'; failed = none; attempted = true; next = next_wake k'.record_now none }
attempt k i (err failed) = record {
  keeper = k;
  failed = some failed;
  attempted = true;
  next = next_wake k.record_now (some failed);
}

-- One pass of the loop of `IndexKeeper::run`, up to its wait.
unfoldable pub pass : IndexKeeper → Option ℕ → Round → Pass
unfolding due backing_off attempt
pass k failed i =
    if i.active
    then (let seen : IndexKeeper = record k { servers_now = i.servers } in
        if due k.record_now i && not (backing_off failed i.now)
        then attempt seen i i.publication
        else record {
          keeper = seen;
          failed = failed;
          attempted = false;
          next = next_wake seen.record_now failed;
        })
    else record { keeper = k; failed = failed; attempted = false; next = none }

-- `announce_indexed` up to its announcement: the address is reported, and without a live record
-- the announcement waits.
unfoldable pub announce_pass : IndexKeeper → Option SocketAddrV4 → ℕ → IndexKeeper × Bool
unfolding report is_live
announce_pass k public now = let k' = report k public in (k', is_live k' public now)

-- The passes of a run, with those that tried to publish.
unfoldable pub passes : IndexKeeper → Option ℕ → List Round → List (ℕ × Bool)
unfolding pass
passes k failed [] = []
passes k failed (i ∷ is) =
    let p = pass k failed i in (i.now, p.attempted) ∷ passes p.keeper p.failed is
