-- ===== src/Discovery/Keeper/Publish.antt =====
-- When the keeper publishes, how long its record serves readers, and when its loop runs again.
use iroh_content_discovery.Prelude.{
  ℕ, suc, ◌+◌, ◌<◌, ◌≤◌, ◌≡◌, ◌⊎◌, inl, inr, refl, Bool, true, false, ◌&&◌, not, Option, none, some,
  List, [], ◌∷◌, arith, Result, ok, err, Bool-cases, All, subst, sym, ap, ◌∙◌, leb, length,
  if◌then◌else◌,
}
use iroh_content_discovery.Prelude.Sets.{contains}
use iroh_content_discovery.Net.{SocketAddrV4}
use iroh_content_discovery.Discovery.Keeper.{
  index_ttl, index_refresh, retry, Record, IndexKeeper, same_public, subset, record_live, is_live,
  Round, Pass, due, backing_off, next_wake, attempt, pass, passes,
}

same_public_refl : (a : Option SocketAddrV4) → same_public a a ≡ true
same_public_refl none = refl
same_public_refl (some a) = ground arith

subset_cons :
    (x : SocketAddrV4) (xs ys : List SocketAddrV4) → subset xs ys ≡ true → subset xs (x ∷ ys) ≡ true
unfolding contains
subset_cons x [] ys h = refl
subset_cons x (z ∷ zs) ys h = ground (arith, subset_cons x zs ys)

subset_refl : (xs : List SocketAddrV4) → subset xs xs ≡ true
unfolding contains
subset_refl [] = refl
subset_refl (x ∷ xs) = ground (arith, subset_cons x xs xs (subset_refl xs))

-- The clock of a failed publication is not behind that of its pass.
abbrev pub FailsAfter : ℕ → Result ℕ SocketAddrV4 → Type 0
FailsAfter now (ok mapping) = Unit
FailsAfter now (err f) = now ≤ f

module _ (k : IndexKeeper) (i : Round) where
  -- A record that is not due serves readers until its refresh is overdue.
  due-live :
      (r : Record) (t : ℕ)
      → due (some r) i ≡ false
      → i.now ≤ t
      → t + index_refresh ≤ i.now + index_ttl
      → record_live r i.address i.servers t ≡ true
  unfolding due record_live
  due-live r t h le soon = ground arith

  attempt-live :
      (res : Result ℕ SocketAddrV4) (t : ℕ)
      → k.servers_now ≡ i.servers
      → i.now ≤ t
      → t + index_refresh ≤ i.now + index_ttl
      → (attempt k i res).failed ≡ none
      → is_live (attempt k i res).keeper i.address t ≡ true
  unfolding attempt is_live record_live
  attempt-live (ok mapping) t s le soon h =
      ground (arith, s, same_public_refl i.address, subset_refl i.servers)
  attempt-live (err f) t s le soon h = absurd cc

  record_now-live :
      (t : ℕ) (o : Option Record)
      → due o i ≡ false
      → i.now ≤ t
      → t + index_refresh ≤ i.now + index_ttl
      → elim o [ none ↦ false | some r ↦ record_live r i.address i.servers t ] ≡ true
  unfolding due
  record_now-live t none h le soon = absurd cc
  record_now-live t (some r) h le soon = due-live r t h le soon

  attempt-next :
      (res : Result ℕ SocketAddrV4)
      → FailsAfter i.now res
      → (t : ℕ) × ((attempt k i res).next ≡ some t) × (i.now < t)
  unfolding attempt next_wake
  attempt-next (ok mapping) later = (_, refl, omega arith)
  attempt-next (err f) later = (_, refl, omega arith)

module _ (i : Round) (o : Option Record) where
  fresh-next :
      (o : Option Record) → due o i ≡ false → (t : ℕ) × (next_wake o none ≡ some t) × (i.now < t)
  unfolding next_wake due
  fresh-next none h = absurd cc
  fresh-next (some r) h = (r.at + index_refresh, refl, ground arith)

  due_of_fresh :
      (failed : Option ℕ)
      → failed ≡ none
      → due o i && not (backing_off failed i.now) ≡ false
      → due o i ≡ false
  unfolding backing_off
  due_of_fresh none h e = ground arith
  due_of_fresh (some f) h e = absurd cc

  quiet-next :
      (failed : Option ℕ)
      → due o i && not (backing_off failed i.now) ≡ false
      → (failed ≡ none) ⊎ (due o i ≡ true)
      → (t : ℕ) × (next_wake o failed ≡ some t) × (i.now < t)
  unfolding backing_off next_wake
  quiet-next (some f) e (inl h) = absurd cc
  quiet-next (some f) e (inr h) = (f + retry, refl, ground arith)
  quiet-next none e h = fresh-next o (due_of_fresh none refl e)

module _ (k : IndexKeeper) (failed : Option ℕ) (i : Round) where
  abbrev seen : IndexKeeper
  seen = record k { servers_now = i.servers }

  -- An active pass, by whether it publishes.
  abbrev branch : Bool → Pass
  branch true = attempt seen i i.publication
  branch false = record {
    keeper = seen;
    failed = failed;
    attempted = false;
    next = next_wake k.record_now failed;
  }

  pass_active :
      i.active ≡ true
      → pass k failed i ≡ branch (due k.record_now i && not (backing_off failed i.now))
  unfolding pass
  pass_active on = elim (Bool-cases (due k.record_now i && not (backing_off failed i.now))) [
    | inl c ↦ rw (c, on) refl
    | inr c ↦ rw (c, on) refl
  ]

  branch-live :
      (t : ℕ) (b : Bool)
      → due k.record_now i && not (backing_off failed i.now) ≡ b
      → i.now ≤ t
      → t + index_refresh ≤ i.now + index_ttl
      → (branch b).failed ≡ none
      → is_live (branch b).keeper i.address t ≡ true
  unfolding is_live
  branch-live t true e le soon h = attempt-live seen i i.publication t refl le soon h
  branch-live t false e le soon h =
      record_now-live k i t k.record_now (due_of_fresh i k.record_now failed h e) le soon

  branch-next :
      (b : Bool)
      → due k.record_now i && not (backing_off failed i.now) ≡ b
      → FailsAfter i.now i.publication
      → (failed ≡ none) ⊎ (due k.record_now i ≡ true)
      → (t : ℕ) × ((branch b).next ≡ some t) × (i.now < t)
  branch-next true e later h = attempt-next seen i i.publication later
  branch-next false e later h = quiet-next i k.record_now failed e h

-- A pass that leaves no failure behind leaves a record that readers can use, for the address and
-- the servers that the pass saw, until half an hour later, the difference of `INDEX_TTL` and
-- `INDEX_REFRESH`.
pub pass-live :
    (k : IndexKeeper) (failed : Option ℕ) (i : Round) (t : ℕ)
    → i.active ≡ true
    → (pass k failed i).failed ≡ none
    → i.now ≤ t
    → t + index_refresh ≤ i.now + index_ttl
    → is_live (pass k failed i).keeper i.address t ≡ true
pass-live k failed i t on h le soon =
    subst (λ p. p.failed ≡ none → is_live p.keeper i.address t ≡ true)
      (sym (pass_active k failed i on)) (branch-live k failed i t _ refl le soon) h

pass_quiet :
    (k : IndexKeeper) (f : ℕ) (i : Round)
    → i.now < f + retry
    → ((pass k (some f) i).attempted ≡ false) × ((pass k (some f) i).failed ≡ some f)
unfolding pass backing_off
pass_quiet k f i young = ground arith

-- While a failure is younger than `RETRY`, no pass tries to publish, whatever woke the loop.
pub passes_quiet :
    (k : IndexKeeper) (f : ℕ) (is : List Round)
    → All (λ i. i.now < f + retry) is
    → All (λ p. p.1 ≡ false) (passes k (some f) is)
unfolding passes
passes_quiet k f [] h = tt
passes_quiet k f (i ∷ is) h =
    let (quiet, same) = pass_quiet k f i h.0 in
    (quiet, rw same (passes_quiet (pass k (some f) i).keeper f is h.1))

-- An active pass that comes without a failure, or with a record that is due, waits for a time that
-- is still to come, if a failed publication takes its time after the pass began.
pub pass-next :
    (k : IndexKeeper) (failed : Option ℕ) (i : Round)
    → i.active ≡ true
    → FailsAfter i.now i.publication
    → (failed ≡ none) ⊎ (due k.record_now i ≡ true)
    → (t : ℕ) × ((pass k failed i).next ≡ some t) × (i.now < t)
pass-next k failed i on later h =
    subst (λ p. (t : ℕ) × (p.next ≡ some t) × (i.now < t)) (sym (pass_active k failed i on))
      (branch-next k failed i _ refl later h)

-- The address and the servers are again those that a record was published for, after the backoff of a
-- failure and before the refresh of the record.
abbrev pub IsBack : Record → ℕ → Round → Type 0
IsBack r f i =
    (i.active ≡ true)
    × (i.address ≡ r.public)
    × (i.servers ≡ r.servers)
    × (f + retry ≤ i.now)
    × (i.now < r.at + index_refresh)

-- A pass that publishes nothing and waits for a time that has passed.
abbrev pub spins : Round → Pass → Bool
spins i p = not p.attempted && elim p.next as (λ _. Bool) [ none ↦ false | some t ↦ leb t i.now ]

-- How many passes of a run spin.
unfoldable pub spins_in : IndexKeeper → Option ℕ → List Round → ℕ
unfolding pass next_wake
spins_in k failed [] = 0
spins_in k failed (i ∷ is) =
    let p = pass k failed i in
    let rest = spins_in p.keeper p.failed is in if spins i p then suc rest else rest

IsBack→not_due : (r : Record) (f : ℕ) (i : Round) → IsBack r f i → due (some r) i ≡ false
unfolding due
IsBack→not_due r f i (_, address, servers, _, early) =
    rw (address, servers, subset_refl r.servers, same_public_refl r.public) (ground arith)

spins_in_back :
    (k : IndexKeeper) (r : Record) (f : ℕ) (is : List Round)
    → k.record_now ≡ some r
    → All (IsBack r f) is
    → spins_in k (some f) is ≡ length is
unfolding spins_in pass next_wake
spins_in_back k r f [] e h = refl
spins_in_back k r f (i ∷ is) e (back, hs) =
    let (on, _, _, late, _) = back in
    let quiet : due k.record_now i ≡ false = ap (λ o. due o i) e ∙ IsBack→not_due r f i back in
    let passed : leb (f + retry) i.now ≡ true = ground arith in
    rw (quiet, on, passed)
      (ap suc (spins_in_back (record k { servers_now = i.servers }) r f is e hs))

-- A publication of a moved address or server set that fails leaves the loop spinning when they move
-- back: from the end of the backoff to the refresh of the record, every pass of a run publishes
-- nothing and waits for a time that has passed, however many passes there are.
pub pass_spins :
    (k : IndexKeeper) (r : Record) (moved : Round) (f : ℕ) (rounds : List Round)
    → k.record_now ≡ some r
    → moved.active ≡ true
    → due (some r) moved ≡ true
    → moved.publication ≡ err f
    → All (IsBack r f) rounds
    → spins_in (pass k none moved).keeper (pass k none moved).failed rounds ≡ length rounds
unfolding pass attempt backing_off
pass_spins k r moved f rounds e on late fails back =
    let wanted : due k.record_now moved ≡ true = ap (λ o. due o moved) e ∙ late in
    rw (wanted, on, fails, attempt)
      (spins_in_back (record k { servers_now = moved.servers }) r f rounds e back)
