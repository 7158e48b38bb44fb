-- ===== src/Discovery/Client/Expiry.antt =====
-- What `flush_expired` leaves pending.
use iroh_content_discovery.Prelude.{
  ℕ, ◌≡◌, refl, inl, inr, Bool, true, Option, none, some, List, [], ◌∷◌, arith, ℕ_discrete,
  Option-cases, Bool-cases, ltb, leb, min, ap, ◌∙◌, sym, subst,
}
use iroh_content_discovery.Prelude.Maps.{
  lookup, remove, Distinct, every, remove_absent, remove_all, every-remove_all,
}
use iroh_content_discovery.Discovery.Client.{
  Actor, PendingPublish, PendingResolve, finish_publish, finish_resolve,
}
use iroh_content_discovery.Discovery.Client.Timer.{
  finish_each, flush_expired, next_deadline, publish_deadlines, resolve_deadlines,
  expired_publishes, expired_resolves,
}
use iroh_content_discovery.Discovery.Client.Answers.{IsValid}

finish_publish-publishes :
    (tx : ℕ) (a : Actor)
    → ((finish_publish tx a).0.publishes ≡ remove ℕ_discrete tx a.publishes)
      × ((finish_publish tx a).0.resolves ≡ a.resolves)
unfolding finish_publish
finish_publish-publishes tx a = elim (Option-cases (lookup ℕ_discrete tx a.publishes)) [
  | inl e ↦ rw (e, finish_publish) (sym (remove_absent ℕ_discrete tx a.publishes e), refl)
  | inr (p, e) ↦ rw (e, finish_publish) (refl, refl)
]

finish_resolve-resolves :
    (tx : ℕ) (a : Actor)
    → ((finish_resolve tx a).0.resolves ≡ remove ℕ_discrete tx a.resolves)
      × ((finish_resolve tx a).0.publishes ≡ a.publishes)
unfolding finish_resolve
finish_resolve-resolves tx a = elim (Option-cases (lookup ℕ_discrete tx a.resolves)) [
  | inl e ↦ rw (e, finish_resolve) (sym (remove_absent ℕ_discrete tx a.resolves e), refl)
  | inr (p, e) ↦ rw (e, finish_resolve) (refl, refl)
]

finish_each-publishes :
    (txs : List ℕ) (a : Actor)
    → ((finish_each finish_publish txs a).0.publishes ≡ remove_all ℕ_discrete txs a.publishes)
      × ((finish_each finish_publish txs a).0.resolves ≡ a.resolves)
unfolding finish_each remove_all
finish_each-publishes [] a = (refl, refl)
finish_each-publishes (tx ∷ txs) a =
    let next = (finish_publish tx a).0 in
    let (one, same) = finish_publish-publishes tx a in
    let (rest, same') = finish_each-publishes txs next in
    (rest ∙ ap (remove_all ℕ_discrete txs) one, same' ∙ same)

finish_each-resolves :
    (txs : List ℕ) (a : Actor)
    → ((finish_each finish_resolve txs a).0.resolves ≡ remove_all ℕ_discrete txs a.resolves)
      × ((finish_each finish_resolve txs a).0.publishes ≡ a.publishes)
unfolding finish_each remove_all
finish_each-resolves [] a = (refl, refl)
finish_each-resolves (tx ∷ txs) a =
    let next = (finish_resolve tx a).0 in
    let (one, same) = finish_resolve-resolves tx a in
    let (rest, same') = finish_each-resolves txs next in
    (rest ∙ ap (remove_all ℕ_discrete txs) one, same' ∙ same)

publishes_left :
    (now : ℕ) (m : List (ℕ × PendingPublish))
    → Distinct ℕ_discrete m
    → every (λ p. ltb now p.deadline) (remove_all ℕ_discrete (expired_publishes now m) m) ≡ true
unfolding expired_publishes remove_all remove
publishes_left now [] d = refl
publishes_left now ((tx, p) ∷ m) d = elim (Bool-cases (leb p.deadline now)) [
  | inl e ↦ ground (arith, remove_absent ℕ_discrete tx m d.0, publishes_left now m d.1)
  | inr e ↦ rw e (
      every-remove_all ℕ_discrete (λ p. ltb now p.deadline) tx p (expired_publishes now m) m
        (ground arith) (publishes_left now m d.1))
]

resolves_left :
    (now : ℕ) (m : List (ℕ × PendingResolve))
    → Distinct ℕ_discrete m
    → every (λ p. ltb now p.deadline) (remove_all ℕ_discrete (expired_resolves now m) m) ≡ true
unfolding expired_resolves remove_all remove
resolves_left now [] d = refl
resolves_left now ((tx, p) ∷ m) d = elim (Bool-cases (leb p.deadline now)) [
  | inl e ↦ ground (arith, remove_absent ℕ_discrete tx m d.0, resolves_left now m d.1)
  | inr e ↦ rw e (
      every-remove_all ℕ_discrete (λ p. ltb now p.deadline) tx p (expired_resolves now m) m
        (ground arith) (resolves_left now m d.1))
]

-- After the timer has run at some time, every transaction that is still pending has a later
-- deadline: none of a valid actor outlives its deadline.
pub flush_expired_left :
    (now : ℕ) (a : Actor)
    → IsValid a
    → (every (λ p. ltb now p.deadline) (flush_expired now a).0.publishes ≡ true)
      × (every (λ p. ltb now p.deadline) (flush_expired now a).0.resolves ≡ true)
unfolding flush_expired
flush_expired_left now a h =
    let next = (finish_each finish_publish (expired_publishes now a.publishes) a).0 in
    let (left, same) = finish_each-publishes (expired_publishes now a.publishes) a in
    let (left', same') = finish_each-resolves (expired_resolves now next.resolves) next in
    (
      rw (same' ∙ left) (publishes_left now a.publishes h.publishes_distinct),
      rw left' (resolves_left now next.resolves (rw same h.resolves_distinct)),
    )

abbrev lower : Option ℕ → ℕ → Bool
lower none d = true
lower (some e) d = leb d e

publish_deadlines_first :
    (m : List (ℕ × PendingPublish)) (o : Option ℕ) (d : ℕ)
    → lower (publish_deadlines m o) d ≡ true
    → (every (λ p. leb d p.deadline) m ≡ true) × (lower o d ≡ true)
unfolding publish_deadlines
publish_deadlines_first [] o d e = (refl, e)
publish_deadlines_first ((tx, p) ∷ m) none d e =
    let (rest, first) = publish_deadlines_first m (some p.deadline) d e in (ground arith, refl)
publish_deadlines_first ((tx, p) ∷ m) (some x) d e =
    let (rest, first) = publish_deadlines_first m (some (min x p.deadline)) d e in
    (ground arith, ground arith)

resolve_deadlines_first :
    (m : List (ℕ × PendingResolve)) (o : Option ℕ) (d : ℕ)
    → lower (resolve_deadlines m o) d ≡ true
    → (every (λ p. leb d p.deadline) m ≡ true) × (lower o d ≡ true)
unfolding resolve_deadlines
resolve_deadlines_first [] o d e = (refl, e)
resolve_deadlines_first ((tx, p) ∷ m) none d e =
    let (rest, first) = resolve_deadlines_first m (some p.deadline) d e in (ground arith, refl)
resolve_deadlines_first ((tx, p) ∷ m) (some x) d e =
    let (rest, first) = resolve_deadlines_first m (some (min x p.deadline)) d e in
    (ground arith, ground arith)

-- The time that the loop waits for is no later than any deadline.
pub next_deadline_first :
    (a : Actor) (d : ℕ)
    → next_deadline a ≡ some d
    → (every (λ p. leb d p.deadline) a.publishes ≡ true)
      × (every (λ p. leb d p.deadline) a.resolves ≡ true)
unfolding next_deadline
next_deadline_first a d e =
    let (rs, l) =
      resolve_deadlines_first a.resolves (publish_deadlines a.publishes none) d
        (subst (λ o. lower o d ≡ true) (sym e) (ground arith)) in
    ((publish_deadlines_first a.publishes none d l).0, rs)
