-- ===== src/Discovery/Client/Answers.antt =====
-- The requests of the client's users: each is answered once, and awaits a server until then.
use iroh_content_discovery.Prelude.{
  ℕ, ◌+◌, ◌≡◌, refl, inl, inr, Bool, true, false, ◌||◌, not, some, List, [], ◌∷◌, ◌++◌, arith,
  ℕ_discrete, if◌then◌else◌, Option-cases, Bool-cases, Result, ◌==◌, ap, ◌∙◌,
}
use iroh_content_discovery.Prelude.Maps.{
  lookup, remove, Distinct, sum, sum-remove, lookup-insert_same, remove-insert, every, every-remove,
  remove-Distinct, insert-Distinct,
}
use iroh_content_discovery.Net.{SocketAddrV4}
use iroh_content_discovery.Discovery.Client.{
  UdpError, Actor, Effect, send, published, resolved, PendingPublish, PendingResolve, Step,
  finish_publish, finish_resolve, publish_result, resolve_result, is_empty, set_publish,
  set_resolve,
}

-- The answers that a request gets among the effects.
abbrev pub answers : ℕ → List Effect → ℕ
answers r [] = 0
answers r (send bytes to ∷ es) = answers r es
answers r (published s q ∷ es) = (if s == r then 1 else 0) + answers r es
answers r (resolved s q ∷ es) = (if s == r then 1 else 0) + answers r es

pub answers-append :
    (r : ℕ) (es fs : List Effect) → answers r (es ++ fs) ≡ answers r es + answers r fs
answers-append r [] fs = omega arith
answers-append r (send bytes to ∷ es) fs = answers-append r es fs
answers-append r (published s q ∷ es) fs = omega (arith, answers-append r es fs)
answers-append r (resolved s q ∷ es) fs = omega (arith, answers-append r es fs)

abbrev pub publish_for : ℕ → PendingPublish → ℕ
publish_for r p = if p.response == r then 1 else 0

abbrev pub resolve_for : ℕ → PendingResolve → ℕ
resolve_for r p = if p.response == r then 1 else 0

-- The open transactions of a request.
abbrev pub pending : ℕ → Actor → ℕ
pending r a = sum (publish_for r) a.publishes + sum (resolve_for r) a.resolves

-- Transactions are told apart by their ids, and each awaits some server.
pub record IsValid (a : Actor) : Type 0 where
  pub publishes_distinct : Distinct ℕ_discrete a.publishes
  pub resolves_distinct : Distinct ℕ_discrete a.resolves
  pub publishes_wait : every (λ p. not (is_empty p.awaiting)) a.publishes ≡ true
  pub resolves_wait : every (λ p. not (is_empty p.awaiting)) a.resolves ≡ true

-- A step keeps the invariant, and answers exactly the requests whose transaction it closes.
abbrev pub Settles : ℕ → Actor → Step → Type 0
Settles r a step = IsValid step.0 × (answers r step.1 + pending r step.0 ≡ pending r a)

finish_publish_present :
    (tx : ℕ) (p : PendingPublish) (a : Actor)
    → lookup ℕ_discrete tx a.publishes ≡ some p
    → finish_publish tx a ≡ (
      record a { publishes = remove ℕ_discrete tx a.publishes },
      published p.response (publish_result p) ∷ [],
    )
unfolding finish_publish
finish_publish_present tx p a e = rw (e, finish_publish) refl

finish_publish_set :
    (tx : ℕ) (p : PendingPublish) (a : Actor)
    → finish_publish tx (set_publish tx p a) ≡ (
      record a { publishes = remove ℕ_discrete tx a.publishes },
      published p.response (publish_result p) ∷ [],
    )
finish_publish_set tx p a =
    finish_publish_present tx p (set_publish tx p a)
      (lookup-insert_same ℕ_discrete tx p a.publishes)
    ∙ ap (λ m. (record a { publishes = m }, published p.response (publish_result p) ∷ []))
        (remove-insert ℕ_discrete tx p a.publishes)

finish_resolve_present :
    (tx : ℕ) (p : PendingResolve) (a : Actor)
    → lookup ℕ_discrete tx a.resolves ≡ some p
    → finish_resolve tx a ≡ (
      record a { resolves = remove ℕ_discrete tx a.resolves },
      resolved p.response (resolve_result p) ∷ [],
    )
unfolding finish_resolve
finish_resolve_present tx p a e = rw (e, finish_resolve) refl

finish_resolve_set :
    (tx : ℕ) (p : PendingResolve) (a : Actor)
    → finish_resolve tx (set_resolve tx p a) ≡ (
      record a { resolves = remove ℕ_discrete tx a.resolves },
      resolved p.response (resolve_result p) ∷ [],
    )
finish_resolve_set tx p a =
    finish_resolve_present tx p (set_resolve tx p a) (lookup-insert_same ℕ_discrete tx p a.resolves)
    ∙ ap (λ m. (record a { resolves = m }, resolved p.response (resolve_result p) ∷ []))
        (remove-insert ℕ_discrete tx p a.resolves)

module _ (r : ℕ) (a : Actor) (h : IsValid a) where
  close_publish-Settles :
      (tx : ℕ) (p : PendingPublish) (q : Result UdpError (List SocketAddrV4))
      → lookup ℕ_discrete tx a.publishes ≡ some p
      → Settles r a
          (record a { publishes = remove ℕ_discrete tx a.publishes }, published p.response q ∷ [])
  close_publish-Settles tx p q e = (
    record {
      publishes_distinct = remove-Distinct ℕ_discrete tx a.publishes h.publishes_distinct;
      resolves_distinct = h.resolves_distinct;
      publishes_wait = every-remove ℕ_discrete _ tx a.publishes h.publishes_wait;
      resolves_wait = h.resolves_wait;
    },
    omega (arith, sum-remove ℕ_discrete (publish_for r) tx a.publishes p h.publishes_distinct e),
  )

  pub set_publish-Settles :
      (tx : ℕ) (p q : PendingPublish) (es : List Effect)
      → lookup ℕ_discrete tx a.publishes ≡ some p
      → q.response ≡ p.response
      → is_empty q.awaiting ≡ false
      → answers r es ≡ 0
      → Settles r a (set_publish tx q a, es)
  set_publish-Settles tx p q es e same wait quiet = (
    record {
      publishes_distinct = insert-Distinct ℕ_discrete tx q a.publishes h.publishes_distinct;
      resolves_distinct = h.resolves_distinct;
      publishes_wait = ground (
        arith,
        every-remove ℕ_discrete (λ p. not (is_empty p.awaiting)) tx a.publishes h.publishes_wait,
      );
      resolves_wait = h.resolves_wait;
    },
    ground (arith, sum-remove ℕ_discrete (publish_for r) tx a.publishes p h.publishes_distinct e),
  )

  close_resolve-Settles :
      (tx : ℕ) (p : PendingResolve) (q : Result UdpError (List (List ℕ)))
      → lookup ℕ_discrete tx a.resolves ≡ some p
      → Settles r a
          (record a { resolves = remove ℕ_discrete tx a.resolves }, resolved p.response q ∷ [])
  close_resolve-Settles tx p q e = (
    record {
      resolves_distinct = remove-Distinct ℕ_discrete tx a.resolves h.resolves_distinct;
      publishes_distinct = h.publishes_distinct;
      resolves_wait = every-remove ℕ_discrete _ tx a.resolves h.resolves_wait;
      publishes_wait = h.publishes_wait;
    },
    omega (arith, sum-remove ℕ_discrete (resolve_for r) tx a.resolves p h.resolves_distinct e),
  )

  set_resolve-Settles :
      (tx : ℕ) (p q : PendingResolve) (es : List Effect)
      → lookup ℕ_discrete tx a.resolves ≡ some p
      → q.response ≡ p.response
      → is_empty q.awaiting ≡ false
      → answers r es ≡ 0
      → Settles r a (set_resolve tx q a, es)
  set_resolve-Settles tx p q es e same wait quiet = (
    record {
      resolves_distinct = insert-Distinct ℕ_discrete tx q a.resolves h.resolves_distinct;
      publishes_distinct = h.publishes_distinct;
      resolves_wait = ground (
        arith,
        every-remove ℕ_discrete (λ p. not (is_empty p.awaiting)) tx a.resolves h.resolves_wait,
      );
      publishes_wait = h.publishes_wait;
    },
    ground (arith, sum-remove ℕ_discrete (resolve_for r) tx a.resolves p h.resolves_distinct e),
  )

  -- A pending publish is replaced by one that is finished when it awaits nobody.
  pub settle_publish-Settles :
      (tx : ℕ) (p q : PendingPublish) (es : List Effect)
      → lookup ℕ_discrete tx a.publishes ≡ some p
      → q.response ≡ p.response
      → Settles r a (
          if is_empty q.awaiting
          then finish_publish tx (set_publish tx q a)
          else (set_publish tx q a, []))
  settle_publish-Settles tx p q es e same = elim (Bool-cases (is_empty q.awaiting)) [
    | inl done ↦
        rw (done, finish_publish_set tx q a, same) (close_publish-Settles tx p (publish_result q) e)
    | inr wait ↦ rw wait (set_publish-Settles tx p q [] e same wait refl)
  ]

  pub settle_resolve-Settles :
      (tx : ℕ) (p q : PendingResolve) (left : List SocketAddrV4) (accepted : Bool)
      → lookup ℕ_discrete tx a.resolves ≡ some p
      → q.response ≡ p.response
      → q.awaiting ≡ left
      → Settles r a (
          if accepted || is_empty left
          then finish_resolve tx (set_resolve tx q a)
          else (set_resolve tx q a, []))
  settle_resolve-Settles tx p q left accepted e same eq =
      elim (Bool-cases (accepted || is_empty left)) [
        | inl done ↦
            rw (done, finish_resolve_set tx q a, same)
              (close_resolve-Settles tx p (resolve_result q) e)
        | inr wait ↦ rw wait (set_resolve-Settles tx p q [] e same (rw eq (ground arith)) refl)
      ]

  pub finish_publish-Settles : (tx : ℕ) → Settles r a (finish_publish tx a)
  unfolding finish_publish
  finish_publish-Settles tx = elim (Option-cases (lookup ℕ_discrete tx a.publishes)) [
    | inl e ↦ rw (e, finish_publish) (h, omega arith)
    | inr (p, e) ↦ rw (e, finish_publish) (close_publish-Settles tx p (publish_result p) e)
  ]

  pub finish_resolve-Settles : (tx : ℕ) → Settles r a (finish_resolve tx a)
  unfolding finish_resolve
  finish_resolve-Settles tx = elim (Option-cases (lookup ℕ_discrete tx a.resolves)) [
    | inl e ↦ rw (e, finish_resolve) (h, omega arith)
    | inr (p, e) ↦ rw (e, finish_resolve) (close_resolve-Settles tx p (resolve_result p) e)
  ]
