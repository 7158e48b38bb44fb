-- ===== src/Discovery/Client/Timer.antt =====
-- The deadlines of the client's actor: `Actor::next_deadline` and `Actor::flush_expired`.
use iroh_content_discovery.Prelude.{
  ℕ, Option, none, some, List, [], ◌∷◌, ◌++◌, leb, if◌then◌else◌, min,
}
use iroh_content_discovery.Discovery.Client.{
  Actor, PendingPublish, PendingResolve, Step, finish_publish, finish_resolve,
}

abbrev pub earliest : Option ℕ → ℕ → Option ℕ
earliest none d = some d
earliest (some e) d = some (min e d)

unfoldable pub publish_deadlines : List (ℕ × PendingPublish) → Option ℕ → Option ℕ
publish_deadlines [] d = d
publish_deadlines ((tx, p) ∷ m) d = publish_deadlines m (earliest d p.deadline)

unfoldable pub resolve_deadlines : List (ℕ × PendingResolve) → Option ℕ → Option ℕ
resolve_deadlines [] d = d
resolve_deadlines ((tx, p) ∷ m) d = resolve_deadlines m (earliest d p.deadline)

unfoldable pub next_deadline : Actor → Option ℕ
unfolding publish_deadlines resolve_deadlines
next_deadline a = resolve_deadlines a.resolves (publish_deadlines a.publishes none)

-- The transactions whose deadline has passed.
unfoldable pub expired_publishes : ℕ → List (ℕ × PendingPublish) → List ℕ
expired_publishes now [] = []
expired_publishes now ((tx, p) ∷ m) =
    let rest = expired_publishes now m in if leb p.deadline now then tx ∷ rest else rest

unfoldable pub expired_resolves : ℕ → List (ℕ × PendingResolve) → List ℕ
expired_resolves now [] = []
expired_resolves now ((tx, p) ∷ m) =
    let rest = expired_resolves now m in if leb p.deadline now then tx ∷ rest else rest

-- `for tx in … { finish(tx) }`
unfoldable pub finish_each : (ℕ → Actor → Step) → List ℕ → Actor → Step
finish_each finish [] a = (a, [])
finish_each finish (tx ∷ txs) a =
    let (a', first) = finish tx a in
    let (a'', rest) = finish_each finish txs a' in (a'', first ++ rest)

unfoldable pub flush_expired : ℕ → Actor → Step
unfolding expired_publishes expired_resolves finish_each
flush_expired now a =
    let (a', first) = finish_each finish_publish (expired_publishes now a.publishes) a in
    let (a'', rest) = finish_each finish_resolve (expired_resolves now a'.resolves) a' in
    (a'', first ++ rest)
