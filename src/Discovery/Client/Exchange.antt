-- ===== src/Discovery/Client/Exchange.antt =====
-- Over a whole run of the client's actor no request is lost or answered twice.
use iroh_content_discovery.Prelude.{
  ℕ, ◌+◌, ◌≡◌, refl, inl, inr, Bool, false, Option, none, List, [], ◌∷◌, arith, ℕ_discrete,
  if◌then◌else◌, Option-cases, Bool-cases, ◌==◌, replicate,
}
use iroh_content_discovery.Prelude.Maps.{lookup, remove_absent, insert-Distinct}
use iroh_content_discovery.Net.{SocketAddrV4}
use iroh_content_discovery.Proto.{encode, decode}
use iroh_content_discovery.Proto.Messages.{RequestV1, Postcard}
use iroh_content_discovery.Discovery.Client.{
  Actor, publish, resolve, add_server, remove_server, replace_servers, Effect, PendingPublish,
  PendingResolve, Step, handle_message, start_publish, start_resolve, is_empty, set_publish,
  set_resolve, send_all, request,
}
use iroh_content_discovery.Discovery.Client.Packets.{handle_packet, dispatch}
use iroh_content_discovery.Discovery.Client.Timer.{flush_expired}
use iroh_content_discovery.Discovery.Client.Answers.{
  answers, answers-append, pending, publish_for, resolve_for, IsValid, Settles,
}
use iroh_content_discovery.Discovery.Client.Run.{
  Event, message, packet, deadline_passed, handle, run,
}
use iroh_content_discovery.Discovery.Client.Served.{dispatch-Settles, flush_expired-Settles}

-- The requests that a message makes.
abbrev pub asks_one : ℕ → Event → ℕ
asks_one r (message (publish _ s) tx now) = if s == r then 1 else 0
asks_one r (message (resolve _ _ s) tx now) = if s == r then 1 else 0
asks_one r e = 0

abbrev pub asks : ℕ → List Event → ℕ
asks r [] = 0
asks r (e ∷ es) = asks_one r e + asks r es

-- No open transaction has the id that is drawn for a message.
abbrev pub Drawn : Actor → Event → Type 0
Drawn a (message msg tx now) =
    (lookup ℕ_discrete tx a.publishes ≡ none) × (lookup ℕ_discrete tx a.resolves ≡ none)
Drawn a e = Unit

abbrev pub AllDrawn : Postcard → Actor → List Event → Type 0
AllDrawn pc a [] = Unit
AllDrawn pc a (e ∷ es) = Drawn a e × AllDrawn pc (handle pc a e).0 es

send_all_silent :
    (r : ℕ) (bytes : List ℕ) (to : List SocketAddrV4) → answers r (send_all bytes to) ≡ 0
send_all_silent r bytes [] = refl
send_all_silent r bytes (x ∷ xs) = send_all_silent r bytes xs

-- A step keeps the invariant, and every request is answered or pending, once.
abbrev pub Serves : ℕ → Actor → ℕ → Step → Type 0
Serves r a asked step = IsValid step.0 × (answers r step.1 + pending r step.0 ≡ pending r a + asked)

Settles-Serves : (r : ℕ) (a : Actor) (step : Step) → Settles r a step → Serves r a 0 step
Settles-Serves r a step (h, e) = (h, omega arith)

module _ (r : ℕ) (pc : Postcard) (a : Actor) (h : IsValid a) (tx : ℕ) where
  open_publish-Serves :
      (p : PendingPublish) (es : List Effect)
      → lookup ℕ_discrete tx a.publishes ≡ none
      → is_empty p.awaiting ≡ false
      → answers r es ≡ 0
      → Serves r a (publish_for r p) (set_publish tx p a, es)
  open_publish-Serves p es e wait quiet = (
    record {
      publishes_distinct = insert-Distinct ℕ_discrete tx p a.publishes h.publishes_distinct;
      resolves_distinct = h.resolves_distinct;
      publishes_wait = ground (arith, h.publishes_wait, remove_absent ℕ_discrete tx a.publishes e);
      resolves_wait = h.resolves_wait;
    },
    rw (remove_absent ℕ_discrete tx a.publishes e) (omega arith),
  )

  open_resolve-Serves :
      (p : PendingResolve) (es : List Effect)
      → lookup ℕ_discrete tx a.resolves ≡ none
      → is_empty p.awaiting ≡ false
      → answers r es ≡ 0
      → Serves r a (resolve_for r p) (set_resolve tx p a, es)
  open_resolve-Serves p es e wait quiet = (
    record {
      publishes_distinct = h.publishes_distinct;
      resolves_distinct = insert-Distinct ℕ_discrete tx p a.resolves h.resolves_distinct;
      publishes_wait = h.publishes_wait;
      resolves_wait = ground (arith, h.resolves_wait, remove_absent ℕ_discrete tx a.resolves e);
    },
    rw (remove_absent ℕ_discrete tx a.resolves e) (omega arith),
  )

  start_publish-Serves :
      (value_for : SocketAddrV4 → List ℕ) (s now : ℕ)
      → lookup ℕ_discrete tx a.publishes ≡ none
      → Serves r a (if s == r then 1 else 0) (start_publish pc a value_for s tx now)
  unfolding start_publish
  start_publish-Serves value_for s now e = elim (Bool-cases (is_empty a.servers)) [
    | inl c ↦ rw c (h, omega arith)
    | inr c ↦ elim (Option-cases (encode pc (request (RequestV1.prepare tx (replicate 24 0))))) [
      | inl f ↦ rw (c, f) (h, omega arith)
      | inr (bytes, f) ↦
          rw (c, f)
            (open_publish-Serves _ (send_all bytes a.servers) e c
              (send_all_silent r bytes a.servers))
    ]
  ]

  start_resolve-Serves :
      (addr : SocketAddrV4) (accept : Option (List ℕ → Bool)) (s now : ℕ)
      → lookup ℕ_discrete tx a.resolves ≡ none
      → Serves r a (if s == r then 1 else 0) (start_resolve pc a addr accept s tx now)
  unfolding start_resolve
  start_resolve-Serves addr accept s now e = elim (Bool-cases (is_empty a.servers)) [
    | inl c ↦ rw c (h, omega arith)
    | inr c ↦ elim (Option-cases (encode pc (request (RequestV1.get tx addr)))) [
      | inl f ↦ rw (c, f) (h, omega arith)
      | inr (bytes, f) ↦
          rw (c, f)
            (open_resolve-Serves _ (send_all bytes a.servers) e c
              (send_all_silent r bytes a.servers))
    ]
  ]

servers-IsValid :
    (a : Actor)
    → IsValid a
    → (servers : List SocketAddrV4) → IsValid (record a { servers = servers })
servers-IsValid a h servers = record {
  publishes_distinct = h.publishes_distinct;
  resolves_distinct = h.resolves_distinct;
  publishes_wait = h.publishes_wait;
  resolves_wait = h.resolves_wait;
}

handle-Serves :
    (r : ℕ) (pc : Postcard) (a : Actor) (e : Event)
    → IsValid a
    → Drawn a e
    → Serves r a (asks_one r e) (handle pc a e)
unfolding handle handle_message handle_packet
handle-Serves r pc a (message (add_server addr) tx now) h f = (servers-IsValid a h _, omega arith)
handle-Serves r pc a (message (remove_server addr) tx now) h f =
    (servers-IsValid a h _, omega arith)
handle-Serves r pc a (message (replace_servers servers) tx now) h f =
    (servers-IsValid a h _, omega arith)
handle-Serves r pc a (message (publish value_for s) tx now) h f =
    start_publish-Serves r pc a h tx value_for s now f.0
handle-Serves r pc a (message (resolve addr accept s) tx now) h f =
    start_resolve-Serves r pc a h tx addr accept s now f.1
handle-Serves r pc a (packet bs from) h f =
    Settles-Serves r a (dispatch pc a from (decode pc bs))
      (dispatch-Settles r a h pc from (decode pc bs))
handle-Serves r pc a (deadline_passed now) h f =
    Settles-Serves r a (flush_expired now a) (flush_expired-Settles r now a h)

-- Whatever messages, datagrams and timers come, in whatever order, the actor stays valid, and every
-- request that it had or got is answered once or pending, if the drawn transaction ids are unused.
pub run-Serves :
    (r : ℕ) (pc : Postcard) (a : Actor) (es : List Event)
    → IsValid a
    → AllDrawn pc a es
    → Serves r a (asks r es) (run pc a es)
unfolding run
run-Serves r pc a [] h f = (h, omega arith)
run-Serves r pc a (e ∷ es) h (f, fs) =
    let step = handle pc a e in
    let (h', one) = handle-Serves r pc a e h f in
    let (h'', more) = run-Serves r pc step.0 es h' fs in
    (h'', omega (arith, answers-append r step.1 (run pc step.0 es).1))
