-- ===== src/Discovery/Client/Served.antt =====
-- Every handler of the client's actor closes the transactions that it answers, and no other.
use iroh_content_discovery.Prelude.{
  ℕ, ◌≡◌, refl, inl, inr, true, ◌||◌, not, Option, none, some, List, [], ◌∷◌, arith, ℕ_discrete,
  Option-cases, Bool-cases, ltb, length,
}
use iroh_content_discovery.Prelude.Maps.{lookup, every-lookup}
use iroh_content_discovery.Prelude.Sets.{contains, discard}
use iroh_content_discovery.Net.{SocketAddrV4, addr_discrete, addr_eq}
use iroh_content_discovery.Proto.{max_value_len}
use iroh_content_discovery.Proto.Messages.{Proto, Response, ResponseV1, Postcard}
use iroh_content_discovery.Discovery.Client.{
  Actor, PendingPublish, PendingResolve, Step, finish_publish, finish_resolve, is_empty,
}
use iroh_content_discovery.Discovery.Client.Packets.{
  on_prepared, on_stored, on_value, on_response, send_put, dispatch, take_value,
}
use iroh_content_discovery.Discovery.Client.Timer.{
  finish_each, flush_expired, expired_publishes, expired_resolves,
}
use iroh_content_discovery.Discovery.Client.Answers.{
  answers, answers-append, IsValid, Settles, settle_publish-Settles, settle_resolve-Settles,
  set_publish-Settles, finish_publish-Settles, finish_resolve-Settles,
}

module _ (r : ℕ) (a : Actor) (h : IsValid a) where
  on_stored-Settles :
      (tx : ℕ) (addr from : SocketAddrV4) (p : PendingPublish)
      → lookup ℕ_discrete tx a.publishes ≡ some p
      → Settles r a (on_stored a tx addr from p)
  unfolding on_stored
  on_stored-Settles tx addr from p e = elim (Bool-cases (contains addr_discrete p.awaiting from)) [
    | inr c ↦ rw c (h, omega arith)
    | inl c ↦ rw c (settle_publish-Settles r a h tx p _ [] e refl)
  ]

  send_put_silent :
      (pc : Postcard) (tx : ℕ) (token value : List ℕ) (from : SocketAddrV4)
      → answers r (send_put pc tx token value from) ≡ 0
  unfolding send_put
  send_put_silent pc tx token value from = ground arith

  on_prepared-Settles :
      (pc : Postcard) (tx : ℕ) (addr : SocketAddrV4) (token : List ℕ) (from : SocketAddrV4)
      (p : PendingPublish)
      → lookup ℕ_discrete tx a.publishes ≡ some p
      → Settles r a (on_prepared pc a tx addr token from p)
  unfolding on_prepared
  on_prepared-Settles pc tx addr token from p e =
      elim (Bool-cases
        (not (contains addr_discrete p.awaiting from) || contains addr_discrete p.prepared from)) [
          | inl c ↦ rw c (h, omega arith)
          | inr c ↦ elim (Bool-cases (ltb max_value_len (length (p.value addr)))) [
            | inl big ↦ rw (c, big) (settle_publish-Settles r a h tx p _ [] e refl)
            | inr small ↦
                rw (c, small)
                  (set_publish-Settles r a h tx p _ (send_put pc tx token (p.value addr) from) e
                    refl
                    (ground (
                      arith,
                      every-lookup ℕ_discrete (λ p. not (is_empty p.awaiting)) tx a.publishes p
                          h.publishes_wait,
                    ))
                    (send_put_silent pc tx token (p.value addr) from))
          ]
        ]

  take_value_response :
      (p : PendingResolve) (value : Option (List ℕ))
      → ((take_value p value).0.response ≡ p.response)
        × ((take_value p value).0.awaiting ≡ p.awaiting)
  unfolding take_value
  take_value_response p none = (refl, refl)
  take_value_response p (some value) = ground arith

  on_value-Settles :
      (tx : ℕ) (addr : SocketAddrV4) (value : Option (List ℕ)) (from : SocketAddrV4)
      (p : PendingResolve)
      → lookup ℕ_discrete tx a.resolves ≡ some p
      → Settles r a (on_value a tx addr value from p)
  unfolding on_value
  on_value-Settles tx addr value from p e =
      elim (Bool-cases
        (not (addr_eq p.addr addr) || not (contains addr_discrete p.awaiting from))) [
          | inl c ↦ rw c (h, omega arith)
          | inr c ↦
              let q : PendingResolve = record p {
                awaiting = discard addr_discrete from p.awaiting;
                responded = true;
              } in
              let (same, left) = take_value_response q value in
              rw c (
                settle_resolve-Settles r a h tx p (take_value q value).0 q.awaiting
                  (take_value q value).1 e same left)
        ]

  on_response-Settles :
      (pc : Postcard) (from : SocketAddrV4) (q : ResponseV1) → Settles r a (on_response pc a from q)
  unfolding on_response
  on_response-Settles pc from (ResponseV1.prepared tx addr token) =
      elim (Option-cases (lookup ℕ_discrete tx a.publishes)) [
        | inl e ↦ rw (e, on_response) (h, omega arith)
        | inr (p, e) ↦ rw (e, on_response) (on_prepared-Settles pc tx addr token from p e)
      ]
  on_response-Settles pc from (ResponseV1.stored tx addr) =
      elim (Option-cases (lookup ℕ_discrete tx a.publishes)) [
        | inl e ↦ rw (e, on_response) (h, omega arith)
        | inr (p, e) ↦ rw (e, on_response) (on_stored-Settles tx addr from p e)
      ]
  on_response-Settles pc from (ResponseV1.value tx addr value) =
      elim (Option-cases (lookup ℕ_discrete tx a.resolves)) [
        | inl e ↦ rw (e, on_response) (h, omega arith)
        | inr (p, e) ↦ rw (e, on_response) (on_value-Settles tx addr value from p e)
      ]

  pub dispatch-Settles :
      (pc : Postcard) (from : SocketAddrV4) (o : Option Proto) → Settles r a (dispatch pc a from o)
  unfolding dispatch
  dispatch-Settles pc from none = (h, omega arith)
  dispatch-Settles pc from (some (Proto.request q)) = (h, omega arith)
  dispatch-Settles pc from (some (Proto.response (Response.v1 q))) = on_response-Settles pc from q

finish_each-Settles :
    (r : ℕ) (finish : ℕ → Actor → Step)
    → ((tx : ℕ) (a : Actor) → IsValid a → Settles r a (finish tx a))
    → (txs : List ℕ) (a : Actor) → IsValid a
    → Settles r a (finish_each finish txs a)
unfolding finish_each
finish_each-Settles r finish settle [] a h = (h, omega arith)
finish_each-Settles r finish settle (tx ∷ txs) a h =
    let (a', first) = finish tx a in
    let (h', one) = settle tx a h in
    let (h'', all) = finish_each-Settles r finish settle txs a' h' in
    (h'', omega (arith, answers-append r first (finish_each finish txs a').1))

pub flush_expired-Settles : (r now : ℕ) (a : Actor) → IsValid a → Settles r a (flush_expired now a)
unfolding flush_expired
flush_expired-Settles r now a h =
    let step = finish_each finish_publish (expired_publishes now a.publishes) a in
    let (h', one) =
      finish_each-Settles r finish_publish (λ tx b v. finish_publish-Settles r b v tx)
        (expired_publishes now a.publishes) a h in
    let (h'', two) =
      finish_each-Settles r finish_resolve (λ tx b v. finish_resolve-Settles r b v tx)
        (expired_resolves now step.0.resolves) step.0 h' in
    (
      h'',
      omega (
        arith,
        answers-append r step.1
            (finish_each finish_resolve (expired_resolves now step.0.resolves) step.0).1,
      ),
    )
