-- ===== src/Discovery/Client/Puts.antt =====
-- The client reflects no more values than it has to: one put for each server of a publish.
use iroh_content_discovery.Prelude.{
  ℕ, ◌+◌, ◌≤◌, ◌≡◌, inl, inr, Bool, true, false, ◌&&◌, ◌||◌, not, Option, none, some, List, [], ◌∷◌,
  ◌++◌, arith, ℕ_discrete, if◌then◌else◌, Option-cases, Bool-cases, ltb, length,
}
use iroh_content_discovery.Prelude.Maps.{lookup, remove, insert}
use iroh_content_discovery.Prelude.Sets.{contains, discard, contains-insert, contains-discard}
use iroh_content_discovery.Net.{SocketAddrV4, addr_discrete}
use iroh_content_discovery.Proto.{max_value_len, decode}
use iroh_content_discovery.Proto.Messages.{Proto, Response, ResponseV1, Postcard}
use iroh_content_discovery.Discovery.Client.{
  Actor, Effect, send, published, resolved, PendingPublish, PendingResolve, Step, finish_publish,
  finish_resolve, is_empty,
}
use iroh_content_discovery.Discovery.Client.Packets.{
  on_prepared, on_stored, on_value, on_response, handle_packet, send_put, dispatch,
}

-- Whether a publish may still send its value to a server.
abbrev pub slot : SocketAddrV4 → PendingPublish → ℕ
slot x p =
    if contains addr_discrete p.awaiting x && not (contains addr_discrete p.prepared x)
    then 1
    else 0

abbrev pub slots : SocketAddrV4 → List (ℕ × PendingPublish) → ℕ
slots x [] = 0
slots x ((tx, p) ∷ m) = slot x p + slots x m

-- The datagrams for a server among the effects.
abbrev pub sends_to : SocketAddrV4 → List Effect → ℕ
sends_to x [] = 0
sends_to x (send bytes to ∷ es) = elim (addr_discrete to x) [ yes _ ↦ 1 | no _ ↦ 0 ] + sends_to x es
sends_to x (published r q ∷ es) = sends_to x es
sends_to x (resolved r q ∷ es) = sends_to x es

module _ (x : SocketAddrV4) where
  slots-remove-le :
      (tx : ℕ) (m : List (ℕ × PendingPublish)) → slots x (remove ℕ_discrete tx m) ≤ slots x m
  unfolding remove
  slots-remove-le tx [] = omega arith
  slots-remove-le tx ((u, p) ∷ m) = ground (arith, slots-remove-le tx m)

  slots-remove :
      (tx : ℕ) (m : List (ℕ × PendingPublish)) (p : PendingPublish)
      → lookup ℕ_discrete tx m ≡ some p
      → slots x (remove ℕ_discrete tx m) + slot x p ≤ slots x m
  unfolding lookup remove
  slots-remove tx [] p h = cc
  slots-remove tx ((u, q) ∷ m) p h = elim (ℕ_discrete u tx) [
    | yes e ↦ ground (arith, slots-remove-le tx m)
    | no n ↦ ground (arith, slots-remove tx m p)
  ]

  finish_publish-slots :
      (tx : ℕ) (a : Actor)
      → sends_to x (finish_publish tx a).1 + slots x (finish_publish tx a).0.publishes
        ≤ slots x a.publishes
  unfolding finish_publish
  finish_publish-slots tx a = ground (arith, slots-remove-le tx a.publishes)

  finish_resolve-slots :
      (tx : ℕ) (a : Actor)
      → sends_to x (finish_resolve tx a).1 + slots x (finish_resolve tx a).0.publishes
        ≤ slots x a.publishes
  unfolding finish_resolve
  finish_resolve-slots tx a = ground arith

  module _ (pc : Postcard) (a : Actor) (tx : ℕ) (addr from : SocketAddrV4) (p : PendingPublish)
      (h : lookup ℕ_discrete tx a.publishes ≡ some p) where
    -- The pending publish is replaced by one with no more slots, and perhaps finished.
    settle-slots :
        (q : PendingPublish) (done : Bool)
        → slot x q ≤ slot x p
        → let next : Actor = record a { publishes = insert ℕ_discrete tx q a.publishes } in
          let step : Step = if done then finish_publish tx next else (next, []) in
          sends_to x step.1 + slots x step.0.publishes ≤ slots x a.publishes
    settle-slots q true less = omega (
      arith,
      slots-remove tx a.publishes p h,
      finish_publish-slots tx (record a { publishes = insert ℕ_discrete tx q a.publishes }),
    )
    settle-slots q false less = omega (arith, slots-remove tx a.publishes p h)

    on_stored-slots :
        sends_to x (on_stored a tx addr from p).1 + slots x (on_stored a tx addr from p).0.publishes
        ≤ slots x a.publishes
    unfolding on_stored
    on_stored-slots = elim (Bool-cases (contains addr_discrete p.awaiting from)) [
      | inr e ↦ rw e (omega arith)
      | inl e ↦ rw e (
          settle-slots _ (is_empty (discard addr_discrete from p.awaiting))
            (ground (arith, contains-discard addr_discrete from x p.awaiting)))
    ]

    send_put-le :
        (token value : List ℕ)
        → sends_to x (send_put pc tx token value from)
          ≤ elim (addr_discrete from x) [ yes _ ↦ 1 | no _ ↦ 0 ]
    unfolding send_put
    send_put-le token value = ground arith

    on_prepared-slots :
        (token : List ℕ)
        → sends_to x (on_prepared pc a tx addr token from p).1
            + slots x (on_prepared pc a tx addr token from p).0.publishes
          ≤ slots x a.publishes
    unfolding on_prepared
    on_prepared-slots token =
        elim (Bool-cases (
          not (contains addr_discrete p.awaiting from) || contains addr_discrete p.prepared from)) [
            | inl e ↦ rw e (omega arith)
            | inr e ↦ elim (Bool-cases (ltb max_value_len (length (p.value addr)))) [
              | inl big ↦
                  rw (e, big)
                    (settle-slots _ (is_empty (discard addr_discrete from p.awaiting)) (
                      ground (
                        arith,
                        contains-discard addr_discrete from x p.awaiting,
                        contains-insert addr_discrete from x p.prepared,
                      )))
              | inr small ↦
                  rw (e, small)
                    (ground (
                      arith,
                      slots-remove tx a.publishes p h,
                      contains-insert addr_discrete from x p.prepared,
                      send_put-le token (p.value addr),
                    ))
            ]
          ]

  on_value-slots :
      (a : Actor) (tx : ℕ) (addr : SocketAddrV4) (value : Option (List ℕ)) (from : SocketAddrV4)
      (p : PendingResolve)
      → sends_to x (on_value a tx addr value from p).1
          + slots x (on_value a tx addr value from p).0.publishes
        ≤ slots x a.publishes
  unfolding on_value finish_resolve
  on_value-slots a tx addr value from p = ground arith

  on_response-slots :
      (pc : Postcard) (a : Actor) (from : SocketAddrV4) (r : ResponseV1)
      → sends_to x (on_response pc a from r).1 + slots x (on_response pc a from r).0.publishes
        ≤ slots x a.publishes
  unfolding on_response
  on_response-slots pc a from (ResponseV1.prepared tx addr token) =
      elim (Option-cases (lookup ℕ_discrete tx a.publishes)) [
        | inl e ↦ rw (e, on_response) (omega arith)
        | inr (p, e) ↦ rw (e, on_response) (on_prepared-slots pc a tx addr from p e token)
      ]
  on_response-slots pc a from (ResponseV1.stored tx addr) =
      elim (Option-cases (lookup ℕ_discrete tx a.publishes)) [
        | inl e ↦ rw (e, on_response) (omega arith)
        | inr (p, e) ↦ rw (e, on_response) (on_stored-slots pc a tx addr from p e)
      ]
  on_response-slots pc a from (ResponseV1.value tx addr value) =
      elim (Option-cases (lookup ℕ_discrete tx a.resolves)) [
        | inl e ↦ rw (e, on_response) (omega arith)
        | inr (p, e) ↦ rw (e, on_response) (on_value-slots a tx addr value from p)
      ]

  dispatch-slots :
      (pc : Postcard) (a : Actor) (from : SocketAddrV4) (o : Option Proto)
      → sends_to x (dispatch pc a from o).1 + slots x (dispatch pc a from o).0.publishes
        ≤ slots x a.publishes
  unfolding dispatch
  dispatch-slots pc a from none = omega arith
  dispatch-slots pc a from (some (Proto.request r)) = omega arith
  dispatch-slots pc a from (some (Proto.response (Response.v1 r))) = on_response-slots pc a from r

-- The datagrams that arrive, one after the other.
unfoldable pub handle_packets : Postcard → Actor → List (List ℕ × SocketAddrV4) → Step
handle_packets pc a [] = (a, [])
handle_packets pc a ((bs, from) ∷ rest) =
    let (a', first) = handle_packet pc a bs from in
    let (a'', more) = handle_packets pc a' rest in (a'', first ++ more)

sends_to-append :
    (x : SocketAddrV4) (es fs : List Effect) → sends_to x (es ++ fs) ≡ sends_to x es + sends_to x fs
sends_to-append x [] fs = omega arith
sends_to-append x (send bytes to ∷ es) fs = omega (arith, sends_to-append x es fs)
sends_to-append x (published r q ∷ es) fs = sends_to-append x es fs
sends_to-append x (resolved r q ∷ es) fs = sends_to-append x es fs

-- Whatever datagrams arrive, repeated and forged ones included, the client sends a server at most
-- one datagram for each pending publish that awaits it and has not yet sent it the value.
pub handle_packets-slots :
    (x : SocketAddrV4) (pc : Postcard) (a : Actor) (packets : List (List ℕ × SocketAddrV4))
    → sends_to x (handle_packets pc a packets).1 + slots x (handle_packets pc a packets).0.publishes
      ≤ slots x a.publishes
unfolding handle_packets handle_packet
handle_packets-slots x pc a [] = omega arith
handle_packets-slots x pc a ((bs, from) ∷ rest) =
    let (a', first) = handle_packet pc a bs from in
    omega (
      arith,
      dispatch-slots x pc a from (decode pc bs),
      handle_packets-slots x pc a' rest,
      sends_to-append x first (handle_packets pc a' rest).1,
    )
