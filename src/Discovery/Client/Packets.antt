-- ===== src/Discovery/Client/Packets.antt =====
-- The datagrams that the client's actor receives (`Actor::handle_packet`).
use iroh_content_discovery.Prelude.{
  ℕ, Bool, true, false, ◌||◌, not, Option, none, some, List, [], ◌∷◌, ltb, leb, if◌then◌else◌,
  length, ℕ_discrete,
}
use iroh_content_discovery.Prelude.Maps.{lookup}
use iroh_content_discovery.Prelude.Sets
use iroh_content_discovery.Prelude.Sets.{contains, discard}
use iroh_content_discovery.Net.{SocketAddrV4, addr_discrete, addr_eq}
use iroh_content_discovery.Proto.{max_value_len, encode, decode}
use iroh_content_discovery.Proto.Messages.{Proto, RequestV1, Response, ResponseV1, Postcard}
use iroh_content_discovery.Discovery.Client.{
  Actor, Effect, send, PendingPublish, PendingResolve, Step, finish_publish, finish_resolve,
  set_publish, set_resolve, is_empty, bytes_discrete, request,
}

-- The put for a server that has answered with a token.
unfoldable pub send_put : Postcard → ℕ → List ℕ → List ℕ → SocketAddrV4 → List Effect
send_put pc tx token value from = elim (encode pc (request (RequestV1.put tx token value))) [
  | none ↦ []
  | some bytes ↦ send bytes from ∷ []
]

unfoldable pub on_prepared :
    Postcard → Actor → ℕ → SocketAddrV4 → List ℕ → SocketAddrV4 → PendingPublish → Step
unfolding send_put
on_prepared pc a tx addr token from p =
    if not (contains addr_discrete p.awaiting from) || contains addr_discrete p.prepared from
    then (a, [])
    else (let value = p.value addr in
        let q : PendingPublish = record p {
          prepared = Sets.insert addr_discrete from p.prepared;
        } in
        let left = discard addr_discrete from p.awaiting in
        let big : Actor = set_publish tx (record q { too_large = true; awaiting = left }) a in
        if ltb max_value_len (length value)
        then (if is_empty left then finish_publish tx big else (big, []))
        else (set_publish tx q a, send_put pc tx token value from))

unfoldable pub on_stored : Actor → ℕ → SocketAddrV4 → SocketAddrV4 → PendingPublish → Step
on_stored a tx addr from p =
    if contains addr_discrete p.awaiting from
    then (let left = discard addr_discrete from p.awaiting in
        let next : Actor =
          set_publish tx
            (record p { awaiting = left; stored = Sets.insert addr_discrete addr p.stored }) a in
        if is_empty left then finish_publish tx next else (next, []))
    else (a, [])

abbrev pub accepts : Option (List ℕ → Bool) → List ℕ → Bool
accepts none value = false
accepts (some accept) value = accept value

-- The value of a response, if it is there and not too long.
unfoldable pub take_value : PendingResolve → Option (List ℕ) → PendingResolve × Bool
take_value p none = (p, false)
take_value p (some value) =
    if leb (length value) max_value_len
    then (record p { values = Sets.insert bytes_discrete value p.values }, accepts p.accept value)
    else (p, false)

unfoldable pub on_value :
    Actor → ℕ → SocketAddrV4 → Option (List ℕ) → SocketAddrV4 → PendingResolve → Step
unfolding take_value
on_value a tx addr value from p =
    if not (addr_eq p.addr addr) || not (contains addr_discrete p.awaiting from)
    then (a, [])
    else (let left = discard addr_discrete from p.awaiting in
        let taken = take_value (record p { awaiting = left; responded = true }) value in
        let next : Actor = set_resolve tx taken.0 a in
        if taken.1 || is_empty left then finish_resolve tx next else (next, []))

unfoldable pub on_response : Postcard → Actor → SocketAddrV4 → ResponseV1 → Step
on_response pc a from (ResponseV1.prepared tx addr token) =
    elim (lookup ℕ_discrete tx a.publishes) [
      | none ↦ (a, [])
      | some p ↦ on_prepared pc a tx addr token from p
    ]
on_response pc a from (ResponseV1.stored tx addr) = elim (lookup ℕ_discrete tx a.publishes) [
  | none ↦ (a, [])
  | some p ↦ on_stored a tx addr from p
]
on_response pc a from (ResponseV1.value tx addr value) = elim (lookup ℕ_discrete tx a.resolves) [
  | none ↦ (a, [])
  | some p ↦ on_value a tx addr value from p
]

-- A datagram that is no response is dropped.
unfoldable pub dispatch : Postcard → Actor → SocketAddrV4 → Option Proto → Step
unfolding on_response
dispatch pc a from (some (Proto.response (Response.v1 r))) = on_response pc a from r
dispatch pc a from (some (Proto.request r)) = (a, [])
dispatch pc a from none = (a, [])

unfoldable pub handle_packet : Postcard → Actor → List ℕ → SocketAddrV4 → Step
unfolding dispatch
handle_packet pc a bs from = dispatch pc a from (decode pc bs)
