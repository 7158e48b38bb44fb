-- ===== src/Discovery/Client.antt =====
-- iroh-mainline-endpoint-discovery/src/udp.rs: the actor of the address-index client. One call
-- handles one message, one datagram or one expiry; it returns the new state and what it sends and
-- answers, in order. The random transaction id and the clock are arguments, and a `oneshot` sender
-- is a number.

pub mod Packets
pub mod Timer
pub mod Puts
pub mod Answers
pub mod Run
pub mod Served
pub mod Exchange
pub mod Expiry
use iroh_content_discovery.Prelude.{
  ℕ, ◌+◌, ◌≡◌, Bool, true, false, ◌&&◌, ◌||◌, not, Option, none, some, List, [], ◌∷◌, ◌++◌, map,
  ltb, leb, if◌then◌else◌, length, Result, ok, err, ℕ_discrete, min, replicate,
}
use iroh_content_discovery.Prelude.Maps.{lookup, remove, insert}
use iroh_content_discovery.Prelude.Sets
use iroh_content_discovery.Prelude.Sets.{contains, discard}
use iroh_content_discovery.Prelude.Sort.{sort}
use iroh_content_discovery.Net.{SocketAddrV4, addr_discrete, addr_eq, addr_ltb}
use iroh_content_discovery.Proto.{max_value_len, encode, decode}
use iroh_content_discovery.Proto.Messages.{
  Proto, Request, RequestV1, Response, ResponseV1, Postcard,
}

pub data UdpError : Type 0 where
  attach timeout too_large no_servers closed : UdpError

pub record PendingPublish : Type 0 where
  pub value : SocketAddrV4 → List ℕ
  pub too_large : Bool
  pub awaiting : List SocketAddrV4
  pub prepared : List SocketAddrV4
  pub stored : List SocketAddrV4
  pub response : ℕ
  pub deadline : ℕ

pub record PendingResolve : Type 0 where
  pub addr : SocketAddrV4
  pub accept : Option (List ℕ → Bool)
  pub awaiting : List SocketAddrV4
  pub values : List (List ℕ)
  pub responded : Bool
  pub response : ℕ
  pub deadline : ℕ

pub record Actor : Type 0 where
  pub servers : List SocketAddrV4
  pub publishes : List (ℕ × PendingPublish)
  pub resolves : List (ℕ × PendingResolve)
  pub timeout : ℕ

pub data ActorMsg : Type 0 where
  add_server remove_server : SocketAddrV4 → ActorMsg
  replace_servers : List SocketAddrV4 → ActorMsg
  publish : (SocketAddrV4 → List ℕ) → ℕ → ActorMsg
  resolve : SocketAddrV4 → Option (List ℕ → Bool) → ℕ → ActorMsg

pub data Effect : Type 0 where
  send : (bytes : List ℕ) (to : SocketAddrV4) → Effect
  published : (response : ℕ) (result : Result UdpError (List SocketAddrV4)) → Effect
  resolved : (response : ℕ) (result : Result UdpError (List (List ℕ))) → Effect

abbrev pub Step : Type 0
Step = Actor × List Effect

unfoldable pub bytes_discrete : Discrete (List ℕ)
unfolding ℕ_discrete
bytes_discrete = hlevel ℕ_discrete

-- The order of `Vec<u8>`.
unfoldable pub bytes_ltb : List ℕ → List ℕ → Bool
bytes_ltb [] [] = false
bytes_ltb [] (y ∷ ys) = true
bytes_ltb (x ∷ xs) [] = false
bytes_ltb (x ∷ xs) (y ∷ ys) = ltb x y || (not (ltb y x) && bytes_ltb xs ys)

abbrev pub is_empty : {A : Type 0} → List A → Bool
is_empty [] = true
is_empty (x ∷ xs) = false

unfoldable pub publish_result : PendingPublish → Result UdpError (List SocketAddrV4)
unfolding sort
publish_result p =
    if is_empty p.stored
    then (if p.too_large then err too_large else err timeout)
    else ok (sort addr_ltb p.stored)

unfoldable pub finish_publish : ℕ → Actor → Step
unfolding publish_result
finish_publish tx a = elim (lookup ℕ_discrete tx a.publishes) [
  | none ↦ (a, [])
  | some p ↦ (
    record a { publishes = remove ℕ_discrete tx a.publishes },
    published p.response (publish_result p) ∷ [],
  )
]

unfoldable pub resolve_result : PendingResolve → Result UdpError (List (List ℕ))
unfolding sort bytes_ltb
resolve_result p = if p.responded then ok (sort bytes_ltb p.values) else err timeout

unfoldable pub finish_resolve : ℕ → Actor → Step
unfolding resolve_result
finish_resolve tx a = elim (lookup ℕ_discrete tx a.resolves) [
  | none ↦ (a, [])
  | some p ↦ (
    record a { resolves = remove ℕ_discrete tx a.resolves },
    resolved p.response (resolve_result p) ∷ [],
  )
]

abbrev pub set_publish : ℕ → PendingPublish → Actor → Actor
set_publish tx p a = record a { publishes = insert ℕ_discrete tx p a.publishes }

abbrev pub set_resolve : ℕ → PendingResolve → Actor → Actor
set_resolve tx p a = record a { resolves = insert ℕ_discrete tx p a.resolves }

abbrev pub request : RequestV1 → Proto
request r = Proto.request (Request.v1 r)

abbrev pub send_all : List ℕ → List SocketAddrV4 → List Effect
send_all bytes = map (send bytes)

start_publish : Postcard → Actor → (SocketAddrV4 → List ℕ) → ℕ → ℕ → ℕ → Step
start_publish pc a value_for response tx now =
    if is_empty a.servers
    then (a, published response (err no_servers) ∷ [])
    else elim (encode pc (request (RequestV1.prepare tx (replicate 24 0)))) [
      | none ↦ (a, published response (err too_large) ∷ [])
      | some bytes ↦ (
        set_publish tx
            (record {
              value = value_for;
              too_large = false;
              awaiting = a.servers;
              prepared = [];
              stored = [];
              response = response;
              deadline = now + a.timeout;
            })
            a,
        send_all bytes a.servers,
      )
    ]

start_resolve : Postcard → Actor → SocketAddrV4 → Option (List ℕ → Bool) → ℕ → ℕ → ℕ → Step
start_resolve pc a addr accept response tx now =
    if is_empty a.servers
    then (a, resolved response (err no_servers) ∷ [])
    else elim (encode pc (request (RequestV1.get tx addr))) [
      | none ↦ (a, resolved response (err too_large) ∷ [])
      | some bytes ↦ (
        set_resolve tx
            (record {
              addr = addr;
              accept = accept;
              awaiting = a.servers;
              values = [];
              responded = false;
              response = response;
              deadline = now + a.timeout;
            })
            a,
        send_all bytes a.servers,
      )
    ]

unfoldable pub handle_message : Postcard → Actor → ActorMsg → ℕ → ℕ → Step
unfolding start_publish start_resolve
handle_message pc a (replace_servers servers) tx now = (record a { servers = servers }, [])
handle_message pc a (add_server addr) tx now =
    (record a { servers = Sets.insert addr_discrete addr a.servers }, [])
handle_message pc a (remove_server addr) tx now =
    (record a { servers = discard addr_discrete addr a.servers }, [])
handle_message pc a (publish value_for response) tx now =
    start_publish pc a value_for response tx now
handle_message pc a (resolve addr accept response) tx now =
    start_resolve pc a addr accept response tx now
