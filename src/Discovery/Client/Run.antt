-- ===== src/Discovery/Client/Run.antt =====
-- The loop of the client's actor (`Actor::run`): a message, a datagram or an expired deadline at a
-- time, whatever the order in which `select!` takes them.
use iroh_content_discovery.Prelude.{ℕ, List, [], ◌∷◌, ◌++◌}
use iroh_content_discovery.Net.{SocketAddrV4}
use iroh_content_discovery.Proto.Messages.{Postcard}
use iroh_content_discovery.Discovery.Client.{Actor, ActorMsg, Step, handle_message}
use iroh_content_discovery.Discovery.Client.Packets.{handle_packet}
use iroh_content_discovery.Discovery.Client.Timer.{flush_expired}

pub data Event : Type 0 where
  message : (msg : ActorMsg) (tx now : ℕ) → Event
  packet : (data_bytes : List ℕ) (from : SocketAddrV4) → Event
  deadline_passed : (now : ℕ) → Event

unfoldable pub handle : Postcard → Actor → Event → Step
handle pc a (message msg tx now) = handle_message pc a msg tx now
handle pc a (packet bs from) = handle_packet pc a bs from
handle pc a (deadline_passed now) = flush_expired now a

unfoldable pub run : Postcard → Actor → List Event → Step
unfolding handle
run pc a [] = (a, [])
run pc a (e ∷ es) =
    let (a', first) = handle pc a e in let (a'', more) = run pc a' es in (a'', first ++ more)
