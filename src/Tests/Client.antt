-- ===== src/Tests/Client.antt =====
-- The client's actor at concrete requests and datagrams.
use iroh_content_discovery.Prelude.{
  ℕ, ◌+◌, ◌≤◌, ◌≡◌, refl, true, false, none, some, List, [], ◌∷◌, ◌++◌, replicate, take, drop, ltb,
  err, ℕ_discrete,
}
use iroh_content_discovery.Prelude.Maps.{lookup, remove, every}
use iroh_content_discovery.Prelude.Sets
use iroh_content_discovery.Prelude.Sets.{contains, discard}
use iroh_content_discovery.Prelude.Sort.{sort}
use iroh_content_discovery.Net.{SocketAddrV4, addr_discrete}
use iroh_content_discovery.Proto.{encode, decode, magic}
use iroh_content_discovery.Discovery.Client.{
  Actor, published, publish, resolve, timeout, handle_message, finish_publish, finish_resolve,
  publish_result, resolve_result, bytes_discrete, bytes_ltb, PendingPublish,
}
use iroh_content_discovery.Discovery.Client.Packets.{
  handle_packet, on_response, on_prepared, on_stored, on_value, take_value,
}
use iroh_content_discovery.Discovery.Client.Timer.{
  next_deadline, publish_deadlines, resolve_deadlines, flush_expired, finish_each,
  expired_publishes, expired_resolves,
}
use iroh_content_discovery.Discovery.Client.Puts.{
  handle_packets, handle_packets-slots, sends_to, slots,
}
use iroh_content_discovery.Discovery.Client.Run.{Event, message, deadline_passed, handle, run}
use iroh_content_discovery.Discovery.Client.Answers.{IsValid}
use iroh_content_discovery.Discovery.Client.Exchange.{Serves, run-Serves}
use iroh_content_discovery.Discovery.Client.Expiry.{flush_expired_left}
use iroh_content_discovery.Tests.Postcard.{postcard, to_slice, from_bytes}

program : Unit {0}
unfolding encode decode to_slice from_bytes replicate take drop lookup remove contains discard
    Sets.insert sort addr_discrete ℕ_discrete handle_message handle_packet flush_expired finish_each
    expired_publishes expired_resolves finish_publish finish_resolve publish_result resolve_result
    bytes_discrete bytes_ltb on_response on_prepared on_stored on_value take_value handle_packets
    handle run next_deadline publish_deadlines resolve_deadlines
program = tt

abbrev server : SocketAddrV4
server = record { ip = 0xcb007105; port = 60125 }

abbrev other_server : SocketAddrV4
other_server = record { ip = 0xcb007106; port = 60125 }

abbrev own : SocketAddrV4
own = record { ip = 0xcb007107; port = 6881 }

abbrev value_for : SocketAddrV4 → List ℕ
value_for addr = addr.port ∷ []

abbrev idle : Actor
idle = record { servers = server ∷ other_server ∷ []; publishes = []; resolves = []; timeout = 10 }

abbrev waiting_publish : PendingPublish
waiting_publish = record {
  value = value_for;
  too_large = false;
  awaiting = server ∷ other_server ∷ [];
  prepared = [];
  stored = [];
  response = 1;
  deadline = 10;
}

abbrev busy : Actor
busy = record idle { publishes = (7, waiting_publish) ∷ [] }

idle-IsValid : IsValid idle
idle-IsValid = record {
  publishes_distinct = tt;
  resolves_distinct = tt;
  publishes_wait = refl;
  resolves_wait = refl;
}

busy-IsValid : IsValid busy
unfolding lookup
busy-IsValid = record {
  publishes_distinct = (refl, tt);
  resolves_distinct = tt;
  publishes_wait = refl;
  resolves_wait = refl;
}

abbrev events : List Event
events =
    message (publish value_for 1) 7 0 ∷ message (resolve own none 2) 8 1 ∷ deadline_passed 10 ∷ []

run-Serves_example : Serves 1 idle 1 (run postcard idle events)
unfolding program
run-Serves_example =
    run-Serves 1 postcard idle events idle-IsValid ((refl, refl), ((refl, refl), (tt, tt)))

flush_expired_left_example :
    (every (λ p. ltb 10 p.deadline) (flush_expired 10 busy).0.publishes ≡ true)
    × (every (λ p. ltb 10 p.deadline) (flush_expired 10 busy).0.resolves ≡ true)
flush_expired_left_example = flush_expired_left 10 busy busy-IsValid

-- The deadline answers the publish, and only it.
flush_busy : (flush_expired 10 busy).1 ≡ published 1 (err timeout) ∷ []
unfolding program
flush_busy = refl

-- `prepared` from the server, repeated.
abbrev prepared_datagram : List ℕ
prepared_datagram = magic ++ (1 ∷ 0 ∷ 0 ∷ 7 ∷ 0xcb007107 ∷ 0 ∷ 0 ∷ 0 ∷ 6881 ∷ replicate 16 5)

abbrev repeated : List (List ℕ × SocketAddrV4)
repeated = (prepared_datagram, server) ∷ (prepared_datagram, server) ∷ []

handle_packets-slots_example :
    sends_to server (handle_packets postcard busy repeated).1
      + slots server (handle_packets postcard busy repeated).0.publishes
    ≤ slots server busy.publishes
handle_packets-slots_example = handle_packets-slots server postcard busy repeated

-- The value is sent once, and the other server is still awaited.
sends_repeated : sends_to server (handle_packets postcard busy repeated).1 ≡ 1
unfolding program
sends_repeated = refl

slots_left : slots server (handle_packets postcard busy repeated).0.publishes ≡ 0
unfolding program
slots_left = refl

busy-next_deadline : next_deadline busy ≡ some 10
unfolding program
busy-next_deadline = refl
