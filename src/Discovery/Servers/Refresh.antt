-- ===== src/Discovery/Servers/Refresh.antt =====
-- iroh-mainline-endpoint-discovery/src/addr_index.rs: `Discovery::refresh`, which tries the signed list,
-- the stored copy and the rendezvous hash, and `AddrIndexBuilder::build`.
use iroh_content_discovery.Prelude.{
  ℕ, Bool, true, false, Option, none, some, List, [], ◌∷◌, ◌==◌, length, Result, ok, err,
  if◌then◌else◌,
}
use iroh_content_discovery.Prelude.Sets.{insert}
use iroh_content_discovery.Net.{SocketAddrV4, addr_discrete}
use iroh_content_discovery.Discovery.Client.{UdpError, timeout, no_servers}
use iroh_content_discovery.Discovery.Mutable.{MutableItem}
use iroh_content_discovery.Discovery.ServerList.{Dns, valid_address}
use iroh_content_discovery.Discovery.Servers.{
  Sources, Ending, finished, late, broken, DhtAnswers, Discovery, list_of, accept_all, use_fallback,
}

-- The peers that the rendezvous gave, and the error of its lookup.
pub record Rendezvous : Type 0 where
  pub peers : List SocketAddrV4
  pub error : Option UdpError

unfoldable pub ended : List SocketAddrV4 → Ending → Rendezvous
ended kept finished = record { peers = kept; error = none }
ended kept (broken e) = record { peers = kept; error = some e }
ended [] late = record { peers = []; error = some timeout }
ended (peer ∷ kept) late = record { peers = peer ∷ kept; error = none }

-- The loop over the rendezvous peers, which ends at the second.
unfoldable pub collect_peers : List SocketAddrV4 → List SocketAddrV4 → Ending → Rendezvous
unfolding ended insert
collect_peers kept [] ending = ended kept ending
collect_peers kept (peer ∷ peers) ending =
    let more = insert addr_discrete peer kept in
    let rest = collect_peers more peers ending in
    let skipped = collect_peers kept peers ending in
    if valid_address peer
    then (if length more == 2 then record { peers = more; error = none } else rest)
    else skipped

-- The error of the lookup of the list, and the items that it counts.
unfoldable pub items_error : Option (List ℕ) → Ending → Option UdpError
items_error none ending = none
items_error (some key) finished = none
items_error (some key) late = some timeout
items_error (some key) (broken e) = some e

unfoldable pub items_of : Option (List ℕ) → DhtAnswers → List MutableItem
items_of none answers = []
items_of (some key) answers = elim answers.items_ending [
  | finished ↦ answers.items
  | late ↦ answers.items
  | broken e ↦ []
]

pub record Refreshed : Type 0 where
  pub discovery : Discovery
  pub error : Option UdpError

-- What the list says: no list, a withdrawal, or servers.
pub data Verdict : Type 0 where
  no_list withdrawn : Verdict
  listed : SocketAddrV4 → List SocketAddrV4 → Verdict

unfoldable pub verdict_of : Option (List SocketAddrV4) → Verdict
verdict_of none = no_list
verdict_of (some []) = withdrawn
verdict_of (some (addr ∷ addrs)) = listed addr addrs

-- The servers of a verdict, or the error that keeps the ones in use.
unfoldable pub found_peers :
    Option UdpError → List SocketAddrV4 → Result UdpError (List SocketAddrV4)
found_peers (some e) peers = err e
found_peers none [] = err no_servers
found_peers none (peer ∷ peers) = ok (peer ∷ peers)

unfoldable pub fallback_peers :
    Option (List ℕ) → Option UdpError → Rendezvous → Result UdpError (List SocketAddrV4)
unfolding found_peers
fallback_peers (some hash) error r = found_peers r.error r.peers
fallback_peers none none r = err no_servers
fallback_peers none (some e) r = err e

unfoldable pub withdrawn_peers : Option (List ℕ) → Rendezvous → List SocketAddrV4
withdrawn_peers (some hash) r = r.peers
withdrawn_peers none r = []

unfoldable pub choose_peers :
    Sources → Verdict → Option UdpError → Rendezvous → Result UdpError (List SocketAddrV4)
unfolding fallback_peers withdrawn_peers
choose_peers sources no_list error r = fallback_peers sources.rendezvous_hash error r
choose_peers sources withdrawn error r = ok (withdrawn_peers sources.rendezvous_hash r)
choose_peers sources (listed addr addrs) error r = ok (addr ∷ addrs)

-- The servers change only if the client takes them.
unfoldable pub replace :
    Discovery → Option UdpError → Result UdpError (List SocketAddrV4) → Refreshed
replace d failure (err e) = record { discovery = d; error = some e }
replace d (some e) (ok peers) = record { discovery = d; error = some e }
replace d none (ok peers) = record { discovery = record d { servers = peers }; error = none }

unfoldable pub list_if_any : Dns → Option MutableItem → Option (List SocketAddrV4)
list_if_any dns none = none
list_if_any dns (some item) = list_of dns item

-- The refresh after the bootstrap, with the signed list that is now the newest.
unfoldable pub refresh_with :
    Dns → Sources → Discovery → DhtAnswers → Option MutableItem → Refreshed
unfolding replace choose_peers collect_peers items_error list_if_any verdict_of
refresh_with dns sources d answers signed =
    replace (record d { signed = signed }) answers.replace_error
      (choose_peers sources (verdict_of (list_if_any dns signed))
        (items_error sources.list_key answers.items_ending)
        (collect_peers [] answers.peers answers.peers_ending))

unfoldable pub bootstrapped : Dns → Sources → Discovery → DhtAnswers → Option UdpError → Refreshed
unfolding refresh_with use_fallback accept_all items_of
bootstrapped dns sources d answers (some e) = record { discovery = d; error = some e }
bootstrapped dns sources d answers none =
    refresh_with dns sources d answers
      (use_fallback dns sources (accept_all dns d.signed (items_of sources.list_key answers)))

unfoldable pub refresh : Dns → Sources → Discovery → DhtAnswers → Refreshed
unfolding bootstrapped
refresh dns sources d answers = bootstrapped dns sources d answers answers.bootstrap_error

-- `AddrIndexBuilder::build`: explicit servers, or a first refresh that finds servers.
build_error : List SocketAddrV4 → Option UdpError → Option UdpError
build_error servers (some e) = some e
build_error [] none = some no_servers
build_error (server ∷ servers) none = none

is_none_both : Option (List ℕ) → Option (List ℕ) → Bool
is_none_both none none = true
is_none_both (some key) hash = false
is_none_both none (some hash) = false

unfoldable pub build_index : Dns → List SocketAddrV4 → Sources → DhtAnswers → Refreshed
unfolding refresh build_error is_none_both
build_index dns (server ∷ servers) sources answers = record {
  discovery = record { signed = none; servers = server ∷ servers };
  error = answers.replace_error;
}
build_index dns [] sources answers =
    let fresh : Discovery = record { signed = none; servers = [] } in
    if is_none_both sources.list_key sources.rendezvous_hash
    then record { discovery = fresh; error = some no_servers }
    else (let first = refresh dns sources fresh answers in
        record {
          discovery = first.discovery;
          error = build_error first.discovery.servers first.error;
        })
