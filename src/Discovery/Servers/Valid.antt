-- ===== src/Discovery/Servers/Valid.antt =====
-- The servers in use are two at most, each of them an address that can be asked.
use iroh_content_discovery.Prelude.{
  ℕ, suc, ◌≤◌, ◌≡◌, refl, inl, inr, true, Result, ok, err, Option, none, some, List, [], ◌∷◌, All,
  arith, ◌==◌, length, Bool-cases,
}
use iroh_content_discovery.Prelude.Sets.{contains, insert}
use iroh_content_discovery.Net.{SocketAddrV4, addr_discrete}
use iroh_content_discovery.Discovery.Client.{UdpError}
use iroh_content_discovery.Discovery.Mutable.{MutableItem}
use iroh_content_discovery.Discovery.ServerList.{Dns, valid_address}
use iroh_content_discovery.Discovery.ServerList.Decoded.{
  AreServers, AreServersIfAny, decode_list-AreServers,
}
use iroh_content_discovery.Discovery.Servers.{
  Sources, Ending, finished, late, broken, DhtAnswers, Discovery, accept_all, use_fallback,
}
use iroh_content_discovery.Discovery.Servers.Refresh.{
  Rendezvous, ended, collect_peers, items_of, items_error, Verdict, no_list, withdrawn, verdict_of,
  found_peers, fallback_peers, withdrawn_peers, choose_peers, replace, list_if_any, refresh_with,
  bootstrapped, refresh,
}

module _ (dns : Dns) where
  list_if_any-AreServers : (o : Option MutableItem) → AreServersIfAny (list_if_any dns o)
  unfolding list_if_any
  list_if_any-AreServers none = tt
  list_if_any-AreServers (some item) = decode_list-AreServers dns item.value item.key

ended_peers : (kept : List SocketAddrV4) (ending : Ending) → (ended kept ending).peers ≡ kept
unfolding ended
ended_peers kept finished = refl
ended_peers kept (broken e) = refl
ended_peers [] late = refl
ended_peers (peer ∷ kept) late = refl

insert-All :
    (peer : SocketAddrV4) (kept : List SocketAddrV4)
    → valid_address peer ≡ true
    → All (λ a. valid_address a ≡ true) kept
    → (length (insert addr_discrete peer kept) ≤ suc (length kept))
      × All (λ a. valid_address a ≡ true) (insert addr_discrete peer kept)
unfolding insert
insert-All peer kept v h = elim (Bool-cases (contains addr_discrete kept peer)) [
  | inl e ↦ rw (e, insert) (omega arith, h)
  | inr e ↦ rw (e, insert) (omega arith, (v, h))
]

collect_peers-AreServers :
    (kept peers : List SocketAddrV4) (ending : Ending)
    → length kept ≤ 1
    → All (λ a. valid_address a ≡ true) kept
    → AreServers (collect_peers kept peers ending).peers
unfolding collect_peers
collect_peers-AreServers kept [] ending n h = rw (ended_peers kept ending) (omega arith, h)
collect_peers-AreServers kept (peer ∷ peers) ending n h = elim (Bool-cases (valid_address peer)) [
  | inr e ↦ rw e (collect_peers-AreServers kept peers ending n h)
  | inl e ↦
      let more = insert addr_discrete peer kept in
      let (longer, good) = insert-All peer kept e h in
      elim (Bool-cases (length more == 2)) [
        | inl f ↦ rw (e, f) (ground arith, good)
        | inr f ↦ rw (e, f) (collect_peers-AreServers more peers ending (ground arith) good)
      ]
]

-- Servers that were chosen: none of them only after a withdrawal.
abbrev Chosen : Verdict → Result UdpError (List SocketAddrV4) → Type 0
Chosen v (err e) = Unit
Chosen v (ok addrs) = AreServers addrs × (addrs ≡ [] → v ≡ withdrawn)

found_peers-Chosen :
    (v : Verdict) (error : Option UdpError) (peers : List SocketAddrV4)
    → AreServers peers
    → Chosen v (found_peers error peers)
unfolding found_peers
found_peers-Chosen v (some e) peers h = tt
found_peers-Chosen v none [] h = tt
found_peers-Chosen v none (p ∷ ps) h = (h, λ q. absurd cc)

fallback_peers-Chosen :
    (v : Verdict) (hash : Option (List ℕ)) (error : Option UdpError) (r : Rendezvous)
    → AreServers r.peers
    → Chosen v (fallback_peers hash error r)
unfolding fallback_peers
fallback_peers-Chosen v (some hash) error r h = found_peers-Chosen v r.error r.peers h
fallback_peers-Chosen v none none r h = tt
fallback_peers-Chosen v none (some e) r h = tt

withdrawn_peers-AreServers :
    (hash : Option (List ℕ)) (r : Rendezvous)
    → AreServers r.peers
    → AreServers (withdrawn_peers hash r)
unfolding withdrawn_peers
withdrawn_peers-AreServers (some hash) r h = h
withdrawn_peers-AreServers none r h = (omega arith, tt)

choose_peers-Chosen :
    (sources : Sources) (o : Option (List SocketAddrV4)) (error : Option UdpError) (r : Rendezvous)
    → AreServersIfAny o
    → AreServers r.peers
    → Chosen (verdict_of o) (choose_peers sources (verdict_of o) error r)
unfolding choose_peers verdict_of
choose_peers-Chosen sources none error r h k =
    fallback_peers-Chosen no_list sources.rendezvous_hash error r k
choose_peers-Chosen sources (some []) error r h k =
    (withdrawn_peers-AreServers sources.rendezvous_hash r k, λ _. refl)
choose_peers-Chosen sources (some (addr ∷ addrs)) error r h k = (h, λ p. absurd cc)

verdict_of_withdrawn : (o : Option (List SocketAddrV4)) → verdict_of o ≡ withdrawn → o ≡ some []
unfolding verdict_of
verdict_of_withdrawn none h = cc
verdict_of_withdrawn (some []) h = refl
verdict_of_withdrawn (some (addr ∷ addrs)) h = absurd cc

-- What a refresh leaves: after an error the servers that were in use, otherwise servers that may be
-- used, none of them only if the newest list withdrew its servers.
abbrev pub Serves : Dns → List SocketAddrV4 → Discovery → Option UdpError → Type 0
Serves dns servers d (some e) = d.servers ≡ servers
Serves dns servers d none =
    AreServers d.servers × (d.servers ≡ [] → list_if_any dns d.signed ≡ some [])

module _ (dns : Dns) (sources : Sources) (d : Discovery) where
  replace-Serves :
      (signed : Option MutableItem) (failure : Option UdpError)
      (o : Result UdpError (List SocketAddrV4))
      → Chosen (verdict_of (list_if_any dns signed)) o
      → let r = replace (record d { signed = signed }) failure o in
        Serves dns d.servers r.discovery r.error
  unfolding replace
  replace-Serves signed failure (err e) h = refl
  replace-Serves signed (some e) (ok peers) h = refl
  replace-Serves signed none (ok peers) (good, empty) =
      (good, λ p. verdict_of_withdrawn (list_if_any dns signed) (empty p))

  bootstrapped-Serves :
      (answers : DhtAnswers) (o : Option UdpError)
      → let r = bootstrapped dns sources d answers o in Serves dns d.servers r.discovery r.error
  unfolding bootstrapped refresh_with
  bootstrapped-Serves answers (some e) = refl
  bootstrapped-Serves answers none =
      let items = items_of sources.list_key answers in
      let signed = use_fallback dns sources (accept_all dns d.signed items) in
      let rendezvous = collect_peers [] answers.peers answers.peers_ending in
      let error = items_error sources.list_key answers.items_ending in
      replace-Serves signed answers.replace_error
        (choose_peers sources (verdict_of (list_if_any dns signed)) error rendezvous)
        (choose_peers-Chosen sources (list_if_any dns signed) error rendezvous
          (list_if_any-AreServers dns signed)
          (collect_peers-AreServers [] answers.peers answers.peers_ending (omega arith) tt))

  -- After a refresh that succeeds, the servers are at most two addresses that can be asked, and there
  -- is none only if the newest signed list is empty. One that fails leaves the servers as they are.
  pub refresh-Serves :
      (answers : DhtAnswers)
      → let r = refresh dns sources d answers in Serves dns d.servers r.discovery r.error
  unfolding refresh
  refresh-Serves answers = bootstrapped-Serves answers answers.bootstrap_error
