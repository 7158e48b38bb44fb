-- ===== src/Discovery/Servers.antt =====
-- iroh-mainline-endpoint-discovery/src/addr_index.rs: how an `AddrIndex` keeps the newest signed
-- list of servers. What the DHT answers to a refresh is a value: items of the list, and peers of the
-- rendezvous hash.

pub mod Refresh
pub mod Newest
pub mod Valid
use iroh_content_discovery.Prelude.{
  ℕ, Bool, true, false, ◌&&◌, ◌||◌, not, Option, none, some, List, [], ◌∷◌, ltb, leb, ◌==◌, length,
  Result, ok, err, if◌then◌else◌,
}
use iroh_content_discovery.Prelude.Bytes.{bytes_eq}
use iroh_content_discovery.Prelude.Sets.{insert}
use iroh_content_discovery.Net.{SocketAddrV4, addr_discrete}
use iroh_content_discovery.Discovery.Client.{UdpError, timeout, no_servers}
use iroh_content_discovery.Discovery.Mutable.{is_negative, MutableItem, older}
use iroh_content_discovery.Discovery.ServerList.{
  Dns, is_unspecified, is_multicast, is_broadcast, valid_address, decode_list,
}

-- Discovery sources, tried in order.
pub record Sources : Type 0 where
  pub list_key : Option (List ℕ)
  pub fallback_list : Option MutableItem
  pub rendezvous_hash : Option (List ℕ)

-- How the collection of a stream of the DHT ends: done, an error, or the late.
pub data Ending : Type 0 where
  finished late : Ending
  broken : UdpError → Ending

-- What the DHT answers to one refresh.
pub record DhtAnswers : Type 0 where
  pub bootstrap_error : Option UdpError
  pub items : List MutableItem
  pub items_ending : Ending
  pub peers : List SocketAddrV4
  pub peers_ending : Ending
  pub replace_error : Option UdpError

-- The newest signed list, and the servers in use.
pub record Discovery : Type 0 where
  pub signed : Option MutableItem
  pub servers : List SocketAddrV4

is_some_salt : Option (List ℕ) → Bool
is_some_salt none = false
is_some_salt (some salt) = true

module _ (dns : Dns) where
  abbrev pub list_of : MutableItem → Option (List SocketAddrV4)
  list_of item = decode_list dns item.value item.key

  is_list : Option (List SocketAddrV4) → Bool
  is_list none = false
  is_list (some addrs) = true

  -- Whether an item is a signed list that can be used.
  unfoldable pub usable : MutableItem → Bool
  unfolding is_some_salt is_list
  usable item =
      not (is_some_salt item.salt) && (not (is_negative item.seq) && is_list (list_of item))

  newer_of : Option MutableItem → MutableItem → Option MutableItem
  newer_of none item = some item
  newer_of (some old) item = if older old item then some item else some old

  -- `DiscoveryState::accept`.
  unfoldable pub accept_item : Option MutableItem → MutableItem → Option MutableItem
  unfolding newer_of
  accept_item signed item = if usable item then newer_of signed item else signed

  unfoldable pub accept_all : Option MutableItem → List MutableItem → Option MutableItem
  unfolding accept_item
  accept_all signed [] = signed
  accept_all signed (item ∷ items) = accept_all (accept_item signed item) items

  unfoldable pub key_matches : Option (List ℕ) → MutableItem → Bool
  key_matches none item = false
  key_matches (some key) item = bytes_eq key item.key

  accept_fallback : Sources → Option MutableItem → Option MutableItem
  unfolding accept_item key_matches
  accept_fallback sources none = none
  accept_fallback sources (some item) =
      if key_matches sources.list_key item then accept_item none item else none

  -- The stored copy, if no list was found.
  unfoldable pub use_fallback : Sources → Option MutableItem → Option MutableItem
  unfolding accept_fallback
  use_fallback sources (some item) = some item
  use_fallback sources none = accept_fallback sources sources.fallback_list
