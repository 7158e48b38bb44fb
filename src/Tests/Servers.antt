-- ===== src/Tests/Servers.antt =====
-- A list with one server, in packets of two bytes, the last octet of an address and a port.
use iroh_content_discovery.Prelude.{ℕ, ◌+◌, ◌⊎◌, refl, true, Option, none, some, List, [], ◌∷◌}
use iroh_content_discovery.Net.{SocketAddrV4}
use iroh_content_discovery.Discovery.Mutable.{pos, MutableItem}
use iroh_content_discovery.Discovery.ServerList.{txt, Dns}
use iroh_content_discovery.Discovery.Servers.{Sources, finished, DhtAnswers, Discovery}
use iroh_content_discovery.Discovery.Servers.Refresh.{items_of, refresh}
use iroh_content_discovery.Discovery.Servers.Newest.{Among, Kept, refresh-Newest}
use iroh_content_discovery.Discovery.Servers.Valid.{Serves, refresh-Serves}

addr_of_bytes : List ℕ → Option SocketAddrV4
addr_of_bytes (a ∷ b ∷ []) = some (record { ip = 3405803776 + a; port = b })
addr_of_bytes _ = none

abbrev dns : Dns
dns = record {
  parse = λ value.
      some (record { name = []; class_in = true; ttl = 300; rdata = txt (some value) } ∷ []);
  build = λ records. none;
  name = λ text. some [];
  z32_encode = λ key. key;
  show_addr = λ addr. addr.port ∷ [];
  parse_addr = addr_of_bytes;
}

abbrev list_at : ℕ → MutableItem
list_at n = record { key = 7 ∷ []; signature = []; value = 1 ∷ 80 ∷ []; seq = pos n; salt = none }

abbrev sources : Sources
sources = record { list_key = some (7 ∷ []); fallback_list = none; rendezvous_hash = none }

abbrev nothing : Discovery
nothing = record { signed = none; servers = [] }

abbrev answers : DhtAnswers
answers = record {
  bootstrap_error = none;
  items = list_at 5 ∷ list_at 3 ∷ [];
  items_ending = finished;
  peers = [];
  peers_ending = finished;
  replace_error = none;
}

refresh-Newest_example :
    Kept dns sources
      (λ i. ⊥ ⊎ Among i (items_of sources.list_key answers))
      (refresh dns sources nothing answers).discovery.signed
refresh-Newest_example =
    refresh-Newest dns sources nothing answers (λ i. ⊥) refl (λ i seen. absurd seen)

refresh-Serves_example :
    Serves dns []
      (refresh dns sources nothing answers).discovery
      (refresh dns sources nothing answers).error
refresh-Serves_example = refresh-Serves dns sources nothing answers
