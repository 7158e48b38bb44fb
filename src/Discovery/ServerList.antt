-- ===== src/Discovery/ServerList.antt =====
-- iroh-mainline-endpoint-discovery/src/server_list.rs: lists of index servers in DNS packets. The DNS
-- crate and the texts of sockets are parameters.

pub mod Decoded
use iroh_content_discovery.Prelude.{
  ℕ, ◌+◌, ◌-◌, ◌*◌, ◌^◌, Bool, true, false, ◌&&◌, ◌||◌, not, Option, none, some, List, [], ◌∷◌,
  ◌++◌, map, ltb, leb, ◌==◌, length, if◌then◌else◌,
}
use iroh_content_discovery.Prelude.Bytes.{codes, bytes_eq}
use iroh_content_discovery.Prelude.Sets.{contains}
use iroh_content_discovery.Net.{SocketAddrV4, addr_discrete}
use iroh_content_discovery.Discovery.Mutable.{ℤ, is_negative, MutableItem}

-- `simple_dns::SVCParam`, as far as it is read.
pub data SvcParam : Type 0 where
  mandatory no_default_alpn other_param : SvcParam
  port_param : ℕ → SvcParam

-- `simple_dns::RData`, as far as it is read: a text that may not be UTF-8, an `HTTPS` target, others.
pub data RData : Type 0 where
  txt : Option (List ℕ) → RData
  https : (priority : ℕ) (target : List ℕ) → List SvcParam → RData
  other_data : RData

-- A record by its owner's name, whether its class is `IN`, its time to live and its data.
pub record ResourceRecord : Type 0 where
  pub name : List ℕ
  pub class_in : Bool
  pub ttl : ℕ
  pub rdata : RData

-- `simple_dns`, where names are texts up to the equality of names, the name of a public key in
-- z-base-32, and the texts of sockets.
pub record Dns : Type 0 where
  pub parse : List ℕ → Option (List ResourceRecord)
  pub build : List ResourceRecord → Option (List ℕ)
  pub name : List ℕ → Option (List ℕ)
  pub z32_encode : List ℕ → List ℕ
  pub show_addr : SocketAddrV4 → List ℕ
  pub parse_addr : List ℕ → Option SocketAddrV4

-- The tests of `Ipv4Addr`.
abbrev pub is_unspecified : ℕ → Bool
is_unspecified ip = ip == 0

abbrev pub is_multicast : ℕ → Bool
is_multicast ip = leb (224 * 2 ^ 24) ip && ltb ip (240 * 2 ^ 24)

abbrev pub is_broadcast : ℕ → Bool
is_broadcast ip = ip == 2 ^ 32 - 1

abbrev pub valid_address : SocketAddrV4 → Bool
valid_address addr =
    not (addr.port == 0)
    && (not (is_unspecified addr.ip) && (not (is_multicast addr.ip) && not (is_broadcast addr.ip)))

all_valid : List SocketAddrV4 → Bool
all_valid [] = true
all_valid (addr ∷ addrs) = valid_address addr && all_valid addrs

-- The loop of `ServerList::new`, onto the addresses that are kept.
unique_onto : List SocketAddrV4 → List SocketAddrV4 → List SocketAddrV4
unique_onto kept [] = kept
unique_onto kept (addr ∷ addrs) =
    unique_onto (if contains addr_discrete kept addr then kept else kept ++ addr ∷ []) addrs

-- `ServerList::new`; a list is its addresses.
unfoldable pub new_list : List SocketAddrV4 → Option (List SocketAddrV4)
unfolding all_valid unique_onto
new_list addrs =
    if leb (length addrs) 2 && all_valid addrs then some (unique_onto [] addrs) else none

-- The time to live of the records, in seconds.
abbrev pub ttl_seconds : ℕ
ttl_seconds = 300

txt_record : List ℕ → List ℕ → ResourceRecord
txt_record name text = record {
  name = name;
  class_in = true;
  ttl = ttl_seconds;
  rdata = txt (some text);
}

add_addr : Option SocketAddrV4 → Option (List SocketAddrV4) → Option (List SocketAddrV4)
add_addr none rest = none
add_addr (some addr) none = none
add_addr (some addr) (some addrs) = some (addr ∷ addrs)

module _ (dns : Dns) where
  texts_of : List SocketAddrV4 → List (List ℕ)
  texts_of [] = [] ∷ []
  texts_of (addr ∷ addrs) = map dns.show_addr (addr ∷ addrs)

  -- The records of a list: a withdrawn list is one empty text.
  unfoldable pub list_records : List ℕ → List SocketAddrV4 → List ResourceRecord
  unfolding texts_of txt_record
  list_records name addrs = map (txt_record name) (texts_of addrs)

  -- `ServerList::encode`, which panics where the name or the packet cannot be made.
  encode_named : List SocketAddrV4 → Option (List ℕ) → Option (List ℕ)
  encode_named addrs none = none
  encode_named addrs (some name) = dns.build (list_records name addrs)

  unfoldable pub encode_list : List SocketAddrV4 → List ℕ → Option (List ℕ)
  unfolding encode_named
  encode_list addrs public_key = encode_named addrs (dns.name (dns.z32_encode public_key))

  -- What a record of the apex adds: `none` is the whole list's failure.
  add_text : Option (List ℕ) → Option (List SocketAddrV4) → Option (List SocketAddrV4)
  unfolding add_addr
  add_text none rest = none
  add_text (some []) rest = rest
  add_text (some (b ∷ text)) rest = add_addr (dns.parse_addr (b ∷ text)) rest

  add_data : RData → Option (List SocketAddrV4) → Option (List SocketAddrV4)
  unfolding add_text
  add_data (txt text) rest = add_text text rest
  add_data (https priority target params) rest = rest
  add_data other_data rest = rest

  -- The loop of `ServerList::decode`.
  unfoldable pub collect_records : List ℕ → List ResourceRecord → Option (List SocketAddrV4)
  unfolding add_data
  collect_records name [] = some []
  collect_records name (entry ∷ records) =
      let rest = collect_records name records in
      if entry.class_in && bytes_eq entry.name name then add_data entry.rdata rest else rest

  new_if_any : Option (List SocketAddrV4) → Option (List SocketAddrV4)
  unfolding new_list
  new_if_any none = none
  new_if_any (some addrs) = new_list addrs

  decode_records : Option (List ResourceRecord) → Option (List ℕ) → Option (List SocketAddrV4)
  unfolding new_if_any collect_records
  decode_records none name = none
  decode_records (some records) none = none
  decode_records (some records) (some name) = new_if_any (collect_records name records)

  unfoldable pub decode_list : List ℕ → List ℕ → Option (List SocketAddrV4)
  unfolding decode_records
  decode_list value public_key =
      if ltb 1000 (length value)
      then none
      else decode_records (dns.parse value) (dns.name (dns.z32_encode public_key))
