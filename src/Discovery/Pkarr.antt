-- ===== src/Discovery/Pkarr.antt =====
-- iroh-mainline-endpoint-discovery/src/pkarr.rs: signed packets as Pkarr relays have them, and the
-- publisher of names. Ed25519, the items of the DHT and the DNS crate are parameters.

pub mod Trip
pub mod Rounds
use iroh_content_discovery.Prelude.{
  ℕ, ◌+◌, ◌*◌, ◌^◌, max, Bool, true, false, ◌&&◌, ◌||◌, not, Option, none, some, List, [], ◌∷◌,
  ◌++◌, map, ltb, leb, ◌==◌, length, take, drop, Result, ok, err, if◌then◌else◌,
}
use iroh_content_discovery.Prelude.Bytes.{
  codes, bytes_eq, split, contains_byte, starts_with, strip_suffix, ends_with, to_be_bytes,
  from_be_onto,
}
use iroh_content_discovery.Prelude.Decimal.{show}
use iroh_content_discovery.Prelude.Maps.{insert, remove, contains_key}
use iroh_content_discovery.Gateway.Http.{is_alphanumeric}
use iroh_content_discovery.Discovery.Client.{bytes_discrete}
use iroh_content_discovery.Discovery.Mutable.{ℤ, pos, negsuc, MutableItem}
use iroh_content_discovery.Discovery.ServerList.{RData, https, ResourceRecord, Dns, ttl_seconds}

-- The signing keys, with `MutableItem::new`, the public key, and the check of a signature.
pub record Signing : Type 1 where
  pub SigningKey : Type 0
  pub public_key : SigningKey → List ℕ
  pub new_item : SigningKey → (value : List ℕ) → (seq : ℕ) → MutableItem
  pub check_signature : (key message signature : List ℕ) → Bool

unfoldable pub encode_unsalted : MutableItem → Option (List ℕ) → ℤ → Option (List ℕ)
encode_unsalted item (some salt) seq = none
encode_unsalted item none (negsuc n) = none
encode_unsalted item none (pos n) =
    some (item.key ++ item.signature ++ to_be_bytes 8 n ++ item.value)

unfoldable pub encode_signed_packet : MutableItem → Option (List ℕ)
unfolding encode_unsalted
encode_signed_packet item = encode_unsalted item item.salt item.seq

-- `split_first_chunk`.
abbrev pub split_first_chunk : ℕ → List ℕ → Option (List ℕ × List ℕ)
split_first_chunk n bytes = if leb n (length bytes) then some (take n bytes, drop n bytes) else none

-- What BEP 44 signs of an unsalted item.
abbrev pub signable : ℕ → List ℕ → List ℕ
signable seq value =
    codes "3:seqi" ++ show seq ++ codes "e1:v" ++ show (length value) ++ codes ":" ++ value

module _ (s : Signing) where
  checked_item : (key signature value : List ℕ) → ℕ → Option MutableItem
  checked_item key signature value seq =
      if ltb seq (2 ^ 63) && s.check_signature key (signable seq value) signature
      then some
          (record { key = key; signature = signature; value = value; seq = pos seq; salt = none })
      else none

  after_seq : (key signature : List ℕ) → Option (List ℕ × List ℕ) → Option MutableItem
  unfolding checked_item from_be_onto
  after_seq key signature none = none
  after_seq key signature (some (seq, value)) =
      checked_item key signature value (from_be_onto 0 seq)

  after_signature : (key : List ℕ) → Option (List ℕ × List ℕ) → Option MutableItem
  unfolding after_seq
  after_signature key none = none
  after_signature key (some (signature, rest)) = after_seq key signature (split_first_chunk 8 rest)

  after_key : Option (List ℕ × List ℕ) → Option MutableItem
  unfolding after_signature
  after_key none = none
  after_key (some (key, rest)) = after_signature key (split_first_chunk 64 rest)

  unfoldable pub decode_signed_packet : List ℕ → Option MutableItem
  unfolding after_key
  decode_signed_packet bytes = after_key (split_first_chunk 32 bytes)

-- A label of a hostname.
all_label_bytes : List ℕ → Bool
all_label_bytes [] = true
all_label_bytes (b ∷ bs) = (is_alphanumeric b || b == b'-') && all_label_bytes bs

is_label : List ℕ → Bool
unfolding all_label_bytes starts_with strip_suffix
is_label [] = false
is_label (b ∷ bs) =
    leb (length (b ∷ bs)) 63
    && (not (starts_with (codes "-") (b ∷ bs))
        && (not (ends_with (codes "-") (b ∷ bs)) && all_label_bytes (b ∷ bs)))

all_labels : List (List ℕ) → Bool
unfolding is_label
all_labels [] = true
all_labels (label ∷ labels) = is_label label && all_labels labels

without_dot : List ℕ → Option (List ℕ) → List ℕ
without_dot value none = value
without_dot value (some pre) = pre

hostname_text : List ℕ → Bool
unfolding all_labels contains_byte split
hostname_text value =
    leb (length value) 253 && (contains_byte b'.' value && all_labels (split b'.' value))

unfoldable pub is_hostname : List ℕ → Bool
unfolding hostname_text without_dot strip_suffix
is_hostname value = hostname_text (without_dot value (strip_suffix (codes ".") value))

abbrev pub blake3_domain : List ℕ
blake3_domain = codes "blake3.net"

-- The publisher: a packet for each public key, the counts of edits and of what is published, and the
-- sequence of the last round.
pub record Publisher (s : Signing) : Type 0 where
  pub packets : List (List ℕ × (s.SigningKey × List ℕ))
  pub generation : ℕ
  pub published : ℕ
  pub previous : ℕ

module _ (s : Signing) where
  abbrev pub new_publisher : Publisher s
  new_publisher = record { packets = []; generation = 0; published = 0; previous = 0 }

  -- `State::edited`, less the wake-up of the task.
  abbrev pub edited : Publisher s → Publisher s
  edited p = record p { generation = p.generation + 1 }

  -- The part of `set_raw` that holds the lock of the packets, of the bytes of the packet: `none` is an
  -- error.
  unfoldable pub insert_packet : Publisher s → s.SigningKey → Option (List ℕ) → Option (Publisher s)
  insert_packet p key none = none
  insert_packet p key (some bytes) =
      if leb (length bytes) 1000
      then some
          (record p { packets = insert bytes_discrete (s.public_key key) (key, bytes) p.packets })
      else none

  abbrev pub edited_if_any : Option (Publisher s) → Option (Publisher s)
  edited_if_any none = none
  edited_if_any (some p) = some (edited p)

  -- `set_raw` with no step of another task in between.
  unfoldable pub set_raw : Publisher s → s.SigningKey → Option (List ℕ) → Option (Publisher s)
  unfolding insert_packet
  set_raw p key bytes = edited_if_any (insert_packet p key bytes)

  -- The part of `PkarrPublisher::remove` that holds the lock of the packets, with whether there was a
  -- packet.
  unfoldable pub remove_packet : Publisher s → List ℕ → Publisher s × Bool
  unfolding remove
  remove_packet p public_key = (
    record p { packets = remove bytes_discrete public_key p.packets },
    contains_key bytes_discrete public_key p.packets,
  )

  -- `PkarrPublisher::remove` with no step of another task in between.
  unfoldable pub remove_name : Publisher s → List ℕ → Publisher s × Bool
  unfolding remove_packet
  remove_name p public_key =
      let (q, removed) = remove_packet p public_key in (if removed then edited q else q, removed)

  unfoldable pub sign_entries : ℕ → List (List ℕ × (s.SigningKey × List ℕ)) → List MutableItem
  sign_entries seq [] = []
  sign_entries seq ((public_key, (key, bytes)) ∷ entries) =
      s.new_item key bytes seq ∷ sign_entries seq entries

  -- `State::sign_all` at a time in microseconds.
  unfoldable pub sign_all : Publisher s → ℕ → Publisher s × List MutableItem
  unfolding sign_entries
  sign_all p now =
      let sequence = max now (p.previous + 1) in
      (record p { previous = sequence }, sign_entries sequence p.packets)

  -- The end of `publish_round`: what was begun at a generation is published if every put went well.
  abbrev pub end_round : Publisher s → (generation : ℕ) → (all_put : Bool) → Publisher s
  end_round p generation all_put = if all_put then record p { published = generation } else p

  -- The test of `wait_published`.
  abbrev pub is_published : Publisher s → (generation : ℕ) → Bool
  is_published p generation = leb generation p.published

-- `set_https`: the name of the record and the packet with the target.
unfoldable pub record_name : List ℕ → List ℕ → List ℕ
unfolding bytes_eq
record_name [] zone = zone
record_name (b ∷ label) zone =
    if bytes_eq (b ∷ label) (codes "@") then zone else b ∷ label ++ b'.' ∷ zone

unfoldable pub https_packet : Dns → Option (List ℕ) → Option (List ℕ) → Option (List ℕ)
https_packet dns none target = none
https_packet dns (some name) none = none
https_packet dns (some name) (some target) =
    dns.build
      (record { name = name; class_in = true; ttl = ttl_seconds; rdata = https 0 target [] } ∷ [])

-- A name or target that the DNS crate refuses is an error, and so is a packet that cannot be built.
unfoldable pub set_https :
    Dns → (s : Signing) → Publisher s → s.SigningKey → (name target : List ℕ) → Option (Publisher s)
set_https dns s p key name target =
    if is_hostname target
    then set_raw s p key (
        https_packet dns (dns.name (record_name name (dns.z32_encode (s.public_key key))))
          (dns.name target))
    else none

unfoldable pub set_blake3 :
    Dns → (s : Signing) → Publisher s → s.SigningKey → (hash : List ℕ) → Option (Publisher s)
unfolding set_https
set_blake3 dns s p key hash = set_https dns s p key [] (dns.z32_encode hash ++ b'.' ∷ blake3_domain)
