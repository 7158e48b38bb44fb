-- ===== src/Tests/Pkarr.antt =====
-- A signature scheme that accepts everything, and a publisher with a name.
use iroh_content_discovery.Prelude.{
  ◌++◌, ◌+◌, ℕ, ◌≡◌, ◌≤◌, All, refl, true, none, some, List, [], ◌∷◌, arith, replicate,
  length-replicate,
}
use iroh_content_discovery.Prelude.Bytes
use iroh_content_discovery.Prelude.Bytes.{codes}
use iroh_content_discovery.Prelude.Maps.{remove, lookup}
use iroh_content_discovery.Discovery.Mutable.{pos, MutableItem}
use iroh_content_discovery.Discovery.Pkarr.{
  Signing, encode_signed_packet, decode_signed_packet, new_publisher, edited, set_raw,
  insert_packet, sign_all, sign_entries,
}
use iroh_content_discovery.Discovery.Pkarr.Trip.{decode_signed_packet-encode}
use iroh_content_discovery.Discovery.Pkarr.Rounds.{
  Edit, sets, counted, signed, World, start_world, edit_stored, has_counted, round_ended, signs_at,
  inserts, counts, reads, signs, ends, Leads, stays, goes,
}
use iroh_content_discovery.Discovery.Pkarr.Rounds.Sound.{AreSigned, FallBelow, is_published-covered}
use iroh_content_discovery.Discovery.Client.{bytes_discrete}
use iroh_content_discovery.Discovery.ServerList.{Dns, ResourceRecord}
use iroh_content_discovery.Discovery.Servers.Newest.{Among}
use iroh_content_discovery.Discovery.Pkarr.{
  Publisher, is_hostname, record_name, https_packet, set_https, set_blake3,
}
use iroh_content_discovery.Gateway.Redirect.{newest_verified, target_of, content_hash}
use iroh_content_discovery.Gateway.Redirect.Answer.{IsNewest, newest_verified-IsNewest}
use iroh_content_discovery.Gateway.Redirect.Published.{
  host_of, host_record, content_hash-set_blake3,
}
use iroh_content_discovery.Tests.Crates.{crates, crates-RoundTrips}

abbrev scheme : Signing
scheme = record {
  SigningKey = ℕ;
  public_key = λ key. key ∷ [];
  new_item = λ key value seq. record {
    key = key ∷ [];
    signature = [];
    value = value;
    seq = pos seq;
    salt = none;
  };
  check_signature = λ key message signature. true;
}

abbrev item : MutableItem
item = record {
  key = replicate 32 1;
  signature = replicate 64 2;
  value = codes "packet";
  seq = pos 1700000000000000;
  salt = none;
}

decode_signed_packet-encode_example :
    (packet : List ℕ) × (encode_signed_packet item ≡ some packet)
    × (decode_signed_packet scheme packet ≡ some item)
decode_signed_packet-encode_example =
    decode_signed_packet-encode scheme (replicate 32 1) (replicate 64 2) (codes "packet")
      1700000000000000 (length-replicate {A = ℕ} 32 1) (length-replicate {A = ℕ} 64 2) (omega arith)
      refl

abbrev named : Publisher scheme
named = record (new_publisher scheme) { packets = (9 ∷ [], (9, codes "dns")) ∷ [] }

named-insert_packet :
    insert_packet scheme (new_publisher scheme) 9 (some (codes "dns")) ≡ some named
unfolding insert_packet remove
named-insert_packet = refl

-- A name is set and counts; a round reads the count, signs, and ends.
abbrev one_edit : Edit scheme
one_edit = sets 9 (codes "dns")

abbrev one_stored : World scheme
one_stored = edit_stored scheme (start_world scheme) one_edit named

abbrev waiting : World scheme
waiting = has_counted scheme one_stored 1 []

abbrev reading : World scheme
reading = record waiting { round = counted 1 }

abbrev one_signed : World scheme
one_signed = signs_at scheme reading 1 100

abbrev one_item : MutableItem
one_item = scheme.new_item 9 (codes "dns") 100

one_signed-round : one_signed.round ≡ signed 1 (one_edit ∷ []) (one_item ∷ [])
unfolding sign_all sign_entries
one_signed-round = refl

abbrev published_once : World scheme
published_once = round_ended scheme one_signed 1 (one_edit ∷ []) (one_item ∷ []) true

waits_from : Leads scheme (start_world scheme) waiting
waits_from =
    goes (start_world scheme) one_stored waiting
      (goes (start_world scheme) (start_world scheme) one_stored (stays (start_world scheme))
        (inserts (start_world scheme) 9 (codes "dns") named named-insert_packet))
      (counts one_stored [] [] 1 refl)

waits_for : Leads scheme waiting published_once
waits_for =
    goes waiting one_signed published_once
      (goes waiting reading one_signed
        (goes waiting waiting reading (stays waiting) (reads waiting refl))
        (signs reading 1 100 refl))
      (ends one_signed 1 (one_edit ∷ []) (one_item ∷ []) true one_signed-round)

is_published-covered_example :
    (later : List (Edit scheme)) × (one_edit ∷ [] ≡ later ++ one_edit ∷ [])
    × AreSigned scheme (one_edit ∷ []) (one_item ∷ [])
    × All (λ (e : ℕ × ℕ). e.0 ≤ 1) ((1, 1) ∷ [])
    × FallBelow (published_once.publisher.previous + 1) published_once.sequences
is_published-covered_example =
    is_published-covered scheme waiting published_once waits_from waits_for refl

-- A DNS crate for one record, and the name of a hash under the key 9.
abbrev hash : List ℕ
hash = replicate 32 33

abbrev zone : List ℕ
zone = 73 ∷ [] ++ replicate 20 121

abbrev one_record : Dns
one_record = record {
  parse = λ bytes. some (host_record zone (host_of (crates.z32_encode hash)) ∷ []);
  build = λ records. some (1 ∷ []);
  name = λ text. some text;
  z32_encode = crates.z32_encode;
  show_addr = λ addr. [];
  parse_addr = λ text. none;
}

abbrev blake3_set : Publisher scheme
blake3_set = edited scheme (record (new_publisher scheme) { packets = (9 ∷ [], (9, 1 ∷ [])) ∷ [] })

program : Unit {0}
unfolding set_blake3 set_https set_raw insert_packet https_packet record_name is_hostname remove
    replicate Bytes.strip_suffix Bytes.bytes_eq Bytes.starts_with Bytes.split Bytes.contains_byte
program = tt

blake3_set-is : set_blake3 one_record scheme (new_publisher scheme) 9 hash ≡ some blake3_set
unfolding program
blake3_set-is = refl

content_hash-set_blake3_example :
    (bytes : List ℕ) × (records : List ResourceRecord) × (host : List ℕ) × (lookup bytes_discrete
        (9 ∷ [])
        blake3_set.packets
      ≡ some (9, bytes))
    × (one_record.parse bytes ≡ some records)
    × (target_of zone records ≡ some host)
    × (content_hash crates host ≡ some hash)
content_hash-set_blake3_example =
    content_hash-set_blake3 one_record scheme (new_publisher scheme) blake3_set 9 crates hash
      (λ bytes e. refl) crates-RoundTrips (length-replicate {A = ℕ} 32 33) refl refl refl
      blake3_set-is

-- The older answer comes last.
newest_verified-IsNewest_example :
    IsNewest
      (1 ∷ [])
      (λ i. Among i (scheme.new_item 1 [] 5 ∷ scheme.new_item 1 [] 3 ∷ []))
      (newest_verified (1 ∷ []) (scheme.new_item 1 [] 5 ∷ scheme.new_item 1 [] 3 ∷ []))
newest_verified-IsNewest_example =
    newest_verified-IsNewest (1 ∷ []) (scheme.new_item 1 [] 5) (scheme.new_item 1 [] 3 ∷ [])
