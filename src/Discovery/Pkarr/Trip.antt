-- ===== src/Discovery/Pkarr/Trip.antt =====
-- A packet that is encoded is decoded to the item that it was made of.
use iroh_content_discovery.Prelude.{
  ℕ, ◌^◌, ◌<◌, ◌≡◌, refl, ap, ◌∙◌, true, none, some, List, ◌++◌, arith, ltb, leb, length,
  length-append, take-append, drop-append,
}
use mathlib.Core.List.{append_assoc}
use iroh_content_discovery.Prelude.Bytes.{to_be_bytes, from_be_onto-to_be_bytes}
use iroh_content_discovery.Discovery.Mutable.{pos, MutableItem}
use iroh_content_discovery.Discovery.Pkarr.{
  Signing, encode_signed_packet, split_first_chunk, signable, checked_item, after_seq,
  after_signature, after_key, decode_signed_packet,
}

split_first_chunk-append :
    (n : ℕ) (chunk rest : List ℕ)
    → length chunk ≡ n
    → split_first_chunk n (chunk ++ rest) ≡ some (chunk, rest)
split_first_chunk-append n chunk rest h =
    let e : leb n (length (chunk ++ rest)) ≡ true = ground (arith, length-append chunk rest) in
    rw (e, take-append chunk rest n h, drop-append chunk rest n h) refl

length-to_be_bytes : (n : ℕ) → length (to_be_bytes 8 n) ≡ 8
unfolding to_be_bytes
length-to_be_bytes n = refl

checked_item_verified :
    (s : Signing) (key signature value : List ℕ) (seq : ℕ)
    → seq < 2 ^ 63
    → s.check_signature key (signable seq value) signature ≡ true
    → checked_item s key signature value seq
      ≡ some
          (record { key = key; signature = signature; value = value; seq = pos seq; salt = none })
unfolding checked_item
checked_item_verified s key signature value seq small v =
    let e : ltb seq (2 ^ 63) ≡ true = ground arith in rw (e, v) refl

-- An unsalted item whose key, signature and sequence have their sizes, and whose signature verifies,
-- is decoded from its packet.
pub decode_signed_packet-encode :
    (s : Signing) (key signature value : List ℕ) (seq : ℕ)
    → length key ≡ 32
    → length signature ≡ 64
    → seq < 2 ^ 63
    → s.check_signature key (signable seq value) signature ≡ true
    → let item : MutableItem = record {
      key = key;
      signature = signature;
      value = value;
      seq = pos seq;
      salt = none;
    } in
      (packet : List ℕ) × (encode_signed_packet item ≡ some packet)
      × (decode_signed_packet s packet ≡ some item)
unfolding encode_signed_packet decode_signed_packet after_key after_signature after_seq checked_item
decode_signed_packet-encode s key signature value seq k g small v =
    let be = to_be_bytes 8 seq in
    let apart : key ++ signature ++ be ++ value ≡ key ++ (signature ++ (be ++ value)) =
      append_assoc (key ++ signature) be value ∙ append_assoc key signature (be ++ value) in
    let first = split_first_chunk-append 32 key (signature ++ (be ++ value)) k in
    let second = split_first_chunk-append 64 signature (be ++ value) g in
    let third = split_first_chunk-append 8 be value (length-to_be_bytes seq) in
    let number = from_be_onto-to_be_bytes seq (omega arith) in
    (
      key ++ signature ++ be ++ value,
      refl,
      ap (λ bytes. after_key s (split_first_chunk 32 bytes)) apart
          ∙ ap (after_key s) first
          ∙ ap (after_signature s key) second
          ∙ ap (after_seq s key signature) third
          ∙ ap (checked_item s key signature value) number
          ∙ checked_item_verified s key signature value seq small v,
    )
