-- ===== src/Tests/Proto.antt =====
-- The framing of udp-addr-index-proto at concrete messages.
use iroh_content_discovery.Prelude.{
  ℕ, ◌≡◌, ◌≤◌, refl, none, some, List, [], ◌∷◌, ◌++◌, arith, length, replicate, take, drop,
}
use iroh_content_discovery.Net.{SocketAddrV4}
use iroh_content_discovery.Proto.{encode, decode, magic}
use iroh_content_discovery.Proto.Messages.{Proto, RequestV1}
use iroh_content_discovery.Proto.Framing.{decode-encode, encode_bounded}
use iroh_content_discovery.Proto.Amplification.{
  request, decode-IsFramed, encode-le_of_Answers, to_get, IsFramed,
}
use iroh_content_discovery.Tests.Postcard.{postcard, to_slice, from_bytes}

program : Unit {0}
unfolding encode decode to_slice from_bytes replicate take drop
program = tt

abbrev addr : SocketAddrV4
addr = record { ip = 0xcb007101; port = 1234 }

abbrev get_message : Proto
get_message = request (RequestV1.get 7 addr)

abbrev get_datagram : List ℕ
get_datagram = magic ++ (0 ∷ 0 ∷ 2 ∷ 7 ∷ 0xcb007101 ∷ 0 ∷ 0 ∷ 0 ∷ 1234 ∷ replicate 1183 0)

get_encoded : encode postcard get_message ≡ some get_datagram
unfolding program
get_encoded = refl

-- A get request that is not padded is dropped.
unpadded : decode postcard (magic ++ (0 ∷ 0 ∷ 2 ∷ 7 ∷ 0xcb007101 ∷ 0 ∷ 0 ∷ 0 ∷ 1234 ∷ [])) ≡ none
unfolding program
unpadded = refl

decode-encode_example : decode postcard get_datagram ≡ some get_message
decode-encode_example = decode-encode postcard get_message get_datagram (omega arith) get_encoded

encode_bounded_example :
    (bs : List ℕ) × (encode postcard get_message ≡ some bs) × (length bs ≤ 1200)
encode_bounded_example = encode_bounded postcard get_message (omega arith) tt

decode-IsFramed_example : IsFramed postcard get_message get_datagram
decode-IsFramed_example =
    (decode-IsFramed postcard get_datagram get_message decode-encode_example).0

abbrev reply : List ℕ
reply = magic ++ (1 ∷ 0 ∷ 2 ∷ 7 ∷ 0xcb007101 ∷ 0 ∷ 0 ∷ 0 ∷ 1234 ∷ 1 ∷ 2 ∷ 5 ∷ 6 ∷ [])

encode-le_of_Answers_example : length reply ≤ length get_datagram
unfolding program
encode-le_of_Answers_example =
    encode-le_of_Answers postcard get_datagram reply (to_get 7 addr (some (5 ∷ 6 ∷ [])))
      decode-encode_example (omega arith) refl
