-- ===== src/Tests/Blobs.antt =====
-- Links, hosts and responses for a blob of ten bytes.
use iroh_content_discovery.Prelude.{
  ℕ, ◌≡◌, ◌↔◌, refl, true, false, none, some, List, [], ◌∷◌, ◌++◌, arith, length, replicate, take,
  drop,
}
use iroh_content_discovery.Prelude.Bytes
use iroh_content_discovery.Prelude.Bytes.{codes}
use iroh_content_discovery.Gateway.Ranges.{Range}
use iroh_content_discovery.Gateway.Stream.{Item, leaf, parent, stream_content}
use iroh_content_discovery.Gateway.Stream.Exact.{FromBlob, Sends, stream_content-slice}
use iroh_content_discovery.Gateway.Urls.{
  Root, immutable, HttpRequest, link, parse_z32_bytes, request_host, find_route, route_for,
  rewritten, route_to, rewrite_subdomain,
}
use iroh_content_discovery.Gateway.Urls.Origin.{parse_z32_bytes-canonical}
use iroh_content_discovery.Gateway.Urls.Isolation.{before_fragment}
use iroh_content_discovery.Gateway.Blobs.{Source, Fetched, answered, Headers, multipart_content}
use iroh_content_discovery.Gateway.Blobs.Length.{multipart_content_whole}
use iroh_content_discovery.Gateway.Blobs.Conforms.{Conforms}
use iroh_content_discovery.Tests.Crates.{percent_encode, crates, crates-RoundTrips}

abbrev pub ten : List ℕ
ten = 0 ∷ 1 ∷ 2 ∷ 3 ∷ 4 ∷ 5 ∷ 6 ∷ 7 ∷ 8 ∷ 9 ∷ []

abbrev pub ten_items : List Item
ten_items = parent ∷ leaf 0 (0 ∷ 1 ∷ 2 ∷ 3 ∷ []) ∷ leaf 4 (4 ∷ 5 ∷ 6 ∷ 7 ∷ 8 ∷ 9 ∷ []) ∷ []

abbrev two_to_six : Range
two_to_six = record { start = 2; end = 6 }

ten_items-FromBlob : FromBlob ten ten_items
unfolding take drop
ten_items-FromBlob = (refl, (refl, tt))

stream_content-slice_example : Sends ten two_to_six (stream_content two_to_six ten_items true)
stream_content-slice_example =
    stream_content-slice ten two_to_six ten_items true ten_items-FromBlob (omega arith)

-- A name with an empty first segment, below a subdomain.
abbrev evil : List ℕ
evil = codes "/example.com/x"

abbrev here : Root
here = record { encoded = []; base = []; caching = immutable }

abbrev hash_bytes : List ℕ
hash_bytes = replicate 32 33

abbrev hash_text : List ℕ
hash_text = replicate 32 97 ++ replicate 20 121

parse_z32_bytes-canonical_example :
    (parse_z32_bytes crates hash_text ≡ some hash_bytes)
    ↔ ((length hash_bytes ≡ 32) × (hash_text ≡ crates.z32_encode hash_bytes))
parse_z32_bytes-canonical_example =
    parse_z32_bytes-canonical crates hash_text hash_bytes crates-RoundTrips

abbrev by_host : HttpRequest
by_host = record {
  uri = record { host = none; path_and_query = some (codes "/a?b") };
  host = some (hash_text ++ codes ".BLAKE3.localhost:8080");
  original = none;
  subdomain = false;
}

abbrev ten_source : Source
ten_source = record { size = 10; mime = codes "text/plain" }

abbrev ten_fetch : Range → Fetched
ten_fetch range = answered ten_items true 10

abbrev eight_to_ten : Range
eight_to_ten = record { start = 8; end = 10 }

multipart_content_whole_example :
    (multipart_content ten_fetch ten_source
      (two_to_six ∷ eight_to_ten ∷ [])
      (codes "iroh-0")).complete
    ≡ true
multipart_content_whole_example =
    multipart_content_whole ten ten_source ten_fetch (two_to_six ∷ eight_to_ten ∷ [])
      (codes "iroh-0") refl ((omega arith, omega arith), ((omega arith, omega arith), tt))
      (ten_items-FromBlob, (ten_items-FromBlob, tt))
      (
        (refl, refl, 0, 10, (refl, (refl, refl)), omega arith, omega arith),
        ((refl, refl, 0, 10, (refl, (refl, refl)), omega arith, omega arith), tt),
      )

abbrev two_ranges : Headers
two_ranges = record { if_none_match = []; if_range = none; range = codes "bytes=2-5,8-" ∷ [] }

program : Unit {0}
unfolding Bytes.split Bytes.join Bytes.starts_with Bytes.strip_prefix Bytes.strip_suffix
    Bytes.contains_byte Bytes.bytes_eq Bytes.rsplit_once Bytes.to_ascii_lowercase percent_encode
    link request_host find_route route_for rewritten route_to rewrite_subdomain parse_z32_bytes
    replicate take before_fragment
program = tt

-- A name with an empty first segment.
evil-link : link crates here evil ≡ codes "/.//example.com/x"
unfolding program
evil-link = refl

-- The label's own path, below its route.
by_host-path :
    (rewrite_subdomain crates by_host).uri.path_and_query
    ≡ some (codes "/blake3/" ++ hash_text ++ codes "/a?b")
unfolding program
by_host-path = refl
