-- ===== src/Gateway/Redirect/Handler.antt =====
-- iroh-link-gateway/src/pkarr_redirect.rs: `redirect`, the response for a Pkarr key. What the cache or
-- the DHT gives for the key is a value.
use iroh_content_discovery.Prelude.{
  ℕ, Bool, true, Option, none, some, List, [], ◌∷◌, ◌++◌, Result, ok, err, if◌then◌else◌, ◌==◌,
}
use iroh_content_discovery.Prelude.Bytes.{codes, split_once, strip_prefix, contains_byte}
use iroh_content_discovery.Gateway.Http.{
  HttpResponse, cache_control, location, empty_body, HttpError, bad_request, bad_gateway,
  unprocessable, panic,
}
use iroh_content_discovery.Gateway.Urls.{Root, revalidate, has_flag, parse_z32_bytes}
use iroh_content_discovery.Gateway.Collection.Pages.{Gateway, Ask, serve_root, serve_path}
use iroh_content_discovery.Discovery.Mutable.{MutableItem}
use iroh_content_discovery.Discovery.ServerList.{ResourceRecord}
use iroh_content_discovery.Gateway.Redirect.{target_of, content_hash}

-- The crates that are called: the parser of packets and `percent_decode_str` with its UTF-8 check.
pub record RedirectCrates : Type 0 where
  pub parse_packet : List ℕ → Option (List ResourceRecord)
  pub percent_decode : List ℕ → Option (List ℕ)

trim_slashes : List ℕ → List ℕ
trim_slashes [] = []
trim_slashes (b ∷ bs) = let rest = trim_slashes bs in if b == b'/' then rest else b ∷ bs

-- The key and the path below it, of what follows the route.
key_and_path : List ℕ → Option (List ℕ × List ℕ) → List ℕ × List ℕ
key_and_path rest none = (rest, codes "/")
key_and_path rest (some (key, path)) = (key, b'/' ∷ path)

module _ (gateway : Gateway) (crates : RedirectCrates) (ask : Ask) (subdomain : Bool) where
  query_text : Option (List ℕ) → List ℕ
  query_text none = []
  query_text (some query) = b'?' ∷ query

  -- A redirect to the host that the key names.
  to_host : (name path : List ℕ) → Result HttpError HttpResponse
  unfolding query_text
  to_host name path = ok (record {
    status = 307;
    headers =
        (location, codes "https://" ++ name ++ path ++ query_text ask.query)
        ∷ (cache_control, codes "no-store")
        ∷ [];
    body = empty_body;
  })

  -- Content that the key names: its root or a path in it, to be revalidated.
  serve_decoded : Root → (hash rest : List ℕ) → Option (List ℕ) → Result HttpError HttpResponse
  unfolding serve_root serve_path contains_byte
  serve_decoded root hash rest none = err bad_request
  serve_decoded root hash rest (some []) =
      serve_root gateway root ask hash (if subdomain then true else contains_byte b'/' rest)
  serve_decoded root hash rest (some (b ∷ path)) = serve_path gateway root ask hash (b ∷ path)

  serve_target : (encoded path rest name : List ℕ) → Option (List ℕ) → Result HttpError HttpResponse
  unfolding to_host serve_decoded trim_slashes
  serve_target encoded path rest name none = to_host name path
  serve_target encoded path rest name (some hash) =
      let root : Root = record {
        encoded = encoded;
        base = if subdomain then [] else codes "/pkarr/" ++ encoded;
        caching = revalidate;
      } in
      serve_decoded root hash rest (crates.percent_decode (trim_slashes path))

  for_target : (encoded path rest : List ℕ) → Option (List ℕ) → Result HttpError HttpResponse
  unfolding serve_target content_hash
  for_target encoded path rest none = err unprocessable
  for_target encoded path rest (some name) =
      serve_target encoded path rest name (content_hash gateway.lib name)

  for_packet :
      (encoded path rest : List ℕ) → Option (List ResourceRecord) → Result HttpError HttpResponse
  unfolding for_target target_of
  for_packet encoded path rest none = err bad_gateway
  for_packet encoded path rest (some records) =
      for_target encoded path rest (target_of encoded records)

  for_item :
      (encoded path rest : List ℕ) → Result HttpError MutableItem → Result HttpError HttpResponse
  unfolding for_packet
  for_item encoded path rest (err e) = err e
  for_item encoded path rest (ok item) =
      for_packet encoded path rest (crates.parse_packet item.value)

  module _ (resolved : List ℕ → Result HttpError MutableItem)
      (debug_page : List ℕ → HttpResponse) where
    for_key : (encoded path rest : List ℕ) → Option (List ℕ) → Result HttpError HttpResponse
    unfolding for_item has_flag
    for_key encoded path rest none = err bad_request
    for_key encoded path rest (some key) =
        if has_flag ask.query (codes "debug")
        then ok (debug_page key)
        else for_item encoded path rest (resolved key)

    for_rest : Option (List ℕ) → Result HttpError HttpResponse
    unfolding for_key key_and_path split_once parse_z32_bytes
    for_rest none = err panic
    for_rest (some rest) =
        let (encoded, path) = key_and_path rest (split_once b'/' rest) in
        for_key encoded path rest (parse_z32_bytes gateway.lib encoded)

    -- `redirect` of a path that is routed below `/pkarr/`.
    unfoldable pub redirect : List ℕ → Result HttpError HttpResponse
    unfolding for_rest strip_prefix
    redirect path = for_rest (strip_prefix (codes "/pkarr/") path)
