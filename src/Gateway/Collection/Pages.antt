-- ===== src/Gateway/Collection/Pages.antt =====
-- iroh-link-gateway/src/lib.rs: `serve_root`, `serve_path` and `collection_entry`, the responses for
-- the root of a hash and for a path in a collection.

use iroh_content_discovery.Prelude.{
  ℕ, ◌*◌, ◌%◌, Bool, true, false, ◌&&◌, not, Option, none, some, List, [], ◌∷◌, ◌++◌, Result, ok,
  err, leb, ◌==◌, if◌then◌else◌,
}
use iroh_content_discovery.Prelude.Bytes.{codes, strip_suffix, ends_with, rsplit_once}
use iroh_content_discovery.Gateway.Ranges.{Range}
use iroh_content_discovery.Gateway.Http.{
  Crates, Method, content_type, cache_control, content_type_options, location, HttpResponse,
  empty_body, whole_body, HttpError, not_found,
}
use iroh_content_discovery.Gateway.Urls.{
  has_flag, with_charset, caching_header, redirect_status, Root, link,
}
use iroh_content_discovery.Gateway.Blobs.{Source, Fetched, Headers, serve_blob}
use iroh_content_discovery.Gateway.Collection.{
  Files, Entries, Found, found_file, found_directory, missing, find_name, after_slash, find_entry,
}

abbrev pub index_file : List ℕ
index_file = codes "index.html"

-- The crates that guess a MIME type: by the extension of a name, and from the first bytes.
pub record MimeCrates : Type 0 where
  pub guess : List ℕ → Option (List ℕ)
  pub classify : (no_sniff : Bool) → Option (List ℕ) → List ℕ → List ℕ

supplied_type : MimeCrates → Option (List ℕ) → Option (List ℕ)
supplied_type mimes none = none
supplied_type mimes (some name) = mimes.guess name

classified : MimeCrates → Option (List ℕ) → List ℕ → List ℕ
classified mimes none prefix = mimes.classify false none prefix
classified mimes (some supplied) prefix = mimes.classify true (some supplied) prefix

-- `source_on_connection`, of what a sniff gave.
unfoldable pub source_on_connection :
    MimeCrates → Result HttpError (ℕ × List ℕ) → Option (List ℕ) → Result HttpError Source
unfolding classified supplied_type with_charset
source_on_connection mimes (err e) name = err e
source_on_connection mimes (ok (size, prefix)) name = ok (record {
  size = size;
  mime = with_charset (classified mimes (supplied_type mimes name) prefix) prefix;
})

-- What the handlers call of the gateway: what its connections answer for a hash, errors as the
-- statuses that they become, its hints, and the pages that it renders.
pub record Gateway : Type 0 where
  pub lib : Crates
  pub mimes : MimeCrates
  pub sniffs : List ℕ → Result HttpError (ℕ × List ℕ)
  pub fetches : List ℕ → Range → Fetched
  pub source : List ℕ → Result HttpError Source
  pub collection : List ℕ → Result HttpError Files
  pub probe : List ℕ → Option Files
  pub sizes : List (List ℕ) → Result HttpError (List (List ℕ × ℕ))
  pub add_from_query : List ℕ → Option (List ℕ) → Option HttpError
  pub providers_page : List ℕ → HttpResponse
  pub listing : Root → List ℕ → Entries → Option (List (List ℕ × ℕ)) → Bool → List ℕ

-- A request, less its path: the query, the method, the headers, and the random boundary.
pub record Ask : Type 0 where
  pub query : Option (List ℕ)
  pub method : Method
  pub headers : Headers
  pub boundary : List ℕ

module _ (gateway : Gateway) (root : Root) (ask : Ask) where
  unfoldable pub serve_source :
      List ℕ → Option (List ℕ) → Result HttpError Source → Result HttpError HttpResponse
  unfolding serve_blob
  serve_source hash download (err e) = err e
  serve_source hash download (ok source) =
      serve_blob gateway.lib (gateway.fetches hash) source (gateway.lib.z32_encode hash) download
        root.caching ask.method ask.headers ask.boundary

  last_name : List ℕ → Option (List ℕ × List ℕ) → List ℕ
  last_name path none = path
  last_name path (some (above, file)) = file

  download_of : List ℕ → Option (List ℕ)
  unfolding has_flag
  download_of name = if has_flag ask.query (codes "download") then some name else none

  serve_file : List ℕ → List ℕ → Result HttpError HttpResponse
  unfolding serve_source source_on_connection download_of last_name rsplit_once
  serve_file path hash =
      serve_source hash (download_of (last_name path (rsplit_once b'/' path)))
        (source_on_connection gateway.mimes (gateway.sniffs hash) (some path))

  serve_index : List ℕ → List ℕ → Result HttpError HttpResponse
  unfolding serve_source source_on_connection download_of
  serve_index dir hash =
      serve_source hash (download_of index_file)
        (source_on_connection gateway.mimes (gateway.sniffs hash) (some (dir ++ index_file)))

  with_query : Option (List ℕ) → List ℕ → List ℕ
  with_query none target = target
  with_query (some query) target = target ++ b'?' ∷ query

  redirect_to_slash : List ℕ → Result HttpError HttpResponse
  unfolding with_query link
  redirect_to_slash dir = ok (record {
    status = redirect_status root.caching;
    headers =
        (location, with_query ask.query (link gateway.lib root dir))
        ∷ (cache_control, caching_header root.caching)
        ∷ [];
    body = empty_body;
  })

  file_hashes : Files → List (List ℕ)
  file_hashes [] = []
  file_hashes ((name, hash) ∷ files) = hash ∷ file_hashes files

  listing_page :
      List ℕ → Entries → Bool → Option (List (List ℕ × ℕ)) → Result HttpError HttpResponse
  listing_page dir entries flag sizes = ok (record {
    status = 200;
    headers =
        (content_type, codes "text/html; charset=utf-8")
        ∷ (cache_control, codes "public, no-cache")
        ∷ (content_type_options, codes "nosniff")
        ∷ [];
    body = whole_body (gateway.listing root dir entries sizes flag);
  })

  sized_page :
      List ℕ → Entries → Bool → Result HttpError (List (List ℕ × ℕ)) → Result HttpError HttpResponse
  unfolding listing_page
  sized_page dir entries flag (err e) = err e
  sized_page dir entries flag (ok sizes) = listing_page dir entries flag (some sizes)

  serve_listing : List ℕ → Entries → Bool → Result HttpError HttpResponse
  unfolding sized_page listing_page has_flag file_hashes
  serve_listing dir entries flag =
      if has_flag ask.query (codes "sizes")
      then sized_page dir entries flag (gateway.sizes (file_hashes entries.files))
      else listing_page dir entries flag none

  -- A directory: its index unless the listing is asked for, else its listing.
  serve_directory : Bool → List ℕ → Entries → Option (List ℕ) → Result HttpError HttpResponse
  unfolding serve_listing serve_index redirect_to_slash has_flag
  serve_directory slash dir entries none =
      serve_listing dir entries (has_flag ask.query (codes "listing"))
  serve_directory slash dir entries (some hash) =
      if has_flag ask.query (codes "listing")
      then serve_listing dir entries true
      else (if slash then serve_index dir hash else redirect_to_slash dir)

  serve_found : Bool → Found → Result HttpError HttpResponse
  unfolding serve_file serve_directory find_name
  serve_found slash (found_file path hash) = serve_file path hash
  serve_found slash (found_directory dir entries) =
      serve_directory slash dir entries (find_name index_file entries.files)
  serve_found slash missing = err not_found

  unfoldable pub collection_entry : Files → List ℕ → Result HttpError HttpResponse
  unfolding serve_found find_entry strip_suffix
  collection_entry collection url_path =
      serve_found (ends_with (codes "/") url_path) (find_entry url_path collection)

  entry_if_ok : List ℕ → Result HttpError Files → Result HttpError HttpResponse
  unfolding collection_entry
  entry_if_ok url_path (err e) = err e
  entry_if_ok url_path (ok collection) = collection_entry collection url_path

  may_be_collection : Source → Bool
  may_be_collection source =
      leb 32 source.size && (source.size % 32 == 0 && leb source.size (1024 * 1024))

  probed : List ℕ → List ℕ → Source → Option Files → Result HttpError HttpResponse
  unfolding collection_entry serve_source
  probed hash url_path source (some collection) = collection_entry collection url_path
  probed hash url_path source none = serve_source hash none (ok source)

  serve_root_source : List ℕ → List ℕ → Result HttpError Source → Result HttpError HttpResponse
  unfolding probed serve_source has_flag may_be_collection
  serve_root_source hash url_path (err e) = err e
  serve_root_source hash url_path (ok source) =
      if has_flag ask.query (codes "download")
      then serve_source hash (some (gateway.lib.z32_encode hash)) (ok source)
      else probed hash url_path source
          (if may_be_collection source then gateway.probe hash else none)

  root_after_hints : List ℕ → Bool → Option HttpError → Result HttpError HttpResponse
  unfolding serve_root_source entry_if_ok has_flag
  root_after_hints hash slash (some e) = err e
  root_after_hints hash slash none =
      let url_path = if slash then codes "/" else [] in
      if has_flag ask.query (codes "debug")
      then ok (gateway.providers_page hash)
      else (if not (has_flag ask.query (codes "download")) && has_flag ask.query (codes "tree")
          then entry_if_ok url_path (gateway.collection hash)
          else serve_root_source hash url_path (gateway.source hash))

  unfoldable pub serve_root : List ℕ → Bool → Result HttpError HttpResponse
  unfolding root_after_hints
  serve_root hash slash = root_after_hints hash slash (gateway.add_from_query hash ask.query)

  path_after_hints : List ℕ → List ℕ → Option HttpError → Result HttpError HttpResponse
  unfolding entry_if_ok has_flag after_slash
  path_after_hints hash path (some e) = err e
  path_after_hints hash path none =
      if has_flag ask.query (codes "debug")
      then ok (gateway.providers_page hash)
      else entry_if_ok (b'/' ∷ after_slash path) (gateway.collection hash)

  unfoldable pub serve_path : List ℕ → List ℕ → Result HttpError HttpResponse
  unfolding path_after_hints
  serve_path hash path = path_after_hints hash path (gateway.add_from_query hash ask.query)
