-- ===== src/Gateway/Urls.antt =====
-- iroh-link-gateway/src/lib.rs: the texts of URLs and headers. A request by subdomain is rewritten to
-- the path that serves it, links stay on the origin, and query flags are found.

pub mod Origin
pub mod Isolation
use iroh_content_discovery.Prelude.{
  ℕ, ◌+◌, Bool, true, false, ◌&&◌, ◌||◌, not, Option, none, some, List, [], ◌∷◌, ◌++◌, map, leb,
  ◌==◌, length, if◌then◌else◌,
}
use iroh_content_discovery.Prelude.Bytes.{
  codes, split, join, strip_prefix, strip_suffix, starts_with, rsplit_once, to_ascii_lowercase,
  bytes_eq, contains_byte,
}
use iroh_content_discovery.Gateway.Http.{
  Crates, Uri, HttpResponse, insert_header, content_security_policy, is_alphanumeric, attr_char,
  path_segment,
}

-- `any` over the parts of a query.
any_flag : List ℕ → List (List ℕ) → Bool
unfolding strip_prefix
any_flag name [] = false
any_flag name (pair ∷ pairs) =
    elim (strip_prefix name pair) [ none ↦ false | some [] ↦ true | some (b ∷ rest) ↦ b == b'=' ]
    || any_flag name pairs

unfoldable pub has_flag : Option (List ℕ) → List ℕ → Bool
unfolding any_flag split
has_flag none name = false
has_flag (some query) name = any_flag name (split b'&' query)

-- A substring, anywhere.
unfoldable pub contains_text : List ℕ → List ℕ → Bool
unfolding starts_with
contains_text part [] = starts_with part []
contains_text part (b ∷ bs) = starts_with part (b ∷ bs) || contains_text part bs

charset_of : List ℕ → List ℕ
charset_of (a ∷ b ∷ rest) =
    if a == 255 && b == 254
    then codes "utf-16le"
    else (if a == 254 && b == 255 then codes "utf-16be" else codes "utf-8")
charset_of _ = codes "utf-8"

unfoldable pub with_charset : List ℕ → List ℕ → List ℕ
unfolding charset_of starts_with contains_text
with_charset mime prefix =
    if not (starts_with (codes "text/") mime) || contains_text (codes "charset=") mime
    then mime
    else mime ++ codes "; charset=" ++ charset_of prefix

abbrev pub ascii_or_dash : ℕ → ℕ
ascii_or_dash c =
    if is_alphanumeric c || c == b'.' || c == b'-' || c == b'_' || c == 32 then c else b'_'

-- `Caching`: what the URL names.
pub data Caching : Type 0 where
  immutable revalidate : Caching

abbrev pub caching_header : Caching → List ℕ
caching_header immutable = codes "public, max-age=31536000, immutable"
caching_header revalidate = codes "public, no-cache"

abbrev pub redirect_status : Caching → ℕ
redirect_status immutable = 301
redirect_status revalidate = 302

-- The collection of a listing, and the path that its links start with.
pub record Root : Type 0 where
  pub encoded : List ℕ
  pub base : List ℕ
  pub caching : Caching

-- `Root::new`.
abbrev pub new_root : List ℕ → Bool → Root
new_root encoded subdomain = record {
  encoded = encoded;
  base = if subdomain then [] else codes "/blake3/" ++ encoded;
  caching = immutable;
}

-- A request, by what the middleware reads and writes.
pub record HttpRequest : Type 0 where
  pub uri : Uri
  pub host : Option (List ℕ)
  pub original : Option Uri
  pub subdomain : Bool

kept_label : List ℕ → Option (List ℕ) → Option (List ℕ)
kept_label label none = none
kept_label label (some bytes) = some label

or_route : Option (List ℕ) → List ℕ → Option (List ℕ × List ℕ) → Option (List ℕ × List ℕ)
or_route none route rest = rest
or_route (some label) route rest = some (label, route)

module _ (lib : Crates) where
  -- The text of `attachment`, whose file name is a list of characters.
  unfoldable pub attachment : List ℕ → List ℕ
  attachment filename =
      codes "attachment; filename=\""
      ++ map ascii_or_dash filename
      ++ codes "\"; filename*=UTF-8''"
      ++ lib.utf8_percent_encode attr_char filename

  -- `/.` keeps a name that starts with an empty segment on the origin.
  unfoldable pub link : Root → List ℕ → List ℕ
  unfolding starts_with split join
  link root path =
      let segments = map (lib.utf8_percent_encode path_segment) (split b'/' path) in
      let link = root.base ++ b'/' ∷ join b'/' segments in
      if starts_with (codes "//") link then codes "/." ++ link else link

  unfoldable pub parse_z32_bytes : List ℕ → Option (List ℕ)
  parse_z32_bytes value =
      if length value == 52
      then elim (lib.z32_decode value) [
        | none ↦ none
        | some bytes ↦
            if length bytes == 32 && bytes_eq (lib.z32_encode bytes) value then some bytes else none
      ]
      else none

  -- The label of a host under one suffix.
  checked_label : Option (List ℕ) → Option (List ℕ)
  unfolding kept_label
  checked_label none = none
  checked_label (some label) = kept_label label (parse_z32_bytes label)

  label_of : List ℕ → List ℕ → Option (List ℕ)
  unfolding checked_label
  label_of suffix host = checked_label (strip_suffix suffix host)

  -- `find_map` over `SUBDOMAIN_ROUTES`.
  unfoldable pub find_route : List (List ℕ × List ℕ) → List ℕ → Option (List ℕ × List ℕ)
  unfolding or_route label_of
  find_route [] host = none
  find_route ((suffix, route) ∷ routes) host =
      or_route (label_of suffix host) route (find_route routes host)

abbrev pub subdomain_routes : List (List ℕ × List ℕ)
subdomain_routes =
    (codes ".blake3.localhost", codes "blake3") ∷ (codes ".pkarr.localhost", codes "pkarr") ∷ []

-- The host of the URI or of the `Host` header, without a port, in lower case.
unfoldable pub request_host : HttpRequest → Option (List ℕ)
unfolding rsplit_once to_ascii_lowercase
request_host request = elim request.uri.host [
  | some host ↦ some (to_ascii_lowercase host)
  | none ↦ elim request.host [
    | none ↦ none
    | some host ↦ elim (rsplit_once b':' host) [
      | none ↦ some (to_ascii_lowercase host)
      | some (name, port) ↦ some (to_ascii_lowercase name)
    ]
  ]
]

unslashed : List ℕ → Option (List ℕ) → List ℕ
unslashed path none = path
unslashed path (some rest) = rest

with_rest : List ℕ → List ℕ → List ℕ
with_rest start [] = start
with_rest start (b ∷ rest) = if b == b'?' then start ++ b ∷ rest else start ++ b'/' ∷ b ∷ rest

-- The path of a route and a label, before what is asked of it.
unfoldable pub rewritten : List ℕ → List ℕ → List ℕ → List ℕ
unfolding unslashed with_rest
rewritten route label path_and_query =
    with_rest (codes "/" ++ route ++ codes "/" ++ label)
      (unslashed path_and_query (strip_prefix (codes "/") path_and_query))

abbrev path_of : Option (List ℕ) → List ℕ
path_of none = codes "/"
path_of (some path) = path

with_uri : HttpRequest → Option Uri → HttpRequest
with_uri request none = request
with_uri request (some uri) = record {
  uri = uri;
  host = request.host;
  original = some uri;
  subdomain = true;
}

unfoldable pub route_to : Crates → HttpRequest → Option (List ℕ × List ℕ) → HttpRequest
unfolding rewritten with_uri
route_to lib request none = request
route_to lib request (some (label, route)) =
    with_uri request (lib.parse_uri (rewritten route label (path_of request.uri.path_and_query)))

unfoldable pub route_for : Crates → Option (List ℕ) → Option (List ℕ × List ℕ)
unfolding find_route
route_for lib none = none
route_for lib (some host) = find_route lib subdomain_routes host

unfoldable pub rewrite_subdomain : Crates → HttpRequest → HttpRequest
unfolding route_to route_for request_host
rewrite_subdomain lib request = route_to lib request (route_for lib (request_host request))

-- `sandbox_path_routes`, around the handler of the request.
abbrev pub sandbox_path_routes : HttpRequest → (HttpRequest → HttpResponse) → HttpResponse
sandbox_path_routes request next =
    let response = next request in
    if request.subdomain then response else record response {
      headers =
          insert_header content_security_policy (codes "sandbox allow-downloads") response.headers;
    }
