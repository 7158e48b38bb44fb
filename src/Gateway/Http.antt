-- ===== src/Gateway/Http.antt =====
-- What the gateway's handlers share: requests, responses and errors, the escape sets, and the crates
-- that the handlers call, as a record of functions on bytes.
use iroh_content_discovery.Prelude.{
  ℕ, Bool, true, false, ◌&&◌, ◌||◌, not, Option, none, some, List, [], ◌∷◌, ltb, leb, ◌==◌,
  if◌then◌else◌,
}
use iroh_content_discovery.Prelude.Bytes.{codes, contains_byte}
use iroh_content_discovery.Gateway.Stream.{Streamed}

-- `http::Uri`, as far as the gateway reads it.
pub record Uri : Type 0 where
  pub host : Option (List ℕ)
  pub path_and_query : Option (List ℕ)

-- `percent_encoding::utf8_percent_encode`, `HeaderValue::to_str` and whether `HeaderValue` accepts a
-- text, the `z32` crate and the parser of `http::Uri`.
pub record Crates : Type 0 where
  pub utf8_percent_encode : (ℕ → Bool) → List ℕ → List ℕ
  pub to_str : List ℕ → Option (List ℕ)
  pub is_header_value : List ℕ → Bool
  pub z32_decode : List ℕ → Option (List ℕ)
  pub z32_encode : List ℕ → List ℕ
  pub parse_uri : List ℕ → Option Uri

pub data Method : Type 0 where
  get head : Method

abbrev pub is_head : Method → Bool
is_head get = false
is_head head = true

pub data HeaderName : Type 0 where
  content_type accept_ranges etag cache_control content_type_options : HeaderName
  content_disposition content_range content_length location content_security_policy : HeaderName

unfoldable pub header_id : HeaderName → ℕ
header_id content_type = 0
header_id accept_ranges = 1
header_id etag = 2
header_id cache_control = 3
header_id content_type_options = 4
header_id content_disposition = 5
header_id content_range = 6
header_id content_length = 7
header_id location = 8
header_id content_security_policy = 9

pub record HttpResponse : Type 0 where
  pub status : ℕ
  pub headers : List (HeaderName × List ℕ)
  pub body : Streamed

-- `Body::empty` and a body that is there at once.
abbrev pub empty_body : Streamed
empty_body = record { chunks = []; complete = true }

abbrev pub whole_body : List ℕ → Streamed
whole_body bytes = record { chunks = bytes ∷ []; complete = true }

-- The first value of a header.
unfoldable pub header_value : HeaderName → List (HeaderName × List ℕ) → Option (List ℕ)
header_value name [] = none
header_value name ((other, value) ∷ headers) =
    let rest = header_value name headers in
    if header_id other == header_id name then some value else rest

unfoldable pub remove_header : HeaderName → List (HeaderName × List ℕ) → List (HeaderName × List ℕ)
remove_header name [] = []
remove_header name ((other, value) ∷ headers) =
    let rest = remove_header name headers in
    if header_id other == header_id name then rest else (other, value) ∷ rest

-- `HeaderMap::insert`, which replaces the values that are there.
abbrev pub insert_header :
    HeaderName → List ℕ → List (HeaderName × List ℕ) → List (HeaderName × List ℕ)
insert_header name value headers = (name, value) ∷ remove_header name headers

-- `HttpError`, by its status, and `expect` that fails.
pub data HttpError : Type 0 where
  bad_request not_found bad_gateway gateway_timeout unprocessable panic : HttpError

abbrev pub is_alphanumeric : ℕ → Bool
is_alphanumeric b = leb 48 b && leb b 57 || leb 65 b && leb b 90 || leb 97 b && leb b 122

-- The bytes that `ATTR_CHAR` escapes.
abbrev pub attr_char : ℕ → Bool
attr_char b = not (is_alphanumeric b || contains_byte b (codes "!#$&+-.^_`|~"))

-- The bytes that `PATH_SEGMENT` escapes.
abbrev pub path_segment : ℕ → Bool
path_segment b = ltb b 32 || b == 127 || contains_byte b (codes " %#?/\\<>\"'&")
