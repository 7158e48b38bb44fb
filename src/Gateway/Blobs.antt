-- ===== src/Gateway/Blobs.antt =====
-- iroh-link-gateway/src/lib.rs: `serve_blob`, the response for a blob of a provider. What the provider
-- answers to a request for chunks is a function, since the blob and the connection are fixed.

pub mod Length
pub mod Selections
pub mod Accepted
pub mod Conforms
use iroh_content_discovery.Prelude.{
  ℕ, ◌+◌, ◌-◌, ◌*◌, ◌/◌, ◌^◌, Bool, true, false, ◌&&◌, ◌||◌, not, Option, none, some, List, [], ◌∷◌,
  ◌++◌, Result, ok, err, ltb, leb, ◌==◌, length, if◌then◌else◌,
}
use iroh_content_discovery.Prelude.Bytes.{codes, split, trim, strip_prefix, bytes_eq}
use iroh_content_discovery.Prelude.Decimal.{show}
use iroh_content_discovery.Gateway.Ranges.{Range, Selection, full, partial, unsatisfiable, select}
use iroh_content_discovery.Gateway.Stream.{Item, Streamed, stream_content}
use iroh_content_discovery.Gateway.Http.{
  Crates, Method, is_head, HeaderName, content_type, accept_ranges, etag, cache_control,
  content_type_options, content_disposition, content_range, content_length, HttpResponse,
  empty_body, remove_header, HttpError, bad_request, bad_gateway, gateway_timeout, panic,
}
use iroh_content_discovery.Gateway.Urls.{Caching, caching_header, attachment}

-- `Source`, less its connection.
pub record Source : Type 0 where
  pub size : ℕ
  pub mime : List ℕ

-- What `start` gives: the items and the announced size, an error, or no answer in time.
pub data Fetched : Type 0 where
  answered : List Item → (closing : Bool) → (size : ℕ) → Fetched
  failed_start timed_out : Fetched

-- The request's headers that are read, with every value of the repeated ones.
pub record Headers : Type 0 where
  pub if_none_match : List (List ℕ)
  pub if_range : Option (List ℕ)
  pub range : List (List ℕ)

-- The chunks of 1024 bytes that cover a range.
abbrev pub chunks_for : Range → Range
chunks_for range = record { start = range.start / 1024; end = (range.end + 1023) / 1024 }

abbrev pub crlf : List ℕ
crlf = 13 ∷ 10 ∷ []

-- `bytes start-last/size`.
abbrev pub range_text : Range → ℕ → List ℕ
range_text range size =
    codes "bytes "
    ++ show range.start
    ++ codes "-"
    ++ show (range.end - 1)
    ++ codes "/"
    ++ show size

unfoldable pub part_header : Source → Range → List ℕ → List ℕ
part_header source range boundary =
    codes "--"
    ++ boundary
    ++ crlf
    ++ codes "Content-Type: "
    ++ source.mime
    ++ crlf
    ++ codes "Content-Range: "
    ++ range_text range source.size
    ++ crlf
    ++ crlf

abbrev pub closing_line : List ℕ → List ℕ
closing_line boundary = codes "--" ++ boundary ++ codes "--" ++ crlf

abbrev pub checked_add : Option ℕ → ℕ → Option ℕ
checked_add none b = none
checked_add (some a) b = if ltb (a + b) (2 ^ 64) then some (a + b) else none

unfoldable pub lengths_onto : Source → List ℕ → Option ℕ → List Range → Option ℕ
lengths_onto source boundary total [] = total
lengths_onto source boundary total (range ∷ ranges) =
    lengths_onto source boundary
      (checked_add
        (checked_add (checked_add total (length (part_header source range boundary)))
          (range.end - range.start))
        2)
      ranges

unfoldable pub multipart_length : Source → List Range → List ℕ → Option ℕ
unfolding lengths_onto
multipart_length source ranges boundary =
    lengths_onto source boundary (some (length (closing_line boundary))) ranges

-- One stream after another, which is not reached if the first fails.
abbrev pub followed_by : Streamed → Streamed → Streamed
followed_by first next = record {
  chunks = if first.complete then first.chunks ++ next.chunks else first.chunks;
  complete = first.complete && next.complete;
}

-- The content of a fetched range; a size that the provider changed is an error.
unfoldable pub fetched_content : Source → Range → Fetched → Result HttpError Streamed
unfolding stream_content
fetched_content source range timed_out = err gateway_timeout
fetched_content source range failed_start = err bad_gateway
fetched_content source range (answered items closing size) =
    if size == source.size then ok (stream_content range items closing) else err bad_gateway

-- A part of a multipart body: an error before its header ends the stream.
unfoldable pub part_content : Source → Range → List ℕ → Result HttpError Streamed → Streamed
part_content source range boundary (err e) = record { chunks = []; complete = false }
part_content source range boundary (ok sent) = record {
  chunks =
      part_header source range boundary ∷ sent.chunks ++ (if sent.complete then crlf ∷ [] else []);
  complete = sent.complete;
}

module _ (fetch : Range → Fetched) where
  unfoldable pub multipart_content : Source → List Range → List ℕ → Streamed
  unfolding part_content fetched_content
  multipart_content source [] boundary = record {
    chunks = closing_line boundary ∷ [];
    complete = true;
  }
  multipart_content source (range ∷ ranges) boundary =
      followed_by
        (part_content source range boundary
          (fetched_content source range (fetch (chunks_for range))))
        (multipart_content source ranges boundary)

  -- The body of one range: a `HEAD` request and an empty range fetch nothing.
  unfoldable pub range_body : Source → Range → Method → Result HttpError Streamed
  unfolding fetched_content
  range_body source range method =
      if is_head method || leb range.end range.start
      then ok empty_body
      else fetched_content source range (fetch (chunks_for range))

-- The test of one entity tag of `If-None-Match`.
tag_matches : List ℕ → List ℕ → Bool
unfolding trim strip_prefix bytes_eq
tag_matches tag h =
    bytes_eq (trim h) (codes "*")
    || bytes_eq
        (elim (strip_prefix (codes "W/") (trim h)) as (λ _. List ℕ) [
          | none ↦ trim h
          | some rest ↦ rest
        ])
        tag

any_tag : List ℕ → List (List ℕ) → Bool
unfolding tag_matches
any_tag tag [] = false
any_tag tag (h ∷ hs) = tag_matches tag h || any_tag tag hs

value_matches : List ℕ → Option (List ℕ) → Bool
unfolding any_tag split
value_matches tag none = false
value_matches tag (some value) = any_tag tag (split b',' value)

unfoldable pub none_match_hits : Crates → List ℕ → List (List ℕ) → Bool
unfolding value_matches
none_match_hits lib tag [] = false
none_match_hits lib tag (value ∷ values) =
    value_matches tag (lib.to_str value) || none_match_hits lib tag values

-- The one `Range` header, if there is just one.
single_range : Crates → List (List ℕ) → Option (List ℕ)
single_range lib (value ∷ []) = lib.to_str value
single_range lib _ = none

-- The test of `If-Range` that makes the range be ignored.
range_ignored : List ℕ → Option (List ℕ) → Bool
unfolding bytes_eq
range_ignored tag none = false
range_ignored tag (some value) = not (bytes_eq value tag)

unfoldable pub selection : Crates → List ℕ → Method → Headers → ℕ → Selection
unfolding range_ignored single_range select
selection lib tag method headers size =
    if is_head method || range_ignored tag headers.if_range
    then full
    else select (single_range lib headers.range) size

abbrev pub quoted : List ℕ → List ℕ
quoted encoded = b'"' ∷ encoded ++ b'"' ∷ []

disposition : Crates → Option (List ℕ) → List (HeaderName × List ℕ)
unfolding attachment
disposition lib none = []
disposition lib (some filename) = (content_disposition, attachment lib filename) ∷ []

unfoldable pub base_headers :
    Crates → Source → List ℕ → Caching → Option (List ℕ) → List (HeaderName × List ℕ)
unfolding disposition
base_headers lib source encoded caching download =
    (content_type, source.mime)
    ∷ (accept_ranges, codes "bytes")
    ∷ (etag, quoted encoded)
    ∷ (cache_control, caching_header caching)
    ∷ (content_type_options, codes "nosniff")
    ∷ disposition lib download

-- Whether the builder of a response has had no error.
unfoldable pub all_accepted : Crates → List (HeaderName × List ℕ) → Bool
all_accepted lib [] = true
all_accepted lib ((name, value) ∷ headers) = lib.is_header_value value && all_accepted lib headers

-- `builder.body(body).expect("valid response")`.
unfoldable pub build_response : Crates → HttpResponse → Result HttpError HttpResponse
unfolding all_accepted
build_response lib response = if all_accepted lib response.headers then ok response else err panic

-- A response with the body that was fetched.
unfoldable pub with_body :
    Crates
    → ℕ
    → List (HeaderName × List ℕ)
    → Result HttpError Streamed
    → Result HttpError HttpResponse
unfolding build_response
with_body lib status headers (err e) = err e
with_body lib status headers (ok body) =
    build_response lib (record { status = status; headers = headers; body = body })

multipart_built :
    Crates
    → List (HeaderName × List ℕ)
    → List ℕ
    → Streamed
    → Option ℕ
    → Result HttpError HttpResponse
unfolding remove_header show build_response
multipart_built lib headers boundary body none = err bad_request
multipart_built lib headers boundary body (some total) = build_response lib (record {
  status = 206;
  headers =
      remove_header content_type headers
      ++ (content_type, codes "multipart/byteranges; boundary=" ++ boundary)
        ∷ (content_length, show total)
        ∷ [];
  body = body;
})

-- `headers_mut` has nothing where the builder has had an error.
multipart_response :
    Crates
    → List (HeaderName × List ℕ)
    → List ℕ
    → Streamed
    → Option ℕ
    → Result HttpError HttpResponse
unfolding all_accepted multipart_built
multipart_response lib headers boundary body total =
    if all_accepted lib headers then multipart_built lib headers boundary body total else err panic

module _ (lib : Crates) (fetch : Range → Fetched) (source : Source)
    (headers : List (HeaderName × List ℕ)) where
  -- A full response, and one of a single range.
  full_response : Method → Result HttpError HttpResponse
  unfolding range_body with_body show
  full_response method =
      with_body lib 200 (headers ++ (content_length, show source.size) ∷ [])
        (range_body fetch source (record { start = 0; end = source.size }) method)

  single_response : Range → Method → Result HttpError HttpResponse
  unfolding range_body with_body show
  single_response range method =
      with_body lib 206
        (headers
          ++ (content_range, range_text range source.size)
            ∷ (content_length, show (range.end - range.start))
            ∷ [])
        (range_body fetch source range method)

  -- The response for a selection; the boundary of a multipart body is random.
  unfoldable pub selected_response : Selection → List ℕ → Method → Result HttpError HttpResponse
  unfolding full_response single_response multipart_response multipart_length multipart_content show
      build_response
  selected_response unsatisfiable boundary method = build_response lib (record {
    status = 416;
    headers =
        (content_range, codes "bytes */" ++ show source.size)
        ∷ (accept_ranges, codes "bytes")
        ∷ (cache_control, codes "no-store")
        ∷ [];
    body = empty_body;
  })
  selected_response full boundary method = full_response method
  selected_response (partial []) boundary method = err panic
  selected_response (partial (range ∷ [])) boundary method = single_response range method
  selected_response (partial (range ∷ next ∷ ranges)) boundary method =
      multipart_response lib headers boundary
        (multipart_content fetch source (range ∷ next ∷ ranges) boundary)
        (multipart_length source (range ∷ next ∷ ranges) boundary)

unfoldable pub serve_blob :
    Crates
    → (Range → Fetched)
    → Source
    → List ℕ
    → Option (List ℕ)
    → Caching
    → Method
    → Headers
    → List ℕ
    → Result HttpError HttpResponse
unfolding none_match_hits selection base_headers selected_response build_response
serve_blob lib fetch source encoded download caching method headers boundary =
    let builder = base_headers lib source encoded caching download in
    if none_match_hits lib (quoted encoded) headers.if_none_match
    then build_response lib (record { status = 304; headers = builder; body = empty_body })
    else selected_response lib fetch source builder
        (selection lib (quoted encoded) method headers source.size) boundary method
