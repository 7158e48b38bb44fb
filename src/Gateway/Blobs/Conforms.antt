-- ===== src/Gateway/Blobs/Conforms.antt =====
-- Every response for a blob is framed as its headers say.
use iroh_content_discovery.Prelude.{
  ℕ, ◌≡◌, ◌⊎◌, true, false, false, none, some, List, Result, ok, err,
}
use iroh_content_discovery.Prelude.Decimal.{show}
use iroh_content_discovery.Gateway.Ranges.{Range}
use iroh_content_discovery.Gateway.Stream.{Streamed}
use iroh_content_discovery.Gateway.Http.{
  Method, is_head, content_length, HttpResponse, empty_body, header_value, HttpError, bad_request,
  bad_gateway, gateway_timeout,
}
use iroh_content_discovery.Gateway.Blobs.{
  Source, Fetched, answered, failed_start, timed_out, chunks_for, multipart_length,
}
use iroh_content_discovery.Gateway.Blobs.Length.{Weighs}

-- A content for a request: nothing for `HEAD`, or else so many bytes, or less if an error ends them.
abbrev pub Content : Method → ℕ → Streamed → Type 0
Content method n body =
    ((is_head method ≡ true) × (body ≡ empty_body)) ⊎ ((is_head method ≡ false) × Weighs n body)

-- A response announces the length of its content in decimal, or it is one of those without content.
abbrev pub Framed : Method → HttpResponse → Type 0
Framed method r =
    (((r.status ≡ 304) ⊎ (r.status ≡ 416)) × (r.body ≡ empty_body))
    ⊎ ((n : ℕ) × (header_value content_length r.headers ≡ some (show n)) × Content method n r.body)

-- The error for what a provider answered: none in time, a failure, or another size.
abbrev pub IsRefused : Source → Fetched → HttpError → Type 0
IsRefused source timed_out e = e ≡ gateway_timeout
IsRefused source failed_start e = e ≡ bad_gateway
IsRefused source (answered items closing size) e = (e ≡ bad_gateway) × ¬ (size ≡ source.size)

-- What excuses an error: a multipart body whose length overflows, or the answer of the provider.
abbrev pub Excuse : (Range → Fetched) → Source → List ℕ → HttpError → Type 0
Excuse fetch source boundary e =
    ((e ≡ bad_request) × (ranges : List Range) × (multipart_length source ranges boundary ≡ none))
    ⊎ ((range : Range) × IsRefused source (fetch (chunks_for range)) e)

-- A response is framed, or it is an excused error.
abbrev pub Conforms : (HttpError → Type 0) → Method → Result HttpError HttpResponse → Type 0
Conforms excuse method (err e) = excuse e
Conforms excuse method (ok r) = Framed method r

-- A content for a request, or an excused error.
abbrev Sends : (HttpError → Type 0) → Method → ℕ → Result HttpError Streamed → Type 0
Sends excuse method n (err e) = excuse e
Sends excuse method n (ok s) = Content method n s
