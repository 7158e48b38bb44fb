-- ===== src/Gateway/Blobs/Accepted.antt =====
-- The headers of a response for a blob are accepted, so that its builder does not panic.
use iroh_content_discovery.Prelude.{
  ℕ, zero, suc, ◌+◌, ◌-◌, ◌/◌, ◌%◌, ◌≡◌, refl, Bool, true, ◌&&◌, Option, none, some, List, [], ◌∷◌,
  ◌++◌, map, arith, leb, ltb, Bool-cases, inl, inr,
}
use iroh_content_discovery.Prelude.Bytes.{codes}
use iroh_content_discovery.Prelude.Decimal.{show, show_onto}
use iroh_content_discovery.Gateway.Ranges.{Range}
use iroh_content_discovery.Gateway.Http.{Crates, HeaderName, remove_header, attr_char}
use iroh_content_discovery.Gateway.Urls.{
  Caching, immutable, revalidate, caching_header, ascii_or_dash, attachment,
}
use iroh_content_discovery.Gateway.Blobs.{
  Source, quoted, range_text, disposition, base_headers, all_accepted,
}

-- Visible ASCII.
abbrev pub all_visible : List ℕ → Bool
all_visible [] = true
all_visible (b ∷ bs) = (leb 32 b && ltb b 127) && all_visible bs

-- What the crates document: a header value may be any visible ASCII, and what is escaped for an
-- attribute is.
pub record AcceptsText (lib : Crates) : Type 0 where
  pub visible_value : (value : List ℕ) → all_visible value ≡ true → lib.is_header_value value ≡ true
  pub visible_escapes :
      (text : List ℕ) → all_visible (lib.utf8_percent_encode attr_char text) ≡ true

all_visible-append : (a b : List ℕ) → all_visible (a ++ b) ≡ (all_visible a && all_visible b)
all_visible-append [] b = refl
all_visible-append (x ∷ a) b = ground (arith, all_visible-append a b)

pub all_visible_both :
    (a b : List ℕ) → all_visible a ≡ true → all_visible b ≡ true → all_visible (a ++ b) ≡ true
all_visible_both a b h k = ground (arith, all_visible-append a b)

show_onto_visible :
    (fuel n : ℕ) (digits : List ℕ)
    → all_visible digits ≡ true
    → all_visible (show_onto fuel n digits) ≡ true
unfolding show_onto
show_onto_visible zero n digits h = h
show_onto_visible (suc fuel) n digits h = elim (Bool-cases (ltb n 10)) [
  | inl e ↦ rw e (ground arith)
  | inr e ↦ rw e (show_onto_visible fuel (n / 10) ((48 + n % 10) ∷ digits) (ground arith))
]

pub show_visible : (n : ℕ) → all_visible (show n) ≡ true
unfolding show
show_visible n = show_onto_visible (suc n) n [] refl

pub range_text_visible : (range : Range) (size : ℕ) → all_visible (range_text range size) ≡ true
range_text_visible range size =
    all_visible_both
      (codes "bytes " ++ show range.start ++ codes "-" ++ show (range.end - 1) ++ codes "/")
      (show size)
      (all_visible_both (codes "bytes " ++ show range.start ++ codes "-" ++ show (range.end - 1))
        (codes "/")
        (all_visible_both (codes "bytes " ++ show range.start ++ codes "-") (show (range.end - 1))
          (all_visible_both (codes "bytes " ++ show range.start) (codes "-")
            (all_visible_both (codes "bytes ") (show range.start) refl (show_visible range.start))
            refl)
          (show_visible (range.end - 1)))
        refl)
      (show_visible size)

dashes_visible : (filename : List ℕ) → all_visible (map ascii_or_dash filename) ≡ true
dashes_visible [] = refl
dashes_visible (c ∷ filename) = ground (arith, dashes_visible filename)

module _ (lib : Crates) (laws : AcceptsText lib) where
  attachment_visible : (filename : List ℕ) → all_visible (attachment lib filename) ≡ true
  unfolding attachment
  attachment_visible filename =
      all_visible_both
        (codes "attachment; filename=\""
          ++ map ascii_or_dash filename
          ++ codes "\"; filename*=UTF-8''")
        (lib.utf8_percent_encode attr_char filename)
        (all_visible_both (codes "attachment; filename=\"" ++ map ascii_or_dash filename)
          (codes "\"; filename*=UTF-8''")
          (all_visible_both (codes "attachment; filename=\"") (map ascii_or_dash filename) refl
            (dashes_visible filename))
          refl)
        (laws.visible_escapes filename)

  pub all_accepted-append :
      (a b : List (HeaderName × List ℕ))
      → all_accepted lib a ≡ true
      → all_accepted lib b ≡ true
      → all_accepted lib (a ++ b) ≡ true
  unfolding all_accepted
  all_accepted-append [] b h k = k
  all_accepted-append ((name, value) ∷ a) b h k = ground (arith, all_accepted-append a b)

  pub all_accepted-remove :
      (name : HeaderName) (a : List (HeaderName × List ℕ))
      → all_accepted lib a ≡ true
      → all_accepted lib (remove_header name a) ≡ true
  unfolding all_accepted remove_header
  all_accepted-remove name [] h = refl
  all_accepted-remove name ((other, value) ∷ a) h = ground (arith, all_accepted-remove name a)

  -- One header, and one more.
  pub accepts_one :
      (name : HeaderName) (value : List ℕ) (rest : List (HeaderName × List ℕ))
      → all_visible value ≡ true
      → all_accepted lib rest ≡ true
      → all_accepted lib ((name, value) ∷ rest) ≡ true
  unfolding all_accepted
  accepts_one name value rest h k = rw (laws.visible_value value h) k

  disposition_accepted :
      (download : Option (List ℕ)) → all_accepted lib (disposition lib download) ≡ true
  unfolding disposition all_accepted
  disposition_accepted none = refl
  disposition_accepted (some filename) =
      rw (laws.visible_value (attachment lib filename) (attachment_visible filename)) refl

  caching_visible : (caching : Caching) → all_visible (caching_header caching) ≡ true
  caching_visible immutable = refl
  caching_visible revalidate = refl

  pub base_headers_accepted :
      (source : Source) (encoded : List ℕ) (caching : Caching) (download : Option (List ℕ))
      → all_visible source.mime ≡ true
      → all_visible encoded ≡ true
      → all_accepted lib (base_headers lib source encoded caching download) ≡ true
  unfolding base_headers all_accepted
  base_headers_accepted source encoded caching download mime text =
      rw
        (
          laws.visible_value source.mime mime,
          laws.visible_value (codes "bytes") refl,
          laws.visible_value (quoted encoded) (all_visible_both encoded (b'"' ∷ []) text refl),
          laws.visible_value (caching_header caching) (caching_visible caching),
          laws.visible_value (codes "nosniff") refl,
        )
        (disposition_accepted download)
