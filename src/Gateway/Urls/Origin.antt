-- ===== src/Gateway/Urls/Origin.antt =====
-- Links stay on the origin, file names stay in their quotes, and a hash has one text.
use iroh_content_discovery.Prelude.{
  ℕ, ◌≡◌, ◌↔◌, refl, Bool, true, false, ◌&&◌, ◌||◌, some, List, [], ◌∷◌, map, leb, ◌==◌, arith,
  length,
}
use iroh_content_discovery.Prelude.Bytes.{
  bytes_eq_refl, bytes_eq_sound, contains_byte, count_byte, count_byte-append, count_byte_absent,
}
use iroh_content_discovery.Gateway.Http.{Crates, is_alphanumeric, attr_char}
use iroh_content_discovery.Gateway.Urls.{ascii_or_dash, attachment, parse_z32_bytes}

-- The bytes that an escaped byte is written with.
abbrev pub is_escape : ℕ → Bool
is_escape b = b == b'%' || leb 48 b && leb b 57 || leb 65 b && leb b 70

-- What `utf8_percent_encode` documents: a byte of the set does not stand in the result, but for the
-- bytes of the escapes.
abbrev pub Escapes : Crates → Type 0
Escapes lib =
    (set : ℕ → Bool) (c : ℕ) (text : List ℕ)
    → set c ≡ true
    → is_escape c ≡ false
    → contains_byte c (lib.utf8_percent_encode set text) ≡ false

-- A path that browsers read as one on this origin: it begins with one slash.
abbrev pub OnOrigin : List ℕ → Type 0
OnOrigin [] = ⊥
OnOrigin (a ∷ []) = a ≡ b'/'
OnOrigin (a ∷ b ∷ bs) = (a ≡ b'/') × ¬ (b ≡ b'/') × ¬ (b ≡ b'\\')

-- A base of links: nothing, or a path without backslashes.
abbrev pub IsBase : List ℕ → Type 0
IsBase [] = Unit
IsBase (b ∷ bs) = (b ≡ b'/') × (contains_byte b'\\' (b ∷ bs) ≡ false)

map_absent :
    (c : ℕ) (name : List ℕ)
    → is_alphanumeric c ≡ false
    → (c == b'.' || c == b'-' || c == b'_' || c == 32) ≡ false
    → count_byte c (map ascii_or_dash name) ≡ 0
map_absent c [] h k = refl
map_absent c (b ∷ name) h k = ground (arith, map_absent c name h k)

-- A file name neither ends its quotes nor its parameter: the header has the two quotes and the two
-- semicolons of its own.
pub attachment-delimiters :
    (lib : Crates) (filename : List ℕ)
    → Escapes lib
    → (count_byte b'"' (attachment lib filename) ≡ 2)
      × (count_byte b';' (attachment lib filename) ≡ 2)
unfolding attachment contains_byte
attachment-delimiters lib filename esc =
    let quote = esc attr_char b'"' filename refl refl in
    let semicolon = esc attr_char b';' filename refl refl in
    let text = lib.utf8_percent_encode attr_char filename in
    (
      grind (arith, count_byte_absent b'"' text, map_absent b'"' filename, count_byte-append),
      grind (arith, count_byte_absent b';' text, map_absent b';' filename, count_byte-append),
    )

-- What the `z32` crate documents of 32 bytes.
abbrev pub RoundTrips : Crates → Type 0
RoundTrips lib =
    (bytes : List ℕ)
    → length bytes ≡ 32
    → (lib.z32_decode (lib.z32_encode bytes) ≡ some bytes) × (length (lib.z32_encode bytes) ≡ 52)

-- What is read is the encoding of its bytes.
pub parse_z32_bytes-encoded :
    (lib : Crates) (value bytes : List ℕ)
    → parse_z32_bytes lib value ≡ some bytes
    → lib.z32_encode bytes ≡ value
unfolding parse_z32_bytes
parse_z32_bytes-encoded lib value bytes h =
    ground (arith, bytes_eq_sound (lib.z32_encode bytes) value)

-- Just one text names 32 bytes: their encoding.
pub parse_z32_bytes-canonical :
    (lib : Crates) (value bytes : List ℕ)
    → RoundTrips lib
    → (parse_z32_bytes lib value ≡ some bytes)
      ↔ ((length bytes ≡ 32) × (value ≡ lib.z32_encode bytes))
unfolding parse_z32_bytes
parse_z32_bytes-canonical lib value bytes laws = (
  λ h. ground (arith, bytes_eq_sound (lib.z32_encode bytes) value),
  λ (n, e).
      rw (e, (laws bytes n).1, (laws bytes n).0, n, e, bytes_eq_refl (lib.z32_encode bytes)) refl,
)
