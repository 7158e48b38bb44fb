-- ===== src/Tests/Crates.antt =====
-- The gateway's crates as concrete functions: percent encoding, and an encoding of 32 bytes by 52.
use iroh_content_discovery.Prelude.{
  ℕ, suc, length, map, ◌-◌, ◌+◌, ◌/◌, ◌%◌, ◌≡◌, refl, sym, ap, ◌∙◌, inl, inr, Bool, true, false,
  ◌||◌, some, none, List, [], ◌∷◌, ◌++◌, arith, ltb, leb, ◌==◌, take, replicate, length-append,
  length-replicate, take-append, if◌then◌else◌, Bool-cases,
}
use mathlib.Core.Option.{some-injective}
use iroh_content_discovery.Prelude.Bytes.{contains_byte}
use iroh_content_discovery.Gateway.Http.{Crates, attr_char}
use iroh_content_discovery.Gateway.Blobs.Accepted.{all_visible, AcceptsText}
use iroh_content_discovery.Gateway.Urls.Origin.{Escapes, RoundTrips, is_escape}
use iroh_content_discovery.Gateway.Urls.Isolation.{ParsesPaths, HasNoHash, before_fragment}

abbrev pub hex_digit : ℕ → ℕ
hex_digit d = if ltb d 10 then 48 + d else 55 + d

unfoldable pub percent_encode : (ℕ → Bool) → List ℕ → List ℕ
percent_encode set [] = []
percent_encode set (b ∷ bs) =
    let rest = percent_encode set bs in
    if set b || leb 128 b
    then b'%' ∷ hex_digit (b / 16 % 16) ∷ hex_digit (b % 16) ∷ rest
    else b ∷ rest

abbrev pub crates : Crates
crates = record {
  utf8_percent_encode = percent_encode;
  to_str = λ value. some value;
  is_header_value = all_visible;
  z32_decode = λ text. some (map (λ b. b - 64) (take 32 text));
  z32_encode = λ bytes. map (λ b. b + 64) bytes ++ replicate 20 121;
  parse_uri = λ path. some (record { host = none; path_and_query = some (before_fragment path) });
}

hex_digit_escape : (d c : ℕ) → is_escape c ≡ false → (hex_digit (d % 16) == c) ≡ false
hex_digit_escape d c h = ground arith

differs : (set : ℕ → Bool) (b c : ℕ) → set c ≡ true → set b ≡ false → (b == c) ≡ false
differs set b c h k = elim (Bool-cases (b == c)) [
  | inr e ↦ e
  | inl e ↦ let same : b ≡ c = ground arith in absurd (let f : set b ≡ true = ap set same ∙ h in cc)
]

pub crates-Escapes : Escapes crates
unfolding percent_encode contains_byte
crates-Escapes set c [] h k = refl
crates-Escapes set c (b ∷ text) h k =
    let rest = crates-Escapes set c text h k in
    elim (Bool-cases (set b || leb 128 b)) [
      | inl e ↦
          let first = hex_digit_escape (b / 16) c k in
          let second = hex_digit_escape b c k in
          let sign : (b'%' == c) ≡ false = ground arith in rw (e, sign, first, second) rest
      | inr e ↦
          let other : (b == c) ≡ false = differs set b c h (ground arith) in rw (e, other) rest
    ]

length-raised : (bytes : List ℕ) → length (map (λ (b : ℕ). b + 64) bytes) ≡ length bytes
length-raised [] = refl
length-raised (b ∷ bytes) = ap suc (length-raised bytes)

lowered : (bytes : List ℕ) → map (λ (b : ℕ). b - 64) (map (λ (b : ℕ). b + 64) bytes) ≡ bytes
lowered [] = refl
lowered (b ∷ bytes) = let same : b + 64 - 64 ≡ b = omega arith in rw (same, lowered bytes) refl

pub crates-RoundTrips : RoundTrips crates
crates-RoundTrips bytes h =
    let raised = map (λ b. b + 64) bytes in
    let long : length raised ≡ 32 = length-raised bytes ∙ h in
    (
      ap (λ bs. some (map (λ b. b - 64) bs)) (take-append raised (replicate 20 121) 32 long)
          ∙ ap some (lowered bytes),
      omega (arith, long, length-append raised (replicate 20 121), length-replicate {A = ℕ} 20 121),
    )

-- No byte that is raised is a `#`.
raised_without_hash :
    (bytes : List ℕ)
    → contains_byte b'#' (map (λ (b : ℕ). b + 64) bytes ++ replicate 20 121) ≡ false
unfolding contains_byte replicate
raised_without_hash [] = refl
raised_without_hash (b ∷ bytes) =
    let differs : (b + 64 == b'#') ≡ false = ground arith in rw differs (raised_without_hash bytes)

pub crates-HasNoHash : HasNoHash crates
crates-HasNoHash bytes = raised_without_hash bytes

pub crates-ParsesPaths : ParsesPaths crates
crates-ParsesPaths path uri e =
    ap (λ u. u.path_and_query)
      (some-injective uri
        (record { host = none; path_and_query = some (before_fragment (b'/' ∷ path)) }) (sym e))

percent_encode_visible : (text : List ℕ) → all_visible (percent_encode attr_char text) ≡ true
unfolding percent_encode contains_byte
percent_encode_visible [] = refl
percent_encode_visible (b ∷ text) =
    let rest = percent_encode_visible text in
    elim (Bool-cases (attr_char b || leb 128 b)) [
      | inl e ↦ rw e (ground arith)
      | inr e ↦ rw e (ground arith)
    ]

pub crates-AcceptsText : AcceptsText crates
crates-AcceptsText = record {
  visible_value = λ value h. h;
  visible_escapes = percent_encode_visible;
}
