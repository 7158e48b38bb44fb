-- ===== src/Prelude/Bytes.antt =====
-- Texts as lists of their bytes, with the operations of `str` on them.

pub mod Suffix
pub mod Order
use Prim.Native.Nat.{ℕ, zero, suc, ◌+◌, ◌*◌, ◌/◌, ◌%◌, ◌^◌, ◌<◌}
use Prim.Native.Char.{code}
use Prim.Native.String.{String}
use mathlib.Core.Path.{◌≡◌, refl}
use mathlib.Core.Bool.{Bool, true, false, ◌&&◌, ◌||◌}
use mathlib.Core.Option.{Option, none, some}
use mathlib.Core.List.{List, [], ◌∷◌, ◌++◌}
use native.Mathlib.Omega.{arith}
use iroh_content_discovery.Prelude.Tests.{ltb, leb, ◌==◌, if◌then◌else◌}

-- The bytes of an ASCII text.
abbrev pub codes : String → List ℕ
codes String.[] = []
codes (String.◌∷◌ c s) = code c ∷ codes s

unfoldable pub bytes_eq : List ℕ → List ℕ → Bool
bytes_eq [] [] = true
bytes_eq [] (b ∷ bs) = false
bytes_eq (a ∷ bs) [] = false
bytes_eq (a ∷ bs) (c ∷ cs) = (a == c) && bytes_eq bs cs

-- The order of byte strings.
unfoldable pub bytes_ltb : List ℕ → List ℕ → Bool
bytes_ltb [] [] = false
bytes_ltb [] (b ∷ bs) = true
bytes_ltb (a ∷ bs) [] = false
bytes_ltb (a ∷ bs) (c ∷ cs) = ltb a c || (a == c && bytes_ltb bs cs)

-- `split_once`: what stands before and after the first `c`.
unfoldable pub split_once : ℕ → List ℕ → Option (List ℕ × List ℕ)
split_once c [] = none
split_once c (b ∷ bs) =
    let rest = split_once c bs in
    if b == c
    then some ([], bs)
    else elim rest [ none ↦ none | some (pre, post) ↦ some (b ∷ pre, post) ]

-- `split(',')`: always at least one part.
unfoldable pub split : ℕ → List ℕ → List (List ℕ)
split c [] = [] ∷ []
split c (b ∷ bs) =
    let rest = split c bs in
    if b == c
    then [] ∷ rest
    else elim rest [ [] ↦ (b ∷ []) ∷ [] | part ∷ parts ↦ (b ∷ part) ∷ parts ]

abbrev is_space : ℕ → Bool
is_space b = (leb 9 b && leb b 13) || b == 32

trim_start : List ℕ → List ℕ
trim_start [] = []
trim_start (b ∷ bs) = let rest = trim_start bs in if is_space b then rest else b ∷ bs

trim_end : List ℕ → List ℕ
trim_end [] = []
trim_end (b ∷ bs) = elim (trim_end bs) [
  | [] ↦ if is_space b then [] else b ∷ []
  | c ∷ cs ↦ b ∷ c ∷ cs
]

unfoldable pub trim : List ℕ → List ℕ
unfolding trim_start trim_end
trim bs = trim_end (trim_start bs)

unfoldable pub strip_prefix : List ℕ → List ℕ → Option (List ℕ)
strip_prefix [] value = some value
strip_prefix (c ∷ cs) [] = none
strip_prefix (c ∷ cs) (b ∷ bs) = let rest = strip_prefix cs bs in if c == b then rest else none

unfoldable pub starts_with : List ℕ → List ℕ → Bool
starts_with [] value = true
starts_with (c ∷ cs) [] = false
starts_with (c ∷ cs) (b ∷ bs) = (c == b) && starts_with cs bs

-- `strip_suffix`, from the end of the value.
unfoldable pub strip_suffix : List ℕ → List ℕ → Option (List ℕ)
unfolding bytes_eq
strip_suffix suffix [] = if bytes_eq suffix [] then some [] else none
strip_suffix suffix (b ∷ bs) =
    let rest = strip_suffix suffix bs in
    if bytes_eq suffix (b ∷ bs)
    then some []
    else elim rest [ none ↦ none | some pre ↦ some (b ∷ pre) ]

abbrev pub ends_with : List ℕ → List ℕ → Bool
ends_with suffix value = elim (strip_suffix suffix value) [ none ↦ false | some _ ↦ true ]

-- `rsplit_once`: what stands before and after the last `c`.
unfoldable pub rsplit_once : ℕ → List ℕ → Option (List ℕ × List ℕ)
rsplit_once c [] = none
rsplit_once c (b ∷ bs) = elim (rsplit_once c bs) [
  | none ↦ if b == c then some ([], bs) else none
  | some (pre, post) ↦ some (b ∷ pre, post)
]

unfoldable pub contains_byte : ℕ → List ℕ → Bool
contains_byte c [] = false
contains_byte c (b ∷ bs) = b == c || contains_byte c bs

-- `Vec::join` by one byte.
unfoldable pub join : ℕ → List (List ℕ) → List ℕ
join c [] = []
join c (part ∷ []) = part
join c (part ∷ q ∷ parts) = part ++ c ∷ join c (q ∷ parts)

abbrev pub lowercase_byte : ℕ → ℕ
lowercase_byte b = if leb b'A' b && leb b b'Z' then b + 32 else b

unfoldable pub to_ascii_lowercase : List ℕ → List ℕ
to_ascii_lowercase [] = []
to_ascii_lowercase (b ∷ bs) = lowercase_byte b ∷ to_ascii_lowercase bs

-- The texts are the same but for the case of ASCII letters.
abbrev pub eq_ignore_ascii_case : List ℕ → List ℕ → Bool
eq_ignore_ascii_case a b = bytes_eq (to_ascii_lowercase a) (to_ascii_lowercase b)

-- `to_be_bytes` of an integer of `k` bytes.
unfoldable pub to_be_bytes : ℕ → ℕ → List ℕ
to_be_bytes zero n = []
to_be_bytes (suc k) n = (n / 256 ^ k) % 256 ∷ to_be_bytes k n

-- `from_be_bytes`, onto the number that comes before.
unfoldable pub from_be_onto : ℕ → List ℕ → ℕ
from_be_onto n [] = n
from_be_onto n (b ∷ bs) = from_be_onto (n * 256 + b) bs

pub from_be_onto-to_be_bytes : (n : ℕ) → n < 2 ^ 64 → from_be_onto 0 (to_be_bytes 8 n) ≡ n
unfolding from_be_onto to_be_bytes
from_be_onto-to_be_bytes n h = omega arith

pub bytes_eq_refl : (a : List ℕ) → bytes_eq a a ≡ true
unfolding bytes_eq
bytes_eq_refl [] = refl
bytes_eq_refl (x ∷ xs) = ground (arith, bytes_eq_refl xs)

pub bytes_eq_sound : (a b : List ℕ) → bytes_eq a b ≡ true → a ≡ b
unfolding bytes_eq
bytes_eq_sound [] [] h = refl
bytes_eq_sound [] (y ∷ ys) h = cc
bytes_eq_sound (x ∷ xs) [] h = cc
bytes_eq_sound (x ∷ xs) (y ∷ ys) h = ground (arith, bytes_eq_sound xs ys)

pub strip_prefix-append : (p bs : List ℕ) → strip_prefix p (p ++ bs) ≡ some bs
unfolding strip_prefix
strip_prefix-append [] bs = refl
strip_prefix-append (c ∷ p) bs = ground (arith, strip_prefix-append p bs)

pub strip_prefix_sound : (p value bs : List ℕ) → strip_prefix p value ≡ some bs → value ≡ p ++ bs
unfolding strip_prefix
strip_prefix_sound [] value bs h = ground arith
strip_prefix_sound (c ∷ p) [] bs h = cc
strip_prefix_sound (c ∷ p) (b ∷ value) bs h = ground (arith, strip_prefix_sound p value bs)

pub starts_with-append : (p bs : List ℕ) → starts_with p (p ++ bs) ≡ true
unfolding starts_with
starts_with-append [] bs = refl
starts_with-append (c ∷ p) bs = ground (arith, starts_with-append p bs)

pub starts_with_strip :
    (p value : List ℕ)
    → starts_with p value
      ≡ elim (strip_prefix p value) as (λ _. Bool) [ none ↦ false | some _ ↦ true ]
unfolding starts_with strip_prefix
starts_with_strip [] value = refl
starts_with_strip (c ∷ p) [] = refl
starts_with_strip (c ∷ p) (b ∷ value) = ground (arith, starts_with_strip p value)

-- What stands before the first `c` has none, and the parts make up the text.
pub split_once_sound :
    (c : ℕ) (value pre post : List ℕ)
    → split_once c value ≡ some (pre, post)
    → (value ≡ pre ++ c ∷ post) × (contains_byte c pre ≡ false)
unfolding split_once contains_byte
split_once_sound c [] pre post h = absurd cc
split_once_sound c (b ∷ bs) [] post h = ground arith
split_once_sound c (b ∷ bs) (p ∷ pre) post h = ground (arith, split_once_sound c bs pre post)

pub split_once_lacks :
    (c : ℕ) (value : List ℕ) → split_once c value ≡ none → contains_byte c value ≡ false
unfolding split_once contains_byte
split_once_lacks c [] h = refl
split_once_lacks c (b ∷ bs) h = ground (arith, split_once_lacks c bs)

pub split_once-append :
    (c : ℕ) (pre post : List ℕ)
    → contains_byte c pre ≡ false
    → split_once c (pre ++ c ∷ post) ≡ some (pre, post)
unfolding split_once contains_byte
split_once-append c [] post h = ground arith
split_once-append c (b ∷ pre) post h = ground (arith, split_once-append c pre post)

pub split_once-absent :
    (c : ℕ) (value : List ℕ) → contains_byte c value ≡ false → split_once c value ≡ none
unfolding split_once contains_byte
split_once-absent c [] h = refl
split_once-absent c (b ∷ bs) h = ground (arith, split_once-absent c bs)

pub contains_byte-append :
    (c : ℕ) (a b : List ℕ) → contains_byte c (a ++ b) ≡ (contains_byte c a || contains_byte c b)
unfolding contains_byte
contains_byte-append c [] b = refl
contains_byte-append c (x ∷ a) b = ground (arith, contains_byte-append c a b)

-- How often a byte stands in a text.
abbrev pub count_byte : ℕ → List ℕ → ℕ
count_byte c [] = 0
count_byte c (b ∷ bs) = (if b == c then 1 else 0) + count_byte c bs

pub count_byte-append :
    (c : ℕ) (a b : List ℕ) → count_byte c (a ++ b) ≡ count_byte c a + count_byte c b
count_byte-append c [] b = omega arith
count_byte-append c (x ∷ a) b = omega (arith, count_byte-append c a b)

pub count_byte_absent : (c : ℕ) (a : List ℕ) → contains_byte c a ≡ false → count_byte c a ≡ 0
unfolding contains_byte
count_byte_absent c [] h = refl
count_byte_absent c (x ∷ a) h = ground (arith, count_byte_absent c a)
