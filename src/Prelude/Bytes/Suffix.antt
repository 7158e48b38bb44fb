-- ===== src/Prelude/Bytes/Suffix.antt =====
-- What `strip_suffix` finds.
use Prim.Native.Nat.{ℕ}
use mathlib.Core.Path.{◌≡◌, refl, ap}
use mathlib.Core.Logic.{inl, inr}
use mathlib.Core.Bool.{false}
use mathlib.Core.Option.{some}
use mathlib.Core.List.{List, [], ◌∷◌, ◌++◌}
use native.Mathlib.Omega.{arith}
use iroh_content_discovery.Prelude.Tests.{Bool-cases}
use iroh_content_discovery.Prelude.Lists.{length, length-append}
use iroh_content_discovery.Prelude.Bytes.{bytes_eq, bytes_eq_refl, bytes_eq_sound, strip_suffix}

pub strip_suffix_sound :
    (suffix value pre : List ℕ) → strip_suffix suffix value ≡ some pre → value ≡ pre ++ suffix
unfolding strip_suffix
strip_suffix_sound suffix [] pre h = ground (arith, bytes_eq_sound suffix [])
strip_suffix_sound suffix (b ∷ value) [] h = ground (arith, bytes_eq_sound suffix (b ∷ value))
strip_suffix_sound suffix (b ∷ value) (p ∷ pre) h =
    ground (arith, strip_suffix_sound suffix value pre)

pub strip_suffix-append : (c : ℕ) (bs : List ℕ) → strip_suffix (c ∷ []) (bs ++ c ∷ []) ≡ some bs
unfolding strip_suffix bytes_eq
strip_suffix-append c [] = ground arith
strip_suffix-append c (b ∷ []) = ground arith
strip_suffix-append c (b ∷ d ∷ bs) = ground (arith, strip_suffix-append c (d ∷ bs))

bytes_eq_longer : (b : ℕ) (bs suffix : List ℕ) → bytes_eq suffix (b ∷ bs ++ suffix) ≡ false
bytes_eq_longer b bs suffix = elim (Bool-cases (bytes_eq suffix (b ∷ bs ++ suffix))) [
  | inr e ↦ e
  | inl e ↦
      let same : length suffix ≡ length (b ∷ bs ++ suffix) =
        ap length (bytes_eq_sound suffix (b ∷ bs ++ suffix) e) in
      absurd (omega (arith, same, length-append (b ∷ bs) suffix))
]

strip_suffix_all : (suffix : List ℕ) → strip_suffix suffix suffix ≡ some []
unfolding strip_suffix
strip_suffix_all [] = refl
strip_suffix_all (c ∷ suffix) = rw (bytes_eq_refl (c ∷ suffix)) refl

pub strip_suffix-restore : (bs suffix : List ℕ) → strip_suffix suffix (bs ++ suffix) ≡ some bs
unfolding strip_suffix
strip_suffix-restore [] suffix = strip_suffix_all suffix
strip_suffix-restore (b ∷ bs) suffix =
    rw (bytes_eq_longer b bs suffix, strip_suffix-restore bs suffix) refl
