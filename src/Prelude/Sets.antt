-- ===== src/Prelude/Sets.antt =====
-- Sets as lists without repetition, over elements with a decidable equality.
use mathlib.Core.Path.{◌≡◌}
use mathlib.Core.Logic.{ite}
use mathlib.Core.Bool.{Bool, true, false}
use mathlib.Core.List.{List, [], ◌∷◌}
use native.Mathlib.Omega.{arith}

module _ {ℓ} {A : Type ℓ} (dec : Discrete A) where
  unfoldable pub contains : List A → A → Bool
  contains [] a = false
  contains (x ∷ xs) a = elim (dec x a) [ yes _ ↦ true | no _ ↦ contains xs a ]

  unfoldable pub discard : A → List A → List A
  discard a [] = []
  discard a (x ∷ xs) = let rest = discard a xs in ite (dec x a) rest (x ∷ rest)

  -- `HashSet::insert`: an element that is there stays.
  unfoldable pub insert : A → List A → List A
  unfolding contains
  insert a xs = elim (contains xs a) [ true ↦ xs | false ↦ a ∷ xs ]

  pub contains-discard :
      (a b : A) (xs : List A)
      → contains (discard a xs) b ≡ elim (dec a b) [ yes _ ↦ false | no _ ↦ contains xs b ]
  unfolding contains discard
  contains-discard a b [] = ground arith
  contains-discard a b (x ∷ xs) = ground (arith, contains-discard a b xs)

  pub contains-insert :
      (a b : A) (xs : List A)
      → contains (insert a xs) b ≡ elim (dec a b) [ yes _ ↦ true | no _ ↦ contains xs b ]
  unfolding contains insert
  contains-insert a b xs = ground arith
