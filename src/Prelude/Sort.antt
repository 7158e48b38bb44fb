-- ===== src/Prelude/Sort.antt =====
-- `sort` of the standard library, by insertion, over a Boolean order.
use mathlib.Core.Path.{◌≡◌, refl}
use mathlib.Core.Bool.{Bool}
use mathlib.Core.Logic.{inl, inr}
use mathlib.Core.List.{List, [], ◌∷◌}
use native.Mathlib.Omega.{arith}
use iroh_content_discovery.Prelude.Tests.{if◌then◌else◌, Bool-cases}
use iroh_content_discovery.Prelude.Sets.{contains}

module _ {ℓ} {A : Type ℓ} (lt : A → A → Bool) where
  -- `x` goes before the elements that are not below it, so equal elements keep their order.
  unfoldable pub insert_sorted : A → List A → List A
  insert_sorted x [] = x ∷ []
  insert_sorted x (y ∷ ys) =
      let rest = insert_sorted x ys in if lt y x then y ∷ rest else x ∷ y ∷ ys

  unfoldable pub sort : List A → List A
  unfolding insert_sorted
  sort [] = []
  sort (x ∷ xs) = insert_sorted x (sort xs)

  module _ (dec : Discrete A) where
    contains-insert_sorted :
        (x b : A) (xs : List A) → contains dec (insert_sorted x xs) b ≡ contains dec (x ∷ xs) b
    unfolding insert_sorted contains
    contains-insert_sorted x b [] = refl
    contains-insert_sorted x b (y ∷ ys) = elim (Bool-cases (lt y x)) [
      | inl e ↦ rw e (ground (arith, contains-insert_sorted x b ys))
      | inr e ↦ rw e
    ]

    -- Sorting keeps the elements.
    pub contains-sort : (b : A) (xs : List A) → contains dec (sort xs) b ≡ contains dec xs b
    unfolding sort contains
    contains-sort b [] = refl
    contains-sort b (x ∷ xs) =
        ground (arith, contains-insert_sorted x b (sort xs), contains-sort b xs)
