-- ===== src/Prelude/Maps.antt =====
-- Maps as association lists over keys with a decidable equality. `remove` drops every entry of the
-- key and `insert` puts the new entry in front, so the laws of `lookup` need no side condition.
-- `count p` is the number of entries whose key passes `p`; the size is the count of all keys.
use Prim.Native.Nat.{ℕ, ◌+◌}
use mathlib.Core.Path.{◌≡◌, refl}
use mathlib.Core.Logic.{ite}
use mathlib.Core.Bool.{Bool, true, false, ◌&&◌}
use mathlib.Core.Option.{Option, none, some}
use mathlib.Core.List.{List, [], ◌∷◌}
use native.Mathlib.Omega.{arith}
use iroh_content_discovery.Prelude.Tests.{if◌then◌else◌}

module _ {ℓ κ} {K : Type ℓ} {V : Type κ} where
  abbrev pub count : (K → Bool) → List (K × V) → ℕ
  count p [] = 0
  count p ((k, v) ∷ m) = (if p k then 1 else 0) + count p m

  -- The sum of a weight over the entries.
  abbrev pub sum : (V → ℕ) → List (K × V) → ℕ
  sum w [] = 0
  sum w ((k, v) ∷ m) = w v + sum w m

  -- A test that the values of all entries pass.
  abbrev pub every : (V → Bool) → List (K × V) → Bool
  every p [] = true
  every p ((k, v) ∷ m) = p v && every p m

module _ {ℓ} {K V : Type ℓ} (dec : Discrete K) where
  unfoldable pub lookup : K → List (K × V) → Option V
  lookup k [] = none
  lookup k ((j, v) ∷ m) = ite (dec j k) (some v) (lookup k m)

  unfoldable pub remove : K → List (K × V) → List (K × V)
  remove k [] = []
  remove k ((j, v) ∷ m) = let rest = remove k m in ite (dec j k) rest ((j, v) ∷ rest)

  abbrev pub insert : K → V → List (K × V) → List (K × V)
  insert k v m = (k, v) ∷ remove k m

  abbrev pub contains_key : K → List (K × V) → Bool
  contains_key k m = elim (lookup k m) [ none ↦ false | some _ ↦ true ]

  -- No key has two entries.
  abbrev pub Distinct : List (K × V) → Type ℓ
  Distinct [] = Unit
  Distinct ((k, v) ∷ m) = (lookup k m ≡ none) × Distinct m

  pub lookup-remove :
      (k j : K) (m : List (K × V)) → lookup j (remove k m) ≡ ite (dec k j) none (lookup j m)
  unfolding lookup remove
  lookup-remove k j [] = ground arith
  lookup-remove k j ((i, v) ∷ m) = ground (arith, lookup-remove k j m)

  pub lookup-insert :
      (k j : K) (v : V) (m : List (K × V))
      → lookup j (insert k v m) ≡ ite (dec k j) (some v) (lookup j m)
  unfolding lookup
  lookup-insert k j v m = ground (arith, lookup-remove k j m)

  pub remove-Distinct : (k : K) (m : List (K × V)) → Distinct m → Distinct (remove k m)
  unfolding remove
  remove-Distinct k [] d = tt
  remove-Distinct k ((i, v) ∷ m) d = ground (arith, remove-Distinct k m d.1, lookup-remove k i m)

  pub insert-Distinct : (k : K) (v : V) (m : List (K × V)) → Distinct m → Distinct (insert k v m)
  insert-Distinct k v m d = (ground (arith, lookup-remove k k m), remove-Distinct k m d)

  pub remove_absent : (k : K) (m : List (K × V)) → lookup k m ≡ none → remove k m ≡ m
  unfolding lookup remove
  remove_absent k [] _ = refl
  remove_absent k ((i, v) ∷ m) h = ground (arith, remove_absent k m)

  -- Removing a present key takes one entry away, counted if the key passes.
  pub count-remove :
      (p : K → Bool) (k : K) (m : List (K × V)) (v : V)
      → Distinct m
      → lookup k m ≡ some v
      → count p (remove k m) + (if p k then 1 else 0) ≡ count p m
  unfolding lookup remove
  count-remove p k [] v d h = cc
  count-remove p k ((i, w) ∷ m) v d h = elim (dec i k) [
    | yes e ↦ ground (arith, remove_absent i m d.0)
    | no e ↦ ground (arith, count-remove p k m v d.1)
  ]

  pub sum-remove :
      (w : V → ℕ) (k : K) (m : List (K × V)) (v : V)
      → Distinct m
      → lookup k m ≡ some v
      → sum w (remove k m) + w v ≡ sum w m
  unfolding lookup remove
  sum-remove w k [] v d h = cc
  sum-remove w k ((i, u) ∷ m) v d h = elim (dec i k) [
    | yes e ↦ ground (arith, remove_absent i m d.0)
    | no e ↦ ground (arith, sum-remove w k m v d.1)
  ]

  pub lookup-insert_same : (k : K) (v : V) (m : List (K × V)) → lookup k (insert k v m) ≡ some v
  lookup-insert_same k v m = ground (arith, lookup-insert k k v m)

  pub remove-insert : (k : K) (v : V) (m : List (K × V)) → remove k (insert k v m) ≡ remove k m
  unfolding remove
  remove-insert k v m = ground (arith, remove_absent k (remove k m), lookup-remove k k m)

  pub every-remove :
      (p : V → Bool) (k : K) (m : List (K × V)) → every p m ≡ true → every p (remove k m) ≡ true
  unfolding remove
  every-remove p k [] h = refl
  every-remove p k ((j, v) ∷ m) h = ground (arith, every-remove p k m)

  pub every-lookup :
      (p : V → Bool) (k : K) (m : List (K × V)) (v : V)
      → every p m ≡ true
      → lookup k m ≡ some v
      → p v ≡ true
  unfolding lookup
  every-lookup p k [] v h e = cc
  every-lookup p k ((j, u) ∷ m) v h e = ground (arith, every-lookup p k m v)

  unfoldable pub remove_all : List K → List (K × V) → List (K × V)
  remove_all [] m = m
  remove_all (k ∷ ks) m = remove_all ks (remove k m)

  -- An entry that passes does no harm, whether or not its key is removed.
  pub every-remove_all :
      (p : V → Bool) (k : K) (v : V) (ks : List K) (m : List (K × V))
      → p v ≡ true
      → every p (remove_all ks m) ≡ true
      → every p (remove_all ks ((k, v) ∷ m)) ≡ true
  unfolding remove_all remove
  every-remove_all p k v [] m good h = ground arith
  every-remove_all p k v (j ∷ ks) m good h =
      ground (arith, every-remove_all p k v ks (remove j m) good)
