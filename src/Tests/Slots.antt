-- ===== src/Tests/Slots.antt =====
-- An LRU cache that is a map which keeps every key.
use iroh_content_discovery.Prelude.{◌≡◌, inl, refl, none, some, List, [], arith}
use iroh_content_discovery.Prelude.Maps.{lookup, insert, remove, lookup-insert, lookup-remove}
use iroh_content_discovery.Gateway.Lru.{Lru}

module _ {K V : Type 0} (dec : Discrete K) where
  pub lookup_empty : (k : K) → lookup {K = K} {V = V} dec k [] ≡ none
  unfolding lookup
  lookup_empty k = refl

  pub written : (k : K) (v : V) (m : List (K × V)) → lookup dec k (insert dec k v m) ≡ some v
  written k v m = ground (arith, lookup-insert dec k k v m)

  pub kept :
      (k j : K) (v : V) (m : List (K × V))
      → ¬ (k ≡ j)
      → lookup dec j (insert dec k v m) ≡ lookup dec j m
  kept k j v m other = ground (arith, lookup-insert dec k j v m)

  pub removed : (k : K) (m : List (K × V)) → lookup dec k (remove dec k m) ≡ none
  removed k m = ground (arith, lookup-remove dec k k m)

  pub left :
      (k j : K) (m : List (K × V)) → ¬ (k ≡ j) → lookup dec j (remove dec k m) ≡ lookup dec j m
  left k j m other = ground (arith, lookup-remove dec k j m)

  abbrev pub slots_of : Lru K V
  slots_of = record {
    Cache = List (K × V);
    empty = [];
    peek = λ k m. lookup dec k m;
    write = λ k v m. insert dec k v m;
    pop = λ k m. remove dec k m;
    peek-empty = lookup_empty;
    peek-write = written;
    peek-write_other = λ k j v m other. inl (kept k j v m other);
    peek-write_present = λ k j u v m h other. kept k j v m other;
    peek-pop = removed;
    peek-pop_other = left;
  }
