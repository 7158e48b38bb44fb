-- ===== src/Gateway/Lru.antt =====
-- What the gateway relies on of `LruCache` of the lru crate: a write through `get_or_insert_mut`,
-- through `get_mut` or by `put` is read back, and it may drop other keys only when its own is new. `pop` removes a key.
use iroh_content_discovery.Prelude.{◌≡◌, ◌⊎◌, Option, none, some}

pub record Lru (K V : Type 0) : Type 1 where
  pub Cache : Type 0
  pub empty : Cache
  pub peek : K → Cache → Option V
  pub write : K → V → Cache → Cache
  pub pop : K → Cache → Cache
  pub peek-empty : (k : K) → peek k empty ≡ none
  pub peek-write : (k : K) (v : V) (c : Cache) → peek k (write k v c) ≡ some v
  pub peek-write_other :
      (k j : K) (v : V) (c : Cache)
      → ¬ (k ≡ j)
      → (peek j (write k v c) ≡ peek j c) ⊎ (peek j (write k v c) ≡ none)
  pub peek-write_present :
      (k j : K) (u v : V) (c : Cache)
      → peek k c ≡ some u
      → ¬ (k ≡ j)
      → peek j (write k v c) ≡ peek j c
  pub peek-pop : (k : K) (c : Cache) → peek k (pop k c) ≡ none
  pub peek-pop_other : (k j : K) (c : Cache) → ¬ (k ≡ j) → peek j (pop k c) ≡ peek j c
