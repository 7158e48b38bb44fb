-- ===== src/Gateway/Hints.antt =====
-- iroh-link-gateway/src/hints.rs: the providers that links name for a hash, over an LRU cache. Times
-- are in milliseconds.

pub mod Live
use iroh_content_discovery.Prelude.{
  ℕ, ◌+◌, ◌-◌, ◌*◌, Bool, true, false, ◌&&◌, ◌||◌, not, Option, none, some, List, [], ◌∷◌, ◌++◌,
  Result, ok, err, ltb, leb, ◌==◌, length, take, if◌then◌else◌,
}
use iroh_content_discovery.Prelude.Bytes.{codes, bytes_eq, split, split_once}
use iroh_content_discovery.Prelude.Sets.{contains}
use iroh_content_discovery.Gateway.Lru.{Lru}
use iroh_content_discovery.Gateway.Http.{Crates, HttpError, bad_request}
use iroh_content_discovery.Gateway.Urls.{parse_z32_bytes}

abbrev pub max_per_url : ℕ
max_per_url = 4

abbrev pub max_per_hash : ℕ
max_per_hash = 8

abbrev pub hint_ttl : ℕ
hint_ttl = 600000

module _ {P : Type 0} (dec : Discrete P) where
  -- A provider, and when it was last named or served the hash.
  abbrev pub Hint : Type 0
  Hint = P × ℕ

  unfoldable pub without : List P → List Hint → List Hint
  unfolding contains
  without providers [] = []
  without providers ((p, at) ∷ known) =
      let rest = without providers known in
      if contains dec providers p then rest else (p, at) ∷ rest

  unfoldable pub named_at : List P → ℕ → List Hint → List Hint
  named_at [] now known = known
  named_at (p ∷ providers) now known = (p, now) ∷ named_at providers now known

  -- The hints of a hash after `Hints::add`.
  unfoldable pub added : List P → ℕ → List Hint → List Hint
  unfolding without named_at take
  added providers now known = take max_per_hash (named_at providers now (without providers known))

  -- The first hint of a provider is renewed.
  unfoldable pub renewed : P → ℕ → List Hint → List Hint
  renewed provider now [] = []
  renewed provider now ((p, at) ∷ known) = elim (dec p provider) [
    | yes e ↦ (p, now) ∷ known
    | no e ↦ (p, at) ∷ renewed provider now known
  ]

  unfoldable pub unexpired : ℕ → List Hint → List Hint
  unexpired now [] = []
  unexpired now ((p, at) ∷ known) =
      let rest = unexpired now known in if ltb (now - at) hint_ttl then (p, at) ∷ rest else rest

  unfoldable pub providers_in : List Hint → List P
  providers_in [] = []
  providers_in ((p, at) ∷ known) = p ∷ providers_in known

  module _ {H : Type 0} (lru : Lru H (List Hint)) where
    known_or : Option (List Hint) → List Hint
    known_or none = []
    known_or (some known) = known

    -- `Hints::add`.
    unfoldable pub add_hints : lru.Cache → H → List P → ℕ → lru.Cache
    unfolding added known_or
    add_hints cache hash providers now =
        lru.write hash (added providers now (known_or (lru.peek hash cache))) cache

    renewed_in : lru.Cache → H → P → ℕ → Option (List Hint) → lru.Cache
    unfolding renewed
    renewed_in cache hash provider now none = cache
    renewed_in cache hash provider now (some known) =
        lru.write hash (renewed provider now known) cache

    -- `Hints::confirm`.
    unfoldable pub confirm_hint : lru.Cache → H → P → ℕ → lru.Cache
    unfolding renewed_in
    confirm_hint cache hash provider now = renewed_in cache hash provider now (lru.peek hash cache)

    retained : lru.Cache → H → List Hint → lru.Cache
    retained cache hash [] = lru.pop hash cache
    retained cache hash (hint ∷ known) = lru.write hash (hint ∷ known) cache

    live_of : lru.Cache → H → ℕ → Option (List Hint) → lru.Cache × List P
    unfolding retained unexpired providers_in
    live_of cache hash now none = (cache, [])
    live_of cache hash now (some known) =
        (retained cache hash (unexpired now known), providers_in (unexpired now known))

    -- `Hints::get`.
    unfoldable pub get_hints : lru.Cache → H → ℕ → lru.Cache × List P
    unfolding live_of
    get_hints cache hash now = live_of cache hash now (lru.peek hash cache)

  -- `EndpointId::from_bytes` and `EndpointId::from_str`.
  module _ (lib : Crates) (from_bytes from_str : List ℕ → Option P) where
    provider_of : List ℕ → Option (List ℕ) → Option P
    provider_of value none = from_str value
    provider_of value (some bytes) = from_bytes bytes

    unfoldable pub parse_provider : List ℕ → Option P
    unfolding provider_of
    parse_provider value = provider_of value (parse_z32_bytes lib value)

    -- The value of a pair of the query, if it is of the parameter.
    value_of : List ℕ → Option (List ℕ × List ℕ) → Option (List ℕ)
    unfolding bytes_eq
    value_of pair none = if bytes_eq pair (codes "provider") then some [] else none
    value_of pair (some (name, value)) =
        if bytes_eq name (codes "provider")
        then some value
        else (if bytes_eq pair (codes "provider") then some [] else none)

    with_provider : List P → Option P → Result HttpError (List P)
    unfolding contains
    with_provider providers none = err bad_request
    with_provider providers (some p) =
        ok (if contains dec providers p then providers else providers ++ p ∷ [])

    with_pair : List P → Option (List ℕ) → Result HttpError (List P)
    unfolding with_provider parse_provider
    with_pair providers none = ok providers
    with_pair providers (some value) = with_provider providers (parse_provider value)

    -- The loop of `parse_query`.
    pairs_onto : Result HttpError (List P) → List (List ℕ) → Result HttpError (List P)
    unfolding with_pair value_of split_once
    pairs_onto (err e) pairs = err e
    pairs_onto (ok providers) [] =
        if ltb max_per_url (length providers) then err bad_request else ok providers
    pairs_onto (ok providers) (pair ∷ pairs) =
        pairs_onto (with_pair providers (value_of pair (split_once b'=' pair))) pairs

    unfoldable pub parse_query : Option (List ℕ) → Result HttpError (List P)
    unfolding pairs_onto split
    parse_query none = ok []
    parse_query (some query) = pairs_onto (ok []) (split b'&' query)

    module _ {H : Type 0} (lru : Lru H (List Hint)) where
      added_from : lru.Cache → H → ℕ → Result HttpError (List P) → Result HttpError lru.Cache
      unfolding add_hints
      added_from cache hash now (err e) = err e
      added_from cache hash now (ok []) = ok cache
      added_from cache hash now (ok (p ∷ providers)) =
          ok (add_hints lru cache hash (p ∷ providers) now)

      -- `Hints::add_from_query`.
      unfoldable pub add_from_query :
          lru.Cache → H → ℕ → Option (List ℕ) → Result HttpError lru.Cache
      unfolding added_from parse_query
      add_from_query cache hash now query = added_from cache hash now (parse_query query)
