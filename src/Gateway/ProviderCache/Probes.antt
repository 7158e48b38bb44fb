-- ===== src/Gateway/ProviderCache/Probes.antt =====
-- What a passed probe, a failed one and a failed lookup do to what the cache answers.
use iroh_content_discovery.Prelude.{
  ℕ, ◌+◌, ◌≤◌, ◌<◌, ◌≡◌, inl, inr, refl, Bool, true, false, ◌&&◌, none, some, List, [], ◌∷◌, arith,
  leb, take, Option-cases, ◌∙◌,
}
use iroh_content_discovery.Prelude.Maps.{lookup, remove, contains_key, lookup-remove}
use iroh_content_discovery.Prelude.Sort.{sort, insert_sorted}
use iroh_content_discovery.Gateway.Lru.{Lru}
use iroh_content_discovery.Gateway.ProviderCache.{
  Probed, Entry, Miss, provider_ttl, miss_ttl, retain_recent, faster, entry_or, providers_of,
  confirmed_entry, confirm, forget, missing_of, missing_entry, record_missing,
}
use iroh_content_discovery.Gateway.ProviderCache.Recent.{lookup-retain_absent}

module _ {E : Type 0} (dec : Discrete E) where
  contains_key-insert_sorted :
      (k : E) (x : E × Probed) (ps : List (E × Probed))
      → contains_key dec k (insert_sorted faster x ps) ≡ contains_key dec k (x ∷ ps)
  unfolding insert_sorted lookup
  contains_key-insert_sorted k (x, p) [] = refl
  contains_key-insert_sorted k (x, p) ((y, q) ∷ ps) =
      ground (arith, contains_key-insert_sorted k (x, p) ps)

  contains_key-sort :
      (k : E) (ps : List (E × Probed)) → contains_key dec k (sort faster ps) ≡ contains_key dec k ps
  unfolding sort lookup
  contains_key-sort k [] = refl
  contains_key-sort k ((x, p) ∷ ps) =
      contains_key-insert_sorted k (x, p) (sort faster ps) ∙ ground (arith, contains_key-sort k ps)

  -- The latencies do not go down, from some number on.
  abbrev pub fastest_first : ℕ → List (E × Probed) → Bool
  fastest_first lo [] = true
  fastest_first lo ((e, p) ∷ ps) = leb lo p.latency && fastest_first p.latency ps

  fastest_first-insert_sorted :
      (lo : ℕ) (x : E × Probed) (ps : List (E × Probed))
      → fastest_first lo ps ≡ true
      → lo ≤ x.1.latency
      → fastest_first lo (insert_sorted faster x ps) ≡ true
  unfolding insert_sorted
  fastest_first-insert_sorted lo (x, p) [] h le = ground arith
  fastest_first-insert_sorted lo (x, p) ((y, q) ∷ ps) h le =
      ground (arith, fastest_first-insert_sorted q.latency (x, p) ps)

  fastest_first-sort : (ps : List (E × Probed)) → fastest_first 0 (sort faster ps) ≡ true
  unfolding sort
  fastest_first-sort [] = refl
  fastest_first-sort ((x, p) ∷ ps) =
      fastest_first-insert_sorted 0 (x, p) (sort faster ps) (fastest_first-sort ps) (omega arith)

module _ {Hash E : Type 0} (dec : Discrete E) (lru : Lru Hash (Entry E)) (c : lru.Cache)
    (hash : Hash) (e : E) where
  providers_of_present :
      (now : ℕ) (d : lru.Cache) (entry : Entry E)
      → lru.peek hash d ≡ some entry
      → (providers_of dec lru now hash d).1 ≡ sort faster (retain_recent now entry.providers)
  unfolding providers_of
  providers_of_present now d entry h = rw (h, providers_of) refl

  confirmed_entry-contains_key :
      (t now latency : ℕ) (entry : Entry E)
      → t ≤ now
      → now < t + provider_ttl
      → contains_key dec e (retain_recent now (confirmed_entry dec t e latency entry).providers)
        ≡ true
  unfolding confirmed_entry retain_recent take lookup
  confirmed_entry-contains_key t now latency entry le soon = ground arith

  -- An endpoint that passed a probe is among the providers of the hash for five minutes, and the
  -- providers come with the fastest probes first.
  pub confirm-providers :
      (t now latency : ℕ)
      → t ≤ now
      → now < t + provider_ttl
      → let ps = (providers_of dec lru now hash (confirm dec lru t hash e latency c)).1 in
        (contains_key dec e ps ≡ true) × (fastest_first dec 0 ps ≡ true)
  unfolding confirm
  confirm-providers t now latency le soon =
      let entry = confirmed_entry dec t e latency (entry_or (lru.peek hash c)) in
      let kept = retain_recent now entry.providers in
      rw
        (providers_of_present now (confirm dec lru t hash e latency c) entry
          (lru.peek-write hash entry c))
        (
          contains_key-sort dec e kept
              ∙ confirmed_entry-contains_key t now latency (entry_or (lru.peek hash c)) le soon,
          fastest_first-sort dec kept,
        )

  providers_of_absent :
      (now : ℕ) (d : lru.Cache) → lru.peek hash d ≡ none → (providers_of dec lru now hash d).1 ≡ []
  unfolding providers_of
  providers_of_absent now d h = rw (h, providers_of) refl

  removed-contains_key :
      (now : ℕ) (ps : List (E × Probed))
      → contains_key dec e (retain_recent now (remove dec e ps)) ≡ false
  removed-contains_key now ps = ground (
    arith,
    lookup-retain_absent dec e now (remove dec e ps) (ground (arith, lookup-remove dec e e ps)),
  )

  -- An endpoint that failed a probe is not among the providers of the hash until it passes one.
  pub forget-providers :
      (now : ℕ)
      → contains_key dec e (providers_of dec lru now hash (forget dec lru hash e c)).1 ≡ false
  unfolding forget lookup
  forget-providers now = elim (Option-cases (lru.peek hash c)) [
    | inl h ↦ rw (h, forget) (rw (providers_of_absent now c h) refl)
    | inr (entry, h) ↦
        rw (h, forget)
          (rw
            (providers_of_present now
              (lru.write hash (record entry { providers = remove dec e entry.providers }) c)
              (record entry { providers = remove dec e entry.providers }) (lru.peek-write hash _ c))
            (contains_key-sort dec e (retain_recent now (remove dec e entry.providers))
              ∙ removed-contains_key now entry.providers))
  ]

  missing_of_present :
      (now : ℕ) (d : lru.Cache) (entry : Entry E)
      → lru.peek hash d ≡ some entry
      → (missing_of dec lru now hash d).1 ≡ (missing_entry now entry).1
  unfolding missing_of
  missing_of_present now d entry h = rw (h, missing_of) refl

  -- A failed lookup is remembered for five seconds, and a passed probe makes the cache forget it.
  pub record_missing-missing :
      (t now latency : ℕ) (miss : Miss)
      → t ≤ now
      → now < t + miss_ttl
      → ((missing_of dec lru now hash (record_missing dec lru t hash miss c)).1 ≡ some miss)
        × ((missing_of dec lru now hash
              (confirm dec lru t hash e latency (record_missing dec lru t hash miss c))).1
            ≡ none)
  unfolding record_missing confirm confirmed_entry
  record_missing-missing t now latency miss le soon =
      let entry : Entry E = record (entry_or (lru.peek hash c)) { missing = some (miss, t) } in
      let noted = lru.write hash entry c in
      let passed = confirmed_entry dec t e latency (entry_or (lru.peek hash noted)) in
      (
        missing_of_present now noted entry (lru.peek-write hash entry c) ∙ ground arith,
        missing_of_present now (lru.write hash passed noted) passed
              (lru.peek-write hash passed noted)
            ∙ refl,
      )
