-- ===== src/Gateway/ProviderCache/Calls.antt =====
-- The calls on the cache, in any order: its invariant, and what a passed probe gives.
use iroh_content_discovery.Prelude.{
  ℕ, ◌≤◌, ◌≡◌, inl, inr, true, some, arith, length, Option-cases, sym, subst, ◌∙◌,
}
use iroh_content_discovery.Prelude.Maps.{Distinct}
use iroh_content_discovery.Gateway.Lru.{Lru}
use iroh_content_discovery.Gateway.ProviderCache.{
  Entry, Miss, max_providers, entry_or, providers_of, confirm, forget, missing_of, missing_entry,
  record_missing,
}
use iroh_content_discovery.Gateway.ProviderCache.Recent.{
  newest_first, IsEntry, later-IsEntry, retain-IsEntry, remove-IsEntry, confirmed-IsEntry,
  missing-IsEntry, no_entry-IsEntry,
}

pub data Call (Hash EndpointId : Type 0) : Type 0 where
  get_providers : Hash → Call Hash EndpointId
  passed : Hash → EndpointId → (latency : ℕ) → Call Hash EndpointId
  failed : Hash → EndpointId → Call Hash EndpointId
  get_missing : Hash → Call Hash EndpointId
  nobody : Hash → Miss → Call Hash EndpointId

some_injective : {A : Type 0} {a b : A} → some a ≡ some b → a ≡ b
some_injective e = cc

module _ {Hash EndpointId : Type 0} (hash_dec : Discrete Hash) (dec : Discrete EndpointId)
    (lru : Lru Hash (Entry EndpointId)) where
  unfoldable pub call : ℕ → Call Hash EndpointId → lru.Cache → lru.Cache
  unfolding providers_of confirm forget missing_of record_missing
  call now (get_providers hash) c = (providers_of dec lru now hash c).0
  call now (passed hash provider latency) c = confirm dec lru now hash provider latency c
  call now (failed hash provider) c = forget dec lru hash provider c
  call now (get_missing hash) c = (missing_of dec lru now hash c).0
  call now (nobody hash miss) c = record_missing dec lru now hash miss c

  -- Every entry of the cache is one.
  abbrev pub IsCache : ℕ → lru.Cache → Type 0
  IsCache t c = (hash : Hash) (e : Entry EndpointId) → lru.peek hash c ≡ some e → IsEntry dec t e

  write-IsCache :
      (t : ℕ) (c : lru.Cache) (hash : Hash) (e : Entry EndpointId)
      → IsCache t c
      → IsEntry dec t e
      → IsCache t (lru.write hash e c)
  write-IsCache t c hash e h he j f q = elim (hash_dec hash j) [
    | yes same ↦
        subst (IsEntry dec t)
          (some_injective (
            sym
              (subst (λ x. lru.peek x (lru.write hash e c) ≡ some e) same (lru.peek-write hash e c))
            ∙ q))
          he
    | no other ↦ elim (lru.peek-write_other hash j e c other) [
      | inl kept ↦ h j f (sym kept ∙ q)
      | inr dropped ↦ absurd cc
    ]
  ]

  entry_or-IsEntry :
      (t : ℕ) (c : lru.Cache) (hash : Hash)
      → IsCache t c
      → IsEntry dec t (entry_or (lru.peek hash c))
  entry_or-IsEntry t c hash h = elim (Option-cases (lru.peek hash c)) [
    | inl e ↦ rw e (no_entry-IsEntry dec t)
    | inr (entry, e) ↦ rw e (h hash entry e)
  ]

  missing_entry_providers :
      (now : ℕ) (entry : Entry EndpointId) → (missing_entry now entry).0.providers ≡ entry.providers
  missing_entry_providers now entry = ground arith

  missing_entry-IsEntry :
      (t now : ℕ) (entry : Entry EndpointId)
      → IsEntry dec t entry
      → IsEntry dec t (missing_entry now entry).0
  missing_entry-IsEntry t now entry h =
      let same = sym (missing_entry_providers now entry) in
      record {
        once = subst (Distinct dec) same h.once;
        few = subst (λ ps. length ps ≤ max_providers) same h.few;
        newest = subst (λ ps. newest_first dec t ps ≡ true) same h.newest;
      }

  module _ (t : ℕ) (c : lru.Cache) (h : IsCache t c) (hash : Hash) where
    get_providers-IsCache : IsCache t (providers_of dec lru t hash c).0
    unfolding providers_of
    get_providers-IsCache = elim (Option-cases (lru.peek hash c)) [
      | inl e ↦ rw (e, providers_of) h
      | inr (entry, e) ↦
          rw (e, providers_of)
            (write-IsCache t c hash _ h (retain-IsEntry dec t entry (h hash entry e) t))
    ]

    forget-IsCache : (provider : EndpointId) → IsCache t (forget dec lru hash provider c)
    unfolding forget
    forget-IsCache provider = elim (Option-cases (lru.peek hash c)) [
      | inl e ↦ rw (e, forget) h
      | inr (entry, e) ↦
          rw (e, forget)
            (write-IsCache t c hash _ h (remove-IsEntry dec t entry (h hash entry e) provider))
    ]

    missing_of-IsCache : IsCache t (missing_of dec lru t hash c).0
    unfolding missing_of
    missing_of-IsCache = elim (Option-cases (lru.peek hash c)) [
      | inl e ↦ rw (e, missing_of) h
      | inr (entry, e) ↦
          rw (e, missing_of)
            (write-IsCache t c hash (missing_entry t entry).0 h
              (missing_entry-IsEntry t t entry (h hash entry e)))
    ]

  call_now-IsCache :
      (t : ℕ) (q : Call Hash EndpointId) (c : lru.Cache) → IsCache t c → IsCache t (call t q c)
  unfolding call confirm record_missing
  call_now-IsCache t (get_providers hash) c h = get_providers-IsCache t c h hash
  call_now-IsCache t (passed hash provider latency) c h = write-IsCache t c hash _ h (
      confirmed-IsEntry dec t (entry_or (lru.peek hash c)) (entry_or-IsEntry t c hash h) t provider
        latency (omega arith))
  call_now-IsCache t (failed hash provider) c h = forget-IsCache t c h hash provider
  call_now-IsCache t (get_missing hash) c h = missing_of-IsCache t c h hash
  call_now-IsCache t (nobody hash miss) c h = write-IsCache t c hash _ h (
      missing-IsEntry dec t (entry_or (lru.peek hash c)) (entry_or-IsEntry t c hash h)
        (some (miss, t)))

  -- A call keeps the invariant: the cache remembers each endpoint of a hash once, at most four of
  -- them, the last verified first, with no probe later than the call, if the clock does not go back.
  pub call-IsCache :
      (t now : ℕ) (q : Call Hash EndpointId) (c : lru.Cache)
      → t ≤ now
      → IsCache t c
      → IsCache now (call now q c)
  call-IsCache t now q c le h =
      call_now-IsCache now q c (λ hash e p. later-IsEntry dec t e (h hash e p) now le)
