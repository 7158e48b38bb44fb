-- ===== src/Gateway/ProviderCache/Recent.antt =====
-- What the cache remembers: few endpoints, each once, the last verified first.
use iroh_content_discovery.Prelude.{
  ℕ, suc, zero, ◌≤◌, ◌≡◌, refl, Bool, true, ◌&&◌, Option, none, List, [], ◌∷◌, arith, leb, take,
  length, length-take,
}
use iroh_content_discovery.Prelude.Maps.{
  lookup, insert, remove, Distinct, remove-Distinct, insert-Distinct,
}
use iroh_content_discovery.Gateway.ProviderCache.{
  Probed, Entry, Miss, max_providers, no_entry, retain_recent, confirmed_entry,
}

module _ {E : Type 0} (dec : Discrete E) where
  -- Each probe is no later than the one before it, and none is later than a time.
  abbrev pub newest_first : ℕ → List (E × Probed) → Bool
  newest_first t [] = true
  newest_first t ((e, p) ∷ ps) = leb p.at t && newest_first p.at ps

  newest_first_later :
      (s t : ℕ) (ps : List (E × Probed))
      → s ≤ t
      → newest_first s ps ≡ true
      → newest_first t ps ≡ true
  newest_first_later s t [] le h = refl
  newest_first_later s t (p ∷ ps) le h = ground arith

  newest_first-remove :
      (t : ℕ) (e : E) (ps : List (E × Probed))
      → newest_first t ps ≡ true
      → newest_first t (remove dec e ps) ≡ true
  unfolding remove
  newest_first-remove t e [] h = refl
  newest_first-remove t e ((x, p) ∷ ps) h =
      ground (arith, newest_first-remove p.at e ps, newest_first_later p.at t (remove dec e ps))

  newest_first-retain :
      (t now : ℕ) (ps : List (E × Probed))
      → newest_first t ps ≡ true
      → newest_first t (retain_recent now ps) ≡ true
  unfolding retain_recent
  newest_first-retain t now [] h = refl
  newest_first-retain t now ((x, p) ∷ ps) h =
      ground
        (arith, newest_first-retain p.at now ps, newest_first_later p.at t (retain_recent now ps))

  newest_first-take :
      (t n : ℕ) (ps : List (E × Probed))
      → newest_first t ps ≡ true
      → newest_first t (take n ps) ≡ true
  unfolding take
  newest_first-take t zero ps h = refl
  newest_first-take t (suc n) [] h = refl
  newest_first-take t (suc n) ((x, p) ∷ ps) h = ground (arith, newest_first-take p.at n ps)

  lookup-take_absent :
      (e : E) (n : ℕ) (ps : List (E × Probed))
      → lookup dec e ps ≡ none
      → lookup dec e (take n ps) ≡ none
  unfolding lookup take
  lookup-take_absent e zero ps h = refl
  lookup-take_absent e (suc n) [] h = refl
  lookup-take_absent e (suc n) ((x, p) ∷ ps) h = ground (arith, lookup-take_absent e n ps)

  take-Distinct : (n : ℕ) (ps : List (E × Probed)) → Distinct dec ps → Distinct dec (take n ps)
  unfolding take
  take-Distinct zero ps d = tt
  take-Distinct (suc n) [] d = tt
  take-Distinct (suc n) ((x, p) ∷ ps) d = (lookup-take_absent x n ps d.0, take-Distinct n ps d.1)

  pub lookup-retain_absent :
      (e : E) (now : ℕ) (ps : List (E × Probed))
      → lookup dec e ps ≡ none
      → lookup dec e (retain_recent now ps) ≡ none
  unfolding lookup retain_recent
  lookup-retain_absent e now [] h = refl
  lookup-retain_absent e now ((x, p) ∷ ps) h = ground (arith, lookup-retain_absent e now ps)

  retain-Distinct :
      (now : ℕ) (ps : List (E × Probed)) → Distinct dec ps → Distinct dec (retain_recent now ps)
  unfolding retain_recent
  retain-Distinct now [] d = tt
  retain-Distinct now ((x, p) ∷ ps) d =
      ground (arith, lookup-retain_absent x now ps d.0, retain-Distinct now ps d.1)

  length-retain : (now : ℕ) (ps : List (E × Probed)) → length (retain_recent now ps) ≤ length ps
  unfolding retain_recent
  length-retain now [] = omega arith
  length-retain now ((x, p) ∷ ps) = ground (arith, length-retain now ps)

  length-remove : (e : E) (ps : List (E × Probed)) → length (remove dec e ps) ≤ length ps
  unfolding remove
  length-remove e [] = omega arith
  length-remove e ((x, p) ∷ ps) = ground (arith, length-remove e ps)

  -- An entry: each endpoint once, at most four, the last verified first, none after a time.
  pub record IsEntry (t : ℕ) (entry : Entry E) : Type 0 where
    pub once : Distinct dec entry.providers
    pub few : length entry.providers ≤ max_providers
    pub newest : newest_first t entry.providers ≡ true

  module _ (t : ℕ) (entry : Entry E) (h : IsEntry t entry) where
    pub later-IsEntry : (now : ℕ) → t ≤ now → IsEntry now entry
    later-IsEntry now le = record {
      once = h.once;
      few = h.few;
      newest = newest_first_later t now entry.providers le h.newest;
    }

    pub retain-IsEntry :
        (now : ℕ) → IsEntry t (record entry { providers = retain_recent now entry.providers })
    retain-IsEntry now = record {
      once = retain-Distinct now entry.providers h.once;
      few = omega (arith, length-retain now entry.providers, h.few);
      newest = newest_first-retain t now entry.providers h.newest;
    }

    pub remove-IsEntry :
        (e : E) → IsEntry t (record entry { providers = remove dec e entry.providers })
    remove-IsEntry e = record {
      once = remove-Distinct dec e entry.providers h.once;
      few = omega (arith, length-remove e entry.providers, h.few);
      newest = newest_first-remove t e entry.providers h.newest;
    }

    pub confirmed-IsEntry :
        (now : ℕ) (e : E) (latency : ℕ)
        → t ≤ now
        → IsEntry now (confirmed_entry dec now e latency entry)
    unfolding confirmed_entry
    confirmed-IsEntry now e latency le =
        let front = insert dec e (record { at = now; latency = latency }) entry.providers in
        record {
          once = take-Distinct max_providers front (
              insert-Distinct dec e (record { at = now; latency = latency }) entry.providers
                h.once);
          few = omega (arith, length-take max_providers front);
          newest = newest_first-take now max_providers front (
              ground (
                arith,
                newest_first_later t now (remove dec e entry.providers) le
                    (newest_first-remove t e entry.providers h.newest),
              ));
        }

    pub missing-IsEntry : (m : Option (Miss × ℕ)) → IsEntry t (record entry { missing = m })
    missing-IsEntry m = record { once = h.once; few = h.few; newest = h.newest }

  pub no_entry-IsEntry : (t : ℕ) → IsEntry t no_entry
  no_entry-IsEntry t = record { once = tt; few = omega arith; newest = refl }
