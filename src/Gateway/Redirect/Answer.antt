-- ===== src/Gateway/Redirect/Answer.antt =====
-- The answer that is taken is the newest of those that came in time.
use iroh_content_discovery.Prelude.{
  ◌≡◌, ◌⊎◌, refl, inl, inr, Bool, true, false, ◌||◌, not, List, [], ◌∷◌, Result, ok, err, arith,
  Bool-cases, ℕ,
}
use iroh_content_discovery.Prelude.Bytes.{bytes_eq}
use iroh_content_discovery.Gateway.Http.{HttpError}
use iroh_content_discovery.Discovery.Mutable.{
  MutableItem, seq_ltb, seq_irrefl, seq_trans, is_negative,
}
use iroh_content_discovery.Discovery.Servers.Newest.{Among}
use iroh_content_discovery.Gateway.Redirect.{verified, newest_step, newest_from, newest_verified}

-- An answer with a time, for the key.
abbrev pub is_answer : List ℕ → MutableItem → Bool
is_answer key item = not (is_negative item.seq || not (bytes_eq item.key key))

-- The newest of the answers that were seen; an error only if one of them is none for the key.
abbrev pub IsNewest : List ℕ → (MutableItem → Type 0) → Result HttpError MutableItem → Type 0
IsNewest key Seen (err e) = (item : MutableItem) × Seen item × (is_answer key item ≡ false)
IsNewest key Seen (ok newest) =
    Seen newest
    × (is_answer key newest ≡ true)
    × ((item : MutableItem) → Seen item → seq_ltb newest.seq item.seq ≡ false)

module _ (key : List ℕ) where
  overtakes :
      (old new item : MutableItem)
      → seq_ltb old.seq new.seq ≡ true
      → seq_ltb old.seq item.seq ≡ false
      → seq_ltb new.seq item.seq ≡ false
  overtakes old new item e h = elim (Bool-cases (seq_ltb new.seq item.seq)) [
    | inl f ↦ absurd (let g = seq_trans old.seq new.seq item.seq e f in cc)
    | inr f ↦ f
  ]

  step-IsNewest :
      (Seen : MutableItem → Type 0) (newest : Result HttpError MutableItem) (item : MutableItem)
      → IsNewest key Seen newest
      → IsNewest key (λ i. Seen i ⊎ (i ≡ item)) (newest_step newest (verified item key))
  unfolding newest_step verified
  step-IsNewest Seen (err e) item (i, seen, bad) = (i, inl seen, bad)
  step-IsNewest Seen (ok newest) item (seen, good, h) = elim (Bool-cases (is_answer key item)) [
    | inr e ↦
        let bad : (is_negative item.seq || not (bytes_eq item.key key)) ≡ true = ground arith in
        rw bad (item, inr refl, e)
    | inl e ↦
        let fine : (is_negative item.seq || not (bytes_eq item.key key)) ≡ false = ground arith in
        elim (Bool-cases (seq_ltb newest.seq item.seq)) [
          | inl f ↦
              rw (fine, f)
                (
                  inr refl,
                  e,
                  λ i s. elim s [
                    | inl t ↦ overtakes newest item i f (h i t)
                    | inr same ↦ rw same (seq_irrefl item.seq)
                  ],
                )
          | inr f ↦
              rw (fine, f) (inl seen, good, λ i s. elim s [ inl t ↦ h i t | inr same ↦ rw same f ])
        ]
  ]

  IsNewest-equivalent :
      (P Q : MutableItem → Type 0) (r : Result HttpError MutableItem)
      → ((i : MutableItem) → P i → Q i)
      → ((i : MutableItem) → Q i → P i)
      → IsNewest key P r
      → IsNewest key Q r
  IsNewest-equivalent P Q (err e) f g (i, p, bad) = (i, f i p, bad)
  IsNewest-equivalent P Q (ok s) f g (p, good, h) = (f s p, good, λ i q. h i (g i q))

  newest_from-IsNewest :
      (Seen : MutableItem → Type 0) (newest : Result HttpError MutableItem)
      (items : List MutableItem)
      → IsNewest key Seen newest
      → IsNewest key (λ i. Seen i ⊎ Among i items) (newest_from key newest items)
  unfolding newest_from
  newest_from-IsNewest Seen newest [] h =
      IsNewest-equivalent Seen (λ i. Seen i ⊎ ⊥) newest (λ i s. inl s)
        (λ i s. elim s [ inl t ↦ t | inr e ↦ absurd e ]) h
  newest_from-IsNewest Seen newest (item ∷ items) h =
      let next = newest_step newest (verified item key) in
      IsNewest-equivalent (λ i. (Seen i ⊎ (i ≡ item)) ⊎ Among i items)
        (λ i. Seen i ⊎ Among i (item ∷ items)) (newest_from key next items)
        (λ i s. elim s [
          | inl t ↦ elim t [ inl v ↦ inl v | inr e ↦ inr (inl e) ]
          | inr m ↦ inr (inr m)
        ])
        (λ i s. elim s [
          | inl v ↦ inl (inl v)
          | inr t ↦ elim t [ inl e ↦ inl (inr e) | inr m ↦ inr m ]
        ])
        (newest_from-IsNewest (λ i. Seen i ⊎ (i ≡ item)) next items
          (step-IsNewest Seen newest item h))

  first-IsNewest : (item : MutableItem) → IsNewest key (λ i. i ≡ item) (verified item key)
  unfolding verified
  first-IsNewest item = elim (Bool-cases (is_answer key item)) [
    | inr e ↦
        let bad : (is_negative item.seq || not (bytes_eq item.key key)) ≡ true = ground arith in
        rw bad (item, refl, e)
    | inl e ↦
        let fine : (is_negative item.seq || not (bytes_eq item.key key)) ≡ false = ground arith in
        rw fine (refl, e, λ i same. rw same (seq_irrefl item.seq))
  ]

  -- Of the answers that come in time, one or more, the one with the highest sequence is taken,
  -- whatever their order: no stale node rolls a name back. It is an error only if one of them has no
  -- time or is for another key.
  pub newest_verified-IsNewest :
      (first : MutableItem) (items : List MutableItem)
      → IsNewest key (λ i. Among i (first ∷ items)) (newest_verified key (first ∷ items))
  unfolding newest_verified
  newest_verified-IsNewest first items =
      newest_from-IsNewest (λ i. i ≡ first) (verified first key) items (first-IsNewest first)
