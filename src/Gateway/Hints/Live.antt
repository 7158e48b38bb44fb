-- ===== src/Gateway/Hints/Live.antt =====
-- Providers that a link has named come first for as long as their hints unexpired.
use iroh_content_discovery.Prelude.{
  ℕ, zero, suc, ◌+◌, ◌-◌, ◌≤◌, ◌<◌, ◌≡◌, refl, ap, ◌∙◌, inl, inr, true, List, [], ◌∷◌, ◌++◌, arith,
  ltb, length, take, take-append, length-take, Bool-cases,
}
use iroh_content_discovery.Gateway.Lru.{Lru}
use iroh_content_discovery.Gateway.Hints.{
  max_per_hash, hint_ttl, Hint, without, named_at, added, unexpired, providers_in, known_or,
  add_hints, live_of, get_hints,
}

module _ {P : Type 0} (dec : Discrete P) where
  take-named_at :
      (n : ℕ) (ps : List P) (now : ℕ) (rest : List (Hint dec))
      → length ps ≤ n
      → take n (named_at dec ps now rest) ≡ named_at dec ps now (take (n - length ps) rest)
  unfolding named_at take
  take-named_at n [] now rest h = ap (λ k. take k rest) (omega arith)
  take-named_at zero (p ∷ ps) now rest h = absurd (omega arith)
  take-named_at (suc n) (p ∷ ps) now rest h = ap (◌∷◌ (p, now)) (
      take-named_at n ps now rest (omega arith)
      ∙ ap (λ k. named_at dec ps now (take k rest)) (omega arith))

  unexpired-named_at :
      (ps : List P) (now later : ℕ) (rest : List (Hint dec))
      → later < now + hint_ttl
      → unexpired dec later (named_at dec ps now rest)
        ≡ named_at dec ps now (unexpired dec later rest)
  unfolding named_at unexpired
  unexpired-named_at [] now later rest h = refl
  unexpired-named_at (p ∷ ps) now later rest h =
      let e : ltb (later - now) hint_ttl ≡ true = ground arith in
      rw (e, unexpired-named_at ps now later rest h) refl

  providers_in-named_at :
      (ps : List P) (now : ℕ) (rest : List (Hint dec))
      → providers_in dec (named_at dec ps now rest) ≡ ps ++ providers_in dec rest
  unfolding named_at providers_in
  providers_in-named_at [] now rest = refl
  providers_in-named_at (p ∷ ps) now rest = ap (◌∷◌ p) (providers_in-named_at ps now rest)

  length-unexpired :
      (now : ℕ) (known : List (Hint dec))
      → length (providers_in dec (unexpired dec now known)) ≤ length known
  unfolding unexpired providers_in
  length-unexpired now [] = omega arith
  length-unexpired now ((p, at) ∷ known) = elim (Bool-cases (ltb (now - at) hint_ttl)) [
    | inl e ↦ rw e (omega (arith, length-unexpired now known))
    | inr e ↦ rw e (omega (arith, length-unexpired now known))
  ]

  module _ {H : Type 0} (lru : Lru H (List (Hint dec))) where
    -- The providers that a link names for a hash come first when the hash is asked for before their
    -- hints expire, and there are no more of them all than a hash may have.
    pub get_hints-add_hints :
        (cache : lru.Cache) (hash : H) (providers : List P) (now later : ℕ)
        → length providers ≤ max_per_hash
        → later < now + hint_ttl
        → let found =
            (get_hints dec lru (add_hints dec lru cache hash providers now) hash later).1 in
          (take (length providers) found ≡ providers) × (length found ≤ max_per_hash)
    unfolding get_hints add_hints live_of added
    get_hints-add_hints cache hash providers now later few soon =
        let known = without dec providers (known_or dec lru (lru.peek hash cache)) in
        let all = take max_per_hash (named_at dec providers now known) in
        let rest = take (max_per_hash - length providers) known in
        let shape : providers_in dec (unexpired dec later all)
            ≡ providers ++ providers_in dec (unexpired dec later rest) =
          ap (λ k. providers_in dec (unexpired dec later k))
            (take-named_at max_per_hash providers now known few)
          ∙ ap (providers_in dec) (unexpired-named_at providers now later rest soon)
          ∙ providers_in-named_at providers now (unexpired dec later rest) in
        rw (lru.peek-write hash all cache) (
          ap (take (length providers)) shape
              ∙ take-append providers (providers_in dec (unexpired dec later rest))
                  (length providers) refl,
          omega (
            arith,
            length-unexpired later all,
            length-take max_per_hash (named_at dec providers now known),
          ),
        )
