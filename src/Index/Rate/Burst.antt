-- ===== src/Index/Rate/Burst.antt =====
-- How many requests the limiter lets through at one instant.
use iroh_content_discovery.Prelude.{
  ℕ, suc, ◌-◌, ◌^◌, ◌<◌, ◌≤◌, ◌≡◌, refl, ap, ◌∙◌, true, false, ◌==◌, min, List, [], ◌∷◌,
  if◌then◌else◌, arith, ==_iff, Bool-cases, inl, inr,
}
use iroh_content_discovery.Index.Rate.{
  Floats, Rates, Bucket, RateLimiters, fresh, refill, take, bucket_index, set_bucket, started,
  allow,
}

-- What IEEE 754 documents of the whole part of a double that is a number, with 0 for negative ones: a
-- test against 1 reads it, a minimum is that of the whole parts, and below 2 ^ 53 subtracting one is
-- exact. No time at a finite rate adds nothing.
pub record WholeTokens {F : Type 0} (fl : Floats F) (rate : F) : Type 0 where
  pub whole : F → ℕ
  pub nan-is_nan : fl.is_nan fl.nan ≡ true
  pub lt_one-whole : (x : F) → fl.is_nan x ≡ false → fl.lt_one x ≡ (whole x == 0)
  pub min-whole :
      (x y : F)
      → fl.is_nan x ≡ false
      → fl.is_nan y ≡ false
      → (fl.is_nan (fl.min x y) ≡ false) × (whole (fl.min x y) ≡ min (whole x) (whole y))
  pub sub_one-whole :
      (x : F)
      → fl.is_nan x ≡ false
      → 0 < whole x
      → whole x < 2 ^ 53
      → (fl.is_nan (fl.sub_one x) ≡ false) × (whole (fl.sub_one x) ≡ whole x - 1)
  pub add_nothing :
      (x : F)
      → fl.is_nan x ≡ false
      → (fl.is_nan (fl.add x (fl.mul (fl.as_secs 0) rate)) ≡ false)
        × (whole (fl.add x (fl.mul (fl.as_secs 0) rate)) ≡ whole x)

module _ {F : Type 0} (fl : Floats F) (hasher : ℕ → ℕ) (rates : Rates F) where
  -- The requests of some addresses at one instant: how many of one bucket are allowed.
  unfoldable pub allowed_at : ℕ → ℕ → RateLimiters F → List ℕ → ℕ
  unfolding allow bucket_index
  allowed_at index now r [] = 0
  allowed_at index now r (ip ∷ ips) =
      let (r', allowed) = allow fl hasher rates r ip now now in
      let rest = allowed_at index now r' ips in
      if bucket_index hasher ip == index then (if allowed then suc rest else rest) else rest

  -- How many of some addresses have one bucket.
  abbrev pub sharing : ℕ → List ℕ → ℕ
  sharing index [] = 0
  sharing index (ip ∷ ips) =
      if bucket_index hasher ip == index then suc (sharing index ips) else sharing index ips

  module _ (laws : WholeTokens fl rates.requests_per_ip_per_sec) where
    abbrev capacity : ℕ
    capacity = laws.whole rates.request_burst

    -- A bucket that has so many tokens, last counted at some instant.
    abbrev Holds : ℕ → ℕ → Bucket F → Type 0
    Holds now n b =
        (fl.is_nan b.tokens ≡ false) × (b.last ≡ now) × (laws.whole b.tokens ≡ n) × (n ≤ capacity)

    module _ (number : fl.is_nan rates.request_burst ≡ false) (exact : capacity < 2 ^ 53)
        (now : ℕ) where
      -- No time has passed, so that a refill changes nothing.
      refill_now :
          (n : ℕ) (b : Bucket F)
          → Holds now n b
          → (fl.is_nan (refill fl b now rates.requests_per_ip_per_sec rates.request_burst) ≡ false)
            × (laws.whole (refill fl b now rates.requests_per_ip_per_sec rates.request_burst) ≡ n)
      unfolding refill
      refill_now n b (num, last, tokens, most) =
          let none_passed : now - b.last ≡ 0 = omega arith in
          rw (none_passed, refill)
            (let (num', same) = laws.add_nothing b.tokens num in
              let (ok, least) =
                laws.min-whole
                  (fl.add b.tokens (fl.mul (fl.as_secs 0) rates.requests_per_ip_per_sec))
                  rates.request_burst num' number in
              (ok, omega (arith, least, same)))

      take_now :
          (n : ℕ) (b : Bucket F)
          → Holds now n b
          → ((take fl b now rates.requests_per_ip_per_sec rates.request_burst).1
              ≡ (if n == 0 then false else true))
            × Holds now (n - 1) (take fl b now rates.requests_per_ip_per_sec rates.request_burst).0
      unfolding take
      take_now n b h =
          let (num, count) = refill_now n b h in
          let filled = refill fl b now rates.requests_per_ip_per_sec rates.request_burst in
          let few : fl.lt_one filled ≡ (n == 0) =
            laws.lt_one-whole filled num ∙ ap (λ k. k == 0) count in
          let (_, _, _, most) = h in
          elim (Bool-cases (n == 0)) [
            | inl e ↦ rw (few, e) (refl, (num, refl, ground arith, ground arith))
            | inr e ↦
                let some_left : 0 < n = ground arith in
                let (num', less) = laws.sub_one-whole filled num (omega arith) (omega arith) in
                rw (few, e) (refl, (num', refl, omega arith, omega arith))
          ]

      started_of_number :
          (b : Bucket F) → fl.is_nan b.tokens ≡ false → started fl hasher rates b now ≡ b
      unfolding started
      started_of_number b h = rw h refl

      allowed_at_min :
          (index n : ℕ) (r : RateLimiters F) (ips : List ℕ)
          → Holds now n (started fl hasher rates (r.buckets index) now)
          → allowed_at index now r ips ≡ min n (sharing index ips)
      unfolding allowed_at allow
      allowed_at_min index n r [] h = omega arith
      allowed_at_min index n r (ip ∷ ips) h = elim (Bool-cases (bucket_index hasher ip == index)) [
        | inr e ↦ rw e (allowed_at_min index n (allow fl hasher rates r ip now now).0 ips (rw e h))
        | inl e ↦
            let same : bucket_index hasher ip ≡ index = ground arith in
            let b = started fl hasher rates (r.buckets index) now in
            let (flag, left) = take_now n b h in
            let after = (take fl b now rates.requests_per_ip_per_sec rates.request_burst).0 in
            let rest =
              allowed_at_min index (n - 1) (set_bucket index after r) ips
                (rw ((==_iff index index).1 refl) (rw (started_of_number after left.0) left)) in
            rw (same, (==_iff index index).1 refl, flag, rest)
              (elim (Bool-cases (n == 0)) [
                | inl z ↦ rw z (ground arith)
                | inr z ↦ rw z (ground arith)
              ])
      ]

      -- Of the requests that come at one instant to a limiter that no address has used, from any
      -- addresses in any order, just as many of one bucket are allowed as the burst has whole tokens,
      -- or all of them if there are fewer. The burst is a number below 2 ^ 53.
      pub allowed_at-burst :
          (index begun : ℕ) (ips : List ℕ)
          → allowed_at index now (fresh fl begun) ips ≡ min capacity (sharing index ips)
      unfolding fresh started
      allowed_at-burst index begun ips =
          allowed_at_min index capacity (fresh fl begun) ips
            (rw (laws.nan-is_nan, started) (number, refl, refl, omega arith))
