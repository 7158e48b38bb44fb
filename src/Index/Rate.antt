-- ===== src/Index/Rate.antt =====
-- The rate limiter of udp-addr-index/src/lib.rs: token buckets shared between addresses by hashing.
-- Fractions (`f64`) and the standard hasher are parameters; an instant is a number of nanoseconds.

pub mod Burst
use iroh_content_discovery.Prelude.{
  ℕ, ◌-◌, ◌%◌, ◌<◌, ◌≡◌, ◌≢◌, refl, Bool, true, false, ◌==◌, if◌then◌else◌, arith, ==_iff,
  Bool-cases, inl, inr,
}

-- The operations of IEEE 754 doubles that the limiter uses, with two facts of theirs: a minimum
-- with a number is at most that number, and subtracting one keeps an upper bound.
pub record Floats (F : Type 0) : Type 0 where
  pub nan : F
  pub is_nan : F → Bool
  pub add : F → F → F
  pub mul : F → F → F
  pub min : F → F → F
  pub sub_one : F → F
  -- `x < 1.0`
  pub lt_one : F → Bool
  pub le : F → F → Bool
  -- `Duration::as_secs_f64`
  pub as_secs : ℕ → F
  pub min-le : (a b : F) → is_nan b ≡ false → le (min a b) b ≡ true
  pub sub_one-le : (a b : F) → le a b ≡ true → le (sub_one a) b ≡ true

-- The two rates of `Limits`.
pub record Rates (F : Type 0) : Type 0 where
  pub requests_per_ip_per_sec : F
  pub request_burst : F

pub record Bucket (F : Type 0) : Type 0 where
  pub tokens : F
  pub last : ℕ

abbrev pub rate_limit_buckets : ℕ
rate_limit_buckets = 65536

-- The boxed slice of buckets, by index.
pub record RateLimiters (F : Type 0) : Type 0 where
  pub buckets : ℕ → Bucket F

module _ {F : Type 0} (fl : Floats F) where
  -- `RateLimiters::default`: no bucket has been used.
  unfoldable pub fresh : ℕ → RateLimiters F
  fresh now = record { buckets = λ i. record { tokens = fl.nan; last = now } }

  unfoldable pub refill : Bucket F → ℕ → F → F → F
  refill b now rate burst = fl.min (fl.add b.tokens (fl.mul (fl.as_secs (now - b.last)) rate)) burst

  unfoldable pub take : Bucket F → ℕ → F → F → Bucket F × Bool
  unfolding refill
  take b now rate burst =
      let tokens = refill b now rate burst in
      if fl.lt_one tokens
      then (record { tokens = tokens; last = now }, false)
      else (record { tokens = fl.sub_one tokens; last = now }, true)

  take-le_burst :
      (b : Bucket F) (now : ℕ) (rate burst : F)
      → fl.is_nan burst ≡ false
      → fl.le (take b now rate burst).0.tokens burst ≡ true
  unfolding take
  take-le_burst b now rate burst number =
      let filled = refill b now rate burst in
      let most =
        fl.min-le (fl.add b.tokens (fl.mul (fl.as_secs (now - b.last)) rate)) burst number in
      elim (Bool-cases (fl.lt_one filled)) [
        | inl e ↦ ground (arith, most)
        | inr e ↦ ground (arith, fl.sub_one-le filled burst most)
      ]

-- `bucket_index`, over the standard hasher.
unfoldable pub bucket_index : (ℕ → ℕ) → ℕ → ℕ
bucket_index hasher ip = hasher ip % rate_limit_buckets

abbrev pub set_bucket : {F : Type 0} → ℕ → Bucket F → RateLimiters F → RateLimiters F
set_bucket i b r = record { buckets = λ j. if i == j then b else r.buckets j }

module _ {F : Type 0} (fl : Floats F) (hasher : ℕ → ℕ) (rates : Rates F) where
  -- The bucket that `allow` takes from: one that has never been used starts full.
  unfoldable pub started : Bucket F → ℕ → Bucket F
  started b first =
      if fl.is_nan b.tokens then record { tokens = rates.request_burst; last = first } else b

  -- `first` and `second` are the two readings of the clock.
  unfoldable pub allow : RateLimiters F → ℕ → ℕ → ℕ → RateLimiters F × Bool
  unfolding take started bucket_index
  allow r ip first second =
      let index = bucket_index hasher ip in
      let (b, allowed) =
        take fl (started (r.buckets index) first) second rates.requests_per_ip_per_sec
          rates.request_burst in
      (set_bucket index b r, allowed)

  -- An address only touches its own bucket, which is one of the table's, and no bucket that has
  -- been taken from holds more than the burst.
  pub allow-le_burst :
      (r : RateLimiters F) (ip first second : ℕ)
      → fl.is_nan rates.request_burst ≡ false
      → (bucket_index hasher ip < rate_limit_buckets)
        × (fl.le
              ((allow r ip first second).0.buckets (bucket_index hasher ip)).tokens
              rates.request_burst
            ≡ true)
        × ((j : ℕ)
            → bucket_index hasher ip ≢ j
            → (allow r ip first second).0.buckets j ≡ r.buckets j)
  unfolding allow refill
  allow-le_burst r ip first second number = (
    omega arith,
    rw ((==_iff _ _).1 refl) (take-le_burst fl _ second _ _ number),
    λ j other. ground arith,
  )
