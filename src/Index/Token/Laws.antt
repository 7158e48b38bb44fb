-- ===== src/Index/Token/Laws.antt =====
-- Which tokens verify: those of the current bucket and of the one before. Tokens of two sockets can
-- agree only where the hash of different inputs does.
use iroh_content_discovery.Prelude.{
  ℕ, zero, suc, ◌+◌, ◌*◌, ◌/◌, ◌^◌, ◌≤◌, ◌<◌, ◌≡◌, ◌⊎◌, ◌↔◌, inl, inr, refl, sym, ◌∙◌, ap, Bool,
  true, false, ◌||◌, none, some, List, [], ◌∷◌, length, arith, Bool-cases, length-take, take, max,
}
use native.Mathlib.Nat.{le-div_iff_mul-le, div-lt_iff_lt-mul}
use iroh_content_discovery.Net.{SocketAddrV4}
use iroh_content_discovery.Proto.Messages.{IsAddr}
use iroh_content_discovery.Prelude.Bytes.{to_be_bytes}
use iroh_content_discovery.Index.Store.{Limits}
use iroh_content_discovery.Index.Token.{
  KeyedHash, token_input, token_for, bucket, token_eq, issue_token, previous, verify_token,
}
use iroh_content_discovery.Index.Token.Compare.{AreBytes, token_eq_iff}

-- The hashed input determines the socket and the bucket: two tokens can agree only where the hash
-- of different inputs does.
pub token_input_injective :
    (a b : SocketAddrV4) (m n : ℕ)
    → IsAddr a
    → IsAddr b
    → m < 2 ^ 64
    → n < 2 ^ 64
    → token_input a m ≡ token_input b n
    → (a ≡ b) × (m ≡ n)
unfolding token_input to_be_bytes
token_input_injective a b m n ha hb hm hn e = ground arith

take-AreBytes : (n : ℕ) (xs : List ℕ) → AreBytes xs → AreBytes (take n xs)
unfolding take
take-AreBytes zero xs h = tt
take-AreBytes (suc n) [] h = tt
take-AreBytes (suc n) (x ∷ xs) h = (h.0, take-AreBytes n xs h.1)

-- Until the end of the next bucket, the bucket has advanced by one at most.
next_bucket :
    (limits : Limits) (now later : ℕ)
    → now ≤ later
    → later < (bucket limits now + 2) * max limits.token_bucket_secs 1
    → (bucket limits later ≡ bucket limits now) ⊎ (bucket limits later ≡ suc (bucket limits now))
unfolding bucket
next_bucket limits now later early late =
    let d = max limits.token_bucket_secs 1 in
    let h : 0 < d = omega arith in
    let low : now / d ≤ later / d =
      (le-div_iff_mul-le {k = d} {x = now / d} {y = later} h).1
        (omega (arith, (le-div_iff_mul-le {k = d} {x = now / d} {y = now} h).0 (omega arith))) in
    let high : later / d < now / d + 2 =
      (div-lt_iff_lt-mul {k = d} {x = later} {y = now / d + 2} h).1 late in
    omega arith

-- The end of the next bucket is more than a bucket's length away.
bucket_lasts :
    (limits : Limits) (now : ℕ)
    → now + limits.token_bucket_secs < (bucket limits now + 2) * max limits.token_bucket_secs 1
unfolding bucket
bucket_lasts limits now =
    let d = max limits.token_bucket_secs 1 in
    let h : 0 < d = omega arith in
    let within : now < (now / d + 1) * d =
      (div-lt_iff_lt-mul {k = d} {x = now} {y = now / d + 1} h).0 (omega arith) in
    let split : (now / d + 2) * d ≡ (now / d + 1) * d + d = grind arith in omega arith

module _ (h : KeyedHash) (key : List ℕ) where
  token_for-AreBytes : (addr : SocketAddrV4) (b : ℕ) → AreBytes (token_for h key addr b)
  unfolding token_for
  token_for-AreBytes addr b = take-AreBytes 16 _ (h.hash_bytes key (token_input addr b)).1

  pub length-token_for : (addr : SocketAddrV4) (b : ℕ) → length (token_for h key addr b) ≡ 16
  unfolding token_for
  length-token_for addr b = omega (
    arith,
    length-take 16 (h.hash key (token_input addr b)),
    (h.hash_bytes key (token_input addr b)).0,
  )

  module _ (addr : SocketAddrV4) (token : List ℕ) (bytes : AreBytes token)
      (long : length token ≡ 16) where
    is_for_iff :
        (b : ℕ)
        → (token_eq (token_for h key addr b) token ≡ true) ↔ (token_for h key addr b ≡ token)
    is_for_iff b =
        token_eq_iff (token_for h key addr b) token (token_for-AreBytes addr b) bytes
          (length-token_for addr b ∙ sym long)

    -- The buckets whose token is accepted in bucket `b`.
    abbrev IsRecent : ℕ → Type 0
    IsRecent b =
        (token ≡ token_for h key addr b)
        ⊎ ((p : ℕ) × (b ≡ suc p) × (token ≡ token_for h key addr p))

    abbrev accepts : ℕ → Bool
    accepts b =
        token_eq (token_for h key addr b) token
        || elim (previous b) [ none ↦ false | some p ↦ token_eq (token_for h key addr p) token ]

    accepts→IsRecent : (b : ℕ) → accepts b ≡ true → IsRecent b
    accepts→IsRecent zero e = inl (sym ((is_for_iff 0).0 (ground arith)))
    accepts→IsRecent (suc p) e = elim (Bool-cases (token_eq (token_for h key addr (suc p)) token)) [
      | inl now ↦ inl (sym ((is_for_iff (suc p)).0 now))
      | inr no_more ↦ inr (p, refl, sym ((is_for_iff p).0 (ground arith)))
    ]

    IsRecent→accepts : (b : ℕ) → IsRecent b → accepts b ≡ true
    IsRecent→accepts b (inl e) = rw ((is_for_iff b).1 (sym e))
    IsRecent→accepts b (inr (p, q, e)) = ground (arith, (is_for_iff p).1 (sym e))

    -- A token of 16 bytes verifies exactly if it is the socket's token of the current bucket or of
    -- the one before.
    pub verify_token_iff :
        (limits : Limits) (now : ℕ)
        → (verify_token h key limits addr token now ≡ true) ↔ (
            (token ≡ token_for h key addr (bucket limits now))
            ⊎ ((p : ℕ) × (bucket limits now ≡ suc p) × (token ≡ token_for h key addr p)))
    unfolding verify_token
    verify_token_iff limits now =
        (accepts→IsRecent (bucket limits now), IsRecent→accepts (bucket limits now))

  -- An issued token is accepted until the end of the bucket after the one in which it was issued,
  -- which is more than `token_bucket_secs` seconds later.
  pub verify-issue_token :
      (limits : Limits) (addr : SocketAddrV4) (now later : ℕ)
      → now ≤ later
      → later < (bucket limits now + 2) * max limits.token_bucket_secs 1
      → (verify_token h key limits addr (issue_token h key limits addr now) later ≡ true)
        × (now + limits.token_bucket_secs
            < (bucket limits now + 2) * max limits.token_bucket_secs 1)
  unfolding issue_token
  verify-issue_token limits addr now later early late =
      let token = token_for h key addr (bucket limits now) in
      (
        (verify_token_iff addr token (token_for-AreBytes addr _) (length-token_for addr _) limits
              later).1
            (elim (next_bucket limits now later early late) [
              | inl same ↦ inl (ap (token_for h key addr) (sym same))
              | inr next ↦ inr (bucket limits now, next, refl)
            ]),
        bucket_lasts limits now,
      )
