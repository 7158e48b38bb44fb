-- ===== src/Index/Token/Compare.antt =====
-- `token_eq` accepts exactly equal tokens. The facts on `|` and `^` of bytes come from a table.
use Prim.Native.Nat.{bit_or, bit_xor}
use iroh_content_discovery.Prelude.{
  ℕ, zero, suc, ◌<◌, ◌≡◌, ◌↔◌, refl, Bool, true, false, ◌&&◌, not, List, [], ◌∷◌, ltb, ◌==◌,
  if◌then◌else◌, length, All, arith,
}
use iroh_content_discovery.Index.Token.{token_difference, token_eq}

every_lt : ℕ → (ℕ → Bool) → Bool
every_lt zero test = true
every_lt (suc bound) test = if test bound then every_lt bound test else false

every_lt_at :
    (test : ℕ → Bool) (bound i : ℕ) → i < bound → every_lt bound test ≡ true → test i ≡ true
unfolding every_lt
every_lt_at test zero i inside passed = absurd (omega arith)
every_lt_at test (suc bound) i inside passed = ground (arith, every_lt_at test bound i)

-- What the comparison needs of a pair of bytes.
abbrev pair_ok : ℕ → ℕ → Bool
pair_ok x y =
    ltb (bit_or x y) 256
    && (ltb (bit_xor x y) 256
        && ((if bit_or x y == 0 then x == 0 && y == 0 else not (x == 0 && y == 0))
            && (if bit_xor x y == 0 then x == y else not (x == y))))

byte_table : every_lt 256 (λ x. every_lt 256 (pair_ok x)) ≡ true
unfolding every_lt
byte_table = refl

pairs : (x y : ℕ) → x < 256 → y < 256 → pair_ok x y ≡ true
pairs x y hx hy =
    every_lt_at (pair_ok x) 256 y hy
      (every_lt_at (λ row. every_lt 256 (pair_ok row)) 256 x hx byte_table)

abbrev pub AreBytes : List ℕ → Type 0
AreBytes = All (λ x. x < 256)

bit_or-byte : (x y : ℕ) → x < 256 → y < 256 → bit_or x y < 256
bit_or-byte x y hx hy = ground (arith, pairs x y hx hy)

bit_xor-byte : (x y : ℕ) → x < 256 → y < 256 → bit_xor x y < 256
bit_xor-byte x y hx hy = ground (arith, pairs x y hx hy)

bit_or-eq-zero : (x y : ℕ) → x < 256 → y < 256 → bit_or x y ≡ 0 → (x ≡ 0) × (y ≡ 0)
bit_or-eq-zero x y hx hy h = ground (arith, pairs x y hx hy)

bit_xor-eq-zero : (x y : ℕ) → x < 256 → y < 256 → bit_xor x y ≡ 0 → x ≡ y
bit_xor-eq-zero x y hx hy h = ground (arith, pairs x y hx hy)

bit_xor_self : (x : ℕ) → x < 256 → bit_xor x x ≡ 0
bit_xor_self x hx = ground (arith, pairs x x hx hx)

difference-eq-zero :
    (d : ℕ) (left right : List ℕ)
    → d < 256
    → AreBytes left
    → AreBytes right
    → length left ≡ length right
    → token_difference d left right ≡ 0
    → (d ≡ 0) × (left ≡ right)
unfolding token_difference
difference-eq-zero d [] [] hd hl hr n h = (h, refl)
difference-eq-zero d [] (r ∷ right) hd hl hr n h = absurd (omega arith)
difference-eq-zero d (l ∷ left) [] hd hl hr n h = absurd (omega arith)
difference-eq-zero d (l ∷ left) (r ∷ right) hd hl hr n h =
    let x = bit_xor-byte l r hl.0 hr.0 in
    let (none_yet, same) =
      difference-eq-zero (bit_or d (bit_xor l r)) left right (bit_or-byte d (bit_xor l r) hd x) hl.1
        hr.1 (omega arith) h in
    let (start, here) = bit_or-eq-zero d (bit_xor l r) hd x none_yet in
    (start, cc (same, bit_xor-eq-zero l r hl.0 hr.0 here))

difference_self : (token : List ℕ) → AreBytes token → token_difference 0 token token ≡ 0
unfolding token_difference
difference_self [] h = refl
difference_self (x ∷ token) h = rw (bit_xor_self x h.0) (difference_self token h.1)

-- The comparison that takes the same time for all tokens accepts exactly equal ones.
pub token_eq_iff :
    (left right : List ℕ)
    → AreBytes left
    → AreBytes right
    → length left ≡ length right
    → (token_eq left right ≡ true) ↔ (left ≡ right)
unfolding token_eq
token_eq_iff left right hl hr n = (
  λ h. (difference-eq-zero 0 left right (omega arith) hl hr n (ground arith)).1,
  λ e. rw (← e, difference_self left hl),
)
