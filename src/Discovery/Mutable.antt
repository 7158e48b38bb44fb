-- ===== src/Discovery/Mutable.antt =====
-- n0_mainline's `MutableItem`: a signed value of the DHT, by its fields, and the order of its sequence
-- numbers, which are `i64`.
use iroh_content_discovery.Prelude.{
  ℕ, ◌≡◌, Bool, true, false, ◌&&◌, ◌||◌, Option, List, arith, ltb, ◌==◌, refl,
}
use iroh_content_discovery.Prelude.Bytes.{bytes_ltb}
use iroh_content_discovery.Prelude.Bytes.Order.{bytes_ltb_irrefl, bytes_ltb_trans}

-- Integers: `negsuc n` is `-1 - n`.
pub data ℤ : Type 0 where
  pos negsuc : ℕ → ℤ

unfoldable pub seq_ltb : ℤ → ℤ → Bool
seq_ltb (pos a) (pos b) = ltb a b
seq_ltb (pos a) (negsuc b) = false
seq_ltb (negsuc a) (pos b) = true
seq_ltb (negsuc a) (negsuc b) = ltb b a

unfoldable pub seq_eq : ℤ → ℤ → Bool
seq_eq (pos a) (pos b) = a == b
seq_eq (pos a) (negsuc b) = false
seq_eq (negsuc a) (pos b) = false
seq_eq (negsuc a) (negsuc b) = a == b

abbrev pub is_negative : ℤ → Bool
is_negative (pos a) = false
is_negative (negsuc a) = true

pub record MutableItem : Type 0 where
  pub key : List ℕ
  pub signature : List ℕ
  pub value : List ℕ
  pub seq : ℤ
  pub salt : Option (List ℕ)

-- `(old.seq(), old.value()) < (item.seq(), item.value())`.
unfoldable pub older : MutableItem → MutableItem → Bool
older old item =
    seq_ltb old.seq item.seq || (seq_eq old.seq item.seq && bytes_ltb old.value item.value)

pub seq_irrefl : (a : ℤ) → seq_ltb a a ≡ false
unfolding seq_ltb
seq_irrefl (pos a) = ground arith
seq_irrefl (negsuc a) = ground arith

pub seq_trans : (a b c : ℤ) → seq_ltb a b ≡ true → seq_ltb b c ≡ true → seq_ltb a c ≡ true
unfolding seq_ltb
seq_trans (pos a) (pos b) (pos c) h k = ground arith
seq_trans (pos a) (pos b) (negsuc c) h k = ground arith
seq_trans (pos a) (negsuc b) c h k = absurd cc
seq_trans (negsuc a) b (pos c) h k = refl
seq_trans (negsuc a) (pos b) (negsuc c) h k = ground arith
seq_trans (negsuc a) (negsuc b) (negsuc c) h k = ground arith

seq_same : (a b : ℤ) → seq_eq a b ≡ true → a ≡ b
unfolding seq_eq
seq_same (pos a) (pos b) h = ground arith
seq_same (pos a) (negsuc b) h = absurd cc
seq_same (negsuc a) (pos b) h = absurd cc
seq_same (negsuc a) (negsuc b) h = ground arith

pub older_irrefl : (x : MutableItem) → older x x ≡ false
unfolding older
older_irrefl x = ground (arith, seq_irrefl x.seq, bytes_ltb_irrefl x.value)

pub older_trans : (x y z : MutableItem) → older x y ≡ true → older y z ≡ true → older x z ≡ true
unfolding older
older_trans x y z h k =
    let first : seq_eq x.seq y.seq ≡ true → x.seq ≡ y.seq = seq_same x.seq y.seq in
    let second : seq_eq y.seq z.seq ≡ true → y.seq ≡ z.seq = seq_same y.seq z.seq in
    grind (arith, seq_trans x.seq y.seq z.seq, bytes_ltb_trans x.value y.value z.value)
