-- ===== src/Index/Store/Expirations.antt =====
-- `BTreeSet<(u64, SocketAddrV4)>` of the store: an ascending list without repetition.
use iroh_content_discovery.Prelude.{
  ℕ, Bool, true, false, ◌&&◌, ◌||◌, List, [], ◌∷◌, ◌≡◌, ltb, ◌==◌, if◌then◌else◌, arith, All,
  ℕ_discrete, ◌≤◌, refl, subst, Bool-cases, inl, inr, if_pos, if_neg, All-map,
}
use iroh_content_discovery.Prelude.Sets.{contains, discard}
use iroh_content_discovery.Net.{SocketAddrV4, addr_discrete, addr_ltb}

abbrev pub Expiration : Type 0
Expiration = ℕ × SocketAddrV4

unfoldable pub exp_discrete : Discrete Expiration
unfolding ℕ_discrete addr_discrete
exp_discrete = hlevel ℕ_discrete

abbrev pub exp_ltb : Expiration → Expiration → Bool
exp_ltb (t, a) (u, b) = ltb t u || (t == u && addr_ltb a b)

unfoldable pub insert_expiration : Expiration → List Expiration → List Expiration
insert_expiration x [] = x ∷ []
insert_expiration x (y ∷ ys) =
    if exp_ltb x y then x ∷ y ∷ ys else if exp_ltb y x then y ∷ insert_expiration x ys else y ∷ ys

abbrev pub IsAscending : List Expiration → Type 0
IsAscending [] = Unit
IsAscending (x ∷ xs) = All (λ y. exp_ltb x y ≡ true) xs × IsAscending xs

exp_ltb_irrefl : (x : Expiration) → exp_ltb x x ≡ false
exp_ltb_irrefl (t, a) = ground arith

exp_ltb_trans : (x y z : Expiration) → exp_ltb x y ≡ true → exp_ltb y z ≡ true → exp_ltb x z ≡ true
exp_ltb_trans (t, a) (u, b) (v, c) h k = ground arith

exp_ltb_total : (x y : Expiration) → exp_ltb x y ≡ false → exp_ltb y x ≡ false → x ≡ y
exp_ltb_total (t, a) (u, b) h k = ground arith

pub exp_ltb-le : (x y : Expiration) → exp_ltb x y ≡ true → x.0 ≤ y.0
exp_ltb-le (t, a) (u, b) h = ground arith

-- What holds of all elements holds of one that the set contains.
pub All-contains {ℓ} :
    (P : Expiration → Type ℓ) (y : Expiration) (xs : List Expiration)
    → All P xs
    → contains exp_discrete xs y ≡ true
    → P y
unfolding contains
All-contains P y [] h e = absurd (cc)
All-contains P y (x ∷ xs) h e = elim (exp_discrete x y) [
  | yes p ↦ subst P p h.0
  | no n ↦ All-contains P y xs h.1 (ground arith)
]

pub not-contains :
    (x : Expiration) (xs : List Expiration)
    → All (λ y. exp_ltb x y ≡ true) xs
    → contains exp_discrete xs x ≡ false
not-contains x xs h = elim (Bool-cases (contains exp_discrete xs x)) [
  | inl e ↦ absurd (cc (All-contains _ x xs h e, exp_ltb_irrefl x))
  | inr e ↦ e
]

All-discard {ℓ} :
    (P : Expiration → Type ℓ) (x : Expiration) (xs : List Expiration)
    → All P xs
    → All P (discard exp_discrete x xs)
unfolding discard
All-discard P x [] h = tt
All-discard P x (y ∷ ys) h = elim (exp_discrete y x) [
  | yes p ↦ rw (if_pos _ p) (All-discard P x ys h.1)
  | no n ↦ rw (if_neg _ n) (h.0, All-discard P x ys h.1)
]

pub discard-IsAscending :
    (x : Expiration) (xs : List Expiration)
    → IsAscending xs
    → IsAscending (discard exp_discrete x xs)
unfolding discard
discard-IsAscending x [] h = tt
discard-IsAscending x (y ∷ ys) h = elim (exp_discrete y x) [
  | yes p ↦ rw (if_pos _ p) (discard-IsAscending x ys h.1)
  | no n ↦ rw (if_neg _ n) (All-discard _ x ys h.0, discard-IsAscending x ys h.1)
]

discard_absent :
    (x : Expiration) (xs : List Expiration)
    → contains exp_discrete xs x ≡ false
    → discard exp_discrete x xs ≡ xs
unfolding contains discard
discard_absent x [] h = refl
discard_absent x (y ∷ ys) h = ground (arith, discard_absent x ys)

-- Taking out the first element leaves the tail.
pub discard-first :
    (x : Expiration) (xs : List Expiration)
    → IsAscending (x ∷ xs)
    → discard exp_discrete x (x ∷ xs) ≡ xs
unfolding discard
discard-first x xs h =
    rw (if_pos (exp_discrete x x) refl) (discard_absent x xs (not-contains x xs h.0))

All-insert_expiration {ℓ} :
    (P : Expiration → Type ℓ) (x : Expiration) (xs : List Expiration)
    → P x
    → All P xs
    → All P (insert_expiration x xs)
unfolding insert_expiration
All-insert_expiration P x [] p h = (p, tt)
All-insert_expiration P x (y ∷ ys) p h = elim (Bool-cases (exp_ltb x y)) [
  | inl e ↦ rw e (p, h)
  | inr e ↦ elim (Bool-cases (exp_ltb y x)) [
    | inl f ↦ rw (e, f) (h.0, All-insert_expiration P x ys p h.1)
    | inr f ↦ rw (e, f) h
  ]
]

pub insert_expiration-IsAscending :
    (x : Expiration) (xs : List Expiration) → IsAscending xs → IsAscending (insert_expiration x xs)
unfolding insert_expiration
insert_expiration-IsAscending x [] h = (tt, tt)
insert_expiration-IsAscending x (y ∷ ys) h = elim (Bool-cases (exp_ltb x y)) [
  | inl e ↦ rw e ((e, All-map (λ z. exp_ltb_trans x y z e) ys h.0), h)
  | inr e ↦ elim (Bool-cases (exp_ltb y x)) [
    | inl f ↦ rw (e, f) (All-insert_expiration _ x ys f h.0, insert_expiration-IsAscending x ys h.1)
    | inr f ↦ rw (e, f) h
  ]
]

pub contains-insert_expiration :
    (x y : Expiration) (xs : List Expiration)
    → contains exp_discrete (insert_expiration x xs) y
      ≡ elim (exp_discrete x y) [ yes _ ↦ true | no _ ↦ contains exp_discrete xs y ]
unfolding contains insert_expiration
contains-insert_expiration x y [] = refl
contains-insert_expiration x y (z ∷ zs) = elim (Bool-cases (exp_ltb x z)) [
  | inl e ↦ rw e
  | inr e ↦ elim (Bool-cases (exp_ltb z x)) [
    | inl f ↦ rw (e, f) (ground (arith, contains-insert_expiration x y zs))
    | inr f ↦ rw (e, f) (ground (arith, exp_ltb_total x z e f))
  ]
]
