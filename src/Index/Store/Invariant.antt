-- ===== src/Index/Store/Invariant.antt =====
-- The store's invariant: entries, deadlines and per-address counts agree; the single removals keep it.
use iroh_content_discovery.Prelude.{
  ℕ, suc, ◌≡◌, refl, subst, Bool, true, false, Option, none, some, List, ◌∷◌, ◌==◌, if◌then◌else◌,
  arith, ℕ_discrete, ite, if_pos, if_neg,
}
use iroh_content_discovery.Prelude.Maps.{
  count, lookup, remove, Distinct, lookup-remove, lookup-insert, remove-Distinct, count-remove,
}
use iroh_content_discovery.Prelude.Sets.{contains}
use iroh_content_discovery.Net.{SocketAddrV4, addr_discrete}
use iroh_content_discovery.Index.Store.{Store, Entry, usize_dec, decrement, remove_entry}
use iroh_content_discovery.Index.Store.Expirations.{
  Expiration, exp_discrete, IsAscending, not-contains,
}

abbrev pub expires_is : Option Entry → ℕ → Bool
expires_is none t = false
expires_is (some e) t = e.expires_at == t

abbrev pub at_ip : ℕ → SocketAddrV4 → Bool
at_ip ip a = a.ip == ip

-- A count that is kept only while it is positive.
abbrev pub positive : ℕ → Option ℕ
positive n = if n == 0 then none else some n

pub record IsValid (s : Store) : Type 0 where
  pub distinct : Distinct addr_discrete s.entries
  pub ascending : IsAscending s.expirations
  pub agree :
      (t : ℕ) (a : SocketAddrV4)
      → contains exp_discrete s.expirations (t, a) ≡ expires_is (lookup addr_discrete a s.entries) t
  pub tally : (ip : ℕ) → lookup ℕ_discrete ip s.per_ip ≡ positive (count (at_ip ip) s.entries)

decrement_parts :
    (ip : ℕ) (s : Store)
    → ((decrement ip s).entries ≡ s.entries) × ((decrement ip s).expirations ≡ s.expirations)
unfolding decrement
decrement_parts ip s = ground arith

lookup-decrement :
    (ip n : ℕ) (s : Store)
    → lookup ℕ_discrete ip s.per_ip ≡ some (suc n)
    → (j : ℕ)
    → lookup ℕ_discrete j (decrement ip s).per_ip
      ≡ ite (ℕ_discrete ip j) (positive n) (lookup ℕ_discrete j s.per_ip)
unfolding decrement usize_dec
lookup-decrement ip n s h j =
    ground (arith, lookup-remove ℕ_discrete ip j s.per_ip, lookup-insert ℕ_discrete ip j n s.per_ip)

-- A present entry is removed, and its count goes down.
remove_entry_present :
    (a : SocketAddrV4) (s : Store) (e : Entry)
    → lookup addr_discrete a s.entries ≡ some e
    → remove_entry a s ≡ decrement a.ip (record s { entries = remove addr_discrete a s.entries })
unfolding remove_entry
remove_entry_present a s e h = rw (h, remove_entry)

pub remove_entry_parts :
    (a : SocketAddrV4) (s : Store) (e : Entry)
    → lookup addr_discrete a s.entries ≡ some e
    → ((remove_entry a s).entries ≡ remove addr_discrete a s.entries)
      × ((remove_entry a s).expirations ≡ s.expirations)
remove_entry_parts a s e h =
    rw (remove_entry_present a s e h)
      (decrement_parts a.ip (record s { entries = remove addr_discrete a s.entries }))

-- The counts stay right, and the count that goes down was positive.
remove_entry_tally :
    (a : SocketAddrV4) (s : Store) (e : Entry)
    → Distinct addr_discrete s.entries
    → ((ip : ℕ) → lookup ℕ_discrete ip s.per_ip ≡ positive (count (at_ip ip) s.entries))
    → lookup addr_discrete a s.entries ≡ some e
    → (ip : ℕ)
    → lookup ℕ_discrete ip (remove_entry a s).per_ip
      ≡ positive (count (at_ip ip) (remove_entry a s).entries)
remove_entry_tally a s e d tally h ip =
    let s' : Store = record s { entries = remove addr_discrete a s.entries } in
    let n = count (at_ip a.ip) s'.entries in
    let down =
      lookup-decrement a.ip n s'
        (ground (arith, tally a.ip, count-remove addr_discrete (at_ip a.ip) a s.entries e d h))
        ip in
    rw (remove_entry_present a s e h, (decrement_parts a.ip s').0, down)
      (ground (arith, tally ip, count-remove addr_discrete (at_ip ip) a s.entries e d h))

agree_rest :
    (t : ℕ) (a : SocketAddrV4) (e : Entry) (rest : List Expiration)
    (m : List (SocketAddrV4 × Entry)) (u : ℕ) (b : SocketAddrV4)
    → contains exp_discrete rest (t, a) ≡ false
    → lookup addr_discrete a m ≡ some e
    → e.expires_at ≡ t
    → contains exp_discrete ((t, a) ∷ rest) (u, b) ≡ expires_is (lookup addr_discrete b m) u
    → contains exp_discrete rest (u, b)
      ≡ expires_is (ite (addr_discrete a b) none (lookup addr_discrete b m)) u
unfolding contains
agree_rest t a e rest m u b gone q due h = elim (addr_discrete a b) [
  | yes p ↦
      rw (if_pos _ p)
        (elim (ℕ_discrete t u) [ yes p' ↦ rw (← p, ← p') gone | no n ↦ ground (arith) ])
  | no n ↦ rw (if_neg _ n) (ground (arith))
]

-- The first deadline names an entry; with the deadline and the entry gone the store is valid.
pub drop_first-IsValid :
    (s : Store) (t : ℕ) (a : SocketAddrV4) (rest : List Expiration)
    → IsValid s
    → s.expirations ≡ (t, a) ∷ rest
    → (e : Entry) × (lookup addr_discrete a s.entries ≡ some e)
      × (e.expires_at ≡ t)
      × IsValid (remove_entry a (record s { expirations = rest }))
unfolding contains
drop_first-IsValid s t a rest v h = go (lookup addr_discrete a s.entries) refl
  where
    up : IsAscending ((t, a) ∷ rest)
    up = subst IsAscending h v.ascending

    first : expires_is (lookup addr_discrete a s.entries) t ≡ true
    first = rw (← v.agree t a, h) (ground arith)

    go :
        (o : Option Entry)
        → lookup addr_discrete a s.entries ≡ o
        → (e : Entry) × (lookup addr_discrete a s.entries ≡ some e)
          × (e.expires_at ≡ t)
          × IsValid (remove_entry a (record s { expirations = rest }))
    go none q = absurd (cc (q, first))
    go (some e) q =
        let due : e.expires_at ≡ t = ground (arith, first) in
        let s' : Store = record s { expirations = rest } in
        let parts = remove_entry_parts a s' e q in
        (
          e,
          q,
          due,
          record {
            distinct = rw parts.0 (remove-Distinct addr_discrete a s.entries v.distinct);
            ascending = rw parts.1 up.1;
            agree = λ u b.
                rw (parts.0, parts.1, lookup-remove)
                  (agree_rest t a e rest s.entries u b (not-contains (t, a) rest up.0) q due (
                    subst
                      (λ x.
                        contains exp_discrete x (u, b)
                        ≡ expires_is (lookup addr_discrete b s.entries) u)
                      h (v.agree u b)));
            tally = remove_entry_tally a s' e v.distinct v.tally q;
          },
        )
