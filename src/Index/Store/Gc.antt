-- ===== src/Index/Store/Gc.antt =====
-- `gc`: the loop over the deadlines removes the expired entries and no others.
use iroh_content_discovery.Prelude.{
  ℕ, ◌≤◌, ◌<◌, ◌≡◌, refl, subst, sym, Bool, false, Option, none, some, List, [], ◌∷◌, if◌then◌else◌,
  arith, inl, inr, Option-cases, Bool-cases, ltb, leb, All, All-map,
}
use iroh_content_discovery.Prelude.Maps.{count, lookup, lookup-remove, count-remove}
use iroh_content_discovery.Prelude.Sets.{contains}
use iroh_content_discovery.Net.{SocketAddrV4, addr_discrete}
use iroh_content_discovery.Index.Store.{Store, Entry, remove_entry, gc, gc_loop}
use iroh_content_discovery.Index.Store.Expirations.{
  Expiration, exp_discrete, IsAscending, exp_ltb-le, All-contains,
}
use iroh_content_discovery.Index.Store.Invariant.{IsValid, drop_first-IsValid, remove_entry_parts}

-- What a reader at time `now` may still see of an entry.
abbrev pub live : ℕ → Option Entry → Option Entry
live now none = none
live now (some e) = if leb e.expires_at now then none else some e

-- `r` is `s` without the entries that have expired at `now`.
pub record IsCollected (now : ℕ) (s r : Store) : Type 0 where
  pub valid : IsValid r
  pub kept :
      (a : SocketAddrV4)
      → lookup addr_discrete a r.entries ≡ live now (lookup addr_discrete a s.entries)
  pub fewer : (p : SocketAddrV4 → Bool) → count p r.entries ≤ count p s.entries

-- Where every deadline is at least `t`, so is every entry's.
entry-le :
    (s : Store) (t : ℕ) (a : SocketAddrV4) (e : Entry)
    → IsValid s
    → All (λ x. t ≤ x.0) s.expirations
    → lookup addr_discrete a s.entries ≡ some e
    → t ≤ e.expires_at
entry-le s t a e v h q =
    All-contains (λ x. t ≤ x.0) (e.expires_at, a) s.expirations h
      (ground (arith, v.agree e.expires_at a))

live_all :
    (now : ℕ) (s : Store)
    → ((a : SocketAddrV4) (e : Entry)
        → lookup addr_discrete a s.entries ≡ some e
        → now < e.expires_at)
    → IsValid s
    → IsCollected now s s
live_all now s later v = record {
  valid = v;
  kept = λ a. elim (Option-cases (lookup addr_discrete a s.entries)) [
    | inl h ↦ rw h
    | inr (e, h) ↦ let l = later a e h in ground arith
  ];
  fewer = λ p. omega arith;
}

pub first_le :
    (t : ℕ) (a : SocketAddrV4) (rest : List Expiration)
    → IsAscending ((t, a) ∷ rest)
    → All (λ (x : Expiration). t ≤ x.0) ((t, a) ∷ rest)
first_le t a rest up = (omega arith, All-map (λ y h. exp_ltb-le (t, a) y h) rest up.0)

-- One round of the loop, followed by the others.
collect_first :
    (now t : ℕ) (a : SocketAddrV4) (rest : List Expiration) (s r : Store)
    → IsValid s
    → s.expirations ≡ (t, a) ∷ rest
    → t ≤ now
    → IsCollected now (remove_entry a (record s { expirations = rest })) r
    → IsCollected now s r
collect_first now t a rest s r v h due c =
    let (e, q, at, _) = drop_first-IsValid s t a rest v h in
    let s' : Store = record s { expirations = rest } in
    let parts = remove_entry_parts a s' e q in
    record {
      valid = c.valid;
      kept = λ b. ground (arith, c.kept b, parts.0, lookup-remove addr_discrete a b s.entries);
      fewer = λ p.
          ground
            (arith, c.fewer p, parts.0, count-remove addr_discrete p a s.entries e v.distinct q);
    }

gc_loop-IsCollected :
    (now : ℕ) (xs : List Expiration) (s : Store)
    → s.expirations ≡ xs
    → IsValid s
    → IsCollected now s (gc_loop now xs s)
unfolding gc_loop
gc_loop-IsCollected now [] s h v =
    live_all now s
      (λ a e q. absurd (ground (arith, v.agree e.expires_at a, empty_contains (e.expires_at, a)))) v
  where
    empty_contains : (x : Expiration) → contains exp_discrete s.expirations x ≡ false
    empty_contains x = rw h (unfold contains in refl)
gc_loop-IsCollected now ((t, a) ∷ rest) s h v = elim (Bool-cases (ltb now t)) [
  | inl late ↦ rw late (
      live_all now s
        (λ b e q.
          let l =
            entry-le s t b e v
              (subst (All (λ x. t ≤ x.0)) (sym h)
                (first_le t a rest (subst IsAscending h v.ascending)))
              q in
          ground arith)
        v)
  | inr due ↦ rw due (
      let s' : Store = record s { expirations = rest } in
      let (e, q, _, v') = drop_first-IsValid s t a rest v h in
      collect_first now t a rest s _ v h (ground arith)
        (gc_loop-IsCollected now rest (remove_entry a s') (remove_entry_parts a s' e q).1 v'))
]

-- After `gc now` the store is valid and holds exactly the entries whose deadline is after `now`.
pub gc-IsCollected : (now : ℕ) (s : Store) → IsValid s → IsCollected now s (gc now s)
unfolding gc
gc-IsCollected now s v = gc_loop-IsCollected now s.expirations s refl v
