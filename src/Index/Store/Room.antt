-- ===== src/Index/Store/Room.antt =====
-- The middle of `put`: the quota of a new address, and the eviction from a full store.
use iroh_content_discovery.Prelude.{
  ℕ, ◌≤◌, ◌<◌, ◌≡◌, refl, subst, Bool, true, false, Option, none, some, List, [], ◌∷◌,
  if◌then◌else◌, arith, ite, inl, inr, Option-cases, Bool-cases, if_pos, leb, ok, err, length, ◌⊎◌,
}
use iroh_content_discovery.Prelude.Maps.{count, lookup, lookup-remove, count-remove, contains_key}
use iroh_content_discovery.Prelude.Sets.{contains, discard}
use iroh_content_discovery.Net.{SocketAddrV4, addr_discrete}
use iroh_content_discovery.Index.Store.{
  Store, Entry, Limits, full, remove_entry, gc, make_room, len, held,
}
use iroh_content_discovery.Index.Store.Expirations.{
  Expiration, exp_discrete, IsAscending, discard-first,
}
use iroh_content_discovery.Index.Store.Invariant.{
  IsValid, drop_first-IsValid, remove_entry_parts, at_ip,
}
use iroh_content_discovery.Index.Store.Gc.{gc-IsCollected}

abbrev pub any : SocketAddrV4 → Bool
any a = true

pub len-count : (m : List (SocketAddrV4 × Entry)) → length m ≡ count any m
len-count [] = refl
len-count (x ∷ m) = omega (arith, len-count m)

-- The store stays within the configured numbers of entries.
pub record IsWithin (l : Limits) (s : Store) : Type 0 where
  pub total : count any s.entries ≤ l.max_entries
  pub per_host : (ip : ℕ) → count (at_ip ip) s.entries ≤ l.max_entries_per_ip

pub gc-IsWithin :
    (l : Limits) (now : ℕ) (s : Store) → IsValid s → IsWithin l s → IsWithin l (gc now s)
gc-IsWithin l now s v w = record {
  total = omega (arith, w.total, (gc-IsCollected now s v).fewer any);
  per_host = λ ip. omega (arith, w.per_host ip, (gc-IsCollected now s v).fewer (at_ip ip));
}

-- The entry that makes room: the first deadline, when a new address finds the store full.
unfoldable pub victim : SocketAddrV4 → Limits → Store → Option SocketAddrV4
unfolding len
victim addr l s =
    if contains_key addr_discrete addr s.entries
    then none
    else if leb l.max_entries (len s)
    then elim s.expirations [ [] ↦ none | (t, oldest) ∷ _ ↦ some oldest ]
    else none

abbrev pub without_key : Option SocketAddrV4 → SocketAddrV4 → Option Entry → Option Entry
without_key none b o = o
without_key (some a) b o = ite (addr_discrete a b) none o

-- What `make_room` gives when it succeeds.
pub record IsRoom (addr : SocketAddrV4) (l : Limits) (s r : Store) : Type 0 where
  pub valid : IsValid r
  pub kept :
      (b : SocketAddrV4)
      → lookup addr_discrete b r.entries
        ≡ without_key (victim addr l s) b (lookup addr_discrete b s.entries)
  pub room :
      lookup addr_discrete addr r.entries ≡ none
      → (count any r.entries < l.max_entries)
        × (count (at_ip addr.ip) r.entries < l.max_entries_per_ip)
  pub fewer : (p : SocketAddrV4 → Bool) → count p r.entries ≤ count p s.entries

evict-IsRoom :
    (addr : SocketAddrV4) (l : Limits) (s : Store) (t : ℕ) (a : SocketAddrV4)
    (rest : List Expiration)
    → IsValid s
    → IsWithin l s
    → s.expirations ≡ (t, a) ∷ rest
    → victim addr l s ≡ some a
    → count (at_ip addr.ip) s.entries < l.max_entries_per_ip
    → IsRoom addr l s
        (remove_entry a (record s { expirations = discard exp_discrete (t, a) s.expirations }))
evict-IsRoom addr l s t a rest v w h vic quota =
    let s' : Store = record s { expirations = rest } in
    let (e, q, _, v') = drop_first-IsValid s t a rest v h in
    let parts = remove_entry_parts a s' e q in
    let less =
      λ (p : SocketAddrV4 → Bool). count-remove addr_discrete p a s.entries e v.distinct q in
    let gone : discard exp_discrete (t, a) s.expirations ≡ rest =
      rw h (discard-first (t, a) rest (subst IsAscending h v.ascending)) in
    rw gone (record {
      valid = v';
      kept = λ b. rw (vic, parts.0, lookup-remove);
      room = λ _. rw parts.0 (omega (arith, w.total, less any, quota, less (at_ip addr.ip)));
      fewer = λ p. rw parts.0 (ground (arith, less p));
    })

pub List-cases :
    (xs : List Expiration)
    → (xs ≡ []) ⊎ ((x : Expiration) × (rest : List Expiration) × (xs ≡ x ∷ rest))
List-cases [] = inl refl
List-cases (x ∷ rest) = inr (x, rest, refl)

-- `make_room` fails only for a new address, whose quota is used up or for which the store has no
-- entry to evict.
abbrev pub Refused : SocketAddrV4 → Limits → Store → Type 0
Refused addr l s =
    (lookup addr_discrete addr s.entries ≡ none)
    × ((l.max_entries_per_ip ≤ count (at_ip addr.ip) s.entries) ⊎ (l.max_entries ≡ 0))

no_deadlines :
    (s : Store) (m : List (SocketAddrV4 × Entry))
    → IsValid s
    → s.entries ≡ m
    → s.expirations ≡ []
    → length m ≡ 0
unfolding contains lookup
no_deadlines s [] v h k = refl
no_deadlines s ((a, e) ∷ m) v h k =
    let found : lookup addr_discrete a s.entries ≡ some e =
      rw h (if_pos (addr_discrete a a) refl _ _) in
    let gone : contains exp_discrete s.expirations (e.expires_at, a) ≡ false = rw k in
    absurd (ground (arith, v.agree e.expires_at a))

keep-IsRoom :
    (addr : SocketAddrV4) (l : Limits) (s : Store)
    → IsValid s
    → victim addr l s ≡ none
    → (lookup addr_discrete addr s.entries ≡ none
        → (count any s.entries < l.max_entries)
          × (count (at_ip addr.ip) s.entries < l.max_entries_per_ip))
    → IsRoom addr l s s
keep-IsRoom addr l s v vic r = record {
  valid = v;
  kept = λ b. rw vic;
  room = r;
  fewer = λ p. omega arith;
}

make_room_fresh :
    (addr : SocketAddrV4) (l : Limits) (s : Store)
    → IsValid s
    → IsWithin l s
    → lookup addr_discrete addr s.entries ≡ none
    → ((r : Store) × (make_room addr l s ≡ ok r) × IsRoom addr l s r)
      ⊎ ((make_room addr l s ≡ err full) × Refused addr l s)
unfolding make_room victim held len
make_room_fresh addr l s v w h = elim (Bool-cases (leb l.max_entries_per_ip (held addr.ip s))) [
  | inl q ↦ inr (ground arith, (h, inl (ground (arith, v.tally addr.ip))))
  | inr q ↦
      let quota : count (at_ip addr.ip) s.entries < l.max_entries_per_ip =
        ground (arith, v.tally addr.ip) in
      elim (Bool-cases (leb l.max_entries (length s.entries))) [
        | inr r ↦ inl (
          s,
          ground arith,
          keep-IsRoom addr l s v (ground arith) (λ _. (ground (arith, len-count s.entries), quota)),
        )
        | inl r ↦ elim (List-cases s.expirations) [
          | inl e ↦ inr (ground arith, (h, inr (ground (arith, no_deadlines s s.entries v refl e))))
          | inr ((t, a), rest, e) ↦
              inl (_, ground arith, evict-IsRoom addr l s t a rest v w e (ground arith) quota)
        ]
      ]
]

pub make_room-IsRoom :
    (addr : SocketAddrV4) (l : Limits) (s : Store)
    → IsValid s
    → IsWithin l s
    → ((r : Store) × (make_room addr l s ≡ ok r) × IsRoom addr l s r)
      ⊎ ((make_room addr l s ≡ err full) × Refused addr l s)
unfolding make_room victim
make_room-IsRoom addr l s v w = elim (Option-cases (lookup addr_discrete addr s.entries)) [
  | inl h ↦ make_room_fresh addr l s v w h
  | inr (e, h) ↦ inl (s, ground arith, keep-IsRoom addr l s v (ground arith) (λ n. absurd (cc)))
]
