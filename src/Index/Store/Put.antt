-- ===== src/Index/Store/Put.antt =====
-- `put` and `get`: the invariant, the limits, and what each reads and writes.
use iroh_content_discovery.Prelude.{
  ℕ, ◌≡◌, refl, ap, Bool, true, false, none, some, List, if◌then◌else◌, arith, ite, inl, inr,
  Option-cases, Bool-cases, if_pos, leb, ok, err, ◌⊎◌,
}
use mathlib.Core.Option
use iroh_content_discovery.Prelude.Maps.{lookup, count-remove, lookup-insert, remove_absent}
use iroh_content_discovery.Net.{SocketAddrV4, addr_discrete}
use iroh_content_discovery.Index.Store.{
  Store, Entry, Limits, PutError, too_large, full, gc, get, put, write, oversized, deadline,
}
use iroh_content_discovery.Index.Store.Invariant.{IsValid, at_ip}
use iroh_content_discovery.Index.Store.Gc.{live, IsCollected, gc-IsCollected}
use iroh_content_discovery.Index.Store.Write.{write-entries, write-IsValid}
use iroh_content_discovery.Index.Store.Room.{
  any, IsWithin, gc-IsWithin, victim, without_key, IsRoom, Refused, make_room-IsRoom,
}

write-IsWithin :
    (addr : SocketAddrV4) (e : Entry) (l : Limits) (s r : Store)
    → IsWithin l s
    → IsRoom addr l s r
    → IsWithin l (write addr e r)
write-IsWithin addr e l s r w room = elim (Option-cases (lookup addr_discrete addr r.entries)) [
  | inl h ↦
      let (total, quota) = room.room h in
      record {
        total = rw write-entries (ground (arith, remove_absent addr_discrete addr r.entries h));
        per_host = λ ip. rw write-entries (
            ground (
              arith,
              remove_absent addr_discrete addr r.entries h,
              room.fewer (at_ip ip),
              w.per_host ip,
            ));
      }
  | inr (old, h) ↦
      let less = λ (p : SocketAddrV4 → Bool).
        count-remove addr_discrete p addr r.entries old room.valid.distinct h in
      record {
        total = rw write-entries (ground (arith, less any, room.fewer any, w.total));
        per_host = λ ip.
            rw write-entries
              (ground (arith, less (at_ip ip), room.fewer (at_ip ip), w.per_host ip));
      }
]

module _ (addr : SocketAddrV4) (value : List ℕ) (now : ℕ) (l : Limits) (s : Store) (v : IsValid s)
    (w : IsWithin l s) where
  abbrev written : Entry
  written = record { value = value; expires_at = deadline now l }

  -- The three ways in which `put` ends.
  put_cases :
      ((oversized value l ≡ true) × (put addr value now l s ≡ (gc now s, err too_large)))
      ⊎ ((r : Store) × (oversized value l ≡ false)
          × IsRoom addr l (gc now s) r
          × (put addr value now l s ≡ (write addr written r, ok tt)))
      ⊎ (Refused addr l (gc now s)
          × (oversized value l ≡ false)
          × (put addr value now l s ≡ (gc now s, err full)))
  unfolding put
  put_cases = elim (Bool-cases (oversized value l)) [
    | inl big ↦ inl (big, ground arith)
    | inr fits ↦
        let c = gc-IsCollected now s v in
        elim (make_room-IsRoom addr l (gc now s) c.valid (gc-IsWithin l now s v w)) [
          | inl (r, e, room) ↦ inr (inl (r, fits, room, ground arith))
          | inr (e, refused) ↦ inr (inr (refused, fits, ground arith))
        ]
  ]

  -- On a valid store within its limits, whatever `put` answers, the store is valid afterwards and
  -- holds at most `max_entries` entries, and at most `max_entries_per_ip` of one address.
  pub put-IsValid : IsValid (put addr value now l s).0 × IsWithin l (put addr value now l s).0
  put-IsValid =
      let c = gc-IsCollected now s v in
      let in_limits = gc-IsWithin l now s v w in
      elim put_cases [
        | inl (_, e) ↦ rw e (c.valid, in_limits)
        | inr (inl (r, _, room, e)) ↦ rw e (
          write-IsValid addr written r room.valid,
          write-IsWithin addr written l _ r in_limits room,
        )
        | inr (inr (_, _, e)) ↦ rw e (c.valid, in_limits)
      ]

  pub put_ok-fits : (put addr value now l s).1 ≡ ok tt → oversized value l ≡ false
  put_ok-fits done = elim put_cases [
    | inl (_, e) ↦ absurd (cc (done, e))
    | inr (inl (r, fits, _, e)) ↦ fits
    | inr (inr (_, fits, e)) ↦ fits
  ]

  -- When `put` succeeds, the address reads as the new entry, and every other address as before
  -- without what has expired and without the evicted entry.
  pub put-entries :
      (put addr value now l s).1 ≡ ok tt
      → (b : SocketAddrV4)
      → lookup addr_discrete b (put addr value now l s).0.entries
        ≡ ite
            (addr_discrete addr b)
            (some written)
            (without_key (victim addr l (gc now s)) b (live now (lookup addr_discrete b s.entries)))
  put-entries done b = elim put_cases [
    | inl (_, e) ↦ absurd (cc (done, e))
    | inr (inl (r, _, room, e)) ↦
        rw (e, write-entries, lookup-insert, room.kept b, (gc-IsCollected now s v).kept b)
    | inr (inr (_, _, e)) ↦ absurd (cc (done, e))
  ]

  pub put_fails :
      (e : PutError)
      → (put addr value now l s).1 ≡ err e
      → ((put addr value now l s).0 ≡ gc now s)
        × (((e ≡ too_large) × (oversized value l ≡ true))
            ⊎ ((e ≡ full) × (oversized value l ≡ false) × Refused addr l (gc now s)))
  put_fails e failed = elim put_cases [
    | inl (big, q) ↦ (ap (λ x. x.0) q, inl (cc (failed, q), big))
    | inr (inl (r, _, _, q)) ↦ absurd (cc (failed, q))
    | inr (inr (refused, fits, q)) ↦ (ap (λ x. x.0) q, inr (cc (failed, q), fits, refused))
  ]

  -- A `get` at any later time returns the value that was put, until its deadline.
  pub get-put_self :
      (later : ℕ)
      → (put addr value now l s).1 ≡ ok tt
      → (get addr later (put addr value now l s).0).1
        ≡ (if leb (deadline now l) later then none else some value)
  unfolding get
  get-put_self later done =
      let s' = (put addr value now l s).0 in
      let c = gc-IsCollected later s' put-IsValid.0 in
      rw (c.kept addr, put-entries done addr, if_pos (addr_discrete addr addr) refl) (ground arith)

-- `get` returns the value of the entry unless it has expired, and drops what has expired.
pub get-live :
    (addr : SocketAddrV4) (now : ℕ) (s : Store)
    → IsValid s
    → ((get addr now s).1
        ≡ Option.map (λ (e : Entry). e.value) (live now (lookup addr_discrete addr s.entries)))
      × IsCollected now s (get addr now s).0
unfolding get
get-live addr now s v = let c = gc-IsCollected now s v in (ap (Option.map _) (c.kept addr), c)
