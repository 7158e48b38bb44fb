-- ===== src/Index/Store/Write.antt =====
-- The end of `put`: the entry is written over an older one, or counted as a new one.
use iroh_content_discovery.Prelude.{
  ℕ, ◌+◌, ◌≡◌, none, some, arith, ℕ_discrete, inl, inr, Option-cases,
}
use iroh_content_discovery.Prelude.Maps.{
  count, lookup, insert, lookup-insert, insert-Distinct, remove_absent, count-remove,
}
use iroh_content_discovery.Prelude.Sets.{contains, discard, contains-discard}
use iroh_content_discovery.Net.{SocketAddrV4, addr_discrete}
use iroh_content_discovery.Index.Store.{Store, Entry, held, write}
use iroh_content_discovery.Index.Store.Expirations.{
  exp_discrete, insert_expiration, discard-IsAscending, insert_expiration-IsAscending,
  contains-insert_expiration,
}
use iroh_content_discovery.Index.Store.Invariant.{IsValid, expires_is, at_ip, positive}

-- Whether the address is new or not, its entry is the one written and no other entry changes.
pub write-entries :
    (a : SocketAddrV4) (e : Entry) (s : Store)
    → (write a e s).entries ≡ insert addr_discrete a e s.entries
unfolding write
write-entries a e s = ground arith

module _ (a : SocketAddrV4) (e : Entry) (s : Store) (v : IsValid s) where
  agree_new :
      lookup addr_discrete a s.entries ≡ none
      → (u : ℕ) (b : SocketAddrV4)
      → contains exp_discrete (insert_expiration (e.expires_at, a) s.expirations) (u, b)
        ≡ expires_is (lookup addr_discrete b (insert addr_discrete a e s.entries)) u
  agree_new h u b = elim (addr_discrete a b) [
    | yes p ↦ ground (
      arith,
      contains-insert_expiration (e.expires_at, a) (u, b) s.expirations,
      lookup-insert addr_discrete a b e s.entries,
      v.agree u b,
    )
    | no n ↦ ground (
      arith,
      contains-insert_expiration (e.expires_at, a) (u, b) s.expirations,
      lookup-insert addr_discrete a b e s.entries,
      v.agree u b,
    )
  ]

  agree_old :
      (old : Entry)
      → lookup addr_discrete a s.entries ≡ some old
      → (u : ℕ) (b : SocketAddrV4)
      → contains exp_discrete
          (insert_expiration
            (e.expires_at, a)
            (discard exp_discrete (old.expires_at, a) s.expirations))
          (u, b)
        ≡ expires_is (lookup addr_discrete b (insert addr_discrete a e s.entries)) u
  agree_old old h u b =
      let out = discard exp_discrete (old.expires_at, a) s.expirations in
      let put = contains-insert_expiration (e.expires_at, a) (u, b) out in
      let off = contains-discard exp_discrete (old.expires_at, a) (u, b) s.expirations in
      let now = lookup-insert addr_discrete a b e s.entries in
      elim (addr_discrete a b) [
        | yes p ↦ ground (arith, put, off, now, v.agree u b)
        | no n ↦ ground (arith, put, off, now, v.agree u b)
      ]

  tally_new :
      lookup addr_discrete a s.entries ≡ none
      → (ip : ℕ)
      → lookup ℕ_discrete ip (insert ℕ_discrete a.ip (held a.ip s + 1) s.per_ip)
        ≡ positive (count (at_ip ip) (insert addr_discrete a e s.entries))
  unfolding held
  tally_new h ip =
      rw (lookup-insert, remove_absent addr_discrete a s.entries h)
        (ground (arith, v.tally ip, v.tally a.ip))

  tally_old :
      (old : Entry)
      → lookup addr_discrete a s.entries ≡ some old
      → (ip : ℕ)
      → lookup ℕ_discrete ip s.per_ip
        ≡ positive (count (at_ip ip) (insert addr_discrete a e s.entries))
  tally_old old h ip =
      ground (arith, v.tally ip, count-remove addr_discrete (at_ip ip) a s.entries old v.distinct h)

  -- Writing an entry keeps the invariant.
  pub write-IsValid : IsValid (write a e s)
  unfolding write
  write-IsValid = elim (Option-cases (lookup addr_discrete a s.entries)) [
    | inl h ↦
        rw (h, write)
          (record {
            distinct = insert-Distinct addr_discrete a e s.entries v.distinct;
            ascending = insert_expiration-IsAscending (e.expires_at, a) s.expirations v.ascending;
            agree = agree_new h;
            tally = tally_new h;
          })
    | inr (old, h) ↦
        rw (h, write)
          (record {
            distinct = insert-Distinct addr_discrete a e s.entries v.distinct;
            ascending =
                insert_expiration-IsAscending (e.expires_at, a) _
                  (discard-IsAscending (old.expires_at, a) s.expirations v.ascending);
            agree = agree_old old h;
            tally = tally_old old h;
          })
  ]
