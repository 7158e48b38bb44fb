-- ===== src/Index/Store/Values.antt =====
-- Where the entries of the store come from: the store keeps entries or drops them, and only a
-- successful `put` adds one, with a value that fits a datagram.
use iroh_content_discovery.Prelude.{
  ℕ, ◌≤◌, ◌≡◌, refl, sym, ◌∙◌, ◌⊎◌, inl, inr, Option, some, List, arith, ok, err, length, Result,
}
use iroh_content_discovery.Prelude.Maps.{lookup}
use iroh_content_discovery.Net.{SocketAddrV4, addr_discrete}
use iroh_content_discovery.Index.Store.{Store, Entry, Limits, PutError, gc, get, put}
use iroh_content_discovery.Index.Store.Invariant.{IsValid}
use iroh_content_discovery.Index.Store.Gc.{live, gc-IsCollected}
use iroh_content_discovery.Index.Store.Room.{IsWithin, gc-IsWithin, victim, without_key}
use iroh_content_discovery.Index.Store.Put.{put_ok-fits, put-entries, put_fails, get-live}

live-eq-some : (now : ℕ) (o : Option Entry) (e : Entry) → live now o ≡ some e → o ≡ some e
live-eq-some now o e h = ground arith

without_key-eq-some :
    (v : Option SocketAddrV4) (b : SocketAddrV4) (o : Option Entry) (e : Entry)
    → without_key v b o ≡ some e
    → o ≡ some e
without_key-eq-some v b o e h = ground arith

pub get-keeps :
    (addr : SocketAddrV4) (now : ℕ) (s : Store) (b : SocketAddrV4) (e : Entry)
    → IsValid s
    → lookup addr_discrete b (get addr now s).0.entries ≡ some e
    → lookup addr_discrete b s.entries ≡ some e
get-keeps addr now s b e v h = live-eq-some now _ e (sym ((get-live addr now s v).1.kept b) ∙ h)

Result-cases : (r : Result PutError (Unit {0})) → (r ≡ ok tt) ⊎ ((e : PutError) × (r ≡ err e))
Result-cases (ok tt) = inl refl
Result-cases (err e) = inr (e, refl)

module _ (addr : SocketAddrV4) (value : List ℕ) (now : ℕ) (l : Limits) (s : Store) (v : IsValid s)
    (w : IsWithin l s) where
  -- An entry after `put` was there before, or it is the one that was put.
  pub put-adds :
      (b : SocketAddrV4) (e : Entry)
      → lookup addr_discrete b (put addr value now l s).0.entries ≡ some e
      → (lookup addr_discrete b s.entries ≡ some e)
        ⊎ ((b ≡ addr) × (e.value ≡ value) × (length value ≤ 1024))
  put-adds b e h = elim (Result-cases (put addr value now l s).1) [
    | inl done ↦ elim (addr_discrete addr b) [
      | yes p ↦ inr (
        sym p,
        ground (arith, put-entries addr value now l s v w done b),
        ground (arith, put_ok-fits addr value now l s v w done),
      )
      | no n ↦ inl (
          live-eq-some now _ e (
            without_key-eq-some (victim addr l (gc now s)) b _ e
              (ground (arith, put-entries addr value now l s v w done b))))
    ]
    | inr (f, failed) ↦
        let same = (put_fails addr value now l s v w f failed).0 in
        inl (live-eq-some now _ e (sym ((gc-IsCollected now s v).kept b) ∙ (rw same at h)))
  ]

pub get-IsWithin :
    (addr : SocketAddrV4) (now : ℕ) (l : Limits) (s : Store)
    → IsValid s
    → IsWithin l s
    → IsWithin l (get addr now s).0
unfolding get
get-IsWithin addr now l s v w = gc-IsWithin l now s v w
