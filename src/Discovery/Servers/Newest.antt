-- ===== src/Discovery/Servers/Newest.antt =====
-- The list that is kept is the newest of all that were seen, in whatever order they came.
use iroh_content_discovery.Prelude.{
  ◌≡◌, refl, sym, subst, ◌⊎◌, inl, inr, true, false, Result, ok, err, Option, none, some, List, [],
  ◌∷◌, Bool-cases,
}
use iroh_content_discovery.Net.{SocketAddrV4}
use iroh_content_discovery.Discovery.Client.{UdpError}
use iroh_content_discovery.Discovery.Mutable.{MutableItem, older, older_irrefl, older_trans}
use iroh_content_discovery.Discovery.ServerList.{Dns}
use iroh_content_discovery.Discovery.Servers.{
  Sources, DhtAnswers, Discovery, usable, newer_of, accept_item, accept_all, key_matches,
  use_fallback, accept_fallback,
}
use iroh_content_discovery.Discovery.Servers.Refresh.{
  items_of, items_error, verdict_of, choose_peers, collect_peers, list_if_any, replace,
  refresh_with, bootstrapped, refresh,
}

abbrev pub Among : MutableItem → List MutableItem → Type 0
Among item [] = ⊥
Among item (other ∷ items) = (item ≡ other) ⊎ Among item items

-- The newest usable list among the items that were seen: none of them is newer. There is none only
-- if none of them can be used.
abbrev pub Newest : Dns → (MutableItem → Type 0) → Option MutableItem → Type 0
Newest dns Seen none = (item : MutableItem) → Seen item → usable dns item ≡ false
Newest dns Seen (some s) =
    (usable dns s ≡ true)
    × Seen s
    × ((item : MutableItem) → Seen item → usable dns item ≡ true → older s item ≡ false)

module _ (dns : Dns) where
  -- What an older list is not older than, a newer one is not.
  older_keeps :
      (old new item : MutableItem)
      → older old new ≡ true
      → older old item ≡ false
      → older new item ≡ false
  older_keeps old new item e h = elim (Bool-cases (older new item)) [
    | inl f ↦ absurd (let g = older_trans old new item e f in cc)
    | inr f ↦ f
  ]

  newer_of-Newest :
      (Seen : MutableItem → Type 0) (signed : Option MutableItem) (item : MutableItem)
      → usable dns item ≡ true
      → Newest dns Seen signed
      → Newest dns (λ i. Seen i ⊎ (i ≡ item)) (newer_of dns signed item)
  unfolding newer_of
  newer_of-Newest Seen none item u h = (
    u,
    inr refl,
    λ i seen v. elim seen [
      | inl s ↦ absurd (let w = h i s in cc)
      | inr e ↦ rw e (older_irrefl item)
    ],
  )
  newer_of-Newest Seen (some old) item u (v, s, h) = elim (Bool-cases (older old item)) [
    | inl e ↦ rw e (
      u,
      inr refl,
      λ i seen w. elim seen [
        | inl t ↦ older_keeps old item i e (h i t w)
        | inr f ↦ rw f (older_irrefl item)
      ],
    )
    | inr e ↦ rw e (v, inl s, λ i seen w. elim seen [ inl t ↦ h i t w | inr f ↦ rw f e ])
  ]

  -- An item that cannot be used makes no difference.
  unusable-Newest :
      (Seen : MutableItem → Type 0) (signed : Option MutableItem) (item : MutableItem)
      → usable dns item ≡ false
      → Newest dns Seen signed
      → Newest dns (λ i. Seen i ⊎ (i ≡ item)) signed
  unusable-Newest Seen none item u h = λ i seen. elim seen [ inl s ↦ h i s | inr e ↦ rw e u ]
  unusable-Newest Seen (some old) item u (v, s, h) = (
    v,
    inl s,
    λ i seen w. elim seen [
      | inl t ↦ h i t w
      | inr e ↦ absurd (let f : usable dns i ≡ false = rw e u in cc)
    ],
  )

  accept_item-Newest :
      (Seen : MutableItem → Type 0) (signed : Option MutableItem) (item : MutableItem)
      → Newest dns Seen signed
      → Newest dns (λ i. Seen i ⊎ (i ≡ item)) (accept_item dns signed item)
  unfolding accept_item
  accept_item-Newest Seen signed item h = elim (Bool-cases (usable dns item)) [
    | inl e ↦ rw e (newer_of-Newest Seen signed item e h)
    | inr e ↦ rw e (unusable-Newest Seen signed item e h)
  ]

  -- Two ways to say what was seen.
  Newest-equivalent :
      (P Q : MutableItem → Type 0) (signed : Option MutableItem)
      → ((i : MutableItem) → P i → Q i)
      → ((i : MutableItem) → Q i → P i)
      → Newest dns P signed
      → Newest dns Q signed
  Newest-equivalent P Q none f g h = λ i q. h i (g i q)
  Newest-equivalent P Q (some s) f g (u, seen, h) = (u, f s seen, λ i q. h i (g i q))

  -- The items of an answer are accepted in any order with one outcome, that of a maximum: a list that
  -- was seen, that can be used, and that no other is newer than.
  pub accept_all-Newest :
      (Seen : MutableItem → Type 0) (signed : Option MutableItem) (items : List MutableItem)
      → Newest dns Seen signed
      → Newest dns (λ i. Seen i ⊎ Among i items) (accept_all dns signed items)
  unfolding accept_all
  accept_all-Newest Seen signed [] h =
      Newest-equivalent Seen (λ i. Seen i ⊎ ⊥) signed (λ i s. inl s)
        (λ i s. elim s [ inl t ↦ t | inr e ↦ absurd e ]) h
  accept_all-Newest Seen signed (item ∷ items) h =
      Newest-equivalent (λ i. (Seen i ⊎ (i ≡ item)) ⊎ Among i items)
        (λ i. Seen i ⊎ Among i (item ∷ items)) (accept_all dns (accept_item dns signed item) items)
        (λ i s. elim s [
          | inl t ↦ elim t [ inl v ↦ inl v | inr e ↦ inr (inl e) ]
          | inr m ↦ inr (inr m)
        ])
        (λ i s. elim s [
          | inl v ↦ inl (inl v)
          | inr t ↦ elim t [ inl e ↦ inl (inr e) | inr m ↦ inr m ]
        ])
        (accept_all-Newest (λ i. Seen i ⊎ (i ≡ item)) (accept_item dns signed item) items
          (accept_item-Newest Seen signed item h))

  -- The list after a refresh: the newest of all that were seen, or, where there is none, the stored
  -- copy, which can be used and has the key of the sources.
  abbrev pub Kept : Sources → (MutableItem → Type 0) → Option MutableItem → Type 0
  Kept sources Seen signed =
      Newest dns Seen signed
      ⊎ (Newest dns Seen none
          × (item : MutableItem) × (signed ≡ some item)
          × (sources.fallback_list ≡ some item)
          × (usable dns item ≡ true)
          × (key_matches dns sources.list_key item ≡ true))

  accept_fallback-Kept :
      (sources : Sources) (Seen : MutableItem → Type 0) (o : Option MutableItem)
      → sources.fallback_list ≡ o
      → Newest dns Seen none
      → Kept sources Seen (accept_fallback dns sources o)
  unfolding accept_fallback accept_item newer_of
  accept_fallback-Kept sources Seen none e h = inl h
  accept_fallback-Kept sources Seen (some item) e h =
      elim (Bool-cases (key_matches dns sources.list_key item)) [
        | inr f ↦ rw f (inl h)
        | inl f ↦ elim (Bool-cases (usable dns item)) [
          | inr g ↦ rw (f, g) (inl h)
          | inl g ↦ rw (f, g) (inr (h, item, refl, e, g, f))
        ]
      ]

  use_fallback-Kept :
      (sources : Sources) (Seen : MutableItem → Type 0) (signed : Option MutableItem)
      → Newest dns Seen signed
      → Kept sources Seen (use_fallback dns sources signed)
  unfolding use_fallback
  use_fallback-Kept sources Seen (some item) h = inl h
  use_fallback-Kept sources Seen none h =
      accept_fallback-Kept sources Seen sources.fallback_list refl h

  replace_signed :
      (d : Discovery) (failure : Option UdpError) (o : Result UdpError (List SocketAddrV4))
      → (replace d failure o).discovery.signed ≡ d.signed
  unfolding replace
  replace_signed d failure (err e) = refl
  replace_signed d (some e) (ok peers) = refl
  replace_signed d none (ok peers) = refl

  refresh_with_signed :
      (sources : Sources) (d : Discovery) (answers : DhtAnswers) (signed : Option MutableItem)
      → (refresh_with dns sources d answers signed).discovery.signed ≡ signed
  unfolding refresh_with
  refresh_with_signed sources d answers signed =
      replace_signed (record d { signed = signed }) answers.replace_error
        (choose_peers sources (verdict_of (list_if_any dns signed))
          (items_error sources.list_key answers.items_ending)
          (collect_peers [] answers.peers answers.peers_ending))

  bootstrapped_signed :
      (sources : Sources) (d : Discovery) (answers : DhtAnswers) (o : Option UdpError)
      → o ≡ none
      → (bootstrapped dns sources d answers o).discovery.signed
        ≡ use_fallback dns sources (accept_all dns d.signed (items_of sources.list_key answers))
  unfolding bootstrapped
  bootstrapped_signed sources d answers (some e) h = absurd cc
  bootstrapped_signed sources d answers none h =
      refresh_with_signed sources d answers
        (use_fallback dns sources (accept_all dns d.signed (items_of sources.list_key answers)))

  -- A refresh keeps the newest usable list of all that the index has seen, the answered ones
  -- included, whether or not it succeeds: there is no rollback to an older list. Only where none was
  -- ever seen is it the stored copy, if that has the key of the sources and can be used. The bootstrap
  -- has not failed.
  pub refresh-Newest :
      (sources : Sources) (d : Discovery) (answers : DhtAnswers) (Seen : MutableItem → Type 0)
      → answers.bootstrap_error ≡ none
      → Newest dns Seen d.signed
      → Kept sources
          (λ i. Seen i ⊎ Among i (items_of sources.list_key answers))
          (refresh dns sources d answers).discovery.signed
  unfolding refresh
  refresh-Newest sources d answers Seen e h =
      let items = items_of sources.list_key answers in
      subst (Kept sources (λ i. Seen i ⊎ Among i items))
        (sym (bootstrapped_signed sources d answers answers.bootstrap_error e))
        (use_fallback-Kept sources (λ i. Seen i ⊎ Among i items) (accept_all dns d.signed items)
          (accept_all-Newest Seen d.signed items h))
