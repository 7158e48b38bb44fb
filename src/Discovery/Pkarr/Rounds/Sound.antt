-- ===== src/Discovery/Pkarr/Rounds/Sound.antt =====
-- Once a waiter returns, everything set before it waited has been published.
use iroh_content_discovery.Prelude.{
  ℕ, ◌+◌, ◌≤◌, ◌<◌, ◌≡◌, ◌⊎◌, refl, sym, ap, subst, ◌∙◌, inl, inr, Bool, true, false, some, List,
  [], ◌∷◌, ◌++◌, max, arith, leb, length, Bool-cases, All, All-map,
}
use mathlib.Core.Option.{some-injective}
use iroh_content_discovery.Prelude.Maps.{insert, remove}
use iroh_content_discovery.Discovery.Client.{bytes_discrete}
use iroh_content_discovery.Discovery.Mutable.{MutableItem}
use iroh_content_discovery.Discovery.Pkarr.{
  Signing, Publisher, insert_packet, remove_packet, sign_entries, sign_all, is_published,
}
use iroh_content_discovery.Discovery.Pkarr.Rounds.{
  Edit, sets, removes, replay, Publication, idle, counted, signed, World, start_world, edit_stored,
  has_counted, round_ended, signs_at, PublisherStep, inserts, takes_out, counts, reads, signs,
  aborts, ends, Leads, stays, goes,
}

-- The sequences fall from the newest to the oldest, below a number.
abbrev pub FallBelow : ℕ → List ℕ → Type 0
FallBelow n [] = Unit
FallBelow n (x ∷ xs) = (x < n) × FallBelow x xs

FallBelow-mono : (m n : ℕ) (xs : List ℕ) → m ≤ n → FallBelow m xs → FallBelow n xs
FallBelow-mono m n [] h f = tt
FallBelow-mono m n (x ∷ xs) h (a, f) = (omega arith, f)

All-split :
    (P : ℕ → Type 0) (before after : List ℕ) (n : ℕ)
    → All P (before ++ n ∷ after)
    → P n × All P (before ++ after)
All-split P [] after n (p, ps) = (p, ps)
All-split P (m ∷ before) after n (p, ps) =
    let (q, qs) = All-split P before after n ps in (q, (p, qs))

-- An edit that came to a count behind some generation, or is among so many edits.
abbrev Within : ℕ → ℕ → ℕ × ℕ → Type 0
Within generation many e = (generation < e.1) ⊎ (e.0 ≤ many)

module _ (s : Signing) where
  -- Items are those of the packets after some edits, at some sequence.
  abbrev pub AreSigned : List (Edit s) → List MutableItem → Type 0
  AreSigned edits items = (seq : ℕ) × (items ≡ sign_entries s seq (replay s edits))

  -- Items of the packets after some of the edits, with all those that returned up to a generation.
  record Covers (w : World s) (generation : ℕ) (edits : List (Edit s)) (items : List MutableItem)
      : Type 0 where
    pub later : List (Edit s)
    pub among : w.edits ≡ later ++ edits
    pub are_signed : AreSigned edits items
    pub within : All (Within generation (length edits)) w.returned

  abbrev RoundIsFit : World s → Publication s → Type 0
  RoundIsFit w idle = Unit
  RoundIsFit w (counted g) = (w.publisher.published ≤ g) × (g ≤ w.publisher.generation)
  RoundIsFit w (signed g edits items) =
      (w.publisher.published ≤ g) × (g ≤ w.publisher.generation) × Covers w g edits items

  -- An edit that returned is one of the edits, and the count has been at least its own.
  abbrev HasCounted : World s → ℕ × ℕ → Type 0
  HasCounted w e = (e.0 ≤ length w.edits) × (e.1 ≤ w.publisher.generation)

  record IsSound (w : World s) : Type 0 where
    pub packets : w.publisher.packets ≡ replay s w.edits
    pub numbers : All (λ n. n ≤ length w.edits) w.uncounted
    pub returned : All (HasCounted w) w.returned
    pub behind : w.publisher.published ≤ w.publisher.generation
    pub round : RoundIsFit w w.round
    pub covers : Covers w w.publisher.published w.covered w.delivered
    pub falls : FallBelow (w.publisher.previous + 1) w.sequences

  -- One more edit changes nothing of what the older ones cover.
  edit_stored-Covers :
      (w : World s) (edit : Edit s) (p : Publisher s) (g : ℕ) (edits : List (Edit s))
      (items : List MutableItem)
      → Covers w g edits items
      → Covers (edit_stored s w edit p) g edits items
  edit_stored-Covers w edit p g edits items c = record {
    later = edit ∷ c.later;
    among = ap (λ es. edit ∷ es) c.among;
    are_signed = c.are_signed;
    within = c.within;
  }

  edit_stored-RoundIsFit :
      (w : World s) (edit : Edit s) (p : Publisher s) (o : Publication s)
      → p.published ≡ w.publisher.published
      → p.generation ≡ w.publisher.generation
      → RoundIsFit w o
      → RoundIsFit (edit_stored s w edit p) o
  edit_stored-RoundIsFit w edit p idle e f h = tt
  edit_stored-RoundIsFit w edit p (counted g) e f (a, b) = (omega arith, omega arith)
  edit_stored-RoundIsFit w edit p (signed g edits items) e f (a, b, c) =
      (omega arith, omega arith, edit_stored-Covers w edit p g edits items c)

  edit_stored-IsSound :
      (w : World s) (edit : Edit s) (p : Publisher s)
      → p.packets ≡ replay s (edit ∷ w.edits)
      → p.published ≡ w.publisher.published
      → p.generation ≡ w.publisher.generation
      → p.previous ≡ w.publisher.previous
      → IsSound w
      → IsSound (edit_stored s w edit p)
  edit_stored-IsSound w edit p same e f g i =
      let b = i.behind in
      record {
        packets = same;
        numbers = (omega arith, All-map (λ n h. omega arith) w.uncounted i.numbers);
        returned = All-map (λ x (h, k). (omega arith, omega arith)) w.returned i.returned;
        behind = omega arith;
        round = edit_stored-RoundIsFit w edit p w.round e f i.round;
        covers =
            subst (λ n. Covers (edit_stored s w edit p) n w.covered w.delivered) (sym e)
              (edit_stored-Covers w edit p w.publisher.published w.covered w.delivered i.covers);
        falls = subst (λ n. FallBelow (n + 1) w.sequences) (sym g) i.falls;
      }

  insert_packet-is :
      (p q : Publisher s) (key : s.SigningKey) (bytes : List ℕ)
      → insert_packet s p key (some bytes) ≡ some q
      → q ≡ record p { packets = insert bytes_discrete (s.public_key key) (key, bytes) p.packets }
  unfolding insert_packet
  insert_packet-is p q key bytes h = elim (Bool-cases (leb (length bytes) 1000)) [
    | inr e ↦ absurd cc
    | inl e ↦
        let r : Publisher s = record p {
          packets = insert bytes_discrete (s.public_key key) (key, bytes) p.packets;
        } in
        sym (some-injective r q (sym (rw e refl) ∙ h))
  ]

  inserts-IsSound :
      (w : World s) (key : s.SigningKey) (bytes : List ℕ) (p : Publisher s)
      → insert_packet s w.publisher key (some bytes) ≡ some p
      → IsSound w
      → IsSound (edit_stored s w (sets key bytes) p)
  unfolding replay
  inserts-IsSound w key bytes p h i =
      let same = insert_packet-is w.publisher p key bytes h in
      edit_stored-IsSound w (sets key bytes) p
        (ap (λ q. q.packets) same
          ∙ ap (insert bytes_discrete (s.public_key key) (key, bytes)) i.packets)
        (ap (λ q. q.published) same) (ap (λ q. q.generation) same) (ap (λ q. q.previous) same) i

  takes_out-IsSound :
      (w : World s) (k : List ℕ)
      → IsSound w
      → IsSound (edit_stored s w (removes k) (remove_packet s w.publisher k).0)
  unfolding replay remove_packet
  takes_out-IsSound w k i =
      edit_stored-IsSound w (removes k) (remove_packet s w.publisher k).0
        (ap (remove bytes_discrete k) i.packets) refl refl refl i

  -- An edit that counts comes to more than every generation so far.
  has_counted-Covers :
      (w : World s) (number : ℕ) (left : List ℕ) (g : ℕ) (edits : List (Edit s))
      (items : List MutableItem)
      → g ≤ w.publisher.generation
      → Covers w g edits items
      → Covers (has_counted s w number left) g edits items
  has_counted-Covers w number left g edits items h c = record {
    later = c.later;
    among = c.among;
    are_signed = c.are_signed;
    within = (inl (omega arith), c.within);
  }

  has_counted-RoundIsFit :
      (w : World s) (number : ℕ) (left : List ℕ) (o : Publication s)
      → RoundIsFit w o
      → RoundIsFit (has_counted s w number left) o
  has_counted-RoundIsFit w number left idle h = tt
  has_counted-RoundIsFit w number left (counted g) (a, b) = (a, omega arith)
  has_counted-RoundIsFit w number left (signed g edits items) (a, b, c) =
      (a, omega arith, has_counted-Covers w number left g edits items b c)

  counts-IsSound :
      (w : World s) (before after : List ℕ) (number : ℕ)
      → w.uncounted ≡ before ++ number ∷ after
      → IsSound w
      → IsSound (has_counted s w number (before ++ after))
  counts-IsSound w before after number e i =
      let (many, others) =
        All-split (λ n. n ≤ length w.edits) before after number
          (subst (All (λ n. n ≤ length w.edits)) e i.numbers) in
      let b = i.behind in
      record {
        packets = i.packets;
        numbers = others;
        returned =
            ((many, omega arith), All-map (λ x (h, k). (h, omega arith)) w.returned i.returned);
        behind = omega arith;
        round = has_counted-RoundIsFit w number (before ++ after) w.round i.round;
        covers =
            has_counted-Covers w number (before ++ after) w.publisher.published w.covered
              w.delivered b i.covers;
        falls = i.falls;
      }

  idle-IsSound : (w : World s) → IsSound w → IsSound (record w { round = idle })
  idle-IsSound w i = record {
    packets = i.packets;
    numbers = i.numbers;
    returned = i.returned;
    behind = i.behind;
    round = tt;
    covers = record {
      later = i.covers.later;
      among = i.covers.among;
      are_signed = i.covers.are_signed;
      within = i.covers.within;
    };
    falls = i.falls;
  }

  reads-IsSound :
      (w : World s) → IsSound w → IsSound (record w { round = counted w.publisher.generation })
  reads-IsSound w i = record {
    packets = i.packets;
    numbers = i.numbers;
    returned = i.returned;
    behind = i.behind;
    round = (i.behind, omega arith);
    covers = record {
      later = i.covers.later;
      among = i.covers.among;
      are_signed = i.covers.are_signed;
      within = i.covers.within;
    };
    falls = i.falls;
  }

  -- The packets are signed after the count was read, so all edits that returned before are among them.
  signs-IsSound :
      (w : World s) (g now : ℕ) → w.round ≡ counted g → IsSound w → IsSound (signs_at s w g now)
  unfolding sign_all
  signs-IsSound w g now e i =
      let sequence = max now (w.publisher.previous + 1) in
      let (a, b) = subst (RoundIsFit w) e i.round in
      record {
        packets = i.packets;
        numbers = i.numbers;
        returned = i.returned;
        behind = i.behind;
        round = (
          a,
          b,
          record {
            later = [];
            among = refl;
            are_signed = (sequence, ap (sign_entries s sequence) i.packets);
            within = All-map (λ x (h, k). inr h) w.returned i.returned;
          },
        );
        covers = record {
          later = i.covers.later;
          among = i.covers.among;
          are_signed = i.covers.are_signed;
          within = i.covers.within;
        };
        falls = (
          omega arith,
          FallBelow-mono (w.publisher.previous + 1) sequence w.sequences (omega arith) i.falls,
        );
      }

  ends-IsSound :
      (w : World s) (g : ℕ) (edits : List (Edit s)) (items : List MutableItem) (all_put : Bool)
      → w.round ≡ signed g edits items
      → IsSound w
      → IsSound (round_ended s w g edits items all_put)
  ends-IsSound w g edits items false e i = record {
    packets = i.packets;
    numbers = i.numbers;
    returned = i.returned;
    behind = i.behind;
    round = tt;
    covers = record {
      later = i.covers.later;
      among = i.covers.among;
      are_signed = i.covers.are_signed;
      within = i.covers.within;
    };
    falls = i.falls;
  }
  ends-IsSound w g edits items true e i =
      let (a, b, c) = subst (RoundIsFit w) e i.round in
      record {
        packets = i.packets;
        numbers = i.numbers;
        returned = i.returned;
        behind = b;
        round = tt;
        covers = record {
          later = c.later;
          among = c.among;
          are_signed = c.are_signed;
          within = c.within;
        };
        falls = i.falls;
      }

  step-IsSound : (w v : World s) → PublisherStep s w v → IsSound w → IsSound v
  step-IsSound _ _ (inserts w key bytes p e) i = inserts-IsSound w key bytes p e i
  step-IsSound _ _ (takes_out w k e) i = takes_out-IsSound w k i
  step-IsSound _ _ (counts w before after number e) i = counts-IsSound w before after number e i
  step-IsSound _ _ (reads w e) i = reads-IsSound w i
  step-IsSound _ _ (signs w g now e) i = signs-IsSound w g now e i
  step-IsSound _ _ (aborts w g e) i = idle-IsSound w i
  step-IsSound _ _ (ends w g edits items all_put e) i = ends-IsSound w g edits items all_put e i

  start-IsSound : IsSound (start_world s)
  unfolding replay sign_entries
  start-IsSound = record {
    packets = refl;
    numbers = tt;
    returned = tt;
    behind = omega arith;
    round = tt;
    covers = record { later = []; among = refl; are_signed = (0, refl); within = tt };
    falls = tt;
  }

  Leads-IsSound : (u v : World s) → Leads s u v → IsSound u → IsSound v
  Leads-IsSound _ _ (stays w) i = i
  Leads-IsSound _ _ (goes u w v l step) i = step-IsSound w v step (Leads-IsSound u w l i)

  -- What has returned stays.
  step-returned :
      (P : ℕ × ℕ → Type 0) (w v : World s)
      → PublisherStep s w v
      → All P v.returned
      → All P w.returned
  step-returned P _ _ (inserts w key bytes p e) h = h
  step-returned P _ _ (takes_out w k e) h = h
  step-returned P _ _ (counts w before after number e) (_, h) = h
  step-returned P _ _ (reads w e) h = h
  step-returned P _ _ (signs w g now e) h = h
  step-returned P _ _ (aborts w g e) h = h
  step-returned P _ _ (ends w g edits items all_put e) h = h

  Leads-returned :
      (P : ℕ × ℕ → Type 0) (u v : World s) → Leads s u v → All P v.returned → All P u.returned
  Leads-returned P _ _ (stays w) h = h
  Leads-returned P _ _ (goes u w v l step) h = Leads-returned P u w l (step-returned P w v step h)

  All-both :
      (P Q : ℕ × ℕ → Type 0) (xs : List (ℕ × ℕ)) → All P xs → All Q xs → All (λ x. P x × Q x) xs
  All-both P Q [] h k = tt
  All-both P Q (x ∷ xs) (p, ps) (q, qs) = ((p, q), All-both P Q xs ps qs)

  -- Whatever edits and rounds interleave: a wait that begins at one time and ends at a later one, when
  -- the count that it read is published, leaves items delivered that are those of the packets after a
  -- number of the edits, among them all that had returned when the wait began. The sequences of the
  -- rounds grow.
  pub is_published-covered :
      (u v : World s)
      → Leads s (start_world s) u
      → Leads s u v
      → is_published s v.publisher u.publisher.generation ≡ true
      → (later : List (Edit s)) × (v.edits ≡ later ++ v.covered)
        × AreSigned v.covered v.delivered
        × All (λ e. e.0 ≤ length v.covered) u.returned
        × FallBelow (v.publisher.previous + 1) v.sequences
  is_published-covered u v first then_ done =
      let i = Leads-IsSound (start_world s) u first start-IsSound in
      let j = Leads-IsSound u v then_ i in
      let c = j.covers in
      let reached : u.publisher.generation ≤ v.publisher.published = ground arith in
      (
        c.later,
        c.among,
        c.are_signed,
        All-map (λ e (w, (_, k)). elim w [ inl late ↦ absurd (omega arith) | inr many ↦ many ])
            u.returned
            (All-both (Within v.publisher.published (length v.covered)) (HasCounted u) u.returned
              (Leads-returned (Within v.publisher.published (length v.covered)) u v then_ c.within)
              i.returned),
        j.falls,
      )
