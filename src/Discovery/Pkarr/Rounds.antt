-- ===== src/Discovery/Pkarr/Rounds.antt =====
-- What waiting for a publication promises, over every interleaving of edits with rounds. An edit
-- changes the packets under one lock and counts under another, and a round reads the count before it
-- signs the packets: each is a step of its own.

pub mod Sound
use iroh_content_discovery.Prelude.{
  ℕ, ◌+◌, ◌≤◌, ◌<◌, ◌≡◌, refl, sym, ap, subst, ◌∙◌, inl, inr, Bool, true, false, Option, none, some,
  List, [], ◌∷◌, ◌++◌, max, arith, leb, length, if◌then◌else◌, Bool-cases, All, All-map,
  length-append,
}
use mathlib.Core.List.{append_assoc}
use mathlib.Core.Option.{some-injective}
use iroh_content_discovery.Prelude.Maps.{insert, remove, contains_key}
use iroh_content_discovery.Discovery.Client.{bytes_discrete}
use iroh_content_discovery.Discovery.Mutable.{MutableItem}
use iroh_content_discovery.Discovery.Pkarr.{
  Signing, Publisher, new_publisher, edited, insert_packet, remove_packet, sign_entries, sign_all,
  end_round, is_published,
}

module _ (s : Signing) where
  abbrev pub Packets : Type 0
  Packets = List (List ℕ × (s.SigningKey × List ℕ))

  -- A change of the packets.
  pub data Edit : Type 0 where
    sets : (key : s.SigningKey) (bytes : List ℕ) → Edit
    removes : (public_key : List ℕ) → Edit

  -- The packets after some edits, of which the newest is first.
  unfoldable pub replay : List Edit → Packets
  unfolding remove
  replay [] = []
  replay (sets key bytes ∷ edits) =
      insert bytes_discrete (s.public_key key) (key, bytes) (replay edits)
  replay (removes public_key ∷ edits) = remove bytes_discrete public_key (replay edits)

  -- A round that runs, with the count that it has read; the items and the edits that they cover, once
  -- they are signed. Only one runs at a time, under a lock.
  pub data Publication : Type 0 where
    idle : Publication
    counted : (generation : ℕ) → Publication
    signed : (generation : ℕ) (edits : List Edit) (items : List MutableItem) → Publication

  -- The publisher with the edits so far; the numbers of those that have still to count, and of those
  -- that have returned with the count that each came to; the round that runs; the sequences of the
  -- rounds; and the items of the last round that went well with the edits that they cover.
  pub record World : Type 0 where
    pub publisher : Publisher s
    pub edits : List Edit
    pub uncounted : List ℕ
    pub returned : List (ℕ × ℕ)
    pub round : Publication
    pub sequences : List ℕ
    pub delivered : List MutableItem
    pub covered : List Edit

  abbrev pub start_world : World
  start_world = record {
    publisher = new_publisher s;
    edits = [];
    uncounted = [];
    returned = [];
    round = idle;
    sequences = [];
    delivered = [];
    covered = [];
  }

  -- The packets have changed, and the edit has still to count.
  abbrev pub edit_stored : World → Edit → Publisher s → World
  edit_stored w edit p = record w {
    publisher = p;
    edits = edit ∷ w.edits;
    uncounted = length (edit ∷ w.edits) ∷ w.uncounted;
  }

  -- An edit has counted and returns.
  abbrev pub has_counted : World → (number : ℕ) → (uncounted : List ℕ) → World
  has_counted w number uncounted = record w {
    publisher = edited s w.publisher;
    uncounted = uncounted;
    returned = (number, w.publisher.generation + 1) ∷ w.returned;
  }

  abbrev pub round_ended : World → ℕ → List Edit → List MutableItem → Bool → World
  round_ended w generation edits items all_put = record w {
    publisher = end_round s w.publisher generation all_put;
    round = idle;
    delivered = if all_put then items else w.delivered;
    covered = if all_put then edits else w.covered;
  }

  abbrev pub signs_at : World → (generation now : ℕ) → World
  signs_at w generation now =
      let (p, items) = sign_all s w.publisher now in
      record w {
        publisher = p;
        round = signed generation w.edits items;
        sequences = p.previous ∷ w.sequences;
      }

  -- The steps: an edit changes the packets, and later counts; a round reads the count, signs the
  -- packets at a time, and ends.
  pub data PublisherStep : World → World → Type 0 where
    inserts :
        (w : World) (key : s.SigningKey) (bytes : List ℕ) (p : Publisher s)
        → insert_packet s w.publisher key (some bytes) ≡ some p
        → PublisherStep w (edit_stored w (sets key bytes) p)
    takes_out :
        (w : World) (public_key : List ℕ)
        → (remove_packet s w.publisher public_key).1 ≡ true
        → PublisherStep w
            (edit_stored w (removes public_key) (remove_packet s w.publisher public_key).0)
    counts :
        (w : World) (before after : List ℕ) (number : ℕ)
        → w.uncounted ≡ before ++ number ∷ after
        → PublisherStep w (has_counted w number (before ++ after))
    reads :
        (w : World)
        → w.round ≡ idle
        → PublisherStep w (record w { round = counted w.publisher.generation })
    signs :
        (w : World) (generation now : ℕ)
        → w.round ≡ counted generation
        → PublisherStep w (signs_at w generation now)
    -- The clock is before the epoch.
    aborts :
        (w : World) (generation : ℕ)
        → w.round ≡ counted generation
        → PublisherStep w (record w { round = idle })
    ends :
        (w : World) (generation : ℕ) (edits : List Edit) (items : List MutableItem) (all_put : Bool)
        → w.round ≡ signed generation edits items
        → PublisherStep w (round_ended w generation edits items all_put)

  -- The worlds that steps lead to from one.
  pub data Leads : World → World → Type 0 where
    stays : (w : World) → Leads w w
    goes : (u w v : World) → Leads u w → PublisherStep w v → Leads u v
