-- ===== src/Index/Store.antt =====
-- udp-addr-index/src/store.rs: the in-memory address index. The proofs stand in the children.
pub mod Expirations
pub mod Invariant
pub mod Write
pub mod Gc
pub mod Room
pub mod Put
pub mod Values
use iroh_content_discovery.Prelude.{
  ℕ, ◌+◌, ◌-◌, ◌^◌, min, Bool, ◌||◌, Option, none, some, List, [], ◌∷◌, ltb, leb, ◌==◌,
  if◌then◌else◌, length, Result, ok, err, ℕ_discrete,
}
use iroh_content_discovery.Prelude.Maps.{lookup, remove, insert, contains_key}
use iroh_content_discovery.Prelude.Sets.{discard}
use iroh_content_discovery.Net.{SocketAddrV4, addr_discrete}
use mathlib.Core.Option.{get_or}
use mathlib.Core.Option
use Expirations.{Expiration, exp_discrete, insert_expiration}

-- `Limits` of lib.rs; the two rates are fractions and stand with the rate limiter.
pub record Limits : Type 0 where
  pub max_value_len : ℕ
  pub max_entries : ℕ
  pub max_entries_per_ip : ℕ
  pub value_ttl_secs : ℕ
  pub token_bucket_secs : ℕ

-- `udp_addr_index_proto::MAX_VALUE_LEN`
abbrev pub proto_max_value_len : ℕ
proto_max_value_len = 1024

abbrev pub u64_max : ℕ
u64_max = 2 ^ 64 - 1

pub data PutError : Type 0 where
  too_large full : PutError

pub record Entry : Type 0 where
  pub value : List ℕ
  pub expires_at : ℕ

pub record Store : Type 0 where
  pub entries : List (SocketAddrV4 × Entry)
  pub expirations : List Expiration
  pub per_ip : List (ℕ × ℕ)

unfoldable pub new : Store
new = record { entries = []; expirations = []; per_ip = [] }

unfoldable pub len : Store → ℕ
len s = length s.entries

-- `*count -= 1` on a usize, as a release build computes it.
usize_dec : ℕ → ℕ
usize_dec n = if n == 0 then u64_max else n - 1

held : ℕ → Store → ℕ
held ip s = get_or (lookup ℕ_discrete ip s.per_ip) 0

decrement : ℕ → Store → Store
unfolding usize_dec
decrement ip s = elim (lookup ℕ_discrete ip s.per_ip) [
  | none ↦ s
  | some n ↦
      let count = usize_dec n in
      record s {
        per_ip =
            if count == 0
            then remove ℕ_discrete ip s.per_ip
            else insert ℕ_discrete ip count s.per_ip;
      }
]

-- Drops one entry and its per-address count.
pub remove_entry : SocketAddrV4 → Store → Store
unfolding decrement
remove_entry addr s = elim (lookup addr_discrete addr s.entries) [
  | none ↦ s
  | some _ ↦ decrement addr.ip (record s { entries = remove addr_discrete addr s.entries })
]

-- The loop of `gc`: its list is `s.expirations`, which `remove_entry` leaves alone.
gc_loop : ℕ → List Expiration → Store → Store
unfolding remove_entry
gc_loop now [] s = s
gc_loop now ((expires_at, addr) ∷ rest) s =
    let next = gc_loop now rest (remove_entry addr (record s { expirations = rest })) in
    if ltb now expires_at then s else next

unfoldable pub gc : ℕ → Store → Store
unfolding gc_loop
gc now s = gc_loop now s.expirations s

-- The part of `put` for an address that holds no entry: its quota, and the eviction.
pub make_room : SocketAddrV4 → Limits → Store → Result PutError Store
unfolding remove_entry held
make_room addr limits s =
    if contains_key addr_discrete addr s.entries
    then ok s
    else if leb limits.max_entries_per_ip (held addr.ip s)
    then err full
    else if leb limits.max_entries (len s)
    then elim s.expirations [
      | [] ↦ err full
      | (expires_at, oldest) ∷ rest ↦ ok (
          remove_entry oldest
            (record s { expirations = discard exp_discrete (expires_at, oldest) s.expirations }))
    ]
    else ok s

-- The part of `put` that writes the entry.
pub write : SocketAddrV4 → Entry → Store → Store
unfolding held
write addr e s = elim (lookup addr_discrete addr s.entries) [
  | some previous ↦ record s {
    entries = insert addr_discrete addr e s.entries;
    expirations =
        insert_expiration (e.expires_at, addr)
          (discard exp_discrete (previous.expires_at, addr) s.expirations);
  }
  | none ↦ record {
    entries = insert addr_discrete addr e s.entries;
    expirations = insert_expiration (e.expires_at, addr) s.expirations;
    per_ip = insert ℕ_discrete addr.ip (held addr.ip s + 1) s.per_ip;
  }
]

abbrev pub deadline : ℕ → Limits → ℕ
deadline now limits = min (now + limits.value_ttl_secs) u64_max

abbrev pub oversized : List ℕ → Limits → Bool
oversized value limits =
    ltb limits.max_value_len (length value) || ltb proto_max_value_len (length value)

unfoldable pub put : SocketAddrV4 → List ℕ → ℕ → Limits → Store → Store × Result PutError (Unit {0})
unfolding make_room write
put addr value now limits s =
    let s' = gc now s in
    if oversized value limits then (s', err too_large) else elim (make_room addr limits s') [
      | err e ↦ (s', err e)
      | ok room ↦
          (write addr (record { value = value; expires_at = deadline now limits }) room, ok tt)
    ]

unfoldable pub get : SocketAddrV4 → ℕ → Store → Store × Option (List ℕ)
get addr now s =
    let s' = gc now s in (s', Option.map (λ e. e.value) (lookup addr_discrete addr s'.entries))
