-- ===== src/Tests/Server.antt =====
-- The server of udp-addr-index at concrete datagrams, over whole numbers for fractions and a hash
-- that repeats the sum of its input.
use Prim.Native.Nat.{min}
use iroh_content_discovery.Prelude.{
  ℕ, zero, suc, ◌+◌, ◌-◌, ◌*◌, max, ◌%◌, ◌<◌, ◌==◌, ◌≡◌, ◌⊎◌, ◌↔◌, refl, true, false, some, List,
  [], ◌∷◌, ◌++◌, arith, length, All, replicate, length-replicate, take, drop, ltb, leb, ℕ_discrete,
}
use iroh_content_discovery.Prelude.Maps.{lookup, remove}
use iroh_content_discovery.Prelude.Sets.{contains, discard}
use iroh_content_discovery.Net.{SocketAddrV4, addr_discrete}
use iroh_content_discovery.Proto.{encode, decode, magic}
use iroh_content_discovery.Index.Store.{Entry, new, put, get, gc, len}
use iroh_content_discovery.Index.Store.Expirations.{insert_expiration, exp_discrete}
use iroh_content_discovery.Index.Token.{
  KeyedHash, token_for, bucket, issue_token, verify_token, token_eq, token_input,
}
use iroh_content_discovery.Index.Token.Compare.{token_eq_iff}
use iroh_content_discovery.Index.Token.Laws.{verify_token_iff, verify-issue_token}
use iroh_content_discovery.Index.Rate.{Floats, Rates, allow, refill, bucket_index}
use iroh_content_discovery.Index.Rate.{fresh}
use iroh_content_discovery.Index.Rate.Burst.{WholeTokens, allowed_at, sharing, allowed_at-burst}
use iroh_content_discovery.Index.Server.{
  Environment, Server, Times, sends, new_server, put_local, get_local, allow_request,
  handle_request, handle_packet,
}
use iroh_content_discovery.Index.Server.Safety.{IsSafe, handle_packet-IsSafe}
use iroh_content_discovery.Index.Server.Replies.{IsOutcome, handle_packet-IsOutcome}
use iroh_content_discovery.Index.Server.Authority.{IsAuthorized, handle_packet_authority}
use iroh_content_discovery.Tests.Postcard.{postcard, to_slice, from_bytes}
use iroh_content_discovery.Tests.Store.{limits, new-IsValid, new-IsWithin}

abbrev sum : List ℕ → ℕ
sum [] = 0
sum (x ∷ xs) = x + sum xs

All-replicate : (n x : ℕ) → x < 256 → All (λ y. y < 256) (replicate n x)
unfolding replicate
All-replicate zero x h = tt
All-replicate (suc n) x h = (h, All-replicate n x h)

repeated-hash_bytes :
    (key input : List ℕ)
    → (length (replicate 32 (sum input % 256)) ≡ 32)
      × All (λ x. x < 256) (replicate 32 (sum input % 256))
repeated-hash_bytes key input =
    (length-replicate 32 (sum input % 256), All-replicate 32 (sum input % 256) (omega arith))

abbrev keyed_hash : KeyedHash
keyed_hash = record {
  hash = λ key input. replicate 32 (sum input % 256);
  hash_bytes = repeated-hash_bytes;
}

abbrev add : ℕ → ℕ → ℕ
add a b = a + b

min_leb : (a b : ℕ) → leb (min a b) b ≡ true
min_leb a b = ground arith

pred_leb : (a b : ℕ) → leb a b ≡ true → leb (a - 1) b ≡ true
pred_leb a b h = ground arith

abbrev floats : Floats ℕ
floats = record {
  nan = 0;
  is_nan = λ x. false;
  add = add;
  mul = add;
  min = λ a b. min a b;
  sub_one = λ a. a - 1;
  lt_one = λ a. ltb a 1;
  le = λ a b. leb a b;
  as_secs = λ n. n;
  min-le = λ a b h. min_leb a b;
  sub_one-le = pred_leb;
}

abbrev env : Environment ℕ
env = record { postcard = postcard; keyed_hash = keyed_hash; floats = floats; hasher = λ ip. ip }

abbrev rates : Rates ℕ
rates = record { requests_per_ip_per_sec = 50; request_burst = 100 }

abbrev server : Server ℕ
server = new_server env limits rates [] 0

abbrev from : SocketAddrV4
from = record { ip = 100; port = 1 }

abbrev times : Times
times = record { now = 19; store_now = 19; first = 0; second = 0 }

program : Unit {0}
unfolding encode decode to_slice from_bytes replicate take drop new put get gc len insert_expiration
    exp_discrete addr_discrete ℕ_discrete lookup remove contains discard token_for bucket
    issue_token verify_token token_eq token_input allow refill bucket_index put_local get_local
    allow_request handle_request handle_packet new_server
program = tt

abbrev token : List ℕ
token = issue_token keyed_hash [] limits from 10

abbrev put_datagram : List ℕ
put_datagram = magic ++ (0 ∷ 0 ∷ 1 ∷ 7 ∷ (token ++ (2 ∷ 5 ∷ 6 ∷ [])))

stored_reply :
    (handle_packet env server put_datagram from times).1
    ≡ sends (magic ++ (1 ∷ 0 ∷ 1 ∷ 7 ∷ 100 ∷ 0 ∷ 0 ∷ 0 ∷ 1 ∷ [])) from
unfolding program
stored_reply = refl

new-IsSafe : IsSafe limits new
unfolding new lookup
new-IsSafe = record { valid = new-IsValid; within = new-IsWithin; values = λ a e h. cc }

abbrev left : List ℕ
left = 1 ∷ 2 ∷ []

abbrev right : List ℕ
right = 1 ∷ 3 ∷ []

token_eq_iff_example : (token_eq left right ≡ true) ↔ (left ≡ right)
token_eq_iff_example = token_eq_iff left right (omega arith) (omega arith) refl

verify_token_iff_example : (verify_token keyed_hash [] limits from (replicate 16 0) 19 ≡ true) ↔ (
    (replicate 16 0 ≡ token_for keyed_hash [] from (bucket limits 19))
    ⊎ ((p : ℕ) × (bucket limits 19 ≡ suc p) × (replicate 16 0 ≡ token_for keyed_hash [] from p)))
verify_token_iff_example =
    verify_token_iff keyed_hash [] from (replicate 16 0) (All-replicate 16 0 (omega arith))
      (length-replicate 16 0) limits 19

bucket_end : 59 < (bucket limits 10 + 2) * max limits.token_bucket_secs 1
unfolding bucket
bucket_end = omega arith

verify-issue_token_example :
    (verify_token keyed_hash [] limits from token 59 ≡ true)
    × (10 + limits.token_bucket_secs < (bucket limits 10 + 2) * max limits.token_bucket_secs 1)
verify-issue_token_example =
    verify-issue_token keyed_hash [] limits from 10 59 (omega arith) bucket_end

-- Fractions as whole numbers with a number more for NaN, which is the first.
abbrev shifted : Floats ℕ
shifted = record {
  nan = 0;
  is_nan = λ x. x == 0;
  add = λ a b. a + (b - 1);
  mul = λ a b. suc ((a - 1) * (b - 1));
  min = λ a b. min a b;
  sub_one = λ a. a - 1;
  lt_one = λ a. ltb a 2;
  le = λ a b. leb a b;
  as_secs = λ n. suc n;
  min-le = λ a b h. min_leb a b;
  sub_one-le = pred_leb;
}

whole_laws : WholeTokens shifted 51
whole_laws = record {
  whole = λ x. x - 1;
  nan-is_nan = refl;
  lt_one-whole = λ x h. ground arith;
  min-whole = λ x y h k. (ground arith, ground arith);
  sub_one-whole = λ x h k m. (ground arith, ground arith);
  add_nothing = λ x h. (ground arith, ground arith);
}

-- A hundred and two requests of a burst of a hundred, among them one of another address.
abbrev flood : List ℕ
flood = 8 ∷ replicate 102 7

abbrev full_rates : Rates ℕ
full_rates = record { requests_per_ip_per_sec = 51; request_burst = 101 }

allowed_at-burst_example :
    allowed_at shifted (λ ip. ip) full_rates 7 40 (fresh shifted 3) flood
    ≡ min 100 (sharing shifted (λ ip. ip) full_rates 7 flood)
unfolding whole_laws
allowed_at-burst_example =
    allowed_at-burst shifted (λ ip. ip) full_rates whole_laws refl (omega arith) 40 7 3 flood

handle_packet-IsSafe_example :
    IsSafe limits (handle_packet env server put_datagram from times).0.store
unfolding program
handle_packet-IsSafe_example = handle_packet-IsSafe env server from times put_datagram new-IsSafe

handle_packet-IsOutcome_example :
    IsOutcome env server from times put_datagram
      (handle_packet env server put_datagram from times).1
unfolding new_server
handle_packet-IsOutcome_example =
    handle_packet-IsOutcome env server from times put_datagram new-IsSafe (omega arith)

abbrev stored_entry : Entry
stored_entry = record { value = 5 ∷ 6 ∷ []; expires_at = 29 }

handle_packet_authority_example :
    (lookup addr_discrete from server.store.entries ≡ some stored_entry)
    ⊎ ((from ≡ from) × IsAuthorized env server from times put_datagram (5 ∷ 6 ∷ []))
unfolding program
handle_packet_authority_example =
    handle_packet_authority env server from times put_datagram from stored_entry new-IsSafe refl
