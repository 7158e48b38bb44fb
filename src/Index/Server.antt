-- ===== src/Index/Server.antt =====
-- The server of udp-addr-index/src/lib.rs and the request handler of udp-addr-index/src/udp.rs. The
-- clock is read several times in one call; the readings are an argument. What `handle_packet`
-- sends is its result: `panics` stands for the `expect` on a response that does not fit.
pub mod Safety
pub mod Replies
pub mod Authority
use iroh_content_discovery.Prelude.{
  ℕ, ◌+◌, ◌≡◌, Bool, true, false, ◌||◌, Option, none, some, List, [], ◌∷◌, ltb, ◌==◌, if◌then◌else◌,
  length, Result, ok, err,
}
use iroh_content_discovery.Net.{SocketAddrV4}
use iroh_content_discovery.Proto.{max_dgram, encode, decode}
use iroh_content_discovery.Proto.Messages.{
  Proto, Request, RequestV1, Response, ResponseV1, Postcard,
}
use iroh_content_discovery.Index.Store.{Store, Limits, PutError, put, get, len, new}
use iroh_content_discovery.Index.Token.{KeyedHash, issue_token, verify_token}
use iroh_content_discovery.Index.Rate.{Floats, Rates, RateLimiters, allow, fresh}

pub record Metrics : Type 0 where
  pub prepares : ℕ
  pub puts : ℕ
  pub gets : ℕ
  pub get_hits : ℕ
  pub invalid_tokens : ℕ
  pub rate_limited : ℕ
  pub rejected_puts : ℕ
  pub queue_drops : ℕ
  pub entries : ℕ

-- What the server calls and does not implement.
pub record Environment (F : Type 0) : Type 0 where
  pub postcard : Postcard
  pub keyed_hash : KeyedHash
  pub floats : Floats F
  pub hasher : ℕ → ℕ

pub record Server (F : Type 0) : Type 0 where
  pub store : Store
  pub limits : Limits
  pub rates : Rates F
  pub limiter : RateLimiters F
  pub token_key : List ℕ
  pub metrics : Metrics

-- Readings of the clock in one call of `handle_packet`: `unix_secs` in the handler and again in
-- `put_local` or `get_local`, and the two instants of the rate limiter.
pub record Times : Type 0 where
  pub now : ℕ
  pub store_now : ℕ
  pub first : ℕ
  pub second : ℕ

abbrev pub zeroes : Metrics
zeroes = record {
  prepares = 0;
  puts = 0;
  gets = 0;
  get_hits = 0;
  invalid_tokens = 0;
  rate_limited = 0;
  rejected_puts = 0;
  queue_drops = 0;
  entries = 0;
}

pub data Outcome : Type 0 where
  silent : Outcome
  sends : (bytes : List ℕ) (to : SocketAddrV4) → Outcome
  panics : Outcome

module _ {F : Type 0} (env : Environment F) where
  -- `Server::new`, with the key that the random generator gave.
  unfoldable pub new_server : Limits → Rates F → List ℕ → ℕ → Server F
  unfolding fresh
  new_server limits rates key now = record {
    store = new;
    limits = limits;
    rates = rates;
    limiter = fresh env.floats now;
    token_key = key;
    metrics = zeroes;
  }

  unfoldable pub put_local :
      Server F → SocketAddrV4 → List ℕ → ℕ → Server F × Result PutError (Unit {0})
  put_local s addr value now =
      let (store, result) = put addr value now s.limits s.store in
      (record s { store = store; metrics = record s.metrics { entries = len store } }, result)

  unfoldable pub get_local : Server F → SocketAddrV4 → ℕ → Server F × Option (List ℕ)
  get_local s addr now =
      let (store, result) = get addr now s.store in
      (record s { store = store; metrics = record s.metrics { entries = len store } }, result)

  unfoldable pub allow_request : Server F → ℕ → Times → Server F × Bool
  allow_request s ip t =
      let (limiter, allowed) = allow env.floats env.hasher s.rates s.limiter ip t.first t.second in
      (record s { limiter = limiter }, allowed)

  abbrev rate_limited : Server F → Server F
  rate_limited s = record s {
    metrics = record s.metrics { rate_limited = s.metrics.rate_limited + 1 };
  }

  pub handle_prepare : Server F → SocketAddrV4 → Times → ℕ → Server F × Option ResponseV1
  unfolding allow_request
  handle_prepare s from t tx =
      let (s', allowed) = allow_request s from.ip t in
      if allowed
      then (
        record s' { metrics = record s'.metrics { prepares = s'.metrics.prepares + 1 } },
        some (
            ResponseV1.prepared tx from
              (issue_token env.keyed_hash s'.token_key s'.limits from t.now)),
      )
      else (rate_limited s', none)

  pub finish_put :
      ℕ → SocketAddrV4 → Server F × Result PutError (Unit {0}) → Server F × Option ResponseV1
  finish_put tx from (s, err e) = (
    record s { metrics = record s.metrics { rejected_puts = s.metrics.rejected_puts + 1 } },
    none,
  )
  finish_put tx from (s, ok _) = (
    record s { metrics = record s.metrics { puts = s.metrics.puts + 1 } },
    some (ResponseV1.stored tx from),
  )

  pub handle_put :
      Server F → SocketAddrV4 → Times → ℕ → List ℕ → List ℕ → Server F × Option ResponseV1
  unfolding allow_request put_local finish_put
  handle_put s from t tx token value =
      if verify_token env.keyed_hash s.token_key s.limits from token t.now
      then (let (s', allowed) = allow_request s from.ip t in
          if allowed
          then finish_put tx from (put_local s' from value t.store_now)
          else (rate_limited s', none))
      else (
        record s { metrics = record s.metrics { invalid_tokens = s.metrics.invalid_tokens + 1 } },
        none,
      )

  abbrev count_hit : Option (List ℕ) → Metrics → Metrics
  count_hit none m = m
  count_hit (some v) m = record m { get_hits = m.get_hits + 1 }

  pub handle_get : Server F → SocketAddrV4 → Times → ℕ → SocketAddrV4 → Server F × Option ResponseV1
  unfolding allow_request get_local
  handle_get s from t tx addr =
      let (s', allowed) = allow_request s from.ip t in
      if allowed
      then (let counted : Server F = record s' {
        metrics = record s'.metrics { gets = s'.metrics.gets + 1 };
      } in
          let (s'', value) = get_local counted addr t.store_now in
          (
            record s'' { metrics = count_hit value s''.metrics },
            some (ResponseV1.value tx addr value),
          ))
      else (rate_limited s', none)

  unfoldable pub handle_request :
      Server F → SocketAddrV4 → Times → RequestV1 → Server F × Option ResponseV1
  unfolding handle_prepare handle_put handle_get
  handle_request s from t (RequestV1.prepare tx padding) = handle_prepare s from t tx
  handle_request s from t (RequestV1.put tx token value) = handle_put s from t tx token value
  handle_request s from t (RequestV1.get tx addr) = handle_get s from t tx addr

  pub send : SocketAddrV4 → Option ResponseV1 → Outcome
  send from none = silent
  send from (some q) = elim (encode env.postcard (Proto.response (Response.v1 q))) [
    | none ↦ panics
    | some out ↦ sends out from
  ]

  -- A datagram that is no request is dropped.
  pub dispatch : Server F → SocketAddrV4 → Times → Option Proto → Server F × Outcome
  unfolding handle_request send
  dispatch s from t (some (Proto.request (Request.v1 r))) =
      let (s', q) = handle_request s from t r in (s', send from q)
  dispatch s from t (some (Proto.response r)) = (s, silent)
  dispatch s from t none = (s, silent)

  unfoldable pub handle_packet : Server F → List ℕ → SocketAddrV4 → Times → Server F × Outcome
  unfolding dispatch
  handle_packet s bs from t =
      if length bs == 0 || ltb max_dgram (length bs)
      then (s, silent)
      else dispatch s from t (decode env.postcard bs)
