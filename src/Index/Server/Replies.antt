-- ===== src/Index/Server/Replies.antt =====
-- What the handler sends: the answer to the request, to its source, no longer than the request.
use iroh_content_discovery.Prelude.{
  ℕ, ◌≤◌, ◌≡◌, refl, inl, inr, Option, none, some, List, arith, length, Bool-cases, ◌||◌, ◌==◌, ltb,
}
use iroh_content_discovery.Net.{SocketAddrV4}
use iroh_content_discovery.Proto.{decode, encode, max_dgram}
use iroh_content_discovery.Proto.Messages.{Proto, Request, RequestV1, ResponseV1, IsValue, IsAddr}
use iroh_content_discovery.Proto.Framing.{IsBounded, encode_bounded}
use iroh_content_discovery.Proto.Amplification.{
  request, response, Answers, to_prepare, to_put, to_get, decode-IsFramed, encode-le_of_Answers,
}
use iroh_content_discovery.Index.Store.{get}
use iroh_content_discovery.Index.Token.{issue_token, bucket}
use iroh_content_discovery.Index.Token.Laws.{length-token_for}
use iroh_content_discovery.Index.Server.{
  Server, Environment, Times, Outcome, silent, sends, put_local, get_local, allow_request,
  handle_prepare, handle_put, handle_get, handle_request, handle_packet, finish_put, send, dispatch,
}
use iroh_content_discovery.Index.Server.Safety.{IsSafe, get_fits}

-- A response that may be sent: it answers the request and its encoding fits a datagram.
pub record IsReply (r : RequestV1) (q : ResponseV1) : Type 0 where
  pub answers : Answers r q
  pub value : IsValue (response q)
  pub fits : IsBounded (response q)

module _ {F : Type 0} (env : Environment F) (s : Server F) (from : SocketAddrV4) (t : Times) where
  prepare_reply :
      (tx : ℕ) (q : ResponseV1)
      → (handle_prepare env s from t tx).1 ≡ some q
      → q ≡ ResponseV1.prepared tx from (issue_token env.keyed_hash s.token_key s.limits from t.now)
  unfolding handle_prepare allow_request
  prepare_reply tx q h = ground arith

  put_reply :
      (tx : ℕ) (token value : List ℕ) (q : ResponseV1)
      → (handle_put env s from t tx token value).1 ≡ some q
      → q ≡ ResponseV1.stored tx from
  unfolding handle_put put_local allow_request finish_put
  put_reply tx token value q h = ground arith

  get_reply :
      (tx : ℕ) (addr : SocketAddrV4) (q : ResponseV1)
      → (handle_get env s from t tx addr).1 ≡ some q
      → q ≡ ResponseV1.value tx addr (get addr t.store_now s.store).1
  unfolding handle_get get_local allow_request
  get_reply tx addr q h = ground arith

  value-IsReply :
      (tx : ℕ) (addr : SocketAddrV4) (v : Option (List ℕ))
      → IsValue (request (RequestV1.get tx addr))
      → ((w : List ℕ) → v ≡ some w → length w ≤ 1024)
      → IsReply (RequestV1.get tx addr) (ResponseV1.value tx addr v)
  value-IsReply tx addr none ranges most = record {
    answers = to_get tx addr none;
    value = ranges;
    fits = tt;
  }
  value-IsReply tx addr (some w) ranges most =
      let short = most w refl in
      record { answers = to_get tx addr (some w); value = omega arith; fits = omega arith }

  pub handle_request-IsReply :
      (r : RequestV1) (q : ResponseV1)
      → IsSafe s.limits s.store
      → IsAddr from
      → IsValue (request r)
      → (handle_request env s from t r).1 ≡ some q
      → IsReply r q
  unfolding handle_request issue_token
  handle_request-IsReply (RequestV1.prepare tx padding) q h a v e =
      let long = length-token_for env.keyed_hash s.token_key from (bucket s.limits t.now) in
      rw (prepare_reply tx q e)
        (record { answers = to_prepare tx padding from _; value = omega arith; fits = tt })
  handle_request-IsReply (RequestV1.put tx token w) q h a v e =
      rw (put_reply tx token w q e)
        (record { answers = to_put tx token w from; value = omega arith; fits = tt })
  handle_request-IsReply (RequestV1.get tx addr) q h a v e =
      rw (get_reply tx addr q e)
        (value-IsReply tx addr _ v (λ w f. get_fits addr t.store_now s.limits s.store w h f))

  -- A reply to a datagram: silence, or an encoded answer to the request in it, sent to its source
  -- and no longer than the datagram.
  pub data IsOutcome (bs : List ℕ) : Outcome → Type 0 where
    nothing : IsOutcome bs silent
    replied :
        (r : RequestV1) (q : ResponseV1) (out : List ℕ)
        → decode env.postcard bs ≡ some (request r)
        → Answers r q
        → encode env.postcard (response q) ≡ some out
        → length out ≤ length bs
        → IsOutcome bs (sends out from)

  send-IsOutcome :
      (bs : List ℕ) (r : RequestV1) (q : Option ResponseV1)
      → decode env.postcard bs ≡ some (request r)
      → ((p : ResponseV1) → q ≡ some p → IsReply r p)
      → IsOutcome bs (send env from q)
  unfolding send
  send-IsOutcome bs r none h reply = nothing
  send-IsOutcome bs r (some q) h reply =
      let ready = reply q refl in
      let (out, e, _) = encode_bounded env.postcard (response q) ready.value ready.fits in
      rw (e, send)
        (replied r q out h ready.answers e
          (encode-le_of_Answers env.postcard bs out ready.answers h ready.value e))

  dispatch-IsOutcome :
      (bs : List ℕ) (o : Option Proto)
      → IsSafe s.limits s.store
      → IsAddr from
      → decode env.postcard bs ≡ o
      → IsOutcome bs (dispatch env s from t o).1
  unfolding dispatch
  dispatch-IsOutcome bs none h a e = nothing
  dispatch-IsOutcome bs (some (Proto.response r)) h a e = nothing
  dispatch-IsOutcome bs (some (Proto.request (Request.v1 r))) h a e =
      send-IsOutcome bs r _ e
        (λ p f. handle_request-IsReply r p h a (decode-IsFramed env.postcard bs _ e).0.values f)

  -- With a safe store the handler never panics. It is silent, or it answers a request that the
  -- datagram encodes, to the datagram's source and in no more bytes than the datagram has.
  pub handle_packet-IsOutcome :
      (bs : List ℕ)
      → IsSafe s.limits s.store
      → IsAddr from
      → IsOutcome bs (handle_packet env s bs from t).1
  unfolding handle_packet
  handle_packet-IsOutcome bs h a = elim (Bool-cases (length bs == 0 || ltb max_dgram (length bs))) [
    | inl e ↦ rw e nothing
    | inr e ↦ rw e (dispatch-IsOutcome bs (decode env.postcard bs) h a refl)
  ]
