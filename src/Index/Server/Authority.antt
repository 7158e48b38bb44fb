-- ===== src/Index/Server/Authority.antt =====
-- Who may write: an entry that appears was put by its own socket, with a valid token.
use iroh_content_discovery.Prelude.{
  ℕ, ◌≡◌, refl, ◌⊎◌, inl, inr, Option, none, some, List, arith, length, Bool-cases, true, ◌||◌,
  ◌==◌, ltb, ok, if◌then◌else◌, leb,
}
use iroh_content_discovery.Prelude.Maps.{lookup}
use iroh_content_discovery.Net.{SocketAddrV4, addr_discrete}
use iroh_content_discovery.Proto.{decode, max_dgram}
use iroh_content_discovery.Proto.Messages.{Proto, Request, RequestV1, ResponseV1}
use iroh_content_discovery.Proto.Amplification.{request}
use iroh_content_discovery.Index.Store.{Entry, put, deadline}
use iroh_content_discovery.Index.Store.Put.{get-put_self}
use iroh_content_discovery.Index.Store.Values.{get-keeps, put-adds}
use iroh_content_discovery.Index.Token.{verify_token}
use iroh_content_discovery.Index.Server.{
  Server, Environment, Times, put_local, get_local, allow_request, handle_put, handle_request,
  handle_packet, finish_put, dispatch,
}
use iroh_content_discovery.Index.Server.Safety.{
  IsSafe, handle_put_store, handle_get_store, handle_prepare_store,
}

module _ {F : Type 0} (env : Environment F) (s : Server F) (from : SocketAddrV4) (t : Times) where
  -- The datagram is a put of this value with a token that verifies for its source.
  pub record IsAuthorized (bs value : List ℕ) : Type 0 where
    pub tx : ℕ
    pub token : List ℕ
    pub decoded : decode env.postcard bs ≡ some (request (RequestV1.put tx token value))
    pub verified : verify_token env.keyed_hash s.token_key s.limits from token t.now ≡ true

  dispatch_authority :
      (bs : List ℕ) (o : Option Proto) (b : SocketAddrV4) (e : Entry)
      → IsSafe s.limits s.store
      → decode env.postcard bs ≡ o
      → lookup addr_discrete b (dispatch env s from t o).0.store.entries ≡ some e
      → (lookup addr_discrete b s.store.entries ≡ some e) ⊎ ((b ≡ from) × IsAuthorized bs e.value)
  unfolding dispatch handle_request
  dispatch_authority bs none b e h d q = inl q
  dispatch_authority bs (some (Proto.response r)) b e h d q = inl q
  dispatch_authority bs (some (Proto.request (Request.v1 (RequestV1.prepare tx padding)))) b e h d
        q =
      inl (rw (handle_prepare_store env s from t tx) at q)
  dispatch_authority bs (some (Proto.request (Request.v1 (RequestV1.get tx addr)))) b e h d q =
      elim (handle_get_store env s from t tx addr) [
        | inl same ↦ inl (rw same at q)
        | inr collected ↦ inl (get-keeps addr t.store_now s.store b e h.valid (rw collected at q))
      ]
  dispatch_authority bs (some (Proto.request (Request.v1 (RequestV1.put tx token w)))) b e h d q =
      elim (handle_put_store env s from t tx token w) [
        | inl same ↦ inl (rw same at q)
        | inr (valid, stored) ↦
            elim (put-adds from w t.store_now s.limits s.store h.valid h.within b e
              (rw stored at q)) [
                | inl old ↦ inl old
                | inr (here, same, _) ↦
                    inr (
                      here,
                      record { tx = tx; token = token; decoded = rw same d; verified = valid },
                    )
              ]
      ]

  -- An entry that is in the store after a datagram was there before, or the datagram is a put of
  -- its value whose token verifies, and it is stored under the datagram's own source.
  pub handle_packet_authority :
      (bs : List ℕ) (b : SocketAddrV4) (e : Entry)
      → IsSafe s.limits s.store
      → lookup addr_discrete b (handle_packet env s bs from t).0.store.entries ≡ some e
      → (lookup addr_discrete b s.store.entries ≡ some e) ⊎ ((b ≡ from) × IsAuthorized bs e.value)
  unfolding handle_packet
  handle_packet_authority bs b e h q =
      elim (Bool-cases (length bs == 0 || ltb max_dgram (length bs))) [
        | inl k ↦ inl (rw (k, handle_packet) at q)
        | inr k ↦ dispatch_authority bs (decode env.postcard bs) b e h refl (rw k at q)
      ]

  -- A put with a valid token that the limiter lets through and the store accepts is acknowledged,
  -- and until its deadline a read of the source's socket gives the value.
  pub handle_put_stored :
      (tx : ℕ) (token value : List ℕ) (later : ℕ)
      → IsSafe s.limits s.store
      → verify_token env.keyed_hash s.token_key s.limits from token t.now ≡ true
      → (allow_request env s from.ip t).1 ≡ true
      → (put from value t.store_now s.limits s.store).1 ≡ ok tt
      → ((handle_put env s from t tx token value).1 ≡ some (ResponseV1.stored tx from))
        × ((get_local env (handle_put env s from t tx token value).0 from later).1
            ≡ (if leb (deadline t.store_now s.limits) later then none else some value))
  unfolding handle_put put_local get_local allow_request finish_put
  handle_put_stored tx token value later h valid allowed stored =
      let read =
        get-put_self from value t.store_now s.limits s.store h.valid h.within later stored in
      ground (arith, read)
