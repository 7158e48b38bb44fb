-- ===== src/Index/Server/Safety.antt =====
-- The handler keeps the store's invariant, and never panics on a response that does not fit.
use iroh_content_discovery.Prelude.{
  ℕ, ◌≤◌, ◌≡◌, ◌⊎◌, inl, inr, Option, none, some, List, arith, length, Bool-cases, Option-cases,
  true, ◌||◌, ◌==◌, ltb,
}
use iroh_content_discovery.Prelude.Maps.{lookup}
use iroh_content_discovery.Net.{SocketAddrV4, addr_discrete}
use iroh_content_discovery.Proto.{decode, max_dgram}
use iroh_content_discovery.Proto.Messages.{Proto, Request, RequestV1}
use iroh_content_discovery.Index.Store.{Store, Entry, Limits, get, put}
use iroh_content_discovery.Index.Store.Invariant.{IsValid}
use iroh_content_discovery.Index.Store.Room.{IsWithin}
use iroh_content_discovery.Index.Store.Put.{put-IsValid, get-live}
use iroh_content_discovery.Index.Store.Values.{get-keeps, put-adds, get-IsWithin}
use iroh_content_discovery.Index.Token.{verify_token}
use iroh_content_discovery.Index.Server.{
  Server, Environment, Times, put_local, get_local, allow_request, handle_prepare, handle_put,
  handle_get, handle_request, handle_packet, finish_put, dispatch,
}

-- The store is valid and within its limits, and every value fits a datagram.
pub record IsSafe (l : Limits) (s : Store) : Type 0 where
  pub valid : IsValid s
  pub within : IsWithin l s
  pub values :
      (a : SocketAddrV4) (e : Entry)
      → lookup addr_discrete a s.entries ≡ some e
      → length e.value ≤ 1024

put-IsSafe :
    (addr : SocketAddrV4) (value : List ℕ) (now : ℕ) (l : Limits) (s : Store)
    → IsSafe l s
    → IsSafe l (put addr value now l s).0
put-IsSafe addr value now l s h =
    let (valid, within) = put-IsValid addr value now l s h.valid h.within in
    record {
      valid = valid;
      within = within;
      values = λ a e q. elim (put-adds addr value now l s h.valid h.within a e q) [
        | inl old ↦ h.values a e old
        | inr (_, same, most) ↦ rw same most
      ];
    }

get-IsSafe :
    (addr : SocketAddrV4) (now : ℕ) (l : Limits) (s : Store)
    → IsSafe l s
    → IsSafe l (get addr now s).0
get-IsSafe addr now l s h = record {
  valid = (get-live addr now s h.valid).1.valid;
  within = get-IsWithin addr now l s h.valid h.within;
  values = λ a e q. h.values a e (get-keeps addr now s a e h.valid q);
}

-- A value that is read fits a datagram.
pub get_fits :
    (addr : SocketAddrV4) (now : ℕ) (l : Limits) (s : Store) (value : List ℕ)
    → IsSafe l s
    → (get addr now s).1 ≡ some value
    → length value ≤ 1024
get_fits addr now l s value h e = elim (Option-cases (lookup addr_discrete addr s.entries)) [
  | inl q ↦ absurd (ground (arith, (get-live addr now s h.valid).0))
  | inr (f, q) ↦
      let same : f.value ≡ value = ground (arith, (get-live addr now s h.valid).0) in
      rw (← same) (h.values addr f q)
]

module _ {F : Type 0} (env : Environment F) (s : Server F) (from : SocketAddrV4) (t : Times) where
  -- Only a put with a valid token writes, and only a get collects besides.
  pub handle_put_store :
      (tx : ℕ) (token value : List ℕ)
      → ((handle_put env s from t tx token value).0.store ≡ s.store)
        ⊎ ((verify_token env.keyed_hash s.token_key s.limits from token t.now ≡ true)
            × ((handle_put env s from t tx token value).0.store
                ≡ (put from value t.store_now s.limits s.store).0))
  unfolding handle_put put_local allow_request finish_put
  handle_put_store tx token value = ground arith

  pub handle_get_store :
      (tx : ℕ) (addr : SocketAddrV4)
      → ((handle_get env s from t tx addr).0.store ≡ s.store)
        ⊎ ((handle_get env s from t tx addr).0.store ≡ (get addr t.store_now s.store).0)
  unfolding handle_get get_local allow_request
  handle_get_store tx addr = ground arith

  pub handle_prepare_store : (tx : ℕ) → (handle_prepare env s from t tx).0.store ≡ s.store
  unfolding handle_prepare allow_request
  handle_prepare_store tx = ground arith

  kept_parts : (r : RequestV1) → ((handle_request env s from t r).0.limits ≡ s.limits)
  unfolding handle_request handle_prepare handle_put handle_get put_local get_local allow_request
      finish_put
  kept_parts (RequestV1.prepare tx padding) = ground arith
  kept_parts (RequestV1.put tx token value) = ground arith
  kept_parts (RequestV1.get tx addr) = ground arith

  handle_request-IsSafe :
      (r : RequestV1)
      → IsSafe s.limits s.store
      → IsSafe s.limits (handle_request env s from t r).0.store
  unfolding handle_request
  handle_request-IsSafe (RequestV1.prepare tx padding) h = rw (handle_prepare_store tx) h
  handle_request-IsSafe (RequestV1.put tx token value) h = elim (handle_put_store tx token value) [
    | inl same ↦ rw same h
    | inr (_, stored) ↦ rw stored (put-IsSafe from value t.store_now s.limits s.store h)
  ]
  handle_request-IsSafe (RequestV1.get tx addr) h = elim (handle_get_store tx addr) [
    | inl same ↦ rw same h
    | inr collected ↦ rw collected (get-IsSafe addr t.store_now s.limits s.store h)
  ]

  dispatch-IsSafe :
      (o : Option Proto)
      → IsSafe s.limits s.store
      → IsSafe (dispatch env s from t o).0.limits (dispatch env s from t o).0.store
  unfolding dispatch
  dispatch-IsSafe none h = h
  dispatch-IsSafe (some (Proto.response r)) h = h
  dispatch-IsSafe (some (Proto.request (Request.v1 r))) h =
      rw (kept_parts r) (handle_request-IsSafe r h)

  -- Whatever datagram arrives, the server's store stays valid, within its limits, and with values
  -- of at most `MAX_VALUE_LEN` bytes.
  pub handle_packet-IsSafe :
      (bs : List ℕ)
      → IsSafe s.limits s.store
      → IsSafe (handle_packet env s bs from t).0.limits (handle_packet env s bs from t).0.store
  unfolding handle_packet
  handle_packet-IsSafe bs h = elim (Bool-cases (length bs == 0 || ltb max_dgram (length bs))) [
    | inl e ↦ rw e h
    | inr e ↦ rw e (dispatch-IsSafe (decode env.postcard bs) h)
  ]
