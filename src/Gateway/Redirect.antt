-- ===== src/Gateway/Redirect.antt =====
-- iroh-link-gateway/src/pkarr_redirect.rs: names that are Pkarr keys. The newest answer of the DHT
-- names a host, which a request is redirected to, or content, which is served here.

pub mod Answer
pub mod Published
pub mod Handler
use iroh_content_discovery.Prelude.{
  ℕ, ◌+◌, ◌*◌, Bool, true, false, ◌&&◌, ◌||◌, not, Option, none, some, List, [], ◌∷◌, ◌++◌, Result,
  ok, err, ltb, leb, ◌==◌, min, if◌then◌else◌,
}
use iroh_content_discovery.Prelude.Bytes.{
  codes, bytes_eq, bytes_ltb, strip_suffix, eq_ignore_ascii_case,
}
use iroh_content_discovery.Prelude.Decimal.{show}
use iroh_content_discovery.Gateway.Lru.{Lru}
use iroh_content_discovery.Gateway.Http.{
  Crates, HttpResponse, location, cache_control, empty_body, HttpError, bad_gateway, not_found,
  bad_request, unprocessable,
}
use iroh_content_discovery.Gateway.Urls.{parse_z32_bytes}
use iroh_content_discovery.Discovery.Mutable.{seq_ltb, is_negative, MutableItem}
use iroh_content_discovery.Discovery.ServerList.{
  SvcParam, mandatory, no_default_alpn, other_param, port_param, RData, txt, https, other_data,
  ResourceRecord,
}
use iroh_content_discovery.Discovery.Pkarr.{is_hostname, blake3_domain}

-- Times are in milliseconds.
abbrev pub max_cache_ttl : ℕ
max_cache_ttl = 30000

-- The smallest time to live of the records, in milliseconds: nothing for no records.
unfoldable pub least_ttl : List ResourceRecord → ℕ
least_ttl [] = 0
least_ttl (r ∷ []) = r.ttl * 1000
least_ttl (r ∷ q ∷ records) = min (r.ttl * 1000) (least_ttl (q ∷ records))

module _ (lru : Lru (List ℕ) (ℕ × MutableItem)) where
  has_expired : ℕ → Option (ℕ × MutableItem) → Bool
  has_expired now none = false
  has_expired now (some (expires, item)) = leb expires now

  item_of : Option (ℕ × MutableItem) → Option MutableItem
  item_of none = none
  item_of (some (expires, item)) = some item

  -- `Cache::get`, with the cache that it leaves.
  unfoldable pub cache_get : lru.Cache → List ℕ → ℕ → lru.Cache × Option MutableItem
  unfolding has_expired item_of
  cache_get cache key now =
      let cache = if has_expired now (lru.peek key cache) then lru.pop key cache else cache in
      (cache, item_of (lru.peek key cache))

  -- `Cache::insert`.
  unfoldable pub cache_insert :
      lru.Cache → List ℕ → MutableItem → List ResourceRecord → ℕ → lru.Cache
  unfolding least_ttl
  cache_insert cache key item records now =
      let ttl = min (least_ttl records) max_cache_ttl in
      if ttl == 0 then cache else lru.write key (now + ttl, item) cache

-- `verified`: an answer for the key with a time.
unfoldable pub verified : MutableItem → List ℕ → Result HttpError MutableItem
verified item key =
    if is_negative item.seq || not (bytes_eq item.key key) then err bad_gateway else ok item

-- An answer after those that were read: the newest is kept, and an error ends the loop.
unfoldable pub newest_step :
    Result HttpError MutableItem → Result HttpError MutableItem → Result HttpError MutableItem
newest_step (err e) answer = err e
newest_step (ok newest) (err e) = err e
newest_step (ok newest) (ok item) = if seq_ltb newest.seq item.seq then ok item else ok newest

-- The loop of `newest_verified` over the answers that come in time.
unfoldable pub newest_from :
    List ℕ → Result HttpError MutableItem → List MutableItem → Result HttpError MutableItem
unfolding verified newest_step
newest_from key newest [] = newest
newest_from key newest (item ∷ items) =
    newest_from key (newest_step newest (verified item key)) items

unfoldable pub newest_verified : List ℕ → List MutableItem → Result HttpError MutableItem
unfolding newest_from
newest_verified key [] = err not_found
newest_verified key (item ∷ items) = newest_from key (verified item key) items

-- The parameters of a service binding, after the target that is there: `none` where a redirect cannot
-- convey one.
unfoldable pub with_params : List ℕ → List SvcParam → Option (List ℕ)
unfolding show
with_params target [] = some target
with_params target (mandatory ∷ params) = none
with_params target (no_default_alpn ∷ params) = none
with_params target (other_param ∷ params) = with_params target params
with_params target (port_param port ∷ params) =
    let rest = with_params (target ++ b':' ∷ show port) params in
    let same = with_params target params in
    if port == 0 then none else (if port == 443 then same else rest)

-- `trim_end_matches('.')`.
unfoldable pub trim_dots : List ℕ → List ℕ
trim_dots [] = []
trim_dots (b ∷ bs) = elim (trim_dots bs) [
  | [] ↦ if b == b'.' then [] else b ∷ []
  | c ∷ cs ↦ b ∷ c ∷ cs
]

-- `authority` of a service binding.
unfoldable pub authority : ℕ → List ℕ → List SvcParam → Option (List ℕ)
unfolding trim_dots is_hostname with_params
authority priority target params =
    let name = trim_dots target in
    if is_hostname name
    then (if priority == 0 then some name else with_params name params)
    else none

unfoldable pub with_priority : ℕ → Option (List ℕ) → Option (ℕ × List ℕ)
with_priority priority none = none
with_priority priority (some name) = some (priority, name)

-- The target of a record of the key, with its priority.
unfoldable pub authority_of : RData → Option (ℕ × List ℕ)
unfolding authority
authority_of (txt text) = none
authority_of other_data = none
authority_of (https priority target params) =
    with_priority priority (authority priority target params)

unfoldable pub least_target : Option (ℕ × List ℕ) → Option (ℕ × List ℕ) → Option (ℕ × List ℕ)
least_target none rest = rest
least_target (some a) none = some a
least_target (some (p, a)) (some (q, b)) =
    if ltb q p || (q == p && bytes_ltb b a) then some (q, b) else some (p, a)

unfoldable pub least_targets : List ℕ → List ResourceRecord → Option (ℕ × List ℕ)
unfolding least_target authority_of
least_targets key [] = none
least_targets key (r ∷ records) =
    let rest = least_targets key records in
    if r.class_in && eq_ignore_ascii_case r.name key
    then least_target (authority_of r.rdata) rest
    else rest

name_of : Option (ℕ × List ℕ) → Option (List ℕ)
name_of none = none
name_of (some (priority, name)) = some name

-- `target`: the least priority, then the least name.
unfoldable pub target_of : List ℕ → List ResourceRecord → Option (List ℕ)
unfolding least_targets name_of
target_of key records = name_of (least_targets key records)

module _ (lib : Crates) where
  hash_label : Option (List ℕ) → Option (List ℕ)
  hash_label none = none
  hash_label (some label) = parse_z32_bytes lib label

  before_domain : Option (List ℕ) → Option (List ℕ)
  unfolding hash_label
  before_domain none = none
  before_domain (some pre) = hash_label (strip_suffix (codes ".") pre)

  unfoldable pub content_hash : List ℕ → Option (List ℕ)
  unfolding before_domain
  content_hash name = before_domain (strip_suffix blake3_domain name)
