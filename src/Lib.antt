-- ===== src/Lib.antt =====
-- iroh content discovery publishes and finds the endpoints that serve a BLAKE3 hash. Mainline gives
-- the addresses of nodes that announce the hash; small UDP servers, the address index, give the signed
-- endpoint record of an address; a gateway then fetches the content over iroh and serves it by HTTP.
--
-- The parts that are modelled, and the files that hold them:
--  * udp-addr-index-proto/src/lib.rs, the datagrams that index servers and clients exchange.
--    Proto/Messages holds the messages, and the record `Postcard` of what the postcard crate is relied
--    on for; Proto holds `Proto::encode` and `Proto::decode`.
--  * udp-addr-index/src/store.rs, the server's map with deadlines and one entry count for each
--    address: Index/Store has a function for each method of `Store`; `BTreeSet` is a sorted list
--    (Index/Store/Expirations), `HashMap` an association list (Prelude/Maps).
--  * udp-addr-index/src/lib.rs: Index/Token has the write tokens, Index/Rate the request limiter,
--    Index/Server the server's state and, for udp-addr-index/src/udp.rs, `Server::handle_packet` with
--    the counters of udp-addr-index/src/metrics.rs. A request that is allowed and decodes is answered
--    from the store; a put must bring a token that a prepare from the same socket was given.
--  * iroh-mainline-endpoint-discovery/src/udp.rs, the client of the index: Discovery/Client has the
--    actor and its messages, Discovery/Client/Packets what it does with datagrams, Discovery/Client/Timer
--    with deadlines, and Discovery/Client/Run its loop over messages, datagrams and timers.
--  * iroh-mainline-endpoint-discovery/src/index_keeper.rs: Discovery/Keeper has the passes of the loop
--    that keeps the endpoint's record on the servers, and the test that gates announcements.
--  * iroh-mainline-endpoint-discovery/src/record.rs: Discovery/SignedRecord has the records that
--    endpoints sign and readers check, with the calls that addr_index.rs makes of them.
--  * iroh-mainline-endpoint-discovery/src/lookup_cache.rs: Discovery/LookupCache has the memory of what
--    lookups returned.
--  * iroh-link-gateway/src/ranges.rs: Gateway/Ranges has the ranges of a `Range` header, and
--    Gateway/Ranges/Header the grammar of what it asks for, to which the selection is compared.
--  * iroh-mainline-endpoint-discovery/src/addr_index.rs and server_list.rs: Discovery/ServerList has the
--    lists of servers in DNS packets, Discovery/Servers the acceptance of signed lists
--    (`DiscoveryState::accept`) and Discovery/Servers/Refresh `Discovery::refresh` and the start of
--    `AddrIndexBuilder::build`. Discovery/Mutable has the items of the DHT.
--  * iroh-mainline-endpoint-discovery/src/pkarr.rs: Discovery/Pkarr has signed packets, host names and
--    the publisher of names; Discovery/Pkarr/Rounds its edits and rounds as steps, one at each lock that
--    they take.
--  * iroh-link-gateway/src/lib.rs: Gateway/Urls has hosts, links and flags, Gateway/Stream what is taken
--    from the items of a provider, Gateway/Blobs `serve_blob`, Gateway/Collection the entries of a
--    collection and Gateway/Collection/Pages `collection_entry`, `serve_root` and `serve_path`.
--    Gateway/Http has the requests and responses that these share. For
--    iroh-link-gateway/src/pkarr_redirect.rs, Gateway/Redirect has the cache of packets and the choice
--    of an answer and a target, and Gateway/Redirect/Handler `redirect`. A request by subdomain is
--    rewritten to a path, a path leads to a blob or into a collection, and both end in `serve_blob`,
--    which selects ranges (Gateway/Ranges) and streams them.
--  * iroh-link-gateway/src/hints.rs: Gateway/Hints has the providers that links name for a hash.
--  * iroh-link-gateway/src/provider_cache.rs: Gateway/ProviderCache has the memory of which endpoints
--    served a hash, over an LRU cache (Gateway/Lru) of which only reads and writes are relied on.
--
-- State is passed explicitly: an operation takes the state and returns the new one, with what it sends
-- and answers in order. Clocks, random numbers and what other tasks return are arguments. Locks and
-- channels are not modelled as such: an operation of the source runs to its end under its lock or in
-- the one task that owns the state, so a run is a sequence of operations in any order; where the Pkarr
-- publisher takes several locks in turn, each is a step of its own.
--
-- Parameters, with what is relied on as their named laws: the postcard encoding (sizes, and that it
-- reads back what it wrote), the keyed BLAKE3 hash (32 bytes), the floating-point numbers and the
-- hasher of the rate limiter, the signature schemes, the LRU cache, percent encoding (what it escapes
-- does not stand in its result), z-base-32 (it reads back 32 bytes, in an
-- alphabet without `#`), the values that headers accept (visible ASCII), the parser of URIs (it drops a
-- fragment), the guesses of
-- MIME types, and the DNS crate. What a publication of the keeper comes to, what the DHT answers and
-- what a provider sends are inputs; that a provider's items are verified is a hypothesis on them, as is
-- that it sends all chunks where a theorem says that a response is completed. Tests has concrete
-- instances.
--
-- Numbers are natural numbers. Where the source is a machine integer that could wrap, the model says
-- so: tokens write 64 bits big-endian, ranges are bounded by 2 ^ 64, saturating operations saturate.
-- Loops are structural recursions; the collector of the store recurses on the list of deadlines, so no
-- fuel is needed.
--
-- Not modelled: the Mainline node, HTTP, DNS and QUIC libraries and the tasks that only connect them
-- to the parts above, the loops that repeat refreshes and announcements, the gateway's choice of a
-- provider and its caches of connections, the HTML of listings and debug pages, the browser extension,
-- packaging and the web site. A sequence of the Pkarr publisher is not bounded to
-- an `i64`, since it counts microseconds.
pub mod Prelude
pub mod Net
pub mod Proto
pub mod Index
pub mod Discovery
pub mod Gateway
mod Tests
