-- ===== src/Gateway/Stream.antt =====
-- iroh-link-gateway/src/lib.rs: what the gateway takes from the verified items that a provider
-- sends: the bytes of a range (`stream_content`), the first bytes of a blob (`sniff`) and a whole
-- component of a collection (`read_collection_blob`). An item that failed or timed out is `failed`,
-- and `closing` says whether the exchange ended as it should.

pub mod Exact
pub mod Whole
use iroh_content_discovery.Prelude.{
  ℕ, ◌+◌, ◌-◌, Bool, true, false, ◌&&◌, Option, none, some, List, [], ◌∷◌, ◌++◌, ltb, leb, ◌==◌,
  min, max, length, slice, take, if◌then◌else◌,
}
use iroh_content_discovery.Gateway.Ranges.{Range}

-- A verified leaf, a parent of the hash tree, which carries no data, or an error.
pub data Item : Type 0 where
  leaf : (offset : ℕ) (bytes : List ℕ) → Item
  parent failed : Item

-- The chunks that a stream yields, and whether it ends without an error.
pub record Streamed : Type 0 where
  pub chunks : List (List ℕ)
  pub complete : Bool

abbrev pub yields : List ℕ → Streamed → Streamed
yields bytes s = record s { chunks = bytes ∷ s.chunks }

-- The loop of `stream_content`, at the offset up to which the bytes are there.
unfoldable pub stream_from : Range → ℕ → List Item → Bool → Streamed
stream_from range offset [] closing = record {
  chunks = [];
  complete = (offset == range.end) && closing;
}
stream_from range offset (failed ∷ items) closing = record { chunks = []; complete = false }
stream_from range offset (parent ∷ items) closing = stream_from range offset items closing
stream_from range offset (leaf at bytes ∷ items) closing =
    let start = max at range.start in
    let end = min (at + length bytes) range.end in
    let skipped = stream_from range offset items closing in
    let rest = stream_from range end items closing in
    if ltb start end
    then (if start == offset
        then yields (slice (start - at) (end - at) bytes) rest
        else record { chunks = []; complete = false })
    else skipped

unfoldable pub stream_content : Range → List Item → Bool → Streamed
unfolding stream_from
stream_content range items closing = stream_from range range.start items closing

abbrev pub sniff_bytes : ℕ
sniff_bytes = 8192

-- The loop of `sniff`: `none` stands for an error.
unfoldable pub sniff_from : List ℕ → List Item → Option (List ℕ)
unfolding take
sniff_from prefix [] = some prefix
sniff_from prefix (failed ∷ items) = none
sniff_from prefix (parent ∷ items) = sniff_from prefix items
sniff_from prefix (leaf at bytes ∷ items) =
    let end = min (sniff_bytes - at) (length bytes) in
    let skipped = sniff_from prefix items in
    let rest = sniff_from (prefix ++ take end bytes) items in
    if ltb 0 end then (if at == length prefix then rest else none) else skipped

-- The checks of `sniff` after its loop, with the size that the provider announced.
unfoldable pub sniffed : ℕ → Bool → Option (List ℕ) → Option (ℕ × List ℕ)
sniffed size closing none = none
sniffed size closing (some prefix) =
    if closing && (length prefix == min size sniff_bytes) then some (size, prefix) else none

unfoldable pub sniff : ℕ → List Item → Bool → Option (ℕ × List ℕ)
unfolding sniff_from sniffed
sniff size items closing = sniffed size closing (sniff_from [] items)

-- The loop of `read_collection_blob` within a limit.
unfoldable pub read_from : ℕ → List ℕ → List Item → Option (List ℕ)
read_from limit bytes [] = some bytes
read_from limit bytes (failed ∷ items) = none
read_from limit bytes (parent ∷ items) = read_from limit bytes items
read_from limit bytes (leaf at more ∷ items) =
    let rest = read_from limit (bytes ++ more) items in
    if (at == length bytes) && leb (length more) (limit - length bytes) then rest else none

unfoldable pub read_whole : ℕ → Option (List ℕ) → Option (List ℕ)
read_whole size none = none
read_whole size (some bytes) = if length bytes == size then some bytes else none

unfoldable pub read_collection_blob : ℕ → ℕ → List Item → Option (List ℕ)
unfolding read_from read_whole
read_collection_blob limit size items =
    if leb size limit then read_whole size (read_from limit [] items) else none
