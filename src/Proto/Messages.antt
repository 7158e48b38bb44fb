-- ===== src/Proto/Messages.antt =====
-- The messages of udp-addr-index-proto/src/lib.rs, and what the program relies on of the postcard
-- encoding that serde derives for them: its documented sizes, and that trailing bytes are ignored.
use iroh_content_discovery.Prelude.{
  ℕ, ◌+◌, ◌^◌, ◌≤◌, ◌<◌, ◌≡◌, Option, none, some, List, ◌++◌, length,
}
use iroh_content_discovery.Net.{SocketAddrV4}

pub data RequestV1 : Type 0 where
  prepare : (tx : ℕ) (padding : List ℕ) → RequestV1
  put : (tx : ℕ) (token value : List ℕ) → RequestV1
  get : (tx : ℕ) (addr : SocketAddrV4) → RequestV1

pub data Request : Type 0 where
  v1 : RequestV1 → Request

pub data ResponseV1 : Type 0 where
  prepared : (tx : ℕ) (addr : SocketAddrV4) (token : List ℕ) → ResponseV1
  stored : (tx : ℕ) (addr : SocketAddrV4) → ResponseV1
  value : (tx : ℕ) (addr : SocketAddrV4) (value : Option (List ℕ)) → ResponseV1

pub data Response : Type 0 where
  v1 : ResponseV1 → Response

pub data Proto : Type 0 where
  request : Request → Proto
  response : Response → Proto

abbrev pub IsAddr : SocketAddrV4 → Type 0
IsAddr a = (a.ip < 2 ^ 32) × (a.port < 2 ^ 16)

-- The ranges that the Rust types give.
abbrev pub IsValue : Proto → Type 0
IsValue (Proto.request (Request.v1 (RequestV1.prepare tx padding))) =
    (tx < 2 ^ 64) × (length padding ≡ 24)
IsValue (Proto.request (Request.v1 (RequestV1.put tx token v))) =
    (tx < 2 ^ 64) × (length token ≡ 16) × (length v < 2 ^ 64)
IsValue (Proto.request (Request.v1 (RequestV1.get tx addr))) = (tx < 2 ^ 64) × IsAddr addr
IsValue (Proto.response (Response.v1 (ResponseV1.prepared tx addr token))) =
    (tx < 2 ^ 64) × IsAddr addr × (length token ≡ 16)
IsValue (Proto.response (Response.v1 (ResponseV1.stored tx addr))) = (tx < 2 ^ 64) × IsAddr addr
IsValue (Proto.response (Response.v1 (ResponseV1.value tx addr none))) = (tx < 2 ^ 64) × IsAddr addr
IsValue (Proto.response (Response.v1 (ResponseV1.value tx addr (some v)))) =
    (tx < 2 ^ 64) × IsAddr addr × (length v < 2 ^ 64)

-- Every enum is a tag of one byte; arrays are their bytes, a socket is four octets and a varint.
abbrev pub size : (ℕ → ℕ) → Proto → ℕ
size varint (Proto.request (Request.v1 (RequestV1.prepare tx padding))) = 3 + varint tx + 24
size varint (Proto.request (Request.v1 (RequestV1.put tx token v))) =
    3 + varint tx + 16 + varint (length v) + length v
size varint (Proto.request (Request.v1 (RequestV1.get tx addr))) =
    3 + varint tx + 4 + varint addr.port
size varint (Proto.response (Response.v1 (ResponseV1.prepared tx addr token))) =
    3 + varint tx + 4 + varint addr.port + 16
size varint (Proto.response (Response.v1 (ResponseV1.stored tx addr))) =
    3 + varint tx + 4 + varint addr.port
size varint (Proto.response (Response.v1 (ResponseV1.value tx addr none))) =
    3 + varint tx + 4 + varint addr.port + 1
size varint (Proto.response (Response.v1 (ResponseV1.value tx addr (some v)))) =
    3 + varint tx + 4 + varint addr.port + 1 + varint (length v) + length v

pub record Postcard : Type 0 where
  -- `postcard::to_slice` into a buffer of the given length.
  pub to_slice : Proto → ℕ → Option (List ℕ)
  -- `postcard::from_bytes`
  pub from_bytes : List ℕ → Option Proto
  -- The length of a varint: seven bits to a byte.
  pub varint : ℕ → ℕ
  pub varint_two : (n : ℕ) → n < 2 ^ 14 → varint n ≤ 2
  pub varint_three : (n : ℕ) → n < 2 ^ 21 → varint n ≤ 3
  pub varint_ten : (n : ℕ) → n < 2 ^ 64 → varint n ≤ 10
  pub fits :
      (p : Proto) (n : ℕ) → IsValue p → size varint p ≤ n → (bs : List ℕ) × (to_slice p n ≡ some bs)
  pub sized :
      (p : Proto) (n : ℕ) (bs : List ℕ)
      → IsValue p
      → to_slice p n ≡ some bs
      → (length bs ≡ size varint p) × (length bs ≤ n)
  -- What was encoded is decoded, whatever bytes follow it.
  pub reads :
      (p : Proto) (n : ℕ) (bs rest : List ℕ)
      → IsValue p
      → to_slice p n ≡ some bs
      → from_bytes (bs ++ rest) ≡ some p
  -- A decoded message has the types' ranges, and no encoding is shorter than the canonical one.
  pub ranges :
      (bs : List ℕ) (p : Proto) → from_bytes bs ≡ some p → IsValue p × (size varint p ≤ length bs)
