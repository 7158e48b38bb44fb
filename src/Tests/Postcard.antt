-- ===== src/Tests/Postcard.antt =====
-- A concrete encoding with the laws of `Postcard`, to run the program with: each number is one
-- byte of the model, so that a varint has length one.
use iroh_content_discovery.Prelude.{
  ℕ, zero, suc, ◌+◌, ◌^◌, ◌≤◌, ◌≡◌, refl, Bool, true, ◌&&◌, Option, none, some, List, [], ◌∷◌, ◌++◌,
  length, arith, take, drop, take-append, drop-append, length-append, ltb, leb, ◌==◌, if◌then◌else◌,
}
use mathlib.Core.List.{append_assoc}
use iroh_content_discovery.Net.{SocketAddrV4}
use iroh_content_discovery.Proto.Messages.{
  Proto, Request, RequestV1, Response, ResponseV1, Postcard, IsValue, size,
}

abbrev one : ℕ → ℕ
one n = 1

socket : SocketAddrV4 → List ℕ → List ℕ
socket a rest = a.ip ∷ 0 ∷ 0 ∷ 0 ∷ a.port ∷ rest

pub ser : Proto → List ℕ → List ℕ
unfolding socket
ser (Proto.request (Request.v1 (RequestV1.prepare tx pad))) rest = 0 ∷ 0 ∷ 0 ∷ tx ∷ (pad ++ rest)
ser (Proto.request (Request.v1 (RequestV1.put tx token v))) rest =
    0 ∷ 0 ∷ 1 ∷ tx ∷ (token ++ length v ∷ (v ++ rest))
ser (Proto.request (Request.v1 (RequestV1.get tx addr))) rest = 0 ∷ 0 ∷ 2 ∷ tx ∷ socket addr rest
ser (Proto.response (Response.v1 (ResponseV1.prepared tx addr token))) rest =
    1 ∷ 0 ∷ 0 ∷ tx ∷ socket addr (token ++ rest)
ser (Proto.response (Response.v1 (ResponseV1.stored tx addr))) rest =
    1 ∷ 0 ∷ 1 ∷ tx ∷ socket addr rest
ser (Proto.response (Response.v1 (ResponseV1.value tx addr none))) rest =
    1 ∷ 0 ∷ 2 ∷ tx ∷ socket addr (0 ∷ rest)
ser (Proto.response (Response.v1 (ResponseV1.value tx addr (some v)))) rest =
    1 ∷ 0 ∷ 2 ∷ tx ∷ socket addr (1 ∷ length v ∷ (v ++ rest))

put_body : ℕ → List ℕ → List ℕ → Option Proto
put_body tx token [] = none
put_body tx token (n ∷ more) =
    some (Proto.request (Request.v1 (RequestV1.put tx token (take n more))))

found : List ℕ → Option (List ℕ)
found (suc zero ∷ n ∷ more) = some (take n more)
found _ = none

pub parse : List ℕ → Option Proto
unfolding put_body found
parse (zero ∷ zero ∷ zero ∷ tx ∷ rest) =
    some (Proto.request (Request.v1 (RequestV1.prepare tx (take 24 rest))))
parse (zero ∷ zero ∷ suc zero ∷ tx ∷ rest) = put_body tx (take 16 rest) (drop 16 rest)
parse (zero ∷ zero ∷ suc (suc zero) ∷ tx ∷ ip ∷ _ ∷ _ ∷ _ ∷ port ∷ rest) =
    some (Proto.request (Request.v1 (RequestV1.get tx (record { ip = ip; port = port }))))
parse (suc zero ∷ zero ∷ zero ∷ tx ∷ ip ∷ _ ∷ _ ∷ _ ∷ port ∷ rest) = some (
    Proto.response
      (Response.v1 (ResponseV1.prepared tx (record { ip = ip; port = port }) (take 16 rest))))
parse (suc zero ∷ zero ∷ suc zero ∷ tx ∷ ip ∷ _ ∷ _ ∷ _ ∷ port ∷ rest) =
    some (Proto.response (Response.v1 (ResponseV1.stored tx (record { ip = ip; port = port }))))
parse (suc zero ∷ zero ∷ suc (suc zero) ∷ tx ∷ ip ∷ _ ∷ _ ∷ _ ∷ port ∷ rest) = some (
    Proto.response
      (Response.v1 (ResponseV1.value tx (record { ip = ip; port = port }) (found rest))))
parse _ = none

addr_ok : SocketAddrV4 → Bool
addr_ok a = ltb a.ip (2 ^ 32) && ltb a.port (2 ^ 16)

ranges_ok : Proto → Bool
unfolding addr_ok
ranges_ok (Proto.request (Request.v1 (RequestV1.prepare tx pad))) =
    ltb tx (2 ^ 64) && length pad == 24
ranges_ok (Proto.request (Request.v1 (RequestV1.put tx token v))) =
    ltb tx (2 ^ 64) && (length token == 16 && ltb (length v) (2 ^ 64))
ranges_ok (Proto.request (Request.v1 (RequestV1.get tx addr))) = ltb tx (2 ^ 64) && addr_ok addr
ranges_ok (Proto.response (Response.v1 (ResponseV1.prepared tx addr token))) =
    ltb tx (2 ^ 64) && (addr_ok addr && length token == 16)
ranges_ok (Proto.response (Response.v1 (ResponseV1.stored tx addr))) =
    ltb tx (2 ^ 64) && addr_ok addr
ranges_ok (Proto.response (Response.v1 (ResponseV1.value tx addr none))) =
    ltb tx (2 ^ 64) && addr_ok addr
ranges_ok (Proto.response (Response.v1 (ResponseV1.value tx addr (some v)))) =
    ltb tx (2 ^ 64) && (addr_ok addr && ltb (length v) (2 ^ 64))

unfoldable pub to_slice : Proto → ℕ → Option (List ℕ)
unfolding ser
to_slice p n = if leb (size one p) n then some (ser p []) else none

pub checked : ℕ → Option Proto → Option Proto
unfolding ranges_ok
checked n none = none
checked n (some p) = if ranges_ok p && leb (size one p) n then some p else none

unfoldable pub from_bytes : List ℕ → Option Proto
unfolding parse checked
from_bytes bs = checked (length bs) (parse bs)

ranges_ok_sound : (p : Proto) → ranges_ok p ≡ true → IsValue p
unfolding ranges_ok
ranges_ok_sound (Proto.request (Request.v1 (RequestV1.prepare tx pad))) h = ground arith
ranges_ok_sound (Proto.request (Request.v1 (RequestV1.put tx token v))) h = ground arith
ranges_ok_sound (Proto.request (Request.v1 (RequestV1.get tx addr))) h = ground arith
ranges_ok_sound (Proto.response (Response.v1 (ResponseV1.prepared tx addr token))) h = ground arith
ranges_ok_sound (Proto.response (Response.v1 (ResponseV1.stored tx addr))) h = ground arith
ranges_ok_sound (Proto.response (Response.v1 (ResponseV1.value tx addr none))) h = ground arith
ranges_ok_sound (Proto.response (Response.v1 (ResponseV1.value tx addr (some v)))) h = ground arith

ranges_ok_complete : (p : Proto) → IsValue p → ranges_ok p ≡ true
unfolding ranges_ok
ranges_ok_complete (Proto.request (Request.v1 (RequestV1.prepare tx pad))) h = ground arith
ranges_ok_complete (Proto.request (Request.v1 (RequestV1.put tx token v))) h = ground arith
ranges_ok_complete (Proto.request (Request.v1 (RequestV1.get tx addr))) h = ground arith
ranges_ok_complete (Proto.response (Response.v1 (ResponseV1.prepared tx addr token))) h =
    ground arith
ranges_ok_complete (Proto.response (Response.v1 (ResponseV1.stored tx addr))) h = ground arith
ranges_ok_complete (Proto.response (Response.v1 (ResponseV1.value tx addr none))) h = ground arith
ranges_ok_complete (Proto.response (Response.v1 (ResponseV1.value tx addr (some v)))) h =
    ground arith

length-ser :
    (p : Proto) (rest : List ℕ) → IsValue p → length (ser p rest) ≡ size one p + length rest
unfolding ser
length-ser (Proto.request (Request.v1 (RequestV1.prepare tx pad))) rest h =
    omega (arith, length-append pad rest)
length-ser (Proto.request (Request.v1 (RequestV1.put tx token v))) rest h =
    omega (arith, length-append token (length v ∷ (v ++ rest)), length-append v rest)
length-ser (Proto.request (Request.v1 (RequestV1.get tx addr))) rest h = omega arith
length-ser (Proto.response (Response.v1 (ResponseV1.prepared tx addr token))) rest h =
    omega (arith, length-append token rest)
length-ser (Proto.response (Response.v1 (ResponseV1.stored tx addr))) rest h = omega arith
length-ser (Proto.response (Response.v1 (ResponseV1.value tx addr none))) rest h = omega arith
length-ser (Proto.response (Response.v1 (ResponseV1.value tx addr (some v)))) rest h =
    omega (arith, length-append v rest)

parse-ser : (p : Proto) (rest : List ℕ) → IsValue p → parse (ser p rest) ≡ some p
unfolding ser parse
parse-ser (Proto.request (Request.v1 (RequestV1.prepare tx pad))) rest h =
    rw (take-append pad rest 24 h.1)
parse-ser (Proto.request (Request.v1 (RequestV1.put tx token v))) rest h = rw (
  take-append token (length v ∷ (v ++ rest)) 16 h.1,
  drop-append token (length v ∷ (v ++ rest)) 16 h.1,
  take-append v rest (length v) refl,
)
parse-ser (Proto.request (Request.v1 (RequestV1.get tx addr))) rest h = refl
parse-ser (Proto.response (Response.v1 (ResponseV1.prepared tx addr token))) rest h =
    rw (take-append token rest 16 h.2)
parse-ser (Proto.response (Response.v1 (ResponseV1.stored tx addr))) rest h = refl
parse-ser (Proto.response (Response.v1 (ResponseV1.value tx addr none))) rest h = refl
parse-ser (Proto.response (Response.v1 (ResponseV1.value tx addr (some v)))) rest h =
    rw (take-append v rest (length v) refl)

ser-append : (p : Proto) (rest : List ℕ) → ser p [] ++ rest ≡ ser p rest
unfolding ser
ser-append (Proto.request (Request.v1 (RequestV1.prepare tx pad))) rest = simp append_assoc
ser-append (Proto.request (Request.v1 (RequestV1.put tx token v))) rest = simp append_assoc
ser-append (Proto.request (Request.v1 (RequestV1.get tx addr))) rest = refl
ser-append (Proto.response (Response.v1 (ResponseV1.prepared tx addr token))) rest =
    simp append_assoc
ser-append (Proto.response (Response.v1 (ResponseV1.stored tx addr))) rest = refl
ser-append (Proto.response (Response.v1 (ResponseV1.value tx addr none))) rest = refl
ser-append (Proto.response (Response.v1 (ResponseV1.value tx addr (some v)))) rest =
    simp append_assoc

pub to_slice-sized :
    (p : Proto) (n : ℕ) (bs : List ℕ)
    → IsValue p
    → to_slice p n ≡ some bs
    → (length bs ≡ size one p) × (length bs ≤ n)
unfolding to_slice
to_slice-sized p n bs v h = ground (arith, length-ser p [] v)

pub reads :
    (p : Proto) (n : ℕ) (bs rest : List ℕ)
    → IsValue p
    → to_slice p n ≡ some bs
    → from_bytes (bs ++ rest) ≡ some p
unfolding to_slice from_bytes
reads p n bs rest v h =
    let e : bs ≡ ser p [] = ground arith in
    rw (e, ser-append p rest, parse-ser p rest v)
      (ground (arith, ranges_ok_complete p v, length-ser p rest v))

pub checked_sound :
    (n : ℕ) (o : Option Proto) (p : Proto) → checked n o ≡ some p → IsValue p × (size one p ≤ n)
unfolding checked
checked_sound n none p h = cc
checked_sound n (some q) p h =
    let e : q ≡ p = ground arith in rw (← e) (ranges_ok_sound q (ground arith), ground arith)

pub to_slice-fits :
    (p : Proto) (n : ℕ) → IsValue p → size one p ≤ n → (bs : List ℕ) × (to_slice p n ≡ some bs)
unfolding to_slice
to_slice-fits p n v h = (ser p [], ground arith)

pub ranges :
    (bs : List ℕ) (p : Proto) → from_bytes bs ≡ some p → IsValue p × (size one p ≤ length bs)
unfolding from_bytes
ranges bs p h = checked_sound (length bs) (parse bs) p h

abbrev pub postcard : Postcard
postcard = record {
  to_slice = to_slice;
  from_bytes = from_bytes;
  varint = one;
  varint_two = λ n h. omega arith;
  varint_three = λ n h. omega arith;
  varint_ten = λ n h. omega arith;
  fits = to_slice-fits;
  sized = to_slice-sized;
  reads = reads;
  ranges = ranges;
}
