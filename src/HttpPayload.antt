-- ===== src/HttpPayload.antt =====
-- lib_http/http_payload.h, http_payload.cpp: the contents of a response, which the server takes in
-- parts. The header fields are those of `get_header_fields` in HttpResponse.
use sensor_libs.Prelude.{
  ℕ, ◌+◌, ◌-◌, ◌%◌, ◌^◌, word64, ◌==◌, Option, none, some, List, [], length, drop, replicate, sub64,
  min, ltb, if◌then◌else◌,
}
pub mod Delivery
pub mod Range
pub mod File
mod Tests

pub data HttpResult : Type 0 where
  complete incomplete error timedout undefined : HttpResult

-- `PayloadEmpty`; `PayloadJson` and `PayloadBlob`, with their bytes and position; `PayloadTest`, with
-- its size and position.
pub data Payload : Type 0 where
  empty_payload : Payload
  json blob : List ℕ → ℕ → Payload
  test_payload : ℕ → ℕ → Payload

abbrev pub domain_size : ℕ
domain_size = 1024

-- The bytes from the pointer on, as many as the size says; `none` is a position behind the end, from
-- which the size wraps around.
unfoldable pub from_position : List ℕ → ℕ → Option (List ℕ)
from_position bytes pos = if ltb (length bytes) pos then none else some (drop pos bytes)

unfoldable pub get_read_ptr : Payload → Option (List ℕ)
unfolding from_position
get_read_ptr empty_payload = some []
get_read_ptr (json text pos) = from_position text pos
get_read_ptr (blob bytes pos) = from_position bytes pos
get_read_ptr (test_payload size pos) = some (replicate (min (sub64 size pos) domain_size) 172)

unfoldable pub at_end : ℕ → ℕ → HttpResult
at_end pos size = if pos == size then complete else incomplete

unfoldable pub commit : Payload → ℕ → HttpResult × Payload
unfolding at_end
commit empty_payload n = (complete, empty_payload)
commit (json text pos) n = (at_end (pos + n) (length text), json text (pos + n))
commit (blob bytes pos) n = (at_end (pos + n) (length bytes), blob bytes (pos + n))
commit (test_payload size pos) n = (at_end (pos + n) size, test_payload size (pos + n))

-- A `size_t` through an `int` of 32 bits and back: the low 32 bits, with their sign.
unfoldable pub through_int : ℕ → ℕ
through_int n = let low = n % 2 ^ 32 in if ltb low (2 ^ 31) then low else word64 - 2 ^ 32 + low

unfoldable pub payload_size : Payload → ℕ
unfolding through_int
payload_size empty_payload = 0
payload_size (json text pos) = through_int (length text)
payload_size (blob bytes pos) = length bytes
payload_size (test_payload size pos) = size
