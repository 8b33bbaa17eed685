-- ===== src/HttpPayload/Tests.antt =====
-- A text sent in three rounds, range headers, and a file in the buffer.
use sensor_libs.Prelude.{
  ℕ, ◌-◌, ◌<◌, ◌≡◌, ◌↔◌, refl, some, List, [], ◌∷◌, ◌++◌, codes, length, take, replicate, arith,
}
use sensor_libs.SequentialBuffer.{ok, request_read, write, write_around, notify, create, clear}
use sensor_libs.SequentialBuffer.Contents.{contents}
use sensor_libs.HttpPayload.Range.{
  start_at, failed, outside, parse_range_header, scan, read_start, range_step, is_digit,
}
use sensor_libs.HttpPayload.File.{
  PayloadFile, copied, new_file_payload, file_read_ptr, commit_file_read, Reaches, opens, fills,
  asks, copies,
}
use sensor_libs.HttpPayload.File.Sending.{send_file}
use sensor_libs.HttpPayload.{complete, Payload, json}
use sensor_libs.HttpPayload.Delivery.{
  remaining, IsWithin, deliver, deliver_lem, no_more, and_then, deliver_all,
}

abbrev text : Payload
text = json (104 ∷ 101 ∷ 121 ∷ []) 0

text-IsWithin : IsWithin text
unfolding IsWithin
text-IsWithin = (omega arith, omega arith)

deliver_lem_example :
    (sent : List ℕ) × (p' : Payload) × (deliver text (2 ∷ 1 ∷ []) ≡ some (sent, p'))
    × (sent ++ remaining p' ≡ 104 ∷ 101 ∷ 121 ∷ [])
    × IsWithin p'
deliver_lem_example = deliver_lem text (2 ∷ 1 ∷ []) text-IsWithin

deliver_all_example :
    (p' : Payload) × (deliver text (2 ∷ 2 ∷ 5 ∷ []) ≡ some (104 ∷ 101 ∷ 121 ∷ [], p'))
    × (remaining p' ≡ [])
deliver_all_example =
    deliver_all text (2 ∷ 2 ∷ 5 ∷ []) text-IsWithin
      (and_then (omega arith) (and_then (omega arith) (and_then (omega arith) no_more)))
      (omega arith)

abbrev read_first : List ℕ → ℕ
read_first [] = 0
read_first (d ∷ ds) = d - 48

range_test : parse_range_header read_first (codes "bytes=7-") ≡ start_at 7
unfolding parse_range_header scan read_start range_step is_digit
range_test = refl

closed_range_test : parse_range_header read_first (codes "bytes=7-9") ≡ failed
unfolding parse_range_header scan read_start range_step is_digit
closed_range_test = refl

-- Two ranges pass for the first of them.
two_ranges_test : parse_range_header read_first (codes "bytes=7-9,12-") ≡ start_at 7
unfolding parse_range_header scan read_start range_step is_digit
two_ranges_test = refl

empty_range_test : parse_range_header read_first [] ≡ outside
unfolding parse_range_header scan read_start
empty_range_test = refl

-- A file of two bytes that is named by its size, when both are in the buffer.
abbrev file_size : ℕ → ℕ
file_size n = n

abbrev opened : PayloadFile ℕ
opened = new_file_payload (replicate 2048 0) 2

-- The client has the pointer when the second byte is written, and copies one byte.
abbrev begun : PayloadFile ℕ
begun = record opened { buffer = (write opened.buffer (5 ∷ [])).1 }

abbrev filled : PayloadFile ℕ
filled = record begun { buffer = (write begun.buffer (6 ∷ [])).1 }

abbrev first_byte : List ℕ
first_byte = 5 ∷ []

abbrev two_bytes : List ℕ
two_bytes = 5 ∷ 6 ∷ []

copied-Reaches : Reaches file_size two_bytes filled (copied first_byte) [] []
unfolding new_file_payload write write_around notify create clear file_read_ptr request_read
copied-Reaches =
    copies 1
      (fills (6 ∷ []) []
        (asks 0 1 (fills (5 ∷ []) (6 ∷ []) (opens (replicate 2048 0) 2 refl refl) refl) refl) refl)
      (omega arith) (omega arith)

send_file_example :
    let (result, p') = commit_file_read file_size filled 1 in
    (take 1 two_bytes ≡ first_byte)
    × (0 < 1)
    × ((result ≡ complete) ↔ (first_byte ≡ two_bytes))
    × (((file_read_ptr p').0 ≡ ok) ↔ (0 < length (contents p'.buffer)))
send_file_example =
    send_file file_size two_bytes (omega arith) filled [] [] first_byte copied-Reaches
