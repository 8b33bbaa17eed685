-- ===== src/HttpPayload/File/Pointers.antt =====
-- lib_http/http_payload_file.h: what a client of a file has in hand while the buffer is written.
use sensor_libs.Prelude.{
  ℕ, false, zero, suc, ◌≤◌, ◌∷◌, take-take, ◌<◌, ◌≡◌, refl, ap, sym, ◌∙◌, List, [], ◌++◌, length,
  length-take, take, drop, slice, arith,
}
use sensor_libs.SequentialBuffer.{Buffer, available_size, write, request_read}
use sensor_libs.SequentialBuffer.Contents.{contents, IsValid, length-contents}
use sensor_libs.SequentialBuffer.Read.{available_bounds, request_read_shows}
use sensor_libs.SequentialBuffer.Write.{write_keeps_pointer}
use sensor_libs.HttpPayload.File.{Client, idle, pointed, copied}

take-append_left : (n : ℕ) (xs ys : List ℕ) → n ≤ length xs → take n (xs ++ ys) ≡ take n xs
take-append_left zero xs ys h = refl
take-append_left (suc n) [] ys h = absurd (omega arith)
take-append_left (suc n) (x ∷ xs) ys h = ap (◌∷◌ x) (take-append_left n xs ys (omega arith))

-- What a client has in hand: its pointer still shows bytes of the buffer, and what it copied is the front of the queue.
abbrev pub InHand : Client → Buffer → Type 0
InHand idle b = Unit
InHand (pointed pos n) b = (pos ≡ b.read_pos) × (n ≤ available_size b)
InHand (copied bytes) b =
    (0 < length bytes)
    × (length bytes ≤ available_size b)
    × (bytes ≡ take (length bytes) (contents b))

-- The oldest bytes stay where they are under a write.
pub InHand-write :
    (client : Client) (b : Buffer) (bytes added : List ℕ)
    → IsValid b
    → contents (write b bytes).1 ≡ contents b ++ added
    → InHand client b
    → InHand client (write b bytes).1
InHand-write idle b bytes added v e h = h
InHand-write (pointed pos n) b bytes added v e h =
    let keeps = write_keeps_pointer b bytes v in (h.0 ∙ sym keeps.0, omega (arith, h, keeps))
InHand-write (copied xs) b bytes added v e h =
    let keeps = write_keeps_pointer b bytes v in
    let bounds = available_bounds b v in
    (
      h.0,
      omega (arith, h, keeps),
      h.2
          ∙ sym (
              ap (take (length xs)) e
              ∙ take-append_left (length xs) (contents b) added
                  (omega (arith, h, bounds, length-contents b))),
    )

-- What is copied from a pointer is the front of the queue.
pub InHand-copy :
    (b : Buffer) (pos n count : ℕ)
    → IsValid b
    → InHand (pointed pos n) b
    → 0 < count
    → count ≤ n
    → InHand (copied (slice b.cells pos count)) b
unfolding request_read
InHand-copy b pos n count v h some_bytes l =
    let shown = request_read_shows b 0 false _ b.read_pos (available_size b) v refl in
    let bounds = available_bounds b v in
    let here : slice b.cells pos count ≡ take count (contents b) =
      ap (λ i. slice b.cells i count) h.0
      ∙ sym (take-take count (available_size b) (drop b.read_pos b.cells) (omega (arith, h, l)))
      ∙ ap (take count) shown.0
      ∙ take-take count (available_size b) (contents b) (omega (arith, h, l)) in
    let len : length (slice b.cells pos count) ≡ count =
      ap length here
      ∙ omega (arith, length-take count (contents b), length-contents b, bounds, h, l) in
    (
      omega (arith, len, some_bytes),
      omega (arith, len, h, l),
      here ∙ ap (λ i. take i (contents b)) (sym len),
    )
