-- ===== src/SequentialBuffer/Stream.antt =====
-- lib_util/sequential_buffer.h: a producer and a consumer that share a buffer, call by call.
use sensor_libs.Prelude.{
  ℕ, ◌≤◌, ◌<◌, ◌≡◌, refl, sym, ap, ◌∙◌, false, Option, none, some, List, [], ◌∷◌, ◌++◌,
  append_assoc, append-nil, length, take, drop, slice, take-append-drop, take-take, nil_of_length,
  min, arith,
}
use sensor_libs.SequentialBuffer.{
  Buffer, Status, ok, capacity, write, commit_read, request_read, clear, create,
}
use sensor_libs.SequentialBuffer.Contents.{contents, IsValid, length-contents}
use sensor_libs.SequentialBuffer.Write.{put, write_refines}
use sensor_libs.SequentialBuffer.Read.{request_read_shows, commit_read_drops}

-- The producer writes; the consumer asks for what there is and takes at most `k` bytes of it.
pub data Call : Type 0 where
  puts : List ℕ → Call
  takes : ℕ → Call

-- The buffer after a call, the bytes that the consumer got and the bytes that `write` accepted.
pub record Trace : Type 0 where
  pub buffer : Buffer
  pub received : List ℕ
  pub accepted : List ℕ

unfoldable pub accepted_of : Status → List ℕ → List ℕ
accepted_of ok bytes = bytes
accepted_of _ bytes = []

consume : Buffer → ℕ → Option (ℕ × ℕ) → Trace
consume b k none = record { buffer = b; received = []; accepted = [] }
consume b k (some (p, n)) = record {
  buffer = (commit_read b (min k n)).1;
  received = slice b.cells p (min k n);
  accepted = [];
}

unfoldable pub step : Buffer → Call → Trace
unfolding accepted_of consume
step b (puts bytes) = record {
  buffer = (write b bytes).1;
  received = [];
  accepted = accepted_of (write b bytes).0 bytes;
}
step b (takes k) = consume b k (request_read b 0 false).1

unfoldable pub run : Buffer → List Call → Trace
run b [] = record { buffer = b; received = []; accepted = [] }
run b (c ∷ cs) =
    let t = step b c in
    let rest = run t.buffer cs in
    record {
      buffer = rest.buffer;
      received = t.received ++ rest.received;
      accepted = t.accepted ++ rest.accepted;
    }

pub record Keeps (b : Buffer) (t : Trace) : Type 0 where
  pub stays : IsValid t.buffer
  pub order : t.received ++ contents t.buffer ≡ contents b ++ t.accepted
  pub room : capacity t.buffer ≡ capacity b

puts-Keeps : (b : Buffer) (bytes : List ℕ) → IsValid b → Keeps b (step b (puts bytes))
unfolding step put
puts-Keeps b bytes v = record {
  stays = (write_refines b bytes v).1;
  order = ground (arith, write_refines b bytes v, append-nil (contents b));
  room = (write_refines b bytes v).2;
}

take_fewer : (k n : ℕ) (xs ys : List ℕ) → take n xs ≡ take n ys → k ≤ n → take k xs ≡ take k ys
take_fewer k n xs ys h l = sym (take-take k n xs l) ∙ ap (take k) h ∙ take-take k n ys l

consume-Keeps :
    (b : Buffer) (k : ℕ) (s : Status) (o : Option (ℕ × ℕ))
    → IsValid b
    → request_read b 0 false ≡ (s, o)
    → Keeps b (consume b k o)
unfolding consume
consume-Keeps b k s none v h = record {
  stays = v;
  order = sym (append-nil (contents b));
  room = refl;
}
consume-Keeps b k s (some (p, n)) v h = record {
  stays = drops.2;
  order =
      ap (λ xs. xs ++ contents (commit_read b (min k n)).1) front
      ∙ ap (◌++◌ (take (min k n) (contents b))) drops.1
      ∙ take-append-drop (min k n) (contents b)
      ∙ sym (append-nil (contents b));
  room = drops.3;
}
  where
    front : slice b.cells p (min k n) ≡ take (min k n) (contents b)
    front = take_fewer (min k n) n _ _ (request_read_shows b 0 false s p n v h).0 (omega arith)

    drops :
        let (r, b') = commit_read b (min k n) in
        (r ≡ ok)
        × (contents b' ≡ drop (min k n) (contents b))
        × IsValid b'
        × (capacity b' ≡ capacity b)
    drops = commit_read_drops b 0 false s p n (min k n) v h (omega arith)

pub step-Keeps : (b : Buffer) (c : Call) → IsValid b → Keeps b (step b c)
unfolding step
step-Keeps b (puts bytes) v = puts-Keeps b bytes v
step-Keeps b (takes k) v =
    consume-Keeps b k (request_read b 0 false).0 (request_read b 0 false).1 v refl

-- From a valid buffer, after any sequence of writes and reads, the bytes that the consumer got and
-- then those still held are the bytes held at first and then those that `write` accepted: none is
-- lost, repeated or reordered. The buffer is still valid and of the same capacity.
pub run_stream :
    (b : Buffer) (calls : List Call)
    → IsValid b
    → let t = run b calls in
      (t.received ++ contents t.buffer ≡ contents b ++ t.accepted)
      × IsValid t.buffer
      × (capacity t.buffer ≡ capacity b)
unfolding run
run_stream b [] v = (sym (append-nil (contents b)), v, refl)
run_stream b (c ∷ cs) v =
    let k = step-Keeps b c v in
    let t = step b c in
    let rest = run_stream t.buffer cs k.stays in
    (
      append_assoc t.received _ _
          ∙ ap (◌++◌ t.received) rest.0
          ∙ sym (append_assoc t.received _ _)
          ∙ ap (λ xs. xs ++ (run t.buffer cs).accepted) k.order
          ∙ append_assoc (contents b) _ _,
      rest.1,
      rest.2 ∙ k.room,
    )

pub clear-IsValid : (b : Buffer) → 0 < capacity b → IsValid (clear b) × (contents (clear b) ≡ [])
unfolding clear
clear-IsValid b h = (ground arith, nil_of_length _ (omega (arith, length-contents (clear b))))

-- A new buffer over a storage of at least one byte is valid and empty.
pub create-IsValid :
    (storage : List ℕ)
    → 0 < length storage
    → IsValid (create storage) × (contents (create storage) ≡ [])
unfolding create
create-IsValid storage h =
    clear-IsValid
      (record {
        cells = storage;
        read_pos = 0;
        write_pos = 0;
        free_bytes = 0;
        watermark_bytes = 1;
        event_set = false;
      })
      h

capacity-clear : (b : Buffer) → capacity (clear b) ≡ capacity b
unfolding clear
capacity-clear b = refl

-- A buffer over a storage of at least one byte, whatever was done to it before `clear` was called,
-- is valid, holds nothing and accepts a write of every size up to that of the storage.
pub write-clear :
    (b : Buffer) (bytes : List ℕ)
    → 0 < length bytes
    → length bytes ≤ capacity b
    → let (s, b') = write (clear b) bytes in (s ≡ ok) × (contents b' ≡ bytes) × IsValid b'
unfolding put
write-clear b bytes p h = (
  ground (arith, refines, clear-IsValid b, capacity-clear b),
  ground (arith, refines, clear-IsValid b, capacity-clear b),
  refines.1,
)
  where
    refines :
        let (s, b') = write (clear b) bytes in
        ((s, contents b') ≡ put (capacity (clear b)) (contents (clear b)) bytes)
        × IsValid b'
        × (capacity b' ≡ capacity (clear b))
    refines = write_refines (clear b) bytes (clear-IsValid b (omega arith)).0
