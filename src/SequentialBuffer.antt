-- ===== src/SequentialBuffer.antt =====
-- lib_util/sequential_buffer.h: `SequentialBufferT`, a byte buffer for one producer and one consumer.
-- A pointer into the storage is its offset from `m_data`, so `m_data_end` is the storage's length.
-- Each method runs under the buffer's lock, so a call is one step. The event flag is a template
-- parameter: `event_set` says whether `set` was called on it, and the outcome of `wait_for` is an
-- argument of `request_read`.
pub mod Contents
pub mod Storage
pub mod Write
pub mod Read
pub mod Stream
mod Tests
use sensor_libs.Prelude.{
  ℕ, ◌+◌, ◌-◌, ◌≡◌, Bool, true, false, not, ◌&&◌, ◌||◌, Option, none, some, List, length, blit,
  take, drop, replicate, ltb, leb, ◌==◌, if◌then◌else◌, min,
}

pub record Buffer : Type 0 where
  pub cells : List ℕ
  pub read_pos : ℕ
  pub write_pos : ℕ
  pub free_bytes : ℕ
  pub watermark_bytes : ℕ
  pub event_set : Bool

-- What a method returns: 0, -1, or nothing, where an `assert` stops the program.
pub data Status : Type 0 where
  ok failed aborted : Status

abbrev pub capacity : Buffer → ℕ
capacity b = length b.cells

unfoldable pub clear : Buffer → Buffer
clear b = record b { read_pos = 0; write_pos = 0; free_bytes = capacity b }

-- The constructor. The storage that `new` returns is not initialised: it is a parameter.
unfoldable pub create : List ℕ → Buffer
unfolding clear
create storage = clear (record {
  cells = storage;
  read_pos = 0;
  write_pos = 0;
  free_bytes = 0;
  watermark_bytes = 1;
  event_set = false;
})

pub set_watermark : Buffer → ℕ → Buffer
set_watermark b mark_bytes = record b { watermark_bytes = mark_bytes }

-- `size` asserts that `m_free` is at most the capacity; the invariant says that it is.
abbrev pub size : Buffer → ℕ
size b = capacity b - b.free_bytes

-- The end of `write`: notify the readers at the watermark.
unfoldable pub notify : Buffer → Buffer
notify b = if leb b.watermark_bytes (size b) then record b { event_set = true } else b

-- The branch for `m_write_ptr >= m_read_ptr`: up to the end of the storage, the rest to the front.
unfoldable pub write_around : Buffer → List ℕ → Buffer
write_around b bytes =
    let append_size = min (length bytes) (capacity b - b.write_pos) in
    let cells' = blit b.cells b.write_pos (take append_size bytes) in
    let end_pos = b.write_pos + append_size in
    let pos = if end_pos == capacity b then 0 else end_pos in
    let prepend_size = length bytes - append_size in
    if ltb 0 prepend_size
    then record b {
      cells = blit cells' pos (drop append_size bytes);
      write_pos = pos + prepend_size;
      free_bytes = b.free_bytes - length bytes;
    }
    else record b { cells = cells'; write_pos = pos; free_bytes = b.free_bytes - length bytes }

-- The other branch: one copy, in front of the read pointer.
pub write_before : Buffer → List ℕ → Buffer
write_before b bytes = record b {
  cells = blit b.cells b.write_pos bytes;
  write_pos = b.write_pos + length bytes;
  free_bytes = b.free_bytes - length bytes;
}

unfoldable pub write : Buffer → List ℕ → Status × Buffer
write b bytes =
    if length bytes == 0 || ltb b.free_bytes (length bytes)
    then (failed, record b { event_set = true })
    else (if leb b.read_pos b.write_pos
        then (ok, notify (write_around b bytes))
        else (if leb (b.write_pos + length bytes) b.read_pos
            then (ok, notify (write_before b bytes))
            else (aborted, b)))

pub commit_read : Buffer → ℕ → Status × Buffer
commit_read b commit_size =
    let pos = b.read_pos + commit_size in
    if leb pos (capacity b)
    then (
      ok,
      record b {
        read_pos = if pos == capacity b then 0 else pos;
        free_bytes = b.free_bytes + commit_size;
      },
    )
    else (aborted, b)

-- How many bytes `request_read` hands out from the read pointer on.
pub available_size : Buffer → ℕ
available_size b =
    if ltb b.read_pos b.write_pos
    then b.write_pos - b.read_pos
    else (if ltb 0 (size b) then capacity b - b.read_pos else 0)

-- The second component is what goes out through `data` and `available_size`: an offset and a count.
-- `signalled` says that `wait_for` returned 0.
unfoldable pub request_read : Buffer → ℕ → Bool → Status × Option (ℕ × ℕ)
unfolding available_size
request_read b timeout_ms signalled =
    if ltb 0 timeout_ms && not signalled && (size b == 0)
    then (failed, none)
    else (if ltb 0 (available_size b) then ok else failed, some (b.read_pos, available_size b))
