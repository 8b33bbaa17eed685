-- ===== src/Rbs/Message.antt =====
-- lib_rbs/rbs_message.cpp: the packets as bytes, little-endian as the processors store them.
use sensor_libs.Prelude.{
  ℕ, zero, suc, Option, none, some, List, [], ◌∷◌, ◌++◌, length, drop, slice, blit, replicate, ltb,
  leb, if◌then◌else◌,
}
use mathlib.Core.Option
use sensor_libs.Prelude.Bytes.{le, from_le}
use sensor_libs.Rbs.SyncTable.{Timestamp, SyncTableEntry, SyncTable, max_rows, zero_entry}

unfoldable pub timestamp_bytes : List Timestamp → List ℕ
timestamp_bytes [] = []
timestamp_bytes (ts ∷ hist) =
    le 4 ts.sequence_id ++ (le 8 ts.timestamp_us ++ (le 4 ts.daemon_id ++ timestamp_bytes hist))

unfoldable pub timestamp_packet : ℕ → ℕ → List Timestamp → List ℕ
unfolding timestamp_bytes
timestamp_packet sensor_id sensor_instance_id hist =
    le 4 sensor_id ++ (le 4 sensor_instance_id ++ timestamp_bytes hist)

-- The number of bytes and the buffer. The length of the buffer is not looked at: `none` means that
-- the bytes go past its end.
unfoldable pub write_timestamp_packet : ℕ → ℕ → List Timestamp → List ℕ → Option (ℕ × List ℕ)
unfolding timestamp_packet
write_timestamp_packet sensor_id sensor_instance_id hist buffer =
    let packet = timestamp_packet sensor_id sensor_instance_id hist in
    if leb (length packet) (length buffer) then some (length packet, blit buffer 0 packet) else none

-- What `read_sync_packet` does: it returns -1, it accesses memory outside the buffer or the table, or
-- it returns 0 with the sequence id and the table.
pub data Parsed : Type 0 where
  invalid overrun : Parsed
  parsed : ℕ → SyncTable → Parsed

abbrev pub row_size : ℕ
row_size = 24

unfoldable pub read_row : List ℕ → SyncTableEntry
read_row bytes = record {
  sensor_id = from_le (slice bytes 0 4);
  sensor_instance_id = from_le (slice bytes 4 4);
  m = from_le (slice bytes 8 8);
  t = from_le (slice bytes 16 8);
}

-- The loop, for the rows of the table that are left; those that are not filled stay zero. `none` is
-- an access outside: the last row is cut off, or there are more rows than the table has.
unfoldable pub read_rows : ℕ → List ℕ → Option (List SyncTableEntry)
unfolding read_row
read_rows left [] = some (replicate left zero_entry)
read_rows zero (b ∷ bs) = none
read_rows (suc left) (b ∷ bs) =
    if ltb (length (b ∷ bs)) row_size
    then none
    else Option.map (◌∷◌ (read_row (b ∷ bs))) (read_rows left (drop row_size (b ∷ bs)))

-- The header of the packet, with the rows.
unfoldable pub with_rows : List ℕ → Option (List SyncTableEntry) → Parsed
with_rows buffer none = overrun
with_rows buffer (some rows) = parsed (from_le (slice buffer 0 4)) (record {
  table_id = from_le (slice buffer 4 4);
  daemon_id = from_le (slice buffer 8 4);
  rows = rows;
})

-- Only a packet that is shorter than the first word is refused.
unfoldable pub read_sync_packet : List ℕ → Parsed
read_sync_packet buffer =
    if ltb (length buffer) 4
    then invalid
    else (if ltb (length buffer) 12
        then overrun
        else with_rows buffer (read_rows max_rows (drop 12 buffer)))
