-- ===== src/Rbs/Tests.antt =====
-- Concrete packets, and each theorem on them.
use sensor_libs.Prelude.{
  ℕ, ◌+◌, ◌*◌, ◌<◌, ◌≤◌, ◌≡◌, ◌≢◌, ◌⊎◌, refl, some, List, [], ◌∷◌, ◌++◌, length, replicate, arith,
}
use mathlib.Core.Logic.{◌↔◌}
use sensor_libs.Rbs.SyncTable.{SyncTableEntry, SyncTable, max_rows, zero_entry}
use sensor_libs.Rbs.Message.{overrun, parsed, read_sync_packet, row_size}
use sensor_libs.Rbs.RoundTrip.{sync_packet, IsEntry, read_sync_packet_within, read-sync_packet}
use sensor_libs.Rbs.Server.{Packet, Reply, Server, new_server, process}
use sensor_libs.Rbs.History.{last_three, stamps, no_more, and_then, process_history}

abbrev row : SyncTableEntry
row = record { sensor_id = 7; sensor_instance_id = 2; m = 3; t = 5 }

abbrev table : SyncTable
table = record { table_id = 9; daemon_id = 1; rows = row ∷ replicate 31 zero_entry }

row-IsEntry : IsEntry row
row-IsEntry = record {
  sensor_in = omega arith;
  instance_in = omega arith;
  m_in = omega arith;
  t_in = omega arith;
}

abbrev bytes : List ℕ
bytes = sync_packet 4 9 1 (row ∷ [])

read-sync_packet_example : read_sync_packet bytes ≡ parsed 4 table
read-sync_packet_example =
    read-sync_packet 4 9 1 (row ∷ []) (omega arith) (omega arith) (omega arith) (row-IsEntry, tt)
      (omega arith)

abbrev zeros : List ℕ
zeros = replicate 36 0

read_sync_packet_within_example :
    (read_sync_packet zeros ≢ overrun)
    ↔ ((length zeros < 4) ⊎ ((k : ℕ) × (k ≤ max_rows) × (length zeros ≡ 12 + row_size * k)))
read_sync_packet_within_example = read_sync_packet_within zeros

abbrev packet : Packet
packet = record { bytes = bytes; src_ip = 1; src_port = 2; timestamp_us = 77 }

packet_readable : read_sync_packet packet.bytes ≢ overrun
packet_readable e = cc (read-sync_packet_example, e)

process_history_example :
    (s' : Server) × (replies : List Reply) × (process 3 4 new_server (packet ∷ [])
      ≡ some (s', replies))
    × (s'.history ≡ last_three ([] ++ stamps (packet ∷ [])))
unfolding last_three new_server
process_history_example =
    process_history 3 4 new_server (packet ∷ []) [] refl (and_then packet_readable no_more)
