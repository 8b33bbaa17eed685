-- ===== src/Rbs/Server.antt =====
-- lib_rbs/rbs_server.h, rbs_server.cpp: the server. The network stack is outside the repository: a
-- received packet is a value with its data, source and time, and what is sent is a list of replies.
use sensor_libs.Prelude.{
  ℕ, Bool, false, not, ◌&&◌, Option, none, some, List, [], ◌∷◌, ◌++◌, replicate, take, ◌==◌,
  if◌then◌else◌, ltb,
}
use sensor_libs.Rbs.SyncTable.{Timestamp, SyncTable, zero_table}
use sensor_libs.Rbs.Message.{invalid, overrun, parsed, read_sync_packet, write_timestamp_packet}

-- What `active_sync_table` points at: the table of zeros that stands in during a reset, or one of the
-- two entries of `m_sync_table_buffer`.
pub data Active : Type 0 where
  null_table first second : Active

pub record Packet : Type 0 where
  pub bytes : List ℕ
  pub src_ip : ℕ
  pub src_port : ℕ
  pub timestamp_us : ℕ

pub record Reply : Type 0 where
  pub dst_ip : ℕ
  pub dst_port : ℕ
  pub payload : List ℕ

pub record Server : Type 0 where
  pub history : List Timestamp
  pub suspended : Bool
  pub table_first : SyncTable
  pub table_second : SyncTable
  pub active : Active
  pub local_port : ℕ

abbrev pub table_at : Server → Active → SyncTable
table_at s null_table = zero_table
table_at s first = s.table_first
table_at s second = s.table_second

abbrev pub active_table : Server → SyncTable
active_table s = table_at s s.active

-- `reset`, after which the pointer is at the first buffer; both are zero.
unfoldable pub reset : Server → Server
reset s = record s {
  history = [];
  table_first = zero_table;
  table_second = zero_table;
  active = first;
}

-- The constructor.
unfoldable pub new_server : Server
unfolding reset
new_server = reset (record {
  history = [];
  suspended = false;
  table_first = zero_table;
  table_second = zero_table;
  active = null_table;
  local_port = 21001;
})

unfoldable pub suspend : Server → Bool → Server
suspend s suspended = record s { suspended = suspended }

unfoldable pub set_sync_port : Server → ℕ → Server
set_sync_port s port = record s { local_port = port }

-- The buffer that is not in use gets the table; then the pointer moves to it.
unfoldable pub flip_sync_tables : Server → SyncTable → Server
flip_sync_tables s new_table = elim s.active [
  | first ↦ record s { table_second = new_table; active = second }
  | _ ↦ record s { table_first = new_table; active = first }
]

-- `while (m_history.size() > 2) m_history.pop_front();`
unfoldable pub trim_history : List Timestamp → List Timestamp
trim_history [] = []
trim_history (a ∷ []) = a ∷ []
trim_history (a ∷ b ∷ []) = a ∷ b ∷ []
trim_history (a ∷ b ∷ c ∷ rest) = trim_history (b ∷ c ∷ rest)

unfoldable pub record_timestamp : Server → Timestamp → Server
unfolding trim_history
record_timestamp s ts = record s { history = trim_history s.history ++ (ts ∷ []) }

abbrev pub msg_size : ℕ
msg_size = 128

-- The part of a server that a device fixes: its ids.
module _ (sensor_id sensor_instance_id : ℕ) where
  -- The packet that `send_timestamps` hands to the network; `none` is a write past `msg_data`.
  unfoldable pub send_timestamps : Server → ℕ → ℕ → Option (List Reply)
  send_timestamps s dst_ip dst_port =
      elim (write_timestamp_packet sensor_id sensor_instance_id s.history (replicate msg_size 0)) [
        | none ↦ none
        | some (count, msg) ↦ some (
            if ltb 0 count
            then record { dst_ip = dst_ip; dst_port = dst_port; payload = take count msg } ∷ []
            else [])
      ]

  -- The tables after a packet: a table with another id is taken over unless the server is suspended.
  unfoldable pub update_table : Server → SyncTable → Server
  unfolding flip_sync_tables
  update_table s table =
      if not ((active_table s).table_id == table.table_id) && not s.suspended
      then flip_sync_tables s table
      else s

  -- One round of `process`; `none` is an access outside a buffer.
  unfoldable pub process_packet : Server → Packet → Option (Server × List Reply)
  process_packet s packet = elim (read_sync_packet packet.bytes) [
    | overrun ↦ none
    | invalid ↦ some (s, [])
    | parsed sequence_id table ↦
        let s' = record_timestamp (update_table s table) (record {
          sequence_id = sequence_id;
          timestamp_us = packet.timestamp_us;
          daemon_id = table.daemon_id;
        }) in
        elim (send_timestamps s' packet.src_ip packet.src_port) [
          | none ↦ none
          | some replies ↦ some (s', replies)
        ]
  ]

  -- `process` over the packets that wait in the queue.
  unfoldable pub process : Server → List Packet → Option (Server × List Reply)
  process s [] = some (s, [])
  process s (packet ∷ packets) = elim (process_packet s packet) [
    | none ↦ none
    | some (s', replies) ↦ elim (process s' packets) [
      | none ↦ none
      | some (s'', more) ↦ some (s'', replies ++ more)
    ]
  ]
