-- ===== src/Rbs/History.antt =====
-- lib_rbs/rbs_server.cpp: the double buffer of tables, and the history of the last timestamps.
use sensor_libs.Prelude.{
  ℕ, suc, ◌+◌, ◌-◌, ◌*◌, ◌≤◌, ◌≡◌, ◌≢◌, ◌⊎◌, inl, inr, refl, sym, ap, ◌∙◌, true, some, List, [],
  ◌∷◌, ◌++◌, length, length-append, drop, take, replicate, ltb, leb, if◌then◌else◌, arith, blit,
  le→leb, drop-drop, drop-append, drop-index, length-drop, subst, append-nil, append_assoc,
}
use sensor_libs.Rbs.SyncTable.{Timestamp, SyncTable}
use sensor_libs.Rbs.Message.{
  Parsed, invalid, overrun, parsed, read_sync_packet, timestamp_bytes, timestamp_packet,
  write_timestamp_packet,
}
use sensor_libs.Rbs.Server.{
  Packet, Reply, Server, table_at, active_table, flip_sync_tables, update_table, trim_history,
  record_timestamp, send_timestamps, process_packet, process, msg_size,
}

-- A flip makes the new table the active one, and leaves the table that was active until then as it
-- was: whoever still holds the old pointer reads the old table.
pub flip_keeps_old :
    (s : Server) (table : SyncTable)
    → let s' = flip_sync_tables s table in
      (active_table s' ≡ table)
      × (table_at s' s.active ≡ active_table s)
      × (s'.active ≢ s.active)
      × (s'.history ≡ s.history)
unfolding flip_sync_tables
flip_keeps_old s table = (ground arith, ground arith, (λ e. ground arith), ground arith)

length-trim : (h : List Timestamp) → length (trim_history h) ≤ 2
unfolding trim_history
length-trim [] = omega arith
length-trim (a ∷ []) = omega arith
length-trim (a ∷ b ∷ []) = omega arith
length-trim (a ∷ b ∷ c ∷ rest) = length-trim (b ∷ c ∷ rest)

length-timestamp_bytes : (h : List Timestamp) → length (timestamp_bytes h) ≡ 16 * length h
unfolding timestamp_bytes
length-timestamp_bytes [] = refl
length-timestamp_bytes (ts ∷ h) = omega (arith, length-timestamp_bytes h)

length-timestamp_packet :
    (a b : ℕ) (h : List Timestamp) → length (timestamp_packet a b h) ≡ 8 + 16 * length h
unfolding timestamp_packet
length-timestamp_packet a b h = omega (arith, length-timestamp_bytes h)

trim_lem : (h : List Timestamp) → trim_history h ≡ drop (length h - 2) h
unfolding trim_history
trim_lem [] = refl
trim_lem (a ∷ []) = drop-index (a ∷ []) 0 (1 - 2) (omega arith)
trim_lem (a ∷ b ∷ []) = drop-index (a ∷ b ∷ []) 0 (2 - 2) (omega arith)
trim_lem (a ∷ b ∷ c ∷ rest) =
    trim_lem (b ∷ c ∷ rest)
    ∙ drop-index (a ∷ b ∷ c ∷ rest) (suc (length (b ∷ c ∷ rest) - 2))
        (length (a ∷ b ∷ c ∷ rest) - 2) (omega arith)

-- The last three of all timestamps so far.
unfoldable pub last_three : List Timestamp → List Timestamp
last_three all = drop (length all - 3) all

remember :
    (all : List Timestamp) (ts : Timestamp)
    → trim_history (last_three all) ++ (ts ∷ []) ≡ last_three (all ++ (ts ∷ []))
unfolding last_three
remember all ts =
    ap (λ xs. xs ++ (ts ∷ []))
      (trim_lem (drop (length all - 3) all)
        ∙ drop-drop (length all - 3) (length (drop (length all - 3) all) - 2) all
        ∙ ap (λ n. drop n all) (omega (arith, length-drop (length all - 3) all)))
    ∙ sym (drop-append (length all - 2) all (ts ∷ []) (omega arith))
    ∙ ap (λ n. drop n (all ++ (ts ∷ []))) (omega (arith, length-append all (ts ∷ [])))

-- Each packet has room for the rows its header counts, at most 32.
pub data Readable : List Packet → Type 0 where
  no_more : Readable []
  and_then :
      {p : Packet} {ps : List Packet}
      → read_sync_packet p.bytes ≢ overrun
      → Readable ps
      → Readable (p ∷ ps)

-- What a packet adds to the history: nothing, if it is not a sync packet.
unfoldable pub stamp : Packet → List Timestamp
stamp packet = elim (read_sync_packet packet.bytes) [
  | parsed sequence_id table ↦
      record {
        sequence_id = sequence_id;
        timestamp_us = packet.timestamp_us;
        daemon_id = table.daemon_id;
      }
      ∷ []
  | _ ↦ []
]

unfoldable pub stamps : List Packet → List Timestamp
stamps [] = []
stamps (p ∷ ps) = stamp p ++ stamps ps

module _ (sensor_id sensor_instance_id : ℕ) where
  write_ok :
      (h : List Timestamp)
      → length h ≤ 3
      → write_timestamp_packet sensor_id sensor_instance_id h (replicate msg_size 0)
        ≡ some (
          length (timestamp_packet sensor_id sensor_instance_id h),
          blit (replicate msg_size 0) 0 (timestamp_packet sensor_id sensor_instance_id h),
        )
  unfolding write_timestamp_packet
  write_ok h l =
      let e : leb (length (timestamp_packet sensor_id sensor_instance_id h))
            (length (replicate {A = ℕ} msg_size 0))
          ≡ true =
        le→leb _ _ (omega (arith, length-timestamp_packet sensor_id sensor_instance_id h)) in
      rw e

  send_ok :
      (s : Server) (ip port : ℕ)
      → length s.history ≤ 3
      → (replies : List Reply) × (send_timestamps sensor_id sensor_instance_id s ip port
          ≡ some replies)
  unfolding send_timestamps
  send_ok s ip port l =
      let bytes = timestamp_packet sensor_id sensor_instance_id s.history in
      (
        if ltb 0 (length bytes)
            then record {
              dst_ip = ip;
              dst_port = port;
              payload = take (length bytes) (blit (replicate msg_size 0) 0 bytes);
            }
              ∷ []
            else [],
        rw (send_timestamps, write_ok s.history l),
      )

  history-update :
      (s : Server) (table : SyncTable)
      → (update_table sensor_id sensor_instance_id s table).history ≡ s.history
  unfolding update_table flip_sync_tables
  history-update s table = ground arith

  history-record :
      (s : Server) (table : SyncTable) (ts : Timestamp)
      → (record_timestamp (update_table sensor_id sensor_instance_id s table) ts).history
        ≡ trim_history s.history ++ (ts ∷ [])
  unfolding record_timestamp
  history-record s table ts = ap (λ h. trim_history h ++ (ts ∷ [])) (history-update s table)

  few_stamps : (h : List Timestamp) (ts : Timestamp) → length (trim_history h ++ (ts ∷ [])) ≤ 3
  few_stamps h ts = omega (arith, length-append (trim_history h) (ts ∷ []), length-trim h)

  -- What one packet does, whatever the history was.
  packet_step :
      (s : Server) (packet : Packet)
      → read_sync_packet packet.bytes ≢ overrun
      → (s' : Server) × (replies : List Reply) × (process_packet sensor_id sensor_instance_id s
            packet
          ≡ some (s', replies))
        × (((stamp packet ≡ []) × (s'.history ≡ s.history))
            ⊎ ((ts : Timestamp) × (stamp packet ≡ ts ∷ [])
                × (s'.history ≡ trim_history s.history ++ (ts ∷ []))))
  unfolding process_packet stamp
  packet_step s packet h = by_parse (read_sync_packet packet.bytes) refl
    where
      by_parse :
          (p : Parsed)
          → read_sync_packet packet.bytes ≡ p
          → (s' : Server) × (replies : List Reply) × (process_packet sensor_id sensor_instance_id s
                packet
              ≡ some (s', replies))
            × (((stamp packet ≡ []) × (s'.history ≡ s.history))
                ⊎ ((ts : Timestamp) × (stamp packet ≡ ts ∷ [])
                    × (s'.history ≡ trim_history s.history ++ (ts ∷ []))))
      by_parse invalid e = (s, [], rw (process_packet, e), inl (rw (stamp, e), refl))
      by_parse overrun e = absurd (h e)
      by_parse (parsed sequence_id table) e =
          let ts : Timestamp = record {
            sequence_id = sequence_id;
            timestamp_us = packet.timestamp_us;
            daemon_id = table.daemon_id;
          } in
          let s' = record_timestamp (update_table sensor_id sensor_instance_id s table) ts in
          let kept = history-record s table ts in
          let few : length s'.history ≤ 3 =
            subst (λ h. length h ≤ 3) (sym kept) (few_stamps s.history ts) in
          let (replies, sent) = send_ok s' packet.src_ip packet.src_port few in
          (s', replies, rw (process_packet, e, sent), inr (ts, rw (stamp, e), kept))

  -- If the history of a server is the last three of `all`, and `read_sync_packet` reads each of the
  -- packets that wait within its bounds, then `process` takes them all without an access outside a
  -- buffer, and the history afterwards is the last three of `all` and the timestamps of the sync
  -- packets among them.
  pub process_history :
      (s : Server) (packets : List Packet) (all : List Timestamp)
      → s.history ≡ last_three all
      → Readable packets
      → (s' : Server) × (replies : List Reply) × (process sensor_id sensor_instance_id s packets
          ≡ some (s', replies))
        × (s'.history ≡ last_three (all ++ stamps packets))
  unfolding process stamps
  process_history s [] all h no_more = (s, [], refl, h ∙ ap last_three (sym (append-nil all)))
  process_history s (p ∷ ps) all h (and_then r rs) =
      let (s1, replies, e, step) = packet_step s p r in
      let kept : s1.history ≡ last_three (all ++ stamp p) = elim step [
        | inl (none_new, same) ↦
            same ∙ h ∙ ap last_three (sym (append-nil all) ∙ ap (λ xs. all ++ xs) (sym none_new))
        | inr (ts, new, now) ↦
            now
            ∙ ap (λ xs. trim_history xs ++ (ts ∷ [])) h
            ∙ remember all ts
            ∙ ap (λ xs. last_three (all ++ xs)) (sym new)
      ] in
      let (s2, more, e', kept') = process_history s1 ps (all ++ stamp p) kept rs in
      (
        s2,
        replies ++ more,
        rw (process, e, e'),
        kept' ∙ ap last_three (append_assoc all (stamp p) (stamps ps)),
      )
