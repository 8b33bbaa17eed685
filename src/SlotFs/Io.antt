-- ===== src/SlotFs/Io.antt =====
-- lib_slotfs/slotfs.cpp: seek, allocate, flush, write and read of an open file.
use sensor_libs.Prelude.{
  ℕ, zero, suc, ◌+◌, ◌-◌, ◌*◌, ◌/◌, ◌%◌, Bool, true, false, Option, none, some, List, [], ◌∷◌, ◌++◌,
  length, take, drop, slice, blit, sub64, add64, ltb, leb, ◌==◌, ◌||◌, if◌then◌else◌, min,
}
use sensor_libs.SlotFs.State.{
  Mode, write_create, read, Result, success, success_eof, error_read, error_write, error_assert,
  aborted, Outcome, ok, err, MetaDataBlock, BlockPage, capacity, page_size, available, clear_page,
  File, BlockDevice, SlotFs,
}
use sensor_libs.SlotFs.Meta.{
  device_write, read_meta_data_block, write_meta_data_block, most_recent_meta_data_block,
}

unfoldable pub mode_is_write : Mode → Bool
mode_is_write write_create = true
mode_is_write _ = false

unfoldable pub mode_is_read : Mode → Bool
mode_is_read read = true
mode_is_read _ = false

unfoldable pub is_ok {ℓ} : {A : Type ℓ} → Outcome A → Bool
is_ok (ok a) = true
is_ok (err e) = false

unfoldable pub value_or {ℓ} : {A : Type ℓ} → A → Outcome A → A
value_or d (ok a) = a
value_or d (err e) = d

-- The block address of the page and the offset in it; an `assert` guards the position.
unfoldable pub page_block_address : File → BlockPage → Outcome (ℕ × ℕ)
page_block_address file page =
    if leb (add64 file.md.start_address file.file_cursor) file.md.max_address
    then ok (
      add64 file.md.start_address (file.file_cursor / capacity page * capacity page),
      file.file_cursor % capacity page,
    )
    else err aborted

-- `sfs_file_seek`: in a file that is open for reading, to a position before its end.
unfoldable pub sfs_file_seek : File → ℕ → Result × File
unfolding mode_is_write clear_page
sfs_file_seek file offset = elim file.block_page [
  | none ↦ (error_assert, file)
  | some page ↦
      if mode_is_write file.mode || leb file.md.file_size offset
      then (error_assert, file)
      else (success, record file { file_cursor = offset; block_page = some (clear_page page) })
]

unfoldable pub sfs_file_size : File → Outcome ℕ
sfs_file_size file = elim file.block_page [
  | none ↦ err error_assert
  | some page ↦ ok file.md.file_size
]

module _ {Store : Type 0} (dev : BlockDevice Store) where
  -- The page goes to the device as a whole.
  unfoldable pub write_page : SlotFs Store → File → BlockPage → Result × SlotFs Store
  unfolding page_block_address device_write
  write_page fs file page = elim (page_block_address file page) [
    | err e ↦ (e, fs)
    | ok (address, _) ↦ device_write dev fs address page.bytes
  ]

  -- The second half of `sfs_file_flush`: the size and the next revision go to the older metadata
  -- block. The code of that write is dropped.
  unfoldable pub flush_meta : SlotFs Store → File → Result × SlotFs Store × File
  unfolding is_ok value_or
  flush_meta fs file =
      let md' : MetaDataBlock = record file.md {
        file_size = file.file_cursor;
        revision = (file.md.revision + 1) % 256;
      } in
      let file' : File = record file { md = md' } in
      let a = read_meta_data_block dev fs file.slot 0 in
      let b = read_meta_data_block dev fs file.slot 1 in
      elim (most_recent_meta_data_block (value_or md' a) (is_ok a) (value_or md' b) (is_ok b)) [
        | err e ↦ (e, fs, file')
        | ok idx ↦ (success, (write_meta_data_block dev fs file.slot md' ((idx + 1) % 2)).1, file')
      ]

  unfoldable pub flush_page : SlotFs Store → File → BlockPage → Result × SlotFs Store × File
  unfolding write_page flush_meta page_size
  flush_page fs file page =
      if ltb 0 (page_size page)
      then (let (rc, fs') = write_page fs file page in
          elim rc [ success ↦ flush_meta fs' file | e ↦ (e, fs', file) ])
      else flush_meta fs file

  unfoldable pub sfs_file_flush : SlotFs Store → File → Result × SlotFs Store × File
  unfolding mode_is_write flush_page
  sfs_file_flush fs file = elim file.block_page [
    | none ↦ (error_assert, fs, file)
    | some page ↦
        if mode_is_write file.mode then flush_page fs file page else (error_assert, fs, file)
  ]

  -- `sfs_file_allocate`: moves the cursor and flushes; the size is not compared with the slot's.
  unfoldable pub sfs_file_allocate : SlotFs Store → File → ℕ → Result × SlotFs Store × File
  unfolding mode_is_write clear_page sfs_file_flush
  sfs_file_allocate fs file size = elim file.block_page [
    | none ↦ (error_assert, fs, file)
    | some page ↦
        if mode_is_write file.mode
        then sfs_file_flush fs
            (record file { file_cursor = size; block_page = some (clear_page page) })
        else (error_assert, fs, file)
  ]

  -- What a write leaves: its code, the states, and `*bytes_written`.
  pub record Written : Type 0 where
    pub code : Result
    pub fs : SlotFs Store
    pub file : File
    pub bytes_written : ℕ

  -- A page that is full goes to the device, and the metadata are flushed, before the cursor moves on.
  -- The page that goes on is cleared; the code of the flush is dropped.
  unfoldable pub commit_page : SlotFs Store → File → BlockPage → Result × SlotFs Store × File
  unfolding clear_page available
  commit_page fs file page =
      if available page == 0
      then (let (rc, fs') = write_page fs file page in
          elim rc [
            | success ↦
                let (_, fs'', file') =
                  sfs_file_flush fs' (record file { block_page = some (clear_page page) }) in
                (success, fs'', file')
            | e ↦ (e, fs', record file { block_page = some page })
          ])
      else (success, fs, record file { block_page = some page })

  -- The end of a round: an error of the page ends the loop, else the cursor moves on by `n` bytes and
  -- the loop goes on.
  unfoldable pub end_round :
      (SlotFs Store → File → BlockPage → Option Written)
      → Result × SlotFs Store × File
      → ℕ
      → ℕ
      → Option Written
  end_round go_on (rc, fs, file) n written = elim rc [
    | success ↦ elim file.block_page [
      | none ↦ none
      | some page ↦ go_on fs (record file { file_cursor = add64 file.file_cursor n }) page
    ]
    | e ↦ some (record { code = e; fs = fs; file = file; bytes_written = written })
  ]

  -- The loop of `sfs_file_write`. A round takes at least one byte, or empties a full page, so that
  -- `length bytes + 1` rounds are enough.
  unfoldable pub write_loop : ℕ → SlotFs Store → File → BlockPage → List ℕ → ℕ → Option Written
  write_loop fuel fs file page [] written =
      some (record { code = success; fs = fs; file = file; bytes_written = written })
  write_loop zero fs file page (x ∷ xs) written = none
  write_loop (suc fuel) fs file page (x ∷ xs) written =
      let bytes = x ∷ xs in
      let space = sub64 (sub64 file.md.max_address file.md.start_address) file.file_cursor in
      let n = min (length bytes) (available page) in
      let page' : BlockPage = record page {
        bytes = blit page.bytes page.offset (take n bytes);
        offset = page.offset + n;
      } in
      let rest =
        end_round
          (λ fs' file' page''. write_loop fuel fs' file' page'' (drop n bytes) (written + n))
          (commit_page fs file page') n written in
      if ltb space (length bytes)
      then some (record { code = error_write; fs = fs; file = file; bytes_written = written })
      else rest

  -- `sfs_file_write`; `none` would mean that the rounds ran out. The mode is not looked at.
  unfoldable pub sfs_file_write : SlotFs Store → File → List ℕ → Option Written
  sfs_file_write fs file bytes = elim file.block_page [
    | none ↦ some (record { code = error_assert; fs = fs; file = file; bytes_written = 0 })
    | some page ↦ write_loop (length bytes + 1) fs file page bytes 0
  ]

  -- What a read leaves: its code, the file, and the bytes that it copied out.
  pub record Fetched : Type 0 where
    pub code : Result
    pub file : File
    pub bytes_read : List ℕ

  -- The page for the next byte: the one at hand, or one read from the device, at the cursor's offset.
  unfoldable pub load_page : SlotFs Store → File → BlockPage → Outcome BlockPage
  unfolding page_block_address available page_size
  load_page fs file page =
      if available page == 0 || page_size page == 0
      then elim (page_block_address file page) [
        | err e ↦ err e
        | ok (address, offset) ↦ elim (dev.read fs.store address (capacity page)) [
          | none ↦ err error_read
          | some bytes ↦ ok (record { bytes = blit page.bytes 0 bytes; offset = offset })
        ]
      ]
      else ok page

  -- The loop of `sfs_file_read` for the `size` bytes that are still asked for. Each round copies at
  -- least one, so `size` rounds are enough.
  unfoldable pub read_loop : ℕ → SlotFs Store → File → BlockPage → ℕ → List ℕ → Option Fetched
  read_loop fuel fs file page zero out =
      some
        (record { code = success; file = record file { block_page = some page }; bytes_read = out })
  read_loop zero fs file page (suc size) out = none
  read_loop (suc fuel) fs file page (suc size) out =
      let file' : File = record file { block_page = some page } in
      let next : Option Fetched = elim (load_page fs file page) [
        | err e ↦ some (record { code = e; file = file'; bytes_read = out })
        | ok loaded ↦
            let remaining = min (suc size) (sub64 file.md.file_size file.file_cursor) in
            let n = min (sub64 (capacity loaded) (page_size loaded)) remaining in
            read_loop fuel fs (record file { file_cursor = add64 file.file_cursor n })
              (record loaded { offset = loaded.offset + n }) (suc size - n)
              (out ++ slice loaded.bytes loaded.offset n)
      ] in
      if leb file.md.file_size file.file_cursor
      then some (record { code = success_eof; file = file'; bytes_read = out })
      else next

  -- `sfs_file_read`; `none` would mean that the rounds ran out.
  unfoldable pub sfs_file_read : SlotFs Store → File → ℕ → Option Fetched
  unfolding mode_is_read
  sfs_file_read fs file size = elim file.block_page [
    | none ↦ some (record { code = error_assert; file = file; bytes_read = [] })
    | some page ↦
        if mode_is_read file.mode
        then read_loop size fs file page size []
        else some (record { code = error_assert; file = file; bytes_read = [] })
  ]
