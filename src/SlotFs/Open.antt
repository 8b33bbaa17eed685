-- ===== src/SlotFs/Open.antt =====
-- lib_slotfs/slotfs.cpp: whether a file exists, opening and closing.
use sensor_libs.Prelude.{
  ℕ, ◌+◌, ◌*◌, ◌%◌, Bool, true, false, not, none, some, get_or, set, ltb, ◌==◌, if◌then◌else◌,
}
use sensor_libs.SlotFs.State.{
  block_size, Mode, write_create, read, unknown, Result, success, error_assert,
  error_file_not_found, Outcome, ok, err, MetaDataBlock, zero_md, new_page, File, zero_file,
  BlockDevice, SlotFs,
}
use sensor_libs.SlotFs.Meta.{
  read_meta_data_block, write_meta_data_block, most_recent_meta_data_block, init_meta_data_block,
}
use sensor_libs.SlotFs.Io.{is_ok, value_or, mode_is_write, sfs_file_flush}

unfoldable pub sfs_file_opened : File → Bool
sfs_file_opened file = elim file.block_page [ none ↦ false | some _ ↦ true ]

module _ {Store : Type 0} (dev : BlockDevice Store) where
  -- The more recent of the two metadata blocks of a slot. A block that could not be read is not
  -- looked at, so what stands in its place does not matter.
  unfoldable pub recent_md : SlotFs Store → ℕ → Outcome MetaDataBlock
  unfolding is_ok value_or
  recent_md fs slot =
      let a = read_meta_data_block dev fs slot 0 in
      let b = read_meta_data_block dev fs slot 1 in
      elim (most_recent_meta_data_block (value_or zero_md a) (is_ok a) (value_or zero_md b)
        (is_ok b)) [
          | err e ↦ err e
          | ok idx ↦ ok (if idx == 0 then value_or zero_md a else value_or zero_md b)
        ]

  unfoldable pub sfs_file_exists : SlotFs Store → ℕ → Bool
  unfolding recent_md
  sfs_file_exists fs slot = elim (recent_md fs slot) [
    | err e ↦ false
    | ok md ↦ not (md.revision == 0)
  ]

  -- The last lines of `sfs_file_open`: a page of four blocks, and the slot's counter goes up.
  unfoldable pub attach : SlotFs Store → ℕ → Mode → File → Result × SlotFs Store × File
  attach fs slot mode file = (
    success,
    record fs {
      lock_counters = set fs.lock_counters slot ((get_or fs.lock_counters slot 0 + 1) % 256);
    },
    record file {
      slot = slot;
      mode = mode;
      file_cursor = 0;
      block_page = some (new_page (block_size * 4));
    },
  )

  unfoldable pub open_read : SlotFs Store → ℕ → Result × SlotFs Store × File
  unfolding recent_md attach
  open_read fs slot = elim (recent_md fs slot) [
    | err e ↦ (e, fs, zero_file)
    | ok md ↦
        if md.revision == 0
        then (error_file_not_found, fs, record zero_file { md = md })
        else attach fs slot read (record zero_file { md = md })
  ]

  -- A new file starts with revision 1, in both blocks.
  unfoldable pub open_write : SlotFs Store → ℕ → Result × SlotFs Store × File
  unfolding attach
  open_write fs slot = elim (init_meta_data_block fs.config slot) [
    | err e ↦ (e, fs, zero_file)
    | ok md ↦
        let file : File = record zero_file { md = record md { revision = 1 } } in
        let (rc, fs1) = write_meta_data_block dev fs slot file.md 0 in
        elim rc [
          | success ↦
              let (rc', fs2) = write_meta_data_block dev fs1 slot file.md 1 in
              elim rc' [ success ↦ attach fs2 slot write_create file | e ↦ (e, fs2, file) ]
          | e ↦ (e, fs1, file)
        ]
  ]

  unfoldable pub sfs_file_open : SlotFs Store → ℕ → Mode → File → Result × SlotFs Store × File
  unfolding sfs_file_opened open_read open_write
  sfs_file_open fs slot mode file =
      if sfs_file_opened file
      then (error_assert, fs, file)
      else (if ltb fs.config.slot_count slot then (error_file_not_found, fs, file) else elim mode [
        | read ↦ open_read fs slot
        | write_create ↦
            if get_or fs.lock_counters slot 0 == 0
            then open_write fs slot
            else (error_assert, fs, zero_file)
        | unknown ↦ (error_assert, fs, zero_file)
      ])

  -- The last lines of `sfs_file_close`.
  unfoldable pub detach : SlotFs Store → File → Result × SlotFs Store × File
  detach fs file = (
    success,
    record fs {
      lock_counters =
          set fs.lock_counters file.slot ((get_or fs.lock_counters file.slot 0 + 255) % 256);
    },
    zero_file,
  )

  unfoldable pub sfs_file_close : SlotFs Store → File → Result × SlotFs Store × File
  unfolding sfs_file_opened mode_is_write detach
  sfs_file_close fs file =
      if not (sfs_file_opened file)
      then (error_assert, fs, file)
      else (if mode_is_write file.mode
          then (let (rc, fs', file') = sfs_file_flush dev fs file in
              elim rc [ success ↦ detach fs' file' | e ↦ (e, fs', file') ])
          else detach fs file)
