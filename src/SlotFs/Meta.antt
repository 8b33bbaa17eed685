-- ===== src/SlotFs/Meta.antt =====
-- lib_slotfs/slotfs.cpp: the metadata blocks, two to a slot, and the format of the device.
use sensor_libs.Prelude.{
  ℕ, zero, suc, ◌+◌, ◌-◌, ◌*◌, ◌/◌, ◌%◌, ◌^◌, Bool, true, false, none, some, List, ◌++◌, take,
  slice, blit, replicate, sub64, add64, ltb, ◌==◌, ◌&&◌, not, if◌then◌else◌,
}
use sensor_libs.Prelude.Bytes.{le, from_le}
use sensor_libs.Crc32.{crc32}
use sensor_libs.SlotFs.State.{
  block_size, Config, config_eq, Result, success, error_read, error_write, error_corrupt_data,
  error_assert, aborted, Outcome, ok, err, MetaDataBlock, BlockDevice, SlotFs, max_slots,
}

-- The CRC of all but the last four bytes goes into the last four.
unfoldable pub add_block_crc : List ℕ → ℕ → List ℕ
add_block_crc block_buffer size =
    blit block_buffer (size - 4) (le 4 (crc32 (take (size - 4) block_buffer)))

unfoldable pub check_block_crc : List ℕ → ℕ → Bool
check_block_crc block_buffer size =
    from_le (slice block_buffer (size - 4) 4) == crc32 (take (size - 4) block_buffer)

-- `Config` in memory: three words of 64 bits.
unfoldable pub encode_config : Config → List ℕ
encode_config c = le 8 c.slot_count ++ le 8 c.start_address ++ le 8 c.end_address

unfoldable pub decode_config : List ℕ → Config
decode_config bytes = record {
  slot_count = from_le (slice bytes 0 8);
  start_address = from_le (slice bytes 8 8);
  end_address = from_le (slice bytes 16 8);
}

-- `MetaDataBlock` in memory: three words of 64 bits, a byte, and seven bytes of padding.
unfoldable pub encode_md : MetaDataBlock → List ℕ
encode_md md =
    le 8 md.start_address
    ++ (le 8 md.max_address ++ (le 8 md.file_size ++ (le 1 md.revision ++ replicate 7 0)))

unfoldable pub decode_md : List ℕ → MetaDataBlock
decode_md bytes = record {
  start_address = from_le (slice bytes 0 8);
  max_address = from_le (slice bytes 8 8);
  file_size = from_le (slice bytes 16 8);
  revision = from_le (slice bytes 24 1);
}

-- The block that `write_meta_data_block` writes.
unfoldable pub md_block : MetaDataBlock → List ℕ
md_block md = add_block_crc (blit (replicate block_size 0) 0 (encode_md md)) block_size

unfoldable pub meta_block_address : Config → ℕ → ℕ → ℕ
meta_block_address c slot idx = add64 c.start_address (block_size * (slot * 2 + 1 + idx))

-- Which of the two blocks is the more recent.
unfoldable pub most_recent_meta_data_block : MetaDataBlock → Bool → MetaDataBlock → Bool → Outcome ℕ
most_recent_meta_data_block md_a valid_a md_b valid_b =
    if valid_a && valid_b
    then (if ltb 1 ((md_a.revision - md_b.revision) + (md_b.revision - md_a.revision))
        then ok (if ltb md_a.revision md_b.revision then 0 else 1)
        else ok (if ltb md_a.revision md_b.revision then 1 else 0))
    else (if not valid_a && not valid_b
        then err error_corrupt_data
        else ok (if valid_a then 0 else 1))

-- The places of a slot. With no slots the division by `slot_count` stops the program.
unfoldable pub init_meta_data_block : Config → ℕ → Outcome MetaDataBlock
init_meta_data_block c slot =
    let total = sub64 c.end_address c.start_address in
    let header = block_size * (1 + c.slot_count * 2) in
    let size = sub64 total (header % 2 ^ 64) / c.slot_count / block_size * block_size in
    let slot_start = (c.start_address + header + size * slot) % 2 ^ 64 in
    if c.slot_count == 0
    then err aborted
    else ok (record {
      start_address = slot_start;
      max_address = add64 slot_start size;
      file_size = 0;
      revision = 0;
    })

-- The filesystem and a device of the kind `Store`.
module _ {Store : Type 0} (dev : BlockDevice Store) where
  -- A write to the device, with the code that the callers return when it fails.
  unfoldable pub device_write : SlotFs Store → ℕ → List ℕ → Result × SlotFs Store
  device_write fs address bytes =
      let (done, store') = dev.write fs.store address bytes in
      (if done then success else error_write, record fs { store = store' })

  unfoldable pub write_meta_data_block :
      SlotFs Store → ℕ → MetaDataBlock → ℕ → Result × SlotFs Store
  unfolding device_write
  write_meta_data_block fs slot md idx =
      if ltb 2 idx
      then (error_assert, fs)
      else device_write fs (meta_block_address fs.config slot idx) (md_block md)

  -- `none` of the device is a read error.
  unfoldable pub read_meta_data_block : SlotFs Store → ℕ → ℕ → Outcome MetaDataBlock
  read_meta_data_block fs slot idx =
      elim (dev.read fs.store (meta_block_address fs.config slot idx) block_size) [
        | none ↦ err error_read
        | some buffer ↦
            if check_block_crc buffer block_size
            then ok (decode_md buffer)
            else err error_corrupt_data
      ]

  -- The body of the loop over the slots; the codes of the two writes are dropped.
  unfoldable pub format_slot : SlotFs Store → ℕ → SlotFs Store
  format_slot fs s = elim (init_meta_data_block fs.config s) [
    | ok md ↦ (write_meta_data_block (write_meta_data_block fs s md 0).1 s md 1).1
    | err e ↦ fs
  ]

  -- The slots from `s` on, `rounds` of them.
  unfoldable pub format_slots : ℕ → ℕ → SlotFs Store → SlotFs Store
  unfolding format_slot
  format_slots zero s fs = fs
  format_slots (suc rounds) s fs = format_slots rounds (s + 1) (format_slot fs s)

  unfoldable pub sfs_format : SlotFs Store → Result × SlotFs Store
  unfolding format_slots
  sfs_format fs =
      let (rc, fs') =
        device_write fs fs.config.start_address
          (blit (replicate block_size 0) 0 (encode_config fs.config)) in
      elim rc [ success ↦ (success, format_slots fs.config.slot_count 0 fs') | e ↦ (e, fs') ]

  unfoldable pub sfs_init : Store → Config → Result × SlotFs Store
  unfolding sfs_format
  sfs_init store config =
      let fs : SlotFs Store = record {
        store = store;
        attached = true;
        config = config;
        lock_counters = replicate max_slots 0;
      } in
      elim (dev.read store config.start_address block_size) [
        | none ↦ (error_read, fs)
        | some buffer ↦
            if config_eq (decode_config buffer) config then (success, fs) else sfs_format fs
      ]

  unfoldable pub sfs_deinit : SlotFs Store → Result × SlotFs Store
  sfs_deinit fs = (
    success,
    record fs {
      attached = false;
      config = record { slot_count = 0; start_address = 0; end_address = 0 };
    },
  )
