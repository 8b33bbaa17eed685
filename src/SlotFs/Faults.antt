-- ===== src/SlotFs/Faults.antt =====
-- lib_slotfs/slotfs.cpp: what goes wrong at the edges of a slot and when the device fails.
use sensor_libs.Prelude.{
  ℕ, ◌+◌, ◌-◌, ◌*◌, ◌/◌, ◌<◌, ◌≤◌, ◌≡◌, ap, ◌∙◌, true, false, some, List, get_or, arith, word64,
  add64,
}
use sensor_libs.SlotFs.State.{
  write_create, success, error_write, ok, MetaDataBlock, BlockPage, capacity, File, BlockDevice,
  SlotFs, KeepsBytes,
}
use sensor_libs.SlotFs.Meta.{
  read_meta_data_block, most_recent_meta_data_block, write_meta_data_block, meta_block_address,
  md_block,
}
use sensor_libs.SlotFs.Io.{page_block_address, write_page, flush_meta, sfs_file_flush}
use sensor_libs.SlotFs.Open.{sfs_file_close}

module _ {Store : Type 0} (dev : BlockDevice Store) (fs : SlotFs Store) (file : File)
    (page : BlockPage) where
  flush_meta_success :
      (md : MetaDataBlock)
      → read_meta_data_block dev fs file.slot 0 ≡ ok md
      → (flush_meta dev fs file).0 ≡ success
  unfolding flush_meta most_recent_meta_data_block
  flush_meta_success md readable = ground arith

  -- A file that is open for writing, with nothing in its page, and whose first metadata block can be
  -- read: where every write to the device fails, `sfs_file_flush` and `sfs_file_close` return
  -- `Result_Success` all the same, although `write_meta_data_block` fails.
  failed_flush_succeeds :
      (md : MetaDataBlock)
      → ((address : ℕ) (bytes : List ℕ) → (dev.write fs.store address bytes).0 ≡ false)
      → file.block_page ≡ some page
      → file.mode ≡ write_create
      → page.offset ≡ 0
      → read_meta_data_block dev fs file.slot 0 ≡ ok md
      → ((sfs_file_flush dev fs file).0 ≡ success)
        × ((sfs_file_close dev fs file).0 ≡ success)
        × ((write_meta_data_block dev fs file.slot md 0).0 ≡ error_write)
  unfolding sfs_file_close sfs_file_flush write_meta_data_block
  failed_flush_succeeds md fails opened writes empty readable = (
    ground (arith, flush_meta_success md readable),
    ground (arith, flush_meta_success md readable),
    ground (arith, fails (meta_block_address fs.config file.slot 0) (md_block md)),
  )

  abbrev page_base : ℕ
  page_base = file.md.start_address + file.file_cursor / capacity page * capacity page

  write_page_lem :
      (fs' : SlotFs Store)
      → file.md.max_address < word64
      → file.md.start_address + file.file_cursor ≤ file.md.max_address
      → write_page dev fs file page ≡ (success, fs')
      → dev.write fs.store page_base page.bytes ≡ (true, fs'.store)
  unfolding write_page page_block_address
  write_page_lem fs' small inside done =
      let down : file.file_cursor / capacity page * capacity page ≤ file.file_cursor =
        omega arith in
      let base : add64 file.md.start_address (file.file_cursor / capacity page * capacity page)
          ≡ page_base =
        omega arith in
      let sum : add64 file.md.start_address file.file_cursor
          ≡ file.md.start_address + file.file_cursor =
        omega arith in
      ground (arith, base, sum)

  -- On a device that keeps its bytes, the page of a position in a slot goes to the device whole. Where
  -- less than a page is left of the slot from the page's address on, a `write_page` that returns
  -- success, in `sfs_file_write` or `sfs_file_flush`, also replaces every byte from the end of the
  -- slot, where the next one starts, up to the end of the page.
  pub page_overruns_slot :
      (k : KeepsBytes dev) (fs' : SlotFs Store) (address : ℕ)
      → file.md.max_address < word64
      → file.md.start_address + file.file_cursor ≤ file.md.max_address
      → write_page dev fs file page ≡ (success, fs')
      → 0 < capacity page
      → file.md.max_address ≤ address
      → address
        < file.md.start_address + file.file_cursor / capacity page * capacity page + capacity page
      → k.byte_at fs'.store address
        ≡ get_or page.bytes
            (address - (file.md.start_address + file.file_cursor / capacity page * capacity page))
            0
  page_overruns_slot k fs' address small inside done room past before =
      let down : file.file_cursor / capacity page * capacity page ≤ file.file_cursor =
        omega arith in
      ap (k.byte_at fs'.store) place
      ∙ k.write_inside fs.store fs'.store page_base page.bytes (address - page_base)
          (write_page_lem fs' small inside done) (omega arith)
    where
      place : address ≡ page_base + (address - page_base)
      place =
          let down : file.file_cursor / capacity page * capacity page ≤ file.file_cursor =
            omega arith in
          omega arith
