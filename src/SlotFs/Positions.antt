-- ===== src/SlotFs/Positions.antt =====
-- lib_slotfs/slotfs.cpp: the position of a file stays in its slot, so that the `assert` on it holds.
use sensor_libs.Prelude.{
  ◌+◌, ◌<◌, ◌≤◌, ◌≡◌, ◌≢◌, refl, some, ◌==◌, arith, true, word64, leb, inl, inr, Bool-cases, add64,
}
use sensor_libs.SlotFs.State.{
  Result, success, aborted, err, BlockPage, available, File, BlockDevice, SlotFs,
}
use sensor_libs.SlotFs.Meta.{device_write}
use sensor_libs.SlotFs.Io.{
  flush_meta, flush_page, sfs_file_flush, commit_page, write_page, page_block_address, load_page,
}

-- The position of a file lies in its slot, whose addresses are words.
pub record IsInside (file : File) : Type 0 where
  pub inside : file.md.start_address + file.file_cursor ≤ file.md.max_address
  pub words : file.md.max_address < word64

-- A flush keeps the slot and the position.
pub record KeepsPosition (file file' : File) : Type 0 where
  pub start : file'.md.start_address ≡ file.md.start_address
  pub max : file'.md.max_address ≡ file.md.max_address
  pub cursor : file'.file_cursor ≡ file.file_cursor

module _ {Store : Type 0} (dev : BlockDevice Store) where
  -- The `assert` on the position holds.
  write_page-ends :
      (fs : SlotFs Store) (file : File) (p : BlockPage)
      → IsInside file
      → (write_page dev fs file p).0 ≢ aborted
  unfolding write_page page_block_address device_write
  write_page-ends fs file p i z =
      let inside : leb (add64 file.md.start_address file.file_cursor) file.md.max_address ≡ true =
        ground (arith, i) in
      ground (arith, inside, z)

  flush_meta-position :
      (fs : SlotFs Store) (file : File) → KeepsPosition file (flush_meta dev fs file).2
  unfolding flush_meta
  flush_meta-position fs file = record {
    start = ground arith;
    max = ground arith;
    cursor = ground arith;
  }

  flush-position :
      (fs : SlotFs Store) (file : File) → KeepsPosition file (sfs_file_flush dev fs file).2
  unfolding sfs_file_flush flush_page
  flush-position fs file = record {
    start = ground (arith, flush_meta-position fs file);
    max = ground (arith, flush_meta-position fs file);
    cursor = ground (arith, flush_meta-position fs file);
  }

  pub commit_page-position :
      (fs : SlotFs Store) (file : File) (p : BlockPage)
      → IsInside file
      → ((commit_page dev fs file p).0 ≢ aborted)
        × ((commit_page dev fs file p).0 ≡ success
            → KeepsPosition file (commit_page dev fs file p).2)
  unfolding commit_page
  commit_page-position fs file p i = elim (Bool-cases (available p == 0)) [
    | inl e ↦
        let flushed =
          flush-position (write_page dev fs file p).1
            (record file { block_page = some (record p { offset = 0 }) }) in
        (
          λ z. ground (arith, e, z, write_page-ends fs file p i),
          λ z. record {
            start = ground (arith, e, z, flushed);
            max = ground (arith, e, z, flushed);
            cursor = ground (arith, e, z, flushed);
          },
        )
    | inr e ↦ rw (commit_page, e) (λ z. cc, λ z. record { start = refl; max = refl; cursor = refl })
  ]

  pub load_page-ends :
      (fs : SlotFs Store) (file : File) (p : BlockPage) (c : Result)
      → IsInside file
      → load_page dev fs file p ≡ err c
      → c ≢ aborted
  unfolding load_page page_block_address
  load_page-ends fs file p c i e z =
      let inside : leb (add64 file.md.start_address file.file_cursor) file.md.max_address ≡ true =
        ground (arith, i) in
      ground (arith, inside, e, z)
