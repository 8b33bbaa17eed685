-- ===== src/SlotFs/Revision.antt =====
-- lib_slotfs/slotfs.cpp: which metadata block counts, by revisions that wrap at 256.
use sensor_libs.Prelude.{ℕ, ◌+◌, ◌%◌, ◌<◌, ◌≡◌, true, false, arith, ◌==◌, not}
use sensor_libs.SlotFs.State.{
  error_corrupt_data, error_file_not_found, ok, err, MetaDataBlock, BlockDevice, SlotFs,
}
use sensor_libs.SlotFs.Meta.{most_recent_meta_data_block, read_meta_data_block}
use sensor_libs.SlotFs.Open.{recent_md, sfs_file_exists, open_read}

-- Of two valid blocks of which one was written after the other, with the next revision modulo 256,
-- the later one counts, whichever of the two places it is in. Of a valid and a broken block the
-- valid one counts, and two broken blocks are an error.
pub most_recent_lem :
    (a b : MetaDataBlock)
    → a.revision < 256
    → b.revision ≡ (a.revision + 1) % 256
    → (most_recent_meta_data_block a true b true ≡ ok 1)
      × (most_recent_meta_data_block b true a true ≡ ok 0)
      × (most_recent_meta_data_block a true b false ≡ ok 0)
      × (most_recent_meta_data_block a false b true ≡ ok 1)
      × (most_recent_meta_data_block a false b false ≡ err error_corrupt_data)
unfolding most_recent_meta_data_block
most_recent_lem a b h e = (ground arith, ground arith, ground arith, ground arith, ground arith)

-- Blocks of the same revision, as `sfs_format` and `sfs_file_open` leave them: the first counts.
pub most_recent_same :
    (a b : MetaDataBlock)
    → a.revision ≡ b.revision
    → most_recent_meta_data_block a true b true ≡ ok 0
unfolding most_recent_meta_data_block
most_recent_same a b e = ground arith

module _ {Store : Type 0} (dev : BlockDevice Store) (fs : SlotFs Store) (slot : ℕ)
    (a b : MetaDataBlock) where
  -- What a slot's file is, seen from its two blocks, when both are readable and the second was
  -- written after the first: it exists unless the second has revision 0.
  pub recent_second :
      read_meta_data_block dev fs slot 0 ≡ ok a
      → read_meta_data_block dev fs slot 1 ≡ ok b
      → a.revision < 256
      → b.revision ≡ (a.revision + 1) % 256
      → (recent_md dev fs slot ≡ ok b) × (sfs_file_exists dev fs slot ≡ not (b.revision == 0))
  unfolding recent_md sfs_file_exists
  recent_second ra rb h e =
      (ground (arith, most_recent_lem a b h e), ground (arith, most_recent_lem a b h e))

  -- After 255 flushes of a new file the revision wraps to 0, the revision of a slot without a file:
  -- where the block before has revision 255, the newer block has revision 0, and the file that was
  -- there is no longer found, neither by `sfs_file_exists` nor by opening it.
  pub wrapped_revision :
      read_meta_data_block dev fs slot 0 ≡ ok a
      → read_meta_data_block dev fs slot 1 ≡ ok b
      → a.revision ≡ 255
      → b.revision ≡ (a.revision + 1) % 256
      → (sfs_file_exists dev fs slot ≡ false) × ((open_read dev fs slot).0 ≡ error_file_not_found)
  unfolding open_read
  wrapped_revision ra rb h e =
      let recent : recent_md dev fs slot ≡ ok b = (recent_second ra rb (omega arith) e).0 in
      (ground (arith, recent_second ra rb (omega arith) e), ground (arith, recent))
