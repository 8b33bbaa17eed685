-- ===== src/SlotFs/Reading/Files.antt =====
-- lib_slotfs/slotfs.cpp: reading a file that was written and flushed.
use sensor_libs.Prelude.{ℕ, ◌≡◌, List, []}
use sensor_libs.SlotFs.State.{success, Result, File, BlockDevice, SlotFs, KeepsBytes}
use sensor_libs.SlotFs.Io.{sfs_file_read}
use sensor_libs.SlotFs.Stored.{Place}
use sensor_libs.SlotFs.Reading.{Reading}
use sensor_libs.SlotFs.Reading.Loop.{ReadsOn}

module _ {Store : Type 0} (dev : BlockDevice Store) (k : KeepsBytes dev) where
  -- What is read of the file that is opened.
  pub record ReadsBack (p : Place) (content : List ℕ) (n : ℕ) (r : Result × SlotFs Store × File)
      : Type 0 where
    pub opens : r.0 ≡ success
    pub reads : ReadsOn dev k p content r.1 0 n [] (sfs_file_read dev r.1 r.2 n)
