-- ===== src/SlotFs/Stored/Files.antt =====
-- lib_slotfs/slotfs.cpp: a file from `sfs_file_open` for writing over its writes to a flush.
use sensor_libs.Prelude.{
  ℕ, ◌≡◌, Option, none, some, List, [], ◌∷◌, ◌++◌, length, ◌==◌, if◌then◌else◌,
}
use sensor_libs.SlotFs.State.{
  write_create, Result, success, BlockPage, File, BlockDevice, SlotFs, KeepsBytes, zero_file,
}
use sensor_libs.SlotFs.Io.{sfs_file_write, sfs_file_flush}
use sensor_libs.SlotFs.Open.{sfs_file_open}
use sensor_libs.SlotFs.Stored.{Place, Stored}

-- The bytes of all parts, one behind the other.
unfoldable pub joined : List (List ℕ) → List ℕ
joined [] = []
joined (part ∷ rest) = part ++ joined rest

module _ {Store : Type 0} (dev : BlockDevice Store) (k : KeepsBytes dev) where
  -- One call of `sfs_file_write` for each part, while they succeed with all bytes of their part.
  unfoldable pub write_parts : SlotFs Store → File → List (List ℕ) → Option (SlotFs Store × File)
  write_parts fs file [] = some (fs, file)
  write_parts fs file (part ∷ rest) = elim (sfs_file_write dev fs file part) [
    | none ↦ none
    | some w ↦ elim w.code [
      | success ↦ if w.bytes_written == length part then write_parts w.fs w.file rest else none
      | _ ↦ none
    ]
  ]

  -- What the writes of all parts leave.
  pub record WroteParts (p : Place) (content : List ℕ) (o : Option (SlotFs Store × File))
      : Type 0 where
    pub after : SlotFs Store × File
    pub page : BlockPage
    pub returns : o ≡ some after
    pub stored : Stored dev k p after.0 after.1 page content

  -- What is done with the result of the open.
  write_opened :
      List (List ℕ) → Result × SlotFs Store × File → Option (Result × SlotFs Store × File)
  unfolding write_parts
  write_opened parts (rc, fs, file) = elim rc [
    | success ↦ elim (write_parts fs file parts) [
      | none ↦ none
      | some after ↦ some (sfs_file_flush dev after.0 after.1)
    ]
    | _ ↦ none
  ]

  -- A new file: opened for writing, written part by part, flushed.
  unfoldable pub write_file :
      SlotFs Store → ℕ → List (List ℕ) → Option (Result × SlotFs Store × File)
  unfolding write_opened
  write_file fs slot parts = write_opened parts (sfs_file_open dev fs slot write_create zero_file)
