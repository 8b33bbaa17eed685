-- ===== src/SlotFs/Tests.antt =====
-- Runs of lib_slotfs on two small devices, and the theorems at them.
use sensor_libs.Prelude.{
  ℕ, zero, suc, ◌+◌, ◌-◌, ◌%◌, ◌<◌, ◌≤◌, ◌≡◌, ◌≢◌, ◌⊎◌, inl, refl, Bool, true, false, some, List,
  [], ◌∷◌, length, get_or, replicate, tabulate, length-tabulate, get_or-tabulate, get_or-index, ap,
  sym, subst, ◌∙◌, ltb, leb, ◌&&◌, ◌==◌, if◌then◌else◌, arith,
}
use sensor_libs.SlotFs.State.{
  aborted, block_size, Config, read, error_file_not_found, error_corrupt_data, ok, err,
  MetaDataBlock, BlockPage, new_page, File, zero_file, BlockDevice, SlotFs, KeepsBytes,
}
use sensor_libs.SlotFs.Meta.{
  md_block, meta_block_address, read_meta_data_block, write_meta_data_block,
  most_recent_meta_data_block, init_meta_data_block,
}
use sensor_libs.SlotFs.Io.{Written, Fetched, write_page, sfs_file_write, sfs_file_read}
use sensor_libs.SlotFs.Open.{sfs_file_exists, open_read}
use sensor_libs.SlotFs.Layout.{IsSound, header, slot_size, slots_disjoint, meta_disjoint}
use sensor_libs.SlotFs.Revision.{most_recent_lem, wrapped_revision}
use sensor_libs.SlotFs.Blocks.{IsMd, decode-md_block, check-md_block, read_meta-write_meta}
use sensor_libs.SlotFs.Loops.{IsPage, write_total, read_total}
use sensor_libs.SlotFs.Faults.{page_overruns_slot}
use sensor_libs.SlotFs.Stored.{Place}
use sensor_libs.SlotFs.Reading.{Reads, Reading}
use sensor_libs.SlotFs.Reading.Loop.{ReadsOn, read-ReadsOn}

-- A device in memory that never fails.
abbrev memory_write : (ℕ → ℕ) → ℕ → List ℕ → ℕ → ℕ
memory_write s address bytes a =
    if leb address a && ltb a (address + length bytes) then get_or bytes (a - address) 0 else s a

abbrev memory : BlockDevice (ℕ → ℕ)
memory = record {
  write = λ s address bytes. (true, memory_write s address bytes);
  read = λ s address size. some (tabulate size (λ i. s (address + i)));
}

memory_read :
    (s : ℕ → ℕ) (address size : ℕ) (bytes : List ℕ)
    → memory.read s address size ≡ some bytes
    → (length bytes ≡ size) × ((i : ℕ) → i < size → get_or bytes i 0 ≡ s (address + i))
memory_read s address size bytes h =
    let e : tabulate size (λ i. s (address + i)) ≡ bytes = cc in
    subst (λ xs. (length xs ≡ size) × ((i : ℕ) → i < size → get_or xs i 0 ≡ s (address + i))) e
      (length-tabulate size _, λ i l. get_or-tabulate size _ i 0 l)

memory_inside :
    (s t : ℕ → ℕ) (address : ℕ) (bytes : List ℕ) (i : ℕ)
    → memory.write s address bytes ≡ (true, t)
    → i < length bytes
    → t (address + i) ≡ get_or bytes i 0
memory_inside s t address bytes i h l =
    let e : memory_write s address bytes ≡ t = ap (λ (p : Bool × (ℕ → ℕ)). p.1) h in
    ap (λ (f : ℕ → ℕ). f (address + i)) (sym e)
    ∙ ground (arith, get_or-index bytes (address + i - address) i 0)

memory_outside :
    (s t : ℕ → ℕ) (address : ℕ) (bytes : List ℕ) (a : ℕ)
    → memory.write s address bytes ≡ (true, t)
    → (a < address) ⊎ (address + length bytes ≤ a)
    → t a ≡ s a
memory_outside s t address bytes a h l =
    let e : memory_write s address bytes ≡ t = ap (λ (p : Bool × (ℕ → ℕ)). p.1) h in
    ap (λ (f : ℕ → ℕ). f a) (sym e) ∙ ground arith

abbrev memory-KeepsBytes : KeepsBytes memory
memory-KeepsBytes = record {
  byte_at = λ s a. s a;
  read_lem = memory_read;
  write_inside = memory_inside;
  write_outside = memory_outside;
}

-- The configuration of the repository's own tests.
abbrev config : Config
config = record { slot_count = 10; start_address = 0; end_address = 51200 }

config-IsSound : IsSound config
config-IsSound = omega arith

-- The blocks of a file that was flushed 255 times, on a device that refuses every write.
abbrev worn : ℕ → MetaDataBlock
worn r = record { start_address = 10752; max_address = 14336; file_size = 7; revision = r }

abbrev worn_device : ℕ → ℕ → BlockDevice ℕ
worn_device r r' = record {
  write = λ s address bytes. (false, s);
  read = λ s address size. some (if address == 512 then md_block (worn r) else md_block (worn r'));
}

abbrev fs_of : {Store : Type 0} → Store → SlotFs Store
fs_of s = record { store = s; attached = true; config = config; lock_counters = replicate 128 0 }

worn-IsMd : (r : ℕ) → r < 256 → IsMd (worn r)
worn-IsMd r h = omega arith

worn-first :
    (r r' : ℕ) → r < 256 → read_meta_data_block (worn_device r r') (fs_of 0) 0 0 ≡ ok (worn r)
unfolding read_meta_data_block meta_block_address
worn-first r r' h = rw (check-md_block (worn r)) (ap ok (decode-md_block (worn r) (worn-IsMd r h)))

worn-second :
    (r r' : ℕ) → r' < 256 → read_meta_data_block (worn_device r r') (fs_of 0) 0 1 ≡ ok (worn r')
unfolding read_meta_data_block meta_block_address
worn-second r r' h =
    rw (check-md_block (worn r')) (ap ok (decode-md_block (worn r') (worn-IsMd r' h)))

most_recent_lem_example :
    (most_recent_meta_data_block (worn 255) true (worn 0) true ≡ ok 1)
    × (most_recent_meta_data_block (worn 0) true (worn 255) true ≡ ok 0)
    × (most_recent_meta_data_block (worn 255) true (worn 0) false ≡ ok 0)
    × (most_recent_meta_data_block (worn 255) false (worn 0) true ≡ ok 1)
    × (most_recent_meta_data_block (worn 255) false (worn 0) false ≡ err error_corrupt_data)
most_recent_lem_example = most_recent_lem (worn 255) (worn 0) (omega arith) refl

wrapped_revision_example :
    (sfs_file_exists (worn_device 255 0) (fs_of 0) 0 ≡ false)
    × ((open_read (worn_device 255 0) (fs_of 0) 0).0 ≡ error_file_not_found)
wrapped_revision_example =
    wrapped_revision (worn_device 255 0) (fs_of 0) 0 (worn 255) (worn 0)
      (worn-first 255 0 (omega arith)) (worn-second 255 0 (omega arith)) refl refl

slots_disjoint_example :
    (a : MetaDataBlock) × (b : MetaDataBlock) × (init_meta_data_block config 3 ≡ ok a)
    × (init_meta_data_block config 7 ≡ ok b)
    × (0 + header config ≤ a.start_address)
    × (a.max_address ≤ b.start_address)
    × (b.max_address ≤ 51200)
    × (a.max_address ≡ a.start_address + slot_size config)
    × (b.max_address ≡ b.start_address + slot_size config)
    × (slot_size config % block_size ≡ 0)
slots_disjoint_example = slots_disjoint config 3 7 config-IsSound (omega arith) (omega arith)

meta_disjoint_example :
    (0 + block_size ≤ meta_block_address config 3 1)
    × (meta_block_address config 3 1 + block_size ≤ 0 + header config)
    × ((meta_block_address config 3 1 + block_size ≤ meta_block_address config 4 0)
        ⊎ (meta_block_address config 4 0 + block_size ≤ meta_block_address config 3 1))
meta_disjoint_example =
    meta_disjoint config 3 4 1 0 config-IsSound (omega arith) (omega arith) (omega arith)
      (omega arith) (inl (omega arith))

abbrev written_fs : SlotFs (ℕ → ℕ)
written_fs = record (fs_of (λ (a : ℕ). 0)) {
  store = memory_write (λ a. 0) (meta_block_address config 3 1) (md_block (worn 9));
}

read_meta-write_meta_example : read_meta_data_block memory written_fs 3 1 ≡ ok (worn 9)
unfolding write_meta_data_block
read_meta-write_meta_example =
    read_meta-write_meta memory memory-KeepsBytes (fs_of (λ a. 0)) written_fs 3 1 (worn 9) _
      (worn-IsMd 9 (omega arith)) (omega arith) refl refl

-- A file at the last 1536 bytes of a slot of 3584.
abbrev open_file : File
open_file = record zero_file { md = worn 1; file_cursor = 2050; block_page = some (new_page 2048) }

fresh-IsPage : IsPage (new_page 2048)
unfolding new_page
fresh-IsPage = omega arith

new_page-IsPage : (p : BlockPage) → some (new_page 2048) ≡ some p → IsPage p
new_page-IsPage p h = let e : new_page 2048 ≡ p = cc in subst IsPage e fresh-IsPage

write_total_example :
    (w : Written memory) × (sfs_file_write memory (fs_of (λ a. 0)) open_file (1 ∷ 2 ∷ []) ≡ some w)
    × (w.code ≢ aborted)
write_total_example =
    write_total memory (fs_of (λ a. 0)) open_file (1 ∷ 2 ∷ []) new_page-IsPage
      (record { inside = omega arith; words = omega arith })

read_total_example :
    (r : Fetched memory) × (sfs_file_read memory
        (fs_of (λ a. 0))
        (record open_file { mode = read; file_cursor = 3 })
        5
      ≡ some r)
    × (r.code ≢ aborted)
read_total_example =
    read_total memory (fs_of (λ a. 0)) (record open_file { mode = read; file_cursor = 3 }) 5
      new_page-IsPage (omega arith) (omega arith)

-- The page at 12800 ends at 14848, in the slot that starts at 14336.
page_overruns_slot_example :
    memory_write (λ a. 0) 12800 (replicate 2048 0) 14400
    ≡ get_or (replicate 2048 0) (14400 - 12800) 0
unfolding write_page new_page
page_overruns_slot_example =
    page_overruns_slot memory (fs_of (λ a. 0)) open_file (new_page 2048) memory-KeepsBytes
      (record (fs_of (λ (a : ℕ). 0)) { store = memory_write (λ a. 0) 12800 (replicate 2048 0) })
      14400 (omega arith) (omega arith) refl (omega arith) (omega arith) (omega arith)

-- Two parts that fill more than a page.
abbrev parts : List (List ℕ)
parts = replicate 2000 7 ∷ replicate 100 8 ∷ []

-- The file of the device's own bytes at the first slot, with the cursor at 5.
abbrev own_bytes : List ℕ
own_bytes = replicate 10 0

abbrev own_file : File
own_file = record zero_file {
  md = record { start_address = 10752; max_address = 14336; file_size = 10; revision = 2 };
  mode = read;
  file_cursor = 5;
  block_page = some (new_page 2048);
}

abbrev own_place : Place
own_place = record { slot = 0; first = 10752; last = 14336 }

get_or_zeros : (n i : ℕ) → ◌≡◌ {A = ℕ} (get_or (replicate n 0) i 0) 0
get_or_zeros zero i = refl
get_or_zeros (suc n) zero = refl
get_or_zeros (suc n) (suc i) = get_or_zeros n i

own_bytes_lem : (i : ℕ) → i < length own_bytes → 0 ≡ get_or own_bytes i 0
own_bytes_lem i h = sym (get_or_zeros 10 i)

own_file-Reading :
    Reading memory memory-KeepsBytes own_place (fs_of (λ a. 0)) own_file (new_page 2048) own_bytes
unfolding new_page
own_file-Reading = record {
  small = omega arith;
  first = refl;
  last = refl;
  mode = refl;
  size = refl;
  fits = omega arith;
  within = omega arith;
  room = refl;
  on_device = own_bytes_lem;
  page_at = inl refl;
}

memory-Reads : Reads memory memory-KeepsBytes
unfolding Reads
memory-Reads s address size = (_, refl)

read-ReadsOn_example :
    ReadsOn memory memory-KeepsBytes own_place own_bytes
      (fs_of (λ a. 0))
      5
      7
      []
      (sfs_file_read memory (fs_of (λ a. 0)) own_file 7)
read-ReadsOn_example = read-ReadsOn memory memory-KeepsBytes 7 memory-Reads own_file-Reading refl
