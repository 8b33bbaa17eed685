-- ===== src/SlotFs/State.antt =====
-- lib_slotfs/slotfs.h: the data of the filesystem and the interface of its block device.
use sensor_libs.Prelude.{
  ℕ, ◌+◌, ◌<◌, ◌≤◌, ◌≡◌, ◌⊎◌, inl, inr, refl, get_or, Bool, true, ◌&&◌, Option, none, some, List,
  length, replicate, sub64, ◌==◌,
}

abbrev pub block_size : ℕ
block_size = 512

abbrev pub max_slots : ℕ
max_slots = 128

pub record Config : Type 0 where
  pub slot_count : ℕ
  pub start_address : ℕ
  pub end_address : ℕ

unfoldable pub config_eq : Config → Config → Bool
config_eq a b =
    a.slot_count == b.slot_count
    && a.start_address == b.start_address
    && a.end_address == b.end_address

pub data Mode : Type 0 where
  write_create read unknown : Mode

-- The codes of the source; `aborted` stands for a call that does not return, since an `assert` fails
-- or a division by zero stops the program.
pub data Result : Type 0 where
  success success_eof error_read error_write error_corrupt_data error_assert error_file_not_found :
      Result
  aborted : Result

-- A call that returns `Result_Success` with a value, or another code.
pub data Outcome {ℓ} (A : Type ℓ) : Type ℓ where
  ok : A → Outcome A
  err : Result → Outcome A

pub Outcome-cases {ℓ} :
    {A : Type ℓ} (o : Outcome A) → ((e : Result) × (o ≡ err e)) ⊎ ((a : A) × (o ≡ ok a))
Outcome-cases (ok a) = inr (a, refl)
Outcome-cases (err e) = inl (e, refl)

-- The addresses and the size are words of 64 bits, the revision is a byte.
pub record MetaDataBlock : Type 0 where
  pub start_address : ℕ
  pub max_address : ℕ
  pub file_size : ℕ
  pub revision : ℕ

-- `data_size` is the length of `bytes`.
pub record BlockPage : Type 0 where
  pub bytes : List ℕ
  pub offset : ℕ

abbrev pub capacity : BlockPage → ℕ
capacity p = length p.bytes

unfoldable pub new_page : ℕ → BlockPage
new_page size = record { bytes = replicate size 0; offset = 0 }

unfoldable pub page_size : BlockPage → ℕ
page_size p = p.offset

unfoldable pub available : BlockPage → ℕ
available p = sub64 (capacity p) p.offset

unfoldable pub clear_page : BlockPage → BlockPage
clear_page p = record p { offset = 0 }

-- `none` is the null pointer.
pub record File : Type 0 where
  pub slot : ℕ
  pub md : MetaDataBlock
  pub mode : Mode
  pub file_cursor : ℕ
  pub block_page : Option BlockPage

abbrev pub zero_md : MetaDataBlock
zero_md = record { start_address = 0; max_address = 0; file_size = 0; revision = 0 }

-- `SlotFS::File()`.
abbrev pub new_file : File
new_file = record { slot = 0; md = zero_md; mode = unknown; file_cursor = 0; block_page = none }

-- `memset (file, 0, sizeof (File))`: the mode that is 0 is `Mode_WriteCreate`.
abbrev pub zero_file : File
zero_file = record {
  slot = 0;
  md = zero_md;
  mode = write_create;
  file_cursor = 0;
  block_page = none;
}

-- The interface `BlockDevice` over the states `Store` of a device: `write` says whether it returned
-- 0, and `read` gives the bytes where it did.
pub record BlockDevice (Store : Type 0) : Type 0 where
  pub write : Store → ℕ → List ℕ → Bool × Store
  pub read : Store → ℕ → ℕ → Option (List ℕ)

-- The filesystem and the device behind its pointer. `lock_counters` are bytes, `int8_t` in the
-- source, which compares them with 0 only.
pub record SlotFs (Store : Type 0) : Type 0 where
  pub store : Store
  pub attached : Bool
  pub config : Config
  pub lock_counters : List ℕ

-- What a device does that keeps its bytes: a read that succeeds gives the bytes from the address on,
-- a write that succeeds changes those bytes and no others.
pub record KeepsBytes {Store : Type 0} (dev : BlockDevice Store) : Type 0 where
  pub byte_at : Store → ℕ → ℕ
  pub read_lem :
      (s : Store) (address size : ℕ) (bytes : List ℕ)
      → dev.read s address size ≡ some bytes
      → (length bytes ≡ size) × ((i : ℕ) → i < size → get_or bytes i 0 ≡ byte_at s (address + i))
  pub write_inside :
      (s t : Store) (address : ℕ) (bytes : List ℕ) (i : ℕ)
      → dev.write s address bytes ≡ (true, t)
      → i < length bytes
      → byte_at t (address + i) ≡ get_or bytes i 0
  pub write_outside :
      (s t : Store) (address : ℕ) (bytes : List ℕ) (a : ℕ)
      → dev.write s address bytes ≡ (true, t)
      → (a < address) ⊎ (address + length bytes ≤ a)
      → byte_at t a ≡ byte_at s a
