-- ===== src/SlotFs/Layout.antt =====
-- lib_slotfs/slotfs.cpp: where the blocks and the slots lie on the device.
use native.Mathlib.Nat.{mul-le-mul}
use sensor_libs.Prelude.{
  ℕ, suc, ◌+◌, ◌-◌, ◌*◌, ◌/◌, ◌%◌, ◌^◌, ◌<◌, ◌≤◌, ◌≡◌, ◌≢◌, ◌⊎◌, arith, sub64, word64,
}
use sensor_libs.SlotFs.State.{block_size, Config, ok, MetaDataBlock}
use sensor_libs.SlotFs.Meta.{init_meta_data_block, meta_block_address}

-- The first block and the metadata blocks.
abbrev pub header : Config → ℕ
header c = block_size * (1 + c.slot_count * 2)

-- A configuration for which the header fits between the two addresses.
pub record IsSound (c : Config) : Type 0 where
  pub some_slot : 0 < c.slot_count
  pub fits : c.start_address + header c ≤ c.end_address
  pub addresses : c.end_address < word64

abbrev pub slot_size : Config → ℕ
slot_size c = (c.end_address - c.start_address - header c) / c.slot_count / block_size * block_size

mul_mono : (a b k n : ℕ) → a ≤ b → k ≤ n → a * k ≤ b * n
mul_mono a b k n h l = mul-le-mul h l

-- `n` shares of `d` bytes, each cut down to whole blocks.
share_fits : (d n k : ℕ) → 0 < n → k ≤ n → d / n / 512 * 512 * k ≤ d
share_fits d n k p h =
    let whole : d / n / 512 * 512 ≤ d / n = omega arith in
    let part : d / n / 512 * 512 * k ≤ d / n * n = mul_mono _ _ k n whole h in
    let all : d / n * n ≤ d = omega arith in omega arith

pub slots_fit :
    (c : Config) (k : ℕ)
    → IsSound c
    → k ≤ c.slot_count
    → c.start_address + header c + slot_size c * k ≤ c.end_address
slots_fit c k v h =
    (omega (
      arith,
      share_fits (c.end_address - c.start_address - header c) c.slot_count k v.some_slot h,
      v,
    ))

-- The arithmetic of `init_meta_data_block` does not wrap.
pub init_lem :
    (c : Config) (slot : ℕ)
    → IsSound c
    → slot < c.slot_count
    → init_meta_data_block c slot
      ≡ ok (record {
        start_address = c.start_address + header c + slot_size c * slot;
        max_address = c.start_address + header c + slot_size c * suc slot;
        file_size = 0;
        revision = 0;
      })
unfolding init_meta_data_block
init_lem c slot v h = rw data_size (ground (arith, slots_fit c slot v, slots_fit c (suc slot) v))
  where
    data_size :
        sub64 (sub64 c.end_address c.start_address) (header c % 2 ^ 64)
        ≡ c.end_address - c.start_address - header c
    data_size = omega (arith, v)

-- For a sound configuration and two slots of it, the first with the lower number, `init_meta_data_block`
-- places both without wrapping: behind the metadata blocks, one after the other with no overlap, and
-- before the end address. Both are whole blocks, of one size.
pub slots_disjoint :
    (c : Config) (i j : ℕ)
    → IsSound c
    → i < j
    → j < c.slot_count
    → (a : MetaDataBlock) × (b : MetaDataBlock) × (init_meta_data_block c i ≡ ok a)
      × (init_meta_data_block c j ≡ ok b)
      × (c.start_address + header c ≤ a.start_address)
      × (a.max_address ≤ b.start_address)
      × (b.max_address ≤ c.end_address)
      × (a.max_address ≡ a.start_address + slot_size c)
      × (b.max_address ≡ b.start_address + slot_size c)
      × (slot_size c % block_size ≡ 0)
slots_disjoint c i j v h l = (
  _,
  _,
  init_lem c i v (omega arith),
  init_lem c j v l,
  omega arith,
  omega (arith, mul_mono (slot_size c) (slot_size c) (suc i) j (omega arith) h),
  omega (arith, slots_fit c (suc j) v l),
  omega arith,
  omega arith,
  omega arith,
)

-- The addresses of the metadata blocks do not wrap, up to those of the slot behind the last.
pub meta_address_lem :
    (c : Config) (slot idx : ℕ)
    → IsSound c
    → c.start_address + block_size * (slot * 2 + 1 + idx) < word64
    → meta_block_address c slot idx ≡ c.start_address + block_size * (slot * 2 + 1 + idx)
unfolding meta_block_address
meta_address_lem c slot idx v h = omega arith

-- For a sound configuration, the two metadata blocks of each slot lie behind the first block of the
-- filesystem and before the first slot's data, and those of different slots, or of the two places of
-- one slot, do not overlap.
pub meta_disjoint :
    (c : Config) (i j p q : ℕ)
    → IsSound c
    → i < c.slot_count
    → j < c.slot_count
    → p < 2
    → q < 2
    → (i ≢ j) ⊎ (p ≢ q)
    → (c.start_address + block_size ≤ meta_block_address c i p)
      × (meta_block_address c i p + block_size ≤ c.start_address + header c)
      × ((meta_block_address c i p + block_size ≤ meta_block_address c j q)
          ⊎ (meta_block_address c j q + block_size ≤ meta_block_address c i p))
meta_disjoint c i j p q v hi hj hp hq ne = (omega (arith, here), omega (arith, here), apart ne)
  where
    here : meta_block_address c i p ≡ c.start_address + block_size * (i * 2 + 1 + p)
    here = meta_address_lem c i p v (omega (arith, v))

    there : meta_block_address c j q ≡ c.start_address + block_size * (j * 2 + 1 + q)
    there = meta_address_lem c j q v (omega (arith, v))

    apart :
        (i ≢ j) ⊎ (p ≢ q)
        → (meta_block_address c i p + block_size ≤ meta_block_address c j q)
          ⊎ (meta_block_address c j q + block_size ≤ meta_block_address c i p)
    apart h = omega (arith, here, there)

-- `sfs_file_open` lets the slot number `slot_count` pass. The metadata blocks of that slot are the
-- first two blocks from the start of slot 0, for every sound configuration whose slots are not empty.
pub slot_count_overlaps :
    (c : Config) (idx : ℕ)
    → IsSound c
    → 0 < slot_size c
    → idx < 2
    → (a : MetaDataBlock) × (init_meta_data_block c 0 ≡ ok a)
      × (meta_block_address c c.slot_count idx ≡ a.start_address + block_size * idx)
slot_count_overlaps c idx v pos h = (
  _,
  init_lem c 0 v v.some_slot,
  omega (arith, meta_address_lem c c.slot_count idx v (omega (arith, v, share_block))),
)
  where
    share_block : c.start_address + header c + slot_size c * 1 ≤ c.end_address
    share_block = slots_fit c 1 v v.some_slot
