-- ===== src/SlotFs/Blocks.antt =====
-- lib_slotfs/slotfs.cpp: a metadata block that was written is read back.
use sensor_libs.Prelude.{
  ℕ, zero, suc, ◌+◌, ◌-◌, ◌<◌, ◌≤◌, ◌≡◌, refl, sym, ap, subst, ◌∙◌, true, some, List, [], ◌∷◌, ◌++◌,
  length, take, slice, blit, replicate, length-blit, length-replicate, list_ext, ==_iff, arith,
  word64, ◌⊎◌,
}
use sensor_libs.Prelude.Bytes.{le, from_le, from_le-le}
use sensor_libs.Crc32.{crc32, crc32-lt}
use sensor_libs.SlotFs.State.{
  block_size, success, ok, MetaDataBlock, BlockDevice, SlotFs, KeepsBytes,
}
use sensor_libs.SlotFs.Meta.{
  add_block_crc, check_block_crc, encode_md, decode_md, md_block, meta_block_address,
  write_meta_data_block, read_meta_data_block,
}

-- A copy below the place of a later copy.
take-blit : (xs : List ℕ) (i n : ℕ) (ys : List ℕ) → n ≤ i → take n (blit xs i ys) ≡ take n xs
take-blit xs i zero ys h = refl
take-blit [] i (suc n) ys h = refl
take-blit (x ∷ xs) zero (suc n) ys h = absurd (omega arith)
take-blit (x ∷ xs) (suc i) (suc n) ys h = ap (◌∷◌ x) (take-blit xs i n ys (omega arith))

slice-blit :
    (xs : List ℕ) (i : ℕ) (ys : List ℕ)
    → i + length ys ≤ length xs
    → slice (blit xs i ys) i (length ys) ≡ ys
slice-blit [] i [] h = refl
slice-blit [] i (y ∷ ys) h = absurd (omega arith)
slice-blit (x ∷ xs) (suc i) ys h = slice-blit xs i ys (omega arith)
slice-blit (x ∷ xs) zero [] h = refl
slice-blit (x ∷ xs) zero (y ∷ ys) h = ap (◌∷◌ y) (slice-blit xs zero ys (omega arith))

-- The checksum that `add_block_crc` puts into a block of at least four bytes is the one that
-- `check_block_crc` finds there.
pub check-add :
    (buffer : List ℕ) (size : ℕ)
    → length buffer ≡ size
    → 4 ≤ size
    → check_block_crc (add_block_crc buffer size) size ≡ true
unfolding check_block_crc add_block_crc
check-add buffer size e h = (==_iff _ _).1 (
    ap from_le (slice-blit buffer (size - 4) (le 4 sum) (omega arith))
    ∙ from_le-le 4 sum (crc32-lt (take (size - 4) buffer))
    ∙ ap crc32 (sym (take-blit buffer (size - 4) (size - 4) (le 4 sum) (omega arith))))
  where
    sum : ℕ
    sum = crc32 (take (size - 4) buffer)

-- The values that the fields of a metadata block can hold.
pub record IsMd (md : MetaDataBlock) : Type 0 where
  pub start_in : md.start_address < word64
  pub max_in : md.max_address < word64
  pub size_in : md.file_size < word64
  pub revision_in : md.revision < 256

-- What `memcpy` takes out of a block is what was put at its front, whatever stands behind.
decode-encode :
    (md : MetaDataBlock) (rest : List ℕ) → IsMd md → decode_md (encode_md md ++ rest) ≡ md
unfolding decode_md encode_md
decode-encode md rest v = λ i. record {
  start_address = from_le-le 8 md.start_address v.start_in i;
  max_address = from_le-le 8 md.max_address v.max_in i;
  file_size = from_le-le 8 md.file_size v.size_in i;
  revision = from_le-le 1 md.revision v.revision_in i;
}

md_block-split : (md : MetaDataBlock) → (rest : List ℕ) × (md_block md ≡ encode_md md ++ rest)
unfolding md_block add_block_crc encode_md
md_block-split md = (_, refl)

pub decode-md_block : (md : MetaDataBlock) → IsMd md → decode_md (md_block md) ≡ md
decode-md_block md v = ap decode_md (md_block-split md).1 ∙ decode-encode md (md_block-split md).0 v

pub length-md_block : (md : MetaDataBlock) → length (md_block md) ≡ block_size
unfolding md_block add_block_crc encode_md
length-md_block md = refl

pub check-md_block : (md : MetaDataBlock) → check_block_crc (md_block md) block_size ≡ true
unfolding md_block
check-md_block md =
    check-add _ block_size
      (length-blit (replicate block_size 0) 0 (encode_md md)
        ∙ length-replicate {A = ℕ} block_size 0)
      (omega arith)

module _ {Store : Type 0} (dev : BlockDevice Store) (k : KeepsBytes dev) where
  -- A read of a range that was just written gives what was written.
  pub read-write :
      (s t : Store) (address : ℕ) (bytes buffer : List ℕ)
      → dev.write s address bytes ≡ (true, t)
      → dev.read t address (length bytes) ≡ some buffer
      → buffer ≡ bytes
  read-write s t address bytes buffer w r =
      let got = k.read_lem t address (length bytes) buffer r in
      list_ext buffer bytes 0 got.0 (λ i h.
        got.1 i (omega (arith, h, got.0))
        ∙ k.write_inside s t address bytes i w (omega (arith, h, got.0)))

  -- A read of a range that a write did not touch gives what it gave before.
  pub read-write_apart :
      (s t : Store) (address other size : ℕ) (bytes before after : List ℕ)
      → dev.write s address bytes ≡ (true, t)
      → (other + size ≤ address) ⊎ (address + length bytes ≤ other)
      → dev.read s other size ≡ some before
      → dev.read t other size ≡ some after
      → after ≡ before
  read-write_apart s t address other size bytes before after w apart r r' =
      let old = k.read_lem s other size before r in
      let new = k.read_lem t other size after r' in
      list_ext after before 0 (new.0 ∙ sym old.0) (λ i h.
        new.1 i (omega (arith, h, new.0))
        ∙ k.write_outside s t address bytes (other + i) w (side i (omega (arith, h, new.0)))
        ∙ sym (old.1 i (omega (arith, h, new.0))))
    where
      side : (i : ℕ) → i < size → (other + i < address) ⊎ (address + length bytes ≤ other + i)
      side i h = omega arith

  write_meta_lem :
      (fs fs' : SlotFs Store) (slot idx : ℕ) (md : MetaDataBlock)
      → idx ≤ 2
      → write_meta_data_block dev fs slot md idx ≡ (success, fs')
      → (dev.write fs.store (meta_block_address fs.config slot idx) (md_block md)
          ≡ (true, fs'.store))
        × (fs'.config ≡ fs.config)
  unfolding write_meta_data_block
  write_meta_lem fs fs' slot idx md h e = (ground arith, ground arith)

  -- On a device that keeps its bytes: when `write_meta_data_block` has written a block whose fields
  -- are in range and returned success, and the device can read that place, `read_meta_data_block`
  -- finds the checksum right and returns just that block.
  pub read_meta-write_meta :
      (fs fs' : SlotFs Store) (slot idx : ℕ) (md : MetaDataBlock) (buffer : List ℕ)
      → IsMd md
      → idx ≤ 2
      → write_meta_data_block dev fs slot md idx ≡ (success, fs')
      → dev.read fs'.store (meta_block_address fs'.config slot idx) block_size ≡ some buffer
      → read_meta_data_block dev fs' slot idx ≡ ok md
  unfolding read_meta_data_block
  read_meta-write_meta fs fs' slot idx md buffer v h e r =
      let w = write_meta_lem fs fs' slot idx md h e in
      let same : buffer ≡ md_block md =
        read-write fs.store fs'.store (meta_block_address fs.config slot idx) (md_block md) buffer
          w.0
          (subst
            (λ c.
              dev.read fs'.store (meta_block_address c slot idx) (length (md_block md))
              ≡ some buffer)
            w.1
            (subst
              (λ n. dev.read fs'.store (meta_block_address fs'.config slot idx) n ≡ some buffer)
              (sym (length-md_block md)) r)) in
      ground (arith, check-md_block md, decode-md_block md v)
