-- ===== src/SlotFs/Metas/Writes.antt =====
-- lib_slotfs/slotfs.cpp: what the writes of a slot leave of its two metadata blocks.
use sensor_libs.Prelude.{
  ℕ, ◌+◌, ◌-◌, ◌%◌, ◌≤◌, ◌≡◌, ◌≢◌, ◌⊎◌, inl, inr, refl, sym, ap, subst, ◌∙◌, true, false, some,
  List, length, ltb, if◌then◌else◌, arith,
}
use sensor_libs.SlotFs.State.{
  Result, success, error_write, error_corrupt_data, Outcome, ok, err, MetaDataBlock, block_size,
  File, BlockDevice, SlotFs, KeepsBytes,
}
use sensor_libs.SlotFs.Meta.{
  read_meta_data_block, write_meta_data_block, meta_block_address, device_write, md_block,
  check_block_crc, decode_md,
}
use sensor_libs.SlotFs.Blocks.{IsMd, read_meta-write_meta, read-write_apart, length-md_block}
use sensor_libs.SlotFs.Io.{flush_meta}
use sensor_libs.SlotFs.Metas.{NeverFails, Metas, chosen, chosen_lem}

module _ {Store : Type 0} (dev : BlockDevice Store) (k : KeepsBytes dev) where
  checked : List ℕ → Outcome MetaDataBlock
  checked buffer =
      if check_block_crc buffer block_size then ok (decode_md buffer) else err error_corrupt_data

  read_meta-checked :
      (fs : SlotFs Store) (slot idx : ℕ) (buffer : List ℕ)
      → dev.read fs.store (meta_block_address fs.config slot idx) block_size ≡ some buffer
      → read_meta_data_block dev fs slot idx ≡ checked buffer
  unfolding read_meta_data_block checked
  read_meta-checked fs slot idx buffer e = rw (read_meta_data_block, e) refl

  -- A write next to a metadata block leaves it.
  pub read_meta_apart :
      (fs fs' : SlotFs Store) (slot idx address : ℕ) (bytes : List ℕ)
      → NeverFails dev k
      → dev.write fs.store address bytes ≡ (true, fs'.store)
      → fs'.config ≡ fs.config
      → (meta_block_address fs.config slot idx + block_size ≤ address)
        ⊎ (address + length bytes ≤ meta_block_address fs.config slot idx)
      → read_meta_data_block dev fs' slot idx ≡ read_meta_data_block dev fs slot idx
  unfolding NeverFails
  read_meta_apart fs fs' slot idx address bytes reads w same apart =
      let at = meta_block_address fs.config slot idx in
      let old = reads.1 fs.store at block_size in
      let new = reads.1 fs'.store at block_size in
      let new' =
        subst (λ c. dev.read fs'.store (meta_block_address c slot idx) block_size ≡ some new.0)
          (sym same) new.1 in
      read_meta-checked fs' slot idx new.0 new'
      ∙ ap checked (
          read-write_apart dev k fs.store fs'.store address at block_size bytes old.0 new.0 w apart
            old.1 new.1)
      ∙ sym (read_meta-checked fs slot idx old.0 old.1)

  -- The metadata that a flush writes.
  abbrev pub next_md : File → MetaDataBlock
  next_md file = record file.md {
    file_size = file.file_cursor;
    revision = (file.md.revision + 1) % 256;
  }

  flush_meta-chosen :
      (fs : SlotFs Store) (file : File) (idx : ℕ)
      → chosen dev k fs file.slot (next_md file) ≡ ok idx
      → flush_meta dev fs file ≡ (
        success,
        (write_meta_data_block dev fs file.slot (next_md file) ((idx + 1) % 2)).1,
        record file { md = next_md file },
      )
  unfolding flush_meta chosen
  flush_meta-chosen fs file idx e = rw (flush_meta, e) refl

  pub write_meta-write :
      (fs : SlotFs Store) (slot : ℕ) (md : MetaDataBlock) (idx : ℕ)
      → NeverFails dev k
      → idx ≤ 1
      → let fs' = (write_meta_data_block dev fs slot md idx).1 in
        (write_meta_data_block dev fs slot md idx ≡ (success, fs'))
        × (dev.write fs.store (meta_block_address fs.config slot idx) (md_block md)
            ≡ (true, fs'.store))
        × (fs'.config ≡ fs.config)
  unfolding write_meta_data_block device_write NeverFails
  write_meta-write fs slot md idx w h =
      let at = meta_block_address fs.config slot idx in
      let small : ltb 2 idx ≡ false = ground arith in
      let done = w.0 fs.store at (md_block md) in
      rw (write_meta_data_block, small)
        (
          ap
              (λ b. (
                if b then success else error_write,
                record fs { store = (dev.write fs.store at (md_block md)).1 },
              ))
              done,
          ap (λ b. (b, (dev.write fs.store at (md_block md)).1)) done,
          refl,
        )

  -- A flush of the metadata makes the new ones the newest.
  pub flush_meta-Metas :
      (fs : SlotFs Store) (file : File)
      → NeverFails dev k
      → IsMd (next_md file)
      → ((i j : ℕ)
          → i ≤ 1
          → j ≤ 1
          → i ≢ j
          → (meta_block_address fs.config file.slot i + block_size
              ≤ meta_block_address fs.config file.slot j)
            ⊎ (meta_block_address fs.config file.slot j + block_size
                ≤ meta_block_address fs.config file.slot i))
      → Metas dev k fs file.slot file.md
      → let (rc, fs', file') = flush_meta dev fs file in
        (rc ≡ success) × Metas dev k fs' file'.slot file'.md
  unfolding NeverFails
  flush_meta-Metas fs file w v apart m =
      let md' = next_md file in
      let slot = file.slot in
      let other = (m.idx + 1) % 2 in
      let fs' = (write_meta_data_block dev fs slot md' other).1 in
      let wrote = write_meta-write fs slot md' other w (omega arith) in
      let at = meta_block_address fs'.config slot other in
      let got = w.1 fs'.store at block_size in
      let sides : other ≡ 1 - m.idx = omega (arith, m.in_pair) in
      let back : 1 - other ≡ m.idx = omega (arith, m.in_pair) in
      subst
        (λ (r : Result × SlotFs Store × File). (r.0 ≡ success) × Metas dev k r.1 r.2.slot r.2.md)
        (sym (flush_meta-chosen fs file m.idx (chosen_lem dev k fs slot file.md md' m)))
        (
          refl,
          record {
            idx = other;
            old = file.md;
            in_pair = omega arith;
            newest =
                read_meta-write_meta dev k fs fs' slot other md' got.0 v (omega arith) wrote.0
                  got.1;
            older =
                subst (λ i. read_meta_data_block dev fs' slot i ≡ ok file.md) (sym back)
                  (read_meta_apart fs fs' slot m.idx _ (md_block md') w wrote.1 wrote.2
                      (elim (apart m.idx other m.in_pair (omega arith) (λ z. omega (arith, z))) [
                        | inl l ↦ inl l
                        | inr g ↦ inr (omega (arith, g, length-md_block md'))
                      ])
                    ∙ m.newest);
            revision_in = v.revision_in;
            old_in = m.revision_in;
            step = inr refl;
          },
        )

  -- A write behind the metadata blocks keeps them.
  pub device_write-Metas :
      (fs : SlotFs Store) (slot : ℕ) (md : MetaDataBlock) (address : ℕ) (bytes : List ℕ)
      → NeverFails dev k
      → ((i : ℕ) → i ≤ 1 → meta_block_address fs.config slot i + block_size ≤ address)
      → Metas dev k fs slot md
      → Metas dev k (device_write dev fs address bytes).1 slot md
  unfolding device_write NeverFails
  device_write-Metas fs slot md address bytes w behind m =
      let fs' = (device_write dev fs address bytes).1 in
      let wrote : dev.write fs.store address bytes ≡ (true, fs'.store) =
        ap (λ b. (b, fs'.store)) (w.0 fs.store address bytes) in
      let same = λ (i : ℕ) (l : i ≤ 1).
        read_meta_apart fs fs' slot i address bytes w wrote refl (inl (behind i l)) in
      record {
        idx = m.idx;
        old = m.old;
        in_pair = m.in_pair;
        newest = same m.idx m.in_pair ∙ m.newest;
        older = same (1 - m.idx) (omega arith) ∙ m.older;
        revision_in = m.revision_in;
        old_in = m.old_in;
        step = m.step;
      }

  -- The metadata of a new file, in both blocks.
  pub new-Metas :
      (fs : SlotFs Store) (slot : ℕ) (md : MetaDataBlock)
      → NeverFails dev k
      → IsMd md
      → (meta_block_address fs.config slot 0 + block_size ≤ meta_block_address fs.config slot 1)
        ⊎ (meta_block_address fs.config slot 1 + block_size ≤ meta_block_address fs.config slot 0)
      → let fs1 = (write_meta_data_block dev fs slot md 0).1 in
        Metas dev k (write_meta_data_block dev fs1 slot md 1).1 slot md
  unfolding NeverFails
  new-Metas fs slot md w v apart =
      let fs1 = (write_meta_data_block dev fs slot md 0).1 in
      let fs2 = (write_meta_data_block dev fs1 slot md 1).1 in
      let one = write_meta-write fs slot md 0 w (omega arith) in
      let two = write_meta-write fs1 slot md 1 w (omega arith) in
      let at = λ (f : SlotFs Store) (i : ℕ). meta_block_address f.config slot i in
      let beside : (at fs1 0 + block_size ≤ at fs1 1)
          ⊎ (at fs1 1 + length (md_block md) ≤ at fs1 0) =
        subst
          (λ c.
            (meta_block_address c slot 0 + block_size ≤ meta_block_address c slot 1)
            ⊎ (meta_block_address c slot 1 + length (md_block md) ≤ meta_block_address c slot 0))
          (sym one.2)
          (elim apart [ inl l ↦ inl l | inr g ↦ inr (omega (arith, g, length-md_block md)) ]) in
      record {
        idx = 0;
        old = md;
        in_pair = omega arith;
        newest =
            read_meta_apart fs1 fs2 slot 0 _ (md_block md) w two.1 two.2 beside
            ∙ read_meta-write_meta dev k fs fs1 slot 0 md _ v (omega arith) one.0
                (w.1 fs1.store (at fs1 0) block_size).1;
        older =
            read_meta-write_meta dev k fs1 fs2 slot 1 md _ v (omega arith) two.0
              (w.1 fs2.store (at fs2 1) block_size).1;
        revision_in = v.revision_in;
        old_in = v.revision_in;
        step = inl (refl, refl);
      }
