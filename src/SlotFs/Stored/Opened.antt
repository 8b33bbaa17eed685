-- ===== src/SlotFs/Stored/Opened.antt =====
-- lib_slotfs/slotfs.cpp: a file that was just opened for writing.
use sensor_libs.Prelude.{
  ℕ, suc, ◌+◌, ◌-◌, ◌*◌, ◌<◌, ◌≤◌, ◌≡◌, ◌≢◌, ◌⊎◌, refl, sym, subst, ◌∙◌, [], length-replicate,
  arith, word64, ltb, inr, false,
}
use sensor_libs.SlotFs.State.{
  write_create, success, Config, new_page, BlockDevice, SlotFs, KeepsBytes, MetaDataBlock,
  zero_file, block_size,
}
use sensor_libs.SlotFs.Meta.{
  read_meta_data_block, meta_block_address, write_meta_data_block, md_block,
}
use sensor_libs.SlotFs.Open.{open_write, attach}
use sensor_libs.SlotFs.Layout.{IsSound, header, slot_size, init_lem, slots_fit, meta_disjoint}
use sensor_libs.SlotFs.Metas.{NeverFails, Metas}
use sensor_libs.SlotFs.Metas.Writes.{new-Metas}
use sensor_libs.SlotFs.Stored.{Place, IsPlace, Stored, device_write_lem}

unfoldable pub place_of : Config → ℕ → Place
place_of c slot = record {
  slot = slot;
  first = c.start_address + header c + slot_size c * slot;
  last = c.start_address + header c + slot_size c * suc slot;
}

place_of-IsPlace :
    (c : Config) (slot : ℕ)
    → IsSound c
    → slot < c.slot_count
    → c.end_address + 2048 < word64
    → IsPlace c (place_of c slot)
unfolding place_of
place_of-IsPlace c slot v h room = record {
  behind = λ idx l. omega (arith, (apart idx (1 - idx) l (omega arith) (λ e. omega (arith, e))).0);
  apart = λ i j l l' e. (apart i j l l' e).1;
  small = omega (arith, slots_fit c (suc slot) v (omega arith));
}
  where
    apart :
        (i j : ℕ)
        → i ≤ 1
        → j ≤ 1
        → i ≢ j
        → (meta_block_address c slot i + block_size ≤ c.start_address + header c)
          × ((meta_block_address c slot i + block_size ≤ meta_block_address c slot j)
              ⊎ (meta_block_address c slot j + block_size ≤ meta_block_address c slot i))
    apart i j l l' e =
        let t =
          meta_disjoint c slot slot i j v h h (omega (arith, l)) (omega (arith, l')) (inr e) in
        (t.1, t.2)

module _ {Store : Type 0} (dev : BlockDevice Store) (k : KeepsBytes dev) where
  write_meta_lem :
      (fs : SlotFs Store) (slot : ℕ) (md : MetaDataBlock) (idx : ℕ)
      → NeverFails dev k
      → idx ≤ 1
      → let (rc, fs') = write_meta_data_block dev fs slot md idx in
        (rc ≡ success) × (fs'.config ≡ fs.config)
  unfolding write_meta_data_block
  write_meta_lem fs slot md idx w h =
      let small : ltb 2 idx ≡ false = ground arith in
      let wrote =
        device_write_lem dev k fs (meta_block_address fs.config slot idx) (md_block md) w in
      rw (write_meta_data_block, small) (wrote.0, wrote.1)

  -- A file that was just attached holds no bytes yet.
  attach-Stored :
      (p : Place) (fs : SlotFs Store) (md : MetaDataBlock)
      → IsPlace fs.config p
      → Metas dev k fs p.slot md
      → md.start_address ≡ p.first
      → md.max_address ≡ p.last
      → p.first ≤ p.last
      → let (rc, fs', file) = attach dev fs p.slot write_create (record zero_file { md = md }) in
        (rc ≡ success) × Stored dev k p fs' file (new_page 2048) []
  unfolding attach new_page read_meta_data_block
  attach-Stored p fs md v m first last l = (
    refl,
    record {
      place = v;
      metas = record {
        idx = m.idx;
        old = m.old;
        in_pair = m.in_pair;
        newest = m.newest;
        older = m.older;
        revision_in = m.revision_in;
        old_in = m.old_in;
        step = m.step;
      };
      slot = refl;
      first = first;
      last = last;
      mode = refl;
      paged = refl;
      cursor = refl;
      room = length-replicate {A = ℕ} 2048 0;
      offset = refl;
      fits = omega (arith, l);
      kept = λ i g. absurd (omega (arith, g));
      held = λ i j g g'. absurd (omega (arith, g));
    },
  )

  -- Opening for writing gives an empty file in its slot.
  pub open_write-Stored :
      (fs : SlotFs Store) (slot : ℕ)
      → NeverFails dev k
      → IsSound fs.config
      → slot < fs.config.slot_count
      → fs.config.end_address + 2048 < word64
      → let (rc, fs', file) = open_write dev fs slot in
        (rc ≡ success) × Stored dev k (place_of fs.config slot) fs' file (new_page 2048) []
  unfolding open_write place_of
  open_write-Stored fs slot w v h room =
      let c = fs.config in
      let md : MetaDataBlock = record {
        start_address = c.start_address + header c + slot_size c * slot;
        max_address = c.start_address + header c + slot_size c * suc slot;
        file_size = 0;
        revision = 1;
      } in
      let one = write_meta_lem fs slot md 0 w (omega arith) in
      let fs1 = (write_meta_data_block dev fs slot md 0).1 in
      let two = write_meta_lem fs1 slot md 1 w (omega arith) in
      let fs2 = (write_meta_data_block dev fs1 slot md 1).1 in
      let place =
        subst (λ x. IsPlace x (place_of c slot)) (sym (two.1 ∙ one.1))
          (place_of-IsPlace c slot v h room) in
      let metas =
        new-Metas dev k fs slot md w
          (record {
            start_in = omega (arith, slots_fit c slot v, h, room);
            max_in = omega (arith, slots_fit c (suc slot) v, h, room);
            size_in = omega arith;
            revision_in = omega arith;
          })
          ((place_of-IsPlace c slot v h room).apart 0 1 (omega arith) (omega arith)
            (λ e. omega (arith, e))) in
      rw (open_write, init_lem c slot v h, one.0, two.0)
        (attach-Stored (place_of c slot) fs2 md place metas refl refl (omega arith))
