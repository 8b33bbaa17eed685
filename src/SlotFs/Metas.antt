-- ===== src/SlotFs/Metas.antt =====
-- lib_slotfs/slotfs.cpp: the two metadata blocks of a slot over the flushes of its file.
use sensor_libs.Prelude.{
  ℕ, ◌+◌, ◌-◌, ◌%◌, ◌<◌, ◌≤◌, ◌≡◌, ◌≢◌, ◌⊎◌, inl, inr, refl, sym, ap, subst, ◌∙◌, true, false, some,
  List, length, Bool-cases, ltb, ◌==◌, if◌then◌else◌, arith,
}
use sensor_libs.SlotFs.State.{
  Result, success, error_write, error_corrupt_data, Outcome, ok, err, MetaDataBlock, block_size,
  File, BlockDevice, SlotFs, KeepsBytes, zero_md,
}
use sensor_libs.SlotFs.Meta.{
  read_meta_data_block, write_meta_data_block, most_recent_meta_data_block, meta_block_address,
  device_write, md_block, check_block_crc, decode_md,
}
use sensor_libs.SlotFs.Blocks.{IsMd, read_meta-write_meta, read-write_apart, length-md_block}
use sensor_libs.SlotFs.Io.{is_ok, value_or, flush_meta}
use sensor_libs.SlotFs.Open.{recent_md}
use sensor_libs.SlotFs.Revision.{most_recent_lem, most_recent_same}
pub mod Writes

module _ {Store : Type 0} (dev : BlockDevice Store) (k : KeepsBytes dev) where
  -- A device that does not fail.
  unfoldable pub NeverFails : Type 0
  NeverFails =
      ((s : Store) (address : ℕ) (bytes : List ℕ) → (dev.write s address bytes).0 ≡ true)
      × ((s : Store) (address size : ℕ) → (bytes : List ℕ) × (dev.read s address size ≡ some bytes))

  -- One of the blocks is the file's metadata, and the other is a flush older, or the same.
  pub record Metas (fs : SlotFs Store) (slot : ℕ) (md : MetaDataBlock) : Type 0 where
    pub idx : ℕ
    pub old : MetaDataBlock
    pub in_pair : idx ≤ 1
    pub newest : read_meta_data_block dev fs slot idx ≡ ok md
    pub older : read_meta_data_block dev fs slot (1 - idx) ≡ ok old
    pub revision_in : md.revision < 256
    pub old_in : old.revision < 256
    pub step : ((old.revision ≡ md.revision) × (idx ≡ 0)) ⊎ (md.revision ≡ (old.revision + 1) % 256)

  -- The choice between the blocks of a slot.
  pub chosen : SlotFs Store → ℕ → MetaDataBlock → Outcome ℕ
  chosen fs slot d =
      let a = read_meta_data_block dev fs slot 0 in
      let b = read_meta_data_block dev fs slot 1 in
      most_recent_meta_data_block (value_or d a) (is_ok a) (value_or d b) (is_ok b)

  pair_lem :
      (a b : Outcome MetaDataBlock) (x y d : MetaDataBlock)
      → a ≡ ok x
      → b ≡ ok y
      → most_recent_meta_data_block (value_or d a) (is_ok a) (value_or d b) (is_ok b)
        ≡ most_recent_meta_data_block x true y true
  unfolding value_or is_ok
  pair_lem a b x y d e f = rw (e, f) refl

  pub chosen_lem :
      (fs : SlotFs Store) (slot : ℕ) (md d : MetaDataBlock) (m : Metas fs slot md)
      → chosen fs slot d ≡ ok m.idx
  unfolding chosen
  chosen_lem fs slot md d m = elim (Bool-cases (m.idx == 0)) [
    | inl first ↦
        let z : m.idx ≡ 0 = ground arith in
        let a = subst (λ i. read_meta_data_block dev fs slot i ≡ ok md) z m.newest in
        let b = subst (λ i. read_meta_data_block dev fs slot (1 - i) ≡ ok m.old) z m.older in
        pair_lem _ _ md m.old d a b
        ∙ (elim m.step [
          | inl same ↦ most_recent_same md m.old (sym same.0)
          | inr next ↦ (most_recent_lem m.old md m.old_in next).1
        ])
        ∙ ap ok (sym z)
    | inr second ↦
        let z : m.idx ≡ 1 = ground (arith, m.in_pair) in
        let a = subst (λ i. read_meta_data_block dev fs slot (1 - i) ≡ ok m.old) z m.older in
        let b = subst (λ i. read_meta_data_block dev fs slot i ≡ ok md) z m.newest in
        pair_lem _ _ m.old md d a b
        ∙ (elim m.step [
          | inl same ↦ absurd (omega (arith, same.1, z))
          | inr next ↦ (most_recent_lem m.old md m.old_in next).0
        ])
        ∙ ap ok (sym z)
  ]

  -- `recent_md` finds the file's metadata.
  pub recent-Metas :
      (fs : SlotFs Store) (slot : ℕ) (md : MetaDataBlock)
      → Metas fs slot md
      → recent_md dev fs slot ≡ ok md
  unfolding recent_md chosen value_or is_ok
  recent-Metas fs slot md m =
      let a = read_meta_data_block dev fs slot 0 in
      let b = read_meta_data_block dev fs slot 1 in
      let pick : ℕ → Outcome MetaDataBlock =
        λ i. ok (if i == 0 then value_or zero_md a else value_or zero_md b) in
      let of_chosen : Outcome ℕ → Outcome MetaDataBlock =
        λ o. elim o [ err e ↦ err e | ok i ↦ pick i ] in
      ap of_chosen (chosen_lem fs slot md zero_md m) ∙ (elim (Bool-cases (m.idx == 0)) [
        | inl first ↦
            let z : m.idx ≡ 0 = ground arith in
            rw (first, subst (λ i. read_meta_data_block dev fs slot i ≡ ok md) z m.newest) refl
        | inr second ↦
            let z : m.idx ≡ 1 = ground (arith, m.in_pair) in
            rw (second, subst (λ i. read_meta_data_block dev fs slot i ≡ ok md) z m.newest) refl
      ])
