-- ===== src/SlotFs/Stored.antt =====
-- lib_slotfs/slotfs.cpp: the bytes of a file that is written, on the device and in its page.
use sensor_libs.Prelude.{
  ℕ, zero, suc, ◌+◌, ◌-◌, ◌*◌, ◌/◌, ◌%◌, ◌<◌, ◌≤◌, ◌≡◌, ◌≢◌, ◌⊎◌, inl, inr, refl, sym, ap, subst,
  ◌∙◌, Bool, true, false, Option, none, some, List, [], ◌∷◌, ◌++◌, append_assoc, append-nil, length,
  length-append, length-take, length-drop, length-blit, take, drop, blit, get_or,
  get_or-append_left, get_or-append_right, get_or-blit_below, get_or-blit_in, get_or-take,
  get_or-index, take-append-drop, Bool-cases, ◌==◌, ltb, leb, if◌then◌else◌, min, arith, word64,
  add64, sub64,
}
use sensor_libs.SlotFs.State.{
  Mode, write_create, Result, success, error_write, error_assert, Outcome, Outcome-cases, ok, err,
  Config, MetaDataBlock, BlockPage, capacity, page_size, available, clear_page, block_size, File,
  BlockDevice, SlotFs, KeepsBytes,
}
use sensor_libs.SlotFs.Meta.{
  device_write, read_meta_data_block, write_meta_data_block, most_recent_meta_data_block,
  meta_block_address, md_block,
}
use sensor_libs.SlotFs.Blocks.{length-md_block}
use sensor_libs.SlotFs.Io.{
  Written, is_ok, value_or, mode_is_write, page_block_address, write_page, flush_meta, flush_page,
  sfs_file_flush, commit_page, end_round, write_loop, sfs_file_write,
}
use sensor_libs.SlotFs.Metas.{NeverFails, Metas}
use sensor_libs.SlotFs.Metas.Writes.{flush_meta-Metas, device_write-Metas}
pub mod Rounds
pub mod Loop
pub mod Flush
pub mod Opened
pub mod Files

-- The slot of a file: the number, and the addresses of its data, behind its metadata blocks.
pub record Place : Type 0 where
  pub slot : ℕ
  pub first : ℕ
  pub last : ℕ

pub record IsPlace (c : Config) (p : Place) : Type 0 where
  pub behind : (idx : ℕ) → idx ≤ 1 → meta_block_address c p.slot idx + block_size ≤ p.first
  pub apart :
      (i j : ℕ)
      → i ≤ 1
      → j ≤ 1
      → i ≢ j
      → (meta_block_address c p.slot i + block_size ≤ meta_block_address c p.slot j)
        ⊎ (meta_block_address c p.slot j + block_size ≤ meta_block_address c p.slot i)
  pub small : p.last + 2048 < word64

-- The case for a page of an open file.
pub page_of :
    {A : Type 0} (closed : A) (go_on : BlockPage → A) (o : Option BlockPage) (q : BlockPage)
    → o ≡ some q
    → (elim o [ none ↦ closed | some page ↦ go_on page ]) ≡ go_on q
page_of closed go_on o q e = rw e refl

module _ {Store : Type 0} (dev : BlockDevice Store) (k : KeepsBytes dev) where
  -- A write changes its bytes and no others.
  pub device_write_lem :
      (fs : SlotFs Store) (address : ℕ) (bytes : List ℕ)
      → NeverFails dev k
      → let (rc, fs') = device_write dev fs address bytes in
        (rc ≡ success)
        × (fs'.config ≡ fs.config)
        × ((a : ℕ)
            → (a < address) ⊎ (address + length bytes ≤ a)
            → k.byte_at fs'.store a ≡ k.byte_at fs.store a)
        × ((i : ℕ) → i < length bytes → k.byte_at fs'.store (address + i) ≡ get_or bytes i 0)
  unfolding device_write NeverFails
  device_write_lem fs address bytes w =
      let done = ap (λ b. (b, (dev.write fs.store address bytes).1)) (w.0 fs.store address bytes) in
      (
        rw (w.0 fs.store address bytes) refl,
        refl,
        λ a h. k.write_outside fs.store _ address bytes a done h,
        λ i h. k.write_inside fs.store _ address bytes i done h,
      )

  -- The configuration and the data from the first address on stay.
  pub record Unchanged (p : Place) (fs fs' : SlotFs Store) : Type 0 where
    pub bytes : (a : ℕ) → p.first ≤ a → k.byte_at fs'.store a ≡ k.byte_at fs.store a
    pub config : fs'.config ≡ fs.config

  write_meta-Unchanged :
      (p : Place) (fs : SlotFs Store) (md : MetaDataBlock) (idx : ℕ)
      → NeverFails dev k
      → IsPlace fs.config p
      → idx ≤ 1
      → Unchanged p fs (write_meta_data_block dev fs p.slot md idx).1
  unfolding write_meta_data_block
  write_meta-Unchanged p fs md idx w v h =
      let small : ltb 2 idx ≡ false = ground arith in
      let wrote = device_write_lem fs (meta_block_address fs.config p.slot idx) (md_block md) w in
      rw (write_meta_data_block, small)
        (record {
          bytes = λ a l. wrote.2 a (inr (omega (arith, v.behind idx h, length-md_block md)));
          config = wrote.1;
        })

  -- A flush of the metadata leaves the data, and of the file all but the size and the revision.
  pub record Flushed (p : Place) (fs : SlotFs Store) (file : File)
      (r : Result × SlotFs Store × File) : Type 0 where
    pub same : Unchanged p fs r.1
    pub first : r.2.md.start_address ≡ file.md.start_address
    pub last : r.2.md.max_address ≡ file.md.max_address
    pub slot : r.2.slot ≡ file.slot
    pub mode : r.2.mode ≡ file.mode
    pub cursor : r.2.file_cursor ≡ file.file_cursor
    pub page : r.2.block_page ≡ file.block_page
    pub size : r.2.md.file_size ≡ file.file_cursor

  pub flush_meta-Flushed :
      (p : Place) (fs : SlotFs Store) (file : File)
      → NeverFails dev k
      → IsPlace fs.config p
      → file.slot ≡ p.slot
      → Flushed p fs file (flush_meta dev fs file)
  unfolding flush_meta
  flush_meta-Flushed p fs file w v at =
      let md' : MetaDataBlock = record file.md {
        file_size = file.file_cursor;
        revision = (file.md.revision + 1) % 256;
      } in
      let a = read_meta_data_block dev fs file.slot 0 in
      let b = read_meta_data_block dev fs file.slot 1 in
      let chosen =
        most_recent_meta_data_block (value_or md' a) (is_ok a) (value_or md' b) (is_ok b) in
      elim (Outcome-cases chosen) [
        | inl (e, failed) ↦
            rw (flush_meta, failed)
              (record {
                same = record { bytes = λ a h. refl; config = refl };
                first = refl;
                last = refl;
                slot = refl;
                mode = refl;
                cursor = refl;
                page = refl;
                size = refl;
              })
        | inr (idx, found) ↦
            rw (flush_meta, found)
              (record {
                same =
                    subst
                      (λ s. Unchanged p fs (write_meta_data_block dev fs s md' ((idx + 1) % 2)).1)
                      (sym at) (write_meta-Unchanged p fs md' ((idx + 1) % 2) w v (omega arith));
                first = refl;
                last = refl;
                slot = refl;
                mode = refl;
                cursor = refl;
                page = refl;
                size = refl;
              })
      ]

  -- The data on the device and in the page are the bytes written so far.
  pub record Stored (p : Place) (fs : SlotFs Store) (file : File) (page : BlockPage)
      (content : List ℕ) : Type 0 where
    pub place : IsPlace fs.config p
    pub metas : Metas dev k fs file.slot file.md
    pub slot : file.slot ≡ p.slot
    pub first : file.md.start_address ≡ p.first
    pub last : file.md.max_address ≡ p.last
    pub mode : file.mode ≡ write_create
    pub paged : file.block_page ≡ some page
    pub cursor : file.file_cursor ≡ length content
    pub room : capacity page ≡ 2048
    pub offset : page.offset ≡ file.file_cursor % 2048
    pub fits : p.first + length content ≤ p.last
    pub kept :
        (i : ℕ)
        → i + page.offset < length content
        → k.byte_at fs.store (p.first + i) ≡ get_or content i 0
    pub held :
        (i j : ℕ)
        → i < page.offset
        → j + page.offset ≡ length content + i
        → get_or page.bytes i 0 ≡ get_or content j 0

  pub address_lem :
      (p : Place) (file : File) (page : BlockPage)
      → file.md.start_address ≡ p.first
      → file.md.max_address ≡ p.last
      → capacity page ≡ 2048
      → p.first + file.file_cursor ≤ p.last
      → p.last + 2048 < word64
      → page_block_address file page
        ≡ ok (p.first + file.file_cursor / 2048 * 2048, file.file_cursor % 2048)
  unfolding page_block_address
  address_lem p file page first last room fits small =
      let inside : leb (add64 file.md.start_address file.file_cursor) file.md.max_address ≡ true =
        ground arith in
      rw (page_block_address, inside, room)
        (ap (λ a. ok (a, file.file_cursor % 2048)) (omega arith))

  -- A page that is filled goes to its place whole.
  pub write_page_lem :
      (p : Place) (fs : SlotFs Store) (file : File) (page : BlockPage)
      → NeverFails dev k
      → IsPlace fs.config p
      → file.md.start_address ≡ p.first
      → file.md.max_address ≡ p.last
      → capacity page ≡ 2048
      → p.first + file.file_cursor ≤ p.last
      → let (rc, fs') = write_page dev fs file page in
        let base = file.file_cursor / 2048 * 2048 in
        (rc ≡ success)
        × (fs'.config ≡ fs.config)
        × ((i : ℕ)
            → i < base
            → k.byte_at fs'.store (p.first + i) ≡ k.byte_at fs.store (p.first + i))
        × ((i : ℕ) → i < 2048 → k.byte_at fs'.store (p.first + (base + i)) ≡ get_or page.bytes i 0)
  unfolding write_page page_block_address
  write_page_lem p fs file page w v first last room fits =
      let base = file.file_cursor / 2048 * 2048 in
      let wrote = device_write_lem fs (p.first + base) page.bytes w in
      rw (write_page, address_lem p file page first last room fits v.small)
        (
          wrote.0,
          wrote.1,
          λ i h. wrote.2 (p.first + i) (inl (omega (arith, h))),
          λ i h.
              let place : p.first + (base + i) ≡ p.first + base + i = omega arith in
              ap (k.byte_at (device_write dev fs (p.first + base) page.bytes).1.store) place
              ∙ wrote.3 i (omega (arith, h, room)),
        )

  -- Pages and flushes keep the metadata blocks in order.
  pub write_page-Metas :
      (p : Place) (fs : SlotFs Store) (file : File) (page : BlockPage)
      → NeverFails dev k
      → IsPlace fs.config p
      → file.slot ≡ p.slot
      → file.md.start_address ≡ p.first
      → file.md.max_address ≡ p.last
      → capacity page ≡ 2048
      → p.first + file.file_cursor ≤ p.last
      → Metas dev k fs file.slot file.md
      → Metas dev k (write_page dev fs file page).1 file.slot file.md
  unfolding write_page
  write_page-Metas p fs file page w v at first last room fits m =
      rw (write_page, address_lem p file page first last room fits v.small)
        (device_write-Metas dev k fs file.slot file.md (p.first + file.file_cursor / 2048 * 2048)
          page.bytes w
          (λ i l. omega (
            arith,
            subst (λ s. meta_block_address fs.config s i + block_size ≤ p.first) (sym at)
                (v.behind i l),
          ))
          m)

  pub flush_meta_keeps :
      (p : Place) (fs : SlotFs Store) (file : File)
      → NeverFails dev k
      → IsPlace fs.config p
      → file.slot ≡ p.slot
      → file.md.start_address ≡ p.first
      → file.md.max_address ≡ p.last
      → p.first + file.file_cursor ≤ p.last
      → Metas dev k fs file.slot file.md
      → let (rc, fs', file') = flush_meta dev fs file in
        (rc ≡ success) × Metas dev k fs' file'.slot file'.md
  flush_meta_keeps p fs file w v at first last fits m =
      flush_meta-Metas dev k fs file w
        (record {
          start_in = omega (arith, first, fits, v.small);
          max_in = omega (arith, last, v.small);
          size_in = omega (arith, fits, v.small);
          revision_in = omega arith;
        })
        (subst
          (λ s.
            (i j : ℕ)
            → i ≤ 1
            → j ≤ 1
            → i ≢ j
            → (meta_block_address fs.config s i + block_size ≤ meta_block_address fs.config s j)
              ⊎ (meta_block_address fs.config s j + block_size ≤ meta_block_address fs.config s i))
          (sym at) v.apart)
        m
