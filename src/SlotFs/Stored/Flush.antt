-- ===== src/SlotFs/Stored/Flush.antt =====
-- lib_slotfs/slotfs.cpp: `sfs_file_flush` puts the bytes of a file on the device.
use sensor_libs.Prelude.{
  ℕ, ◌+◌, ◌-◌, ◌*◌, ◌/◌, ◌<◌, ◌≤◌, ◌≡◌, inl, inr, refl, sym, ap, subst, ◌∙◌, List, length, get_or,
  Bool-cases, ltb, if◌then◌else◌, arith,
}
use sensor_libs.SlotFs.State.{
  Result, success, error_assert, BlockPage, page_size, File, BlockDevice, SlotFs, KeepsBytes,
}
use sensor_libs.SlotFs.Io.{mode_is_write, write_page, flush_meta, flush_page, sfs_file_flush}
use sensor_libs.SlotFs.Metas.{NeverFails, Metas}
use sensor_libs.SlotFs.Stored.{
  Place, IsPlace, page_of, flush_meta-Flushed, write_page_lem, write_page-Metas, flush_meta_keeps,
  Stored,
}

module _ {Store : Type 0} (dev : BlockDevice Store) (k : KeepsBytes dev) where
  -- What a flush leaves: the bytes are on the device, and the file goes on as before.
  pub record OnDevice (p : Place) (page : BlockPage) (content : List ℕ)
      (r : Result × SlotFs Store × File) : Type 0 where
    pub succeeds : r.0 ≡ success
    pub stored : Stored dev k p r.1 r.2 page content
    pub on_device :
        (i : ℕ) → i < length content → k.byte_at r.1.store (p.first + i) ≡ get_or content i 0
    pub sized : r.2.md.file_size ≡ length content

  -- The metadata are flushed after a store with the bytes.
  flush_meta-OnDevice :
      {p : Place} {fs : SlotFs Store} {file : File} {page : BlockPage} {content : List ℕ}
      (fs' : SlotFs Store)
      → NeverFails dev k
      → Stored dev k p fs file page content
      → fs'.config ≡ fs.config
      → Metas dev k fs' file.slot file.md
      → ((i : ℕ) → i < length content → k.byte_at fs'.store (p.first + i) ≡ get_or content i 0)
      → OnDevice p page content (flush_meta dev fs' file)
  flush_meta-OnDevice {p} {fs} {file} {page} {content} fs' w s same m there =
      let place' : IsPlace fs'.config p = subst (λ c. IsPlace c p) (sym same) s.place in
      let flushed = flush_meta-Flushed dev k p fs' file w place' s.slot in
      let metas =
        flush_meta_keeps dev k p fs' file w place' s.slot s.first s.last
          (omega (arith, s.cursor, s.fits)) m in
      let on_device = λ (i : ℕ) (l : i < length content).
        flushed.same.bytes (p.first + i) (omega arith) ∙ there i l in
      record {
        succeeds = metas.0;
        stored = record {
          place = subst (λ c. IsPlace c p) (sym flushed.same.config) place';
          metas = metas.1;
          slot = flushed.slot ∙ s.slot;
          first = flushed.first ∙ s.first;
          last = flushed.last ∙ s.last;
          mode = flushed.mode ∙ s.mode;
          paged = flushed.page ∙ s.paged;
          cursor = flushed.cursor ∙ s.cursor;
          room = s.room;
          offset = omega (arith, flushed.cursor, s.offset);
          fits = s.fits;
          kept = λ i l. on_device i (omega arith);
          held = s.held;
        };
        on_device = on_device;
        sized = flushed.size ∙ s.cursor;
      }

  flush_open :
      {p : Place} {fs : SlotFs Store} {file : File} {page : BlockPage} {content : List ℕ}
      → Stored dev k p fs file page content
      → sfs_file_flush dev fs file ≡ flush_page dev fs file page
  unfolding sfs_file_flush mode_is_write
  flush_open {p} {fs} {file} {page} {content} s =
      page_of (error_assert, fs, file)
        (λ q.
          if mode_is_write file.mode then flush_page dev fs file q else (error_assert, fs, file))
        file.block_page page s.paged
      ∙ ap (λ m. if mode_is_write m then flush_page dev fs file page else (error_assert, fs, file))
          s.mode

  -- A flush of a file that is open for writing, on a device that does not fail, puts all bytes written so far on
  -- the device, in order from the first address of the slot on, and the number of them into the file's size.
  pub flush-OnDevice :
      {p : Place} {fs : SlotFs Store} {file : File} {page : BlockPage} {content : List ℕ}
      → NeverFails dev k
      → Stored dev k p fs file page content
      → OnDevice p page content (sfs_file_flush dev fs file)
  unfolding flush_page page_size
  flush-OnDevice {p} {fs} {file} {page} {content} w s =
      let wrote =
        write_page_lem dev k p fs file page w s.place s.first s.last s.room
          (omega (arith, s.cursor, s.fits)) in
      let fs' = (write_page dev fs file page).1 in
      let metas =
        write_page-Metas dev k p fs file page w s.place s.slot s.first s.last s.room
          (omega (arith, s.cursor, s.fits)) s.metas in
      let base = file.file_cursor / 2048 * 2048 in
      let inside = λ (i : ℕ) (l : i < length content) (g : base ≤ i).
        let m = i - base in
        let at : p.first + i ≡ p.first + (base + m) = omega arith in
        ap (k.byte_at fs'.store) at
        ∙ wrote.3 m (omega (arith, l, s.cursor))
        ∙ s.held m i (omega (arith, l, s.cursor, s.offset)) (omega (arith, s.cursor, s.offset)) in
      subst (OnDevice p page content) (sym (flush_open s)) (elim (Bool-cases (ltb 0 page.offset)) [
        | inl some_bytes ↦
            rw (flush_page, some_bytes, wrote.0)
              (flush_meta-OnDevice fs' w s wrote.1 metas (λ i l. elim (Bool-cases (ltb i base)) [
                | inl low ↦
                    let below : i < base = ground arith in
                    wrote.2 i below ∙ s.kept i (omega (arith, below, s.cursor, s.offset))
                | inr high ↦ inside i l (ground arith)
              ]))
        | inr none_left ↦
            rw (flush_page, none_left)
              (flush_meta-OnDevice fs w s refl s.metas (λ i l. s.kept i (ground arith)))
      ])
