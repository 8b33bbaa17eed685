-- ===== src/SlotFs/Stored/Rounds.antt =====
-- lib_slotfs/slotfs.cpp: a round of the loop of `sfs_file_write`.
use sensor_libs.Prelude.{
  ℕ, ◌+◌, ◌-◌, ◌*◌, ◌/◌, ◌<◌, ◌≤◌, ◌≡◌, inl, inr, refl, sym, ap, subst, ◌∙◌, true, some, List, ◌++◌,
  length, length-append, length-blit, blit, get_or, get_or-append_left, get_or-append_right,
  get_or-blit_below, get_or-blit_in, get_or-index, Bool-cases, ◌==◌, ltb, arith, add64,
}
use sensor_libs.SlotFs.State.{
  write_create, Result, success, BlockPage, page_size, available, clear_page, File, BlockDevice,
  SlotFs, KeepsBytes,
}
use sensor_libs.SlotFs.Io.{
  mode_is_write, write_page, flush_meta, flush_page, sfs_file_flush, commit_page,
}
use sensor_libs.SlotFs.Metas.{NeverFails}
use sensor_libs.SlotFs.Stored.{
  Place, IsPlace, flush_meta-Flushed, write_page_lem, write_page-Metas, flush_meta_keeps, Stored,
}

module _ {Store : Type 0} (dev : BlockDevice Store) (k : KeepsBytes dev) where
  -- The page after a round of the loop that takes `chunk`.
  abbrev pub filled : BlockPage → List ℕ → BlockPage
  filled page chunk = record page {
    bytes = blit page.bytes page.offset chunk;
    offset = page.offset + length chunk;
  }

  filled_lem :
      {p : Place} {fs : SlotFs Store} {file : File} {page : BlockPage} {content : List ℕ}
      (chunk : List ℕ)
      → Stored dev k p fs file page content
      → page.offset + length chunk ≤ 2048
      → (i j : ℕ) → i < page.offset + length chunk
      → j + page.offset ≡ length content + i
      → get_or (filled page chunk).bytes i 0 ≡ get_or (content ++ chunk) j 0
  filled_lem {p} {fs} {file} {page} {content} chunk s h i j l e =
      elim (Bool-cases (ltb i page.offset)) [
        | inl low ↦
            let below : i < page.offset = ground arith in
            get_or-blit_below page.bytes page.offset chunk i 0 below
            ∙ s.held i j below e
            ∙ sym (get_or-append_left content chunk j 0 (omega arith))
        | inr high ↦
            let above : page.offset ≤ i = ground arith in
            let m = i - page.offset in
            get_or-index (filled page chunk).bytes i (page.offset + m) 0 (omega arith)
            ∙ get_or-blit_in page.bytes page.offset chunk m 0 (omega (arith, s.room)) (omega arith)
            ∙ sym (get_or-append_right content chunk m 0)
            ∙ get_or-index (content ++ chunk) (length content + m) j 0 (omega arith)
      ]

  -- A round that does not fill the page.
  stays-Stored :
      {p : Place} {fs : SlotFs Store} {file : File} {page : BlockPage} {content : List ℕ}
      (chunk : List ℕ)
      → Stored dev k p fs file page content
      → page.offset + length chunk < 2048
      → p.first + (length content + length chunk) ≤ p.last
      → Stored dev k p fs
          (record file {
            file_cursor = add64 file.file_cursor (length chunk);
            block_page = some (filled page chunk);
          })
          (filled page chunk)
          (content ++ chunk)
  stays-Stored {p} {fs} {file} {page} {content} chunk s h room =
      let len = length-append content chunk in
      record {
        place = s.place;
        metas = s.metas;
        slot = s.slot;
        first = s.first;
        last = s.last;
        mode = s.mode;
        paged = refl;
        cursor = omega (arith, s.cursor, len, s.place.small);
        room = length-blit page.bytes page.offset chunk ∙ s.room;
        offset = omega (arith, s.cursor, s.offset, s.place.small);
        fits = omega (arith, len);
        kept = λ i l.
            s.kept i (omega (arith, l, len))
            ∙ sym (get_or-append_left content chunk i 0 (omega (arith, l, len)));
        held = λ i j l e. filled_lem chunk s (omega arith) i j l (omega (arith, e, len));
      }

  -- A flush with an empty page writes the metadata only.
  flush_empty :
      (fs : SlotFs Store) (file : File) (page : BlockPage)
      → file.mode ≡ write_create
      → let file' = record file { block_page = some (clear_page page) } in
        sfs_file_flush dev fs file' ≡ flush_meta dev fs file'
  unfolding sfs_file_flush mode_is_write flush_page clear_page page_size
  flush_empty fs file page mode = rw (sfs_file_flush, mode) refl

  -- What `commit_page` leaves for the next round.
  pub record Advances (p : Place) (n : ℕ) (content : List ℕ) (r : Result × SlotFs Store × File)
      : Type 0 where
    pub succeeds : r.0 ≡ success
    pub next : BlockPage
    pub has_page : r.2.block_page ≡ some next
    pub stored :
        Stored dev k p r.1 (record r.2 { file_cursor = add64 r.2.file_cursor n }) next content

  full-Advances :
      {p : Place} {fs : SlotFs Store} {file : File} {page : BlockPage} {content : List ℕ}
      (chunk : List ℕ)
      → NeverFails dev k
      → Stored dev k p fs file page content
      → page.offset + length chunk ≡ 2048
      → 0 < length chunk
      → p.first + (length content + length chunk) ≤ p.last
      → Advances p (length chunk) (content ++ chunk) (commit_page dev fs file (filled page chunk))
  unfolding commit_page clear_page available
  full-Advances {p} {fs} {file} {page} {content} chunk w s h some_bytes room =
      let page' = filled page chunk in
      let size : length page'.bytes ≡ 2048 = length-blit page.bytes page.offset chunk ∙ s.room in
      let full : (available page' == 0) ≡ true = ground (arith, size) in
      let wrote =
        write_page_lem dev k p fs file page' w s.place s.first s.last size
          (omega (arith, s.cursor)) in
      let fs' = (write_page dev fs file page').1 in
      let file' = record file { block_page = some (clear_page page') } in
      let place' : IsPlace fs'.config p = subst (λ c. IsPlace c p) (sym wrote.1) s.place in
      let flushed = flush_meta-Flushed dev k p fs' file' w place' s.slot in
      let r = flush_meta dev fs' file' in
      let committed : commit_page dev fs file page' ≡ (success, r.1, r.2) =
        rw (commit_page, full, wrote.0, flush_empty fs' file page' s.mode) refl in
      let metas =
        flush_meta_keeps dev k p fs' file' w place' s.slot s.first s.last
          (omega (arith, s.cursor, s.fits))
          (write_page-Metas dev k p fs file page' w s.place s.slot s.first s.last size
            (omega (arith, s.cursor, s.fits)) s.metas) in
      let len = length-append content chunk in
      let base = file.file_cursor / 2048 * 2048 in
      let below = λ (i : ℕ) (l : i < base).
        flushed.same.bytes (p.first + i) (omega arith)
        ∙ wrote.2 i l
        ∙ s.kept i (omega (arith, s.cursor, s.offset))
        ∙ sym (get_or-append_left content chunk i 0 (omega (arith, s.cursor))) in
      let inside = λ (i : ℕ) (l : i < length (content ++ chunk)) (g : base ≤ i).
        let m = i - base in
        let at : p.first + i ≡ p.first + (base + m) = omega arith in
        flushed.same.bytes (p.first + i) (omega arith)
        ∙ ap (k.byte_at fs'.store) at
        ∙ wrote.3 m (omega (arith, s.cursor, s.offset, h, l, len))
        ∙ filled_lem chunk s (omega (arith, h)) m i (omega (arith, s.cursor, s.offset, h, l, len))
            (omega (arith, s.cursor, s.offset)) in
      subst (Advances p (length chunk) (content ++ chunk)) (sym committed) (record {
        succeeds = refl;
        next = clear_page page';
        has_page = flushed.page;
        stored = record {
          place = subst (λ c. IsPlace c p) (sym flushed.same.config) place';
          metas = metas.1;
          slot = flushed.slot ∙ s.slot;
          first = flushed.first ∙ s.first;
          last = flushed.last ∙ s.last;
          mode = flushed.mode ∙ s.mode;
          paged = flushed.page;
          cursor = omega (arith, flushed.cursor, s.cursor, len, s.place.small);
          room = size;
          offset = omega (arith, flushed.cursor, s.cursor, s.offset, h, s.place.small);
          fits = omega (arith, len);
          kept = λ i l. elim (Bool-cases (ltb i base)) [
            | inl low ↦ below i (ground arith)
            | inr high ↦ inside i (omega (arith, l)) (ground arith)
          ];
          held = λ i j l e. absurd (omega (arith, l));
        };
      })

  -- A round of the loop, for a chunk that fits the page.
  pub commit-Advances :
      {p : Place} {fs : SlotFs Store} {file : File} {page : BlockPage} {content : List ℕ}
      (chunk : List ℕ)
      → NeverFails dev k
      → Stored dev k p fs file page content
      → page.offset + length chunk ≤ 2048
      → 0 < length chunk
      → p.first + (length content + length chunk) ≤ p.last
      → Advances p (length chunk) (content ++ chunk) (commit_page dev fs file (filled page chunk))
  unfolding commit_page available
  commit-Advances {p} {fs} {file} {page} {content} chunk w s h some_bytes room =
      let page' = filled page chunk in
      let size : length page'.bytes ≡ 2048 = length-blit page.bytes page.offset chunk ∙ s.room in
      elim (Bool-cases (available page' == 0)) [
        | inl full ↦ full-Advances chunk w s (ground (arith, size)) some_bytes room
        | inr more ↦
            let committed : commit_page dev fs file page'
                ≡ (success, fs, record file { block_page = some page' }) =
              rw (commit_page, more) refl in
            subst (Advances p (length chunk) (content ++ chunk)) (sym committed) (record {
              succeeds = refl;
              next = page';
              has_page = refl;
              stored = stays-Stored chunk s (ground (arith, size)) room;
            })
      ]
