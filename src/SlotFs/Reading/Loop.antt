-- ===== src/SlotFs/Reading/Loop.antt =====
-- lib_slotfs/slotfs.cpp: the loop of `sfs_file_read`.
use sensor_libs.Prelude.{
  ℕ, zero, suc, ◌+◌, ◌-◌, ◌/◌, ◌<◌, ◌≤◌, ◌≡◌, inl, inr, refl, sym, ap, ap₂, subst, ◌∙◌, false,
  Option, some, List, [], ◌++◌, append_assoc, append-nil, length, slice, get_or-index, Bool-cases,
  ◌==◌, leb, if◌then◌else◌, min, arith, add64, sub64,
}
use sensor_libs.SlotFs.State.{
  success, success_eof, error_assert, ok, BlockPage, capacity, page_size, File, BlockDevice, SlotFs,
  KeepsBytes,
}
use sensor_libs.SlotFs.Io.{Fetched, mode_is_read, load_page, read_loop, sfs_file_read}
use sensor_libs.SlotFs.Stored.{Place, page_of}
use sensor_libs.SlotFs.Reading.{Reads, Holds, Reading, load_page-Loaded}
use sensor_libs.SlotFs.Reading.Slices.{slice_plus, copied}

module _ {Store : Type 0} (dev : BlockDevice Store) (k : KeepsBytes dev) where
  -- What a read of `n` bytes at the file's cursor gives: those bytes, or where the file ends before, those up to
  -- its end and the code for that.
  pub record ReadsOn (p : Place) (content : List ℕ) (fs : SlotFs Store) (cursor n : ℕ)
      (out : List ℕ) (o : Option (Fetched dev)) : Type 0 where
    pub after : Fetched dev
    pub page : BlockPage
    pub returns : o ≡ some after
    pub code : after.code ≡ (if leb n (length content - cursor) then success else success_eof)
    pub bytes : after.bytes_read ≡ out ++ slice content cursor (min n (length content - cursor))
    pub cursor_after : after.file.file_cursor ≡ cursor + min n (length content - cursor)
    pub paged : after.file.block_page ≡ some page
    pub reading : Reading dev k p fs after.file page content

  -- The file with its page has the same bytes.
  with_page :
      {p : Place} {fs : SlotFs Store} {file : File} {page : BlockPage} {content : List ℕ}
      → Reading dev k p fs file page content
      → Reading dev k p fs (record file { block_page = some page }) page content
  with_page s = record {
    small = s.small;
    first = s.first;
    last = s.last;
    mode = s.mode;
    size = s.size;
    fits = s.fits;
    within = s.within;
    room = s.room;
    on_device = s.on_device;
    page_at = elim s.page_at [
      | inl empty ↦ inl empty
      | inr (inl used) ↦ inr (inl used)
      | inr (inr h) ↦ inr (inr (record { offset = h.offset; bytes = h.bytes }))
    ];
  }

  -- The next round's file and page.
  move_on :
      {p : Place} {fs : SlotFs Store} {file : File} {page loaded : BlockPage} {content : List ℕ}
      (n : ℕ)
      → Reading dev k p fs file page content
      → Holds file loaded content
      → capacity loaded ≡ 2048
      → 0 < n
      → loaded.offset + n ≤ 2048
      → file.file_cursor + n ≤ length content
      → Reading dev k p fs
          (record file { file_cursor = add64 file.file_cursor n })
          (record loaded { offset = loaded.offset + n })
          content
  move_on {p} {fs} {file} {page} {loaded} {content} n s h room some_byte inside fits =
      let cursor : add64 file.file_cursor n ≡ file.file_cursor + n =
        omega (arith, s.fits, s.small, fits) in
      record {
        small = s.small;
        first = s.first;
        last = s.last;
        mode = s.mode;
        size = s.size;
        fits = s.fits;
        within = omega (arith, cursor, fits);
        room = room;
        on_device = s.on_device;
        page_at = elim (Bool-cases (loaded.offset + n == 2048)) [
          | inl full ↦ inr (inl (ground (arith, full)))
          | inr more ↦
              let short : loaded.offset + n < 2048 = ground (arith, more, inside) in
              let same : add64 file.file_cursor n / 2048 ≡ file.file_cursor / 2048 =
                omega (arith, cursor, short, h.offset) in
              inr (
                inr (record {
                  offset = omega (arith, cursor, short, h.offset);
                  bytes = λ i l g.
                      h.bytes i l (omega (arith, same, g))
                      ∙ get_or-index content _ _ 0 (omega (arith, same));
                }))
        ];
      }

  no_bytes : (content out : List ℕ) (cursor n : ℕ) → n ≡ 0 → out ≡ out ++ slice content cursor n
  no_bytes content out cursor n e =
      sym (append-nil out) ∙ ap (λ i. out ++ slice content cursor i) (sym e)

  -- One round of the loop.
  read_round :
      (fuel : ℕ) (fs : SlotFs Store) (file : File) (page loaded : BlockPage) (size n : ℕ)
      (out : List ℕ)
      → leb file.md.file_size file.file_cursor ≡ false
      → load_page dev fs file page ≡ ok loaded
      → min
          (sub64 (capacity loaded) (page_size loaded))
          (min (suc size) (sub64 file.md.file_size file.file_cursor))
        ≡ n
      → read_loop dev (suc fuel) fs file page (suc size) out
        ≡ read_loop dev fuel fs
            (record file { file_cursor = add64 file.file_cursor n })
            (record loaded { offset = loaded.offset + n })
            (suc size - n)
            (out ++ slice loaded.bytes loaded.offset n)
  unfolding read_loop
  read_round fuel fs file page loaded size n out more l e = rw (read_loop, more, l, e) refl

  -- A read is a round and the read of what is left.
  after_round :
      {p : Place} {content : List ℕ} {fs : SlotFs Store} {o o' : Option (Fetched dev)}
      (cursor cursor' size n : ℕ) (chunk out : List ℕ)
      → cursor' ≡ cursor + n
      → n ≤ size
      → cursor + n ≤ length content
      → chunk ≡ slice content cursor n
      → o ≡ o'
      → ReadsOn p content fs cursor' (size - n) (out ++ chunk) o'
      → ReadsOn p content fs cursor size out o
  after_round {p} {content} {fs} cursor cursor' size n chunk out e h fits bytes round rest =
      let m = min (size - n) (length content - cursor') in
      let total : n + m ≡ min size (length content - cursor) = omega (arith, e, h, fits) in
      record {
        after = rest.after;
        page = rest.page;
        returns = round ∙ rest.returns;
        code = rest.code ∙ ground (arith, e, h, fits);
        bytes =
            rest.bytes
            ∙ append_assoc out chunk (slice content cursor' m)
            ∙ ap (◌++◌ out) (
                ap₂ (λ (xs : List ℕ) (c : ℕ). xs ++ slice content c m) bytes e
                ∙ slice_plus content cursor n m
                ∙ ap (slice content cursor) total);
        cursor_after = omega (arith, rest.cursor_after, e, h, fits);
        paged = rest.paged;
        reading = rest.reading;
      }

  read_loop-ReadsOn :
      (fuel : ℕ) {p : Place} {fs : SlotFs Store} {file : File} {page : BlockPage} {content : List ℕ}
      (size : ℕ) (out : List ℕ)
      → Reads dev k
      → Reading dev k p fs file page content
      → size ≤ fuel
      → ReadsOn p content fs file.file_cursor size out (read_loop dev fuel fs file page size out)
  unfolding read_loop page_size
  read_loop-ReadsOn fuel {p} {fs} {file} {page} {content} zero out reads s enough = record {
    after = record {
      code = success;
      file = record file { block_page = some page };
      bytes_read = out;
    };
    page = page;
    returns = refl;
    code = ground arith;
    bytes = no_bytes content out file.file_cursor _ (omega arith);
    cursor_after = omega arith;
    paged = refl;
    reading = with_page s;
  }
  read_loop-ReadsOn zero (suc size) out reads s enough = absurd (omega arith)
  read_loop-ReadsOn (suc fuel) {p} {fs} {file} {page} {content} (suc size) out reads s enough =
      elim (Bool-cases (leb file.md.file_size file.file_cursor)) [
        | inl at_end ↦
            let left : length content - file.file_cursor ≡ 0 = ground (arith, at_end, s.size) in
            record {
              after = record {
                code = success_eof;
                file = record file { block_page = some page };
                bytes_read = out;
              };
              page = page;
              returns = rw (read_loop, at_end) refl;
              code = ground (arith, left);
              bytes = no_bytes content out file.file_cursor _ (omega (arith, left));
              cursor_after = omega (arith, left);
              paged = refl;
              reading = with_page s;
            }
        | inr more ↦
            let l = load_page-Loaded dev k reads s in
            let left : file.file_cursor < length content = ground (arith, more, s.size) in
            let n =
              min (sub64 (capacity l.page) (page_size l.page))
                (min (suc size) (sub64 file.md.file_size file.file_cursor)) in
            let taken : n
                ≡ min (2048 - l.page.offset) (min (suc size) (length content - file.file_cursor)) =
              omega (arith, l.room, l.holds.offset, s.size, left, s.fits, s.small) in
            let step =
              move_on n s l.holds l.room (omega (arith, taken, l.holds.offset, left))
                (omega (arith, taken, l.holds.offset)) (omega (arith, taken, left)) in
            let rest =
              read_loop-ReadsOn fuel (suc size - n) (out ++ slice l.page.bytes l.page.offset n)
                reads step (omega (arith, taken, l.holds.offset, left)) in
            after_round file.file_cursor _ (suc size) n (slice l.page.bytes l.page.offset n) out
              (omega (arith, s.fits, s.small, taken)) (omega (arith, taken))
              (omega (arith, taken, left))
              (copied n l.holds l.room (omega (arith, taken, l.holds.offset))
                (omega (arith, taken, left)))
              (read_round fuel fs file page l.page size n out more l.returns refl) rest
      ]

  -- On a device whose reads do not fail and that keeps its bytes, for a file that is open for reading, whose bytes
  -- are on the device from its start address on and end at most at its maximal address, which is more than a page
  -- below 2 ^ 64, with the cursor within the file, and a page of 2048 bytes that is empty, used up, or holds the
  -- bytes around the cursor: `sfs_file_read` of `n` bytes returns, with the `n` bytes from the cursor on and success,
  -- or, if the file ends before, with those up to its end and `success_eof`. The cursor is behind them, and the file
  -- is again such a file.
  pub read-ReadsOn :
      {p : Place} {fs : SlotFs Store} {file : File} {page : BlockPage} {content : List ℕ} (n : ℕ)
      → Reads dev k
      → Reading dev k p fs file page content
      → file.block_page ≡ some page
      → ReadsOn p content fs file.file_cursor n [] (sfs_file_read dev fs file n)
  unfolding sfs_file_read mode_is_read
  read-ReadsOn {p} {fs} {file} {page} {content} n reads s paged =
      let closed : Fetched dev = record { code = error_assert; file = file; bytes_read = [] } in
      let opened : sfs_file_read dev fs file n ≡ read_loop dev n fs file page n [] =
        page_of (some closed)
          (λ q. if mode_is_read file.mode then read_loop dev n fs file q n [] else some closed)
          file.block_page page paged
        ∙ ap (λ m. if mode_is_read m then read_loop dev n fs file page n [] else some closed)
            s.mode in
      subst (ReadsOn p content fs file.file_cursor n []) (sym opened)
        (read_loop-ReadsOn n n [] reads s (omega arith))
