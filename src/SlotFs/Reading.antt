-- ===== src/SlotFs/Reading.antt =====
-- lib_slotfs/slotfs.cpp: what `sfs_file_read` gives of a file whose bytes are on the device.
use sensor_libs.Prelude.{
  ℕ, zero, suc, ◌+◌, ◌-◌, ◌*◌, ◌/◌, ◌%◌, ◌<◌, ◌≤◌, ◌≡◌, ◌⊎◌, inl, inr, refl, sym, ap, ap₂, subst,
  ◌∙◌, Bool, true, false, Option, none, some, List, [], ◌∷◌, ◌++◌, append_assoc, append-nil, length,
  take, drop, slice, blit, length-take, length-drop, drop-drop, length-blit, get_or, get_or-blit_in,
  get_or-take, get_or-drop, get_or-index, list_ext, Bool-cases, ◌==◌, ◌||◌, ltb, leb, if◌then◌else◌,
  min, arith, word64, add64, sub64,
}
use sensor_libs.SlotFs.State.{
  Mode, read, Result, success, success_eof, error_assert, error_read, Outcome, ok, err, BlockPage,
  capacity, page_size, available, File, BlockDevice, SlotFs, KeepsBytes,
}
use sensor_libs.SlotFs.Io.{
  Fetched, mode_is_read, page_block_address, load_page, read_loop, sfs_file_read,
}
use sensor_libs.SlotFs.Stored.{Place, IsPlace, page_of, address_lem}
pub mod Slices
pub mod Loop
pub mod Files

-- The page has the bytes around the cursor.
pub record Holds (file : File) (page : BlockPage) (content : List ℕ) : Type 0 where
  pub offset : page.offset ≡ file.file_cursor % 2048
  pub bytes :
      (i : ℕ)
      → i < 2048
      → file.file_cursor / 2048 * 2048 + i < length content
      → get_or page.bytes i 0 ≡ get_or content (file.file_cursor / 2048 * 2048 + i) 0

module _ {Store : Type 0} (dev : BlockDevice Store) (k : KeepsBytes dev) where
  -- A device whose reads do not fail.
  unfoldable pub Reads : Type 0
  Reads = (s : Store) (address size : ℕ) → (bytes : List ℕ) × (dev.read s address size ≡ some bytes)

  -- The bytes of a file that is read lie on the device, and its page is used up, empty, or has those
  -- around the cursor.
  pub record Reading (p : Place) (fs : SlotFs Store) (file : File) (page : BlockPage)
      (content : List ℕ) : Type 0 where
    pub small : p.last + 2048 < word64
    pub first : file.md.start_address ≡ p.first
    pub last : file.md.max_address ≡ p.last
    pub mode : file.mode ≡ read
    pub size : file.md.file_size ≡ length content
    pub fits : p.first + length content ≤ p.last
    pub within : file.file_cursor ≤ length content
    pub room : capacity page ≡ 2048
    pub on_device :
        (i : ℕ) → i < length content → k.byte_at fs.store (p.first + i) ≡ get_or content i 0
    pub page_at : (page.offset ≡ 0) ⊎ (page.offset ≡ 2048) ⊎ Holds file page content

  -- What `load_page` gives.
  pub record Loaded (file : File) (content : List ℕ) (o : Outcome BlockPage) : Type 0 where
    pub page : BlockPage
    pub returns : o ≡ ok page
    pub room : capacity page ≡ 2048
    pub holds : Holds file page content

  load_new :
      {p : Place} {fs : SlotFs Store} {file : File} {page : BlockPage} {content : List ℕ}
      → Reads
      → Reading p fs file page content
      → (available page == 0 || page_size page == 0) ≡ true
      → Loaded file content (load_page dev fs file page)
  unfolding load_page Reads
  load_new {p} {fs} {file} {page} {content} reads s e =
      let base = file.file_cursor / 2048 * 2048 in
      let got = reads fs.store (p.first + base) 2048 in
      let known = k.read_lem fs.store (p.first + base) 2048 got.0 got.1 in
      record {
        page = record { bytes = blit page.bytes 0 got.0; offset = file.file_cursor % 2048 };
        returns =
            rw
              (
                load_page,
                e,
                address_lem dev k p file page s.first s.last s.room
                    (omega (arith, s.within, s.fits)) s.small,
                s.room,
                got.1,
              )
              refl;
        room = length-blit page.bytes 0 got.0 ∙ s.room;
        holds = record {
          offset = refl;
          bytes = λ i l h.
              get_or-index (blit page.bytes 0 got.0) i (0 + i) 0 (omega arith)
              ∙ get_or-blit_in page.bytes 0 got.0 i 0 (omega (arith, known.0, s.room))
                  (omega (arith, l, known.0))
              ∙ known.1 i l
              ∙ ap (k.byte_at fs.store) (omega arith)
              ∙ s.on_device (base + i) h;
        };
      }

  pub load_page-Loaded :
      {p : Place} {fs : SlotFs Store} {file : File} {page : BlockPage} {content : List ℕ}
      → Reads
      → Reading p fs file page content
      → Loaded file content (load_page dev fs file page)
  unfolding load_page available page_size
  load_page-Loaded {p} {fs} {file} {page} {content} reads s =
      elim (Bool-cases (available page == 0 || page_size page == 0)) [
        | inl e ↦ load_new reads s e
        | inr e ↦ record {
          page = page;
          returns = rw (load_page, e) refl;
          room = s.room;
          holds = elim s.page_at [
            | inl empty ↦ absurd (ground (arith, empty))
            | inr (inl used) ↦ absurd (ground (arith, used, s.room))
            | inr (inr h) ↦ h
          ];
        }
      ]
