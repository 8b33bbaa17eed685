-- ===== src/SlotFs/Loops.antt =====
-- lib_slotfs/slotfs.cpp: the loops of `sfs_file_write` and `sfs_file_read` end.
use sensor_libs.Prelude.{
  ℕ, zero, suc, ◌+◌, ◌-◌, ◌*◌, ◌/◌, ◌<◌, ◌≤◌, ◌≡◌, ◌≢◌, refl, Option, some, List, [], ◌∷◌, ◌++◌,
  length, take, drop, slice, blit, length-drop, length-blit, ◌==◌, arith, min, if◌then◌else◌, false,
  word64, ltb, leb, inl, inr, Bool-cases, Option-cases, sub64, add64,
}
use sensor_libs.SlotFs.State.{
  Result, success, error_write, aborted, error_assert, success_eof, Outcome-cases, ok, BlockPage,
  capacity, available, page_size, File, BlockDevice, SlotFs,
}
use sensor_libs.SlotFs.Positions.{IsInside, KeepsPosition, commit_page-position, load_page-ends}
use sensor_libs.SlotFs.Io.{
  Written, Fetched, flush_meta, flush_page, sfs_file_flush, commit_page, write_page, write_loop,
  end_round, sfs_file_write, load_page, read_loop, sfs_file_read, mode_is_read,
}

-- A page whose offset lies in its bytes.
pub record IsPage (p : BlockPage) : Type 0 where
  pub room : 0 < capacity p
  pub within : p.offset ≤ capacity p
  pub small : capacity p < word64

available_lem : (p : BlockPage) → IsPage p → available p ≡ capacity p - p.offset
unfolding available
available_lem p v = omega (arith, v)

module _ {Store : Type 0} (dev : BlockDevice Store) where
  -- A flush leaves the page as it is.
  flush_meta-page :
      (fs : SlotFs Store) (file : File) → (flush_meta dev fs file).2.block_page ≡ file.block_page
  unfolding flush_meta
  flush_meta-page fs file = ground arith

  flush-page :
      (fs : SlotFs Store) (file : File)
      → (sfs_file_flush dev fs file).2.block_page ≡ file.block_page
  unfolding sfs_file_flush flush_page
  flush-page fs file = ground arith

  commit_page_lem :
      (fs : SlotFs Store) (file : File) (p : BlockPage)
      → IsPage p
      → (commit_page dev fs file p).0 ≡ success
      → (q : BlockPage) × ((commit_page dev fs file p).2.block_page ≡ some q)
        × (IsPage q × (available q ≢ 0))
  unfolding commit_page
  commit_page_lem fs file p v h = elim (Bool-cases (available p == 0)) [
    | inl e ↦ (
      record p { offset = 0 },
      ground (
        arith,
        flush-page (write_page dev fs file p).1
            (record file { block_page = some (record p { offset = 0 }) }),
      ),
      (ground arith, λ z. omega (arith, z, v)),
    )
    | inr e ↦ (p, ground arith, (v, λ z. ground arith))
  ]

  end_round_total :
      (Q : File → BlockPage → Type 0)
      (go_on : SlotFs Store → File → BlockPage → Option (Written dev))
      (r : Result × SlotFs Store × File) (n written : ℕ)
      → r.0 ≢ aborted
      → (r.0 ≡ success
          → (q : BlockPage) × (r.2.block_page ≡ some q)
            × Q (record r.2 { file_cursor = add64 r.2.file_cursor n }) q)
      → ((fs : SlotFs Store) (file : File) (q : BlockPage)
          → Q file q
          → (w : Written dev) × (go_on fs file q ≡ some w) × (w.code ≢ aborted))
      → (w : Written dev) × (end_round dev go_on r n written ≡ some w) × (w.code ≢ aborted)
  unfolding end_round
  end_round_total Q go_on (success, fs, file) n written ends good go =
      let (q, e, holds) = good refl in
      let (w, h, g) = go fs (record file { file_cursor = add64 file.file_cursor n }) q holds in
      (w, ground (arith, e, h), g)
  end_round_total Q go_on (_, fs, file) n written ends good go = (_, refl, ends)

  -- One round left over is for a page that is full at the start.
  write_loop_total :
      (fuel : ℕ) (fs : SlotFs Store) (file : File) (p : BlockPage) (bytes : List ℕ) (written : ℕ)
      → IsPage p
      → IsInside file
      → length bytes + (if available p == 0 then 1 else 0) ≤ fuel
      → (w : Written dev) × (write_loop dev fuel fs file p bytes written ≡ some w)
        × (w.code ≢ aborted)
  unfolding write_loop
  write_loop_total fuel fs file p [] written v i h = (_, refl, λ z. cc)
  write_loop_total zero fs file p (x ∷ xs) written v i h = absurd (omega arith)
  write_loop_total (suc fuel) fs file p (x ∷ xs) written v i h =
      elim (Bool-cases
        (ltb (sub64 (sub64 file.md.max_address file.md.start_address) file.file_cursor) n0)) [
          | inl e ↦ (
            record { code = error_write; fs = fs; file = file; bytes_written = written },
            rw e,
            λ z. cc,
          )
          | inr e ↦
              let kept = commit_page-position dev fs file p' i in
              rw e (
                end_round_total (λ f q. (IsPage q × (available q ≢ 0)) × IsInside f) _
                  (commit_page dev fs file p') n written kept.0
                  (λ z.
                    let (q, has, good) = commit_page_lem fs file p' v' z in
                    (q, has, (good, moved e (kept.1 z))))
                  (λ fs' file' q g.
                    write_loop_total fuel fs' file' q (drop n (x ∷ xs)) (written + n) g.0.0 g.1
                      (shorter q g.0.1)))
        ]
    where
      n0 : ℕ
      n0 = length (x ∷ xs)

      n : ℕ
      n = min n0 (available p)

      p' : BlockPage
      p' = record p { bytes = blit p.bytes p.offset (take n (x ∷ xs)); offset = p.offset + n }

      v' : IsPage p'
      v' = ground (arith, length-blit p.bytes p.offset (take n (x ∷ xs)), available_lem p v)

      moved :
          {after : File}
          → ltb (sub64 (sub64 file.md.max_address file.md.start_address) file.file_cursor) n0
            ≡ false
          → KeepsPosition file after
          → IsInside (record after { file_cursor = add64 after.file_cursor n })
      moved {after} e k = record { inside = ground (arith, i, k, e); words = omega (arith, i, k) }

      shorter :
          (q : BlockPage)
          → available q ≢ 0
          → length (drop n (x ∷ xs)) + (if available q == 0 then 1 else 0) ≤ fuel
      shorter q ne = ground (arith, length-drop n (x ∷ xs))

  -- For every device, also one that fails, and every file whose page is sound, or that is not open, and whose
  -- position lies in its slot, with addresses that are words: `sfs_file_write` ends, with `length bytes + 1` rounds
  -- of its loop at most, and no `assert` fails, so that it returns.
  pub write_total :
      (fs : SlotFs Store) (file : File) (bytes : List ℕ)
      → ((p : BlockPage) → file.block_page ≡ some p → IsPage p)
      → IsInside file
      → (w : Written dev) × (sfs_file_write dev fs file bytes ≡ some w) × (w.code ≢ aborted)
  unfolding sfs_file_write
  write_total fs file bytes v i = elim (Option-cases file.block_page) [
    | inl e ↦ (
      record { code = error_assert; fs = fs; file = file; bytes_written = 0 },
      ground (arith, e),
      λ z. cc,
    )
    | inr (p, e) ↦
        let (w, h, g) =
          write_loop_total (length bytes + 1) fs file p bytes 0 (v p e) i (ground arith) in
        (w, ground (arith, e, h), g)
  ]

  -- A page that `load_page` gives has bytes left to copy.
  load_page_lem :
      (fs : SlotFs Store) (file : File) (p q : BlockPage)
      → IsPage p
      → load_page dev fs file p ≡ ok q
      → IsPage q × (q.offset < capacity q) × (capacity q ≡ capacity p)
  unfolding load_page
  load_page_lem fs file p q v h =
      elim (Option-cases (
        dev.read fs.store (add64 file.md.start_address (file.file_cursor / capacity p * capacity p))
          (capacity p))) [
            | inl e ↦ ground (arith, e)
            | inr (b, e) ↦ ground (arith, e, length-blit p.bytes 0 b)
          ]

  read_loop_total :
      (fuel : ℕ) (fs : SlotFs Store) (file : File) (p : BlockPage) (size : ℕ) (out : List ℕ)
      → IsPage p
      → file.md.start_address + file.md.file_size ≤ file.md.max_address
      → file.md.max_address < word64
      → size ≤ fuel
      → (r : Fetched dev) × (read_loop dev fuel fs file p size out ≡ some r) × (r.code ≢ aborted)
  unfolding read_loop page_size
  read_loop_total fuel fs file p zero out v h words l = (_, refl, λ z. cc)
  read_loop_total zero fs file p (suc size) out v h words l = absurd (omega arith)
  read_loop_total (suc fuel) fs file p (suc size) out v h words l =
      elim (Bool-cases (leb file.md.file_size file.file_cursor)) [
        | inl e ↦ (
          record {
            code = success_eof;
            file = record file { block_page = some p };
            bytes_read = out;
          },
          rw e,
          λ z. cc,
        )
        | inr e ↦
            let here : IsInside file = record { inside = ground (arith, e, h); words = words } in
            rw e (elim (Outcome-cases (load_page dev fs file p)) [
              | inl (c, f) ↦ (
                record { code = c; file = record file { block_page = some p }; bytes_read = out },
                rw f,
                load_page-ends dev fs file p c here f,
              )
              | inr (q, f) ↦ rw f (
                  read_loop_total fuel fs
                    (record file { file_cursor = add64 file.file_cursor (taken q) })
                    (record q { offset = q.offset + taken q }) (suc size - taken q)
                    (out ++ slice q.bytes q.offset (taken q))
                    (ground (arith, load_page_lem fs file p q v f)) h words
                    (ground (arith, load_page_lem fs file p q v f)))
            ])
      ]
    where
      taken : BlockPage → ℕ
      taken q =
          min (sub64 (capacity q) (page_size q))
            (min (suc size) (sub64 file.md.file_size file.file_cursor))

  -- For every device, also one that fails, and every file whose page is sound, or that is not open, and whose bytes
  -- lie in its slot, with addresses that are words: `sfs_file_read` ends, with as many rounds of its loop at most as
  -- bytes are asked for, and no `assert` fails, so that it returns.
  pub read_total :
      (fs : SlotFs Store) (file : File) (size : ℕ)
      → ((p : BlockPage) → file.block_page ≡ some p → IsPage p)
      → file.md.start_address + file.md.file_size ≤ file.md.max_address
      → file.md.max_address < word64
      → (r : Fetched dev) × (sfs_file_read dev fs file size ≡ some r) × (r.code ≢ aborted)
  unfolding sfs_file_read
  read_total fs file size v h words = elim (Option-cases file.block_page) [
    | inl e ↦
        (record { code = error_assert; file = file; bytes_read = [] }, ground (arith, e), λ z. cc)
    | inr (p, e) ↦
        let (r, g, ends) = read_loop_total size fs file p size [] (v p e) h words (omega arith) in
        elim (Bool-cases (mode_is_read file.mode)) [
          | inl m ↦ (r, ground (arith, e, g, m), ends)
          | inr m ↦ (
            record { code = error_assert; file = file; bytes_read = [] },
            ground (arith, e, m),
            λ z. cc,
          )
        ]
  ]
