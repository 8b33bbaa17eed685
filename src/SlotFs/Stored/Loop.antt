-- ===== src/SlotFs/Stored/Loop.antt =====
-- lib_slotfs/slotfs.cpp: the loop of `sfs_file_write`.
use sensor_libs.Prelude.{
  ℕ, zero, suc, ◌+◌, ◌-◌, ◌≤◌, ◌≡◌, refl, sym, ap, subst, ◌∙◌, false, Option, none, some, List, [],
  ◌∷◌, ◌++◌, append_assoc, append-nil, length, length-append, length-take, length-drop, take, drop,
  blit, take-append-drop, ltb, min, arith, add64, sub64,
}
use sensor_libs.SlotFs.State.{
  Result, success, error_assert, BlockPage, available, File, BlockDevice, SlotFs, KeepsBytes,
}
use sensor_libs.SlotFs.Io.{Written, commit_page, end_round, write_loop, sfs_file_write}
use sensor_libs.SlotFs.Metas.{NeverFails}
use sensor_libs.SlotFs.Stored.{Place, page_of, Stored}
use sensor_libs.SlotFs.Stored.Rounds.{filled, Advances, commit-Advances}

module _ {Store : Type 0} (dev : BlockDevice Store) (k : KeepsBytes dev) where
  end_round_success :
      (go_on : SlotFs Store → File → BlockPage → Option (Written dev)) {p : Place} {n : ℕ}
      {content : List ℕ} (written : ℕ) (r : Result × SlotFs Store × File)
      (a : Advances dev k p n content r)
      → end_round dev go_on r n written
        ≡ go_on r.1 (record r.2 { file_cursor = add64 r.2.file_cursor n }) a.next
  unfolding end_round
  end_round_success go_on {p} {n} written (rc, fs, file) a =
      rw (end_round, a.succeeds)
        (page_of none (go_on fs (record file { file_cursor = add64 file.file_cursor n }))
          file.block_page a.next a.has_page)

  -- What a write of `bytes` leaves, if it is not cut off.
  pub record Wrote (p : Place) (content : List ℕ) (n : ℕ) (o : Option (Written dev)) : Type 0 where
    pub after : Written dev
    pub page : BlockPage
    pub returns : o ≡ some after
    pub code : after.code ≡ success
    pub count : after.bytes_written ≡ n
    pub stored : Stored dev k p after.fs after.file page content

  write_loop-Wrote :
      (fuel : ℕ) {p : Place} {fs : SlotFs Store} {file : File} {page : BlockPage} {content : List ℕ}
      (bytes : List ℕ) (written : ℕ)
      → NeverFails dev k
      → Stored dev k p fs file page content
      → p.first + (length content + length bytes) ≤ p.last
      → length bytes ≤ fuel
      → Wrote p
          (content ++ bytes)
          (written + length bytes)
          (write_loop dev fuel fs file page bytes written)
  unfolding write_loop available
  write_loop-Wrote fuel {p} {fs} {file} {page} {content} [] written w s room enough = record {
    after = record { code = success; fs = fs; file = file; bytes_written = written };
    page = page;
    returns = refl;
    code = refl;
    count = omega arith;
    stored = subst (Stored dev k p fs file page) (sym (append-nil content)) s;
  }
  write_loop-Wrote zero (x ∷ xs) written w s room enough = absurd (omega arith)
  write_loop-Wrote (suc fuel) {p} {fs} {file} {page} {content} (x ∷ xs) written w s room enough =
      let bytes = x ∷ xs in
      let n = min (length bytes) (available page) in
      let chunk = take n bytes in
      let len : length chunk ≡ n = omega (arith, length-take n bytes) in
      let free : available page ≡ 2048 - page.offset = omega (arith, s.room, s.offset) in
      let a =
        commit-Advances dev k chunk w s (omega (arith, s.offset)) (omega (arith, s.offset))
          (omega (arith, room)) in
      let space : ltb (sub64 (sub64 file.md.max_address file.md.start_address) file.file_cursor)
            (length bytes)
          ≡ false =
        ground (arith, s.first, s.last, s.cursor, s.place.small, room) in
      let go_on = λ (fs' : SlotFs Store) (file' : File) (page' : BlockPage).
        write_loop dev fuel fs' file' page' (drop n bytes) (written + n) in
      let page' = λ (m : ℕ). record page {
        bytes = blit page.bytes page.offset chunk;
        offset = page.offset + m;
      } in
      let r = commit_page dev fs file (filled dev k page chunk) in
      let round : write_loop dev (suc fuel) fs file page bytes written
          ≡ end_round dev go_on r (length chunk) written =
        rw (write_loop, space)
          (ap (λ m. end_round dev go_on (commit_page dev fs file (page' m)) m written) (sym len)) in
      let rest =
        write_loop-Wrote fuel (drop n bytes) (written + n) w a.stored
          (omega (arith, room, length-append content chunk, length-drop n bytes))
          (omega (arith, enough, s.offset, length-drop n bytes)) in
      record {
        after = rest.after;
        page = rest.page;
        returns = round ∙ end_round_success go_on written r a ∙ rest.returns;
        code = rest.code;
        count = rest.count ∙ omega (arith, length-drop n bytes);
        stored =
            subst (Stored dev k p rest.after.fs rest.after.file rest.page)
              (append_assoc content chunk (drop n bytes)
                ∙ ap (◌++◌ content) (take-append-drop n bytes))
              rest.stored;
      }

  -- `sfs_file_write` of bytes that fit into the slot returns success with their number, and they are stored
  -- behind those written before.
  pub write-Wrote :
      {p : Place} {fs : SlotFs Store} {file : File} {page : BlockPage} {content : List ℕ}
      (bytes : List ℕ)
      → NeverFails dev k
      → Stored dev k p fs file page content
      → p.first + (length content + length bytes) ≤ p.last
      → Wrote p (content ++ bytes) (length bytes) (sfs_file_write dev fs file bytes)
  unfolding sfs_file_write
  write-Wrote {p} {fs} {file} {page} {content} bytes w s room =
      let closed : Option (Written dev) =
        some (record { code = error_assert; fs = fs; file = file; bytes_written = 0 }) in
      subst (Wrote p (content ++ bytes) (length bytes))
        (sym (
          page_of closed (λ q. write_loop dev (length bytes + 1) fs file q bytes 0) file.block_page
            page s.paged))
        (subst
          (λ n.
            Wrote p (content ++ bytes) n (write_loop dev (length bytes + 1) fs file page bytes 0))
          (omega arith) (write_loop-Wrote (length bytes + 1) bytes 0 w s room (omega arith)))
