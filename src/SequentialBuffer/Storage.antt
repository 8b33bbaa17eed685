-- ===== src/SequentialBuffer/Storage.antt =====
-- lib_util/sequential_buffer.h: what the two copies of `write` put into the storage.
use sensor_libs.Prelude.{
  ℕ, ◌+◌, ◌-◌, ◌≤◌, ◌<◌, ◌≡◌, ◌∙◌, List, length, get_or, blit, take, drop, length-blit, length-take,
  length-drop, get_or-blit_below, get_or-blit_in, get_or-blit_above, get_or-take, get_or-drop,
  get_or-index, ltb, ltb→lt, min, arith, Bool-cases, inl, inr,
}
use sensor_libs.SequentialBuffer.Contents.{wrap}

-- Both branches of `write` at once.
unfoldable pub write_cells : List ℕ → ℕ → List ℕ → List ℕ
write_cells cells pos bytes =
    let append_size = min (length bytes) (length cells - pos) in
    blit (blit cells pos (take append_size bytes)) 0 (drop append_size bytes)

pub length-write_cells :
    (cells : List ℕ) (pos : ℕ) (bytes : List ℕ)
    → length (write_cells cells pos bytes) ≡ length cells
unfolding write_cells
length-write_cells cells pos bytes = length-blit (blit cells pos _) 0 _ ∙ length-blit cells pos _

module _ (cells : List ℕ) (pos : ℕ) (bytes : List ℕ) (inside : pos < length cells)
    (fits : length bytes ≤ length cells) where
  -- The bytes are found from `pos` on, going round at the end of the storage.
  pub write_cells_new :
      (k : ℕ)
      → k < length bytes
      → get_or (write_cells cells pos bytes) (wrap (length cells) (pos + k)) 0 ≡ get_or bytes k 0
  unfolding write_cells
  write_cells_new k h = elim (Bool-cases (ltb (pos + k) (length cells))) [
    | inl e ↦ rw e (back (ltb→lt _ _ e))
    | inr e ↦ rw e (front (ground arith))
  ]
    where
      a : ℕ
      a = min (length bytes) (length cells - pos)

      first : List ℕ
      first = blit cells pos (take a bytes)

      back :
          pos + k < length cells
          → get_or (blit first 0 (drop a bytes)) (pos + k) 0 ≡ get_or bytes k 0
      back l =
          get_or-blit_above first 0 (drop a bytes) (pos + k) 0 (omega (arith, length-drop a bytes))
          ∙ get_or-blit_in cells pos (take a bytes) k 0 (omega (arith, length-take a bytes))
              (omega (arith, length-take a bytes))
          ∙ get_or-take a bytes k 0 (omega arith)

      front :
          length cells ≤ pos + k
          → get_or (blit first 0 (drop a bytes)) (pos + k - length cells) 0 ≡ get_or bytes k 0
      front l =
          get_or-index (blit first 0 (drop a bytes)) (pos + k - length cells) (0 + (k - a)) 0
            (omega arith)
          ∙ get_or-blit_in first 0 (drop a bytes) (k - a) 0
              (omega (arith, length-drop a bytes, length-blit cells pos (take a bytes)))
              (omega (arith, length-drop a bytes))
          ∙ get_or-drop a bytes (k - a) 0
          ∙ get_or-index bytes (a + (k - a)) k 0 (omega arith)

  -- All other cells are as they were.
  pub write_cells_old :
      (k : ℕ)
      → length bytes ≤ k
      → k < length cells
      → get_or (write_cells cells pos bytes) (wrap (length cells) (pos + k)) 0
        ≡ get_or cells (wrap (length cells) (pos + k)) 0
  unfolding write_cells
  write_cells_old k h l = elim (Bool-cases (ltb (pos + k) (length cells))) [
    | inl e ↦ rw e (back (ltb→lt _ _ e))
    | inr e ↦ rw e (front (ground arith))
  ]
    where
      a : ℕ
      a = min (length bytes) (length cells - pos)

      first : List ℕ
      first = blit cells pos (take a bytes)

      back :
          pos + k < length cells
          → get_or (blit first 0 (drop a bytes)) (pos + k) 0 ≡ get_or cells (pos + k) 0
      back m =
          get_or-blit_above first 0 (drop a bytes) (pos + k) 0 (omega (arith, length-drop a bytes))
          ∙ get_or-blit_above cells pos (take a bytes) (pos + k) 0
              (omega (arith, length-take a bytes))

      front :
          length cells ≤ pos + k
          → get_or (blit first 0 (drop a bytes)) (pos + k - length cells) 0
            ≡ get_or cells (pos + k - length cells) 0
      front m =
          get_or-blit_above first 0 (drop a bytes) (pos + k - length cells) 0
            (omega (arith, length-drop a bytes))
          ∙ get_or-blit_below cells pos (take a bytes) (pos + k - length cells) 0 (omega arith)
