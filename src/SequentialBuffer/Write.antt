-- ===== src/SequentialBuffer/Write.antt =====
-- lib_util/sequential_buffer.h: `write` appends to the queue of bytes that the buffer holds.
use sensor_libs.Prelude.{
  ℕ, ◌+◌, ◌-◌, ◌≤◌, ◌<◌, ◌≡◌, ◌≢◌, ◌⊎◌, ◌||◌, ◌==◌, refl, sym, ap, ◌∙◌, true, List, ◌++◌, length,
  get_or, blit, take, length-append, get_or-append_left, get_or-append_right, blit-nil, drop-length,
  take-length, get_or-index, list_ext, ltb, ltb→lt, if◌then◌else◌, min, arith, Bool-cases, inl, inr,
}
use sensor_libs.SequentialBuffer.{
  Buffer, Status, ok, failed, capacity, size, notify, write, write_around, write_before,
  available_size,
}
use sensor_libs.SequentialBuffer.Contents.{
  wrap, contents, IsValid, length-contents, get_or-contents,
}
use sensor_libs.SequentialBuffer.Storage.{
  write_cells, length-write_cells, write_cells_new, write_cells_old,
}

-- The buffer after `write` has taken the bytes, before the watermark is looked at.
stored : Buffer → List ℕ → Buffer
stored b bytes = record b {
  cells = write_cells b.cells b.write_pos bytes;
  write_pos = wrap (capacity b) (b.write_pos + length bytes);
  free_bytes = b.free_bytes - length bytes;
}

write_around_lem :
    (b : Buffer) (bytes : List ℕ)
    → IsValid b
    → length bytes ≤ b.free_bytes
    → 0 < length bytes
    → write_around b bytes ≡ stored b bytes
unfolding write_around stored write_cells
write_around_lem b bytes v h p =
    let a = min (length bytes) (capacity b - b.write_pos) in
    ground (arith, blit-nil (blit b.cells b.write_pos (take a bytes)) 0, drop-length a bytes)

write_before_lem :
    (b : Buffer) (bytes : List ℕ)
    → IsValid b
    → b.write_pos + length bytes ≤ b.read_pos
    → write_before b bytes ≡ stored b bytes
unfolding write_before stored write_cells
write_before_lem b bytes v h =
    let a = min (length bytes) (capacity b - b.write_pos) in
    ground (
      arith,
      blit-nil (blit b.cells b.write_pos (take a bytes)) 0,
      drop-length a bytes,
      take-length a bytes,
    )

stored-IsValid :
    (b : Buffer) (bytes : List ℕ)
    → IsValid b
    → length bytes ≤ b.free_bytes
    → IsValid (stored b bytes)
unfolding stored
stored-IsValid b bytes v h = ground (arith, length-write_cells b.cells b.write_pos bytes)

-- Where the `i`-th byte of the buffer lies, counted from the write pointer.
index_of_old :
    (b : Buffer) (i : ℕ)
    → IsValid b
    → i < size b
    → wrap (capacity b) (b.read_pos + i) ≡ wrap (capacity b) (b.write_pos + (b.free_bytes + i))
index_of_old b i v h = ground arith

index_of_new :
    (b : Buffer) (k : ℕ)
    → IsValid b
    → k < b.free_bytes
    → wrap (capacity b) (b.read_pos + (size b + k)) ≡ wrap (capacity b) (b.write_pos + k)
index_of_new b k v h = ground arith

module _ (b : Buffer) (bytes : List ℕ) (v : IsValid b) (h : length bytes ≤ b.free_bytes) where
  size-stored : size (stored b bytes) ≡ size b + length bytes
  unfolding stored
  size-stored = omega (arith, length-write_cells b.cells b.write_pos bytes, v)

  cell-stored :
      (i : ℕ)
      → i < size (stored b bytes)
      → get_or (contents (stored b bytes)) i 0
        ≡ get_or (write_cells b.cells b.write_pos bytes) (wrap (capacity b) (b.read_pos + i)) 0
  unfolding stored
  cell-stored i l =
      get_or-contents (stored b bytes) i l
      ∙ ap (λ c. get_or (write_cells b.cells b.write_pos bytes) (wrap c (b.read_pos + i)) 0)
          (length-write_cells b.cells b.write_pos bytes)

  cell_old :
      (i : ℕ)
      → i < size b
      → get_or (contents (stored b bytes)) i 0 ≡ get_or (contents b ++ bytes) i 0
  cell_old i l =
      cell-stored i (omega (arith, size-stored))
      ∙ get_or-index _ _ _ 0 (index_of_old b i v l)
      ∙ write_cells_old b.cells b.write_pos bytes v.write_in (omega arith) (b.free_bytes + i)
          (omega arith) (omega arith)
      ∙ get_or-index b.cells _ _ 0 (sym (index_of_old b i v l))
      ∙ sym (get_or-contents b i l)
      ∙ sym (get_or-append_left (contents b) bytes i 0 (omega (arith, length-contents b)))

  cell_new :
      (k : ℕ)
      → k < length bytes
      → get_or (contents (stored b bytes)) (size b + k) 0
        ≡ get_or (contents b ++ bytes) (size b + k) 0
  cell_new k l =
      cell-stored (size b + k) (omega (arith, size-stored))
      ∙ get_or-index _ _ _ 0 (index_of_new b k v (omega arith))
      ∙ write_cells_new b.cells b.write_pos bytes v.write_in (omega arith) k l
      ∙ sym (get_or-append_right (contents b) bytes k 0)
      ∙ get_or-index (contents b ++ bytes) _ _ 0 (omega (arith, length-contents b))

  contents-stored : contents (stored b bytes) ≡ contents b ++ bytes
  contents-stored =
      list_ext _ _ 0
        (omega (
          arith,
          length-contents (stored b bytes),
          length-contents b,
          length-append (contents b) bytes,
          size-stored,
        ))
        (λ i l. elim (Bool-cases (ltb i (size b))) [
          | inl e ↦ cell_old i (ltb→lt _ _ e)
          | inr e ↦
              get_or-index (contents (stored b bytes)) i (size b + (i - size b)) 0 (ground arith)
              ∙ cell_new (i - size b)
                  (ground (arith, length-contents (stored b bytes), size-stored))
              ∙ get_or-index (contents b ++ bytes) (size b + (i - size b)) i 0 (ground arith)
        ])

notify_lem :
    (b : Buffer)
    → (contents (notify b) ≡ contents b)
      × (IsValid b → IsValid (notify b))
      × (capacity (notify b) ≡ capacity b)
unfolding notify contents
notify_lem b = (ground arith, λ v. ground arith, ground arith)

write_fits :
    (b : Buffer) (bytes : List ℕ)
    → IsValid b
    → length bytes ≢ 0
    → length bytes ≤ b.free_bytes
    → write b bytes ≡ (ok, notify (stored b bytes))
unfolding write
write_fits b bytes v p h = ground (arith, write_around_lem b bytes v, write_before_lem b bytes v)

write_refused :
    (b : Buffer) (bytes : List ℕ)
    → (length bytes ≡ 0) ⊎ (b.free_bytes < length bytes)
    → write b bytes ≡ (failed, record b { event_set = true })
unfolding write
write_refused b bytes h = ground arith

-- The queue's side: bytes go in all together, or not at all.
unfoldable pub put : ℕ → List ℕ → List ℕ → Status × List ℕ
put room held bytes =
    if length bytes == 0 || ltb room (length held + length bytes)
    then (failed, held)
    else (ok, held ++ bytes)

-- On a valid buffer `write` returns what `put` returns on the queue of at most `capacity b` bytes
-- (0 if some bytes are given and they fit, else -1), leaves the buffer holding the queue that `put`
-- leaves, valid, and of the same capacity. No `assert` fails.
pub write_refines :
    (b : Buffer) (bytes : List ℕ)
    → IsValid b
    → let (s, b') = write b bytes in
      ((s, contents b') ≡ put (capacity b) (contents b) bytes)
      × IsValid b'
      × (capacity b' ≡ capacity b)
unfolding put stored contents
write_refines b bytes v = elim (Bool-cases (length bytes == 0 || ltb b.free_bytes (length bytes))) [
  | inl e ↦
      rw (write_refused b bytes (ground arith))
        (ground (arith, length-contents b), ground arith, refl)
  | inr e ↦ rw (write_fits b bytes v (λ z. ground arith) (ground arith)) (
    ground (arith, length-contents b, contents-stored b bytes v, notify_lem (stored b bytes)),
    (notify_lem (stored b bytes)).1 (stored-IsValid b bytes v (ground arith)),
    (notify_lem (stored b bytes)).2 ∙ length-write_cells b.cells b.write_pos bytes,
  )
]

stored-available :
    (b : Buffer) (bytes : List ℕ)
    → IsValid b
    → length bytes ≤ b.free_bytes
    → available_size b ≤ available_size (notify (stored b bytes))
unfolding stored notify available_size
stored-available b bytes v h = ground (arith, length-write_cells b.cells b.write_pos bytes)

-- A write does not move the read pointer, and no fewer bytes can be read from it on.
pub write_keeps_pointer :
    (b : Buffer) (bytes : List ℕ)
    → IsValid b
    → ((write b bytes).1.read_pos ≡ b.read_pos)
      × (available_size b ≤ available_size (write b bytes).1)
unfolding stored notify available_size
write_keeps_pointer b bytes v =
    elim (Bool-cases (length bytes == 0 || ltb b.free_bytes (length bytes))) [
      | inl e ↦ rw (write_refused b bytes (ground arith)) (refl, omega arith)
      | inr e ↦
          rw (write_fits b bytes v (λ z. ground arith) (ground arith))
            (ground arith, stored-available b bytes v (ground arith))
    ]
