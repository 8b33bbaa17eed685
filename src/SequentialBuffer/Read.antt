-- ===== src/SequentialBuffer/Read.antt =====
-- lib_util/sequential_buffer.h: `request_read` shows the front of the queue, `commit_read` drops it.
use sensor_libs.Prelude.{
  ℕ, ◌+◌, ◌≤◌, ◌<◌, ◌≡◌, ◌↔◌, ◌⊎◌, refl, sym, ◌∙◌, Bool, some, length, get_or, take, drop, slice,
  length-take, length-drop, get_or-take, get_or-drop, get_or-index, list_ext, arith,
}
use sensor_libs.SequentialBuffer.{
  Buffer, Status, ok, failed, capacity, size, commit_read, request_read, available_size,
}
use sensor_libs.SequentialBuffer.Contents.{
  wrap, contents, IsValid, length-contents, get_or-contents,
}

pub available_bounds :
    (b : Buffer)
    → IsValid b
    → (available_size b ≤ size b)
      × (b.read_pos + available_size b ≤ capacity b)
      × ((available_size b ≡ 0) ↔ (size b ≡ 0))
unfolding available_size
available_bounds b v = (ground arith, ground arith, ((λ h. ground arith), λ h. ground arith))

-- The bytes that `request_read` points at are the oldest of the buffer, in order.
shown :
    (b : Buffer)
    → IsValid b
    → slice b.cells b.read_pos (available_size b) ≡ take (available_size b) (contents b)
shown b v =
    list_ext _ _ 0
      (omega (
        arith,
        available_bounds b v,
        length-take (available_size b) (drop b.read_pos b.cells),
        length-drop b.read_pos b.cells,
        length-take (available_size b) (contents b),
        length-contents b,
      ))
      (λ i l. cell i (omega (arith, l, length-take (available_size b) (drop b.read_pos b.cells))))
  where
    cell :
        (i : ℕ)
        → i < available_size b
        → get_or (slice b.cells b.read_pos (available_size b)) i 0
          ≡ get_or (take (available_size b) (contents b)) i 0
    cell i l =
        get_or-take (available_size b) (drop b.read_pos b.cells) i 0 l
        ∙ get_or-drop b.read_pos b.cells i 0
        ∙ get_or-index b.cells _ _ 0 (ground (arith, available_bounds b v))
        ∙ sym (get_or-contents b i (omega (arith, available_bounds b v)))
        ∙ sym (get_or-take (available_size b) (contents b) i 0 l)

committed : Buffer → ℕ → Buffer
committed b n = record b {
  read_pos = wrap (capacity b) (b.read_pos + n);
  free_bytes = b.free_bytes + n;
}

commit_read_lem :
    (b : Buffer) (n : ℕ) → IsValid b → n ≤ available_size b → commit_read b n ≡ (ok, committed b n)
unfolding commit_read committed
commit_read_lem b n v h = ground (arith, available_bounds b v)

committed-IsValid :
    (b : Buffer) (n : ℕ) → IsValid b → n ≤ available_size b → IsValid (committed b n)
unfolding committed
committed-IsValid b n v h = ground (arith, available_bounds b v)

contents-committed :
    (b : Buffer) (n : ℕ)
    → IsValid b
    → n ≤ available_size b
    → contents (committed b n) ≡ drop n (contents b)
unfolding committed
contents-committed b n v h =
    list_ext _ _ 0
      (omega (
        arith,
        available_bounds b v,
        length-contents (committed b n),
        length-contents b,
        length-drop n (contents b),
      ))
      (λ i l.
        get_or-contents (committed b n) i (omega (arith, l, length-contents (committed b n)))
        ∙ get_or-index b.cells _ _ 0
            (ground (arith, length-contents (committed b n), available_bounds b v))
        ∙ sym (
            get_or-contents b (n + i)
              (omega (arith, l, length-contents (committed b n), available_bounds b v)))
        ∙ sym (get_or-drop n (contents b) i 0))

-- On a valid buffer, what `request_read` hands out (an offset and a count) are the oldest bytes of
-- the queue, in order; it returns 0 with at least one byte where the queue holds any, and -1 with
-- none where it is empty, whether or not it waited.
pub request_read_shows :
    (b : Buffer) (timeout_ms : ℕ) (signalled : Bool) (s : Status) (p n : ℕ)
    → IsValid b
    → request_read b timeout_ms signalled ≡ (s, some (p, n))
    → (slice b.cells p n ≡ take n (contents b))
      × (n ≤ length (contents b))
      × (((s ≡ ok) × (0 < n)) ⊎ ((s ≡ failed) × (length (contents b) ≡ 0)))
unfolding request_read
request_read_shows b timeout_ms signalled s p n v h =
    ground (arith, shown b v, available_bounds b v, length-contents b)

-- After a `request_read` that handed out `n` bytes, `commit_read` of at most `n` of them returns 0,
-- drops just those from the front of the queue, and keeps the buffer valid.
pub commit_read_drops :
    (b : Buffer) (timeout_ms : ℕ) (signalled : Bool) (s : Status) (p n k : ℕ)
    → IsValid b
    → request_read b timeout_ms signalled ≡ (s, some (p, n))
    → k ≤ n
    → let (r, b') = commit_read b k in
      (r ≡ ok) × (contents b' ≡ drop k (contents b)) × IsValid b' × (capacity b' ≡ capacity b)
unfolding request_read committed
commit_read_drops b timeout_ms signalled s p n k v h l =
    rw (commit_read_lem b k v bound)
      (refl, contents-committed b k v bound, committed-IsValid b k v bound, refl)
  where
    bound : k ≤ available_size b
    bound = ground arith
