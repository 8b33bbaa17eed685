-- ===== src/SequentialBuffer/Contents.antt =====
-- lib_util/sequential_buffer.h: the bytes that a buffer holds, oldest first, and its invariant.
use sensor_libs.Prelude.{
  ℕ, ◌+◌, ◌-◌, ◌≤◌, ◌<◌, ◌≡◌, List, length, get_or, tabulate, length-tabulate, get_or-tabulate, ltb,
  if◌then◌else◌,
}
use sensor_libs.SequentialBuffer.{Buffer, capacity, size}

-- An offset past the end of the storage goes on at its front.
abbrev pub wrap : ℕ → ℕ → ℕ
wrap cap k = if ltb k cap then k else k - cap

unfoldable pub contents : Buffer → List ℕ
contents b = tabulate (size b) (λ i. get_or b.cells (wrap (capacity b) (b.read_pos + i)) 0)

pub record IsValid (b : Buffer) : Type 0 where
  pub free_in : b.free_bytes ≤ capacity b
  pub read_in : b.read_pos < capacity b
  pub write_in : b.write_pos < capacity b
  pub write_at : b.write_pos ≡ wrap (capacity b) (b.read_pos + size b)

pub length-contents : (b : Buffer) → length (contents b) ≡ size b
unfolding contents
length-contents b = length-tabulate (size b) _

pub get_or-contents :
    (b : Buffer) (i : ℕ)
    → i < size b
    → get_or (contents b) i 0 ≡ get_or b.cells (wrap (capacity b) (b.read_pos + i)) 0
unfolding contents
get_or-contents b i h = get_or-tabulate (size b) _ i 0 h
