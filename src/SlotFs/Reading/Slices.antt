-- ===== src/SlotFs/Reading/Slices.antt =====
-- lib_slotfs/slotfs.cpp: the bytes that a round of `sfs_file_read` copies out of its page.
use sensor_libs.Prelude.{
  ℕ, zero, suc, ◌+◌, ◌<◌, ◌≤◌, ◌≡◌, refl, sym, ap, ◌∙◌, List, [], ◌∷◌, ◌++◌, length, take, drop,
  slice, length-take, length-drop, drop-drop, get_or, get_or-take, get_or-drop, get_or-index,
  list_ext, arith,
}
use sensor_libs.SlotFs.State.{BlockPage, capacity, File}
use sensor_libs.SlotFs.Reading.{Holds}

take_of_nil : {A : Type 0} (n : ℕ) → ◌≡◌ {A = List A} (take n []) []
take_of_nil zero = refl
take_of_nil (suc n) = refl

take_plus : {A : Type 0} (n m : ℕ) (xs : List A) → take n xs ++ take m (drop n xs) ≡ take (n + m) xs
take_plus zero m xs = ap (λ i. take i xs) (omega arith)
take_plus (suc n) m [] = take_of_nil m ∙ sym (take_of_nil (suc n + m))
take_plus {A} (suc n) m (x ∷ xs) =
    let index : suc (n + m) ≡ suc n + m = omega arith in
    ap (◌∷◌ x) (take_plus n m xs) ∙ ap (λ i. take i (x ∷ xs)) index

pub slice_plus :
    {A : Type 0} (xs : List A) (i n m : ℕ) → slice xs i n ++ slice xs (i + n) m ≡ slice xs i (n + m)
slice_plus xs i n m =
    ap (λ ys. take n (drop i xs) ++ take m ys) (sym (drop-drop i n xs)) ∙ take_plus n m (drop i xs)

get_or-slice : (xs : List ℕ) (i n k : ℕ) → k < n → get_or (slice xs i n) k 0 ≡ get_or xs (i + k) 0
get_or-slice xs i n k h = get_or-take n (drop i xs) k 0 h ∙ get_or-drop i xs k 0

length-slice : (xs : List ℕ) (i n : ℕ) → i + n ≤ length xs → length (slice xs i n) ≡ n
length-slice xs i n h = omega (arith, length-take n (drop i xs), length-drop i xs, h)

-- The bytes of a page around the cursor are those of the file.
pub copied :
    {file : File} {page : BlockPage} {content : List ℕ} (n : ℕ)
    → Holds file page content
    → capacity page ≡ 2048
    → page.offset + n ≤ 2048
    → file.file_cursor + n ≤ length content
    → slice page.bytes page.offset n ≡ slice content file.file_cursor n
copied {file} {page} {content} n h room inside fits =
    let here = length-slice page.bytes page.offset n (omega (arith, room, inside)) in
    let there = length-slice content file.file_cursor n fits in
    list_ext (slice page.bytes page.offset n) (slice content file.file_cursor n) 0
      (here ∙ sym there)
      (λ i l.
        let small : i < n = omega (arith, l, here) in
        get_or-slice page.bytes page.offset n i small
        ∙ h.bytes (page.offset + i) (omega (arith, small, inside))
            (omega (arith, small, h.offset, fits))
        ∙ get_or-index content _ (file.file_cursor + i) 0 (omega (arith, h.offset))
        ∙ sym (get_or-slice content file.file_cursor n i small))
