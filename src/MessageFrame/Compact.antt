-- ===== src/MessageFrame/Compact.antt =====
-- lib_message/message_frame.h: the buffer of a builder as the parts at their places, and what the loop
-- of `finish` makes of it.
use sensor_libs.Prelude.{
  ℕ, zero, suc, ◌+◌, ◌<◌, ◌≤◌, ◌≡◌, refl, sym, ap, ◌∙◌, Bool, true, false, Option, none, some, List,
  [], ◌∷◌, ◌++◌, append_assoc, length, length-append, length-replicate, drop, set, replicate, blit,
  get_elem?, arith,
}
use sensor_libs.MessageFrame.{compact, sizes_before}

-- The parts that are there, by their positions.
abbrev pub Parts : Type 0
Parts = List (Option (List ℕ))

-- Each part has the size of its struct, and no struct is empty.
pub data Fits : Parts → List ℕ → Type 0 where
  fits_nil : Fits [] []
  fits_none : {n : ℕ} {os : Parts} {ns : List ℕ} → 0 < n → Fits os ns → Fits (none ∷ os) (n ∷ ns)
  fits_some :
      {n : ℕ} {d : List ℕ} {os : Parts} {ns : List ℕ}
      → 0 < n
      → length d ≡ n
      → Fits os ns
      → Fits (some d ∷ os) (n ∷ ns)

-- Every part at its place, zeros where none is.
abbrev pub expanded : Parts → List ℕ → List ℕ
expanded [] ns = []
expanded (o ∷ os) [] = []
expanded (none ∷ os) (n ∷ ns) = replicate n 0 ++ expanded os ns
expanded (some d ∷ os) (n ∷ ns) = d ++ expanded os ns

-- The parts that are there, one after the other.
abbrev pub packed : Parts → List ℕ
packed [] = []
packed (none ∷ os) = packed os
packed (some d ∷ os) = d ++ packed os

abbrev pub present : Parts → List Bool
present [] = []
present (none ∷ os) = false ∷ present os
present (some d ∷ os) = true ∷ present os

blit_front : (xs ys : List ℕ) → length ys ≤ length xs → blit xs 0 ys ≡ ys ++ drop (length ys) xs
blit_front [] [] h = refl
blit_front [] (y ∷ ys) h = absurd (omega arith)
blit_front (x ∷ xs) [] h = refl
blit_front (x ∷ xs) (y ∷ ys) h = ap (◌∷◌ y) (blit_front xs ys (omega arith))

pub blit_behind :
    (pre xs ys : List ℕ) (i : ℕ) → i ≡ length pre → blit (pre ++ xs) i ys ≡ pre ++ blit xs 0 ys
blit_behind [] xs ys i h = ap (λ k. blit xs k ys) h
blit_behind (x ∷ pre) xs ys zero h = absurd (omega arith)
blit_behind (x ∷ pre) xs ys (suc i) h = ap (◌∷◌ x) (blit_behind pre xs ys i (omega arith))

pub drop_behind : (pre xs : List ℕ) (i : ℕ) → i ≡ length pre → drop i (pre ++ xs) ≡ xs
drop_behind [] xs i h = ap (λ k. drop k xs) h
drop_behind (x ∷ pre) xs zero h = absurd (omega arith)
drop_behind (x ∷ pre) xs (suc i) h = drop_behind pre xs i (omega arith)

-- One part over another of the same size.
pub blit_over :
    (pre old new xs : List ℕ) (i : ℕ)
    → i ≡ length pre
    → length new ≡ length old
    → blit (pre ++ (old ++ xs)) i new ≡ pre ++ (new ++ xs)
blit_over pre old new xs i h e =
    blit_behind pre (old ++ xs) new i h
    ∙ ap (λ ys. pre ++ ys)
        (blit_front (old ++ xs) new (omega (arith, length-append old xs))
          ∙ ap (λ ys. new ++ ys) (drop_behind old xs (length new) e))

-- Where a part is not there, what is behind it moves onto it.
move_lem :
    (pre gap xs : List ℕ) (pos n : ℕ)
    → pos ≡ length pre
    → n ≡ length gap
    → (junk : List ℕ) × (blit (pre ++ (gap ++ xs)) pos (drop (pos + n) (pre ++ (gap ++ xs)))
        ≡ pre ++ (xs ++ junk))
move_lem pre gap xs pos n h e = (
  drop (length xs) (gap ++ xs),
  ap (blit (pre ++ (gap ++ xs)) pos) (
        ap (drop (pos + n)) (sym (append_assoc pre gap xs))
        ∙ drop_behind (pre ++ gap) xs (pos + n) (omega (arith, length-append pre gap)))
      ∙ blit_behind pre (gap ++ xs) xs pos h
      ∙ ap (λ ys. pre ++ ys) (blit_front (gap ++ xs) xs (omega (arith, length-append gap xs))),
)

-- The loop of `finish` brings the parts that are there together, in their order.
pub compact_lem :
    (os : Parts) (ns : List ℕ) (pre tail : List ℕ) (pos : ℕ)
    → Fits os ns
    → pos ≡ length pre
    → (tail' : List ℕ) × (compact (present os) ns pos (pre ++ (expanded os ns ++ tail))
        ≡ pre ++ (packed os ++ tail'))
unfolding compact
compact_lem [] ns pre tail pos fits_nil h = (tail, refl)
compact_lem (none ∷ os) [] pre tail pos f h = elim f [ ]
compact_lem (some d ∷ os) [] pre tail pos f h = elim f [ ]
compact_lem (some d ∷ os) (n ∷ ns) pre tail pos (fits_some p e f) h =
    let (tail', same) =
      compact_lem os ns (pre ++ d) tail (pos + n) f (omega (arith, length-append pre d)) in
    (
      tail',
      ap (compact (present os) ns (pos + n)) (
            ap (λ xs. pre ++ xs) (append_assoc d (expanded os ns) tail)
            ∙ sym (append_assoc pre d (expanded os ns ++ tail)))
          ∙ same
          ∙ append_assoc pre d (packed os ++ tail')
          ∙ ap (λ xs. pre ++ xs) (sym (append_assoc d (packed os) tail')),
    )
compact_lem (none ∷ os) (n ∷ ns) pre tail pos (fits_none p f) h =
    let (junk, moved) =
      move_lem pre (replicate n 0) (expanded os ns ++ tail) pos n h
        (sym (length-replicate {A = ℕ} n 0)) in
    let (tail', same) = compact_lem os ns pre (tail ++ junk) pos f h in
    (
      tail',
      ap (λ xs. compact (present os) ns pos (blit xs pos (drop (pos + n) xs)))
            (ap (λ xs. pre ++ xs) (append_assoc (replicate n 0) (expanded os ns) tail))
          ∙ ap (compact (present os) ns pos)
              (moved ∙ ap (λ xs. pre ++ xs) (append_assoc (expanded os ns) tail junk))
          ∙ same,
    )

regroup :
    (pre block xs tail : List ℕ) → pre ++ ((block ++ xs) ++ tail) ≡ (pre ++ block) ++ (xs ++ tail)
regroup pre block xs tail =
    ap (λ ys. pre ++ ys) (append_assoc block xs tail) ∙ sym (append_assoc pre block (xs ++ tail))

-- A part that is added takes the place of the zeros.
pub expanded-set :
    (os : Parts) (ns : List ℕ) (pre tail : List ℕ) (i pos : ℕ) (d : List ℕ)
    → Fits os ns
    → get_elem? os i ≡ some none
    → get_elem? ns i ≡ some (length d)
    → pos ≡ length pre + sizes_before i ns
    → blit (pre ++ (expanded os ns ++ tail)) pos d
      ≡ pre ++ (expanded (set os i (some d)) ns ++ tail)
unfolding sizes_before
expanded-set [] ns pre tail i pos d f o s h = absurd cc
expanded-set (o' ∷ os) [] pre tail i pos d f o s h = absurd cc
expanded-set (some d' ∷ os) (n ∷ ns) pre tail zero pos d f o s h = absurd cc
expanded-set (none ∷ os) (n ∷ ns) pre tail zero pos d f o s h =
    let size : n ≡ length d = cc in
    ap (λ xs. blit (pre ++ xs) pos d) (append_assoc (replicate n 0) (expanded os ns) tail)
    ∙ blit_over pre (replicate n 0) d (expanded os ns ++ tail) pos (omega arith)
        (omega (arith, size, length-replicate {A = ℕ} n 0))
    ∙ ap (λ xs. pre ++ xs) (sym (append_assoc d (expanded os ns) tail))
expanded-set (none ∷ os) (n ∷ ns) pre tail (suc i) pos d (fits_none p f) o s h =
    ap (λ xs. blit xs pos d) (regroup pre (replicate n 0) (expanded os ns) tail)
    ∙ expanded-set os ns (pre ++ replicate n 0) tail i pos d f o s
        (omega (arith, length-append pre (replicate n 0), length-replicate {A = ℕ} n 0))
    ∙ sym (regroup pre (replicate n 0) (expanded (set os i (some d)) ns) tail)
expanded-set (some d' ∷ os) (n ∷ ns) pre tail (suc i) pos d (fits_some p e f) o s h =
    ap (λ xs. blit xs pos d) (regroup pre d' (expanded os ns) tail)
    ∙ expanded-set os ns (pre ++ d') tail i pos d f o s (omega (arith, length-append pre d', e))
    ∙ sym (regroup pre d' (expanded (set os i (some d)) ns) tail)
