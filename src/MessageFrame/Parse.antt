-- ===== src/MessageFrame/Parse.antt =====
-- lib_message/message_frame.h: the loop of `get_frame_message_data` over the parts of a message, and the
-- mask as a word.
use sensor_libs.Prelude.{
  ℕ, zero, suc, ◌+◌, ◌*◌, ◌/◌, ◌<◌, ◌≡◌, inl, inr, tests, refl, sym, ap, ap₂, ◌∙◌, subst, Bool,
  true, false, none, some, List, [], ◌∷◌, ◌++◌, append_assoc, length, length-append, take, slice,
  arith, leb, ◌==◌, le→leb, Bool-cases,
}
use sensor_libs.MessageFrame.{mask_word, word_mask, Got, absent, got, get_loop}
use sensor_libs.MessageFrame.Compact.{
  Parts, Fits, fits_none, fits_some, packed, present, drop_behind,
}

-- What there is to find at a position.
abbrev pub lookup : Parts → ℕ → Got
lookup [] i = absent
lookup (none ∷ os) zero = absent
lookup (some d ∷ os) zero = got d
lookup (o ∷ os) (suc i) = lookup os i

pub take_front : (xs ys : List ℕ) (n : ℕ) → n ≡ length xs → take n (xs ++ ys) ≡ xs
take_front [] ys zero e = refl
take_front [] ys (suc n) e = absurd (omega arith)
take_front (x ∷ xs) ys zero e = absurd (omega arith)
take_front (x ∷ xs) ys (suc n) e = ap (◌∷◌ x) (take_front xs ys n (omega arith))

nothing_left :
    (os : Parts) (ns : List ℕ) (i : ℕ) → Fits os ns → length (packed os) ≡ 0 → lookup os i ≡ absent
nothing_left [] ns i f e = refl
nothing_left (none ∷ os) (n ∷ ns) zero (fits_none p f) e = refl
nothing_left (none ∷ os) (n ∷ ns) (suc i) (fits_none p f) e = nothing_left os ns i f e
nothing_left (none ∷ os) [] i f e = elim f [ ]
nothing_left (some d ∷ os) [] i f e = elim f [ ]
nothing_left (some d ∷ os) (n ∷ ns) i (fits_some p l f) e =
    absurd (omega (arith, l, e, length-append d (packed os)))

-- Behind its position a feature is not found.
past_lem :
    (target k : ℕ) (ms : List Bool) (ns : List ℕ) (pos : ℕ) (buffer : List ℕ)
    → target < k
    → get_loop target k ms ns pos buffer ≡ absent
unfolding get_loop
past_lem target k [] ns pos buffer h = refl
past_lem target k (m ∷ ms) [] pos buffer h = refl
past_lem target k (false ∷ ms) (n ∷ ns) pos buffer h = elim (Bool-cases (leb (length buffer) pos)) [
  | inl e ↦ rw (get_loop, e)
  | inr e ↦ rw (get_loop, e) (past_lem target (suc k) ms ns pos buffer (omega arith))
]
past_lem target k (true ∷ ms) (n ∷ ns) pos buffer h = elim (Bool-cases (leb (length buffer) pos)) [
  | inl e ↦ rw (get_loop, e)
  | inr e ↦
      let other : (k == target) ≡ false = ground arith in
      rw (get_loop, e, other) (past_lem target (suc k) ms ns (pos + n) buffer (omega arith))
]

-- Where the loop stands at a part, that part is within the buffer.
at_part :
    (pre d xs : List ℕ) (pos n : ℕ)
    → 0 < n
    → length d ≡ n
    → pos ≡ length pre
    → (leb (length (pre ++ (d ++ xs))) pos ≡ false)
      × (leb (pos + n) (length (pre ++ (d ++ xs))) ≡ true)
      × (slice (pre ++ (d ++ xs)) pos n ≡ d)
at_part pre d xs pos n p l h =
    let size : length (pre ++ (d ++ xs)) ≡ pos + (n + length xs) =
      omega (arith, length-append pre (d ++ xs), length-append d xs, h, l) in
    (
      ground (arith, size),
      le→leb _ _ (omega (arith, size)),
      ap (take n) (drop_behind pre (d ++ xs) pos h) ∙ take_front d xs n (sym l),
    )

-- The loop finds in the parts that are there what there is to find.
pub get_loop_lem :
    (os : Parts) (ns : List ℕ) (pre : List ℕ) (pos target k i : ℕ)
    → Fits os ns
    → pos ≡ length pre
    → target ≡ k + i
    → get_loop target k (present os) ns pos (pre ++ packed os) ≡ lookup os i
unfolding get_loop
get_loop_lem [] ns pre pos target k i f h e = refl
get_loop_lem (none ∷ os) [] pre pos target k i f h e = elim f [ ]
get_loop_lem (some d ∷ os) [] pre pos target k i f h e = elim f [ ]
get_loop_lem (none ∷ os) (n ∷ ns) pre pos target k zero (fits_none p f) h e =
    elim (Bool-cases (leb (length (pre ++ packed os)) pos)) [
      | inl t ↦ rw (get_loop, t)
      | inr t ↦
          rw (get_loop, t)
            (past_lem target (suc k) (present os) ns pos (pre ++ packed os) (omega arith))
    ]
get_loop_lem (none ∷ os) (n ∷ ns) pre pos target k (suc i) (fits_none p f) h e =
    elim (Bool-cases (leb (length (pre ++ packed os)) pos)) [
      | inl t ↦
          let nothing : length (packed os) ≡ 0 =
            omega (tests, t, h, length-append pre (packed os)) in
          rw (get_loop, t) (sym (nothing_left os ns i f nothing))
      | inr t ↦ rw (get_loop, t) (get_loop_lem os ns pre pos target (suc k) i f h (omega arith))
    ]
get_loop_lem (some d ∷ os) (n ∷ ns) pre pos target k zero (fits_some p l f) h e =
    let (inside, room, here) = at_part pre d (packed os) pos n p l h in
    let at_target : (k == target) ≡ true = ground arith in
    rw (get_loop, inside, at_target, room, here)
get_loop_lem (some d ∷ os) (n ∷ ns) pre pos target k (suc i) (fits_some p l f) h e =
    let (inside, room, here) = at_part pre d (packed os) pos n p l h in
    let other : (k == target) ≡ false = ground arith in
    rw (get_loop, inside, other)
      (subst (λ xs. get_loop target (suc k) (present os) ns (pos + n) xs ≡ lookup os i)
        (append_assoc pre d (packed os))
        (get_loop_lem os ns (pre ++ d) (pos + n) target (suc k) i f
          (omega (arith, length-append pre d, h, l)) (omega arith)))

-- The mask that the header carries is read back.
word_mask-index : (n a b : ℕ) → a ≡ b → word_mask n a ≡ word_mask n b
word_mask-index n a b e = ap (word_mask n) e

pub word_mask-mask_word : (bits : List Bool) → word_mask (length bits) (mask_word bits) ≡ bits
unfolding word_mask mask_word
word_mask-mask_word [] = refl
word_mask-mask_word (true ∷ bits) = ap₂ ◌∷◌ (ground arith) (
    word_mask-index (length bits) ((1 + 2 * mask_word bits) / 2) (mask_word bits) (omega arith)
    ∙ word_mask-mask_word bits)
word_mask-mask_word (false ∷ bits) = ap₂ ◌∷◌ (ground arith) (
    word_mask-index (length bits) (2 * mask_word bits / 2) (mask_word bits) (omega arith)
    ∙ word_mask-mask_word bits)

abbrev pub doubled : ℕ → ℕ
doubled zero = 1
doubled (suc n) = 2 * doubled n

pub mask_word-lt : (bits : List Bool) → mask_word bits < doubled (length bits)
unfolding mask_word
mask_word-lt [] = omega arith
mask_word-lt (true ∷ bits) = omega (arith, mask_word-lt bits)
mask_word-lt (false ∷ bits) = omega (arith, mask_word-lt bits)

pub length-present : (os : Parts) → length (present os) ≡ length os
length-present [] = refl
length-present (none ∷ os) = ap suc (length-present os)
length-present (some d ∷ os) = ap suc (length-present os)
