-- ===== src/MessageFrame/RoundTrip.antt =====
-- lib_message/message_frame.h: what `get_frame_message_data` finds in a message that a builder made.
use sensor_libs.Prelude.{
  ℕ, zero, suc, ◌+◌, ◌%◌, ◌^◌, ◌<◌, ◌≤◌, ◌≡◌, refl, sym, ap, ap₂, ◌∙◌, subst, true, false, none,
  some, List, [], ◌∷◌, ◌++◌, append_assoc, length, length-append, take, slice, set, replicate, blit,
  get_elem?, arith,
}
use sensor_libs.Prelude.Bytes.{le, from_le, from_le-le}
use sensor_libs.MessageFrame.{
  Feature, position, all_feature_sizes, header_size, offset, mask_word, word_mask,
  FrameMessageBuilder, new_builder, add, compact, header, finish, message, get_loop,
  get_frame_message_data,
}
use sensor_libs.MessageFrame.Compact.{
  Parts, Fits, fits_nil, fits_none, fits_some, expanded, packed, present, blit_over, compact_lem,
  expanded-set,
}
use sensor_libs.MessageFrame.Parse.{
  lookup, take_front, get_loop_lem, word_mask-mask_word, mask_word-lt, doubled, length-present,
}

-- The builders that come from a new one by `add`, each part at most once, and the parts in them.
pub data Built : FrameMessageBuilder → Parts → Type 0 where
  started : Built new_builder (replicate 9 none)
  added :
      {b b' : FrameMessageBuilder} {os : Parts} (f : Feature) (d : List ℕ)
      → Built b os
      → get_elem? os (position f) ≡ some none
      → get_elem? all_feature_sizes (position f) ≡ some (length d)
      → add b f d ≡ some b'
      → Built b' (set os (position f) (some d))

-- What a builder holds.
record Holds (b : FrameMessageBuilder) (os : Parts) : Type 0 where
  fits : Fits os all_feature_sizes
  mask : b.feature_mask ≡ present os
  size : b.message_size ≡ header_size + length (packed os)
  room : List ℕ
  cells : b.buffer ≡ replicate 4 0 ++ (expanded os all_feature_sizes ++ room)
  open_yet : b.finished ≡ false

present-set :
    (os : Parts) (i : ℕ) (d : List ℕ) → present (set os i (some d)) ≡ set (present os) i true
present-set [] i d = refl
present-set (none ∷ os) zero d = refl
present-set (some d' ∷ os) zero d = refl
present-set (none ∷ os) (suc i) d = ap (◌∷◌ false) (present-set os i d)
present-set (some d' ∷ os) (suc i) d = ap (◌∷◌ true) (present-set os i d)

packed-set :
    (os : Parts) (i : ℕ) (d : List ℕ)
    → get_elem? os i ≡ some none
    → length (packed (set os i (some d))) ≡ length (packed os) + length d
packed-set [] i d h = absurd cc
packed-set (none ∷ os) zero d h = omega (arith, length-append d (packed os))
packed-set (some d' ∷ os) zero d h = absurd cc
packed-set (none ∷ os) (suc i) d h = packed-set os i d h
packed-set (some d' ∷ os) (suc i) d h = omega (
  arith,
  packed-set os i d h,
  length-append d' (packed os),
  length-append d' (packed (set os i (some d))),
)

set-Fits :
    (os : Parts) (ns : List ℕ) (i : ℕ) (d : List ℕ)
    → Fits os ns
    → get_elem? ns i ≡ some (length d)
    → Fits (set os i (some d)) ns
set-Fits [] ns i d f h = f
set-Fits (none ∷ os) [] i d f h = elim f [ ]
set-Fits (some d' ∷ os) [] i d f h = elim f [ ]
set-Fits (none ∷ os) (n ∷ ns) zero d (fits_none p f) h = fits_some p (cc) f
set-Fits (some d' ∷ os) (n ∷ ns) zero d (fits_some p l f) h = fits_some p (cc) f
set-Fits (none ∷ os) (n ∷ ns) (suc i) d (fits_none p f) h = fits_none p (set-Fits os ns i d f h)
set-Fits (some d' ∷ os) (n ∷ ns) (suc i) d (fits_some p l f) h =
    fits_some p l (set-Fits os ns i d f h)

abbrev total : List ℕ → ℕ
total [] = 0
total (n ∷ ns) = n + total ns

packed_le : (os : Parts) (ns : List ℕ) → Fits os ns → length (packed os) ≤ total ns
packed_le [] ns f = omega arith
packed_le (none ∷ os) [] f = elim f [ ]
packed_le (some d ∷ os) [] f = elim f [ ]
packed_le (none ∷ os) (n ∷ ns) (fits_none p f) = omega (arith, packed_le os ns f)
packed_le (some d ∷ os) (n ∷ ns) (fits_some p l f) =
    omega (arith, packed_le os ns f, length-append d (packed os), l)

length-Fits : (os : Parts) (ns : List ℕ) → Fits os ns → length os ≡ length ns
length-Fits [] ns fits_nil = refl
length-Fits (none ∷ os) [] f = elim f [ ]
length-Fits (some d ∷ os) [] f = elim f [ ]
length-Fits (none ∷ os) (n ∷ ns) (fits_none p f) = ap suc (length-Fits os ns f)
length-Fits (some d ∷ os) (n ∷ ns) (fits_some p l f) = ap suc (length-Fits os ns f)

new_builder-Holds : Holds new_builder (replicate 9 none)
unfolding new_builder
new_builder-Holds = record {
  fits = fits_none (omega arith) (
      fits_none (omega arith) (
        fits_none (omega arith) (
          fits_none (omega arith) (
            fits_none (omega arith) (
              fits_none (omega arith) (
                fits_none (omega arith)
                  (fits_none (omega arith) (fits_none (omega arith) fits_nil))))))));
  mask = refl;
  size = refl;
  room = replicate 392 0;
  cells = refl;
  open_yet = refl;
}

add-Holds :
    (b b' : FrameMessageBuilder) (os : Parts) (f : Feature) (d : List ℕ)
    → Holds b os
    → get_elem? os (position f) ≡ some none
    → get_elem? all_feature_sizes (position f) ≡ some (length d)
    → add b f d ≡ some b'
    → Holds b' (set os (position f) (some d))
unfolding add offset
add-Holds b b' os f d h o s e =
    let new : FrameMessageBuilder = record b {
      feature_mask = set b.feature_mask (position f) true;
      message_size = (b.message_size + length d) % 2 ^ 32;
      buffer = blit b.buffer (offset f) d;
    } in
    let made : add b f d ≡ some new = rw (add, h.open_yet) in
    let same : new ≡ b' = cc in
    let fits' = set-Fits os all_feature_sizes (position f) d h.fits s in
    subst (λ x. Holds x (set os (position f) (some d))) same
      (record {
        fits = fits';
        mask = ap (λ m. set m (position f) true) h.mask ∙ sym (present-set os (position f) d);
        size = omega (
          arith,
          h.size,
          packed-set os (position f) d o,
          packed_le (set os (position f) (some d)) all_feature_sizes fits',
        );
        room = h.room;
        cells =
            ap (λ xs. blit xs (offset f) d) h.cells
            ∙ expanded-set os all_feature_sizes (replicate 4 0) h.room (position f) (offset f) d
                h.fits o s refl;
        open_yet = h.open_yet;
      })

Built-Holds : (b : FrameMessageBuilder) (os : Parts) → Built b os → Holds b os
Built-Holds b os started = new_builder-Holds
Built-Holds b' os' (added {b = b} {os = os} f d built o s e) =
    add-Holds b b' os f d (Built-Holds b os built) o s e

-- The message of a finished builder: the header and the parts that are there.
message_lem :
    (b : FrameMessageBuilder) (os : Parts) → Holds b os → message (finish b) ≡ header b ++ packed os
unfolding message finish header
message_lem b os h =
    let (tail, together) =
      compact_lem os all_feature_sizes (replicate 4 0) h.room header_size h.fits refl in
    let compacted : compact b.feature_mask all_feature_sizes header_size b.buffer
        ≡ replicate 4 0 ++ (packed os ++ tail) =
      ap₂ (λ m xs. compact m all_feature_sizes header_size xs) h.mask h.cells ∙ together in
    let buffer : blit (compact b.feature_mask all_feature_sizes header_size b.buffer) 0 (header b)
        ≡ header b ++ (packed os ++ tail) =
      ap (λ xs. blit xs 0 (header b)) compacted
      ∙ blit_over [] (replicate 4 0) (header b) (packed os ++ tail) 0 refl refl in
    rw (message, finish, h.open_yet)
      (ap (take b.message_size) (buffer ∙ sym (append_assoc (header b) (packed os) tail))
        ∙ take_front (header b ++ packed os) tail b.message_size
            (omega (arith, h.size, length-append (header b) (packed os))))

length-header : (b : FrameMessageBuilder) → header_size ≡ length (header b)
unfolding header
length-header b = refl

header_mask :
    (b : FrameMessageBuilder) (os : Parts)
    → Holds b os
    → word_mask 9 (from_le (slice (header b ++ packed os) 2 2)) ≡ present os
unfolding header
header_mask b os h =
    let nine : length (present os) ≡ 9 =
      length-present os ∙ length-Fits os all_feature_sizes h.fits in
    let small : mask_word (present os) < doubled 9 =
      subst (λ n. mask_word (present os) < doubled n) nine (mask_word-lt (present os)) in
    ap (λ m. word_mask 9 (from_le (le 2 (mask_word m)))) h.mask
    ∙ ap (word_mask 9) (from_le-le 2 (mask_word (present os)) (omega (arith, small)))
    ∙ ap (λ n. word_mask n (mask_word (present os))) (sym nine)
    ∙ word_mask-mask_word (present os)

-- A builder that got each part at most once, in any order, makes a message in which
-- `get_frame_message_data` finds the data of every part that was added, returns -1 for every other
-- one, and reads nothing behind the message.
pub get-message :
    (b : FrameMessageBuilder) (os : Parts) (f : Feature)
    → Built b os
    → get_frame_message_data (message (finish b)) f ≡ lookup os (position f)
unfolding get_frame_message_data
get-message b os f built =
    let h = Built-Holds b os built in
    ap (λ xs. get_frame_message_data xs f) (message_lem b os h)
    ∙ ap (λ m. get_loop (position f) 0 m all_feature_sizes header_size (header b ++ packed os))
        (header_mask b os h)
    ∙ get_loop_lem os all_feature_sizes (header b) header_size (position f) 0 (position f) h.fits
        (length-header b) (omega arith)
