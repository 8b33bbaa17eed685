-- ===== src/Prelude/Lists.antt =====
-- Lists measured and indexed by native numbers, and memory blocks: `get_or` reads a cell, `blit`
-- is a `memcpy` into a block, `slice` is one out of it, and `tabulate` describes a block by its cells.
use Prim.Native.Nat.{ℕ, zero, suc, ◌+◌, ◌-◌, ◌≤◌, ◌<◌, min}
use mathlib.Core.Path.{sym, ◌≡◌, refl, ap, ap₂, ◌∙◌}
use mathlib.Core.List.{List, [], ◌∷◌, ◌++◌}
use mathlib.Core.Option.{Option, none, some}
use native.Mathlib.Omega.{arith}

module _ {ℓ} {A : Type ℓ} where
  abbrev pub length : List A → ℕ
  length [] = 0
  length (x ∷ xs) = suc (length xs)

  abbrev pub get_elem? : List A → ℕ → Option A
  get_elem? [] i = none
  get_elem? (x ∷ xs) zero = some x
  get_elem? (x ∷ xs) (suc i) = get_elem? xs i

  abbrev pub get_or : List A → ℕ → A → A
  get_or [] i d = d
  get_or (x ∷ xs) zero d = x
  get_or (x ∷ xs) (suc i) d = get_or xs i d

  abbrev pub set : List A → ℕ → A → List A
  set [] i v = []
  set (x ∷ xs) zero v = v ∷ xs
  set (x ∷ xs) (suc i) v = x ∷ set xs i v

  abbrev pub take : ℕ → List A → List A
  take zero xs = []
  take (suc n) [] = []
  take (suc n) (x ∷ xs) = x ∷ take n xs

  abbrev pub drop : ℕ → List A → List A
  drop zero xs = xs
  drop (suc n) [] = []
  drop (suc n) (x ∷ xs) = drop n xs

  abbrev pub replicate : ℕ → A → List A
  replicate zero a = []
  replicate (suc n) a = a ∷ replicate n a

  -- `memcpy (dst + i, src, size of src)`; what falls past the end of the block is dropped.
  abbrev pub blit : List A → ℕ → List A → List A
  blit [] i src = []
  blit (x ∷ xs) (suc i) src = x ∷ blit xs i src
  blit (x ∷ xs) zero [] = x ∷ xs
  blit (x ∷ xs) zero (y ∷ ys) = y ∷ blit xs zero ys

  -- The `n` cells from `i` on.
  abbrev pub slice : List A → ℕ → ℕ → List A
  slice xs i n = take n (drop i xs)

  abbrev pub tabulate : ℕ → (ℕ → A) → List A
  tabulate zero f = []
  tabulate (suc n) f = f 0 ∷ tabulate n (λ i. f (suc i))

  pub length-append : (xs ys : List A) → length (xs ++ ys) ≡ length xs + length ys
  length-append [] ys = omega arith
  length-append (x ∷ xs) ys = omega (arith, length-append xs ys)

  pub length-take : (n : ℕ) (xs : List A) → length (take n xs) ≡ min n (length xs)
  length-take zero xs = omega arith
  length-take (suc n) [] = omega arith
  length-take (suc n) (x ∷ xs) = omega (arith, length-take n xs)

  pub length-drop : (n : ℕ) (xs : List A) → length (drop n xs) ≡ length xs - n
  length-drop zero xs = omega arith
  length-drop (suc n) [] = omega arith
  length-drop (suc n) (x ∷ xs) = omega (arith, length-drop n xs)

  pub length-replicate : (n : ℕ) (a : A) → length (replicate n a) ≡ n
  length-replicate zero a = refl
  length-replicate (suc n) a = ap suc (length-replicate n a)

  pub length-blit : (xs : List A) (i : ℕ) (src : List A) → length (blit xs i src) ≡ length xs
  length-blit [] i src = refl
  length-blit (x ∷ xs) (suc i) src = ap suc (length-blit xs i src)
  length-blit (x ∷ xs) zero [] = refl
  length-blit (x ∷ xs) zero (y ∷ ys) = ap suc (length-blit xs zero ys)

  pub length-tabulate : (n : ℕ) (f : ℕ → A) → length (tabulate n f) ≡ n
  length-tabulate zero f = refl
  length-tabulate (suc n) f = ap suc (length-tabulate n (λ i. f (suc i)))

  pub get_or-index : (xs : List A) (i j : ℕ) (d : A) → i ≡ j → get_or xs i d ≡ get_or xs j d
  get_or-index xs i j d e = ap (λ k. get_or xs k d) e

  -- What a cell holds after a `memcpy`: below the copy, in it, and above it.
  pub get_or-blit_below :
      (xs : List A) (i : ℕ) (src : List A) (j : ℕ) (d : A)
      → j < i
      → get_or (blit xs i src) j d ≡ get_or xs j d
  get_or-blit_below [] i src j d h = refl
  get_or-blit_below (x ∷ xs) zero src j d h = absurd (omega arith)
  get_or-blit_below (x ∷ xs) (suc i) src zero d h = refl
  get_or-blit_below (x ∷ xs) (suc i) src (suc j) d h = get_or-blit_below xs i src j d (omega arith)

  pub get_or-blit_in :
      (xs : List A) (i : ℕ) (src : List A) (k : ℕ) (d : A)
      → i + length src ≤ length xs
      → k < length src
      → get_or (blit xs i src) (i + k) d ≡ get_or src k d
  get_or-blit_in xs i [] k d h l = absurd (omega arith)
  get_or-blit_in [] i (y ∷ ys) k d h l = absurd (omega arith)
  get_or-blit_in (x ∷ xs) (suc i) (y ∷ ys) k d h l =
      get_or-index (x ∷ blit xs i (y ∷ ys)) (suc i + k) (suc (i + k)) d (omega arith)
      ∙ get_or-blit_in xs i (y ∷ ys) k d (omega arith) l
  get_or-blit_in (x ∷ xs) zero (y ∷ ys) zero d h l =
      get_or-index (y ∷ blit xs zero ys) (0 + 0) 0 d (omega arith)
  get_or-blit_in (x ∷ xs) zero (y ∷ ys) (suc k) d h l =
      get_or-index (y ∷ blit xs zero ys) (0 + suc k) (suc (0 + k)) d (omega arith)
      ∙ get_or-blit_in xs zero ys k d (omega arith) (omega arith)

  pub get_or-blit_above :
      (xs : List A) (i : ℕ) (src : List A) (j : ℕ) (d : A)
      → i + length src ≤ j
      → get_or (blit xs i src) j d ≡ get_or xs j d
  get_or-blit_above [] i src j d h = refl
  get_or-blit_above (x ∷ xs) zero [] j d h = refl
  get_or-blit_above (x ∷ xs) zero (y ∷ ys) zero d h = absurd (omega arith)
  get_or-blit_above (x ∷ xs) zero (y ∷ ys) (suc j) d h =
      get_or-blit_above xs zero ys j d (omega arith)
  get_or-blit_above (x ∷ xs) (suc i) src zero d h = absurd (omega arith)
  get_or-blit_above (x ∷ xs) (suc i) src (suc j) d h = get_or-blit_above xs i src j d (omega arith)

  pub get_or-take :
      (n : ℕ) (xs : List A) (i : ℕ) (d : A) → i < n → get_or (take n xs) i d ≡ get_or xs i d
  get_or-take zero xs i d h = absurd (omega arith)
  get_or-take (suc n) [] i d h = refl
  get_or-take (suc n) (x ∷ xs) zero d h = refl
  get_or-take (suc n) (x ∷ xs) (suc i) d h = get_or-take n xs i d (omega arith)

  pub get_or-drop :
      (n : ℕ) (xs : List A) (i : ℕ) (d : A) → get_or (drop n xs) i d ≡ get_or xs (n + i) d
  get_or-drop zero xs i d = get_or-index xs i (0 + i) d (omega arith)
  get_or-drop (suc n) [] i d = refl
  get_or-drop (suc n) (x ∷ xs) i d =
      get_or-drop n xs i d ∙ get_or-index (x ∷ xs) (suc (n + i)) (suc n + i) d (omega arith)

  pub get_or-append_left :
      (xs ys : List A) (i : ℕ) (d : A) → i < length xs → get_or (xs ++ ys) i d ≡ get_or xs i d
  get_or-append_left [] ys i d h = absurd (omega arith)
  get_or-append_left (x ∷ xs) ys zero d h = refl
  get_or-append_left (x ∷ xs) ys (suc i) d h = get_or-append_left xs ys i d (omega arith)

  pub get_or-append_right :
      (xs ys : List A) (i : ℕ) (d : A) → get_or (xs ++ ys) (length xs + i) d ≡ get_or ys i d
  get_or-append_right [] ys i d = get_or-index ys (0 + i) i d (omega arith)
  get_or-append_right (x ∷ xs) ys i d =
      get_or-index (x ∷ (xs ++ ys)) (suc (length xs) + i) (suc (length xs + i)) d (omega arith)
      ∙ get_or-append_right xs ys i d

  pub take-append-drop : (n : ℕ) (xs : List A) → take n xs ++ drop n xs ≡ xs
  take-append-drop zero xs = refl
  take-append-drop (suc n) [] = refl
  take-append-drop (suc n) (x ∷ xs) = ap (◌∷◌ x) (take-append-drop n xs)

  pub get_or-tabulate :
      (n : ℕ) (f : ℕ → A) (i : ℕ) (d : A) → i < n → get_or (tabulate n f) i d ≡ f i
  get_or-tabulate zero f i d h = absurd (omega arith)
  get_or-tabulate (suc n) f zero d h = refl
  get_or-tabulate (suc n) f (suc i) d h = get_or-tabulate n (λ i. f (suc i)) i d (omega arith)

  pub blit-nil : (xs : List A) (i : ℕ) → blit xs i [] ≡ xs
  blit-nil [] i = refl
  blit-nil (x ∷ xs) zero = refl
  blit-nil (x ∷ xs) (suc i) = ap (◌∷◌ x) (blit-nil xs i)

  pub drop-length : (n : ℕ) (xs : List A) → length xs ≤ n → drop n xs ≡ []
  drop-length zero [] h = refl
  drop-length zero (x ∷ xs) h = absurd (omega arith)
  drop-length (suc n) [] h = refl
  drop-length (suc n) (x ∷ xs) h = drop-length n xs (omega arith)

  pub take-length : (n : ℕ) (xs : List A) → length xs ≤ n → take n xs ≡ xs
  take-length zero [] h = refl
  take-length zero (x ∷ xs) h = absurd (omega arith)
  take-length (suc n) [] h = refl
  take-length (suc n) (x ∷ xs) h = ap (◌∷◌ x) (take-length n xs (omega arith))

  pub take-take : (k n : ℕ) (xs : List A) → k ≤ n → take k (take n xs) ≡ take k xs
  take-take zero n xs h = refl
  take-take (suc k) zero xs h = absurd (omega arith)
  take-take (suc k) (suc n) [] h = refl
  take-take (suc k) (suc n) (x ∷ xs) h = ap (◌∷◌ x) (take-take k n xs (omega arith))

  pub drop-index : (xs : List A) (i j : ℕ) → i ≡ j → drop i xs ≡ drop j xs
  drop-index xs i j e = ap (λ k. drop k xs) e

  drop_of_nil : (n : ℕ) → drop n [] ≡ []
  drop_of_nil zero = refl
  drop_of_nil (suc n) = refl

  pub drop-drop : (m n : ℕ) (xs : List A) → drop n (drop m xs) ≡ drop (m + n) xs
  drop-drop zero n xs = drop-index xs n (0 + n) (omega arith)
  drop-drop (suc m) zero [] = sym (drop_of_nil (suc m + zero))
  drop-drop (suc m) (suc n) [] = sym (drop_of_nil (suc m + suc n))
  drop-drop (suc m) n (x ∷ xs) =
      drop-drop m n xs ∙ drop-index (x ∷ xs) (suc (m + n)) (suc m + n) (omega arith)

  pub take_of_append : (xs ys : List A) → take (length xs) (xs ++ ys) ≡ xs
  take_of_append [] ys = refl
  take_of_append (x ∷ xs) ys = ap (◌∷◌ x) (take_of_append xs ys)

  pub drop-append : (n : ℕ) (xs ys : List A) → n ≤ length xs → drop n (xs ++ ys) ≡ drop n xs ++ ys
  drop-append zero xs ys h = refl
  drop-append (suc n) [] ys h = absurd (omega arith)
  drop-append (suc n) (x ∷ xs) ys h = drop-append n xs ys (omega arith)

  pub nil_of_length : (xs : List A) → length xs ≡ 0 → xs ≡ []
  nil_of_length [] h = refl
  nil_of_length (x ∷ xs) h = absurd (omega arith)

  -- Two lists are equal if their lengths and their cells are.
  pub list_ext :
      (xs ys : List A) (d : A)
      → length xs ≡ length ys
      → ((i : ℕ) → i < length xs → get_or xs i d ≡ get_or ys i d)
      → xs ≡ ys
  list_ext [] [] d e h = refl
  list_ext [] (y ∷ ys) d e h = absurd (omega arith)
  list_ext (x ∷ xs) [] d e h = absurd (omega arith)
  list_ext (x ∷ xs) (y ∷ ys) d e h =
      ap₂ ◌∷◌ (h 0 (omega arith)) (list_ext xs ys d (omega arith) (λ i l. h (suc i) (omega arith)))

  pub tabulate_ext :
      (n : ℕ) (f g : ℕ → A) → ((i : ℕ) → i < n → f i ≡ g i) → tabulate n f ≡ tabulate n g
  tabulate_ext zero f g h = refl
  tabulate_ext (suc n) f g h =
      ap₂ ◌∷◌ (h 0 (omega arith)) (tabulate_ext n _ _ (λ i k. h (suc i) (omega arith)))

  pub tabulate-get_or : (xs : List A) (d : A) → tabulate (length xs) (λ i. get_or xs i d) ≡ xs
  tabulate-get_or [] d = refl
  tabulate-get_or (x ∷ xs) d = ap (◌∷◌ x) (tabulate-get_or xs d)
