-- ===== src/CommandQueue/Counts.antt =====
-- lib_util/command_queue.h: how often an index stands in a queue, and how often a context is counted.
use native.Mathlib.Decide.{dec_lt}
use sensor_libs.Prelude.{
  ℕ, zero, suc, ◌+◌, ◌<◌, ◌≤◌, ◌≡◌, ◌≢◌, refl, sym, ap, ◌∙◌, some, List, [], ◌∷◌, ◌++◌, length,
  get_elem?, ◌==◌, ltb, if◌then◌else◌, arith,
}
use sensor_libs.CommandQueue.{FuncContext, modify}

abbrev pub count : ℕ → List ℕ → ℕ
count i [] = 0
count i (x ∷ xs) = (if x == i then 1 else 0) + count i xs

pub count-append : (i : ℕ) (xs ys : List ℕ) → count i (xs ++ ys) ≡ count i xs + count i ys
count-append i [] ys = omega arith
count-append i (x ∷ xs) ys = omega (arith, count-append i xs ys)

pub count_self : (i : ℕ) (xs : List ℕ) → count i (i ∷ xs) ≡ suc (count i xs)
count_self i xs = ground arith

total : ℕ → List ℕ → ℕ
total zero xs = 0
total (suc n) xs = count n xs + total n xs

total-nil : (n : ℕ) → total n [] ≡ 0
unfolding total
total-nil zero = refl
total-nil (suc n) = omega (arith, total-nil n)

total-cons : (n x : ℕ) (xs : List ℕ) → total n (x ∷ xs) ≡ (if ltb x n then 1 else 0) + total n xs
unfolding total
total-cons zero x xs = ground arith
total-cons (suc n) x xs = ground (arith, total-cons n x xs)

length-total : (n : ℕ) (xs : List ℕ) → ((i : ℕ) → n ≤ i → count i xs ≡ 0) → length xs ≡ total n xs
length-total n [] h = sym (total-nil n)
length-total n (x ∷ xs) h =
    let rest = length-total n xs (λ i l. ground (arith, h i l)) in
    elim (dec_lt x n) [
      | yes l ↦ ground (arith, rest, total-cons n x xs)
      | no l ↦ absurd (omega (arith, h x (omega arith), count_self x xs))
    ]

total-le : (n : ℕ) (xs : List ℕ) → ((i : ℕ) → count i xs ≤ 1) → total n xs ≤ n
unfolding total
total-le zero xs h = omega arith
total-le (suc n) xs h = omega (arith, h n, total-le n xs h)

total-lt :
    (n k : ℕ) (xs : List ℕ) → ((i : ℕ) → count i xs ≤ 1) → k < n → count k xs ≡ 0 → total n xs < n
unfolding total
total-lt zero k xs h l e = absurd (omega arith)
total-lt (suc n) k xs h l e = elim (dec_lt k n) [
  | yes l' ↦ omega (arith, h n, total-lt n k xs h l' e)
  | no l' ↦
      let same : k ≡ n = omega arith in
      let none_here : count n xs ≡ 0 = ap (λ i. count i xs) (sym same) ∙ e in
      omega (arith, none_here, total-le n xs h)
]

total-full : (n : ℕ) (xs : List ℕ) → ((i : ℕ) → i < n → count i xs ≡ 1) → total n xs ≡ n
unfolding total
total-full zero xs h = refl
total-full (suc n) xs h =
    omega (arith, h n (omega arith), total-full n xs (λ i l. h i (omega arith)))

-- A list with each index below `n` once and no other has `n` entries.
pub length-full :
    (n : ℕ) (xs : List ℕ)
    → ((i : ℕ) → n ≤ i → count i xs ≡ 0)
    → ((i : ℕ) → i < n → count i xs ≡ 1)
    → length xs ≡ n
length-full n xs out h = length-total n xs out ∙ total-full n xs h

-- Different indices below `n`, one of those missing, are fewer than `n`.
pub length-lt :
    (n k : ℕ) (xs : List ℕ)
    → ((i : ℕ) → count i xs ≤ 1)
    → ((i : ℕ) → n ≤ i → count i xs ≡ 0)
    → k < n
    → count k xs ≡ 0
    → length xs < n
length-lt n k xs h out l e = omega (arith, length-total n xs out, total-lt n k xs h l e)

module _ {F : Type 0} where
  -- How often the context is counted; 0 where there is none.
  abbrev pub ref_at : List (FuncContext F) → ℕ → ℕ
  ref_at [] i = 0
  ref_at (c ∷ cs) zero = c.ref_count
  ref_at (c ∷ cs) (suc i) = ref_at cs i

  pub ref_at-modify :
      (g : FuncContext F → FuncContext F) (cs : List (FuncContext F)) (c : FuncContext F) (i j : ℕ)
      → get_elem? cs i ≡ some c
      → ref_at (modify g cs i) j ≡ (if i == j then (g c).ref_count else ref_at cs j)
  ref_at-modify g [] c i j h = absurd cc
  ref_at-modify g (d ∷ cs) c zero zero h =
      let same : d ≡ c = cc in ap (λ (x : FuncContext F). (g x).ref_count) same
  ref_at-modify g (d ∷ cs) c zero (suc j) h = ground arith
  ref_at-modify g (d ∷ cs) c (suc i) zero h = ground arith
  ref_at-modify g (d ∷ cs) c (suc i) (suc j) h = ground (arith, ref_at-modify g cs c i j h)

  pub ref_at-get_elem? :
      (cs : List (FuncContext F)) (c : FuncContext F) (i : ℕ)
      → get_elem? cs i ≡ some c
      → ref_at cs i ≡ c.ref_count
  ref_at-get_elem? [] c i h = absurd cc
  ref_at-get_elem? (d ∷ cs) c zero h =
      let same : d ≡ c = cc in ap (λ (x : FuncContext F). x.ref_count) same
  ref_at-get_elem? (d ∷ cs) c (suc i) h = ref_at-get_elem? cs c i h

  pub length-modify :
      (g : FuncContext F → FuncContext F) (cs : List (FuncContext F)) (i : ℕ)
      → length (modify g cs i) ≡ length cs
  length-modify g [] i = refl
  length-modify g (c ∷ cs) zero = refl
  length-modify g (c ∷ cs) (suc i) = ap suc (length-modify g cs i)

  pub get_elem?-modify_other :
      (g : FuncContext F → FuncContext F) (cs : List (FuncContext F)) (i j : ℕ)
      → i ≢ j
      → get_elem? (modify g cs i) j ≡ get_elem? cs j
  get_elem?-modify_other g [] i j h = refl
  get_elem?-modify_other g (c ∷ cs) zero zero h = absurd (h refl)
  get_elem?-modify_other g (c ∷ cs) zero (suc j) h = refl
  get_elem?-modify_other g (c ∷ cs) (suc i) zero h = refl
  get_elem?-modify_other g (c ∷ cs) (suc i) (suc j) h =
      get_elem?-modify_other g cs i j (λ e. h (ap suc e))

  pub get_elem?-modify_self :
      (g : FuncContext F → FuncContext F) (cs : List (FuncContext F)) (c : FuncContext F) (i : ℕ)
      → get_elem? cs i ≡ some c
      → get_elem? (modify g cs i) i ≡ some (g c)
  get_elem?-modify_self g [] c i h = absurd cc
  get_elem?-modify_self g (d ∷ cs) c zero h = ap some (ap g (cc))
  get_elem?-modify_self g (d ∷ cs) c (suc i) h = get_elem?-modify_self g cs c i h

  -- A context that is counted is there.
  pub get_elem?-counted :
      (cs : List (FuncContext F)) (i : ℕ)
      → 0 < ref_at cs i
      → (c : FuncContext F) × (get_elem? cs i ≡ some c)
  get_elem?-counted [] i h = absurd (omega arith)
  get_elem?-counted (c ∷ cs) zero h = (c, refl)
  get_elem?-counted (c ∷ cs) (suc i) h = get_elem?-counted cs i h

  pub get_elem?-below :
      (cs : List (FuncContext F)) (i : ℕ)
      → i < length cs
      → (c : FuncContext F) × (get_elem? cs i ≡ some c)
  get_elem?-below [] i h = absurd (omega arith)
  get_elem?-below (c ∷ cs) zero h = (c, refl)
  get_elem?-below (c ∷ cs) (suc i) h = get_elem?-below cs i (omega arith)

  pub ref_at-above : (cs : List (FuncContext F)) (i : ℕ) → length cs ≤ i → ref_at cs i ≡ 0
  ref_at-above [] i h = refl
  ref_at-above (c ∷ cs) zero h = absurd (omega arith)
  ref_at-above (c ∷ cs) (suc i) h = ref_at-above cs i (omega arith)
