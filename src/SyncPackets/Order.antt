-- ===== src/SyncPackets/Order.antt =====
-- lib_util/sync_packets.h: the order of a queue, and what `push` keeps of it.
use native.Mathlib.Decide.{dec_lt}
use sensor_libs.Prelude.{
  ℕ, zero, suc, ◌+◌, ◌-◌, ◌<◌, ◌≤◌, ◌≡◌, ◌⊎◌, inl, inr, refl, ◌∙◌, ap, true, false, Bool-cases,
  none, some, List, [], ◌∷◌, ◌++◌, length, length-append, length-drop, drop, get_elem?, ltb, ltb→lt,
  if◌then◌else◌, arith,
}
use sensor_libs.SyncPackets.{push, monotonic}

module _ {A : Type 0} (timestamp_us : A → ℕ) where
  -- The timestamp at an index, 0 after the end.
  abbrev pub stamp : List A → ℕ → ℕ
  stamp [] i = 0
  stamp (x ∷ xs) zero = timestamp_us x
  stamp (x ∷ xs) (suc i) = stamp xs i

  abbrev pub IsSorted : List A → Type 0
  IsSorted xs = (i j : ℕ) → i ≤ j → j < length xs → stamp xs i ≤ stamp xs j

  -- The timestamp of the last packet.
  abbrev pub last_stamp : List A → ℕ
  last_stamp xs = stamp xs (length xs - 1)

  stamp-index : (xs : List A) (i j : ℕ) → i ≡ j → stamp xs i ≡ stamp xs j
  stamp-index xs i j e = ap (stamp xs) e

  pub get_elem?-stamp :
      (xs : List A) (i : ℕ)
      → i < length xs
      → (x : A) × (get_elem? xs i ≡ some x) × (timestamp_us x ≡ stamp xs i)
  get_elem?-stamp [] i h = absurd (omega arith)
  get_elem?-stamp (x ∷ xs) zero h = (x, refl, refl)
  get_elem?-stamp (x ∷ xs) (suc i) h = get_elem?-stamp xs i (omega arith)

  pub get_elem?-none : (xs : List A) (i : ℕ) → length xs ≤ i → get_elem? xs i ≡ none
  get_elem?-none [] i h = refl
  get_elem?-none (x ∷ xs) zero h = absurd (omega arith)
  get_elem?-none (x ∷ xs) (suc i) h = get_elem?-none xs i (omega arith)

  pub stamp-drop : (n : ℕ) (xs : List A) (i : ℕ) → stamp (drop n xs) i ≡ stamp xs (n + i)
  stamp-drop zero xs i = stamp-index xs i (0 + i) (omega arith)
  stamp-drop (suc n) [] i = refl
  stamp-drop (suc n) (x ∷ xs) i =
      stamp-drop n xs i ∙ stamp-index (x ∷ xs) (suc (n + i)) (suc n + i) (omega arith)

  stamp-append_left : (xs ys : List A) (i : ℕ) → i < length xs → stamp (xs ++ ys) i ≡ stamp xs i
  stamp-append_left [] ys i h = absurd (omega arith)
  stamp-append_left (x ∷ xs) ys zero h = refl
  stamp-append_left (x ∷ xs) ys (suc i) h = stamp-append_left xs ys i (omega arith)

  stamp-append_last : (xs : List A) (x : A) → stamp (xs ++ (x ∷ [])) (length xs) ≡ timestamp_us x
  stamp-append_last [] x = refl
  stamp-append_last (y ∷ xs) x = stamp-append_last xs x

  stamp-append_end :
      (xs : List A) (x : A) (j : ℕ) → j ≡ length xs → stamp (xs ++ (x ∷ [])) j ≡ timestamp_us x
  stamp-append_end xs x j e = stamp-index (xs ++ (x ∷ [])) j (length xs) e ∙ stamp-append_last xs x

  pub drop-IsSorted : (n : ℕ) (xs : List A) → IsSorted xs → IsSorted (drop n xs)
  drop-IsSorted n xs s i j h l = omega (
    arith,
    stamp-drop n xs i,
    stamp-drop n xs j,
    length-drop n xs,
    s (n + i) (n + j) (omega arith) (omega (arith, length-drop n xs)),
  )

  monotonic_lem :
      (x : A) (xs : List A) (ts : ℕ)
      → monotonic timestamp_us (x ∷ xs) ts ≡ (if ltb ts (last_stamp (x ∷ xs)) then false else true)
  unfolding monotonic
  monotonic_lem x [] ts = refl
  monotonic_lem x (y ∷ rest) ts =
      monotonic_lem y rest ts
      ∙ ap (λ n. if ltb ts n then false else true)
          (stamp-index (x ∷ y ∷ rest) (suc (length (y ∷ rest) - 1)) (length (x ∷ y ∷ rest) - 1)
            (omega arith))

  -- Which packets `push` takes.
  monotonic_cases :
      (xs : List A) (ts : ℕ)
      → ((monotonic timestamp_us xs ts ≡ true) × ((xs ≡ []) ⊎ (last_stamp xs ≤ ts)))
        ⊎ ((monotonic timestamp_us xs ts ≡ false) × (ts < last_stamp xs))
  unfolding monotonic
  monotonic_cases [] ts = inl (refl, inl refl)
  monotonic_cases (x ∷ xs) ts = elim (Bool-cases (ltb ts (last_stamp (x ∷ xs)))) [
    | inl e ↦ inr (monotonic_lem x xs ts ∙ rw e refl, ltb→lt ts _ e)
    | inr e ↦ inl (monotonic_lem x xs ts ∙ rw e refl, inr (ground arith))
  ]

  below_last :
      (xs : List A) (x : A)
      → IsSorted xs
      → (xs ≡ []) ⊎ (last_stamp xs ≤ timestamp_us x)
      → (i : ℕ) → i < length xs
      → stamp xs i ≤ timestamp_us x
  below_last xs x s (inl e) i h = absurd (omega (arith, ap length e))
  below_last xs x s (inr l) i h = omega (arith, l, s i (length xs - 1) (omega arith) (omega arith))

  append-IsSorted :
      (xs : List A) (x : A)
      → IsSorted xs
      → (xs ≡ []) ⊎ (last_stamp xs ≤ timestamp_us x)
      → IsSorted (xs ++ (x ∷ []))
  append-IsSorted xs x s last i j h l =
      let j_in : j ≤ length xs = omega (arith, length-append xs (x ∷ [])) in
      elim (dec_lt j (length xs)) [
        | yes k ↦ omega (
          arith,
          s i j h k,
          stamp-append_left xs (x ∷ []) i (omega arith),
          stamp-append_left xs (x ∷ []) j k,
        )
        | no k ↦ elim (dec_lt i (length xs)) [
          | yes k' ↦ omega (
            arith,
            below_last xs x s last i k',
            stamp-append_left xs (x ∷ []) i k',
            stamp-append_end xs x j (omega arith),
          )
          | no k' ↦
              omega (
                arith,
                stamp-append_end xs x i (omega arith),
                stamp-append_end xs x j (omega arith),
              )
        ]
      ]

  -- A packet whose timestamp is at least the last one in the queue, or that comes to an empty queue, is
  -- put at the end; every other packet is refused. A queue in order is in order after `push`.
  pub push-IsSorted :
      (xs : List A) (x : A)
      → IsSorted xs
      → ((push timestamp_us xs x ≡ some (xs ++ (x ∷ [])))
          × ((xs ≡ []) ⊎ (last_stamp xs ≤ timestamp_us x))
          × IsSorted (xs ++ (x ∷ [])))
        ⊎ ((push timestamp_us xs x ≡ none) × (timestamp_us x < last_stamp xs))
  unfolding push
  push-IsSorted xs x s = elim (monotonic_cases xs (timestamp_us x)) [
    | inl (e, last) ↦ inl (rw (push, e), last, append-IsSorted xs x s last)
    | inr (e, last) ↦ inr (rw (push, e), last)
  ]
