-- ===== src/SyncPackets/Closest.antt =====
-- lib_util/sync_packets.h: what `find_closest_packet` and `pop` find.
use native.Mathlib.Decide.{dec_lt}
use sensor_libs.Prelude.{
  ℕ, zero, suc, ◌+◌, ◌-◌, ◌^◌, ◌%◌, ◌<◌, ◌≤◌, ◌≡◌, ◌⊎◌, ◌↔◌, ◌≢◌, Option-cases, inl, inr, refl, sym,
  ◌∙◌, ap, Bool-cases, none, some, List, [], ◌∷◌, length, get_elem?, sub64, word64, ltb, ltb→lt,
  arith, tests,
}
use sensor_libs.SyncPackets.{Long, long32, long64, half, labs, lower_bound, find_closest_packet}
use sensor_libs.SyncPackets.Order.{stamp, IsSorted, last_stamp, get_elem?-stamp, get_elem?-none}

pub dist : ℕ → ℕ → ℕ
dist a b = (a - b) + (b - a)

-- The difference of two words as the code takes it, where it is small.
labs_lem :
    (long : Long) (a b : ℕ)
    → a < word64
    → b < word64
    → dist a b < half long
    → labs long (sub64 a b) ≡ dist a b
unfolding labs dist
labs_lem long32 a b ha hb h = elim (Bool-cases (ltb (sub64 a b % 2 ^ 32) (2 ^ 31))) [
  | inl e ↦ rw e (omega (tests, e))
  | inr e ↦ rw e (ground arith)
]
labs_lem long64 a b ha hb h = elim (Bool-cases (ltb (sub64 a b % 2 ^ 64) (2 ^ 63))) [
  | inl e ↦ rw e (omega (tests, e))
  | inr e ↦ rw e (ground arith)
]

module _ {A : Type 0} (timestamp_us : A → ℕ) where
  -- One step of the search.
  lower_bound_step :
      (x : A) (xs : List A) (ts : ℕ)
      → ((timestamp_us x < ts)
          × (lower_bound timestamp_us (x ∷ xs) ts ≡ suc (lower_bound timestamp_us xs ts)))
        ⊎ ((ts ≤ timestamp_us x) × (lower_bound timestamp_us (x ∷ xs) ts ≡ 0))
  unfolding lower_bound
  lower_bound_step x xs ts = elim (Bool-cases (ltb (timestamp_us x) ts)) [
    | inl e ↦ inl (ltb→lt _ _ e, rw (lower_bound, e))
    | inr e ↦ inr (ground arith, rw (lower_bound, e))
  ]

  lower_bound-below :
      (xs : List A) (ts j : ℕ) → j < lower_bound timestamp_us xs ts → stamp timestamp_us xs j < ts
  unfolding lower_bound
  lower_bound-below [] ts j h = absurd (omega arith)
  lower_bound-below (x ∷ xs) ts zero h = elim (lower_bound_step x xs ts) [
    | inl (l, e) ↦ l
    | inr (l, e) ↦ absurd (omega (arith, h, e))
  ]
  lower_bound-below (x ∷ xs) ts (suc j) h = elim (lower_bound_step x xs ts) [
    | inl (l, e) ↦ lower_bound-below xs ts j (omega (arith, h, e))
    | inr (l, e) ↦ absurd (omega (arith, h, e))
  ]

  lower_bound-above :
      (xs : List A) (ts i : ℕ)
      → i ≡ lower_bound timestamp_us xs ts
      → i < length xs
      → ts ≤ stamp timestamp_us xs i
  unfolding lower_bound
  lower_bound-above [] ts i q h = absurd (omega arith)
  lower_bound-above (x ∷ xs) ts zero q h = elim (lower_bound_step x xs ts) [
    | inl (l, e) ↦ absurd (omega (arith, q, e))
    | inr (l, e) ↦ l
  ]
  lower_bound-above (x ∷ xs) ts (suc i) q h = elim (lower_bound_step x xs ts) [
    | inl (l, e) ↦ lower_bound-above xs ts i (omega (arith, q, e)) (omega arith)
    | inr (l, e) ↦ absurd (omega (arith, q, e))
  ]

  lower_bound-length : (xs : List A) (ts : ℕ) → lower_bound timestamp_us xs ts ≤ length xs
  unfolding lower_bound
  lower_bound-length [] ts = omega arith
  lower_bound-length (x ∷ xs) ts = elim (lower_bound_step x xs ts) [
    | inl (l, e) ↦ omega (arith, e, lower_bound-length xs ts)
    | inr (l, e) ↦ omega (arith, e)
  ]

  -- The queue is in order, it has a packet before `ts` and one that is not, and its timestamps differ
  -- from `ts` by less than half the range of a `long`.
  pub record Brackets (long : Long) (ts : ℕ) (xs : List A) : Type 0 where
    pub sorted : IsSorted timestamp_us xs
    pub nonempty : 0 < length xs
    pub before : stamp timestamp_us xs 0 < ts
    pub behind : ts ≤ last_stamp timestamp_us xs
    pub in_word : last_stamp timestamp_us xs < word64
    pub near_first : ts < stamp timestamp_us xs 0 + half long
    pub near_last : last_stamp timestamp_us xs < ts + half long

  -- No packet of the queue is nearer to `ts` than the one at the index.
  abbrev pub IsClosest : List A → ℕ → ℕ → Type 0
  IsClosest xs ts i =
      (i < length xs)
      × ((j : ℕ)
          → j < length xs
          → dist (stamp timestamp_us xs i) ts ≤ dist (stamp timestamp_us xs j) ts)

  lower_bound-Brackets :
      (long : Long) (ts : ℕ) (xs : List A)
      → Brackets long ts xs
      → (before : ℕ) × (lower_bound timestamp_us xs ts ≡ suc before) × (suc before < length xs)
  lower_bound-Brackets long ts xs b = by_lower (lower_bound timestamp_us xs ts) refl
    where
      by_lower :
          (n : ℕ)
          → lower_bound timestamp_us xs ts ≡ n
          → (before : ℕ) × (lower_bound timestamp_us xs ts ≡ suc before) × (suc before < length xs)
      by_lower zero e =
          absurd (omega (arith, b.before, lower_bound-above xs ts 0 (sym e) b.nonempty))
      by_lower (suc n) e = (
        n,
        e,
        elim (dec_lt (suc n) (length xs)) [
          | yes l ↦ l
          | no l ↦ absurd (
              omega (
                arith,
                b.behind,
                lower_bound-below xs ts (length xs - 1) (omega (arith, e, b.nonempty)),
              ))
        ],
      )

  -- The two packets around `ts` are the nearest ones on their sides.
  nearest_below :
      (long : Long) (ts : ℕ) (xs : List A) (n : ℕ)
      → Brackets long ts xs
      → lower_bound timestamp_us xs ts ≡ suc n
      → suc n < length xs
      → (j : ℕ) → j ≤ n
      → dist (stamp timestamp_us xs n) ts ≤ dist (stamp timestamp_us xs j) ts
  unfolding dist
  nearest_below long ts xs n b e l j h =
      omega (arith, lower_bound-below xs ts n (omega (arith, e)), b.sorted j n h (omega arith))

  nearest_above :
      (long : Long) (ts : ℕ) (xs : List A) (n : ℕ)
      → Brackets long ts xs
      → lower_bound timestamp_us xs ts ≡ suc n
      → suc n < length xs
      → (j : ℕ) → n < j
      → j < length xs
      → dist (stamp timestamp_us xs (suc n)) ts ≤ dist (stamp timestamp_us xs j) ts
  unfolding dist
  nearest_above long ts xs n b e l j h k =
      omega (arith, lower_bound-above xs ts (suc n) (sym e) l, b.sorted (suc n) j h k)

  -- The distance that the code computes for a packet of the queue.
  labs-stamp :
      (long : Long) (ts : ℕ) (xs : List A) (x : A) (i : ℕ)
      → Brackets long ts xs
      → i < length xs
      → timestamp_us x ≡ stamp timestamp_us xs i
      → labs long (sub64 (timestamp_us x) ts) ≡ dist (stamp timestamp_us xs i) ts
  unfolding dist
  labs-stamp long ts xs x i b l e =
      let low = b.sorted 0 i (omega arith) l in
      let high = b.sorted i (length xs - 1) (omega arith) (omega arith) in
      ap (λ n. labs long (sub64 n ts)) e
      ∙ labs_lem long (stamp timestamp_us xs i) ts (omega (arith, high, b.in_word))
          (omega (arith, b.behind, b.in_word)) (omega (arith, low, high, b.near_first, b.near_last))

  -- Where the queue brackets `ts`, `find_closest_packet` finds a packet and reads nothing outside the
  -- queue, and no packet of the queue is nearer to `ts` than that one.
  pub find_closest_lem :
      (long : Long) (ts : ℕ) (xs : List A)
      → Brackets long ts xs
      → (i : ℕ) × (find_closest_packet timestamp_us long ts xs ≡ some i) × IsClosest xs ts i
  unfolding find_closest_packet
  find_closest_lem long ts xs b =
      let (n, e, l) = lower_bound-Brackets long ts xs b in
      let (x, at_n, x_n) = get_elem?-stamp timestamp_us xs n (omega arith) in
      let (y, at_suc, y_n) = get_elem?-stamp timestamp_us xs (suc n) l in
      let x_dist = labs-stamp long ts xs x n b (omega arith) x_n in
      let y_dist = labs-stamp long ts xs y (suc n) b l y_n in
      let dist_at : ℕ → ℕ = λ i. dist (stamp timestamp_us xs i) ts in
      let below = nearest_below long ts xs n b e l in
      let above = nearest_above long ts xs n b e l in
      elim (Bool-cases
        (ltb (labs long (sub64 (timestamp_us x) ts)) (labs long (sub64 (timestamp_us y) ts)))) [
          | inl c ↦
              let nearer = ltb→lt _ _ c in
              (
                n,
                rw (find_closest_packet, e, at_n, at_suc, c),
                (
                  omega arith,
                  λ j k. elim (dec_lt n j) [
                    | yes h ↦ omega (arith, above j h k, nearer, x_dist, y_dist)
                    | no h ↦ below j (omega arith)
                  ],
                ),
              )
          | inr c ↦
              let nearer : labs long (sub64 (timestamp_us y) ts)
                  ≤ labs long (sub64 (timestamp_us x) ts) =
                ground arith in
              (
                suc n,
                rw (find_closest_packet, e, at_n, at_suc, c),
                (
                  l,
                  λ j k. elim (dec_lt n j) [
                    | yes h ↦ above j h k
                    | no h ↦ omega (arith, below j (omega arith), nearer, x_dist, y_dist)
                  ],
                ),
              )
        ]

  -- Inside the queue a packet is found.
  find_inside :
      (long : Long) (ts : ℕ) (xs : List A) (n : ℕ)
      → lower_bound timestamp_us xs ts ≡ suc n
      → suc n < length xs
      → find_closest_packet timestamp_us long ts xs ≢ none
  unfolding find_closest_packet
  find_inside long ts xs n e l =
      let (x, at_n, x_n) = get_elem?-stamp timestamp_us xs n (omega arith) in
      let (y, at_suc, y_n) = get_elem?-stamp timestamp_us xs (suc n) l in
      rw (find_closest_packet, e, at_n, at_suc) (λ z. cc)

  find_at_end :
      (long : Long) (ts : ℕ) (xs : List A) (n : ℕ)
      → lower_bound timestamp_us xs ts ≡ suc n
      → length xs ≤ suc n
      → find_closest_packet timestamp_us long ts xs ≡ none
  unfolding find_closest_packet
  find_at_end long ts xs n e l = elim (Option-cases (get_elem? xs n)) [
    | inl o ↦ rw (find_closest_packet, e, o)
    | inr (x, o) ↦ rw (find_closest_packet, e, o, get_elem?-none timestamp_us xs (suc n) l)
  ]

  -- On a queue in order that is not empty, `find_closest_packet` reads outside the queue exactly when
  -- no packet is before `ts`, or all of them are.
  find_closest_outside :
      (long : Long) (ts : ℕ) (xs : List A)
      → IsSorted timestamp_us xs
      → 0 < length xs
      → (find_closest_packet timestamp_us long ts xs ≡ none)
        ↔ ((ts ≤ stamp timestamp_us xs 0) ⊎ (last_stamp timestamp_us xs < ts))
  unfolding find_closest_packet
  find_closest_outside long ts xs s l = by_lower (lower_bound timestamp_us xs ts) refl
    where
      by_lower :
          (n : ℕ)
          → lower_bound timestamp_us xs ts ≡ n
          → (find_closest_packet timestamp_us long ts xs ≡ none)
            ↔ ((ts ≤ stamp timestamp_us xs 0) ⊎ (last_stamp timestamp_us xs < ts))
      by_lower zero e =
          ((λ z. inl (lower_bound-above xs ts 0 (sym e) l)), λ z. rw (find_closest_packet, e))
      by_lower (suc n) e =
          let first = lower_bound-below xs ts 0 (omega (arith, e)) in
          elim (dec_lt (suc n) (length xs)) [
            | yes h ↦
                let at_lower = lower_bound-above xs ts (suc n) (sym e) h in
                let last = s (suc n) (length xs - 1) (omega arith) (omega arith) in
                (
                  (λ z. absurd (find_inside long ts xs n e h z)),
                  λ z. absurd (ground (arith, first, at_lower, last, z)),
                )
            | no h ↦ (
              (λ z. inr (lower_bound-below xs ts (length xs - 1) (omega (arith, e)))),
              λ z. find_at_end long ts xs n e (omega arith),
            )
          ]
