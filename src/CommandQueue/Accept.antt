-- ===== src/CommandQueue/Accept.antt =====
-- lib_util/command_queue.h: which commands are accepted.
use sensor_libs.Prelude.{
  ℕ, zero, suc, ◌+◌, ◌^◌, ◌%◌, ◌<◌, ◌≡◌, ◌≢◌, ◌↔◌, ◌⊎◌, refl, sym, ap, ◌∙◌, inl, inr, none, some,
  List, [], ◌∷◌, ◌++◌, length, length-append, get_elem?, ◌==◌, ==_iff, if◌then◌else◌, Bool-cases,
  arith,
}
use sensor_libs.CommandQueue.{
  QueueT, IsFifo, Code, ok, failed, FuncContext, modify, find_available_func_context, CommandQueue,
  prepared, put_now, put_later, execute_async, execute_async_later, execute_async_interval,
  minus_one,
}
use sensor_libs.CommandQueue.Counts.{
  count, count-append, length-lt, length-full, ref_at, ref_at-get_elem?,
}
use sensor_libs.CommandQueue.Validity.{
  later, now, held, IsValid, held_above, room_for, put_room, count-put, step-IsValid,
}

all_used :
    {F : Type 0} (c : FuncContext F) (cs : List (FuncContext F))
    → c.ref_count ≢ 0
    → ((i : ℕ) → i < length cs → ref_at cs i ≢ 0)
    → (i : ℕ) → i < suc (length cs)
    → ref_at (c ∷ cs) i ≢ 0
all_used c cs h hs zero l = h
all_used c cs h hs (suc i) l = hs i (omega arith)

find_lem :
    {F : Type 0} (cs : List (FuncContext F))
    → ((find_available_func_context cs ≡ none) × ((i : ℕ) → i < length cs → ref_at cs i ≢ 0))
      ⊎ ((i : ℕ) × (c : FuncContext F) × (find_available_func_context cs ≡ some i)
          × (get_elem? cs i ≡ some c)
          × (c.ref_count ≡ 0))
unfolding find_available_func_context
find_lem [] = inl (refl, λ i l. absurd (omega arith))
find_lem (c ∷ cs) = elim (Bool-cases (c.ref_count == 0)) [
  | inl e ↦ inr (0, c, rw (find_available_func_context, e), refl, (==_iff c.ref_count 0).0 e)
  | inr e ↦ elim (find_lem cs) [
    | inl (n, h) ↦ inl (rw (find_available_func_context, e, n), all_used c cs (λ z. ground arith) h)
    | inr (i, d, n, g, z) ↦ inr (suc i, d, rw (find_available_func_context, e, n), g, z)
  ]
]

below-get_elem? :
    {F : Type 0} {n : ℕ} (cs : List (FuncContext F)) (c : FuncContext F) (i : ℕ)
    → get_elem? cs i ≡ some c
    → length cs ≡ n
    → i < n
below-get_elem? [] c i h e = absurd cc
below-get_elem? {n = n} (d ∷ cs) c zero h e = omega (arith, e)
below-get_elem? {n = n} (d ∷ cs) c (suc i) h e =
    omega (arith, e, below-get_elem? {n = length cs} cs c i h refl)

-- A function that takes a free context into use.
abbrev Takes : {F : Type 0} → (FuncContext F → FuncContext F) → Type 0
Takes {F} g = (c : FuncContext F) → c.ref_count ≡ 0 → ((g c).ref_count ≡ 1) × ((g c).func ≢ none)

prepared-Takes :
    {F : Type 0} (f : F) (scheduled_ms cmd_id interval_ms : ℕ)
    → Takes (prepared f scheduled_ms cmd_id interval_ms)
unfolding prepared
prepared-Takes f scheduled_ms cmd_id interval_ms c h = (omega (arith, h), λ z. cc)

module _ {Q F : Type 0} (ops : QueueT Q) (size : ℕ) (fifo : IsFifo ops size) where
  -- A free context that is taken is counted once, as its index is put into one of the queues.
  taken_counts :
      (q : CommandQueue Q F) (i j n : ℕ)
      → held ops size fifo q i ≡ 0
      → n ≡ 1
      → (if i == j then 1 else 0) + held ops size fifo q j
        ≡ (if i == j then n else held ops size fifo q j)
  taken_counts q i j n e one = elim (Bool-cases (i == j)) [
    | inl same ↦
        let i_j : i ≡ j = (==_iff i j).0 same in
        let at_j : held ops size fifo q j ≡ 0 = ap (held ops size fifo q) (sym i_j) ∙ e in
        rw same (omega (arith, at_j, one))
    | inr other ↦ rw other (omega arith)
  ]

  put_now-lem :
      (q : CommandQueue Q F) (g : FuncContext F → FuncContext F) (c : FuncContext F) (i : ℕ)
      → IsValid ops size fifo q
      → get_elem? q.func_contexts i ≡ some c
      → c.ref_count ≡ 0
      → Takes g
      → (q' : CommandQueue Q F) × (put_now ops q g i ≡ (ok, q'))
        × IsValid ops size fifo q'
        × (now ops size fifo q' ≡ now ops size fifo q ++ (i ∷ []))
        × (q'.commands_later ≡ q.commands_later)
        × (q'.func_contexts ≡ modify g q.func_contexts i)
  unfolding put_now
  put_now-lem q g c i v at free takes =
      let unheld : held ops size fifo q i ≡ 0 =
        omega (arith, v.balanced i, ref_at-get_elem? q.func_contexts c i at, free) in
      let below : i < size = below-get_elem? q.func_contexts c i at v.contexts in
      let (s, put, items) =
        put_room ops size fifo q.commands i (room_for ops size fifo q i v below unheld).1 in
      let q' : CommandQueue Q F = record q {
        commands = s;
        func_contexts = modify g q.func_contexts i;
      } in
      (
        q',
        rw (put_now, put),
        step-IsValid ops size fifo q q' g c i v at refl
            (λ j. omega (
              arith,
              taken_counts q i j (g c).ref_count unheld (takes c free).0,
              count-put (now ops size fifo q) (fifo.items s) i j items,
            ))
            (omega (arith, (takes c free).0)) (takes c free).1,
        items,
        refl,
        refl,
      )

  put_later-lem :
      (q : CommandQueue Q F) (g : FuncContext F → FuncContext F) (c : FuncContext F) (i : ℕ)
      → IsValid ops size fifo q
      → get_elem? q.func_contexts i ≡ some c
      → c.ref_count ≡ 0
      → Takes g
      → (q' : CommandQueue Q F) × (put_later ops q g i ≡ (ok, q')) × IsValid ops size fifo q'
  unfolding put_later
  put_later-lem q g c i v at free takes =
      let unheld : held ops size fifo q i ≡ 0 =
        omega (arith, v.balanced i, ref_at-get_elem? q.func_contexts c i at, free) in
      let below : i < size = below-get_elem? q.func_contexts c i at v.contexts in
      let (s, put, items) =
        put_room ops size fifo q.commands_later i (room_for ops size fifo q i v below unheld).0 in
      let q' : CommandQueue Q F = record q {
        commands_later = s;
        func_contexts = modify g q.func_contexts i;
      } in
      (
        q',
        rw (put_later, put),
        step-IsValid ops size fifo q q' g c i v at refl
            (λ j. omega (
              arith,
              taken_counts q i j (g c).ref_count unheld (takes c free).0,
              count-put (later ops size fifo q) (fifo.items s) i j items,
            ))
            (omega (arith, (takes c free).0)) (takes c free).1,
      )

  -- How many commands wait.
  pub waiting : CommandQueue Q F → ℕ
  waiting q = length (later ops size fifo q) + length (now ops size fifo q)

  none_free :
      (q : CommandQueue Q F)
      → IsValid ops size fifo q
      → ((i : ℕ) → i < length q.func_contexts → ref_at q.func_contexts i ≢ 0)
      → waiting q ≡ size
  unfolding waiting
  none_free q v h =
      let all = later ops size fifo q ++ now ops size fifo q in
      let counts : (i : ℕ) → count i all ≡ held ops size fifo q i =
        λ i. count-append i (later ops size fifo q) (now ops size fifo q) in
      sym (length-append (later ops size fifo q) (now ops size fifo q))
      ∙ length-full size all (λ i l. omega (arith, counts i, held_above ops size fifo q v i l))
          (λ i l. omega (arith, counts i, v.once i, v.balanced i, h i (omega (arith, v.contexts))))

  some_free :
      (q : CommandQueue Q F) (c : FuncContext F) (i : ℕ)
      → IsValid ops size fifo q
      → get_elem? q.func_contexts i ≡ some c
      → c.ref_count ≡ 0
      → waiting q < size
  unfolding waiting
  some_free q c i v at free =
      let all = later ops size fifo q ++ now ops size fifo q in
      let counts : (j : ℕ) → count j all ≡ held ops size fifo q j =
        λ j. count-append j (later ops size fifo q) (now ops size fifo q) in
      let few : length all < size =
        length-lt size i all (λ j. omega (arith, counts j, v.once j))
          (λ j l. omega (arith, counts j, held_above ops size fifo q v j l))
          (below-get_elem? q.func_contexts c i at v.contexts)
          (omega (arith, counts i, v.balanced i, ref_at-get_elem? q.func_contexts c i at, free)) in
      omega (arith, few, length-append (later ops size fifo q) (now ops size fifo q))

  -- The result of a call on `q`.
  abbrev pub Accepts : CommandQueue Q F → Code × CommandQueue Q F → Type 0
  Accepts q (code, q') = IsValid ops size fifo q' × ((code ≡ failed) ↔ (waiting q ≡ size))

  accepted :
      (q q' : CommandQueue Q F) → IsValid ops size fifo q' → waiting q < size → Accepts q (ok, q')
  accepted q q' v few = (v, ((λ z. cc), λ z. absurd (omega arith)))

  -- On a valid queue each of `execute_async`, `execute_async_later` and `execute_async_interval` leaves
  -- a valid queue, and returns -1 exactly when as many commands wait as there are contexts.
  pub execute_lem :
      (q : CommandQueue Q F) (f : F) (now_ms delay_ms id : ℕ)
      → IsValid ops size fifo q
      → Accepts q (execute_async ops q f)
        × Accepts q (execute_async_later ops now_ms q f delay_ms id)
        × Accepts q (execute_async_interval ops now_ms q f delay_ms id)
  unfolding execute_async execute_async_later execute_async_interval
  execute_lem q f now_ms delay_ms id v = elim (find_lem q.func_contexts) [
    | inl (e, used) ↦
        let full = none_free q v used in
        let all : Accepts q (failed, q) = (v, ((λ z. full), λ z. refl)) in
        (
          rw (execute_async, e) all,
          rw (execute_async_later, e) all,
          rw (execute_async_interval, e) all,
        )
    | inr (i, c, e, at, free) ↦
        let few = some_free q c i v at free in
        let (q1, e1, v1, r1, r2, r3) =
          put_now-lem q (prepared f 0 minus_one minus_one) c i v at free
            (prepared-Takes f 0 minus_one minus_one) in
        let (q2, e2, v2) =
          put_later-lem q (prepared f ((now_ms + delay_ms) % 2 ^ 32) id minus_one) c i v at free
            (prepared-Takes f ((now_ms + delay_ms) % 2 ^ 32) id minus_one) in
        let (q3, e3, v3) =
          put_later-lem q (prepared f ((now_ms + delay_ms) % 2 ^ 32) id delay_ms) c i v at free
            (prepared-Takes f ((now_ms + delay_ms) % 2 ^ 32) id delay_ms) in
        (
          rw (execute_async, e, e1) (accepted q q1 v1 few),
          rw (execute_async_later, e, e2) (accepted q q2 v2 few),
          rw (execute_async_interval, e, e3) (accepted q q3 v3 few),
        )
  ]
