-- ===== src/CommandQueue/Taken.antt =====
-- lib_util/command_queue.h: a command that `process` takes from its queue.
use sensor_libs.Prelude.{
  ℕ, ◌+◌, ◌≤◌, ◌≡◌, ◌⊎◌, refl, sym, ap, ◌∙◌, none, some, List, [], ◌∷◌, ◌++◌, get_elem?, ◌==◌,
  if◌then◌else◌, arith, true, false,
}
use sensor_libs.CommandQueue.{
  QueueT, IsFifo, FuncContext, modify, dec_ref_count, CommandQueue, is_positive,
}
use sensor_libs.CommandQueue.Counts.{count}
use sensor_libs.CommandQueue.Validity.{later, now, held, IsValid, step-IsValid}
use sensor_libs.Prelude.{append-nil}
use sensor_libs.CommandQueue.Popping.{PoppedIndex, popped_lem, count-pop, self_is}

-- The function of a command that is not cancelled.
abbrev pub called : {F : Type 0} → FuncContext F → List F
called c = if c.cancelled then [] else elim c.func [ none ↦ [] | some f ↦ f ∷ [] ]

-- A command that runs again after its interval.
abbrev pub again : {F : Type 0} → FuncContext F → ℕ → List ℕ
again c i = if c.cancelled then [] else if is_positive c.interval_ms then i ∷ [] else []

pub drop_counts :
    (i j a n s : ℕ)
    → n ≡ (if i == j then 1 else 0) + s
    → a + n ≤ 1
    → a + s ≡ (if i == j then 0 else a + n)
drop_counts i j a n s e l = ground (arith, e, l)

pub put_back :
    (i j a b h n : ℕ)
    → a + b ≡ (if i == j then 0 else h)
    → n ≡ (if i == j then 1 else 0) + a
    → n + b ≡ (if i == j then 1 else h)
put_back i j a b h n e f = ground (arith, e, f)

pub append_none : (xs ys : List ℕ) → ys ≡ [] → xs ≡ xs ++ ys
append_none xs ys e = sym (append-nil xs) ∙ ap (λ zs. xs ++ zs) (sym e)

module _ {F : Type 0} (c : FuncContext F) (i : ℕ) where
  pub called_is : (f : F) → c.cancelled ≡ false → c.func ≡ some f → f ∷ [] ≡ called c
  called_is f e g = sym (rw (e, g) refl)

  pub again_once : c.cancelled ≡ false → is_positive c.interval_ms ≡ false → again c i ≡ []
  again_once e p = rw (e, p) refl

  pub again_cancelled : c.cancelled ≡ true → again c i ≡ []
  again_cancelled e = rw e refl

  pub again_interval : c.cancelled ≡ false → is_positive c.interval_ms ≡ true → again c i ≡ i ∷ []
  again_interval e p = rw (e, p) refl

  pub uncalled : c.cancelled ≡ true → [] ≡ called c
  uncalled e = sym (rw e refl)

module _ {Q F : Type 0} (ops : QueueT Q) (size : ℕ) (fifo : IsFifo ops size) where
  -- The oldest command is taken, called unless it is cancelled, and put into the other queue if it has
  -- an interval.
  pub record Runs (q q' : CommandQueue Q F) (ran : List F) : Type 0 where
    pub valid : IsValid ops size fifo q'
    pub oldest :
        ((now ops size fifo q ≡ []) × (ran ≡ []) × (q' ≡ q))
        ⊎ ((i : ℕ) × (c : FuncContext F) × (get_elem? q.func_contexts i ≡ some c)
            × (now ops size fifo q ≡ i ∷ now ops size fifo q')
            × (later ops size fifo q' ≡ later ops size fifo q ++ again c i)
            × (ran ≡ called c))

  pub pop_now-lem :
      (q : CommandQueue Q F) (i : ℕ) (s : Q)
      → IsValid ops size fifo q
      → ops.pop q.commands ≡ some (i, s)
      → PoppedIndex ops size fifo q i (later ops size fifo q)
        × ((j : ℕ)
            → count j (later ops size fifo q) + count j (fifo.items s)
              ≡ (if i == j then 0 else held ops size fifo q j))
  pop_now-lem q i s v e =
      let items = fifo.pop_items q.commands s i e in
      let split : (j : ℕ)
          → count j (now ops size fifo q) ≡ (if i == j then 1 else 0) + count j (fifo.items s) =
        λ j. count-pop (now ops size fifo q) (fifo.items s) i j items in
      let one : held ops size fifo q i ≡ 1 = omega (arith, split i, self_is i, v.once i) in
      let gone : count i (later ops size fifo q) ≡ 0 =
        omega (arith, split i, self_is i, v.once i) in
      (
        popped_lem ops size fifo q i (later ops size fifo q) v one (λ j. omega arith) gone,
        λ j.
            drop_counts i j (count j (later ops size fifo q)) (count j (now ops size fifo q))
              (count j (fifo.items s)) (split j) (v.once j),
      )

  -- The command that was taken is not counted any more.
  pub drops-IsValid :
      (q q' : CommandQueue Q F) (g : FuncContext F → FuncContext F) (i : ℕ) (s : Q)
      → (p : PoppedIndex ops size fifo q i (later ops size fifo q)) → IsValid ops size fifo q
      → ((j : ℕ) → held ops size fifo q' j ≡ (if i == j then 0 else held ops size fifo q j))
      → q'.func_contexts ≡ modify (λ c. dec_ref_count (g c)) q.func_contexts i
      → (g p.context).ref_count ≡ 1
      → (g p.context).func ≡ p.context.func
      → IsValid ops size fifo q'
  drops-IsValid q q' g i s p v h e one func =
      let zeroed : (dec_ref_count (g p.context)).ref_count ≡ 0 = omega (arith, one) in
      step-IsValid ops size fifo q q' (λ c. dec_ref_count (g c)) p.context i v p.at e
        (λ j. h j ∙ ap (λ n. if i == j then n else held ops size fifo q j) (sym zeroed))
        (omega (arith, zeroed))
        (λ z. v.callable i p.context p.at (omega (arith, p.counted)) (sym func ∙ z))

  -- What is kept of the queues where the command is put back.
  pub keeps-IsValid :
      (q q' : CommandQueue Q F) (g : FuncContext F → FuncContext F) (i : ℕ) (s : Q)
      → (p : PoppedIndex ops size fifo q i (later ops size fifo q)) → IsValid ops size fifo q
      → ((j : ℕ) → held ops size fifo q' j ≡ (if i == j then 1 else held ops size fifo q j))
      → q'.func_contexts ≡ modify g q.func_contexts i
      → (g p.context).ref_count ≡ 1
      → (g p.context).func ≡ p.context.func
      → IsValid ops size fifo q'
  keeps-IsValid q q' g i s p v h e one func =
      step-IsValid ops size fifo q q' g p.context i v p.at e
        (λ j. h j ∙ ap (λ n. if i == j then n else held ops size fifo q j) (sym one))
        (omega (arith, one))
        (λ z. v.callable i p.context p.at (omega (arith, p.counted)) (sym func ∙ z))
