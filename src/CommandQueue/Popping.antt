-- ===== src/CommandQueue/Popping.antt =====
-- lib_util/command_queue.h: an index that is taken from a queue, and put back or into the other one.
use native.Mathlib.Decide.{dec_lt}
use sensor_libs.Prelude.{
  ℕ, ◌+◌, ◌<◌, ◌≤◌, ◌≡◌, refl, sym, ap, subst, ◌∙◌, some, List, [], ◌∷◌, ◌++◌, length, get_elem?,
  ◌==◌, if◌then◌else◌, arith,
}
use sensor_libs.CommandQueue.{QueueT, IsFifo, FuncContext, CommandQueue}
use sensor_libs.CommandQueue.Counts.{count, length-lt, ref_at, ref_at-get_elem?}
use sensor_libs.CommandQueue.{enqueue, reenter}
use sensor_libs.CommandQueue.Counts.{get_elem?-counted}
use sensor_libs.CommandQueue.Validity.{
  Callable, later, now, held, IsValid, held_above, put_room, count-put,
}

pub count-pop :
    (xs ys : List ℕ) (i j : ℕ) → xs ≡ i ∷ ys → count j xs ≡ (if i == j then 1 else 0) + count j ys
count-pop xs ys i j e = ap (count j) e

pub self_is : (i : ℕ) → ◌≡◌ {A = ℕ} (if i == i then 1 else 0) 1
self_is i = ground arith

pub cons_head : {x y : ℕ} {xs ys : List ℕ} → x ∷ xs ≡ y ∷ ys → x ≡ y
cons_head e = cc

pub cons_tail : {x y : ℕ} {xs ys : List ℕ} → x ∷ xs ≡ y ∷ ys → xs ≡ ys
cons_tail e = cc

module _ {Q F : Type 0} (ops : QueueT Q) (size : ℕ) (fifo : IsFifo ops size) where
  -- The same contexts, and the same indices held.
  pub same-IsValid :
      (q q' : CommandQueue Q F)
      → IsValid ops size fifo q
      → q'.func_contexts ≡ q.func_contexts
      → ((j : ℕ) → held ops size fifo q' j ≡ held ops size fifo q j)
      → IsValid ops size fifo q'
  same-IsValid q q' v e h = record {
    contexts = ap length e ∙ v.contexts;
    balanced = λ j. ap (λ cs. ref_at cs j) e ∙ v.balanced j ∙ sym (h j);
    once = λ j. omega (arith, h j, v.once j);
    callable = subst (λ cs. Callable cs) (sym e) v.callable;
  }

  -- What is known of an index that was taken from a queue.
  pub record PoppedIndex (q : CommandQueue Q F) (i : ℕ) (left : List ℕ) : Type 0 where
    pub context : FuncContext F
    pub at : get_elem? q.func_contexts i ≡ some context
    pub counted : context.ref_count ≡ 1
    pub room_left : length left < size

  pub popped_lem :
      (q : CommandQueue Q F) (i : ℕ) (left : List ℕ)
      → IsValid ops size fifo q
      → held ops size fifo q i ≡ 1
      → ((j : ℕ) → count j left ≤ held ops size fifo q j)
      → count i left ≡ 0
      → PoppedIndex q i left
  popped_lem q i left v one below gone =
      let (c, at) = get_elem?-counted q.func_contexts i (omega (arith, v.balanced i, one)) in
      record {
        context = c;
        at = at;
        counted = omega (arith, ref_at-get_elem? q.func_contexts c i at, v.balanced i, one);
        room_left =
            length-lt size i left (λ j. omega (arith, below j, v.once j))
              (λ j l. omega (arith, below j, held_above ops size fifo q v j l))
              (elim (dec_lt i size) [
                | yes l ↦ l
                | no l ↦ absurd (omega (arith, held_above ops size fifo q v i (omega arith), one))
              ])
              gone;
      }

  pub pop_later-lem :
      (q : CommandQueue Q F) (i : ℕ) (s : Q)
      → IsValid ops size fifo q
      → ops.pop q.commands_later ≡ some (i, s)
      → PoppedIndex q i (fifo.items s) × (length (now ops size fifo q) < size)
  pop_later-lem q i s v e =
      let items = fifo.pop_items q.commands_later s i e in
      let split : (j : ℕ)
          → count j (later ops size fifo q) ≡ (if i == j then 1 else 0) + count j (fifo.items s) =
        λ j. count-pop (later ops size fifo q) (fifo.items s) i j items in
      let one : held ops size fifo q i ≡ 1 = omega (arith, split i, self_is i, v.once i) in
      let gone : count i (fifo.items s) ≡ 0 = omega (arith, split i, self_is i, v.once i) in
      let gone_now : count i (now ops size fifo q) ≡ 0 =
        omega (arith, split i, self_is i, v.once i) in
      (
        popped_lem q i (fifo.items s) v one (λ j. omega (arith, split j)) gone,
        (popped_lem q i (now ops size fifo q) v one (λ j. omega arith) gone_now).room_left,
      )

  -- The command that is put back is last in its queue.
  pub reenter-lem :
      (q : CommandQueue Q F) (i : ℕ) (s : Q)
      → IsValid ops size fifo q
      → ops.pop q.commands_later ≡ some (i, s)
      → (q' : CommandQueue Q F) × (reenter ops (record q { commands_later = s }) i ≡ q')
        × IsValid ops size fifo q'
        × (q'.commands ≡ q.commands)
        × (q'.func_contexts ≡ q.func_contexts)
        × (later ops size fifo q' ≡ fifo.items s ++ (i ∷ []))
  unfolding reenter
  reenter-lem q i s v e =
      let items = fifo.pop_items q.commands_later s i e in
      let (s', put, items') = put_room ops size fifo s i (pop_later-lem q i s v e).0.room_left in
      let q' : CommandQueue Q F = record q { commands_later = s' } in
      (
        q',
        rw (reenter, put),
        same-IsValid q q' v refl (λ j. omega (
          arith,
          count-put (fifo.items s) (fifo.items s') i j items',
          count-pop (later ops size fifo q) (fifo.items s) i j items,
        )),
        refl,
        refl,
        items',
      )

  pub enqueue-lem :
      (q : CommandQueue Q F) (i : ℕ) (s : Q)
      → IsValid ops size fifo q
      → ops.pop q.commands_later ≡ some (i, s)
      → (q' : CommandQueue Q F) × (enqueue ops (record q { commands_later = s }) i ≡ q')
        × IsValid ops size fifo q'
        × (q'.func_contexts ≡ q.func_contexts)
        × (now ops size fifo q' ≡ now ops size fifo q ++ (i ∷ []))
  unfolding enqueue
  enqueue-lem q i s v e =
      let items = fifo.pop_items q.commands_later s i e in
      let (s', put, items') = put_room ops size fifo q.commands i (pop_later-lem q i s v e).1 in
      let q' : CommandQueue Q F = record q { commands_later = s; commands = s' } in
      (
        q',
        rw (enqueue, put),
        same-IsValid q q' v refl (λ j. omega (
          arith,
          count-put (now ops size fifo q) (fifo.items s') i j items',
          count-pop (later ops size fifo q) (fifo.items s) i j items,
        )),
        refl,
        items',
      )
