-- ===== src/CommandQueue/Reach.antt =====
-- lib_util/command_queue.h: the queues that a program can bring about.
use sensor_libs.Prelude.{
  ℕ, zero, suc, ◌<◌, ◌≡◌, ◌≢◌, refl, sym, ap, subst, ◌∙◌, inl, inr, none, some, List, [], ◌∷◌,
  length, length-replicate, get_elem?, replicate, ◌==◌, ◌&&◌, Bool-cases, arith, true,
}
use sensor_libs.CommandQueue.{
  QueueT, IsFifo, FuncContext, new_context, cancel_in, CommandQueue, new_command_queue, cancel,
  execute_async, execute_async_later, execute_async_interval, is_positive,
}
use sensor_libs.CommandQueue.Counts.{ref_at}
use sensor_libs.CommandQueue.Validity.{Callable, held, IsValid}
use sensor_libs.CommandQueue.{process}
use sensor_libs.CommandQueue.Accept.{execute_lem}
use sensor_libs.CommandQueue.Process.{process_lem}

-- Every context of a new queue is free.
new_at :
    {F : Type 0} (size i : ℕ) (c : FuncContext F)
    → get_elem? (replicate size new_context) i ≡ some c
    → c.ref_count ≡ 0
new_at zero i c e = absurd cc
new_at {F} (suc size) zero c e =
    let same : new_context ≡ c = cc in ap (λ (x : FuncContext F). x.ref_count) (sym same)
new_at (suc size) (suc i) c e = new_at size i c e

new_ref_at : (F : Type 0) (size i : ℕ) → ref_at {F = F} (replicate size new_context) i ≡ 0
new_ref_at F zero i = refl
new_ref_at F (suc size) zero = refl
new_ref_at F (suc size) (suc i) = new_ref_at F size i

-- A context that is marked keeps its count and its function.
module _ {F : Type 0} where
  ref_at-cancel_in :
      (cs : List (FuncContext F)) (id i : ℕ) → ref_at (cancel_in cs id) i ≡ ref_at cs i
  unfolding cancel_in
  ref_at-cancel_in [] id i = refl
  ref_at-cancel_in (c ∷ cs) id zero = ground arith
  ref_at-cancel_in (c ∷ cs) id (suc i) = ground (arith, ref_at-cancel_in cs id i)

  length-cancel_in : (cs : List (FuncContext F)) (id : ℕ) → length (cancel_in cs id) ≡ length cs
  unfolding cancel_in
  length-cancel_in [] id = refl
  length-cancel_in (c ∷ cs) id = ground (arith, length-cancel_in cs id)

  Callable-tail : (c : FuncContext F) (cs : List (FuncContext F)) → Callable (c ∷ cs) → Callable cs
  Callable-tail c cs h i d e = h (suc i) d e

  Callable-cons :
      (c : FuncContext F) (cs : List (FuncContext F))
      → (0 < c.ref_count → c.func ≢ none)
      → Callable cs
      → Callable (c ∷ cs)
  Callable-cons c cs h hs zero d e counted =
      let same : c ≡ d = cc in
      subst (λ (x : FuncContext F). 0 < x.ref_count → x.func ≢ none) same h counted
  Callable-cons c cs h hs (suc i) d e counted = hs i d e counted

  cancel_in-Callable :
      (cs : List (FuncContext F)) (id : ℕ) → Callable cs → Callable (cancel_in cs id)
  unfolding cancel_in
  cancel_in-Callable [] id h = h
  cancel_in-Callable (c ∷ cs) id h = elim (Bool-cases (c.cmd_id == id && is_positive c.ref_count)) [
    | inl e ↦
        rw e
          (Callable-cons (record c { cancelled = true }) cs (h zero c refl) (Callable-tail c cs h))
    | inr e ↦ rw e (
        Callable-cons c (cancel_in cs id) (h zero c refl)
          (cancel_in-Callable cs id (Callable-tail c cs h)))
  ]

module _ {Q F : Type 0} (ops : QueueT Q) (size : ℕ) (fifo : IsFifo ops size) where
  new_command_queue-IsValid : IsValid {F = F} ops size fifo (new_command_queue ops size)
  unfolding new_command_queue
  new_command_queue-IsValid =
      let unheld : (i : ℕ) → held {F = F} ops size fifo (new_command_queue ops size) i ≡ 0 =
        λ i. rw fifo.new_items refl in
      record {
        contexts = length-replicate size new_context;
        balanced = λ i. new_ref_at F size i ∙ sym (unheld i);
        once = λ i. omega (arith, unheld i);
        callable = λ i c e counted. absurd (omega (arith, new_at {F = F} size i c e));
      }

  cancel-IsValid :
      (q : CommandQueue Q F) (id : ℕ)
      → IsValid ops size fifo q
      → IsValid ops size fifo (cancel ops q id)
  unfolding cancel
  cancel-IsValid q id v = record {
    contexts = length-cancel_in q.func_contexts id ∙ v.contexts;
    balanced = λ i. ref_at-cancel_in q.func_contexts id i ∙ v.balanced i;
    once = v.once;
    callable = cancel_in-Callable q.func_contexts id v.callable;
  }

  -- The queues that the calls lead to, each made at any time and with any arguments.
  pub data Reachable : CommandQueue Q F → Type 0 where
    built : Reachable (new_command_queue ops size)
    cancelled : (q : CommandQueue Q F) (id : ℕ) → Reachable q → Reachable (cancel ops q id)
    executed : (q : CommandQueue Q F) (f : F) → Reachable q → Reachable (execute_async ops q f).1
    delayed :
        (q : CommandQueue Q F) (f : F) (now_ms delay_ms id : ℕ)
        → Reachable q
        → Reachable (execute_async_later ops now_ms q f delay_ms id).1
    repeated :
        (q : CommandQueue Q F) (f : F) (now_ms interval_ms id : ℕ)
        → Reachable q
        → Reachable (execute_async_interval ops now_ms q f interval_ms id).1
    processed :
        (q q' : CommandQueue Q F) (ran : List F) (now_ms after_ms : ℕ)
        → process ops now_ms after_ms q ≡ some (q', ran)
        → Reachable q
        → Reachable q'

  -- The queue is valid after any calls of the constructor, `cancel`, the three `execute_async` and
  -- `process`: each context is counted as often as its index stands in the two queues, at most once,
  -- and a counted context has a function.
  pub Reachable-IsValid : (q : CommandQueue Q F) → Reachable q → IsValid ops size fifo q
  Reachable-IsValid q built = new_command_queue-IsValid
  Reachable-IsValid q (cancelled q0 id r) = cancel-IsValid q0 id (Reachable-IsValid q0 r)
  Reachable-IsValid q (executed q0 f r) =
      let ((v, _), (_, _), _) = execute_lem ops size fifo q0 f 0 0 0 (Reachable-IsValid q0 r) in v
  Reachable-IsValid q (delayed q0 f now_ms delay_ms id r) =
      let ((_, _), (v, _), _) =
        execute_lem ops size fifo q0 f now_ms delay_ms id (Reachable-IsValid q0 r) in
      v
  Reachable-IsValid q (repeated q0 f now_ms interval_ms id r) =
      let ((_, _), (_, _), (v, _)) =
        execute_lem ops size fifo q0 f now_ms interval_ms id (Reachable-IsValid q0 r) in
      v
  Reachable-IsValid q (processed q0 q' ran now_ms after_ms e r) =
      let (q1, q2, ran2, e2, moves, runs) =
        process_lem ops size fifo now_ms after_ms q0 (Reachable-IsValid q0 r) in
      let same : q2 ≡ q' = cc in
      subst (λ (x : CommandQueue Q F). IsValid ops size fifo x) same runs.valid
