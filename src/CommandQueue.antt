-- ===== src/CommandQueue.antt =====
-- lib_util/command_queue.h: functions that one thread queues and another one runs, now, later or at
-- intervals. The two queues of indices are a parameter (`QueueT`); so are the functions, whose calls
-- are listed in their order, and the clock. Each `int` is its 32 bits.
use sensor_libs.Prelude.{
  ℕ, zero, suc, ◌+◌, ◌-◌, ◌^◌, ◌%◌, ◌≡◌, ◌≤◌, Bool, true, false, ◌&&◌, Option, none, some, List, [],
  ◌∷◌, ◌++◌, length, get_elem?, replicate, ◌==◌, ltb, leb, if◌then◌else◌,
}
pub mod Counts
pub mod Validity
pub mod Accept
pub mod Popping
pub mod Delayed
pub mod Taken
pub mod Process
pub mod Reach
mod Tests

-- `put` fails or takes the index; `pop` gives the next one, or fails.
pub record QueueT (Q : Type 0) : Type 0 where
  pub new_queue : ℕ → Q
  pub put : Q → ℕ → Option Q
  pub pop : Q → Option (ℕ × Q)

-- What the code relies on: a queue of at most `size` indices, first in, first out.
pub record IsFifo {Q : Type 0} (ops : QueueT Q) (size : ℕ) : Type 0 where
  pub items : Q → List ℕ
  pub new_items : items (ops.new_queue size) ≡ []
  pub put_items : (q q' : Q) (i : ℕ) → ops.put q i ≡ some q' → items q' ≡ items q ++ (i ∷ [])
  pub put_full : (q : Q) (i : ℕ) → ops.put q i ≡ none → size ≤ length (items q)
  pub pop_items : (q q' : Q) (i : ℕ) → ops.pop q ≡ some (i, q') → items q ≡ i ∷ items q'
  pub pop_empty : (q : Q) → ops.pop q ≡ none → items q ≡ []

pub data Code : Type 0 where
  ok failed : Code

abbrev pub minus_one : ℕ
minus_one = 2 ^ 32 - 1

-- `> 0` on an `int`.
abbrev pub is_positive : ℕ → Bool
is_positive n = ltb 0 n && ltb n (2 ^ 31)

pub record FuncContext (F : Type 0) : Type 0 where
  pub ref_count : ℕ
  pub func : Option F
  pub status : Bool
  pub cancelled : Bool
  pub scheduled_ms : ℕ
  pub cmd_id : ℕ
  pub interval_ms : ℕ

module _ {F : Type 0} where
  abbrev pub new_context : FuncContext F
  new_context = record {
    ref_count = 0;
    func = none;
    status = false;
    cancelled = false;
    scheduled_ms = 0;
    cmd_id = minus_one;
    interval_ms = minus_one;
  }

  abbrev pub inc_ref_count : FuncContext F → FuncContext F
  inc_ref_count c = record c { ref_count = (c.ref_count + 1) % 2 ^ 32 }

  abbrev pub dec_ref_count : FuncContext F → FuncContext F
  dec_ref_count c = record c { ref_count = (c.ref_count + minus_one) % 2 ^ 32 }

  abbrev pub reset : FuncContext F → FuncContext F
  reset c = record c {
    status = false;
    scheduled_ms = 0;
    cmd_id = minus_one;
    interval_ms = minus_one;
    cancelled = false;
  }

  abbrev pub modify :
      (FuncContext F → FuncContext F) → List (FuncContext F) → ℕ → List (FuncContext F)
  modify g [] i = []
  modify g (c ∷ cs) zero = g c ∷ cs
  modify g (c ∷ cs) (suc i) = c ∷ modify g cs i

  -- A context for the function, counted once.
  unfoldable pub prepared :
      F → (scheduled_ms cmd_id interval_ms : ℕ) → FuncContext F → FuncContext F
  prepared f scheduled_ms cmd_id interval_ms c = inc_ref_count (record (reset c) {
    func = some f;
    scheduled_ms = scheduled_ms;
    cmd_id = cmd_id;
    interval_ms = interval_ms;
  })

  -- The index of the first context that no queue holds.
  unfoldable pub find_available_func_context : List (FuncContext F) → Option ℕ
  find_available_func_context [] = none
  find_available_func_context (c ∷ cs) =
      if c.ref_count == 0
      then some 0
      else elim (find_available_func_context cs) [ none ↦ none | some i ↦ some (suc i) ]

  -- The first context with the id that a queue holds is marked.
  unfoldable pub cancel_in : List (FuncContext F) → ℕ → List (FuncContext F)
  cancel_in [] id = []
  cancel_in (c ∷ cs) id =
      if c.cmd_id == id && is_positive c.ref_count
      then record c { cancelled = true } ∷ cs
      else c ∷ cancel_in cs id

pub record CommandQueue (Q F : Type 0) : Type 0 where
  pub commands_later : Q
  pub commands : Q
  pub func_contexts : List (FuncContext F)

-- The test on `func_context_start`.
abbrev pub is_start : Option ℕ → ℕ → Bool
is_start none i = false
is_start (some j) i = j == i

abbrev pub start_from : Option ℕ → ℕ → Option ℕ
start_from none i = some i
start_from (some j) i = some j

module _ {Q F : Type 0} (ops : QueueT Q) where
  unfoldable pub new_command_queue : ℕ → CommandQueue Q F
  new_command_queue size = record {
    commands_later = ops.new_queue size;
    commands = ops.new_queue size;
    func_contexts = replicate size new_context;
  }

  unfoldable pub cancel : CommandQueue Q F → ℕ → CommandQueue Q F
  unfolding cancel_in
  cancel q id = record q { func_contexts = cancel_in q.func_contexts id }

  unfoldable pub put_now :
      CommandQueue Q F → (FuncContext F → FuncContext F) → ℕ → Code × CommandQueue Q F
  put_now q prepare i = elim (ops.put q.commands i) [
    | none ↦ (
      failed,
      record q { func_contexts = modify (λ c. dec_ref_count (prepare c)) q.func_contexts i },
    )
    | some commands ↦
        (ok, record q { commands = commands; func_contexts = modify prepare q.func_contexts i })
  ]

  unfoldable pub put_later :
      CommandQueue Q F → (FuncContext F → FuncContext F) → ℕ → Code × CommandQueue Q F
  put_later q prepare i = elim (ops.put q.commands_later i) [
    | none ↦ (
      failed,
      record q { func_contexts = modify (λ c. dec_ref_count (prepare c)) q.func_contexts i },
    )
    | some later ↦
        (ok, record q { commands_later = later; func_contexts = modify prepare q.func_contexts i })
  ]

  -- `execute_async` up to the wait.
  unfoldable pub execute_async : CommandQueue Q F → F → Code × CommandQueue Q F
  unfolding put_now prepared find_available_func_context
  execute_async q f = elim (find_available_func_context q.func_contexts) [
    | none ↦ (failed, q)
    | some i ↦ put_now q (prepared f 0 minus_one minus_one) i
  ]

  unfoldable pub execute_async_later :
      (now_ms : ℕ) → CommandQueue Q F → F → (delay_ms id : ℕ) → Code × CommandQueue Q F
  unfolding put_later prepared find_available_func_context
  execute_async_later now_ms q f delay_ms id = elim (find_available_func_context q.func_contexts) [
    | none ↦ (failed, q)
    | some i ↦ put_later q (prepared f ((now_ms + delay_ms) % 2 ^ 32) id minus_one) i
  ]

  unfoldable pub execute_async_interval :
      (now_ms : ℕ) → CommandQueue Q F → F → (interval_ms id : ℕ) → Code × CommandQueue Q F
  unfolding put_later prepared find_available_func_context
  execute_async_interval now_ms q f interval_ms id =
      elim (find_available_func_context q.func_contexts) [
        | none ↦ (failed, q)
        | some i ↦ put_later q (prepared f ((now_ms + interval_ms) % 2 ^ 32) id interval_ms) i
      ]

  -- A command that is due goes to the other queue, or is given up where that is full.
  unfoldable pub enqueue : CommandQueue Q F → ℕ → CommandQueue Q F
  enqueue q i = elim (ops.put q.commands i) [
    | none ↦ record q { func_contexts = modify dec_ref_count q.func_contexts i }
    | some commands ↦ record q { commands = commands }
  ]

  -- A command that is not due is put back; where that fails it is lost, and stays counted.
  unfoldable pub reenter : CommandQueue Q F → ℕ → CommandQueue Q F
  reenter q i = elim (ops.put q.commands_later i) [
    | none ↦ q
    | some later ↦ record q { commands_later = later }
  ]

  -- The loop of `enqueue_delayed_commands`. `none` is no fuel, or an index with no context.
  unfoldable pub delayed_loop :
      ℕ → (now_ms : ℕ) → Option ℕ → CommandQueue Q F → Option (CommandQueue Q F)
  unfolding enqueue reenter
  delayed_loop zero now_ms start q = none
  delayed_loop (suc fuel) now_ms start q = elim (ops.pop q.commands_later) [
    | none ↦ some q
    | some (i, later) ↦
        let popped = record q { commands_later = later } in
        elim (get_elem? q.func_contexts i) [
          | none ↦ none
          | some c ↦
              let rest = delayed_loop fuel now_ms (start_from start i) (reenter popped i) in
              if leb c.scheduled_ms now_ms
              then some (enqueue popped i)
              else (if is_start start i then some (reenter popped i) else rest)
        ]
  ]

  -- As many rounds as contexts, and two, are enough.
  unfoldable pub enqueue_delayed_commands :
      (now_ms : ℕ) → CommandQueue Q F → Option (CommandQueue Q F)
  unfolding delayed_loop
  enqueue_delayed_commands now_ms q = delayed_loop (length q.func_contexts + 2) now_ms none q

  -- What `process` does with a function after its call, at the time `after_ms`.
  unfoldable pub finish_command :
      (after_ms : ℕ) → CommandQueue Q F → FuncContext F → ℕ → CommandQueue Q F
  finish_command after_ms q c i =
      if is_positive c.interval_ms
      then elim (ops.put q.commands_later i) [
        | none ↦ record q { func_contexts = modify dec_ref_count q.func_contexts i }
        | some later ↦ record q {
          commands_later = later;
          func_contexts =
              modify (λ c. record c { scheduled_ms = (after_ms + c.interval_ms) % 2 ^ 32 })
                q.func_contexts i;
        }
      ]
      else record q {
        func_contexts = modify (λ c. dec_ref_count (record c { status = true })) q.func_contexts i;
      }

  -- The part of `process` after the delayed commands. `none` is an index with no context, or a context
  -- with no function.
  unfoldable pub run_command :
      (after_ms : ℕ) → CommandQueue Q F → Option (CommandQueue Q F × List F)
  unfolding finish_command
  run_command after_ms q = elim (ops.pop q.commands) [
    | none ↦ some (q, [])
    | some (i, commands) ↦
        let popped = record q { commands = commands } in
        elim (get_elem? q.func_contexts i) [
          | none ↦ none
          | some c ↦
              if c.cancelled
              then some
                  (record popped { func_contexts = modify dec_ref_count q.func_contexts i }, [])
              else elim c.func [
                | none ↦ none
                | some f ↦ some (finish_command after_ms popped c i, f ∷ [])
              ]
        ]
  ]

  unfoldable pub process :
      (now_ms after_ms : ℕ) → CommandQueue Q F → Option (CommandQueue Q F × List F)
  unfolding enqueue_delayed_commands run_command
  process now_ms after_ms q = elim (enqueue_delayed_commands now_ms q) [
    | none ↦ none
    | some q' ↦ run_command after_ms q'
  ]
