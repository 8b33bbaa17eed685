-- ===== src/CommandQueue/Tests.antt =====
-- lib_util/command_queue.h: a queue of three, with lists for the queues and numbers for the functions.
use sensor_libs.Prelude.{
  ℕ, ◌≤◌, ◌≡◌, refl, sym, ◌∙◌, Option, none, some, List, [], ◌∷◌, ◌++◌, length, ltb, if◌then◌else◌,
  Bool-cases, arith, inl, inr,
}
use sensor_libs.CommandQueue.{
  QueueT, IsFifo, CommandQueue, new_command_queue, execute_async, execute_async_later,
  execute_async_interval, process,
}
use sensor_libs.CommandQueue.Validity.{IsValid}
use sensor_libs.CommandQueue.Accept.{Accepts, execute_lem}
use sensor_libs.CommandQueue.Delayed.{Moves}
use sensor_libs.CommandQueue.Taken.{Runs}
use sensor_libs.CommandQueue.Process.{process_lem}
use sensor_libs.CommandQueue.Reach.{
  Reachable, built, executed, delayed, repeated, Reachable-IsValid,
}

-- The entries of a queue of at most three.
abbrev put_entry : List ℕ → ℕ → Option (List ℕ)
put_entry xs i = if ltb (length xs) 3 then some (xs ++ (i ∷ [])) else none

abbrev pop_entry : List ℕ → Option (ℕ × List ℕ)
pop_entry [] = none
pop_entry (x ∷ xs) = some (x, xs)

abbrev lists : QueueT (List ℕ)
lists = record { new_queue = λ n. []; put = put_entry; pop = pop_entry }

put_entry-append : (xs ys : List ℕ) (i : ℕ) → put_entry xs i ≡ some ys → ys ≡ xs ++ (i ∷ [])
put_entry-append xs ys i e = elim (Bool-cases (ltb (length xs) 3)) [
  | inl l ↦ let same : some (xs ++ (i ∷ [])) ≡ some ys = sym (rw l refl) ∙ e in (cc)
  | inr l ↦ let other : none ≡ some ys = sym (rw l refl) ∙ e in absurd cc
]

put_entry-full : (xs : List ℕ) (i : ℕ) → put_entry xs i ≡ none → 3 ≤ length xs
put_entry-full xs i e = elim (Bool-cases (ltb (length xs) 3)) [
  | inl l ↦ let other : some (xs ++ (i ∷ [])) ≡ none = sym (rw l refl) ∙ e in absurd cc
  | inr l ↦ ground (arith, l)
]

pop_entry-items : (xs ys : List ℕ) (i : ℕ) → pop_entry xs ≡ some (i, ys) → xs ≡ i ∷ ys
pop_entry-items [] ys i e = absurd cc
pop_entry-items (x ∷ xs) ys i e = cc

pop_entry-empty : (xs : List ℕ) → pop_entry xs ≡ none → xs ≡ []
pop_entry-empty [] e = refl
pop_entry-empty (x ∷ xs) e = absurd cc

lists-IsFifo : IsFifo lists 3
lists-IsFifo = record {
  items = λ xs. xs;
  new_items = refl;
  put_items = put_entry-append;
  put_full = put_entry-full;
  pop_items = pop_entry-items;
  pop_empty = pop_entry-empty;
}

-- Function 7 at once, function 8 after 50 ms with the id 1, function 9 each 20 ms with the id 2.
abbrev three_waiting : CommandQueue (List ℕ) ℕ
unfolding new_command_queue execute_async execute_async_later execute_async_interval
three_waiting =
    let q1 = (execute_async lists (new_command_queue lists 3) 7).1 in
    let q2 = (execute_async_later lists 100 q1 8 50 1).1 in
    (execute_async_interval lists 100 q2 9 20 2).1

three_waiting-Reachable : Reachable lists 3 lists-IsFifo three_waiting
unfolding new_command_queue execute_async execute_async_later execute_async_interval
three_waiting-Reachable = repeated _ 9 100 20 2 (delayed _ 8 100 50 1 (executed _ 7 built))

Reachable-IsValid_example : IsValid lists 3 lists-IsFifo three_waiting
Reachable-IsValid_example =
    Reachable-IsValid lists 3 lists-IsFifo three_waiting three_waiting-Reachable

-- The three contexts are taken, so a fourth command is refused.
execute_lem_example :
    Accepts lists 3 lists-IsFifo three_waiting (execute_async lists three_waiting 5)
    × Accepts lists 3 lists-IsFifo three_waiting
        (execute_async_later lists 110 three_waiting 5 10 4)
    × Accepts lists 3 lists-IsFifo three_waiting
        (execute_async_interval lists 110 three_waiting 5 10 4)
execute_lem_example =
    execute_lem lists 3 lists-IsFifo three_waiting 5 110 10 4 Reachable-IsValid_example

process_lem_example :
    (q1 q2 : CommandQueue (List ℕ) ℕ) × (ran : List ℕ) × (process lists 120 121 three_waiting
      ≡ some (q2, ran))
    × Moves lists 3 lists-IsFifo 120 three_waiting q1
    × Runs lists 3 lists-IsFifo q1 q2 ran
process_lem_example =
    process_lem lists 3 lists-IsFifo 120 121 three_waiting Reachable-IsValid_example

-- Each call of `process` at 120 ms, after the first, finds the interval command due.
abbrev ran_of : Option (CommandQueue (List ℕ) ℕ × List ℕ) → List ℕ
ran_of none = []
ran_of (some (q, ran)) = ran

first_ran : ran_of (process lists 120 121 three_waiting) ≡ 7 ∷ []
unfolding process new_command_queue execute_async execute_async_later execute_async_interval
first_ran = refl
