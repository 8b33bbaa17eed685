-- ===== src/CommandQueue/Process.antt =====
-- lib_util/command_queue.h: `process`, and the queues that the calls can lead to.
use sensor_libs.Prelude.{
  ℕ, ◌+◌, ◌^◌, ◌%◌, ◌≡◌, refl, sym, ap, ◌∙◌, inl, inr, some, List, [], ◌∷◌, ◌++◌, ◌==◌,
  if◌then◌else◌, Bool-cases, Option-cases, arith, true, false,
}
use sensor_libs.CommandQueue.{
  QueueT, IsFifo, FuncContext, modify, dec_ref_count, CommandQueue, is_positive,
}
use sensor_libs.CommandQueue.Counts.{count}
use sensor_libs.CommandQueue.Validity.{later, held, IsValid, put_room, count-put}
use sensor_libs.CommandQueue.{finish_command, run_command, process}
use sensor_libs.CommandQueue.Popping.{PoppedIndex}
use sensor_libs.CommandQueue.Delayed.{Moves, enqueue_delayed_commands-lem}
use sensor_libs.CommandQueue.Taken.{
  called_is, again_once, again_cancelled, again_interval, uncalled, again, put_back, append_none,
  Runs, pop_now-lem, drops-IsValid, keeps-IsValid,
}

module _ {Q F : Type 0} (ops : QueueT Q) (size : ℕ) (fifo : IsFifo ops size) where
  -- A command that is not cancelled.
  finish_lem :
      (after_ms : ℕ) (q : CommandQueue Q F) (i : ℕ) (s : Q)
      → (p : PoppedIndex ops size fifo q i (later ops size fifo q)) → IsValid ops size fifo q
      → ((j : ℕ)
          → count j (later ops size fifo q) + count j (fifo.items s)
            ≡ (if i == j then 0 else held ops size fifo q j))
      → p.context.cancelled ≡ false
      → (q' : CommandQueue Q F) × (finish_command ops after_ms
            (record q { commands = s })
            p.context
            i
          ≡ q')
        × IsValid ops size fifo q'
        × (q'.commands ≡ s)
        × (later ops size fifo q' ≡ later ops size fifo q ++ again p.context i)
  unfolding finish_command
  finish_lem after_ms q i s p v counts wanted =
      elim (Bool-cases (is_positive p.context.interval_ms)) [
        | inl interval ↦
            let (l, put, items) = put_room ops size fifo q.commands_later i p.room_left in
            let wait : FuncContext F → FuncContext F =
              λ c. record c { scheduled_ms = (after_ms + c.interval_ms) % 2 ^ 32 } in
            let q' : CommandQueue Q F = record {
              commands_later = l;
              commands = s;
              func_contexts = modify wait q.func_contexts i;
            } in
            (
              q',
              rw (finish_command, interval, put) refl,
              keeps-IsValid ops size fifo q q' wait i s p v
                  (λ j.
                    put_back i j (count j (later ops size fifo q)) (count j (fifo.items s))
                      (held ops size fifo q j) (count j (fifo.items l)) (counts j)
                      (count-put (later ops size fifo q) (fifo.items l) i j items))
                  refl p.counted refl,
              refl,
              items
                  ∙ ap (λ ys. later ops size fifo q ++ ys)
                      (sym (again_interval p.context i wanted interval)),
            )
        | inr once ↦
            let finish : FuncContext F → FuncContext F = λ c. record c { status = true } in
            let q' : CommandQueue Q F = record q {
              commands = s;
              func_contexts = modify (λ c. dec_ref_count (finish c)) q.func_contexts i;
            } in
            (
              q',
              rw (finish_command, once) refl,
              drops-IsValid ops size fifo q q' finish i s p v counts refl p.counted refl,
              refl,
              append_none (later ops size fifo q) (again p.context i)
                  (again_once p.context i wanted once),
            )
      ]

  run_command-lem :
      (after_ms : ℕ) (q : CommandQueue Q F)
      → IsValid ops size fifo q
      → (q' : CommandQueue Q F) × (ran : List F) × (run_command ops after_ms q ≡ some (q', ran))
        × Runs ops size fifo q q' ran
  unfolding run_command finish_command
  run_command-lem after_ms q v = elim (Option-cases (ops.pop q.commands)) [
    | inl e ↦ (
      q,
      [],
      rw (run_command, e),
      record { valid = v; oldest = inl (fifo.pop_empty q.commands e, refl, refl) },
    )
    | inr ((i, s), e) ↦
        let (p, counts) = pop_now-lem ops size fifo q i s v e in
        let items = fifo.pop_items q.commands s i e in
        elim (Bool-cases p.context.cancelled) [
          | inl gone ↦
              let q' : CommandQueue Q F = record q {
                commands = s;
                func_contexts = modify dec_ref_count q.func_contexts i;
              } in
              (
                q',
                [],
                rw (run_command, e, p.at, gone),
                record {
                  valid =
                      drops-IsValid ops size fifo q q' (λ c. c) i s p v counts refl p.counted refl;
                  oldest = inr (
                    i,
                    p.context,
                    p.at,
                    items,
                    append_none (later ops size fifo q) (again p.context i)
                        (again_cancelled p.context i gone),
                    uncalled p.context i gone,
                  );
                },
              )
          | inr wanted ↦ elim (Option-cases p.context.func) [
            | inl missing ↦ absurd (v.callable i p.context p.at (omega (arith, p.counted)) missing)
            | inr (f, func) ↦
                let (q', e', v', commands, put) = finish_lem after_ms q i s p v counts wanted in
                (
                  q',
                  f ∷ [],
                  rw (run_command, e, p.at, wanted, func, e') refl,
                  record {
                    valid = v';
                    oldest = inr (
                      i,
                      p.context,
                      p.at,
                      items ∙ ap (λ (t : Q). i ∷ fifo.items t) (sym commands),
                      put,
                      called_is p.context i f wanted func,
                    );
                  },
                )
          ]
        ]
  ]

  -- From a valid queue `process` returns: it first moves one command that is due, or none where none
  -- is, behind the commands to run, and then runs the oldest of these. That one is called unless it is
  -- cancelled, is put last among the later commands if it has an interval, and the queue is valid again.
  pub process_lem :
      (now_ms after_ms : ℕ) (q : CommandQueue Q F)
      → IsValid ops size fifo q
      → (q1 q2 : CommandQueue Q F) × (ran : List F) × (process ops now_ms after_ms q
          ≡ some (q2, ran))
        × Moves ops size fifo now_ms q q1
        × Runs ops size fifo q1 q2 ran
  unfolding process
  process_lem now_ms after_ms q v =
      let (q1, e1, moves) = enqueue_delayed_commands-lem ops size fifo now_ms q v in
      let (q2, ran, e2, runs) = run_command-lem after_ms q1 moves.valid in
      (q1, q2, ran, rw (process, e1) e2, moves, runs)
