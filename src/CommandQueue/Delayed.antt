-- ===== src/CommandQueue/Delayed.antt =====
-- lib_util/command_queue.h: the loop that moves a command that is due to the other queue.
use sensor_libs.Prelude.{
  ℕ, zero, suc, ◌+◌, ◌<◌, ◌≤◌, ◌≡◌, ◌⊎◌, refl, sym, ap, subst, ◌∙◌, inl, inr, Option, none, some,
  List, [], ◌∷◌, ◌++◌, length, get_elem?, Bool-cases, Option-cases, arith, true, false, ◌==◌,
  ==_iff, if◌then◌else◌,
}
use sensor_libs.CommandQueue.{QueueT, IsFifo, FuncContext, CommandQueue}
use sensor_libs.CommandQueue.{
  enqueue, reenter, is_start, start_from, delayed_loop, enqueue_delayed_commands,
}
use sensor_libs.CommandQueue.Counts.{count, count-append, count_self}
use sensor_libs.CommandQueue.Validity.{later, now, IsValid}
use sensor_libs.Prelude.{leb, append_assoc}
use sensor_libs.CommandQueue.Popping.{cons_head, cons_tail, pop_later-lem, reenter-lem, enqueue-lem}

-- None of the commands is due.
abbrev pub Early : {F : Type 0} → List (FuncContext F) → (now_ms : ℕ) → List ℕ → Type 0
Early {F} cs now_ms seen =
    (k : ℕ) (c : FuncContext F)
    → 0 < count k seen
    → get_elem? cs k ≡ some c
    → now_ms < c.scheduled_ms

-- The first commands are one that is not due, and those of the second list.
abbrev Covers : ℕ → List ℕ → List ℕ → Type 0
Covers i seen rest = (k : ℕ) → count k seen ≤ (if i == k then 1 else 0) + count k rest

Covers-Early :
    {F : Type 0} (cs : List (FuncContext F)) (now_ms : ℕ) (seen rest : List ℕ) (c : FuncContext F)
    (i : ℕ)
    → get_elem? cs i ≡ some c
    → now_ms < c.scheduled_ms
    → Covers i seen rest
    → Early cs now_ms rest
    → Early cs now_ms seen
Covers-Early {F} cs now_ms seen rest c i at early covers others k d counted at_k =
    elim (Bool-cases (i == k)) [
      | inl e ↦
          let same : i ≡ k = (==_iff i k).0 e in
          let at_i : get_elem? cs i ≡ some d = ap (get_elem? cs) same ∙ at_k in
          let is_c : c ≡ d = cc in subst (λ (x : FuncContext F). now_ms < x.scheduled_ms) is_c early
      | inr e ↦ others k d (ground (arith, covers k, counted, e)) at_k
    ]

no_Early : {F : Type 0} (cs : List (FuncContext F)) (now_ms : ℕ) → Early cs now_ms []
no_Early cs now_ms k c counted at = absurd (omega arith)

module _ {Q F : Type 0} (ops : QueueT Q) (size : ℕ) (fifo : IsFifo ops size) where
  -- What the loop does: it moves one command that is due, or none, and then none of those seen is due.
  pub record MovesOf (now_ms : ℕ) (seen : List ℕ) (q q' : CommandQueue Q F) : Type 0 where
    pub valid : IsValid ops size fifo q'
    pub contexts_kept : q'.func_contexts ≡ q.func_contexts
    pub moved :
        ((now ops size fifo q' ≡ now ops size fifo q) × Early q.func_contexts now_ms seen)
        ⊎ ((i : ℕ) × (c : FuncContext F) × (get_elem? q.func_contexts i ≡ some c)
            × (c.scheduled_ms ≤ now_ms)
            × (now ops size fifo q' ≡ now ops size fifo q ++ (i ∷ [])))

  abbrev pub Moves : ℕ → CommandQueue Q F → CommandQueue Q F → Type 0
  Moves now_ms q q' = MovesOf now_ms (later ops size fifo q) q q'

  Moves-through :
      (now_ms : ℕ) (seen rest : List ℕ) (q r q' : CommandQueue Q F)
      → r.commands ≡ q.commands
      → r.func_contexts ≡ q.func_contexts
      → (Early q.func_contexts now_ms rest → Early q.func_contexts now_ms seen)
      → MovesOf now_ms rest r q'
      → MovesOf now_ms seen q q'
  Moves-through now_ms seen rest q r q' e f extend m = record {
    valid = m.valid;
    contexts_kept = m.contexts_kept ∙ f;
    moved = elim m.moved [
      | inl (h, early) ↦
          inl (h ∙ ap fifo.items e, extend (subst (λ cs. Early cs now_ms rest) f early))
      | inr (i, c, at, due, h) ↦ inr (
        i,
        c,
        ap (λ cs. get_elem? cs i) (sym f) ∙ at,
        due,
        h ∙ ap (λ s. fifo.items s ++ (i ∷ [])) e,
      )
    ];
  }

  due-Moves :
      (now_ms : ℕ) (seen : List ℕ) (q : CommandQueue Q F) (c : FuncContext F) (i : ℕ) (s : Q)
      → IsValid ops size fifo q
      → ops.pop q.commands_later ≡ some (i, s)
      → get_elem? q.func_contexts i ≡ some c
      → c.scheduled_ms ≤ now_ms
      → MovesOf now_ms seen q (enqueue ops (record q { commands_later = s }) i)
  due-Moves now_ms seen q c i s v e at due =
      let (q', e', v', contexts, h) = enqueue-lem ops size fifo q i s v e in
      subst (MovesOf now_ms seen q) (sym e')
        (record { valid = v'; contexts_kept = contexts; moved = inr (i, c, at, due, h) })

  reenter-Moves :
      (now_ms : ℕ) (seen : List ℕ) (q : CommandQueue Q F) (i : ℕ) (s : Q)
      → IsValid ops size fifo q
      → ops.pop q.commands_later ≡ some (i, s)
      → Early q.func_contexts now_ms seen
      → MovesOf now_ms seen q (reenter ops (record q { commands_later = s }) i)
  reenter-Moves now_ms seen q i s v e early =
      let (q', e', v', commands, contexts, h) = reenter-lem ops size fifo q i s v e in
      subst (MovesOf now_ms seen q) (sym e') (record {
        valid = v';
        contexts_kept = contexts;
        moved = inl (ap fifo.items commands, early);
      })

  -- The loop returns, from the rest that has to go round before the first command is seen again.
  abbrev Returns : ℕ → ℕ → List ℕ → Option ℕ → CommandQueue Q F → Type 0
  Returns fuel now_ms seen start q =
      (q' : CommandQueue Q F) × (delayed_loop ops fuel now_ms start q ≡ some q')
      × MovesOf now_ms seen q q'

  -- One round, with what the others come to.
  round :
      (fuel now_ms : ℕ) (seen : List ℕ) (start : Option ℕ) (q : CommandQueue Q F)
      → IsValid ops size fifo q
      → (later ops size fifo q ≡ [] → seen ≡ [])
      → ((i : ℕ) (s : Q)
          → ops.pop q.commands_later ≡ some (i, s)
          → is_start start i ≡ true
          → Covers i seen [])
      → ((r : CommandQueue Q F) (i : ℕ) (s : Q)
          → ops.pop q.commands_later ≡ some (i, s)
          → is_start start i ≡ false
          → IsValid ops size fifo r
          → later ops size fifo r ≡ fifo.items s ++ (i ∷ [])
          → (rest : List ℕ) × Covers i seen rest × Returns fuel now_ms rest (start_from start i) r)
      → Returns (suc fuel) now_ms seen start q
  unfolding delayed_loop
  round fuel now_ms seen start q v none_seen loops next =
      elim (Option-cases (ops.pop q.commands_later)) [
        | inl e ↦
            let nothing = none_seen (fifo.pop_empty q.commands_later e) in
            let early =
              subst (λ xs. Early q.func_contexts now_ms xs) (sym nothing)
                (no_Early q.func_contexts now_ms) in
            (
              q,
              rw (delayed_loop, e),
              record { valid = v; contexts_kept = refl; moved = inl (refl, early) },
            )
        | inr ((i, s), e) ↦
            let popped = (pop_later-lem ops size fifo q i s v e).0 in
            elim (Bool-cases (leb popped.context.scheduled_ms now_ms)) [
              | inl due ↦ (
                enqueue ops (record q { commands_later = s }) i,
                rw (delayed_loop, e, popped.at, due),
                due-Moves now_ms seen q popped.context i s v e popped.at (ground arith),
              )
              | inr early ↦ elim (Bool-cases (is_start start i)) [
                | inl looped ↦ (
                  reenter ops (record q { commands_later = s }) i,
                  rw (delayed_loop, e, popped.at, early, looped),
                  reenter-Moves now_ms seen q i s v e (
                      Covers-Early q.func_contexts now_ms seen [] popped.context i popped.at
                        (ground (arith, early)) (loops i s e looped)
                        (no_Early q.func_contexts now_ms)),
                )
                | inr onward ↦
                    let (r, e', v', commands, contexts, h) = reenter-lem ops size fifo q i s v e in
                    let (rest, covers, (q', found, moves)) = next r i s e onward v' h in
                    (
                      q',
                      rw (delayed_loop, e, popped.at, early, onward, e') found,
                      Moves-through now_ms seen rest q r q' commands contexts
                          (Covers-Early q.func_contexts now_ms seen rest popped.context i popped.at
                            (ground (arith, early)) covers)
                          moves,
                    )
              ]
            ]
      ]

  -- An index stands in the queue once.
  once_only :
      (pre post : List ℕ) (p j : ℕ) (q : CommandQueue Q F)
      → IsValid ops size fifo q
      → later ops size fifo q ≡ p ∷ (pre ++ (j ∷ post))
      → ¬ (p ≡ j)
  once_only pre post p j q v h same =
      let first : count j (later ops size fifo q) ≡ count j (j ∷ (pre ++ (j ∷ post))) =
        ap (count j) h ∙ ap (λ x. count j (x ∷ (pre ++ (j ∷ post)))) same in
      omega (
        arith,
        first,
        count_self j (pre ++ (j ∷ post)),
        count-append j pre (j ∷ post),
        count_self j post,
        v.once j,
      )

  -- With a first command `j` seen, the commands before it go round.
  Returns-to :
      (pre : List ℕ) (fuel : ℕ) (post : List ℕ) (now_ms j : ℕ) (q : CommandQueue Q F)
      → length pre < fuel
      → IsValid ops size fifo q
      → later ops size fifo q ≡ pre ++ (j ∷ post)
      → Returns fuel now_ms (pre ++ (j ∷ [])) (some j) q
  Returns-to pre zero post now_ms j q l v h = absurd (omega arith)
  Returns-to [] (suc fuel) post now_ms j q l v h =
      round fuel now_ms (j ∷ []) (some j) q v (λ z. absurd (omega (arith, ap length (sym h ∙ z))))
        (λ i s e looped k. ground (arith, looped))
        (λ r i s e onward v' h'.
          let same : j ≡ i = cons_head (sym h ∙ fifo.pop_items q.commands_later s i e) in
          absurd (ground arith))
  Returns-to (p ∷ pre) (suc fuel) post now_ms j q l v h =
      round fuel now_ms (p ∷ (pre ++ (j ∷ []))) (some j) q v
        (λ z. absurd (omega (arith, ap length (sym h ∙ z))))
        (λ i s e looped. absurd (
          once_only pre post p j q v h (
            cons_head (sym h ∙ fifo.pop_items q.commands_later s i e)
            ∙ sym ((==_iff j i).0 looped))))
        (λ r i s e onward v' h'.
          let split = sym h ∙ fifo.pop_items q.commands_later s i e in
          (
            pre ++ (j ∷ []),
            (λ k. omega (arith, ap (λ x. count k (x ∷ (pre ++ (j ∷ [])))) (cons_head split))),
            Returns-to pre fuel (post ++ (i ∷ [])) now_ms j r (omega arith) v' (
                h'
                ∙ ap (λ xs. xs ++ (i ∷ [])) (sym (cons_tail split))
                ∙ append_assoc pre (j ∷ post) (i ∷ [])),
          ))

  -- From a valid queue the loop returns, and it moves one command that is due, or none where none is.
  pub enqueue_delayed_commands-lem :
      (now_ms : ℕ) (q : CommandQueue Q F)
      → IsValid ops size fifo q
      → (q' : CommandQueue Q F) × (enqueue_delayed_commands ops now_ms q ≡ some q')
        × Moves now_ms q q'
  unfolding enqueue_delayed_commands
  enqueue_delayed_commands-lem now_ms q v =
      subst (λ n. Returns n now_ms (later ops size fifo q) none q)
        {x = suc (length q.func_contexts + 1)} (omega arith)
        (round (length q.func_contexts + 1) now_ms (later ops size fifo q) none q v (λ z. z)
          (λ i s e looped. absurd cc)
          (λ r i s e onward v' h'. (
            fifo.items s ++ (i ∷ []),
            (λ k. omega (
              arith,
              ap (count k) (fifo.pop_items q.commands_later s i e),
              count-append k (fifo.items s) (i ∷ []),
            )),
            Returns-to (fifo.items s) (length q.func_contexts + 1) [] now_ms i r
                (omega (arith, v.contexts, (pop_later-lem ops size fifo q i s v e).0.room_left)) v'
                h',
          )))
