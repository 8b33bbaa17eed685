-- ===== src/CommandQueue/Validity.antt =====
-- lib_util/command_queue.h: what holds of the queue between calls, and when a command is accepted.
use sensor_libs.Prelude.{
  ℕ, ◌+◌, ◌<◌, ◌≤◌, ◌≡◌, ◌≢◌, sym, ap, subst, ◌∙◌, inl, inr, none, some, List, [], ◌∷◌, ◌++◌,
  length, get_elem?, ◌==◌, ==_iff, if◌then◌else◌, Bool-cases, Option-cases, arith,
}
use sensor_libs.CommandQueue.{QueueT, IsFifo, FuncContext, modify, CommandQueue}
use sensor_libs.CommandQueue.Counts.{
  count, count-append, length-lt, ref_at, ref_at-modify, length-modify, get_elem?-modify_other,
  get_elem?-modify_self, ref_at-above,
}

-- A context that is counted has a function.
abbrev pub Callable : {F : Type 0} → List (FuncContext F) → Type 0
Callable {F} cs =
    (i : ℕ) (c : FuncContext F) → get_elem? cs i ≡ some c → 0 < c.ref_count → c.func ≢ none

pub put_room :
    {Q : Type 0} (ops : QueueT Q) (size : ℕ) (fifo : IsFifo ops size) (s : Q) (i : ℕ)
    → length (fifo.items s) < size
    → (s' : Q) × (ops.put s i ≡ some s') × (fifo.items s' ≡ fifo.items s ++ (i ∷ []))
put_room ops size fifo s i l = elim (Option-cases (ops.put s i)) [
  | inl e ↦ absurd (omega (arith, fifo.put_full s i e))
  | inr (s', e) ↦ (s', e, fifo.put_items s s' i e)
]

-- An index that is put into one of the queues.
pub count-put :
    (xs ys : List ℕ) (i j : ℕ)
    → ys ≡ xs ++ (i ∷ [])
    → count j ys ≡ (if i == j then 1 else 0) + count j xs
count-put xs ys i j e = omega (arith, ap (count j) e, count-append j xs (i ∷ []))

module _ {Q F : Type 0} (ops : QueueT Q) (size : ℕ) (fifo : IsFifo ops size) where
  abbrev pub later : CommandQueue Q F → List ℕ
  later q = fifo.items q.commands_later

  abbrev pub now : CommandQueue Q F → List ℕ
  now q = fifo.items q.commands

  abbrev pub held : CommandQueue Q F → ℕ → ℕ
  held q i = count i (later q) + count i (now q)

  -- A context is counted as often as an index to it stands in the two queues, which is at most once.
  pub record IsValid (q : CommandQueue Q F) : Type 0 where
    pub contexts : length q.func_contexts ≡ size
    pub balanced : (i : ℕ) → ref_at q.func_contexts i ≡ held q i
    pub once : (i : ℕ) → held q i ≤ 1
    pub callable : Callable q.func_contexts

  pub held_above : (q : CommandQueue Q F) → IsValid q → (i : ℕ) → size ≤ i → held q i ≡ 0
  held_above q v i h =
      omega (arith, v.balanced i, ref_at-above q.func_contexts i (omega (arith, v.contexts)))

  -- A queue has room for an index that is in none of the two.
  pub room_for :
      (q : CommandQueue Q F) (i : ℕ)
      → IsValid q
      → i < size
      → held q i ≡ 0
      → (length (later q) < size) × (length (now q) < size)
  room_for q i v l e = (
    length-lt size i (later q) (λ j. omega (arith, v.once j))
        (λ j m. omega (arith, held_above q v j m)) l (omega (arith, e)),
    length-lt size i (now q) (λ j. omega (arith, v.once j))
        (λ j m. omega (arith, held_above q v j m)) l (omega (arith, e)),
  )

  -- A call that changes one context, and how often its index stands in the queues.
  pub step-IsValid :
      (q q' : CommandQueue Q F) (g : FuncContext F → FuncContext F) (c : FuncContext F) (i : ℕ)
      → IsValid q
      → get_elem? q.func_contexts i ≡ some c
      → q'.func_contexts ≡ modify g q.func_contexts i
      → ((j : ℕ) → held q' j ≡ (if i == j then (g c).ref_count else held q j))
      → (g c).ref_count ≤ 1
      → (g c).func ≢ none
      → IsValid q'
  step-IsValid q q' g c i v at e h one f = record {
    contexts = ap length e ∙ length-modify g q.func_contexts i ∙ v.contexts;
    balanced = λ j.
        ap (λ cs. ref_at cs j) e
        ∙ ref_at-modify g q.func_contexts c i j at
        ∙ ap (λ n. if i == j then (g c).ref_count else n) (v.balanced j)
        ∙ sym (h j);
    once = λ j. ground (arith, h j, one, v.once j);
    callable = λ j d at_j counted. elim (Bool-cases (i == j)) [
      | inl same ↦
          let i_j : i ≡ j = (==_iff i j).0 same in
          let there : get_elem? q'.func_contexts i ≡ some (g c) =
            ap (λ cs. get_elem? cs i) e ∙ get_elem?-modify_self g q.func_contexts c i at in
          let d_is : d ≡ g c = cc in subst (λ (x : FuncContext F). x.func ≢ none) (sym d_is) f
      | inr other ↦
          let there : get_elem? q'.func_contexts j ≡ get_elem? q.func_contexts j =
            ap (λ cs. get_elem? cs j) e
            ∙ get_elem?-modify_other g q.func_contexts i j (λ z. ground arith) in
          v.callable j d (sym there ∙ at_j) counted
    ];
  }
