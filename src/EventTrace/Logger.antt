-- ===== src/EventTrace/Logger.antt =====
-- lib_lw_event_trace/lw_event_trace.cpp: the events that the logger keeps.
use sensor_libs.Prelude.{
  suc, subst, ℕ, ◌+◌, ◌-◌, ◌%◌, ◌^◌, ◌<◌, ◌≡◌, refl, [], ◌∷◌, length, length-append, arith, ltb,
  Bool-cases, inl, inr,
}
use sensor_libs.EventTrace.{TraceEvent, LwEventTraceLogger, new_event, push_event, add_event_trace}

-- Fewer events than the capacity, which is one of a word.
pub record IsBounded (l : LwEventTraceLogger) : Type 0 where
  pub fewer : length l.events < l.capacity
  pub word : l.capacity < 2 ^ 32

push_event-IsBounded :
    (l : LwEventTraceLogger) (grown : ℕ) (event : TraceEvent)
    → IsBounded l
    → suc (length l.events) < l.capacity
    → IsBounded (push_event l grown event) × ((push_event l grown event).capacity ≡ l.capacity)
unfolding push_event
push_event-IsBounded l grown event b room = (
  record {
    fewer = ground (arith, room, b.fewer, length-append l.events (event ∷ []));
    word = ground (arith, b.fewer, b.word);
  },
  ground (arith, b.fewer),
)

-- From a logger with fewer events than its capacity an event is added without a new allocation, or
-- dropped, and there are still fewer.
pub add_event_trace-IsBounded :
    (l : LwEventTraceLogger) (grown category name thread_id timestamp phase : ℕ)
    → IsBounded l
    → IsBounded (add_event_trace l grown category name thread_id timestamp phase)
      × ((add_event_trace l grown category name thread_id timestamp phase).capacity ≡ l.capacity)
unfolding add_event_trace
add_event_trace-IsBounded l grown category name thread_id timestamp phase b =
    let event = new_event category name thread_id timestamp phase in
    let room = (l.capacity + (2 ^ 32 - 1)) % 2 ^ 32 in
    elim (Bool-cases l.is_enabled) [
      | inl on ↦ elim (Bool-cases (ltb (length l.events) room)) [
        | inl more ↦
            subst (λ (x : LwEventTraceLogger). IsBounded x × (x.capacity ≡ l.capacity))
              (simp (add_event_trace, on, more))
              (push_event-IsBounded l grown event b (ground (arith, more, b.fewer, b.word)))
        | inr full ↦
            subst (λ (x : LwEventTraceLogger). IsBounded x × (x.capacity ≡ l.capacity))
              (simp (add_event_trace, on, full)) (b, refl)
      ]
      | inr off ↦
          subst (λ (x : LwEventTraceLogger). IsBounded x × (x.capacity ≡ l.capacity))
            (simp (add_event_trace, off)) (b, refl)
    ]
