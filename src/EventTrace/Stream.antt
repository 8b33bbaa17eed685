-- ===== src/EventTrace/Stream.antt =====
-- lib_http/http_payload_trace_event.h: what a client of the payload gets, while the events stay.
use sensor_libs.Prelude.{ℕ, ◌≤◌, Option, none, some, List, [], ◌∷◌, ◌++◌, length, take, min}
use sensor_libs.HttpPayload.{HttpResult}
use sensor_libs.EventTrace.{TraceEvent, PayloadTraceEvent, trace_read_ptr, trace_commit}

module _ (text : TraceEvent → List ℕ) where
  -- The position is within the text, and the index within the events.
  pub record IsWithin (p : PayloadTraceEvent) : Type 0 where
    pub within_json : p.cur_event_json_cursor ≤ length p.cur_event_json

  -- One round of a client: it takes the pointer, sends at most `count` bytes, and commits them.
  unfoldable pub send_some :
      PayloadTraceEvent → ℕ → Option (List ℕ × (HttpResult × PayloadTraceEvent))
  unfolding trace_read_ptr trace_commit
  send_some p count = elim (trace_read_ptr text p) [
    | none ↦ none
    | some (bytes, p') ↦ let n = min count (length bytes) in some (take n bytes, trace_commit p' n)
  ]

  -- The bytes of several rounds.
  unfoldable pub deliver : PayloadTraceEvent → List ℕ → Option (List ℕ × PayloadTraceEvent)
  unfolding send_some
  deliver p [] = some ([], p)
  deliver p (count ∷ counts) = elim (send_some p count) [
    | none ↦ none
    | some (sent, (r, p')) ↦ elim (deliver p' counts) [
      | none ↦ none
      | some (more, p'') ↦ some (sent ++ more, p'')
    ]
  ]
