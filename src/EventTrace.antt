-- ===== src/EventTrace.antt =====
-- lib_lw_event_trace/lw_event_trace.h, lw_event_trace.cpp: the logger of events; and
-- lib_http/http_payload_trace_event.h, the payload that lists them as JSON. `sprintf` is a parameter,
-- as the text of an event up to its last comma; a `size_t` has 32 bits.
use sensor_libs.Prelude.{
  ℕ, zero, suc, ◌+◌, ◌-◌, ◌%◌, ◌/◌, ◌^◌, max, Bool, true, false, not, ◌&&◌, Option, none, some,
  List, [], ◌∷◌, ◌++◌, length, get_elem?, set, drop, ◌==◌, ltb, leb, if◌then◌else◌,
}
use sensor_libs.HttpPayload.{HttpResult, complete, incomplete}
pub mod Json
pub mod Stream
pub mod Logger
mod Tests

-- The strings are pointers.
pub record TraceEvent : Type 0 where
  pub timestamp : ℕ
  pub thread_id : ℕ
  pub phase : ℕ
  pub category : ℕ
  pub name : ℕ

pub record LwEventTraceLogger : Type 0 where
  pub events : List TraceEvent
  pub capacity : ℕ
  pub is_enabled : Bool

-- `reserve` gives at least the capacity asked for, and here just that, unless there is more.
unfoldable pub enable :
    (event_size : ℕ) → LwEventTraceLogger → (reserved_bytes : ℕ) → LwEventTraceLogger
enable event_size l reserved_bytes = record {
  events = [];
  capacity = max l.capacity (reserved_bytes / event_size);
  is_enabled = true;
}

abbrev pub disable : LwEventTraceLogger → LwEventTraceLogger
disable l = record l { is_enabled = false }

-- The members of an event are bit fields of 55, 8 and 1 bits.
abbrev pub new_event : (category name thread_id timestamp phase : ℕ) → TraceEvent
new_event category name thread_id timestamp phase = record {
  timestamp = timestamp % 2 ^ 55;
  thread_id = thread_id % 255;
  phase = if phase == b'B' then 0 else 1;
  category = category;
  name = name;
}

-- A vector that is full grows to some capacity `grown`.
unfoldable pub push_event : LwEventTraceLogger → (grown : ℕ) → TraceEvent → LwEventTraceLogger
push_event l grown event = record l {
  events = l.events ++ (event ∷ []);
  capacity = if ltb (length l.events) l.capacity then l.capacity else grown;
}

unfoldable pub add_event_trace :
    LwEventTraceLogger → (grown category name thread_id timestamp phase : ℕ) → LwEventTraceLogger
unfolding push_event
add_event_trace l grown category name thread_id timestamp phase =
    if not l.is_enabled
    then l
    else if ltb (length l.events) ((l.capacity + (2 ^ 32 - 1)) % 2 ^ 32)
    then push_event l grown (new_event category name thread_id timestamp phase)
    else l

pub record PayloadTraceEvent : Type 0 where
  pub trace_events : List TraceEvent
  pub cur_event_json : List ℕ
  pub cur_event_json_cursor : ℕ
  pub event_index : ℕ

abbrev pub new_payload : List TraceEvent → PayloadTraceEvent
new_payload events = record {
  trace_events = events;
  cur_event_json = [];
  cur_event_json_cursor = 0;
  event_index = 0;
}

module _ (text : TraceEvent → List ℕ) where
  abbrev pub to_json : TraceEvent → List ℕ
  to_json event = text event ++ (b',' ∷ [])

  -- The text of the event at an index: a bracket before the first, and for the comma of the last.
  unfoldable pub element_json : (index count : ℕ) → TraceEvent → List ℕ
  element_json index count event =
      let json = to_json event in
      let opened = if index == 0 then b'[' ∷ json else json in
      if index == count - 1 then set opened (length opened - 1) b']' else opened

  -- The text that is read from, with the next event's where it is at its end. `none` is no event.
  unfoldable pub next_element : PayloadTraceEvent → Option PayloadTraceEvent
  unfolding element_json
  next_element p =
      if (p.cur_event_json_cursor == length p.cur_event_json)
        && ltb p.event_index (length p.trace_events)
      then elim (get_elem? p.trace_events p.event_index) [
        | none ↦ none
        | some event ↦ some (record p {
          cur_event_json = element_json p.event_index (length p.trace_events) event;
          cur_event_json_cursor = 0;
          event_index = p.event_index + 1;
        })
      ]
      else some p

  unfoldable pub trace_read_ptr : PayloadTraceEvent → Option (List ℕ × PayloadTraceEvent)
  unfolding next_element
  trace_read_ptr p = elim (next_element p) [
    | none ↦ none
    | some p' ↦ some (drop p'.cur_event_json_cursor p'.cur_event_json, p')
  ]

  unfoldable pub sum_sizes : List TraceEvent → ℕ
  sum_sizes [] = 0
  sum_sizes (event ∷ events) = length (to_json event) + sum_sizes events

  -- `size`: the sum is an `int`.
  unfoldable pub trace_size : PayloadTraceEvent → ℕ
  unfolding sum_sizes
  trace_size p = (sum_sizes p.trace_events % 2 ^ 32 + 1) % 2 ^ 32

unfoldable pub trace_commit : PayloadTraceEvent → ℕ → HttpResult × PayloadTraceEvent
trace_commit p n =
    let p' = record p { cur_event_json_cursor = p.cur_event_json_cursor + n } in
    if (p'.cur_event_json_cursor == length p.cur_event_json)
      && leb (length p.trace_events) p.event_index
    then (complete, p')
    else (incomplete, p')
