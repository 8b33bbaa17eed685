-- ===== src/EventTrace/Tests.antt =====
-- lib_http/http_payload_trace_event.h: two events, read in three rounds.
use sensor_libs.Prelude.{ℕ, ◌≡◌, refl, List, [], ◌∷◌}
use sensor_libs.EventTrace.{TraceEvent, new_payload, trace_size}
use sensor_libs.EventTrace.Json.{json_list}

-- A stand-in for `sprintf`: the event's name.
abbrev name_text : TraceEvent → List ℕ
name_text event = event.name ∷ []

abbrev begin_event : TraceEvent
begin_event = record { timestamp = 5; thread_id = 1; phase = 0; category = 1; name = b'a' }

abbrev end_event : TraceEvent
end_event = record { timestamp = 9; thread_id = 1; phase = 1; category = 1; name = b'b' }

-- Without an event the payload announces a byte that it does not have.
nothing_to_send : json_list name_text [] ≡ []
nothing_to_send = refl

one_announced : trace_size name_text (new_payload []) ≡ 1
unfolding trace_size
one_announced = refl
