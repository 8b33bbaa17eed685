-- ===== src/EventTrace/Json.antt =====
-- lib_http/http_payload_trace_event.h: the JSON list, element by element.
use sensor_libs.Prelude.{
  ℕ, zero, suc, ◌+◌, ◌-◌, ◌<◌, ◌≡◌, refl, ap, ap₂, ◌∙◌, some, List, [], ◌∷◌, ◌++◌, append_assoc,
  append-nil, length, length-append, drop, set, get_elem?, arith, ◌==◌, true, false,
}
use sensor_libs.EventTrace.{TraceEvent, PayloadTraceEvent, to_json, element_json}

pub set-append_last :
    (xs : List ℕ) (c v n : ℕ) → n ≡ length xs → set (xs ++ (c ∷ [])) n v ≡ xs ++ (v ∷ [])
set-append_last [] c v zero e = refl
set-append_last [] c v (suc n) e = absurd (omega arith)
set-append_last (x ∷ xs) c v zero e = absurd (omega arith)
set-append_last (x ∷ xs) c v (suc n) e = ap (λ zs. x ∷ zs) (set-append_last xs c v n (omega arith))

pub drop-get_elem? :
    (xs : List TraceEvent) (i : ℕ)
    → i < length xs
    → (x : TraceEvent) × (get_elem? xs i ≡ some x) × (drop i xs ≡ x ∷ drop (i + 1) xs)
drop-get_elem? [] i l = absurd (omega arith)
drop-get_elem? (x ∷ xs) zero l = (x, refl, refl)
drop-get_elem? (x ∷ xs) (suc i) l =
    let (y, e, d) = drop-get_elem? xs i (omega arith) in
    let next : suc (i + 1) ≡ suc i + 1 = omega arith in
    (y, e, d ∙ ap (λ k. y ∷ drop k (x ∷ xs)) next)

-- The list of JSON objects, `[a,b,c]`; nothing for no event.
module _ (text : TraceEvent → List ℕ) where
  abbrev pub json_tail : TraceEvent → List TraceEvent → List ℕ
  json_tail event [] = text event ++ (b']' ∷ [])
  json_tail event (next ∷ events) = text event ++ (b',' ∷ json_tail next events)

  abbrev pub json_list : List TraceEvent → List ℕ
  json_list [] = []
  json_list (event ∷ events) = b'[' ∷ json_tail event events

  abbrev pub rest : (index count : ℕ) → List TraceEvent → List ℕ
  rest index count [] = []
  rest index count (event ∷ events) =
      element_json text index count event ++ rest (index + 1) count events

  -- The bytes still to be read.
  abbrev pub unread : PayloadTraceEvent → List ℕ
  unread p =
      drop p.cur_event_json_cursor p.cur_event_json
      ++ rest p.event_index (length p.trace_events) (drop p.event_index p.trace_events)

  pub inner_json :
      (index count : ℕ) (event : TraceEvent)
      → (index == 0) ≡ false
      → (index == count - 1) ≡ false
      → element_json text index count event ≡ text event ++ (b',' ∷ [])
  unfolding element_json
  inner_json index count event first last = rw (element_json, first, last) refl

  pub last_json :
      (index count : ℕ) (event : TraceEvent)
      → (index == 0) ≡ false
      → (index == count - 1) ≡ true
      → element_json text index count event ≡ text event ++ (b']' ∷ [])
  unfolding element_json
  last_json index count event first last =
      rw (element_json, first, last)
        (set-append_last (text event) b',' b']' (length (to_json text event) - 1)
          (omega (arith, length-append (text event) (b',' ∷ []))))

  pub first_json :
      (count : ℕ) (event : TraceEvent)
      → (0 == count - 1) ≡ false
      → element_json text 0 count event ≡ b'[' ∷ (text event ++ (b',' ∷ []))
  unfolding element_json
  first_json count event last = rw (element_json, last) refl

  pub only_json :
      (event : TraceEvent) → element_json text 0 1 event ≡ b'[' ∷ (text event ++ (b']' ∷ []))
  unfolding element_json
  only_json event =
      set-append_last (b'[' ∷ text event) b',' b']' (length (b'[' ∷ to_json text event) - 1)
        (omega (arith, length-append (text event) (b',' ∷ [])))

  pub rest_tail :
      (events : List TraceEvent) (event : TraceEvent) (index count : ℕ)
      → 0 < index
      → index + suc (length events) ≡ count
      → rest index count (event ∷ events) ≡ json_tail event events
  rest_tail [] event index count l e =
      append-nil (element_json text index count event)
      ∙ last_json index count event (ground (arith, l)) (ground (arith, e))
  rest_tail (next ∷ events) event index count l e =
      ap₂ ◌++◌ (inner_json index count event (ground (arith, l)) (ground (arith, e)))
        (rest_tail events next (index + 1) count (omega arith) (omega (arith, e)))
      ∙ append_assoc (text event) (b',' ∷ []) (json_tail next events)

  pub rest_all : (events : List TraceEvent) → rest 0 (length events) events ≡ json_list events
  rest_all [] = refl
  rest_all (event ∷ []) = append-nil (element_json text 0 1 event) ∙ only_json event
  rest_all (event ∷ next ∷ events) =
      ap₂ ◌++◌ (first_json (length (event ∷ next ∷ events)) event (ground arith))
        (rest_tail events next 1 (length (event ∷ next ∷ events)) (omega arith) (omega arith))
      ∙ ap (λ zs. b'[' ∷ zs) (append_assoc (text event) (b',' ∷ []) (json_tail next events))
