-- ===== src/HttpPayload/Delivery.antt =====
-- lib_http/http_payload.h, http_payload.cpp: what a client of a payload gets in the end.
use native.Mathlib.Decide.{dec_lt}
use sensor_libs.Prelude.{
  ℕ, zero, suc, ◌+◌, ◌-◌, ◌^◌, ◌<◌, ◌≤◌, ◌≡◌, ◌↔◌, refl, sym, ap, ◌∙◌, Option, none, some, List, [],
  ◌∷◌, ◌++◌, append_assoc, length, length-drop, length-append, length-take, sub64_of_le,
  length-replicate, take, drop, drop-drop, take-append-drop, replicate, min, sub64, word64, arith,
  ltb, false, nil_of_length,
}
use sensor_libs.HttpPayload.{
  HttpResult, complete, Payload, empty_payload, json, blob, test_payload, domain_size,
  from_position, get_read_ptr, at_end, commit, through_int, payload_size,
}

-- What is still to be sent.
abbrev pub remaining : Payload → List ℕ
remaining empty_payload = []
remaining (json text pos) = drop pos text
remaining (blob bytes pos) = drop pos bytes
remaining (test_payload size pos) = replicate (size - pos) 172

abbrev pub position : Payload → ℕ
position empty_payload = 0
position (json text pos) = pos
position (blob bytes pos) = pos
position (test_payload size pos) = pos

-- All bytes of the payload, sent or not.
abbrev pub total : Payload → ℕ
total empty_payload = 0
total (json text pos) = length text
total (blob bytes pos) = length bytes
total (test_payload size pos) = size

-- What `size` returns is the number of bytes, unless a JSON text has 2 ^ 31 bytes or more.
payload_size_lem : (p : Payload) → total p < 2 ^ 31 → payload_size p ≡ total p
unfolding payload_size through_int
payload_size_lem empty_payload h = refl
payload_size_lem (json text pos) h = ground arith
payload_size_lem (blob bytes pos) h = refl
payload_size_lem (test_payload size pos) h = refl

-- The position is not behind the end, and the number of bytes is one of a word.
unfoldable pub IsWithin : Payload → Type 0
IsWithin p = (position p ≤ total p) × (total p < word64)

-- One round of a client: it takes the pointer, manages to send at most `count` bytes, and commits what
-- it sent.
unfoldable pub send_some : Payload → ℕ → Option (List ℕ × HttpResult × Payload)
unfolding get_read_ptr commit
send_some p count = elim (get_read_ptr p) [
  | none ↦ none
  | some bytes ↦
      let n = min count (length bytes) in let (r, p') = commit p n in some (take n bytes, r, p')
]

pub record Sends (p : Payload) (count : ℕ) : Type 0 where
  pub sent : List ℕ
  pub result : HttpResult
  pub after : Payload
  pub returns : send_some p count ≡ some (sent, result, after)
  pub order : sent ++ remaining after ≡ remaining p
  pub within : IsWithin after
  pub ends : (result ≡ complete) ↔ (remaining after ≡ [])
  pub some_sent : 0 < count → 0 < length (remaining p) → 0 < length sent

pub at_end_iff : (pos size : ℕ) → (at_end pos size ≡ complete) ↔ (pos ≡ size)
unfolding at_end
at_end_iff pos size = ground arith

nil_iff :
    (pos : ℕ) (bytes : List ℕ) → pos ≤ length bytes → (pos ≡ length bytes) ↔ (drop pos bytes ≡ [])
nil_iff pos bytes h = (
  (λ e. nil_of_length (drop pos bytes) (omega (arith, e, length-drop pos bytes))),
  λ e. omega (arith, h, ap length e, length-drop pos bytes),
)

-- A round over bytes that are there.
bytes_round :
    (text : List ℕ) (pos count : ℕ)
    → pos ≤ length text
    → let n = min count (length (drop pos text)) in
      (from_position text pos ≡ some (drop pos text))
      × (take n (drop pos text) ++ drop (pos + n) text ≡ drop pos text)
      × (pos + n ≤ length text)
      × ((at_end (pos + n) (length text) ≡ complete) ↔ (drop (pos + n) text ≡ []))
      × (0 < count → 0 < length (drop pos text) → 0 < length (take n (drop pos text)))
unfolding from_position
bytes_round text pos count h =
    let n = min count (length (drop pos text)) in
    let inside : ltb (length text) pos ≡ false = ground arith in
    let fits : pos + n ≤ length text = omega (arith, length-drop pos text) in
    let end = at_end_iff (pos + n) (length text) in
    let rest = nil_iff (pos + n) text fits in
    (
      rw (from_position, inside),
      ap (λ xs. take n (drop pos text) ++ xs) (sym (drop-drop pos n text))
          ∙ take-append-drop n (drop pos text),
      fits,
      ((λ e. rest.0 (end.0 e)), λ e. end.1 (rest.1 e)),
      λ c l. omega (arith, c, l, length-take n (drop pos text)),
    )

take-replicate : (n m v : ℕ) → n ≤ m → take n (replicate m v) ≡ replicate n v
take-replicate zero m v h = refl
take-replicate (suc n) zero v h = absurd (omega arith)
take-replicate (suc n) (suc m) v h = ap (◌∷◌ v) (take-replicate n m v (omega arith))

replicate-append : (n m k v : ℕ) → n + m ≡ k → replicate n v ++ replicate m v ≡ replicate k v
replicate-append zero m k v h = let e : m ≡ k = omega (arith, h) in ap (λ i. replicate i v) e
replicate-append (suc n) m zero v h = absurd (omega arith)
replicate-append (suc n) m (suc k) v h = ap (◌∷◌ v) (replicate-append n m k v (omega arith))

-- From a position within the payload, one round sends the next bytes of what remains, at least one if
-- some remain and the client can send; it reports the end just when nothing remains.
pub sends_lem : (p : Payload) (count : ℕ) → IsWithin p → Sends p count
unfolding IsWithin send_some
sends_lem empty_payload count w = record {
  sent = [];
  result = complete;
  after = empty_payload;
  returns =
      let e : min count 0 ≡ 0 = omega arith in
      ap (λ n. some (take n [], complete, empty_payload)) e;
  order = refl;
  within = w;
  ends = ((λ e. refl), λ e. refl);
  some_sent = λ c l. l;
}
sends_lem (json text pos) count w =
    let (read, order, fits, ends, some_sent) = bytes_round text pos count w.0 in
    let n = min count (length (drop pos text)) in
    record {
      sent = take n (drop pos text);
      result = at_end (pos + n) (length text);
      after = json text (pos + n);
      returns = rw (send_some, get_read_ptr, read);
      order = order;
      within = (fits, w.1);
      ends = ends;
      some_sent = some_sent;
    }
sends_lem (blob text pos) count w =
    let (read, order, fits, ends, some_sent) = bytes_round text pos count w.0 in
    let n = min count (length (drop pos text)) in
    record {
      sent = take n (drop pos text);
      result = at_end (pos + n) (length text);
      after = blob text (pos + n);
      returns = rw (send_some, get_read_ptr, read);
      order = order;
      within = (fits, w.1);
      ends = ends;
      some_sent = some_sent;
    }
sends_lem (test_payload size pos) count w =
    let bytes = replicate (min (sub64 size pos) domain_size) 172 in
    let n = min count (length bytes) in
    let left : sub64 size pos ≡ size - pos = sub64_of_le size pos w.0 w.1 in
    let len = length-replicate {A = ℕ} (min (sub64 size pos) domain_size) 172 in
    let end = at_end_iff (pos + n) size in
    let fits : pos + n ≤ size = omega (arith, left, len, w.0) in
    record {
      sent = take n bytes;
      result = at_end (pos + n) size;
      after = test_payload size (pos + n);
      returns = refl;
      order =
          ap (λ xs. xs ++ replicate (size - (pos + n)) 172)
            (take-replicate n (min (sub64 size pos) domain_size) 172 (omega (arith, len)))
          ∙ replicate-append n (size - (pos + n)) (size - pos) 172 (omega (arith, fits));
      within = (fits, w.1);
      ends =
          let none_left = length-replicate {A = ℕ} (size - (pos + n)) 172 in
          (
            (λ e.
                nil_of_length (replicate (size - (pos + n)) 172)
                  (omega (arith, none_left, end.0 e))),
            λ e. end.1 (omega (arith, none_left, fits, ap length e)),
          );
      some_sent = λ c l.
          omega (
            arith,
            c,
            l,
            length-take n bytes,
            len,
            left,
            length-replicate {A = ℕ} (size - pos) 172,
          );
    }

-- What a client gets in several rounds, and what is left of the payload.
unfoldable pub deliver : Payload → List ℕ → Option (List ℕ × Payload)
unfolding send_some
deliver p [] = some ([], p)
deliver p (count ∷ counts) = elim (send_some p count) [
  | none ↦ none
  | some (sent, r, p') ↦ elim (deliver p' counts) [
    | none ↦ none
    | some (more, p'') ↦ some (sent ++ more, p'')
  ]
]

-- Whatever counts a client manages to send in its rounds, from a position within the payload: no round
-- takes bytes outside it, what was sent and then what remains is what remained at first, and the
-- position is within the payload afterwards.
pub deliver_lem :
    (p : Payload) (counts : List ℕ)
    → IsWithin p
    → (sent : List ℕ) × (p' : Payload) × (deliver p counts ≡ some (sent, p'))
      × (sent ++ remaining p' ≡ remaining p)
      × IsWithin p'
unfolding deliver
deliver_lem p [] w = ([], p, refl, refl, w)
deliver_lem p (count ∷ counts) w =
    let s = sends_lem p count w in
    let (more, p', e, order, w') = deliver_lem s.after counts s.within in
    (
      s.sent ++ more,
      p',
      rw (deliver, s.returns, e),
      append_assoc s.sent more (remaining p') ∙ ap (λ xs. s.sent ++ xs) order ∙ s.order,
      w',
    )

pub data AllPositive : List ℕ → Type 0 where
  no_more : AllPositive []
  and_then : {n : ℕ} {ns : List ℕ} → 0 < n → AllPositive ns → AllPositive (n ∷ ns)

shorter :
    (p : Payload) (count k : ℕ) (s : Sends p count)
    → 0 < count
    → length (remaining p) ≤ suc k
    → length (remaining s.after) ≤ k
shorter p count k s c l =
    let sum : length s.sent + length (remaining s.after) ≡ length (remaining p) =
      sym (length-append s.sent (remaining s.after)) ∙ ap length s.order in
    elim (dec_lt 0 (length (remaining p))) [
      | yes h ↦ omega (arith, sum, s.some_sent c h)
      | no h ↦ omega (arith, sum)
    ]

-- A client that sends at least a byte in every round, and has as many rounds as bytes remain, gets all
-- that remains, and nothing is left.
pub deliver_all :
    (p : Payload) (counts : List ℕ)
    → IsWithin p
    → AllPositive counts
    → length (remaining p) ≤ length counts
    → (p' : Payload) × (deliver p counts ≡ some (remaining p, p')) × (remaining p' ≡ [])
unfolding deliver
deliver_all p [] w no_more l =
    let e = nil_of_length (remaining p) (omega (arith, l)) in
    (p, ap (λ xs. some (xs, p)) (sym e), e)
deliver_all p (count ∷ counts) w (and_then c cs) l =
    let s = sends_lem p count w in
    let (p', e, none_left) =
      deliver_all s.after counts s.within cs (shorter p count (length counts) s c l) in
    (p', rw (deliver, s.returns, e) (ap (λ xs. some (xs, p')) s.order), none_left)
