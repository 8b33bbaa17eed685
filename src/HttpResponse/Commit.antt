-- ===== src/HttpResponse/Commit.antt =====
-- lib_http/http_response.cpp: what a commit does to the bytes of a response that are to be read.
use native.Mathlib.Decide.{dec_lt}
use sensor_libs.Prelude.{
  nil_of_length, ℕ, ◌+◌, ◌≤◌, ◌≡◌, ◌≢◌, ◌⊎◌, inl, inr, refl, sym, ap, ap₂, ◌∙◌, subst, Option, none,
  some, List, [], ◌∷◌, ◌++◌, append_assoc, length, length-drop, take, drop, drop-drop,
  take-append-drop, min, arith, ltb, ◌==◌, ==_iff, Bool-cases, Option-cases, true, false,
  drop-length,
}
use sensor_libs.HttpPayload.{
  HttpResult, complete, incomplete, Payload, empty_payload, json, blob, test_payload, at_end,
}
use sensor_libs.HttpPayload
use sensor_libs.HttpPayload.Delivery.{remaining, IsWithin, send_some, Sends, sends_lem}
use sensor_libs.HttpResponse.{HttpResponse, read_ready, commit_read}

-- A response whose header is built, with its positions within the header and the payload.
pub record IsReady (r : HttpResponse) : Type 0 where
  pub built : r.header ≢ []
  pub within_header : r.header_pos ≤ length r.header
  pub within_payload : IsWithin r.payload

-- The rest of the header, and what remains of the payload.
abbrev pub unread : HttpResponse → List ℕ
unread r = drop r.header_pos r.header ++ remaining r.payload

pub List-cases : (xs : List ℕ) → (xs ≡ []) ⊎ ((c : ℕ) × (cs : List ℕ) × (xs ≡ c ∷ cs))
List-cases [] = inl refl
List-cases (c ∷ cs) = inr (c, cs, refl)

pub payload_ready :
    (p : Payload) → IsWithin p → (bytes : List ℕ) × (HttpPayload.get_read_ptr p ≡ some bytes)
unfolding send_some
payload_ready p w = elim (Option-cases (HttpPayload.get_read_ptr p)) [
  | inl e ↦
      let s = sends_lem p 0 w in
      let nothing : ◌≡◌ {A = Option (List ℕ × HttpResult × Payload)} none
          (some (s.sent, s.result, s.after)) =
        sym (rw (send_some, e) refl) ∙ s.returns in
      absurd cc
  | inr (bytes, e) ↦ (bytes, e)
]

-- What a commit of `n` bytes of those at the pointer does.
pub record Commits (r : HttpResponse) (bytes : List ℕ) (n : ℕ) : Type 0 where
  pub result : HttpResult
  pub after : HttpResponse
  pub returns : commit_read r n ≡ (result, after)
  pub ready : IsReady after
  pub order : take n bytes ++ unread after ≡ unread r
  pub ends : result ≡ complete → unread after ≡ []
  pub known : (result ≡ complete) ⊎ (result ≡ incomplete)

pub header_commit :
    (r : HttpResponse) (n : ℕ)
    → IsReady r
    → ltb r.header_pos (length r.header) ≡ true
    → n ≤ length (drop r.header_pos r.header)
    → Commits r (drop r.header_pos r.header) n
unfolding commit_read
header_commit r n ready more l =
    let other : (r.header_pos == length r.header) ≡ false = ground (arith, more) in
    let size = length-drop r.header_pos r.header in
    record {
      result = incomplete;
      after = record r { header_pos = r.header_pos + n };
      returns = rw (commit_read, other) refl;
      ready = record {
        built = ready.built;
        within_header = ground (arith, more, size);
        within_payload = ready.within_payload;
      };
      order =
          sym (
            append_assoc (take n (drop r.header_pos r.header)) (drop (r.header_pos + n) r.header)
              (remaining r.payload))
          ∙ ap (λ xs. xs ++ remaining r.payload)
              (ap (λ xs. take n (drop r.header_pos r.header) ++ xs)
                  (sym (drop-drop r.header_pos n r.header))
                ∙ take-append-drop n (drop r.header_pos r.header));
      ends = λ e. absurd cc;
      known = inr refl;
    }

pub at_end-known : (pos size : ℕ) → (at_end pos size ≡ complete) ⊎ (at_end pos size ≡ incomplete)
unfolding at_end
at_end-known pos size = elim (Bool-cases (pos == size)) [
  | inl e ↦ inl (rw (at_end, e) refl)
  | inr e ↦ inr (rw (at_end, e) refl)
]

pub commit_result :
    (p : Payload) (n : ℕ)
    → ((HttpPayload.commit p n).0 ≡ complete) ⊎ ((HttpPayload.commit p n).0 ≡ incomplete)
unfolding HttpPayload.commit
commit_result empty_payload n = inl refl
commit_result (json text pos) n = at_end-known (pos + n) (length text)
commit_result (blob bytes pos) n = at_end-known (pos + n) (length bytes)
commit_result (test_payload size pos) n = at_end-known (pos + n) size

pub commit-known :
    (p : Payload) (n : ℕ) (res : HttpResult)
    → (HttpPayload.commit p n).0 ≡ res
    → (res ≡ complete) ⊎ (res ≡ incomplete)
commit-known p n res e =
    subst (λ (x : HttpResult). (x ≡ complete) ⊎ (x ≡ incomplete)) e (commit_result p n)

pub sent_are :
    (p : Payload) (n : ℕ) (bytes : List ℕ) (s : Sends p n)
    → HttpPayload.get_read_ptr p ≡ some bytes
    → n ≤ length bytes
    → (take n bytes ≡ s.sent)
      × ((HttpPayload.commit p n).0 ≡ s.result)
      × ((HttpPayload.commit p n).1 ≡ s.after)
unfolding send_some
sent_are p n bytes s e l =
    let all : min n (length bytes) ≡ n = omega (arith, l) in
    let sends : ◌≡◌ {A = Option (List ℕ × HttpResult × Payload)}
        (some (take n bytes, (HttpPayload.commit p n).0, (HttpPayload.commit p n).1))
        (some (s.sent, s.result, s.after)) =
      sym (rw (send_some, e, all) refl) ∙ s.returns in
    (cc, cc, cc)

pub payload_commit :
    (r : HttpResponse) (n : ℕ) (bytes : List ℕ)
    → IsReady r
    → r.header_pos ≡ length r.header
    → HttpPayload.get_read_ptr r.payload ≡ some bytes
    → n ≤ length bytes
    → Commits r bytes n
unfolding commit_read
payload_commit r n bytes ready end e l =
    let s = sends_lem r.payload n ready.within_payload in
    let (sent, result, after) = sent_are r.payload n bytes s e l in
    let nothing : drop r.header_pos r.header ≡ [] =
      drop-length r.header_pos r.header (omega (arith, end)) in
    record {
      result = s.result;
      after = record r { payload = s.after };
      returns =
          let at_header_end = (==_iff r.header_pos (length r.header)).1 end in
          rw (commit_read, at_header_end)
            (ap₂ (λ (res : HttpResult) (p : Payload). (res, record r { payload = p })) result
              after);
      ready = record {
        built = ready.built;
        within_header = ready.within_header;
        within_payload = s.within;
      };
      order =
          ap (λ xs. take n bytes ++ (xs ++ remaining s.after)) nothing
          ∙ ap (λ xs. xs ++ remaining s.after) sent
          ∙ s.order
          ∙ ap (λ xs. xs ++ remaining r.payload) (sym nothing);
      ends = λ c. ap (λ xs. xs ++ remaining s.after) nothing ∙ s.ends.0 c;
      known = commit-known r.payload n s.result result;
    }

-- Where the pointer gives no byte, nothing is left.
pub payload_end :
    (r : HttpResponse) (bytes : List ℕ)
    → IsReady r
    → r.header_pos ≡ length r.header
    → HttpPayload.get_read_ptr r.payload ≡ some bytes
    → length bytes ≡ 0
    → unread r ≡ []
unfolding send_some
payload_end r bytes ready end e z =
    let s = sends_lem r.payload 1 ready.within_payload in
    let none_sent : min 1 (length bytes) ≡ 0 = omega (arith, z) in
    let sends : ◌≡◌ {A = Option (List ℕ × HttpResult × Payload)}
        (some ([], (HttpPayload.commit r.payload 0).0, (HttpPayload.commit r.payload 0).1))
        (some (s.sent, s.result, s.after)) =
      sym (rw (send_some, e, none_sent) refl) ∙ s.returns in
    let nothing : [] ≡ s.sent = cc in
    let left : length (remaining r.payload) ≡ 0 = elim (dec_lt 0 (length (remaining r.payload))) [
      | yes l ↦ absurd (omega (arith, s.some_sent (omega arith) l, ap length nothing))
      | no l ↦ omega arith
    ] in
    ap (λ xs. xs ++ remaining r.payload) (drop-length r.header_pos r.header (omega (arith, end)))
    ∙ nil_of_length (remaining r.payload) left

-- The bytes at the pointer, and what a commit of some of them does.
pub read_lem :
    (r : HttpResponse)
    → IsReady r
    → (bytes : List ℕ) × (read_ready r ≡ some bytes)
      × (length bytes ≡ 0 → unread r ≡ [])
      × ((n : ℕ) → n ≤ length bytes → Commits r bytes n)
unfolding read_ready
read_lem r ready = elim (Bool-cases (ltb r.header_pos (length r.header))) [
  | inl more ↦ (
    drop r.header_pos r.header,
    rw (read_ready, more) refl,
    (λ z. absurd (ground (arith, more, z, length-drop r.header_pos r.header))),
    λ n l. header_commit r n ready more l,
  )
  | inr end ↦
      let (bytes, e) = payload_ready r.payload ready.within_payload in
      let same : r.header_pos ≡ length r.header = ground (arith, end, ready.within_header) in
      (
        bytes,
        rw (read_ready, end) e,
        (λ z. payload_end r bytes ready same e z),
        λ n l. payload_commit r n bytes ready same e l,
      )
]
