-- ===== src/HttpServer/Empty.antt =====
-- lib_http/http_server.cpp: a response with the empty payload, as for an unknown path.
use sensor_libs.Prelude.{
  ℕ, zero, suc, ◌-◌, ◌≡◌, ◌≢◌, ◌⊎◌, inl, inr, refl, sym, ap, ◌∙◌, subst, Option, none, some, List,
  [], ◌∷◌, ◌++◌, length, take, min, arith, ltb, ◌==◌, ◌&&◌, Bool-cases, Option-cases, true, false,
}
use sensor_libs.HttpPayload.{HttpResult, complete, incomplete, error, Payload, empty_payload}
use sensor_libs.HttpPayload
use sensor_libs.HttpResponse.{
  HttpResponse, get_read_ptr, with_header, read_ready, commit_read, build_header_string,
}
use sensor_libs.HttpResponse.Commit.{List-cases}
use sensor_libs.HttpServer.{
  SendResult, success, timeout, would_block, failed, Network, TcpConnection, fill, Written,
  send_packet, write_http_response_to_socket, finish_response, write_step, write_steps,
}
use sensor_libs.HttpServer.Fill.{fill_more, fill_stop}
use sensor_libs.HttpServer.Passes.{NoFailure, more, no_dangling, took_dangling, kept_dangling}

-- The response that a loop leaves still has the empty payload, and no commit was the last.
abbrev IsUnfinished : HttpResult × HttpResponse → Type 0
IsUnfinished (res, r) = (res ≡ incomplete) × (r.payload ≡ empty_payload)

-- At the end of the header an empty payload gives no bytes; before, no commit is the last.
read_cases :
    (r : HttpResponse) (bytes : List ℕ)
    → r.payload ≡ empty_payload
    → read_ready r ≡ some bytes
    → (bytes ≡ []) ⊎ ((n : ℕ) → IsUnfinished (commit_read r n))
unfolding read_ready commit_read HttpPayload.get_read_ptr
read_cases r bytes p e = elim (Bool-cases (ltb r.header_pos (length r.header))) [
  | inl before ↦ inr (λ n.
      let other : (r.header_pos == length r.header) ≡ false = ground (arith, before) in
      rw (commit_read, other) (refl, p))
  | inr after ↦
      let nothing : ◌≡◌ {A = Option (List ℕ)} (some []) (some bytes) =
        sym (rw (read_ready, after, p) refl) ∙ e in
      inl (cc)
]

module _ (to_string : ℕ → List ℕ) where
  with_header-payload :
      (r r' : HttpResponse) → with_header to_string r ≡ some r' → r'.payload ≡ r.payload
  unfolding with_header
  with_header-payload r r' e = elim (List-cases r.header) [
    | inl h ↦ elim (Option-cases (build_header_string to_string r)) [
      | inl b ↦
          let other : ◌≡◌ {A = Option HttpResponse} none (some r') =
            sym (simp (with_header, h, b)) ∙ e in
          absurd cc
      | inr (text, b) ↦
          let same : some (record r { header = text; header_pos = 0 }) ≡ some r' =
            sym (simp (with_header, h, b)) ∙ e in
          ap (λ (o : Option HttpResponse). elim o [ none ↦ r.payload | some x ↦ x.payload ])
            (sym same)
    ]
    | inr (c, cs, h) ↦
        let same : some r ≡ some r' = sym (simp (with_header, h)) ∙ e in
        ap (λ (o : Option HttpResponse). elim o [ none ↦ r.payload | some x ↦ x.payload ])
          (sym same)
  ]

  get_cases :
      (r : HttpResponse)
      → r.payload ≡ empty_payload
      → (get_read_ptr to_string r ≡ none)
        ⊎ ((bytes : List ℕ) × (r' : HttpResponse) × (get_read_ptr to_string r ≡ some (bytes, r'))
            × (r'.payload ≡ empty_payload)
            × ((bytes ≡ []) ⊎ ((n : ℕ) → IsUnfinished (commit_read r' n))))
  unfolding get_read_ptr
  get_cases r p = elim (Option-cases (with_header to_string r)) [
    | inl e ↦ inl (rw (get_read_ptr, e) refl)
    | inr (r', e) ↦
        let p' : r'.payload ≡ empty_payload = with_header-payload r r' e ∙ p in
        elim (Option-cases (read_ready r')) [
          | inl f ↦ inl (rw (get_read_ptr, e, f) refl)
          | inr (bytes, f) ↦
              inr (bytes, r', rw (get_read_ptr, e, f) refl, p', read_cases r' bytes p' f)
        ]
  ]

  abbrev Unfinished : List ℕ × (ℕ × (HttpResult × HttpResponse)) → Type 0
  Unfinished (packet, (room, left)) = IsUnfinished left

  fill-none :
      (fuel : ℕ) (r : HttpResponse) (room : ℕ) (packet : List ℕ)
      → get_read_ptr to_string r ≡ none
      → fill to_string (suc fuel) r room packet incomplete ≡ (packet, (room, (incomplete, r)))
  unfolding fill
  fill-none fuel r room packet e = rw (fill, e) refl

  fill-Unfinished :
      (fuel : ℕ) (r : HttpResponse) (room : ℕ) (packet : List ℕ)
      → r.payload ≡ empty_payload
      → Unfinished (fill to_string fuel r room packet incomplete)
  unfolding fill
  fill-Unfinished zero r room packet p = (refl, p)
  fill-Unfinished (suc fuel) r room packet p = elim (get_cases r p) [
    | inl e ↦ subst Unfinished (sym (fill-none fuel r room packet e)) (refl, p)
    | inr (bytes, r', e, p', inl nothing) ↦
        subst Unfinished
          (sym (
            fill_stop to_string fuel room packet bytes incomplete r r' e
              (ground (arith, ap length nothing))))
          (refl, p')
    | inr (bytes, r', e, p', inr unfinished) ↦
        elim (Bool-cases (ltb 0 (length bytes) && ltb 0 room)) [
          | inl go ↦
              let n = min (length bytes) room in
              let u = unfinished n in
              let step =
                fill_more to_string fuel room n packet bytes incomplete incomplete r r'
                  (commit_read r' n).1 e refl
                  (ap (λ (x : HttpResult). (x, (commit_read r' n).1)) u.0) go in
              subst Unfinished (sym step)
                (fill-Unfinished fuel (commit_read r' n).1 (room - n) (packet ++ take n bytes) u.1)
          | inr stop ↦
              subst Unfinished
                (sym (fill_stop to_string fuel room packet bytes incomplete r r' e stop)) (refl, p')
        ]
  ]

-- What a write returns that is not over, and does not fail for good.
abbrev IsOpen : Written → Type 0
IsOpen w = (w.result ≡ incomplete) × (w.response.payload ≡ empty_payload)

send_packet-IsOpen :
    (send_result : SendResult) (size room : ℕ) (packet : List ℕ) (res : HttpResult)
    (r : HttpResponse)
    → send_result ≢ failed
    → IsUnfinished (res, r)
    → ltb room size ≡ true
    → IsOpen (send_packet send_result size (packet, (room, (res, r))))
unfolding send_packet
send_packet-IsOpen success size room packet res r ok u e = rw (send_packet, e) u
send_packet-IsOpen timeout size room packet res r ok u e = rw (send_packet, e) (refl, u.1)
send_packet-IsOpen would_block size room packet res r ok u e = rw (send_packet, e) (refl, u.1)
send_packet-IsOpen failed size room packet res r ok u e = absurd (ok refl)

filled-IsOpen :
    (send_result : SendResult) (size room : ℕ) (packet : List ℕ) (res : HttpResult)
    (r : HttpResponse)
    → send_result ≢ failed
    → IsUnfinished (res, r)
    → IsOpen (send_packet send_result size (packet, (room, (res, r))))
unfolding send_packet
filled-IsOpen send_result size room packet res r ok u = elim (Bool-cases (ltb room size)) [
  | inl e ↦ send_packet-IsOpen send_result size room packet res r ok u e
  | inr e ↦ rw (send_packet, e) u
]

write-IsOpen :
    (to_string : ℕ → List ℕ) (net : Network) (r : HttpResponse)
    → net.send_result ≢ failed
    → r.payload ≡ empty_payload
    → IsOpen (write_http_response_to_socket to_string net r)
unfolding write_http_response_to_socket
write-IsOpen to_string net r ok p = elim (Option-cases net.packet_size) [
  | inl e ↦ rw (write_http_response_to_socket, e) (refl, p)
  | inr (size, e) ↦
      let (packet, (room, (res, left))) = fill to_string (suc size) r size [] incomplete in
      rw (write_http_response_to_socket, e)
        (filled-IsOpen net.send_result size room packet res left ok
          (fill-Unfinished to_string (suc size) r size [] p))
]

module _ {P : Type 0} where
  -- A connection with a response of the empty payload.
  pub data IsAnsweringEmpty : TcpConnection P → Type 0 where
    answering :
        (tc : TcpConnection P) (r : HttpResponse)
        → tc.response ≡ some r
        → r.payload ≡ empty_payload
        → IsAnsweringEmpty tc

  finish-IsAnsweringEmpty :
      (tc : TcpConnection P) (w : Written) → IsOpen w → IsAnsweringEmpty (finish_response tc w)
  unfolding finish_response
  finish-IsAnsweringEmpty tc w (e, p) =
      rw (finish_response, e)
        (answering (record tc { response = some w.response; tcp_dangling_packet = w.dangling })
          w.response refl p)

module _ {P : Type 0} (to_string : ℕ → List ℕ) where
  step-IsAnsweringEmpty :
      (net : Network) (tc : TcpConnection P)
      → IsAnsweringEmpty tc
      → net.send_result ≢ failed
      → IsAnsweringEmpty (write_step to_string net tc).1
  step-IsAnsweringEmpty net tc (answering t r e p) ok =
      let open_write = write-IsOpen to_string net r ok p in
      let w' : Written = write_http_response_to_socket to_string net r in
      let at : (x : List ℕ × TcpConnection P)
          → write_step to_string net tc ≡ x
          → IsAnsweringEmpty x.1
          → IsAnsweringEmpty (write_step to_string net tc).1 =
        λ x q h. subst (λ (y : List ℕ × TcpConnection P). IsAnsweringEmpty y.1) (sym q) h in
      elim (Option-cases tc.tcp_dangling_packet) [
        | inl d ↦
            at _ (no_dangling to_string net tc r e d) (finish-IsAnsweringEmpty tc w' open_write)
        | inr (packet, d) ↦ elim (Bool-cases net.takes_dangling) [
          | inl t ↦
              at _ (took_dangling to_string net tc r e packet d t)
                (finish-IsAnsweringEmpty (record tc { tcp_dangling_packet = none }) w' open_write)
          | inr t ↦ at _ (kept_dangling to_string net tc r e packet d t) (answering tc r e p)
        ]
      ]

  -- A connection that answers with the empty payload, as an unknown path or a bad request is answered,
  -- still has a response with the empty payload after any passes in which no send fails for good: it
  -- never completes.
  pub write_steps-IsAnsweringEmpty :
      (nets : List Network) (tc : TcpConnection P)
      → IsAnsweringEmpty tc
      → NoFailure nets
      → IsAnsweringEmpty (write_steps to_string nets tc).1
  unfolding write_steps
  write_steps-IsAnsweringEmpty [] tc h n = h
  write_steps-IsAnsweringEmpty (net ∷ nets) tc h (more a rest_nets ok n) =
      write_steps-IsAnsweringEmpty nets (write_step to_string net tc).1
        (step-IsAnsweringEmpty net tc h ok) n
