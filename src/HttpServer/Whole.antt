-- ===== src/HttpServer/Whole.antt =====
-- lib_http/http_server.cpp: a network that takes the packets gets the whole response.
use sensor_libs.Prelude.{
  ℕ, suc, ◌<◌, ◌≤◌, ◌≡◌, ◌≢◌, ◌⊎◌, inl, inr, refl, sym, ap, ap₂, ◌∙◌, subst, none, some, List, [],
  ◌∷◌, ◌++◌, length, length-append, arith, nil_of_length, ltb, Bool-cases, Option-cases, true,
  false,
}
use sensor_libs.HttpPayload.{HttpResult, incomplete}
use sensor_libs.HttpResponse.{HttpResponse, with_header}
use sensor_libs.HttpResponse.Commit.{IsReady, unread}
use sensor_libs.HttpResponse.Stream.{IsResponse, unsent, unsent-ready, with_header-ready}
use sensor_libs.HttpServer.{
  success, failed, Network, TcpConnection, fill, Written, send_packet,
  write_http_response_to_socket, finish_response, write_step, write_steps,
}
use sensor_libs.HttpServer.Fill.{packet_bytes, Fills, fill_lem}
use sensor_libs.HttpServer.Stream.{Writes, write_lem}
use sensor_libs.HttpServer.Passes.{
  IsWriting, writing, over, pending, step_lem, no_dangling, took_dangling, over_step,
  response_bytes,
}

-- A network that takes a dangling packet, has one for at least a byte, and sends it.
pub record IsTaking (net : Network) : Type 0 where
  pub size : ℕ
  pub takes : net.takes_dangling ≡ true
  pub packet : net.packet_size ≡ some size
  pub some_room : 0 < size
  pub sends : net.send_result ≡ success

pub data AllTaking : List Network → Type 0 where
  empty : AllTaking []
  more :
      (net : Network) (nets : List Network) → IsTaking net → AllTaking nets → AllTaking (net ∷ nets)

success_is_not_failed : ¬ (success ≡ failed)
success_is_not_failed z = cc

taking_ok : (net : Network) → IsTaking net → net.send_result ≢ failed
taking_ok net t z = success_is_not_failed (sym t.sends ∙ z)

sent_too : (packet wire : List ℕ) → 0 < length wire → 0 < length (packet ++ wire)
sent_too packet wire l = omega (arith, l, length-append packet wire)

module _ (to_string : ℕ → List ℕ) where
  -- What such a write does.
  record Progress (w : Written) : Type 0 where
    ready : IsReady w.response
    sent : w.dangling ≡ none
    moved : (0 < length w.wire) ⊎ (unsent to_string w.response ≡ [])

  success-Progress :
      (size : ℕ) (r r0 : HttpResponse)
      → 0 < size
      → (f : Fills to_string (suc size) r r0 size [] incomplete)
      → Progress (send_packet success size (f.added, (f.left, (f.result, f.after))))
  unfolding send_packet
  success-Progress size r r0 some_room f = elim (Bool-cases (ltb f.left size)) [
    | inl e ↦
        rw (send_packet, e)
          (record { ready = f.ready; sent = refl; moved = inl (ground (arith, e, f.size)) })
    | inr e ↦
        let at_end : unread f.after ≡ [] = elim f.full [
          | inl z ↦ absurd (ground (arith, e, z, some_room))
          | inr z ↦ z
        ] in
        rw (send_packet, e)
          (record {
            ready = f.ready;
            sent = refl;
            moved = inr (unsent-ready to_string f.after f.ready ∙ at_end);
          })
  ]

  Progress-from :
      (net : Network) (r : HttpResponse) (size : ℕ)
      (filled : List ℕ × (ℕ × (HttpResult × HttpResponse)))
      → net.packet_size ≡ some size
      → net.send_result ≡ success
      → fill to_string (suc size) r size [] incomplete ≡ filled
      → Progress (send_packet success size filled)
      → Progress (write_http_response_to_socket to_string net r)
  unfolding write_http_response_to_socket
  Progress-from net r size filled e s f p =
      rw (write_http_response_to_socket, e)
        (subst (λ x. Progress (send_packet net.send_result size x)) (sym f)
          (subst (λ x. Progress (send_packet x size filled)) (sym s) p))

  write-Progress :
      (net : Network) (r r0 : HttpResponse)
      → IsTaking net
      → with_header to_string r ≡ some r0
      → IsReady r0
      → Progress (write_http_response_to_socket to_string net r)
  write-Progress net r r0 t h ready =
      let f =
        fill_lem to_string (suc t.size) r r0 t.size [] incomplete (omega arith) h ready
          (λ z. absurd cc) (inr refl) in
      Progress-from net r t.size (f.added, (f.left, (f.result, f.after))) t.packet t.sends f.returns
        (success-Progress t.size r r0 t.some_room f)

module _ {P : Type 0} (to_string : ℕ → List ℕ) where
  -- A connection whose response has a header, or can be given one, or is over.
  pub data IsSending : TcpConnection P → Type 0 where
    sending :
        (tc : TcpConnection P) (r r0 : HttpResponse)
        → tc.response ≡ some r
        → IsResponse r
        → with_header to_string r ≡ some r0
        → IsReady r0
        → IsSending tc
    sent_all :
        (tc : TcpConnection P) → tc.response ≡ none → tc.tcp_dangling_packet ≡ none → IsSending tc

  IsSending-IsWriting : (tc : TcpConnection P) → IsSending tc → IsWriting tc
  IsSending-IsWriting tc (sending t r r0 e v h ready) = writing tc r e v
  IsSending-IsWriting tc (sent_all t e d) = over tc e d

  finish-Progress :
      (tc : TcpConnection P) (r : HttpResponse) (w : Written)
      → Writes to_string r w
      → Progress to_string w
      → IsSending (finish_response tc w)
        × ((0 < length w.wire) ⊎ (pending to_string (finish_response tc w) ≡ []))
  unfolding finish_response
  finish-Progress tc r w writes p = elim writes.outcome [
    | inl e ↦
        rw (finish_response, e)
          (
            sending (record tc { response = some w.response; tcp_dangling_packet = w.dangling })
                w.response w.response refl writes.valid
                (with_header-ready to_string w.response p.ready) p.ready,
            elim p.moved [
              | inl l ↦ inl l
              | inr z ↦ inr (ap₂ (λ x y. packet_bytes x ++ y) p.sent z)
            ],
          )
    | inr (e, d, none_left) ↦
        rw (finish_response, e)
          (
            sent_all
                (record tc { response = none; active = false; tcp_dangling_packet = w.dangling })
                refl d,
            inr (ap (λ x. packet_bytes x ++ []) d),
          )
  ]

  -- Bytes were sent, or none is left.
  abbrev Moved : List ℕ × TcpConnection P → Type 0
  Moved (wire, tc) = IsSending tc × ((0 < length wire) ⊎ (pending to_string tc ≡ []))

  step-Moved :
      (net : Network) (tc : TcpConnection P)
      → IsTaking net
      → IsSending tc
      → Moved (write_step to_string net tc)
  step-Moved net tc t (sent_all s e d) =
      subst Moved (sym (over_step to_string net tc e))
        (sent_all tc e d, inr (ap₂ (λ x y. packet_bytes x ++ response_bytes to_string y) d e))
  step-Moved net tc t (sending s r r0 e v h ready) =
      let w' : Written = write_http_response_to_socket to_string net r in
      let p = write-Progress to_string net r r0 t h ready in
      let writes = write_lem to_string net r v (taking_ok net t) in
      elim (Option-cases tc.tcp_dangling_packet) [
        | inl d ↦
            subst Moved (sym (no_dangling to_string net tc r e d))
              (finish-Progress tc r w' writes p)
        | inr (packet, d) ↦
            let (still, moved) =
              finish-Progress (record tc { tcp_dangling_packet = none }) r w' writes p in
            subst Moved (sym (took_dangling to_string net tc r e packet d t.takes))
              (still, elim moved [ inl l ↦ inl (sent_too packet w'.wire l) | inr z ↦ inr z ])
      ]

  shorter :
      (net : Network) (tc : TcpConnection P) (n : ℕ)
      → IsTaking net
      → IsSending tc
      → length (pending to_string tc) ≤ suc n
      → length (pending to_string (write_step to_string net tc).1) ≤ n
  shorter net tc n t h l =
      let wire : List ℕ = (write_step to_string net tc).0 in
      let tc' : TcpConnection P = (write_step to_string net tc).1 in
      let s = step_lem to_string net tc (IsSending-IsWriting tc h) (taking_ok net t) in
      let (still, moved) = step-Moved net tc t h in
      elim moved [
        | inl some_sent ↦
            omega
              (arith, l, some_sent, ap length s.order, length-append wire (pending to_string tc'))
        | inr z ↦ omega (arith, ap length z)
      ]

  -- Where the network takes a packet of at least a byte in each pass, and there are as many passes as
  -- bytes to be sent, a connection whose response has a header, or can be given one, sends exactly those
  -- bytes, and none is left.
  pub write_steps_all :
      (nets : List Network) (tc : TcpConnection P)
      → IsSending tc
      → AllTaking nets
      → length (pending to_string tc) ≤ length nets
      → ((write_steps to_string nets tc).0 ≡ pending to_string tc)
        × (pending to_string (write_steps to_string nets tc).1 ≡ [])
  unfolding write_steps
  write_steps_all [] tc h a l =
      let none_left = nil_of_length (pending to_string tc) (omega (arith, l)) in
      (sym none_left, none_left)
  write_steps_all (net ∷ nets) tc h (more a rest_nets t n) l =
      let tc' : TcpConnection P = (write_step to_string net tc).1 in
      let s = step_lem to_string net tc (IsSending-IsWriting tc h) (taking_ok net t) in
      let (e, none_left) =
        write_steps_all nets tc' (step-Moved net tc t h).0 n (shorter net tc (length nets) t h l) in
      (ap (λ xs. (write_step to_string net tc).0 ++ xs) e ∙ s.order, none_left)
