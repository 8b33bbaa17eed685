-- ===== src/HttpServer/Passes.antt =====
-- lib_http/http_server.cpp: a response over many passes of the handler thread.
use sensor_libs.Prelude.{
  ℕ, ◌≡◌, ◌≢◌, inl, inr, refl, sym, ap, ap₂, ◌∙◌, subst, Option, none, some, List, [], ◌∷◌, ◌++◌,
  append_assoc, Bool-cases, Option-cases, true, false,
}
use sensor_libs.HttpResponse.{HttpResponse}
use sensor_libs.HttpResponse.Stream.{IsResponse, unsent}
use sensor_libs.HttpServer.{
  failed, Network, TcpConnection, Written, write_http_response_to_socket, send_dangling_packet,
  finish_response, write_step, write_steps,
}
use sensor_libs.HttpServer.Fill.{packet_bytes}
use sensor_libs.HttpServer.Stream.{Writes, write_lem}

-- No send fails for good.
pub data NoFailure : List Network → Type 0 where
  empty : NoFailure []
  more :
      (net : Network) (nets : List Network)
      → net.send_result ≢ failed
      → NoFailure nets
      → NoFailure (net ∷ nets)

abbrev pub response_bytes : (ℕ → List ℕ) → Option HttpResponse → List ℕ
response_bytes to_string none = []
response_bytes to_string (some r) = unsent to_string r

module _ {P : Type 0} where
  -- A connection whose response is being written, or is over with no packet left.
  pub data IsWriting : TcpConnection P → Type 0 where
    writing :
        (tc : TcpConnection P) (r : HttpResponse)
        → tc.response ≡ some r
        → IsResponse r
        → IsWriting tc
    over :
        (tc : TcpConnection P) → tc.response ≡ none → tc.tcp_dangling_packet ≡ none → IsWriting tc

module _ {P : Type 0} (to_string : ℕ → List ℕ) where
  -- The bytes that the connection still has to send: its dangling packet, and its response's.
  abbrev pub pending : TcpConnection P → List ℕ
  pending tc = packet_bytes tc.tcp_dangling_packet ++ response_bytes to_string tc.response

  -- A connection after some passes, with the bytes sent.
  pub record Sent (tc : TcpConnection P) (wire : List ℕ) (tc' : TcpConnection P) : Type 0 where
    pub order : wire ++ pending tc' ≡ pending tc
    pub still : IsWriting tc'

  finish_lem :
      (tc : TcpConnection P) (r : HttpResponse) (w : Written)
      → Writes to_string r w
      → (w.wire ++ pending (finish_response tc w) ≡ unsent to_string r)
        × IsWriting (finish_response tc w)
  unfolding finish_response
  finish_lem tc r w writes = elim writes.outcome [
    | inl e ↦
        rw (finish_response, e)
          (
            writes.order,
            writing (record tc { response = some w.response; tcp_dangling_packet = w.dangling })
                w.response refl writes.valid,
          )
    | inr (e, d, none_left) ↦
        rw (finish_response, e)
          (
            ap (λ xs. w.wire ++ (packet_bytes w.dangling ++ xs)) (sym none_left) ∙ writes.order,
            over (record tc { response = none; active = false; tcp_dangling_packet = w.dangling })
                refl d,
          )
  ]

  module _ (net : Network) (tc : TcpConnection P) (r : HttpResponse)
      (e : tc.response ≡ some r) where
    abbrev pub w : Written
    w = write_http_response_to_socket to_string net r

    pub no_dangling :
        tc.tcp_dangling_packet ≡ none → write_step to_string net tc ≡ (w.wire, finish_response tc w)
    unfolding write_step send_dangling_packet
    no_dangling d = simp (write_step, send_dangling_packet, e, d)

    pub took_dangling :
        (packet : List ℕ)
        → tc.tcp_dangling_packet ≡ some packet
        → net.takes_dangling ≡ true
        → write_step to_string net tc
          ≡ (packet ++ w.wire, finish_response (record tc { tcp_dangling_packet = none }) w)
    unfolding write_step send_dangling_packet
    took_dangling packet d t = simp (write_step, send_dangling_packet, e, d, t)

    pub kept_dangling :
        (packet : List ℕ)
        → tc.tcp_dangling_packet ≡ some packet
        → net.takes_dangling ≡ false
        → write_step to_string net tc ≡ ([], tc)
    unfolding write_step send_dangling_packet
    kept_dangling packet d t = simp (write_step, send_dangling_packet, e, d, t)

  pub over_step :
      (net : Network) (tc : TcpConnection P)
      → tc.response ≡ none
      → write_step to_string net tc ≡ ([], tc)
  unfolding write_step
  over_step net tc e = simp (write_step, e)

  pending_is :
      (tc : TcpConnection P) (r : HttpResponse) (dangling : Option (List ℕ))
      → tc.tcp_dangling_packet ≡ dangling
      → tc.response ≡ some r
      → pending tc ≡ packet_bytes dangling ++ unsent to_string r
  pending_is tc r dangling d e = ap₂ (λ x y. packet_bytes x ++ response_bytes to_string y) d e

  Sent-step :
      (net : Network) (tc tc' : TcpConnection P) (wire : List ℕ)
      → write_step to_string net tc ≡ (wire, tc')
      → Sent tc wire tc'
      → Sent tc (write_step to_string net tc).0 (write_step to_string net tc).1
  Sent-step net tc tc' wire e s =
      subst (λ (x : List ℕ × TcpConnection P). Sent tc x.0 x.1) (sym e) s

  pub step_lem :
      (net : Network) (tc : TcpConnection P)
      → IsWriting tc
      → net.send_result ≢ failed
      → Sent tc (write_step to_string net tc).0 (write_step to_string net tc).1
  step_lem net tc (over t e d) ok =
      Sent-step net tc tc [] (over_step net tc e) (record { order = refl; still = over tc e d })
  step_lem net tc (writing t r e v) ok =
      let written = write_lem to_string net r v ok in
      let w' : Written = write_http_response_to_socket to_string net r in
      elim (Option-cases tc.tcp_dangling_packet) [
        | inl d ↦
            let (order, still) = finish_lem tc r w' written in
            Sent-step net tc (finish_response tc w') w'.wire (no_dangling net tc r e d)
              (record { order = order ∙ sym (pending_is tc r none d e); still = still })
        | inr (packet, d) ↦ elim (Bool-cases net.takes_dangling) [
          | inl t ↦
              let tc' : TcpConnection P = record tc { tcp_dangling_packet = none } in
              let (order, still) = finish_lem tc' r w' written in
              Sent-step net tc (finish_response tc' w') (packet ++ w'.wire)
                (took_dangling net tc r e packet d t)
                (record {
                  order =
                      append_assoc packet w'.wire (pending (finish_response tc' w'))
                      ∙ ap (λ xs. packet ++ xs) order
                      ∙ sym (pending_is tc r (some packet) d e);
                  still = still;
                })
          | inr t ↦
              Sent-step net tc tc [] (kept_dangling net tc r e packet d t)
                (record { order = refl; still = writing tc r e v })
        ]
      ]

  -- In any passes in which no send fails for good, from a connection whose response is being written:
  -- the bytes sent, and then those still to be sent, are those to be sent at first, whether the network
  -- takes packets or not; and once the response is over, no byte is left to be sent.
  pub write_steps_lem :
      (nets : List Network) (tc : TcpConnection P)
      → IsWriting tc
      → NoFailure nets
      → Sent tc (write_steps to_string nets tc).0 (write_steps to_string nets tc).1
  unfolding write_steps
  write_steps_lem [] tc h n = record { order = refl; still = h }
  write_steps_lem (net ∷ nets) tc h (more a rest_nets ok n) =
      let s = step_lem net tc h ok in
      let tc' : TcpConnection P = (write_step to_string net tc).1 in
      let rest = write_steps_lem nets tc' s.still n in
      record {
        order =
            append_assoc (write_step to_string net tc).0 (write_steps to_string nets tc').0
              (pending (write_steps to_string nets tc').1)
            ∙ ap (λ xs. (write_step to_string net tc).0 ++ xs) rest.order
            ∙ s.order;
        still = rest.still;
      }
