-- ===== src/HttpServer/Stream.antt =====
-- lib_http/http_server.cpp: the bytes of a response on their way through packets to the network.
use sensor_libs.Prelude.{
  ℕ, suc, ◌≡◌, ◌≢◌, ◌⊎◌, inl, inr, refl, sym, ap, ◌∙◌, subst, Option, none, some, List, [], ◌++◌,
  arith, ltb, Bool-cases, Option-cases, true, false, nil_of_length,
}
use sensor_libs.HttpPayload.{HttpResult, complete, incomplete}
use sensor_libs.HttpResponse.{HttpResponse, get_read_ptr, with_header}
use sensor_libs.HttpResponse.Commit.{IsReady, unread}
use sensor_libs.HttpResponse.Stream.{
  IsResponse, unsent-with_header, unsent, unsent-ready, with_header-cases,
}
use sensor_libs.HttpServer.{
  SendResult, success, timeout, would_block, failed, Network, fill, Written, send_packet,
  write_http_response_to_socket,
}
use sensor_libs.HttpServer.Fill.{packet_bytes, ltb_self, Fills, fill_lem}

module _ (to_string : ℕ → List ℕ) where
  -- What a write of a response does, if no send fails for good.
  pub record Writes (r : HttpResponse) (w : Written) : Type 0 where
    pub valid : IsResponse w.response
    pub order :
        w.wire ++ (packet_bytes w.dangling ++ unsent to_string w.response) ≡ unsent to_string r
    pub outcome :
        (w.result ≡ incomplete)
        ⊎ ((w.result ≡ complete) × (w.dangling ≡ none) × (unsent to_string w.response ≡ []))

  ready-IsResponse : (r : HttpResponse) → IsReady r → IsResponse r
  ready-IsResponse r ready = record {
    header_part = ready.within_header;
    payload_part = ready.within_payload;
  }

  module _ (r r0 : HttpResponse) (size : ℕ)
      (f : Fills to_string (suc size) r r0 size [] incomplete) where
    after-unsent : unsent to_string f.after ≡ unread f.after
    after-unsent = unsent-ready to_string f.after f.ready

    sent_all :
        unsent to_string r ≡ unread r0 → f.added ++ unsent to_string f.after ≡ unsent to_string r
    sent_all e = ap (λ xs. f.added ++ xs) after-unsent ∙ f.order ∙ sym e

    -- The result of the loop, with nothing dangling.
    result_lem :
        (f.result ≡ incomplete)
        ⊎ ((f.result ≡ complete)
            × (◌≡◌ {A = Option (List ℕ)} none none)
            × (unsent to_string f.after ≡ []))
    result_lem = elim f.known [ inl e ↦ inr (e, refl, after-unsent ∙ f.ends e) | inr e ↦ inl e ]

    send_packet_lem :
        (send_result : SendResult)
        → send_result ≢ failed
        → unsent to_string r ≡ unread r0
        → ltb f.left size ≡ true
        → Writes r (send_packet send_result size (f.added, (f.left, (f.result, f.after))))
    unfolding send_packet
    send_packet_lem success ok e more =
        rw (send_packet, more)
          (record {
            valid = ready-IsResponse f.after f.ready;
            order = sent_all e;
            outcome = result_lem;
          })
    send_packet_lem timeout ok e more =
        rw (send_packet, more)
          (record {
            valid = ready-IsResponse f.after f.ready;
            order = sent_all e;
            outcome = inl refl;
          })
    send_packet_lem would_block ok e more =
        rw (send_packet, more)
          (record {
            valid = ready-IsResponse f.after f.ready;
            order = sent_all e;
            outcome = inl refl;
          })
    send_packet_lem failed ok e more = absurd (ok refl)

    no_packet_lem :
        (send_result : SendResult)
        → unsent to_string r ≡ unread r0
        → ltb f.left size ≡ false
        → Writes r (send_packet send_result size (f.added, (f.left, (f.result, f.after))))
    unfolding send_packet
    no_packet_lem send_result e none_left =
        let nothing : f.added ≡ [] = nil_of_length f.added (ground (arith, none_left, f.size)) in
        rw (send_packet, none_left)
          (record {
            valid = ready-IsResponse f.after f.ready;
            order = ap (λ xs. xs ++ unsent to_string f.after) (sym nothing) ∙ sent_all e;
            outcome = result_lem;
          })

  fill-none :
      (fuel : ℕ) (r : HttpResponse) (room : ℕ) (packet : List ℕ) (res : HttpResult)
      → with_header to_string r ≡ none
      → fill to_string (suc fuel) r room packet res ≡ (packet, (room, (res, r)))
  unfolding fill get_read_ptr
  fill-none fuel r room packet res e = rw (fill, get_read_ptr, e) refl

  nothing_written :
      (r : HttpResponse)
      → IsResponse r
      → Writes r (record { result = incomplete; response = r; dangling = none; wire = [] })
  nothing_written r v = record { valid = v; order = refl; outcome = inl refl }

  send_nothing :
      (send_result : SendResult) (size : ℕ) (r : HttpResponse)
      → IsResponse r
      → Writes r (send_packet send_result size ([], (size, (incomplete, r))))
  unfolding send_packet
  send_nothing send_result size r v = rw (send_packet, ltb_self size) (nothing_written r v)

  pub write_from :
      (net : Network) (r : HttpResponse) (size : ℕ)
      (filled : List ℕ × (ℕ × (HttpResult × HttpResponse)))
      → net.packet_size ≡ some size
      → fill to_string (suc size) r size [] incomplete ≡ filled
      → Writes r (send_packet net.send_result size filled)
      → Writes r (write_http_response_to_socket to_string net r)
  unfolding write_http_response_to_socket
  write_from net r size filled e f w =
      rw (write_http_response_to_socket, e)
        (subst (λ x. Writes r (send_packet net.send_result size x)) (sym f) w)

  packet_lem :
      (net : Network) (r r0 : HttpResponse) (size : ℕ)
      → net.packet_size ≡ some size
      → net.send_result ≢ failed
      → with_header to_string r ≡ some r0
      → Fills to_string (suc size) r r0 size [] incomplete
      → Writes r (write_http_response_to_socket to_string net r)
  packet_lem net r r0 size e ok h f =
      let start = unsent-with_header to_string r r0 h in
      elim (Bool-cases (ltb f.left size)) [
        | inl more ↦
            write_from net r size (f.added, (f.left, (f.result, f.after))) e f.returns
              (send_packet_lem r r0 size f net.send_result ok start more)
        | inr stop ↦
            write_from net r size (f.added, (f.left, (f.result, f.after))) e f.returns
              (no_packet_lem r r0 size f net.send_result start stop)
      ]

  pub write_lem :
      (net : Network) (r : HttpResponse)
      → IsResponse r
      → net.send_result ≢ failed
      → Writes r (write_http_response_to_socket to_string net r)
  unfolding write_http_response_to_socket
  write_lem net r v ok = elim (Option-cases net.packet_size) [
    | inl e ↦ rw (write_http_response_to_socket, e) (nothing_written r v)
    | inr (size, e) ↦ elim (with_header-cases to_string r v) [
      | inl n ↦
          write_from net r size ([], (size, (incomplete, r))) e
            (fill-none size r size [] incomplete n) (send_nothing net.send_result size r v)
      | inr (r0, h, ready) ↦ packet_lem net r r0 size e ok h (
          fill_lem to_string (suc size) r r0 size [] incomplete (omega arith) h ready
            (λ z. absurd cc) (inr refl))
    ]
  ]
