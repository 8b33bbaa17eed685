-- ===== src/HttpServer/Requests.antt =====
-- lib_http/http_server.cpp: one pass of the handler thread over a connection, requests included. The
-- parser, the handlers and what the socket has received are arguments.
use sensor_libs.Prelude.{
  ℕ, ◌≡◌, ◌⊎◌, inl, inr, refl, sym, ◌∙◌, subst, Bool, Option, none, some, List, [], ◌∷◌,
  Option-cases, arith,
}
use sensor_libs.HttpPayload.{HttpResult, complete, incomplete, error, timedout, undefined}
use sensor_libs.HttpRequest.{HttpRequest, new_http_request, Callback, UrlParts, read_from}
use sensor_libs.HttpRequest.Routes.{MethodPath, find_http_handler}
use sensor_libs.HttpResponse.{HttpResponse, new_http_response, set_status_code}
use sensor_libs.HttpServer.Passes.{over_step}
use sensor_libs.HttpServer.{
  Network, TcpConnection, send_dangling_packet, finish_response, write_step,
}

-- What is outside: the parser with its state, the URL parser, the handlers and `sprintf`.
pub record Outside (P : Type 0) : Type 0 where
  pub new_parser : P
  pub execute : P → List ℕ → P × (List Callback × ℕ)
  pub method : P → ℕ
  pub parse_url : List ℕ → UrlParts
  pub to_string : ℕ → List ℕ
  pub routes : List (MethodPath × (HttpRequest → HttpResponse → HttpResponse))

module _ {P : Type 0} (outside : Outside P) where
  -- The fragments are those that the socket has, in their order; reading ends with the request.
  unfoldable pub read_http_request_from_socket :
      HttpResult → P → HttpRequest → List (List ℕ) → Option (HttpResult × (P × HttpRequest))
  unfolding read_from
  read_http_request_from_socket res parser req [] = some (res, (parser, req))
  read_http_request_from_socket res parser req (fragment ∷ fragments) =
      elim (read_from outside.parse_url outside.execute parser req fragment) [
        | none ↦ none
        | some (res', (parser', req')) ↦ elim res' [
          | incomplete ↦ read_http_request_from_socket incomplete parser' req' fragments
          | other ↦ some (other, (parser', req'))
        ]
      ]

  -- The response to a complete request.
  unfoldable pub answer : P → HttpRequest → Bool → HttpResponse
  unfolding find_http_handler new_http_response
  answer parser req is_tls =
      elim (find_http_handler outside.routes (outside.method parser) req.path is_tls) [
        | none ↦ set_status_code (new_http_response outside.to_string) 404
        | some handler ↦ handler req (new_http_response outside.to_string)
      ]

  unfoldable pub finish_request : TcpConnection P → HttpResult × (P × HttpRequest) → TcpConnection P
  unfolding answer
  finish_request tc (res, (parser, req)) = elim res [
    | complete ↦ record tc { request = none; response = some (answer parser req tc.is_tls) }
    | error ↦ record tc {
      request = none;
      response = some (set_status_code (new_http_response outside.to_string) 400);
    }
    | other ↦ record tc { request = some (parser, req) }
  ]

  -- A connection with neither a request nor a response begins a request.
  unfoldable pub start_request : TcpConnection P → TcpConnection P
  start_request tc = elim tc.request [
    | some req ↦ tc
    | none ↦ elim tc.response [
      | some r ↦ tc
      | none ↦ record tc {
        request = some (outside.new_parser, record new_http_request { remote_ip = tc.ip_address });
      }
    ]
  ]

  -- The part of the pass that reads.
  unfoldable pub read_step : List (List ℕ) → TcpConnection P → Option (TcpConnection P)
  unfolding start_request read_http_request_from_socket finish_request
  read_step fragments tc =
      let tc' = start_request tc in
      elim tc'.request [
        | none ↦ some tc'
        | some (parser, req) ↦ elim (read_http_request_from_socket undefined parser req fragments) [
          | none ↦ none
          | some read ↦ some (finish_request tc' read)
        ]
      ]

  unfoldable pub pass :
      List (List ℕ) → Network → TcpConnection P → Option (List ℕ × TcpConnection P)
  unfolding read_step write_step
  pass fragments net tc = elim (read_step fragments tc) [
    | none ↦ none
    | some tc' ↦ some (write_step outside.to_string net tc')
  ]

  -- A connection has no request while it has a response.
  pub data IsExclusive : TcpConnection P → Type 0 where
    no_request : (tc : TcpConnection P) → tc.request ≡ none → IsExclusive tc
    no_response : (tc : TcpConnection P) → tc.response ≡ none → IsExclusive tc

  finish_request-IsExclusive :
      (tc : TcpConnection P) (res : HttpResult) (parser : P) (req : HttpRequest)
      → tc.response ≡ none
      → IsExclusive (finish_request tc (res, (parser, req)))
  unfolding finish_request
  finish_request-IsExclusive tc complete parser req e = no_request _ refl
  finish_request-IsExclusive tc error parser req e = no_request _ refl
  finish_request-IsExclusive tc incomplete parser req e = no_response _ e
  finish_request-IsExclusive tc timedout parser req e = no_response _ e
  finish_request-IsExclusive tc undefined parser req e = no_response _ e

  -- A connection that begins a request has no response.
  start_cases :
      (tc : TcpConnection P)
      → IsExclusive tc
      → ((start_request tc).request ≡ none) ⊎ ((start_request tc).response ≡ none)
  unfolding start_request
  start_cases tc h = elim (Option-cases tc.request) [
    | inl q ↦ elim (Option-cases tc.response) [
      | inl e ↦ inr (simp (start_request, q, e))
      | inr (r, e) ↦ inl (simp (start_request, q, e))
    ]
    | inr (req, q) ↦ inr (simp (start_request, q, response_none tc req h q))
  ]
    where
      response_none :
          (t : TcpConnection P) (req : P × HttpRequest)
          → IsExclusive t
          → t.request ≡ some req
          → t.response ≡ none
      response_none t req (no_request s e) q = absurd (cc)
      response_none t req (no_response s e) q = e

  -- The pass stops only in the callbacks of the parser.
  read_step_lem :
      (fragments : List (List ℕ)) (tc : TcpConnection P)
      → IsExclusive tc
      → (read_step fragments tc ≡ none)
        ⊎ ((tc' : TcpConnection P) × (read_step fragments tc ≡ some tc') × IsExclusive tc')
  unfolding read_step
  read_step_lem fragments tc h = elim (Option-cases (start_request tc).request) [
    | inl q ↦ inr (start_request tc, simp (read_step, q), no_request (start_request tc) q)
    | inr ((parser, req), q) ↦
        elim (Option-cases (read_http_request_from_socket undefined parser req fragments)) [
          | inl f ↦ inl (simp (read_step, q, f))
          | inr ((res, (parser', req')), f) ↦ inr (
            finish_request (start_request tc) (res, (parser', req')),
            simp (read_step, q, f),
            finish_request-IsExclusive (start_request tc) res parser' req'
                (free tc (parser, req) (start_cases tc h) q),
          )
        ]
  ]
    where
      free :
          (t : TcpConnection P) (req : P × HttpRequest)
          → ((start_request t).request ≡ none) ⊎ ((start_request t).response ≡ none)
          → (start_request t).request ≡ some req
          → (start_request t).response ≡ none
      free t req (inl e) q = absurd (cc)
      free t req (inr e) q = e

  request_kept :
      (net : Network) (tc : TcpConnection P)
      → (write_step outside.to_string net tc).1.request ≡ tc.request
  unfolding write_step send_dangling_packet finish_response
  request_kept net tc = ground arith

  write_step-IsExclusive :
      (net : Network) (tc : TcpConnection P)
      → IsExclusive tc
      → IsExclusive (write_step outside.to_string net tc).1
  write_step-IsExclusive net tc (no_request t e) =
      no_request (write_step outside.to_string net tc).1 (request_kept net tc ∙ e)
  write_step-IsExclusive net tc (no_response t e) =
      subst (λ (x : List ℕ × TcpConnection P). IsExclusive x.1)
        (sym (over_step outside.to_string net tc e)) (no_response tc e)

  -- A pass over a connection that has no request or no response leaves one that has no request or no
  -- response, whatever the socket has received and the network does, unless the parser reports a
  -- header's value before any header's name.
  pub pass-IsExclusive :
      (fragments : List (List ℕ)) (net : Network) (tc : TcpConnection P)
      → IsExclusive tc
      → (pass fragments net tc ≡ none)
        ⊎ ((wire : List ℕ) × (tc' : TcpConnection P) × (pass fragments net tc ≡ some (wire, tc'))
            × IsExclusive tc')
  unfolding pass
  pass-IsExclusive fragments net tc h = elim (read_step_lem fragments tc h) [
    | inl e ↦ inl (rw (pass, e) refl)
    | inr (tc1, e, h1) ↦ inr (
      (write_step outside.to_string net tc1).0,
      (write_step outside.to_string net tc1).1,
      rw (pass, e) refl,
      write_step-IsExclusive net tc1 h1,
    )
  ]
