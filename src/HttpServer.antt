-- ===== src/HttpServer.antt =====
-- lib_http/http_server.h, http_server.cpp: the connections, and one pass of the handler thread over
-- one of them. The network is outside the repository: what it does in a pass is an argument, as are
-- the HTTP parser, the handlers and `sprintf`. What goes to the network is returned as bytes.
use sensor_libs.Prelude.{
  ℕ, zero, suc, ◌+◌, ◌-◌, ◌%◌, ◌^◌, min, Bool, true, false, ◌&&◌, ◌||◌, Option, none, some, List,
  [], ◌∷◌, ◌++◌, length, take, ◌==◌, ltb, if◌then◌else◌,
}
use sensor_libs.HttpPayload.{HttpResult, complete, incomplete, error, timedout, undefined}
use sensor_libs.HttpRequest.{HttpRequest, new_http_request, Callback, UrlParts, read_from}
use sensor_libs.HttpRequest.Routes.{MethodPath, find_http_handler}
use sensor_libs.HttpResponse.{
  HttpResponse, new_http_response, set_status_code, get_read_ptr, commit_read,
}
pub mod Fill
pub mod Stream
pub mod Passes
pub mod Whole
pub mod Requests
pub mod Lifecycle
pub mod Counting
pub mod Empty
mod Tests

pub data SendResult : Type 0 where
  success timeout would_block failed : SendResult

-- What the network does in a pass: whether it takes a dangling packet, the size of a new packet, if
-- one can be had, and the result of sending it.
pub record Network : Type 0 where
  pub takes_dangling : Bool
  pub packet_size : Option ℕ
  pub send_result : SendResult

pub record TcpConnection (P : Type 0) : Type 0 where
  pub tcp_socket : ℕ
  pub ip_address : ℕ
  pub is_tls : Bool
  pub active : Bool
  pub tcp_dangling_packet : Option (List ℕ)
  pub response : Option HttpResponse
  pub request : Option (P × HttpRequest)

-- `client_connected_callback`, `client_data_received_callback` and `client_disconnected_callback`, on
-- `m_connected_sockets` and `m_num_connected_sockets`.
pub record Sockets (P : Type 0) : Type 0 where
  pub connected_sockets : List (TcpConnection P)
  pub num_connected_sockets : ℕ

module _ {P : Type 0} where
  abbrev pub new_connection : (tcp_socket ip_address : ℕ) → Bool → TcpConnection P
  new_connection tcp_socket ip_address is_tls = record {
    tcp_socket = tcp_socket;
    ip_address = ip_address;
    is_tls = is_tls;
    active = false;
    tcp_dangling_packet = none;
    response = none;
    request = none;
  }

  unfoldable pub client_connected : Sockets P → TcpConnection P → Sockets P
  client_connected s tc = record {
    connected_sockets = s.connected_sockets ++ (tc ∷ []);
    num_connected_sockets = (s.num_connected_sockets + 1) % 2 ^ 32;
  }

  unfoldable pub mark_active : List (TcpConnection P) → ℕ → List (TcpConnection P)
  mark_active [] socket = []
  mark_active (tc ∷ tcs) socket =
      if tc.tcp_socket == socket
      then record tc { active = true } ∷ tcs
      else tc ∷ mark_active tcs socket

  unfoldable pub client_data_received : Sockets P → ℕ → Sockets P
  unfolding mark_active
  client_data_received s socket = record s {
    connected_sockets = mark_active s.connected_sockets socket;
  }

  abbrev pub is_connected : List (TcpConnection P) → ℕ → Bool
  is_connected [] socket = false
  is_connected (tc ∷ tcs) socket = (tc.tcp_socket == socket) || is_connected tcs socket

  -- Erases the first connection of the socket.
  unfoldable pub erase : List (TcpConnection P) → ℕ → List (TcpConnection P)
  erase [] socket = []
  erase (tc ∷ tcs) socket = if tc.tcp_socket == socket then tcs else tc ∷ erase tcs socket

  unfoldable pub client_disconnected : Sockets P → ℕ → Sockets P
  unfolding erase
  client_disconnected s socket =
      if is_connected s.connected_sockets socket
      then record {
        connected_sockets = erase s.connected_sockets socket;
        num_connected_sockets = (s.num_connected_sockets + (2 ^ 32 - 1)) % 2 ^ 32;
      }
      else s

-- What `write_http_response_to_socket` returns, leaves and sends.
pub record Written : Type 0 where
  pub result : HttpResult
  pub response : HttpResponse
  pub dangling : Option (List ℕ)
  pub wire : List ℕ

-- A packet that was filled. Its size bounds the rounds of the loop.
unfoldable pub send_packet : SendResult → ℕ → List ℕ × (ℕ × (HttpResult × HttpResponse)) → Written
send_packet send_result size (packet, (room, (res, r))) =
    if ltb room size
    then elim send_result [
      | success ↦ record { result = res; response = r; dangling = none; wire = packet }
      | timeout ↦ record { result = incomplete; response = r; dangling = some packet; wire = [] }
      | would_block ↦ record {
        result = incomplete;
        response = r;
        dangling = some packet;
        wire = [];
      }
      | failed ↦ record { result = error; response = r; dangling = none; wire = [] }
    ]
    else record { result = res; response = r; dangling = none; wire = [] }

module _ {P : Type 0} where
  unfoldable pub send_dangling_packet : Network → TcpConnection P → List ℕ × TcpConnection P
  send_dangling_packet net tc = elim tc.tcp_dangling_packet [
    | none ↦ ([], tc)
    | some packet ↦
        if net.takes_dangling then (packet, record tc { tcp_dangling_packet = none }) else ([], tc)
  ]

  -- A response that is not incomplete is over.
  unfoldable pub finish_response : TcpConnection P → Written → TcpConnection P
  finish_response tc w = elim w.result [
    | incomplete ↦ record tc { response = some w.response; tcp_dangling_packet = w.dangling }
    | other ↦ record tc { response = none; active = false; tcp_dangling_packet = w.dangling }
  ]

module _ (to_string : ℕ → List ℕ) where
  -- The loop that fills a packet: the bytes in it, the room left, the last result and the response.
  unfoldable pub fill :
      ℕ
      → HttpResponse
      → (room : ℕ) → (packet : List ℕ) → HttpResult
      → List ℕ × (ℕ × (HttpResult × HttpResponse))
  unfolding get_read_ptr commit_read
  fill zero r room packet res = (packet, (room, (res, r)))
  fill (suc fuel) r room packet res = elim (get_read_ptr to_string r) [
    | none ↦ (packet, (room, (res, r)))
    | some (bytes, r') ↦
        let n = min (length bytes) room in
        let (res', r'') = commit_read r' n in
        let rest = fill fuel r'' (room - n) (packet ++ take n bytes) res' in
        if ltb 0 (length bytes) && ltb 0 room then rest else (packet, (room, (res, r')))
  ]

  unfoldable pub write_http_response_to_socket : Network → HttpResponse → Written
  unfolding fill send_packet
  write_http_response_to_socket net r = elim net.packet_size [
    | none ↦ record { result = incomplete; response = r; dangling = none; wire = [] }
    | some size ↦ send_packet net.send_result size (fill (suc size) r size [] incomplete)
  ]

  module _ {P : Type 0} where
    -- The part of the pass that writes: the bytes sent, and the connection.
    unfoldable pub write_step : Network → TcpConnection P → List ℕ × TcpConnection P
    unfolding send_dangling_packet write_http_response_to_socket finish_response
    write_step net tc = elim tc.response [
      | none ↦ ([], tc)
      | some r ↦
          let (wire, tc') = send_dangling_packet net tc in
          elim tc'.tcp_dangling_packet [
            | some packet ↦ (wire, tc')
            | none ↦
                let w = write_http_response_to_socket net r in
                (wire ++ w.wire, finish_response tc' w)
          ]
    ]

    -- The passes of the thread, until they are over.
    unfoldable pub write_steps : List Network → TcpConnection P → List ℕ × TcpConnection P
    unfolding write_step
    write_steps [] tc = ([], tc)
    write_steps (net ∷ nets) tc =
        let (wire, tc') = write_step net tc in
        let (more, tc'') = write_steps nets tc' in (wire ++ more, tc'')
