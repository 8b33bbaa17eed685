-- ===== src/HttpServer/Tests.antt =====
-- lib_http/http_server.cpp: a response that goes out in packets of 40 bytes.
use sensor_libs.Prelude.{not, ◌==◌, ◌%◌, ◌^◌, zero, suc, ◌≤◌, ap, replicate}
use sensor_libs.HttpResponse.{build_header_string, with_header}
use sensor_libs.HttpResponse.Commit.{IsReady}
use sensor_libs.HttpResponse.Stream.{unsent-with_header}
use sensor_libs.HttpServer.{Sockets, client_connected, client_disconnected}
use sensor_libs.HttpServer.Counting.{opened, connects, disconnects, count_lem}
use sensor_libs.HttpServer.Lifecycle.{StartOutcome, new_http_server, start}
use sensor_libs.HttpServer.Lifecycle.Resources.{
  all_succeed, is_running, is_released, is_success, start_lem,
}
use sensor_libs.HttpServer.Passes.{pending}
use sensor_libs.HttpServer.Whole.{IsTaking, AllTaking, sending, write_steps_all}
use sensor_libs.Prelude.{ℕ, ◌+◌, ◌≡◌, refl, true, false, none, some, List, [], ◌∷◌, length, arith}
use sensor_libs.HttpPayload.{json, empty_payload}
use sensor_libs.HttpPayload.Delivery.{IsWithin}
use sensor_libs.HttpResponse.{HttpResponse, get_header_fields}
use sensor_libs.HttpResponse.Stream.{IsResponse}
use sensor_libs.HttpServer.{
  success, would_block, Network, TcpConnection, new_connection, write_steps,
}
use sensor_libs.HttpServer.Passes.{writing, NoFailure, Sent, write_steps_lem}
use sensor_libs.HttpServer.Empty.{IsAnsweringEmpty, answering, write_steps-IsAnsweringEmpty}

-- A stand-in for `sprintf`: one byte for a number.
abbrev digits : ℕ → List ℕ
digits n = (48 + n) ∷ []

abbrev text_response : HttpResponse
unfolding get_header_fields
text_response = record {
  status_code = 200;
  payload = json (104 ∷ 105 ∷ []) 0;
  header = [];
  header_fields = get_header_fields digits (json (104 ∷ 105 ∷ []) 0);
  header_pos = 0;
}

abbrev not_found : HttpResponse
unfolding get_header_fields
not_found = record {
  status_code = 404;
  payload = empty_payload;
  header = [];
  header_fields = get_header_fields digits empty_payload;
  header_pos = 0;
}

abbrev connection : HttpResponse → TcpConnection ℕ
connection r = record (new_connection 1 0 false) { active = true; response = some r }

-- A packet that is sent, one that would block, the pass that sends it, and another one.
abbrev passes : List Network
passes =
    record { takes_dangling = true; packet_size = some 40; send_result = success }
    ∷ record { takes_dangling = true; packet_size = some 40; send_result = would_block }
    ∷ record { takes_dangling = false; packet_size = some 40; send_result = success }
    ∷ record { takes_dangling = true; packet_size = some 90; send_result = success }
    ∷ []

passes-NoFailure : NoFailure passes
passes-NoFailure =
    NoFailure.more _ _ (λ e. absurd cc)
      (NoFailure.more _ _ (λ e. absurd cc)
        (NoFailure.more _ _ (λ e. absurd cc) (NoFailure.more _ _ (λ e. absurd cc) NoFailure.empty)))

text_response-IsResponse : IsResponse text_response
unfolding IsWithin get_header_fields
text_response-IsResponse = record {
  header_part = omega arith;
  payload_part = (omega arith, omega arith);
}

write_steps_lem_example :
    Sent digits
      (connection text_response)
      (write_steps digits passes (connection text_response)).0
      (write_steps digits passes (connection text_response)).1
unfolding get_header_fields
write_steps_lem_example =
    write_steps_lem digits passes (connection text_response)
      (writing (connection text_response) text_response refl text_response-IsResponse)
      passes-NoFailure

-- The whole response: 87 bytes of header and two of text, then the response is over.
text_sent : ◌≡◌ {A = ℕ} (length (write_steps digits passes (connection text_response)).0) 89
unfolding write_steps get_header_fields
text_sent = refl

text_over : (write_steps digits passes (connection text_response)).1.response ≡ none
unfolding write_steps get_header_fields
text_over = refl

write_steps-IsAnsweringEmpty_example :
    IsAnsweringEmpty (write_steps digits passes (connection not_found)).1
unfolding get_header_fields
write_steps-IsAnsweringEmpty_example =
    write_steps-IsAnsweringEmpty digits passes (connection not_found)
      (answering (connection not_found) not_found refl refl) passes-NoFailure

-- The response with its header.
abbrev built_response : HttpResponse
unfolding build_header_string
built_response = record text_response {
  header = elim (build_header_string digits text_response) [ none ↦ [] | some header ↦ header ];
}

text_response-with_header : with_header digits text_response ≡ some built_response
unfolding with_header build_header_string text_response built_response
text_response-with_header = refl

built_response-IsReady : IsReady built_response
unfolding IsWithin build_header_string get_header_fields text_response built_response
built_response-IsReady = record {
  built = λ z. omega (arith, ap length z);
  within_header = omega arith;
  within_payload = (omega arith, omega arith);
}

abbrev taking : Network
taking = record { takes_dangling = true; packet_size = some 40; send_result = success }

taking-IsTaking : IsTaking taking
taking-IsTaking = record {
  size = 40;
  takes = refl;
  packet = refl;
  some_room = omega arith;
  sends = refl;
}

replicate-AllTaking : (n : ℕ) → AllTaking (replicate n taking)
replicate-AllTaking zero = AllTaking.empty
replicate-AllTaking (suc n) =
    AllTaking.more taking (replicate n taking) taking-IsTaking (replicate-AllTaking n)

few_enough : length (pending digits (connection text_response)) ≤ length (replicate 90 taking)
unfolding build_header_string get_header_fields text_response built_response
few_enough = omega (
  arith,
  ap length (unsent-with_header digits text_response built_response text_response-with_header),
)

write_steps_all_example :
    ((write_steps digits (replicate 90 taking) (connection text_response)).0
      ≡ pending digits (connection text_response))
    × (pending digits (write_steps digits (replicate 90 taking) (connection text_response)).1 ≡ [])
write_steps_all_example =
    write_steps_all digits (replicate 90 taking) (connection text_response)
      (sending (connection text_response) text_response built_response refl text_response-IsResponse
        text_response-with_header built_response-IsReady)
      (replicate-AllTaking 90) few_enough

-- The second server does not start: `start` undoes all and returns 0.
abbrev no_tls_server : StartOutcome
no_tls_server = record all_succeed { server_tls_start = 5 }

start_lem_example :
    let (result, s) = start {P = ℕ} 80 443 no_tls_server new_http_server in
    (is_running s ≡ false)
    × (is_released s ≡ true)
    × (not (s.port == 0) ≡ is_running s)
    × (is_success result ≡ true)
start_lem_example = start_lem new_http_server 80 443 no_tls_server refl refl (omega arith)

-- One of two clients goes.
abbrev two_clients : Sockets ℕ
two_clients =
    client_connected
      (client_connected (record { connected_sockets = []; num_connected_sockets = 0 })
        (new_connection 3 1 false))
      (new_connection 4 1 true)

count_lem_example :
    (client_disconnected two_clients 3).num_connected_sockets
    ≡ length (client_disconnected two_clients 3).connected_sockets % 2 ^ 32
count_lem_example = count_lem (
    disconnects 3 (connects (new_connection 4 1 true) (connects (new_connection 3 1 false) opened)))
