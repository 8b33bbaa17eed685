-- ===== src/HttpServer/Lifecycle/Resources.antt =====
-- lib_http/http_server.cpp: what `start` and `stop` hold and give back.
use sensor_libs.Prelude.{ℕ, ◌≡◌, ◌<◌, Bool, true, false, not, ◌&&◌, ◌||◌, ◌==◌, arith}
use sensor_libs.HttpServer.Lifecycle.{
  WicedResult, code, StartOutcome, Lifecycle, initialize_tls, deinitialize_tls, start_servers,
  start, stop,
}

abbrev pub all_succeed : StartOutcome
all_succeed = record {
  network_is_up = true;
  tls = record { lock = 0; init_identity = 0; unlock = 0 };
  server_start = 0;
  server_tls_start = 0;
  create_thread = 0;
}

abbrev pub tls_ready : StartOutcome → Bool
tls_ready out = out.tls.lock == 0 && out.tls.init_identity == 0 && out.tls.unlock == 0

abbrev pub servers_ready : StartOutcome → Bool
servers_ready out = out.server_start == 0 && out.server_tls_start == 0

abbrev pub is_success : WicedResult → Bool
is_success (code rc) = rc == 0
is_success _ = false

module _ {P : Type 0} where
  -- The platform holds nothing for the server, or all of it.
  abbrev pub is_released : Lifecycle P → Bool
  is_released s =
      not s.listening
      && not s.listening_tls
      && (s.identities == 0)
      && not s.dct_locked
      && not s.thread

  abbrev pub is_running : Lifecycle P → Bool
  is_running s =
      s.listening && s.listening_tls && (s.identities == 1) && not s.dct_locked && s.thread

  -- From a stopped server for which the platform holds nothing, and with a port that is not 0, `start` ends with all
  -- running just when every call of it succeeds, and only then the port is stored, without which
  -- `stop` does nothing. The platform holds nothing afterwards just when the network is down, or the identity was made
  -- and one of the two servers did not start. The result is 0 just when the network is up, the identity
  -- was made, the first server started, and the second one did not or the thread did.
  pub start_lem :
      (s₀ : Lifecycle P) (port port_tls : ℕ) (out : StartOutcome)
      → s₀.port ≡ 0
      → is_released s₀ ≡ true
      → 0 < port
      → let (result, s) = start port port_tls out s₀ in
        (is_running s
          ≡ (out.network_is_up && tls_ready out && servers_ready out && (out.create_thread == 0)))
        × (is_released s ≡ (not out.network_is_up || (tls_ready out && not (servers_ready out))))
        × (not (s.port == 0) ≡ is_running s)
        × (is_success result ≡ (
            out.network_is_up
            && tls_ready out
            && (out.server_start == 0)
            && (not (out.server_tls_start == 0) || (out.create_thread == 0))))
  unfolding start initialize_tls start_servers deinitialize_tls
  start_lem s₀ port port_tls out stopped released h =
      (ground arith, ground arith, ground arith, ground arith)

  -- Where every call of `start` succeeds, on a stopped server with a port that is not 0, it returns 0 and all is
  -- running; `stop` then returns the result for the second server, and leaves a stopped server for which
  -- the platform holds nothing.
  pub start-stop :
      (s₀ : Lifecycle P) (port port_tls rc : ℕ)
      → s₀.port ≡ 0
      → is_released s₀ ≡ true
      → 0 < port
      → let running = start port port_tls all_succeed s₀ in
        (running.0 ≡ code 0)
        × (is_running running.1 ≡ true)
        × ((stop rc running.1).0 ≡ code rc)
        × (is_released (stop rc running.1).1 ≡ true)
        × ((stop rc running.1).1.port ≡ 0)
  unfolding start initialize_tls start_servers stop deinitialize_tls
  start-stop s₀ port port_tls rc stopped released h =
      (ground arith, ground arith, ground arith, ground arith, ground arith)
