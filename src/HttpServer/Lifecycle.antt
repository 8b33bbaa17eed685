-- ===== src/HttpServer/Lifecycle.antt =====
-- lib_http/http_server.cpp: `start`, `stop` and the TLS identity. Whether a call of the platform succeeds
-- is an argument, as its return code; what the platform holds for the server is kept beside the members.
use sensor_libs.Prelude.{
  ℕ, ◌+◌, ◌-◌, ◌≡◌, ◌≢◌, ◌<◌, refl, Bool, true, false, not, ◌&&◌, ◌||◌, List, [], ◌==◌,
  if◌then◌else◌,
}
use sensor_libs.HttpServer.{Sockets}
pub mod Resources

-- `WICED_SUCCESS` is `code 0`.
pub data WicedResult : Type 0 where
  code : ℕ → WicedResult
  already_connected notup tls_error not_connected : WicedResult

-- The outcomes of the calls in `initialize_tls`.
pub record TlsOutcome : Type 0 where
  pub lock : ℕ
  pub init_identity : ℕ
  pub unlock : ℕ

-- The outcomes of the calls in `start`.
pub record StartOutcome : Type 0 where
  pub network_is_up : Bool
  pub tls : TlsOutcome
  pub server_start : ℕ
  pub server_tls_start : ℕ
  pub create_thread : ℕ

-- `port` is `m_tcp_server.port`, which the platform stores when it starts the server and `memset` clears.
-- `has_identity` says that `m_tls_identity` is not null. The last five are the platform's: the servers
-- that listen, the identities allocated, the lock on the DCT, and the thread with its semaphore.
pub record Lifecycle (P : Type 0) : Type 0 where
  pub port : ℕ
  pub port_tls : ℕ
  pub has_identity : Bool
  pub should_run : Bool
  pub sockets : Sockets P
  pub listening : Bool
  pub listening_tls : Bool
  pub identities : ℕ
  pub dct_locked : Bool
  pub thread : Bool

module _ {P : Type 0} where
  -- The constructor.
  abbrev pub new_http_server : Lifecycle P
  new_http_server = record {
    port = 0;
    port_tls = 0;
    has_identity = false;
    should_run = false;
    sockets = record { connected_sockets = []; num_connected_sockets = 0 };
    listening = false;
    listening_tls = false;
    identities = 0;
    dct_locked = false;
    thread = false;
  }

  -- The result 0 or -1, as a test for 0, and the server with its new identity.
  unfoldable pub initialize_tls : TlsOutcome → Lifecycle P → Bool × Lifecycle P
  initialize_tls tls s =
      let allocated = record s { has_identity = true; identities = s.identities + 1 } in
      let locked = record allocated { dct_locked = true } in
      if not (tls.lock == 0)
      then (false, allocated)
      else if not (tls.init_identity == 0)
      then (false, locked)
      else if not (tls.unlock == 0)
      then (false, locked)
      else (true, allocated)

  -- `deinitialize_tls (m_tls_identity)`, and the assignment behind it.
  unfoldable pub deinitialize_tls : Lifecycle P → Lifecycle P
  deinitialize_tls s = record s {
    identities = if s.has_identity then s.identities - 1 else s.identities;
    has_identity = false;
  }

  -- What `wiced_tcp_server_start` does to a server, and `wiced_tcp_server_stop` with `memset`.
  abbrev pub tcp_start : ℕ → ℕ → Lifecycle P → Lifecycle P
  tcp_start rc port s = if rc == 0 then record s { port = port; listening = true } else s

  abbrev pub tls_start : ℕ → ℕ → Lifecycle P → Lifecycle P
  tls_start rc port s = if rc == 0 then record s { port_tls = port; listening_tls = true } else s

  abbrev pub tcp_stop : Lifecycle P → Lifecycle P
  tcp_stop s = record s { port = 0; listening = false }

  abbrev pub tls_stop : Lifecycle P → Lifecycle P
  tls_stop s = record s { port_tls = 0; listening_tls = false }

  -- The branch of `start` for a server that did not start: what started is stopped, both are cleared.
  abbrev pub undo_start : ℕ → ℕ → Lifecycle P → Lifecycle P
  undo_start rc rc_tls s =
      let first = if rc == 0 then tcp_stop s else record s { port = 0 } in
      if rc_tls == 0 then tls_stop first else record first { port_tls = 0 }

  -- `start` after the TLS identity.
  unfoldable pub start_servers : ℕ → ℕ → StartOutcome → Lifecycle P → WicedResult × Lifecycle P
  unfolding deinitialize_tls
  start_servers port port_tls out s =
      let started = tls_start out.server_tls_start port_tls (tcp_start out.server_start port s) in
      let running = record started { should_run = true; thread = true } in
      if not (out.server_start == 0) || not (out.server_tls_start == 0)
      then (
        code out.server_start,
        deinitialize_tls (undo_start out.server_start out.server_tls_start started),
      )
      else if not (out.create_thread == 0)
      then (code out.create_thread, tcp_stop (record started { should_run = true }))
      else (code out.create_thread, running)

  unfoldable pub start : ℕ → ℕ → StartOutcome → Lifecycle P → WicedResult × Lifecycle P
  unfolding initialize_tls start_servers
  start port port_tls out s =
      let cleared = record s { port = 0; port_tls = 0 } in
      let tls = initialize_tls out.tls cleared in
      if not (s.port == 0)
      then (already_connected, s)
      else if not out.network_is_up
      then (notup, s)
      else if tls.0
      then start_servers port port_tls out tls.1
      else (tls_error, tls.1)

  -- `rc_tls` is the outcome of the second `wiced_tcp_server_stop`; the others are not looked at.
  unfoldable pub stop : ℕ → Lifecycle P → WicedResult × Lifecycle P
  unfolding deinitialize_tls
  stop rc_tls s =
      let ended = record s { should_run = false; thread = false } in
      let closed = deinitialize_tls (tls_stop (tcp_stop ended)) in
      if s.port == 0 then (not_connected, s) else (
        code rc_tls,
        record closed { sockets = record { connected_sockets = []; num_connected_sockets = 0 } },
      )
