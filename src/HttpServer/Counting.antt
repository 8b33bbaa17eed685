-- ===== src/HttpServer/Counting.antt =====
-- lib_http/http_server.cpp: the count of the connected sockets.
use sensor_libs.Prelude.{
  ℕ, suc, ◌%◌, ◌^◌, ◌≡◌, refl, true, List, [], ◌∷◌, length, length-append, Bool-cases, inl, inr,
  arith,
}
use sensor_libs.HttpServer.{
  TcpConnection, Sockets, client_connected, mark_active, client_data_received, is_connected, erase,
  client_disconnected,
}

module _ {P : Type 0} where
  -- The states that the callbacks of the clients reach, from that of a new or a stopped server.
  pub data Reaches : Sockets P → Type 0 where
    opened : Reaches (record { connected_sockets = []; num_connected_sockets = 0 })
    connects : {s : Sockets P} (tc : TcpConnection P) → Reaches s → Reaches (client_connected s tc)
    receives : {s : Sockets P} (socket : ℕ) → Reaches s → Reaches (client_data_received s socket)
    disconnects : {s : Sockets P} (socket : ℕ) → Reaches s → Reaches (client_disconnected s socket)

  length-mark_active :
      (tcs : List (TcpConnection P)) (socket : ℕ) → length (mark_active tcs socket) ≡ length tcs
  unfolding mark_active
  length-mark_active [] socket = refl
  length-mark_active (tc ∷ tcs) socket = ground (arith, length-mark_active tcs socket)

  length-erase :
      (tcs : List (TcpConnection P)) (socket : ℕ)
      → is_connected tcs socket ≡ true
      → suc (length (erase tcs socket)) ≡ length tcs
  unfolding erase
  length-erase [] socket h = absurd cc
  length-erase (tc ∷ tcs) socket h = ground (arith, length-erase tcs socket)

  -- However clients connect, send and disconnect, also sockets that are not known or are known twice, the count is the
  -- number of the connections held, modulo 2 ^ 32.
  pub count_lem :
      {s : Sockets P} → Reaches s → s.num_connected_sockets ≡ length s.connected_sockets % 2 ^ 32
  unfolding client_connected client_data_received client_disconnected
  count_lem opened = refl
  count_lem (connects {s} tc r) =
      omega (arith, count_lem r, length-append s.connected_sockets (tc ∷ []))
  count_lem (receives {s} socket r) =
      omega (arith, count_lem r, length-mark_active s.connected_sockets socket)
  count_lem (disconnects {s} socket r) =
      elim (Bool-cases (is_connected s.connected_sockets socket)) [
        | inl known ↦
            rw (client_disconnected, known)
              (omega (arith, count_lem r, length-erase s.connected_sockets socket known))
        | inr unknown ↦ rw (client_disconnected, unknown) (count_lem r)
      ]
