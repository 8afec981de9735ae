-- ===== src/WebSocketConn/Closing.antt =====
-- `Close` of pkg/bridge/conn.go, and what the methods do once it has run.
use grpc_tunnel.Prelude.{ℕ, ◌≡◌, refl, false, none, some, List, [], arith}
use grpc_tunnel.Socket.{Socket, err_closed}
use grpc_tunnel.WebSocketConn.{WebSocketConn, new_web_socket_conn, read, write, close, set_deadline}

module _ (S : Socket) where
  open S use {Conn}

  -- `Close` runs once: a second call reports no error and changes nothing, the socket included.
  pub close_twice : (w : WebSocketConn S) → close S (close S w).1 ≡ (none, (close S w).1)
  unfolding close
  close_twice w = ground arith

  -- After `Close`, `Read` and `Write` return net.ErrClosed and no byte, at once and without touching
  -- the socket, for every buffer.
  pub closed_calls :
      (w : WebSocketConn S) (fuel n : ℕ) (p : List ℕ)
      → w.has_run_close ≡ false
      → let w' = (close S w).1 in
        (read S fuel w' n ≡ some ([], some err_closed, w'))
        × (write S w' p ≡ (0, some err_closed, w'))
  unfolding close read write
  closed_calls w fuel n p h = (ground arith, ground arith)

  -- An adapter of a nil socket is closed from the start.
  pub nil_calls :
      (fuel n : ℕ) (p : List ℕ)
      → let w = new_web_socket_conn S none in
        (read S fuel w n ≡ some ([], some err_closed, w))
        × (write S w p ≡ (0, some err_closed, w))
        × ((close S w).0 ≡ none)
        × ((set_deadline S w n).0 ≡ some err_closed)
  unfolding new_web_socket_conn read write close set_deadline
  nil_calls fuel n p = (refl, refl, refl, refl)
