-- ===== src/Tunnel/Conn.antt =====
-- pkg/grpctunnel/conn.go: the adapter that makes a byte stream of a websocket. It reads by the same
-- loop as that of pkg/bridge/conn.go, with io.EOF for a closed adapter and for a message that is not
-- binary, and io.ErrClosedPipe for a write that comes too late.
pub mod Stream
pub mod Tests
use grpc_tunnel.Prelude.{
  ℕ, Bool, true, false, Option, none, some, List, [], ◌∷◌, length, if◌then◌else◌,
}
use grpc_tunnel.Prelude.Text.{Text}
use grpc_tunnel.Socket.{Socket, ConnError, err_closed, eof, err_closed_pipe, binary_message}
use grpc_tunnel.WebSocketConn.{Error, ReadResult, read_loop}

module _ (S : Socket) where
  open S use {
    Conn, Reader, write_message, close as close_socket,
    set_read_deadline as set_socket_read_deadline, set_write_deadline as set_socket_write_deadline,
    local_addr as socket_local_addr, remote_addr as socket_remote_addr,
  }

  -- `webSocketConn`. `has_run_close` says whether `closeOnce` has run.
  pub record TunnelConn : Type 0 where
    pub ws : Option Conn
    pub reader : Option Reader
    pub has_run_close : Bool
    pub is_closed : Bool

  -- `newWebSocketConn`
  unfoldable pub new_tunnel_conn : Option Conn → TunnelConn
  new_tunnel_conn ws = record { ws = ws; reader = none; has_run_close = false; is_closed = false }

  abbrev pub TunnelRead : Type 0
  TunnelRead = List ℕ × Option (Error S) × TunnelConn

  abbrev pub finish_read : TunnelConn → Option (ReadResult S) → Option TunnelRead
  finish_read w none = none
  finish_read w (some res) =
      some (res.bytes, res.err, record w { ws = some res.conn; reader = res.left })

  abbrev pub read_ws : ℕ → TunnelConn → Option Conn → ℕ → Option TunnelRead
  read_ws fuel w none n = some ([], some eof, w)
  read_ws fuel w (some c) n = finish_read w (read_loop S eof fuel c w.reader n)

  -- `Read` into a buffer of `n` bytes.
  unfoldable pub tunnel_read : ℕ → TunnelConn → ℕ → Option TunnelRead
  tunnel_read fuel w n = if w.is_closed then some ([], some eof, w) else read_ws fuel w w.ws n

  abbrev pub wrote :
      TunnelConn → List ℕ → Option (Error S) × Conn → ℕ × Option (Error S) × TunnelConn
  wrote w p (some e, c) = (0, some e, record w { ws = some c })
  wrote w p (none, c) = (length p, none, record w { ws = some c })

  abbrev pub write_ws : TunnelConn → Option Conn → List ℕ → ℕ × Option (Error S) × TunnelConn
  write_ws w none p = (0, some err_closed_pipe, w)
  write_ws w (some c) p = wrote w p (write_message c binary_message p)

  -- `Write`
  unfoldable pub tunnel_write : TunnelConn → List ℕ → ℕ × Option (Error S) × TunnelConn
  tunnel_write w p = if w.is_closed then (0, some err_closed_pipe, w) else write_ws w w.ws p

  abbrev close_ws : TunnelConn → Option Conn → Option (Error S) × TunnelConn
  close_ws w none = (none, w)
  close_ws w (some c) = let (e, c') = close_socket c in (e, record w { ws = some c' })

  -- `Close`
  unfoldable pub tunnel_close : TunnelConn → Option (Error S) × TunnelConn
  tunnel_close w =
      if w.has_run_close
      then (none, w)
      else close_ws (record w { has_run_close = true; is_closed = true }) w.ws

  pub tunnel_local_addr : TunnelConn → Option Text
  tunnel_local_addr w = elim w.ws [ none ↦ none | some c ↦ some (socket_local_addr c) ]

  pub tunnel_remote_addr : TunnelConn → Option Text
  tunnel_remote_addr w = elim w.ws [ none ↦ none | some c ↦ some (socket_remote_addr c) ]

  abbrev after_first : ℕ → Option (Error S) × Conn → Option (Error S) × Conn
  after_first t (some e, c) = (some e, c)
  after_first t (none, c) = set_socket_write_deadline c t

  abbrev on_ws :
      TunnelConn → (Conn → Option (Error S) × Conn) → Option Conn → Option (Error S) × TunnelConn
  on_ws w f none = (some err_closed, w)
  on_ws w f (some c) = let (e, c') = f c in (e, record w { ws = some c' })

  pub tunnel_set_deadline : TunnelConn → ℕ → Option (Error S) × TunnelConn
  tunnel_set_deadline w t = on_ws w (λ c. after_first t (set_socket_read_deadline c t)) w.ws

  pub tunnel_set_read_deadline : TunnelConn → ℕ → Option (Error S) × TunnelConn
  tunnel_set_read_deadline w t = on_ws w (λ c. set_socket_read_deadline c t) w.ws

  pub tunnel_set_write_deadline : TunnelConn → ℕ → Option (Error S) × TunnelConn
  tunnel_set_write_deadline w t = on_ws w (λ c. set_socket_write_deadline c t) w.ws
