-- ===== src/WebSocketConn.antt =====
-- pkg/bridge/conn.go: the adapter that makes a byte stream of a websocket. Locks make the methods
-- one step each. The loop of `Read` takes fuel, one unit for each message that it may start.
pub mod Stream
pub mod Closing
pub mod Tests
pub mod Tunnel
use grpc_tunnel.Prelude.{
  ℕ, zero, suc, Bool, true, false, Option, none, some, List, [], ◌∷◌, ◌≡◌, length, ◌==◌,
  if◌then◌else◌, is_none,
}
use grpc_tunnel.Prelude.Text.{Text}
use grpc_tunnel.Socket.{
  Socket, ConnError, err_closed, eof, err_closed_pipe, fault, Next, failed, message, binary_message,
}

module _ (S : Socket) where
  open S use {
    Conn, Reader, Fault, next_reader, read as read_reader, write_message, close as close_socket,
    set_read_deadline as set_socket_read_deadline, set_write_deadline as set_socket_write_deadline,
    local_addr as socket_local_addr, remote_addr as socket_remote_addr,
  }

  abbrev pub Error : Type 0
  Error = ConnError Fault

  -- `webSocketConn`. `has_run_close` says whether `closeOnce` has run.
  pub record WebSocketConn : Type 0 where
    pub websocket : Option Conn
    pub read_stream : Option Reader
    pub read_deadline : ℕ
    pub write_deadline : ℕ
    pub has_run_close : Bool
    pub is_closed : Bool

  pub new_web_socket_conn : Option Conn → WebSocketConn
  new_web_socket_conn ws = record {
    websocket = ws;
    read_stream = none;
    read_deadline = 0;
    write_deadline = 0;
    has_run_close = false;
    is_closed = is_none ws;
  }

  -- The stream to read from, or an error; the connection is passed on in both cases.
  pub data Acquired : Type 0 where
    no_stream : Error → Conn → Acquired
    stream : Reader → Conn → Acquired

  -- A message that is not binary is a protocol violation, reported as `violation`.
  abbrev pub check_type : Error → Next Reader Fault × Conn → Acquired
  check_type violation (failed e, c) = no_stream e c
  check_type violation (message t r, c) =
      if t == binary_message then stream r c else no_stream violation c

  pub acquire_stream : Error → Conn → Option Reader → Acquired
  acquire_stream violation c (some r) = stream r c
  acquire_stream violation c none = check_type violation (next_reader c)

  -- The bytes and the error that `Read` returns, the connection, and the stream it goes on with.
  pub record ReadResult : Type 0 where
    pub bytes : List ℕ
    pub err : Option Error
    pub conn : Conn
    pub left : Option Reader

  -- What one call of the stream's `Read` leads to: `none` goes round the loop.
  abbrev pub after_read : Reader → List ℕ × Option Error × Conn → Option ReadResult
  after_read r (bs, none, c) = some (record { bytes = bs; err = none; conn = c; left = some r })
  after_read r (bs, some err_closed, c) =
      some (record { bytes = bs; err = some err_closed; conn = c; left = some r })
  after_read r (bs, some err_closed_pipe, c) =
      some (record { bytes = bs; err = some err_closed_pipe; conn = c; left = some r })
  after_read r (bs, some (fault e), c) =
      some (record { bytes = bs; err = some (fault e); conn = c; left = some r })
  after_read r ([], some eof, c) = none
  after_read r (b ∷ bs, some eof, c) =
      some (record { bytes = b ∷ bs; err = none; conn = c; left = none })

  abbrev pub or_again : (Conn → Option ReadResult) → Conn → Option ReadResult → Option ReadResult
  or_again again c none = again c
  or_again again c (some res) = some res

  -- One round of the loop of `Read`; `again` is the next round, on a connection with no stream.
  abbrev pub read_round : (Conn → Option ReadResult) → ℕ → Acquired → Option ReadResult
  read_round again n (no_stream e c) =
      some (record { bytes = []; err = some e; conn = c; left = none })
  read_round again n (stream r c) =
      or_again again (read_reader c r n).2 (after_read r (read_reader c r n))

  -- The loop of `Read`; `none` means that the fuel ran out.
  pub read_loop : Error → ℕ → Conn → Option Reader → ℕ → Option ReadResult
  read_loop violation zero c rs n = none
  read_loop violation (suc fuel) c rs n =
      read_round (λ c'. read_loop violation fuel c' none n) n (acquire_stream violation c rs)

  abbrev pub Outcome : Type 0
  Outcome = List ℕ × Option Error × WebSocketConn

  abbrev pub finish : WebSocketConn → Option ReadResult → Option Outcome
  finish w none = none
  finish w (some res) =
      some (res.bytes, res.err, record w { websocket = some res.conn; read_stream = res.left })

  -- `Read` into a buffer of `n` bytes.
  abbrev pub read_open : ℕ → WebSocketConn → Option Conn → ℕ → Option Outcome
  read_open fuel w none n = some ([], some err_closed, w)
  read_open fuel w (some c) n = finish w (read_loop err_closed fuel c w.read_stream n)

  pub read : ℕ → WebSocketConn → ℕ → Option Outcome
  read fuel w n =
      if w.is_closed then some ([], some err_closed, w) else read_open fuel w w.websocket n

  abbrev pub written :
      WebSocketConn → List ℕ → Option Error × Conn → ℕ × Option Error × WebSocketConn
  written w p (some e, c) = (0, some e, record w { websocket = some c })
  written w p (none, c) = (length p, none, record w { websocket = some c })

  abbrev pub write_open : WebSocketConn → Option Conn → List ℕ → ℕ × Option Error × WebSocketConn
  write_open w none p = (0, some err_closed, w)
  write_open w (some c) p = written w p (write_message c binary_message p)

  pub write : WebSocketConn → List ℕ → ℕ × Option Error × WebSocketConn
  write w p = if w.is_closed then (0, some err_closed, w) else write_open w w.websocket p

  abbrev close_open : WebSocketConn → Option Conn → Option Error × WebSocketConn
  close_open w none = (none, w)
  close_open w (some c) = let (e, c') = close_socket c in (e, record w { websocket = some c' })

  pub close : WebSocketConn → Option Error × WebSocketConn
  close w =
      if w.has_run_close
      then (none, w)
      else close_open (record w { has_run_close = true; is_closed = true }) w.websocket

  pub local_addr : WebSocketConn → Option Text
  local_addr w = elim w.websocket [ none ↦ none | some c ↦ some (socket_local_addr c) ]

  pub remote_addr : WebSocketConn → Option Text
  remote_addr w = elim w.websocket [ none ↦ none | some c ↦ some (socket_remote_addr c) ]

  abbrev pub set_both : ℕ → Option Error × Conn → Option Error × Conn
  set_both t (some e, c) = (some e, c)
  set_both t (none, c) = set_socket_write_deadline c t

  abbrev with_socket :
      WebSocketConn → (Conn → Option Error × Conn) → Option Conn → Option Error × WebSocketConn
  with_socket w f none = (some err_closed, w)
  with_socket w f (some c) = let (e, c') = f c in (e, record w { websocket = some c' })

  pub set_deadline : WebSocketConn → ℕ → Option Error × WebSocketConn
  set_deadline w t =
      with_socket (record w { read_deadline = t; write_deadline = t })
        (λ c. set_both t (set_socket_read_deadline c t)) w.websocket

  pub set_read_deadline : WebSocketConn → ℕ → Option Error × WebSocketConn
  set_read_deadline w t =
      with_socket (record w { read_deadline = t }) (λ c. set_socket_read_deadline c t) w.websocket

  pub set_write_deadline : WebSocketConn → ℕ → Option Error × WebSocketConn
  set_write_deadline w t =
      with_socket (record w { write_deadline = t }) (λ c. set_socket_write_deadline c t) w.websocket
