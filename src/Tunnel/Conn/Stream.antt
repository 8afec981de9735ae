-- ===== src/Tunnel/Conn/Stream.antt =====
-- `Read`, `Write` and `Close` of pkg/grpctunnel/conn.go as a stream.
use grpc_tunnel.Prelude.{
  ℕ, ◌≤◌, ◌<◌, ◌≡◌, refl, ap, false, Option, none, some, List, [], ◌∷◌, ◌++◌, length, arith,
  Bool-cases, inl, inr,
}
use grpc_tunnel.Socket.{Socket, SocketLaws, eof, err_closed_pipe, binary_message, Message}
use grpc_tunnel.WebSocketConn.{Error, ReadResult, read_loop}
use grpc_tunnel.WebSocketConn.Stream.{pending, readers_left, read_loop-Delivers, read_loop_total}
use grpc_tunnel.Tunnel.Conn.{
  TunnelConn, TunnelRead, finish_read, read_ws, tunnel_read, write_ws, wrote, tunnel_write,
  tunnel_close,
}

module _ (S : Socket) (L : SocketLaws S) where
  open S use {Conn}

  -- What the adapter still has to deliver, and how many readers it may still read from.
  abbrev pub to_deliver : TunnelConn S → List ℕ
  to_deliver w = elim w.ws [ none ↦ [] | some c ↦ pending S L c w.reader ]

  abbrev pub readers_to_come : TunnelConn S → ℕ
  readers_to_come w = elim w.ws [ none ↦ 0 | some c ↦ readers_left S L c w.reader ]

  -- What a `Read` without an error owes.
  abbrev pub Fits : TunnelConn S → ℕ → TunnelRead S → Type 0
  Fits w n (bs, none, w') = (length bs ≤ n) × (to_deliver w ≡ bs ++ to_deliver w')
  Fits w n (bs, some e, w') = Unit {0}

  none-Fits :
      (w : TunnelConn S) (n : ℕ) (bs : List ℕ) (e : Option (Error S)) (w' : TunnelConn S)
      → (e ≡ none → (length bs ≤ n) × (to_deliver w ≡ bs ++ to_deliver w'))
      → Fits w n (bs, e, w')
  none-Fits w n bs none w' p = p refl
  none-Fits w n bs (some e) w' p = tt

  finish_read-Fits :
      (w : TunnelConn S) (n : ℕ) (c : Conn) (fuel : ℕ) (res : ReadResult S)
      → w.ws ≡ some c
      → read_loop S eof fuel c w.reader n ≡ some res
      → Fits w n (res.bytes, res.err, record w { ws = some res.conn; reader = res.left })
  finish_read-Fits w n c fuel res e h =
      none-Fits w n res.bytes res.err (record w { ws = some res.conn; reader = res.left })
        (λ ok. let d = read_loop-Delivers S L eof fuel c w.reader n res h ok in (d.0, ground arith))

  read_ws-Fits :
      (w : TunnelConn S) (n fuel : ℕ) (ws : Option Conn)
      → w.ws ≡ ws
      → readers_to_come w < fuel
      → (out : TunnelRead S) × (read_ws S fuel w ws n ≡ some out) × Fits w n out
  read_ws-Fits w n fuel none e h = (([], some eof, w), refl, tt)
  read_ws-Fits w n fuel (some c) e h =
      let (res, got) = read_loop_total S L eof fuel c w.reader n (ground arith) in
      (_, ap (finish_read S w) got, finish_read-Fits w n c fuel res e got)

  -- Fuel above the number of messages on hand is enough for `Read` to return; without an error it
  -- returns at most as many bytes as fit the buffer, and they are the next bytes of the stream.
  pub tunnel_read-Fits :
      (w : TunnelConn S) (n fuel : ℕ)
      → readers_to_come w < fuel
      → (out : TunnelRead S) × (tunnel_read S fuel w n ≡ some out) × Fits w n out
  unfolding tunnel_read
  tunnel_read-Fits w n fuel h = elim (Bool-cases w.is_closed) [
    | inl shut ↦ (([], some eof, w), rw shut, tt)
    | inr open_ ↦
        let (out, got, fits) = read_ws-Fits w n fuel w.ws refl h in (out, ground arith, fits)
  ]

  -- The messages that the adapter's socket has sent.
  abbrev pub sent : TunnelConn S → List Message
  sent w = elim w.ws [ none ↦ [] | some c ↦ L.outbox c ]

  wrote-sends :
      (w w' : TunnelConn S) (p : List ℕ) (n : ℕ) (c : Conn) (out : Option (Error S) × Conn)
      → S.write_message c binary_message p ≡ out
      → w.ws ≡ some c
      → wrote S w p out ≡ (n, none, w')
      → (n ≡ length p) × (sent w' ≡ sent w ++ (binary_message, p) ∷ [])
  wrote-sends w w' p n c (some x, c') m e h = cc
  wrote-sends w w' p n c (none, c') m e h = ground (arith, L.write_sends c binary_message p)

  write_ws-sends :
      (w w' : TunnelConn S) (p : List ℕ) (n : ℕ) (ws : Option Conn)
      → w.ws ≡ ws
      → write_ws S w ws p ≡ (n, none, w')
      → (n ≡ length p) × (sent w' ≡ sent w ++ (binary_message, p) ∷ [])
  write_ws-sends w w' p n none e h = cc
  write_ws-sends w w' p n (some c) e h =
      wrote-sends w w' p n c (S.write_message c binary_message p) refl e h

  -- A `Write` that reports no error reports the whole length, and sends the buffer as one binary
  -- message, behind those that were sent before.
  pub tunnel_write_sends :
      (w w' : TunnelConn S) (p : List ℕ) (n : ℕ)
      → tunnel_write S w p ≡ (n, none, w')
      → (n ≡ length p) × (sent w' ≡ sent w ++ (binary_message, p) ∷ [])
  unfolding tunnel_write
  tunnel_write_sends w w' p n h = elim (Bool-cases w.is_closed) [
    | inl shut ↦ absurd (ground arith)
    | inr open_ ↦ write_ws-sends w w' p n w.ws refl (ground arith)
  ]

  -- After the first `Close`, `Read` returns io.EOF and `Write` io.ErrClosedPipe, with no byte and
  -- without touching the socket, and a further `Close` reports no error and changes nothing.
  pub tunnel_closed_calls :
      (w : TunnelConn S) (fuel n : ℕ) (p : List ℕ)
      → w.has_run_close ≡ false
      → let w' = (tunnel_close S w).1 in
        (tunnel_read S fuel w' n ≡ some ([], some eof, w'))
        × (tunnel_write S w' p ≡ (0, some err_closed_pipe, w'))
        × (tunnel_close S w' ≡ (none, w'))
  unfolding tunnel_close tunnel_read tunnel_write
  tunnel_closed_calls w fuel n p h = (ground arith, ground arith, ground arith)
