-- ===== src/WebSocketConn/Tunnel.antt =====
-- Two adapters of pkg/bridge/conn.go, one at each end: the byte stream that is written is the byte
-- stream that is read.
use mathlib.Core.List.{flatten}
use grpc_tunnel.Prelude.{
  ℕ, ◌≤◌, ◌<◌, ◌≡◌, refl, sym, ap, ◌∙◌, Option, none, some, List, [], ◌∷◌, ◌++◌, append_assoc,
  append-nil, map, length, arith, Bool-cases, inl, inr,
}
use grpc_tunnel.Socket.{Socket, SocketLaws, err_closed, Message, binary_message}
use grpc_tunnel.WebSocketConn.{
  WebSocketConn, Error, ReadResult, Outcome, finish, read_open, written, write_open, read_loop,
  read, write,
}
use grpc_tunnel.WebSocketConn.Stream.{
  payload, pending, readers_left, read_loop-Delivers, read_loop_total,
}

module _ (S : Socket) (L : SocketLaws S) where
  open S use {Conn, Reader}

  -- What the adapter still has to deliver, and the messages that it may still start.
  abbrev pub pending_of : WebSocketConn S → List ℕ
  pending_of w = elim w.websocket [ none ↦ [] | some c ↦ pending S L c w.read_stream ]

  abbrev pub readers_of : WebSocketConn S → ℕ
  readers_of w = elim w.websocket [ none ↦ 0 | some c ↦ readers_left S L c w.read_stream ]

  finish-delivers :
      (fuel n : ℕ) (w w' : WebSocketConn S) (c : Conn) (bs : List ℕ) (r : Option (ReadResult S))
      → read_loop S err_closed fuel c w.read_stream n ≡ r
      → w.websocket ≡ some c
      → finish S w r ≡ some (bs, none, w')
      → (length bs ≤ n) × (pending_of w ≡ bs ++ pending_of w')
  finish-delivers fuel n w w' c bs none h e f = cc
  finish-delivers fuel n w w' c bs (some res) h e f =
      let d = read_loop-Delivers S L err_closed fuel c w.read_stream n res h (ground arith) in
      ground arith

  read_open-delivers :
      (fuel n : ℕ) (w w' : WebSocketConn S) (ws : Option Conn) (bs : List ℕ)
      → w.websocket ≡ ws
      → read_open S fuel w ws n ≡ some (bs, none, w')
      → (length bs ≤ n) × (pending_of w ≡ bs ++ pending_of w')
  read_open-delivers fuel n w w' none bs e h = ground arith
  read_open-delivers fuel n w w' (some c) bs e h = finish-delivers fuel n w w' c bs _ refl e h

  -- A `Read` that reports no error fits its buffer and returns the next bytes of the stream.
  pub read_delivers :
      (fuel n : ℕ) (w w' : WebSocketConn S) (bs : List ℕ)
      → read S fuel w n ≡ some (bs, none, w')
      → (length bs ≤ n) × (pending_of w ≡ bs ++ pending_of w')
  unfolding read
  read_delivers fuel n w w' bs h = elim (Bool-cases w.is_closed) [
    | inl shut ↦ absurd (ground arith)
    | inr open_ ↦ read_open-delivers fuel n w w' w.websocket bs refl (ground arith)
  ]

  -- Fuel above the number of messages on hand is enough for `Read` to return.
  pub read_total :
      (fuel n : ℕ) (w : WebSocketConn S)
      → readers_of w < fuel
      → (out : Outcome S) × (read S fuel w n ≡ some out)
  unfolding read
  read_total fuel n w h = elim (Bool-cases w.is_closed) [
    | inl shut ↦ (([], some err_closed, w), rw shut)
    | inr open_ ↦ let total = read_open-total w.websocket refl in (total.0, ground arith)
  ]
    where
      read_open-total :
          (ws : Option Conn)
          → w.websocket ≡ ws
          → (out : Outcome S) × (read_open S fuel w ws n ≡ some out)
      read_open-total none e = (_, refl)
      read_open-total (some c) e =
          let total = read_loop_total S L err_closed fuel c w.read_stream n (ground arith) in
          (_, ap (finish S w) total.1)

  abbrev Reads : Type 0
  Reads = Option (List ℕ × WebSocketConn S)

  abbrev prepend : List ℕ → Reads → Reads
  prepend bs none = none
  prepend bs (some (cs, w)) = some (bs ++ cs, w)

  abbrev after_read_call : (WebSocketConn S → Reads) → Option (Outcome S) → Reads
  after_read_call more none = none
  after_read_call more (some (bs, some e, w)) = none
  after_read_call more (some (bs, none, w)) = prepend bs (more w)

  -- Reads into buffers of the given sizes, one after the other; `none` where one reports an error.
  unfoldable pub reads : ℕ → WebSocketConn S → List ℕ → Reads
  reads fuel w [] = some ([], w)
  reads fuel w (n ∷ ns) = after_read_call (λ w'. reads fuel w' ns) (read S fuel w n)

  abbrev after_write_call :
      (WebSocketConn S → Option (WebSocketConn S))
      → ℕ × Option (Error S) × WebSocketConn S
      → Option (WebSocketConn S)
  after_write_call more (n, some e, w) = none
  after_write_call more (n, none, w) = more w

  -- Writes of the given buffers; `none` where one reports an error.
  unfoldable pub writes : WebSocketConn S → List (List ℕ) → Option (WebSocketConn S)
  writes w [] = some w
  writes w (p ∷ ps) = after_write_call (λ w'. writes w' ps) (write S w p)

  prepend-delivers :
      (w w' : WebSocketConn S) (xs bs : List ℕ) (r : Reads)
      → ((cs : List ℕ) → r ≡ some (cs, w') → pending_of w ≡ cs ++ pending_of w')
      → prepend xs r ≡ some (bs, w')
      → xs ++ pending_of w ≡ bs ++ pending_of w'
  prepend-delivers w w' xs bs none ih h = cc
  prepend-delivers w w' xs bs (some (cs, v)) ih h =
      let same : v ≡ w' = cc in
      let joined : xs ++ cs ≡ bs = cc in
      ap (◌++◌ xs) (ih cs (ap (λ u. some (cs, u)) same))
      ∙ (sym (append_assoc xs cs (pending_of w')) ∙ ap (λ ys. ys ++ pending_of w') joined)

  after_read_call-delivers :
      (fuel n : ℕ) (ns : List ℕ) (w w' : WebSocketConn S) (bs : List ℕ) (out : Option (Outcome S))
      → read S fuel w n ≡ out
      → ((v : WebSocketConn S) (cs : List ℕ)
          → reads fuel v ns ≡ some (cs, w')
          → pending_of v ≡ cs ++ pending_of w')
      → after_read_call (λ v. reads fuel v ns) out ≡ some (bs, w')
      → pending_of w ≡ bs ++ pending_of w'
  after_read_call-delivers fuel n ns w w' bs none e ih h = cc
  after_read_call-delivers fuel n ns w w' bs (some (xs, some err, v)) e ih h = cc
  after_read_call-delivers fuel n ns w w' bs (some (xs, none, v)) e ih h =
      (read_delivers fuel n w v xs e).1 ∙ prepend-delivers v w' xs bs (reads fuel v ns) (ih v) h

  -- However the reads are cut, the bytes that they return are, in order, the next bytes pending.
  pub reads_deliver :
      (fuel : ℕ) (ns : List ℕ) (w w' : WebSocketConn S) (bs : List ℕ)
      → reads fuel w ns ≡ some (bs, w')
      → pending_of w ≡ bs ++ pending_of w'
  unfolding reads
  reads_deliver fuel [] w w' bs h = ground arith
  reads_deliver fuel (n ∷ ns) w w' bs h =
      after_read_call-delivers fuel n ns w w' bs (read S fuel w n) refl
        (λ v cs. reads_deliver fuel ns v w' cs) h

  -- The messages that the adapter's socket has sent.
  abbrev pub sent_of : WebSocketConn S → List Message
  sent_of w = elim w.websocket [ none ↦ [] | some c ↦ L.outbox c ]

  abbrev pub as_binary : List ℕ → Message
  as_binary p = (binary_message, p)

  written-sends :
      (w w' : WebSocketConn S) (p : List ℕ) (n : ℕ) (c : Conn) (out : Option (Error S) × Conn)
      → S.write_message c binary_message p ≡ out
      → w.websocket ≡ some c
      → written S w p out ≡ (n, none, w')
      → (n ≡ length p) × (sent_of w' ≡ sent_of w ++ as_binary p ∷ [])
  written-sends w w' p n c (some e, c') h s f = ground arith
  written-sends w w' p n c (none, c') h s f = ground (arith, L.write_sends c binary_message p)

  write_open-sends :
      (w w' : WebSocketConn S) (p : List ℕ) (n : ℕ) (ws : Option Conn)
      → w.websocket ≡ ws
      → write_open S w ws p ≡ (n, none, w')
      → (n ≡ length p) × (sent_of w' ≡ sent_of w ++ as_binary p ∷ [])
  write_open-sends w w' p n none s f = ground arith
  write_open-sends w w' p n (some c) s f =
      written-sends w w' p n c (S.write_message c binary_message p) refl s f

  -- A `Write` that reports no error reports the whole length, and sends the buffer as one binary
  -- message, behind those that were sent before.
  pub write_sends :
      (w w' : WebSocketConn S) (p : List ℕ) (n : ℕ)
      → write S w p ≡ (n, none, w')
      → (n ≡ length p) × (sent_of w' ≡ sent_of w ++ as_binary p ∷ [])
  unfolding write
  write_sends w w' p n h = elim (Bool-cases w.is_closed) [
    | inl shut ↦ absurd (ground arith)
    | inr open_ ↦ write_open-sends w w' p n w.websocket refl (ground arith)
  ]

  after_write_call-sends :
      (w w' : WebSocketConn S) (p : List ℕ) (ps : List (List ℕ))
      (out : ℕ × Option (Error S) × WebSocketConn S)
      → write S w p ≡ out
      → ((v : WebSocketConn S) → writes v ps ≡ some w' → sent_of w' ≡ sent_of v ++ map as_binary ps)
      → after_write_call (λ v. writes v ps) out ≡ some w'
      → sent_of w' ≡ sent_of w ++ map as_binary (p ∷ ps)
  after_write_call-sends w w' p ps (n, some e, v) h ih f = cc
  after_write_call-sends w w' p ps (n, none, v) h ih f =
      ih v f
      ∙ (ap (λ ms. ms ++ map as_binary ps) (write_sends w v p n h).1
          ∙ append_assoc (sent_of w) (as_binary p ∷ []) (map as_binary ps))

  writes_send :
      (ps : List (List ℕ)) (w w' : WebSocketConn S)
      → writes w ps ≡ some w'
      → sent_of w' ≡ sent_of w ++ map as_binary ps
  unfolding writes
  writes_send [] w w' h =
      let same : w ≡ w' = cc in ap sent_of (sym same) ∙ sym (append-nil (sent_of w))
  writes_send (p ∷ ps) w w' h =
      after_write_call-sends w w' p ps (write S w p) refl (λ v. writes_send ps v w') h

pub payload-as_binary :
    (ps : List (List ℕ)) → payload (map (λ p. (binary_message, p)) ps) ≡ flatten ps
unfolding payload flatten
payload-as_binary [] = refl
payload-as_binary (p ∷ ps) = ap (◌++◌ p) (payload-as_binary ps)

-- From a writer whose socket has sent nothing to a reader whose socket then holds what the writer's
-- has sent and has no stream open: the bytes of any reads are the first of the bytes of the writes,
-- in order, however the two cut them.
pub tunnel_is_transparent :
    (S T : Socket) (L : SocketLaws S) (K : SocketLaws T) (fuel : ℕ) (ps : List (List ℕ))
    (ns bs : List ℕ) (v v' : WebSocketConn S) (w w' : WebSocketConn T)
    → sent_of S L v ≡ []
    → writes S L v ps ≡ some v'
    → pending_of T K w ≡ payload (sent_of S L v')
    → reads T K fuel w ns ≡ some (bs, w')
    → flatten ps ≡ bs ++ pending_of T K w'
tunnel_is_transparent S T L K fuel ps ns bs v v' w w' fresh wrote carried got =
    sym (payload-as_binary ps)
    ∙ (ap payload
          (sym (writes_send S L ps v v' wrote ∙ ap (λ ms. ms ++ map (as_binary S L) ps) fresh))
        ∙ (sym carried ∙ reads_deliver T K fuel ns w w' bs got))
