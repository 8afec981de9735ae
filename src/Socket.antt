-- ===== src/Socket.antt =====
-- What the two adapters of pkg/bridge/conn.go and pkg/grpctunnel/conn.go use of a
-- gorilla/websocket connection: its calls, with the state of the connection passed on, and what its
-- documentation promises of them. The package is not part of the repository, so both are
-- parameters of the model.
pub mod Memory
use grpc_tunnel.Prelude.{ℕ, ◌≤◌, ◌≡◌, Option, none, some, List, [], ◌∷◌, ◌++◌, length}
use grpc_tunnel.Prelude.Text.{Text}

-- The errors that the adapters tell apart, and those that they only pass on.
pub data ConnError (Fault : Type 0) : Type 0 where
  err_closed eof err_closed_pipe : ConnError Fault
  fault : Fault → ConnError Fault

-- A message's type and its bytes; `websocket.TextMessage` is 1 and `websocket.BinaryMessage` is 2.
abbrev pub Message : Type 0
Message = ℕ × List ℕ

abbrev pub binary_message : ℕ
binary_message = 2

-- What `NextReader` returns.
pub data Next (Reader : Type 0) (Fault : Type 0) : Type 0 where
  failed : ConnError Fault → Next Reader Fault
  message : ℕ → Reader → Next Reader Fault

pub record Socket : Type 1 where
  pub Conn : Type 0
  pub Reader : Type 0
  pub Fault : Type 0
  pub next_reader : Conn → Next Reader Fault × Conn
  -- `Read` of a message's reader, with the length of the buffer: the bytes and the error.
  pub read : Conn → Reader → ℕ → List ℕ × Option (ConnError Fault) × Conn
  pub write_message : Conn → ℕ → List ℕ → Option (ConnError Fault) × Conn
  pub close : Conn → Option (ConnError Fault) × Conn
  pub set_read_deadline : Conn → ℕ → Option (ConnError Fault) × Conn
  pub set_write_deadline : Conn → ℕ → Option (ConnError Fault) × Conn
  pub local_addr : Conn → Text
  pub remote_addr : Conn → Text

-- `NextReader` fails, or starts the next message that has come in.
abbrev pub Starts :
    (S : Socket)
    → (S.Conn → List Message)
    → (S.Conn → S.Reader → List ℕ)
    → S.Conn
    → Next S.Reader S.Fault × S.Conn
    → Type 0
Starts S inbox rest c (failed e, c') = Unit {0}
Starts S inbox rest c (message t r, c') = inbox c ≡ (t, rest c' r) ∷ inbox c'

abbrev pub AtEnd {ℓ} : {F : Type ℓ} → (F → Type 0) → Option F → Type 0
AtEnd P none = Unit {0}
AtEnd P (some e) = P e

abbrev pub EofOnly : {F : Type 0} → List ℕ → ConnError F → Type 0
EofOnly rest eof = rest ≡ []
EofOnly rest e = Unit {0}

-- The messages that are still to be started, the unread bytes of the one that is being read, and
-- the messages that have been sent.
pub record SocketLaws (S : Socket) : Type 0 where
  pub inbox : S.Conn → List Message
  pub rest : S.Conn → S.Reader → List ℕ
  pub outbox : S.Conn → List Message
  pub next_starts : (c : S.Conn) → Starts S inbox rest c (S.next_reader c)
  -- The reader contract: at most as many bytes as fit, in order, and EOF only at the end.
  pub read_fits : (c : S.Conn) (r : S.Reader) (n : ℕ) → length (S.read c r n).0 ≤ n
  pub read_rest :
      (c : S.Conn) (r : S.Reader) (n : ℕ) → rest c r ≡ (S.read c r n).0 ++ rest (S.read c r n).2 r
  pub read_inbox : (c : S.Conn) (r : S.Reader) (n : ℕ) → inbox (S.read c r n).2 ≡ inbox c
  pub read_eof :
      (c : S.Conn) (r : S.Reader) (n : ℕ)
      → AtEnd (EofOnly (rest (S.read c r n).2 r)) (S.read c r n).1
  -- A message that is written without an error is sent whole.
  pub write_sends :
      (c : S.Conn) (t : ℕ) (p : List ℕ)
      → (S.write_message c t p).0 ≡ none
      → outbox (S.write_message c t p).1 ≡ outbox c ++ (t, p) ∷ []
