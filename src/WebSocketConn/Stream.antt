-- ===== src/WebSocketConn/Stream.antt =====
-- `Read` of pkg/bridge/conn.go (and, with its own errors, of pkg/grpctunnel/conn.go) as a stream:
-- no byte of the binary messages is lost, repeated or moved, wherever messages and buffers end.
use grpc_tunnel.Prelude.{
  ℕ, zero, suc, ◌≤◌, ◌<◌, ◌≡◌, refl, sym, ap, ap₂, subst, ◌∙◌, true, Option, none, some, List, [],
  ◌∷◌, ◌++◌, append_assoc, length, ◌==◌, if◌then◌else◌, arith, Bool-cases, inl, inr,
}
use mathlib.Core.Option.{some-injective}
use grpc_tunnel.Socket.{
  Socket, SocketLaws, err_closed, eof, err_closed_pipe, fault, Next, failed, message, Message,
  binary_message, Starts, AtEnd, EofOnly,
}
use grpc_tunnel.WebSocketConn.{
  Error, Acquired, no_stream, stream, check_type, acquire_stream, ReadResult, after_read, or_again,
  read_round, read_loop,
}

-- The bytes of the binary messages up to the first message of another type.
unfoldable pub payload : List Message → List ℕ
payload [] = []
payload ((t, p) ∷ ms) = if t == binary_message then p ++ payload ms else []

payload-binary :
    (t : ℕ) (p : List ℕ) (ms : List Message)
    → (t == binary_message) ≡ true
    → payload ((t, p) ∷ ms) ≡ p ++ payload ms
unfolding payload
payload-binary t p ms h = rw h

module _ (S : Socket) (L : SocketLaws S) where
  open S use {Conn, Reader, next_reader, read as read_reader}
  open L use {inbox, rest}

  -- What `Read` still has to deliver.
  abbrev pub pending : Conn → Option Reader → List ℕ
  pending c none = payload (inbox c)
  pending c (some r) = rest c r ++ payload (inbox c)

  -- How many readers may still be read from.
  abbrev pub readers_left : Conn → Option Reader → ℕ
  readers_left c none = length (inbox c)
  readers_left c (some r) = suc (length (inbox c))

  abbrev Ready : Conn → Option Reader → Acquired S → Type 0
  Ready c rs (no_stream e c') = Unit {0}
  Ready c rs (stream r c') =
      (pending c rs ≡ rest c' r ++ payload (inbox c'))
      × (readers_left c rs ≡ suc (length (inbox c')))

  check_type-Ready :
      (violation : Error S) (c : Conn) (m : Next Reader S.Fault × Conn)
      → Starts S inbox rest c m
      → Ready c none (check_type S violation m)
  check_type-Ready violation c (failed e, c') h = tt
  check_type-Ready violation c (message t r, c') h = elim (Bool-cases (t == binary_message)) [
    | inl binary ↦ rw binary (rw h (payload-binary t (rest c' r) (inbox c') binary), ap length h)
    | inr other ↦ rw other tt
  ]

  acquire_stream-Ready :
      (violation : Error S) (c : Conn) (rs : Option Reader)
      → Ready c rs (acquire_stream S violation c rs)
  unfolding acquire_stream
  acquire_stream-Ready violation c none =
      check_type-Ready violation c (next_reader c) (L.next_starts c)
  acquire_stream-Ready violation c (some r) = (refl, refl)

  -- What `Read` delivers comes off the front of what is pending.
  abbrev pub Delivers : Conn → Option Reader → ℕ → ReadResult S → Type 0
  Delivers c rs n res =
      (length res.bytes ≤ n) × (pending c rs ≡ res.bytes ++ pending res.conn res.left)

  -- The two ways on from a call of the stream's `Read`, from the reader contract.
  abbrev AfterRead : Conn → Reader → ℕ → List ℕ × Option (Error S) × Conn → Type 0
  AfterRead c r n out =
      (length out.0 ≤ n)
      × (rest c r ≡ out.0 ++ rest out.2 r)
      × (inbox out.2 ≡ inbox c)
      × AtEnd (EofOnly (rest out.2 r)) out.1

  read_path :
      (c : Conn) (rs : Option Reader) (r : Reader) (c₀ : Conn) (n : ℕ)
      (out : List ℕ × Option (Error S) × Conn)
      → Ready c rs (stream r c₀)
      → AfterRead c₀ r n out
      → pending c rs ≡ out.0 ++ pending out.2 (some r)
  read_path c rs r c₀ n (bs, e, c') ready law =
      ready.0
      ∙ (ap₂ ◌++◌ law.1 (ap payload (sym law.2)) ∙ append_assoc bs (rest c' r) (payload (inbox c')))

  at_end_path : (r : Reader) (c : Conn) → rest c r ≡ [] → pending c (some r) ≡ pending c none
  at_end_path r c h = rw h

  round-Delivers :
      (again : Conn → Option (ReadResult S)) (c : Conn) (rs : Option Reader) (r : Reader)
      (c₀ : Conn) (n : ℕ) (res : ReadResult S) (out : List ℕ × Option (Error S) × Conn)
      → Ready c rs (stream r c₀)
      → AfterRead c₀ r n out
      → (again out.2 ≡ some res → Delivers out.2 none n res)
      → or_again S again out.2 (after_read S r out) ≡ some res
      → res.err ≡ none
      → Delivers c rs n res
  round-Delivers again c rs r c₀ n res (bs, none, c') ready law ih h ok =
      subst (Delivers c rs n) (some-injective _ _ h)
        (law.0, read_path c rs r c₀ n (bs, none, c') ready law)
  round-Delivers again c rs r c₀ n res (bs, some err_closed, c') ready law ih h ok = ground arith
  round-Delivers again c rs r c₀ n res (bs, some err_closed_pipe, c') ready law ih h ok =
      ground arith
  round-Delivers again c rs r c₀ n res (bs, some (fault e), c') ready law ih h ok = ground arith
  round-Delivers again c rs r c₀ n res ([], some eof, c') ready law ih h ok =
      let rest_path = read_path c rs r c₀ n ([], some eof, c') ready law in
      ((ih h).0, rest_path ∙ (at_end_path r c' law.3 ∙ (ih h).1))
  round-Delivers again c rs r c₀ n res (b ∷ bs, some eof, c') ready law ih h ok =
      subst (Delivers c rs n) (some-injective _ _ h) (
        law.0,
        read_path c rs r c₀ n (b ∷ bs, some eof, c') ready law
            ∙ ap (◌++◌ (b ∷ bs)) (at_end_path r c' law.3),
      )

  acquired-Delivers :
      (violation : Error S) (fuel : ℕ) (c : Conn) (rs : Option Reader) (n : ℕ) (res : ReadResult S)
      (a : Acquired S)
      → Ready c rs a
      → ((c' : Conn) → read_loop S violation fuel c' none n ≡ some res → Delivers c' none n res)
      → read_round S (λ c'. read_loop S violation fuel c' none n) n a ≡ some res
      → res.err ≡ none
      → Delivers c rs n res
  acquired-Delivers violation fuel c rs n res (no_stream e c') ready ih h ok = ground arith
  acquired-Delivers violation fuel c rs n res (stream r c') ready ih h ok =
      round-Delivers (λ c₁. read_loop S violation fuel c₁ none n) c rs r c' n res
        (read_reader c' r n) ready
        (L.read_fits c' r n, L.read_rest c' r n, L.read_inbox c' r n, L.read_eof c' r n) (ih _) h ok

  -- A `Read` that ends without an error returns at most as many bytes as fit into the buffer, and
  -- they are the next bytes of the binary messages, wherever the messages end.
  pub read_loop-Delivers :
      (violation : Error S) (fuel : ℕ) (c : Conn) (rs : Option Reader) (n : ℕ) (res : ReadResult S)
      → read_loop S violation fuel c rs n ≡ some res
      → res.err ≡ none
      → Delivers c rs n res
  unfolding read_loop
  read_loop-Delivers violation zero c rs n res h ok = cc
  read_loop-Delivers violation (suc fuel) c rs n res h ok =
      acquired-Delivers violation fuel c rs n res (acquire_stream S violation c rs)
        (acquire_stream-Ready violation c rs)
        (λ c' h'. read_loop-Delivers violation fuel c' none n res h' ok) h ok

  -- One round returns, or leaves one reader fewer.
  round-total :
      (again : Conn → Option (ReadResult S)) (c : Conn) (r : Reader)
      (out : List ℕ × Option (Error S) × Conn)
      → ((res : ReadResult S) × (again out.2 ≡ some res))
      → (res : ReadResult S) × (or_again S again out.2 (after_read S r out) ≡ some res)
  round-total again c r (bs, none, c') next = (_, refl)
  round-total again c r (bs, some err_closed, c') next = (_, refl)
  round-total again c r (bs, some err_closed_pipe, c') next = (_, refl)
  round-total again c r (bs, some (fault e), c') next = (_, refl)
  round-total again c r ([], some eof, c') next = next
  round-total again c r (b ∷ bs, some eof, c') next = (_, refl)

  acquired-total :
      (again : Conn → Option (ReadResult S)) (c : Conn) (rs : Option Reader) (n : ℕ)
      (a : Acquired S)
      → Ready c rs a
      → ((c' : Conn)
          → suc (readers_left c' none) ≡ readers_left c rs
          → (res : ReadResult S) × (again c' ≡ some res))
      → (res : ReadResult S) × (read_round S again n a ≡ some res)
  acquired-total again c rs n (no_stream e c') ready next = (_, refl)
  acquired-total again c rs n (stream r c') ready next =
      round-total again c' r (read_reader c' r n)
        (next _ (omega (arith, ready.1, ap length (L.read_inbox c' r n))))

  -- `Read` returns: fuel above the number of messages that may be started is enough.
  pub read_loop_total :
      (violation : Error S) (fuel : ℕ) (c : Conn) (rs : Option Reader) (n : ℕ)
      → readers_left c rs < fuel
      → (res : ReadResult S) × (read_loop S violation fuel c rs n ≡ some res)
  unfolding read_loop
  read_loop_total violation zero c rs n h = absurd (omega arith)
  read_loop_total violation (suc fuel) c rs n h =
      acquired-total (λ c'. read_loop S violation fuel c' none n) c rs n
        (acquire_stream S violation c rs) (acquire_stream-Ready violation c rs)
        (λ c' e. read_loop_total violation fuel c' none n (omega arith))
