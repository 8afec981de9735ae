-- ===== src/BrowserConn/Connection/Rule.antt =====
-- One rule for what a `Read` of pkg/wasm/dialer/websocket_conn.go can come to: while it goes round
-- its loop, only the signal changes.
use mathlib.Core.Option.{some-injective}
use grpc_tunnel.Prelude.{
  ℕ, zero, suc, ◌≡◌, refl, subst, Bool, true, false, ◌&&◌, ◌||◌, not, Option, none, some, List, [],
  ◌∷◌, take, drop, arith, Bool-cases, Option-cases, inl, inr,
}
use grpc_tunnel.BrowserConn.{Queue, err_closed, shift}
use grpc_tunnel.BrowserConn.Connection.{
  Connection, ReadOutcome, waits, deliver, take_error, returned, has_error, select, read_loop,
  read_buffered, read, resume,
}

abbrev pub with_signal : Connection → Bool → Connection
with_signal c signal = record c { message_signal = signal }

-- The outcomes of the loop from `c`, whatever the signal is by then.
pub record Outcomes (P : ReadOutcome → Type 0) (n : ℕ) (c : Connection) : Type 0 where
  pub delivers :
      (signal : Bool) (m : List ℕ) (q : Queue)
      → shift c.queue ≡ some (m, q)
      → P (deliver n (with_signal c signal) (m, q))
  pub fails : (signal : Bool) → has_error c ≡ true → P (take_error (with_signal c signal) c.errors)
  pub sleeps :
      shift c.queue ≡ none
      → has_error c ≡ false
      → P (waits (record c { message_signal = false; is_reading = true }))

module _ (P : ReadOutcome → Type 0) (choice : Bool) (n : ℕ) (c : Connection)
    (cases : Outcomes P n c) where
  select_rule :
      (signal : Bool) (again : Connection → Option ReadOutcome) (out : ReadOutcome)
      → (signal ≡ false
          → has_error c ≡ false
          → P (waits (record c { message_signal = false; is_reading = true })))
      → (again (with_signal c false) ≡ some out → P out)
      → select choice again (with_signal c signal) ≡ some out
      → P out
  select_rule signal again out sleeps next h =
      elim (Bool-cases (has_error c && (choice || not signal))) [
        | inl failed ↦
            let taken : take_error (with_signal c signal) c.errors ≡ out = ground arith in
            subst P taken (cases.fails signal (ground arith))
        | inr open_ ↦ elim (Bool-cases signal) [
          | inl on ↦ next (ground arith)
          | inr off ↦
              let slept : waits (record c { message_signal = false; is_reading = true }) ≡ out =
                ground arith in
              subst P slept (sleeps off (ground arith))
        ]
      ]

  loop_rule :
      (fuel : ℕ) (signal : Bool) (out : ReadOutcome)
      → read_loop choice fuel n (with_signal c signal) ≡ some out
      → P out
  unfolding read_loop
  loop_rule zero signal out h = absurd (cc)
  loop_rule (suc fuel) signal out h = elim (Option-cases (shift c.queue)) [
    | inl empty ↦
        select_rule signal (λ c'. read_loop choice fuel n c') out (λ off. cases.sleeps empty)
          (loop_rule fuel false out) (rw empty at h)
    | inr ((m, q), found) ↦
        let given : some (deliver n (with_signal c signal) (m, q)) ≡ some out = rw found at h in
        subst P (some-injective _ _ given) (cases.delivers signal m q found)
  ]

module _ (P : ReadOutcome → Type 0) (choice : Bool) (n : ℕ) (c : Connection)
    (cases : c.read_buffer ≡ [] → Outcomes P n c)
    (kept : c.is_closed ≡ false
      → P (
          returned
            (take n c.read_buffer)
            none
            (record c { read_buffer = drop n c.read_buffer }))) where
  buffered_rule :
      (b : List ℕ) (out : ReadOutcome)
      → c.read_buffer ≡ b
      → c.is_closed ≡ false
      → read_buffered choice n c b ≡ some out
      → P out
  buffered_rule [] out e o h = loop_rule P choice n c (cases e) 2 c.message_signal out h
  buffered_rule (x ∷ xs) out e o h =
      let given : returned (take n (x ∷ xs)) none (record c { read_buffer = drop n (x ∷ xs) })
          ≡ out =
        some-injective _ _ h in
      subst P given
        (subst (λ b. P (returned (take n b) none (record c { read_buffer = drop n b }))) e (kept o))

  -- Of `Read`: it fails at once on a closed connection, or drains the kept tail, or loops.
  pub read_rule :
      (out : ReadOutcome)
      → (c.is_closed ≡ true → P (returned [] (some err_closed) c))
      → read choice n c ≡ some out
      → P out
  unfolding read
  read_rule out shut h = elim (Bool-cases c.is_closed) [
    | inl closed ↦
        let given : returned [] (some err_closed) c ≡ out = ground arith in
        subst P given (shut closed)
    | inr open_ ↦ buffered_rule c.read_buffer out refl open_ (ground arith)
  ]

-- Of a waiting `Read` that goes on: its first round has no message to deliver.
pub resume_rule :
    (P : ReadOutcome → Type 0) (choice : Bool) (n : ℕ) (c : Connection) (out : ReadOutcome)
    → Outcomes P n c
    → (c.message_signal ≡ false
        → has_error c ≡ false
        → P (waits (record c { message_signal = false; is_reading = true })))
    → resume choice n c ≡ some out
    → P out
unfolding resume
resume_rule P choice n c out cases sleeps h =
    select_rule P choice n c cases c.message_signal (λ c'. read_loop choice 2 n c') out sleeps
      (loop_rule P choice n c cases 2 false out) h
