-- ===== src/BrowserConn/Connection/Waking.antt =====
-- The `select` of `Read` in pkg/wasm/dialer/websocket_conn.go: when a `Read` waits, and that a
-- message wakes it.
use grpc_tunnel.Prelude.{
  ℕ, suc, ◌≡◌, refl, sym, ap, ◌∙◌, Bool, true, false, none, some, List, [], ◌∷◌, ◌++◌, ltb, length,
  take, arith, Option-cases, inl, inr,
}
use grpc_tunnel.BrowserConn.{Queue, BrowserError, push, shift}
use grpc_tunnel.BrowserConn.Fifo.{waiting, IsValid, shift_refines, shift_empty, push_refines}
use grpc_tunnel.BrowserConn.Connection.Rule.{read_rule, with_signal}
use grpc_tunnel.BrowserConn.Connection.{
  Connection, array_buffer, ReadOutcome, returns, waits, deliver, take_error, has_error, read_loop,
  read, resume, store_incoming_message, on_message,
}

-- The state in which a `Read` waits: nothing to deliver, and nothing to take from a channel.
pub record IsWaiting (c : Connection) : Type 0 where
  pub reading : c.is_reading ≡ true
  pub opened : c.is_closed ≡ false
  pub no_error : c.errors ≡ []
  pub no_end : c.is_errors_closed ≡ false
  pub quiet : c.message_signal ≡ false
  pub drained : waiting c.queue ≡ []
  pub valid : IsValid c.queue

nil_of_length : (es : List BrowserError) → ltb 0 (length es) ≡ false → es ≡ []
nil_of_length [] h = refl
nil_of_length (e ∷ es) h = ground arith

-- The claim about an outcome: if it waits, it waits in the state above.
abbrev WaitsWell : ReadOutcome → Type 0
WaitsWell (returns bs e c) = Unit {0}
WaitsWell (waits c) = IsWaiting c

take_error-WaitsWell : (c : Connection) (es : List BrowserError) → WaitsWell (take_error c es)
take_error-WaitsWell c [] = tt
take_error-WaitsWell c (e ∷ es) = tt

-- A `Read` waits only where there is no message to deliver, no error to report and no signal to take.
pub read_waits :
    (choice : Bool) (n : ℕ) (c w : Connection)
    → c.is_errors_closed ≡ c.is_closed
    → IsValid c.queue
    → read choice n c ≡ some (waits w)
    → IsWaiting w
read_waits choice n c w same v h =
    read_rule WaitsWell choice n c
      (λ empty. record {
        delivers = λ signal m q f. tt;
        fails = λ signal f. take_error-WaitsWell (with_signal c signal) c.errors;
        sleeps = λ f quiet. record {
          reading = refl;
          opened = sym same ∙ ground arith;
          no_error = nil_of_length c.errors (ground arith);
          no_end = ground arith;
          quiet = refl;
          drained = (shift_empty c.queue).0 f;
          valid = v;
        };
      })
      (λ o. tt) (waits w) (λ o. tt) h

loop_delivers :
    (choice : Bool) (fuel n : ℕ) (c : Connection) (m : List ℕ) (q : Queue)
    → shift c.queue ≡ some (m, q)
    → read_loop choice (suc fuel) n c ≡ some (deliver n c (m, q))
unfolding read_loop
loop_delivers choice fuel n c m q h = rw h

resume_delivers :
    (choice : Bool) (n : ℕ) (c : Connection) (m : List ℕ) (q : Queue)
    → has_error c ≡ false
    → c.message_signal ≡ true
    → shift c.queue ≡ some (m, q)
    → resume choice n c ≡ some (deliver n (record c { message_signal = false }) (m, q))
unfolding resume
resume_delivers choice n c m q quiet signal h =
    ground (arith, loop_delivers choice 1 n (record c { message_signal = false }) m q h)

-- The state after a message has been queued for a waiting `Read`.
abbrev with_message : Connection → Queue → Connection
with_message c q = record c { queue = q; message_signal = true }

store-with_message :
    (grow : ℕ → ℕ → ℕ) (c : Connection) (m : List ℕ) (q : Queue)
    → c.is_closed ≡ false
    → push grow c.queue m ≡ some q
    → on_message grow c (array_buffer m) ≡ with_message c q
unfolding on_message store_incoming_message
store-with_message grow c m q o h = rw (o, h)

no_error_of_waiting : (c : Connection) → IsWaiting c → has_error c ≡ false
no_error_of_waiting c w = rw (w.no_error, w.no_end)

-- A message that fits wakes a waiting `Read`, which returns the front of it.
pub message_wakes :
    (grow : ℕ → ℕ → ℕ) (choice : Bool) (n : ℕ) (c : Connection) (m : List ℕ) (q : Queue)
    → IsWaiting c
    → push grow c.queue m ≡ some q
    → (c' : Connection) × (resume choice n (on_message grow c (array_buffer m))
        ≡ some (returns (take n m) none c'))
message_wakes grow choice n c m q w h = elim (Option-cases (shift q)) [
  | inl none_left ↦ absurd (ground (arith, now, (shift_empty q).0 none_left))
  | inr ((m', q'), e) ↦
      let front : m' ≡ m = ground (arith, now, (shift_refines q q' m' pushed.1 e).0) in
      let s = with_message c q in
      let given = resume_delivers choice n s m' q' (no_error_of_waiting c w) refl e in
      (
        _,
        ap (resume choice n) (store-with_message grow c m q w.opened h)
            ∙ (given
                ∙ ap (λ x. some (deliver n (record s { message_signal = false }) (x, q'))) front),
      )
]
  where
    pushed : (waiting q ≡ waiting c.queue ++ m ∷ []) × IsValid q
    pushed = push_refines grow c.queue q m w.valid h

    now : waiting q ≡ m ∷ []
    now = pushed.0 ∙ ap (λ ms. ms ++ m ∷ []) w.drained
