-- ===== src/BrowserConn/Connection/History.antt =====
-- All that can happen to a connection of pkg/wasm/dialer/websocket_conn.go, in any order, and what
-- stays true of it.
use grpc_tunnel.Prelude.{
  ℕ, ◌≡◌, refl, Bool, true, false, Option, none, some, List, [], ◌∷◌, if◌then◌else◌, if_rule, drop,
  arith, inl, inr,
}
use grpc_tunnel.BrowserConn.{BrowserError, err_closed, write_failed}
use grpc_tunnel.BrowserConn.Fifo.{waiting, shift_empty}
use grpc_tunnel.BrowserConn.Connection.{
  Connection, new_web_socket_conn, EventData, ReadOutcome, read, resume, on_message, on_error,
  on_close, write, close, send,
}
use grpc_tunnel.BrowserConn.Connection.Rule.{read_rule, resume_rule}
use grpc_tunnel.BrowserConn.Connection.Sound.{
  IsSound, new_web_socket_conn-IsSound, store_error-IsSound, close_channels-IsSound,
  log_call-IsSound, on_message-IsSound, after_outcome, deliver-IsSound, take_error-IsSound,
}

abbrev SoundAfter : ReadOutcome → Type 0
SoundAfter out = IsSound (after_outcome out)

-- Only the flag that a `Read` is under way differs.
ended_call-IsSound :
    (c : Connection) (b : List ℕ)
    → IsSound c
    → IsSound (record c { read_buffer = b; is_reading = false })
ended_call-IsSound c b v = record {
  valid = v.valid;
  few_errors = v.few_errors;
  ended = v.ended;
  detached = v.detached;
  dropped = v.dropped;
  heard = inl refl;
}

waiting_call-IsSound :
    (c : Connection)
    → IsSound c
    → waiting c.queue ≡ []
    → IsSound (record c { message_signal = false; is_reading = true })
waiting_call-IsSound c v empty = record {
  valid = v.valid;
  few_errors = v.few_errors;
  ended = v.ended;
  detached = v.detached;
  dropped = v.dropped;
  heard = inr (inr empty);
}

read-IsSound :
    (choice : Bool) (n : ℕ) (c : Connection) (out : ReadOutcome)
    → IsSound c
    → read choice n c ≡ some out
    → SoundAfter out
read-IsSound choice n c out v =
    read_rule SoundAfter choice n c
      (λ empty. record {
        delivers = λ signal m q. deliver-IsSound c signal n m q v;
        fails = λ signal f. take_error-IsSound c signal c.errors refl v;
        sleeps = λ f quiet. waiting_call-IsSound c v ((shift_empty c.queue).0 f);
      })
      (λ o. ended_call-IsSound c (drop n c.read_buffer) v) out
      (λ shut. ended_call-IsSound c c.read_buffer v)

-- A `Read` that waits goes on only with a signal or an error, so it cannot fall asleep at once over
-- a queued message.
resume-IsSound :
    (choice : Bool) (n : ℕ) (c : Connection) (out : ReadOutcome)
    → IsSound c
    → c.is_reading ≡ true
    → resume choice n c ≡ some out
    → SoundAfter out
resume-IsSound choice n c out v reading =
    resume_rule SoundAfter choice n c out
      (record {
        delivers = λ signal m q. deliver-IsSound c signal n m q v;
        fails = λ signal f. take_error-IsSound c signal c.errors refl v;
        sleeps = λ f quiet. waiting_call-IsSound c v ((shift_empty c.queue).0 f);
      })
      (λ off quiet. waiting_call-IsSound c v (ground (arith, v.heard)))

-- What can happen next: a callback runs, a method is called, or a waiting `Read` goes on.
pub data Event : Type 0 where
  message : EventData → Event
  socket_error socket_close call_close : Event
  call_read : Bool → ℕ → Event
  goes_on : Bool → ℕ → Event
  call_write : Bool → List ℕ → Event

abbrev pub after_read : Connection → Option ReadOutcome → Connection
after_read c none = c
after_read c (some out) = after_outcome out

-- A `Read` that finds `readMu` held has no step of its own yet.
unfoldable pub step : (ℕ → ℕ → ℕ) → Connection → Event → Connection
step grow c (message d) = on_message grow c d
step grow c socket_error = on_error c
step grow c socket_close = on_close c
step grow c call_close = (close c).1
step grow c (call_read choice n) = if c.is_reading then c else after_read c (read choice n c)
step grow c (goes_on choice n) = if c.is_reading then after_read c (resume choice n c) else c
step grow c (call_write panics p) = (write panics c p).2

after_read-IsSound :
    (c : Connection) (r : Option ReadOutcome)
    → IsSound c
    → ((out : ReadOutcome) → r ≡ some out → SoundAfter out)
    → IsSound (after_read c r)
after_read-IsSound c none v h = v
after_read-IsSound c (some out) v h = h out refl

write-IsSound :
    (panics : Bool) (c : Connection) (p : List ℕ) → IsSound c → IsSound (write panics c p).2
unfolding write
write-IsSound panics c p v =
    if_rule {A = ℕ × Option BrowserError × Connection} (λ r. IsSound r.2) c.is_closed
      (0, some err_closed, c) _ (λ shut. v)
      λ o.
        if_rule {A = ℕ × Option BrowserError × Connection} (λ r. IsSound r.2) panics
          (0, some write_failed, c) _ (λ thrown. v) λ sent. log_call-IsSound c (send p) v

pub step-IsSound :
    (grow : ℕ → ℕ → ℕ) (c : Connection) (e : Event) → IsSound c → IsSound (step grow c e)
unfolding step on_error on_close close
step-IsSound grow c (message d) v = on_message-IsSound grow c d v
step-IsSound grow c socket_error v = store_error-IsSound c _ v
step-IsSound grow c socket_close v = close_channels-IsSound c v
step-IsSound grow c call_close v = log_call-IsSound _ _ (close_channels-IsSound c v)
step-IsSound grow c (call_read choice n) v =
    if_rule IsSound c.is_reading c _ (λ held. v)
      λ free. after_read-IsSound c (read choice n c) v (λ out. read-IsSound choice n c out v)
step-IsSound grow c (goes_on choice n) v =
    if_rule IsSound c.is_reading (after_read c (resume choice n c)) c
      (λ held.
        after_read-IsSound c (resume choice n c) v (λ out. resume-IsSound choice n c out v held))
      (λ free. v)
step-IsSound grow c (call_write panics p) v = write-IsSound panics c p v

unfoldable pub run : (ℕ → ℕ → ℕ) → Connection → List Event → Connection
run grow c [] = c
run grow c (e ∷ es) = run grow (step grow c e) es

run-IsSound :
    (grow : ℕ → ℕ → ℕ) (es : List Event) (c : Connection) → IsSound c → IsSound (run grow c es)
unfolding run
run-IsSound grow [] c v = v
run-IsSound grow (e ∷ es) c v = run-IsSound grow es (step grow c e) (step-IsSound grow c e v)

-- After any history of a new connection: its queue's accounts are right and within the limits, the
-- error channel is within its capacity and closed exactly when the connection is, the handlers are
-- attached exactly while it is open, a closed connection queues nothing, and no `Read` waits over a
-- queued message without a signal.
pub history-IsSound :
    (grow : ℕ → ℕ → ℕ) (es : List Event) → IsSound (run grow new_web_socket_conn es)
history-IsSound grow es = run-IsSound grow es new_web_socket_conn new_web_socket_conn-IsSound
