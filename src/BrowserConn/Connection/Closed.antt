-- ===== src/BrowserConn/Connection/Closed.antt =====
-- What follows once a connection of pkg/wasm/dialer/websocket_conn.go has closed, in every history.
use grpc_tunnel.Prelude.{
  ℕ, ◌≡◌, refl, sym, ap, subst, ◌∙◌, Bool, true, false, Option, some, List, [], ◌∷◌, ◌++◌,
  append_assoc, append-nil, arith, not, ◌||◌, ltb, length, if_rule, inl, inr, Bool-cases,
}
use grpc_tunnel.BrowserConn.{BrowserError, err_closed}
use grpc_tunnel.BrowserConn.Fifo.{waiting, shift_empty}
use grpc_tunnel.BrowserConn.Connection.{
  Connection, has_error, new_web_socket_conn, array_buffer, other_type, ReadOutcome, returns,
  take_error, select, read_loop, read, resume, store_error, close_channels, store_incoming_message,
  on_message, on_error, on_close, write, close, log_call, JsCall, close_socket,
}
use grpc_tunnel.BrowserConn.Connection.Rule.{with_signal}
use grpc_tunnel.BrowserConn.Connection.Sound.{IsSound, after_outcome}
use grpc_tunnel.BrowserConn.Connection.History.{
  Event, message, socket_error, socket_close, call_close, call_read, goes_on, call_write,
  after_read, step, run, step-IsSound, history-IsSound,
}

-- The calls that closing again makes on the socket.
abbrev pub closing_calls : List Event → List JsCall
closing_calls [] = []
closing_calls (call_close ∷ es) = close_socket ∷ closing_calls es
closing_calls (e ∷ es) = closing_calls es

-- How `d` comes from the closed `c` under events that make the calls `calls`: the errors that are left
-- are the last of those that were there.
abbrev pub FollowsClosed : List JsCall → Connection → Connection → Type 0
FollowsClosed calls c d =
    (d.is_closed ≡ true)
    × (d.calls ≡ c.calls ++ calls)
    × ((taken : List BrowserError) × (c.errors ≡ taken ++ d.errors))

select_ready :
    (choice signal : Bool) (again : Connection → Option ReadOutcome) (c : Connection)
    → has_error c ≡ true
    → (choice || not signal) ≡ true
    → select choice again (with_signal c signal) ≡ some (take_error (with_signal c signal) c.errors)
select_ready choice signal again c h k = rw (h, k) refl

select_again :
    (again : Connection → Option ReadOutcome) (c : Connection)
    → select false again (with_signal c true) ≡ again (with_signal c false)
select_again again c = elim (Bool-cases (has_error c)) [ inl h ↦ rw h refl | inr h ↦ rw h refl ]

or_true : (b : Bool) → (b || true) ≡ true
or_true true = refl
or_true false = refl

closed_error : (c : Connection) → IsSound c → c.is_closed ≡ true → has_error c ≡ true
closed_error c v h = rw (v.ended ∙ h) (or_true (ltb 0 (length c.errors)))

closed_empty : (c : Connection) → IsSound c → c.is_closed ≡ true → waiting c.queue ≡ []
closed_empty c v h = ground (arith, v.dropped)

closed_loop :
    (n : ℕ) (c : Connection)
    → has_error c ≡ true
    → waiting c.queue ≡ []
    → read_loop false 2 n (with_signal c false) ≡ some (take_error (with_signal c false) c.errors)
unfolding read_loop
closed_loop n c h empty =
    rw ((shift_empty c.queue).1 empty)
      (select_ready false false (λ c'. read_loop false 1 n c') c h refl)

select_closed :
    (choice signal : Bool) (n : ℕ) (c : Connection)
    → has_error c ≡ true
    → waiting c.queue ≡ []
    → (last : Bool) × (select choice (λ c'. read_loop choice 2 n c') (with_signal c signal)
        ≡ some (take_error (with_signal c last) c.errors))
select_closed true signal n c h empty =
    (signal, select_ready true signal (λ c'. read_loop true 2 n c') c h refl)
select_closed false false n c h empty =
    (false, select_ready false false (λ c'. read_loop false 2 n c') c h refl)
select_closed false true n c h empty =
    (false, select_again (λ c'. read_loop false 2 n c') c ∙ closed_loop n c h empty)

-- A waiting `Read` takes an error, since a closed connection queues nothing.
closed_resume :
    (choice : Bool) (n : ℕ) (c : Connection)
    → IsSound c
    → c.is_closed ≡ true
    → (signal : Bool) × (resume choice n c ≡ some (take_error (with_signal c signal) c.errors))
unfolding resume
closed_resume choice n c v h =
    select_closed choice c.message_signal n c (closed_error c v h) (closed_empty c v h)

stays-FollowsClosed : (c d : Connection) → c.is_closed ≡ true → c ≡ d → FollowsClosed [] c d
stays-FollowsClosed c d h e = subst (FollowsClosed [] c) e (h, sym (append-nil c.calls), ([], refl))

taken-FollowsClosed :
    (c : Connection) (signal : Bool) (errors : List BrowserError)
    → c.is_closed ≡ true
    → c.errors ≡ errors
    → FollowsClosed [] c (after_outcome (take_error (with_signal c signal) errors))
taken-FollowsClosed c signal [] h e = (h, sym (append-nil c.calls), ([], refl))
taken-FollowsClosed c signal (x ∷ errors) h e = (h, sym (append-nil c.calls), (x ∷ [], e))

closed_write :
    (panics : Bool) (c : Connection) (p : List ℕ)
    → c.is_closed ≡ true
    → write panics c p ≡ (0, some err_closed, c)
unfolding write
closed_write panics c p h = ground arith

closed_read :
    (choice : Bool) (n : ℕ) (c : Connection)
    → c.is_closed ≡ true
    → read choice n c ≡ some (returns [] (some err_closed) (record c { is_reading = false }))
unfolding read
closed_read choice n c h = ground arith

read-FollowsClosed :
    (choice : Bool) (n : ℕ) (c : Connection)
    → c.is_closed ≡ true
    → FollowsClosed [] c (after_read c (read choice n c))
read-FollowsClosed choice n c h =
    subst (λ r. FollowsClosed [] c (after_read c r)) (sym (closed_read choice n c h))
      (h, sym (append-nil c.calls), ([], refl))

resume-FollowsClosed :
    (choice : Bool) (n : ℕ) (c : Connection)
    → IsSound c
    → c.is_closed ≡ true
    → FollowsClosed [] c (after_read c (resume choice n c))
resume-FollowsClosed choice n c v h =
    let (signal, e) = closed_resume choice n c v h in
    subst (λ r. FollowsClosed [] c (after_read c r)) (sym e)
      (taken-FollowsClosed c signal c.errors h refl)

closed_close :
    (c : Connection) → c.is_closed ≡ true → FollowsClosed (close_socket ∷ []) c (close c).1
unfolding close close_channels
closed_close c h =
    if_rule (λ d. FollowsClosed (close_socket ∷ []) c (log_call d close_socket)) c.is_closed c _
      (λ shut. (h, refl, ([], refl))) (λ o. absurd (ground arith))

closed_step :
    (grow : ℕ → ℕ → ℕ) (c : Connection) (e : Event)
    → IsSound c
    → c.is_closed ≡ true
    → FollowsClosed (closing_calls (e ∷ [])) c (step grow c e)
unfolding step on_message store_incoming_message store_error on_error on_close close_channels write
    close
closed_step grow c (message (array_buffer m)) v h =
    stays-FollowsClosed c (on_message grow c (array_buffer m)) h (ground arith)
closed_step grow c (message other_type) v h =
    stays-FollowsClosed c (on_message grow c other_type) h (ground arith)
closed_step grow c socket_error v h = stays-FollowsClosed c (on_error c) h (ground arith)
closed_step grow c socket_close v h = stays-FollowsClosed c (on_close c) h (ground arith)
closed_step grow c call_close v h = closed_close c h
closed_step grow c (call_read choice n) v h =
    if_rule (FollowsClosed [] c) c.is_reading c _ (λ held. stays-FollowsClosed c c h refl)
      (λ free. read-FollowsClosed choice n c h)
closed_step grow c (goes_on choice n) v h =
    if_rule (FollowsClosed [] c) c.is_reading (after_read c (resume choice n c)) c
      (λ held. resume-FollowsClosed choice n c v h) (λ free. stays-FollowsClosed c c h refl)
closed_step grow c (call_write panics p) v h =
    stays-FollowsClosed c (write panics c p).2 h (sym (ap (λ r. r.2) (closed_write panics c p h)))

follows-FollowsClosed :
    (some_calls more_calls : List JsCall) (c d e : Connection)
    → FollowsClosed some_calls c d
    → FollowsClosed more_calls d e
    → FollowsClosed (some_calls ++ more_calls) c e
follows-FollowsClosed some_calls more_calls c d e (h, k, (taken, t)) (h', k', (taken', t')) = (
  h',
  rw (k', k) (append_assoc c.calls some_calls more_calls),
  (taken ++ taken', rw (t, t') (sym (append_assoc taken taken' e.errors))),
)

closing_calls-cons :
    (e : Event) (es : List Event)
    → closing_calls (e ∷ []) ++ closing_calls es ≡ closing_calls (e ∷ es)
closing_calls-cons (message d) es = refl
closing_calls-cons socket_error es = refl
closing_calls-cons socket_close es = refl
closing_calls-cons call_close es = refl
closing_calls-cons (call_read choice n) es = refl
closing_calls-cons (goes_on choice n) es = refl
closing_calls-cons (call_write panics p) es = refl

run-FollowsClosed :
    (grow : ℕ → ℕ → ℕ) (es : List Event) (c : Connection)
    → IsSound c
    → c.is_closed ≡ true
    → FollowsClosed (closing_calls es) c (run grow c es) × IsSound (run grow c es)
unfolding run
run-FollowsClosed grow [] c v h = (stays-FollowsClosed c c h refl, v)
run-FollowsClosed grow (e ∷ es) c v h =
    let follows = closed_step grow c e v h in
    let (rest, sound) =
      run-FollowsClosed grow es (step grow c e) (step-IsSound grow c e v) follows.0 in
    (
      subst (λ calls. FollowsClosed calls c (run grow (step grow c e) es)) (closing_calls-cons e es)
          (follows-FollowsClosed (closing_calls (e ∷ [])) (closing_calls es) c (step grow c e)
            (run grow (step grow c e) es) follows rest),
      sound,
    )

-- What calls return on it: a write and a new read net.ErrClosed, a read that was waiting an error, all
-- without a byte.
abbrev pub RefusesAll : Connection → Type 0
RefusesAll d =
    ((panics : Bool) (p : List ℕ) → write panics d p ≡ (0, some err_closed, d))
    × ((choice : Bool) (n : ℕ)
        → (e : Connection) × (read choice n d ≡ some (returns [] (some err_closed) e)))
    × ((choice : Bool) (n : ℕ)
        → (x : BrowserError) × ((e : Connection) × (resume choice n d
              ≡ some (returns [] (some x) e))))

taken_error :
    (c : Connection) (errors : List BrowserError)
    → (x : BrowserError) × ((e : Connection) × (take_error c errors ≡ returns [] (some x) e))
taken_error c [] = (err_closed, (record c { is_reading = false }, refl))
taken_error c (x ∷ errors) = (x, (record c { errors = errors; is_reading = false }, refl))

closed-RefusesAll : (d : Connection) → IsSound d → d.is_closed ≡ true → RefusesAll d
closed-RefusesAll d v h = (
  λ panics p. closed_write panics d p h,
  λ choice n. (record d { is_reading = false }, closed_read choice n d h),
  λ choice n.
      let (signal, e) = closed_resume choice n d v h in
      let (x, (c, t)) = taken_error (with_signal d signal) d.errors in (x, (c, e ∙ ap some t)),
)

-- In every history, once the connection has closed it stays closed whatever comes next, queues nothing,
-- has no handlers, and does nothing to the socket but ask it to close once for each further close; its
-- pending errors are only taken; a write and a new read return net.ErrClosed and a read that was waiting
-- returns an error, all without a byte.
pub closed_stays :
    (grow : ℕ → ℕ → ℕ) (before after : List Event)
    → (run grow new_web_socket_conn before).is_closed ≡ true
    → let c = run grow new_web_socket_conn before in
      let d = run grow c after in
      FollowsClosed (closing_calls after) c d
      × (waiting d.queue ≡ [])
      × (d.has_handlers ≡ false)
      × RefusesAll d
closed_stays grow before after h =
    let c = run grow new_web_socket_conn before in
    let (follows, sound) = run-FollowsClosed grow after c (history-IsSound grow before) h in
    let d = run grow c after in
    (
      follows,
      closed_empty d sound follows.0,
      sound.detached ∙ ap not follows.0,
      closed-RefusesAll d sound follows.0,
    )
