-- ===== src/BrowserConn/Connection/Ending.antt =====
-- The events that end a waiting `Read` of pkg/wasm/dialer/websocket_conn.go with an error.
use grpc_tunnel.Prelude.{
  ℕ, ◌+◌, ◌≡◌, refl, sym, ap, subst, ◌∙◌, Bool, true, false, Option, none, some, List, [], ◌∷◌,
  ◌++◌, length, arith,
}
use grpc_tunnel.BrowserConn.{
  BrowserError, err_closed, unsupported_data, backlog_exceeded, push, depth,
}
use grpc_tunnel.BrowserConn.Connection.{
  JsCall, close_socket, Connection, array_buffer, other_type, ReadOutcome, returns, take_error,
  resume, store_error, close_channels, handle_overflow, store_incoming_message, on_message,
  on_error, on_close, close,
}
use grpc_tunnel.BrowserConn.Connection.Waking.{IsWaiting}

-- A `Read` that returns an error and no byte.
abbrev pub Fails : Option ReadOutcome → BrowserError → Type 0
Fails out e = (c' : Connection) × (out ≡ some (returns [] (some e) c'))

take_first :
    (c : Connection) (xs : List BrowserError) (e : BrowserError) (es : List BrowserError)
    → xs ≡ e ∷ es
    → take_error c xs ≡ returns [] (some e) (record c { errors = es; is_reading = false })
take_first c xs e es h = rw h

-- The error that an event leaves for a waiting `Read`, beside the closed channel where it closes.
resume_fails :
    (choice : Bool) (n : ℕ) (c : Connection) (e : BrowserError) (es : List BrowserError)
    → c.errors ≡ e ∷ es
    → c.message_signal ≡ false
    → resume choice n c ≡ some (returns [] (some e) (record c { errors = es; is_reading = false }))
unfolding resume
resume_fails choice n c e es h quiet = ground (arith, take_first c c.errors e es h)

resume_ends :
    (choice : Bool) (n : ℕ) (c : Connection)
    → c.errors ≡ []
    → c.is_errors_closed ≡ true
    → c.message_signal ≡ false
    → resume choice n c ≡ some (returns [] (some err_closed) (record c { is_reading = false }))
unfolding resume
resume_ends choice n c h e quiet = rw (h, e, quiet) (ground arith)

store_error-open :
    (c : Connection) (e : BrowserError)
    → IsWaiting c
    → store_error c e ≡ record c { errors = e ∷ [] }
unfolding store_error
store_error-open c e w = ground (arith, w.opened, w.no_error)

overflow_lem :
    (grow : ℕ → ℕ → ℕ) (c : Connection) (m : List ℕ)
    → c.is_closed ≡ false
    → push grow c.queue m ≡ none
    → store_incoming_message grow c m
      ≡ handle_overflow c (depth c.queue) c.queue.bytes_size (length m)
unfolding store_incoming_message
overflow_lem grow c m o h = rw (o, h)

-- What closing leaves of the channels of a connection that is open.
close_channels-open :
    (c : Connection)
    → c.is_closed ≡ false
    → ((close_channels c).errors ≡ c.errors)
      × ((close_channels c).is_errors_closed ≡ true)
      × ((close_channels c).message_signal ≡ c.message_signal)
unfolding close_channels
close_channels-open c o = rw o (refl, refl, refl)

module _ (choice : Bool) (n : ℕ) where
  store_error-Fails :
      (c : Connection) (e : BrowserError)
      → IsWaiting c
      → Fails (resume choice n (store_error c e)) e
  store_error-Fails c e w = (
    _,
    ap (resume choice n) (store_error-open c e w)
        ∙ resume_fails choice n (record c { errors = e ∷ [] }) e [] refl w.quiet,
  )

  -- A log entry is no channel, so `calls` is any.
  closed-Fails :
      (c : Connection) (call : List JsCall)
      → IsWaiting c
      → Fails (resume choice n (record (close_channels c) { calls = call })) err_closed
  closed-Fails c call w =
      let left = close_channels-open c w.opened in
      (
        _,
        resume_ends choice n (record (close_channels c) { calls = call }) (left.0 ∙ w.no_error)
            left.1 (left.2 ∙ w.quiet),
      )

  overflow-Fails :
      (c : Connection) (queue_depth queue_bytes incoming : ℕ)
      → IsWaiting c
      → Fails
          (resume choice n (handle_overflow c queue_depth queue_bytes incoming))
          (backlog_exceeded (queue_depth + 1) (queue_bytes + incoming))
  unfolding handle_overflow
  overflow-Fails c queue_depth queue_bytes incoming w =
      let s = store_error c (backlog_exceeded (queue_depth + 1) (queue_bytes + incoming)) in
      let same =
        store_error-open c (backlog_exceeded (queue_depth + 1) (queue_bytes + incoming)) w in
      let left = close_channels-open s (ap (λ d. d.is_closed) same ∙ w.opened) in
      (
        _,
        resume_fails choice n
            (record (close_channels s) { calls = (close_channels s).calls ++ close_socket ∷ [] })
            (backlog_exceeded (queue_depth + 1) (queue_bytes + incoming)) []
            (left.0 ∙ ap (λ d. d.errors) same)
            (left.2 ∙ (ap (λ d. d.message_signal) same ∙ w.quiet)),
      )

-- Every other event wakes it too, with the error that belongs to the event: a message of a wrong
-- type, a socket error, a close from the other side, a close from this side, and a message that
-- does not fit, which also closes the connection.
pub event_wakes :
    (grow : ℕ → ℕ → ℕ) (choice : Bool) (n : ℕ) (c : Connection) (m : List ℕ)
    → IsWaiting c
    → push grow c.queue m ≡ none
    → Fails (resume choice n (on_message grow c other_type)) unsupported_data
      × Fails (resume choice n (on_error c)) err_closed
      × Fails (resume choice n (on_close c)) err_closed
      × Fails (resume choice n (close c).1) err_closed
      × Fails
          (resume choice n (on_message grow c (array_buffer m)))
          (backlog_exceeded (depth c.queue + 1) (c.queue.bytes_size + length m))
unfolding on_message on_error on_close close
event_wakes grow choice n c m w h = (
  store_error-Fails choice n c unsupported_data w,
  store_error-Fails choice n c err_closed w,
  closed-Fails choice n c (close_channels c).calls w,
  closed-Fails choice n c ((close_channels c).calls ++ close_socket ∷ []) w,
  subst
      (λ s.
        Fails (resume choice n s)
          (backlog_exceeded (depth c.queue + 1) (c.queue.bytes_size + length m)))
      (sym (overflow_lem grow c m w.opened h))
      (overflow-Fails choice n c (depth c.queue) c.queue.bytes_size (length m) w),
)
