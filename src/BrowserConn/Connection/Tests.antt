-- ===== src/BrowserConn/Connection/Tests.antt =====
-- The browser's connection of pkg/wasm/dialer/websocket_conn.go at concrete messages and reads.
use grpc_tunnel.Prelude.{
  ℕ, zero, suc, ◌+◌, ◌<◌, ◌≡◌, ap, sym, subst, inr, refl, true, false, none, some, List, [], ◌∷◌,
  arith, length,
}
use grpc_tunnel.BrowserConn.{
  Queue, empty_queue, push, shift, clear_head, err_closed, unsupported_data, backlog_exceeded,
  limit_queued_bytes,
}
use grpc_tunnel.BrowserConn.Fifo.{IsValid, total_bytes, empty_queue-IsValid, waiting, push_refuses}
use grpc_tunnel.BrowserConn.Refine.{
  Op, put, get, run, spec_run, run_refines, stored, taken, nothing,
}
use grpc_tunnel.BrowserConn.Connection.{
  Connection, close_channels, store_error, new_web_socket_conn, ReadOutcome, returns, waits, read,
  read_loop, resume, on_message, on_error, on_close, close, write, array_buffer, other_type,
  store_incoming_message, close_socket,
}
use grpc_tunnel.BrowserConn.Connection.Reading.{Owes, read-Owes}
use grpc_tunnel.BrowserConn.Connection.Total.{read_terminates}
use grpc_tunnel.BrowserConn.Connection.Waking.{IsWaiting, read_waits, message_wakes}
use grpc_tunnel.BrowserConn.Connection.Ending.{Fails, event_wakes}
use grpc_tunnel.BrowserConn.Connection.Sound.{IsSound}
use grpc_tunnel.BrowserConn.Connection.Closed.{FollowsClosed, RefusesAll, closed_stays}
use grpc_tunnel.BrowserConn.Connection.History.{
  Event, message, socket_error, socket_close, call_close, call_read, goes_on, call_write,
  history-IsSound,
}
use grpc_tunnel.BrowserConn.Connection.History

-- Go's growth of a slice, where twice the capacity is room enough.
abbrev doubled : ℕ → ℕ → ℕ
doubled old needed = old + old + needed

abbrev ops : List Op
ops = put (1 ∷ 2 ∷ []) ∷ get ∷ get ∷ put [] ∷ []

ops_replies : run doubled empty_queue ops ≡ stored ∷ taken (1 ∷ 2 ∷ []) ∷ nothing ∷ stored ∷ []
unfolding run push shift clear_head
ops_replies = refl

run_refines_example : run doubled empty_queue ops ≡ spec_run (waiting empty_queue) ops
run_refines_example = run_refines doubled ops empty_queue empty_queue-IsValid

-- A message of three bytes has come in.
abbrev loaded : Connection
loaded = record {
  queue = record { messages = (1 ∷ 2 ∷ 3 ∷ []) ∷ []; cap = 8; bytes_size = 3; shift_start = 0 };
  read_buffer = [];
  message_signal = true;
  errors = [];
  is_errors_closed = false;
  is_closed = false;
  is_reading = false;
  has_handlers = true;
  calls = [];
}

comes_in : on_message doubled new_web_socket_conn (array_buffer (1 ∷ 2 ∷ 3 ∷ [])) ≡ loaded
unfolding on_message store_incoming_message new_web_socket_conn push clear_head
comes_in = refl

-- Two bytes of it have been read.
abbrev half_read : Connection
half_read = record loaded {
  queue = record { messages = []; cap = 8; bytes_size = 0; shift_start = 0 };
  read_buffer = 3 ∷ [];
}

reads_half : read false 2 loaded ≡ some (returns (1 ∷ 2 ∷ []) none half_read)
unfolding read read_loop shift
reads_half = refl

loaded-IsValid : IsValid loaded.queue
unfolding total_bytes
loaded-IsValid = record {
  start_in = omega arith;
  bytes_counted = refl;
  few = omega arith;
  small = omega arith;
}

read-Owes_example : Owes loaded 2 (returns (1 ∷ 2 ∷ []) none half_read)
read-Owes_example =
    read-Owes false 2 loaded (returns (1 ∷ 2 ∷ []) none half_read) loaded-IsValid reads_half

read_terminates_example : (out : ReadOutcome) × (read true 2 loaded ≡ some out)
read_terminates_example = read_terminates true 2 loaded

abbrev sleeping : Connection
sleeping = record {
  queue = empty_queue;
  read_buffer = [];
  message_signal = false;
  errors = [];
  is_errors_closed = false;
  is_closed = false;
  is_reading = true;
  has_handlers = true;
  calls = [];
}

falls_asleep : read true 2 new_web_socket_conn ≡ some (waits sleeping)
unfolding read read_loop shift new_web_socket_conn
falls_asleep = refl

both_open : new_web_socket_conn.is_errors_closed ≡ new_web_socket_conn.is_closed
unfolding new_web_socket_conn
both_open = refl

fresh_queue : IsValid new_web_socket_conn.queue
unfolding new_web_socket_conn
fresh_queue = empty_queue-IsValid

read_waits_example : IsWaiting sleeping
read_waits_example =
    read_waits true 2 new_web_socket_conn sleeping both_open fresh_queue falls_asleep

abbrev one_queued : Queue
one_queued = record { messages = (5 ∷ 6 ∷ []) ∷ []; cap = 8; bytes_size = 2; shift_start = 0 }

fits : push doubled sleeping.queue (5 ∷ 6 ∷ []) ≡ some one_queued
unfolding push clear_head
fits = refl

message_wakes_example :
    (c : Connection) × (resume false 1 (on_message doubled sleeping (array_buffer (5 ∷ 6 ∷ [])))
      ≡ some (returns (5 ∷ []) none c))
message_wakes_example =
    message_wakes doubled false 1 sleeping (5 ∷ 6 ∷ []) one_queued read_waits_example fits

-- All that can happen to a connection, once each.
abbrev events : List Event
events =
    call_read true 4
    ∷ message (array_buffer (1 ∷ 2 ∷ 3 ∷ []))
    ∷ goes_on true 4
    ∷ call_write false (9 ∷ [])
    ∷ message other_type
    ∷ socket_error
    ∷ call_close
    ∷ socket_close
    ∷ []

history-IsSound_example : IsSound (History.run doubled new_web_socket_conn events)
history-IsSound_example = history-IsSound doubled events

events_closed : (History.run doubled new_web_socket_conn events).is_closed ≡ true
unfolding History.run History.step on_close close_channels close on_error store_error on_message
    write store_incoming_message new_web_socket_conn read read_loop shift push resume clear_head
events_closed = refl

closed_stays_example :
    let c = History.run doubled new_web_socket_conn events in
    let d = History.run doubled c events in
    FollowsClosed (close_socket ∷ []) c d
    × (waiting d.queue ≡ [])
    × (d.has_handlers ≡ false)
    × RefusesAll d
closed_stays_example = closed_stays doubled events events events_closed

unfoldable replicate : ℕ → ℕ → List ℕ
replicate zero x = []
replicate (suc n) x = x ∷ replicate n x

length-replicate : (n x : ℕ) → length (replicate n x) ≡ n
unfolding replicate
length-replicate zero x = refl
length-replicate (suc n) x = ap suc (length-replicate n x)

-- A message that is one byte longer than the limit.
unfoldable huge : List ℕ
huge = replicate (limit_queued_bytes + 1) 0

too_big : push doubled sleeping.queue huge ≡ none
unfolding huge total_bytes
too_big = (push_refuses doubled sleeping.queue huge empty_queue-IsValid).1 (
    inr (
      subst (λ n. limit_queued_bytes < 0 + n) (sym (length-replicate (limit_queued_bytes + 1) 0))
        (omega arith)))

event_wakes_example :
    Fails (resume true 4 (on_message doubled sleeping other_type)) unsupported_data
    × Fails (resume true 4 (on_error sleeping)) err_closed
    × Fails (resume true 4 (on_close sleeping)) err_closed
    × Fails (resume true 4 (close sleeping).1) err_closed
    × Fails
        (resume true 4 (on_message doubled sleeping (array_buffer huge)))
        (backlog_exceeded 1 (0 + length huge))
event_wakes_example = event_wakes doubled true 4 sleeping huge read_waits_example too_big
