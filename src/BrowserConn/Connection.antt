-- ===== src/BrowserConn/Connection.antt =====
-- The connection of pkg/wasm/dialer/websocket_conn.go over its queue. A browser runs one callback or
-- goroutine at a time, so each operation is one step; a `Read` that has to wait holds `readMu` and
-- goes on at its `select` after a later step. The JavaScript socket is outside: its calls are logged.
pub mod Rule
pub mod Reading
pub mod Waking
pub mod Ending
pub mod Total
pub mod Sound
pub mod History
pub mod Closed
pub mod Tests
use grpc_tunnel.Prelude.{
  ℕ, zero, suc, ◌+◌, Bool, true, false, ◌&&◌, ◌||◌, not, Option, none, some, List, [], ◌∷◌, ◌++◌,
  ltb, if◌then◌else◌, length, take, drop,
}
use grpc_tunnel.BrowserConn.{
  Queue, BrowserError, err_closed, unsupported_data, backlog_exceeded, write_failed, empty_queue,
  depth, push, shift,
}

-- What Go code does to the JavaScript socket.
pub data JsCall : Type 0 where
  detach_handlers : JsCall
  close_socket : JsCall
  send : List ℕ → JsCall

-- `browserWebSocketConnection`. `is_closed` is also whether `closeOnce` has run; `is_reading` is
-- whether a waiting `Read` holds `readMu`.
pub record Connection : Type 0 where
  pub queue : Queue
  pub read_buffer : List ℕ
  pub message_signal : Bool
  pub errors : List BrowserError
  pub is_errors_closed : Bool
  pub is_closed : Bool
  pub is_reading : Bool
  pub has_handlers : Bool
  pub calls : List JsCall

pub new_web_socket_conn : Connection
new_web_socket_conn = record {
  queue = empty_queue;
  read_buffer = [];
  message_signal = false;
  errors = [];
  is_errors_closed = false;
  is_closed = false;
  is_reading = false;
  has_handlers = true;
  calls = [];
}

-- `make(chan error, 4)`
abbrev pub error_capacity : ℕ
error_capacity = 4

-- `storeConnectionError`: an error that finds the channel full is dropped.
pub store_error : Connection → BrowserError → Connection
store_error c e =
    if c.is_closed
    then c
    else if ltb (length c.errors) error_capacity
    then record c { errors = c.errors ++ e ∷ [] }
    else c

-- `closeChannels`. The unread tail of a message is dropped unless a `Read` holds `readMu`.
pub close_channels : Connection → Connection
close_channels c = if c.is_closed then c else record c {
  queue = record { messages = []; cap = 0; bytes_size = 0; shift_start = 0 };
  read_buffer = if c.is_reading then c.read_buffer else [];
  is_errors_closed = true;
  is_closed = true;
  has_handlers = false;
  calls = c.calls ++ detach_handlers ∷ [];
}

abbrev pub log_call : Connection → JsCall → Connection
log_call c call = record c { calls = c.calls ++ call ∷ [] }

-- `handleConnectionQueueOverflow`
pub handle_overflow : Connection → ℕ → ℕ → ℕ → Connection
handle_overflow c queue_depth queue_bytes incoming =
    log_call
      (close_channels (store_error c (backlog_exceeded (queue_depth + 1) (queue_bytes + incoming))))
      close_socket

abbrev pub stored : Connection → List ℕ → Option Queue → Connection
stored c m none = handle_overflow c (depth c.queue) c.queue.bytes_size (length m)
stored c m (some q) = record c { queue = q; message_signal = true }

-- `storeIncomingMessage`
pub store_incoming_message : (ℕ → ℕ → ℕ) → Connection → List ℕ → Connection
store_incoming_message grow c m = if c.is_closed then c else stored c m (push grow c.queue m)

-- The data of a message event: an array buffer with its bytes, or a value of another type.
pub data EventData : Type 0 where
  array_buffer : List ℕ → EventData
  other_type : EventData

-- The callbacks that `NewWebSocketConn` installs.
pub on_message : (ℕ → ℕ → ℕ) → Connection → EventData → Connection
on_message grow c (array_buffer m) = store_incoming_message grow c m
on_message grow c other_type = store_error c unsupported_data

pub on_error : Connection → Connection
on_error c = store_error c err_closed

pub on_close : Connection → Connection
on_close c = close_channels c

-- What a `Read` comes to: it returns bytes and an error, or waits.
pub data ReadOutcome : Type 0 where
  returns : List ℕ → Option BrowserError → Connection → ReadOutcome
  waits : Connection → ReadOutcome

abbrev pub returned : List ℕ → Option BrowserError → Connection → ReadOutcome
returned bs e c = returns bs e (record c { is_reading = false })

-- `copy` of a queued message, whose tail is kept for the next `Read`.
abbrev pub deliver : ℕ → Connection → List ℕ × Queue → ReadOutcome
deliver n c (m, q) =
    returned (take n m) none
      (record c { queue = q; read_buffer = if ltb n (length m) then drop n m else c.read_buffer })

abbrev pub take_error : Connection → List BrowserError → ReadOutcome
take_error c [] = returned [] (some err_closed) c
take_error c (e ∷ es) = returned [] (some e) (record c { errors = es })

abbrev pub has_error : Connection → Bool
has_error c = ltb 0 (length c.errors) || c.is_errors_closed

-- The `select`: where both channels are ready, `choice` says whether the error is taken. `again` is
-- the next round of the loop, after the signal has been taken.
abbrev pub select : Bool → (Connection → Option ReadOutcome) → Connection → Option ReadOutcome
select choice again c =
    let next = again (record c { message_signal = false }) in
    if has_error c && (choice || not c.message_signal)
    then some (take_error c c.errors)
    else if c.message_signal
    then next
    else some (waits (record c { is_reading = true }))

abbrev pub drain :
    (Connection → Option ReadOutcome)
    → ℕ
    → Connection
    → Option (List ℕ × Queue)
    → Option ReadOutcome
drain wait n c none = wait c
drain wait n c (some (m, q)) = some (deliver n c (m, q))

-- The loop of `Read`; `none` means that the fuel ran out.
pub read_loop : Bool → ℕ → ℕ → Connection → Option ReadOutcome
read_loop choice zero n c = none
read_loop choice (suc fuel) n c =
    drain (select choice (λ c'. read_loop choice fuel n c')) n c (shift c.queue)

-- `Read` into a buffer of `n` bytes. Two rounds are enough for its loop.
abbrev pub read_buffered : Bool → ℕ → Connection → List ℕ → Option ReadOutcome
read_buffered choice n c [] = read_loop choice 2 n c
read_buffered choice n c (b ∷ bs) =
    some (returned (take n (b ∷ bs)) none (record c { read_buffer = drop n (b ∷ bs) }))

pub read : Bool → ℕ → Connection → Option ReadOutcome
read choice n c =
    if c.is_closed
    then some (returned [] (some err_closed) c)
    else read_buffered choice n c c.read_buffer

-- A waiting `Read` goes on at its `select`.
pub resume : Bool → ℕ → Connection → Option ReadOutcome
resume choice n c = select choice (λ c'. read_loop choice 2 n c') c

-- `Write`; `panics` is whether the JavaScript call throws.
pub write : Bool → Connection → List ℕ → ℕ × Option BrowserError × Connection
write panics c p =
    if c.is_closed
    then (0, some err_closed, c)
    else if panics
    then (0, some write_failed, c)
    else (length p, none, log_call c (send p))

pub close : Connection → Option BrowserError × Connection
close c = (none, log_call (close_channels c) close_socket)
