-- ===== src/BrowserConn.antt =====
-- pkg/wasm/dialer/websocket_conn.go: the adapter that makes a byte stream of a browser's WebSocket.
-- Callbacks queue whole messages, and readers take them out. The growth of Go's `append` is a
-- parameter: from the old capacity and the length that is needed, the new capacity.
pub mod Fifo
pub mod Refine
pub mod Connection
use grpc_tunnel.Prelude.{
  ℕ, zero, suc, ◌+◌, ◌-◌, ◌*◌, ◌/◌, Bool, true, false, ◌&&◌, ◌||◌, Option, none, some, List, [],
  ◌∷◌, ◌++◌, ltb, leb, ◌==◌, if◌then◌else◌, length, get_or, set, take, drop, is_none,
}

abbrev pub limit_queued_messages : ℕ
limit_queued_messages = 256

abbrev pub limit_queued_bytes : ℕ
limit_queued_bytes = 16 * 1_048_576

-- The errors that the adapter puts in its channel or returns.
pub data BrowserError : Type 0 where
  err_closed : BrowserError
  unsupported_data : BrowserError
  backlog_exceeded : ℕ → ℕ → BrowserError
  write_failed : BrowserError

-- The fields under `queueMu`. A slot whose message has been taken out holds nil, the empty list.
pub record Queue : Type 0 where
  pub messages : List (List ℕ)
  pub cap : ℕ
  pub bytes_size : ℕ
  pub shift_start : ℕ

-- What a new adapter starts with: `make([][]byte, 0, 8)`.
abbrev pub empty_queue : Queue
empty_queue = record { messages = []; cap = 8; bytes_size = 0; shift_start = 0 }

abbrev pub depth : Queue → ℕ
depth q = length q.messages - q.shift_start

-- `copy` moves the tail to the front, the rest is cut off.
abbrev compact : Queue → Queue
compact q = record q { messages = drop q.shift_start q.messages; shift_start = 0 }

-- `clearQueuedMessagesHeadLocked`
pub clear_head : Queue → Queue
clear_head q =
    if q.shift_start == 0
    then q
    else if ltb q.shift_start (length q.messages / 2) && ltb (length q.messages) q.cap
    then q
    else compact q

abbrev pub would_overflow : Queue → List ℕ → Bool
would_overflow q m =
    leb limit_queued_messages (depth q)
    || ltb limit_queued_bytes (length m)
    || ltb (limit_queued_bytes - length m) q.bytes_size

abbrev pub append_message : (ℕ → ℕ → ℕ) → Queue → List ℕ → Queue
append_message grow q m = record q {
  messages = q.messages ++ m ∷ [];
  cap = if leb (length q.messages + 1) q.cap then q.cap else grow q.cap (length q.messages + 1);
  bytes_size = q.bytes_size + length m;
}

-- The locked part of `storeIncomingMessage`; `none` is the overflow.
pub push : (ℕ → ℕ → ℕ) → Queue → List ℕ → Option Queue
push grow q m = if would_overflow q m then none else some (append_message grow (clear_head q) m)

-- `shiftQueuedMessage` at a position in range. `-` stops at 0, as the source's correction of a
-- negative size does.
abbrev pub shifted : Queue → List ℕ → Queue
shifted q m = record q {
  messages = set q.messages q.shift_start [];
  bytes_size = q.bytes_size - length m;
  shift_start = q.shift_start + 1;
}

abbrev pub settle : Queue → Queue
settle q =
    if leb (length q.messages) q.shift_start
    then record q { messages = []; shift_start = 0 }
    else clear_head q

-- `shiftQueuedMessage`
pub shift : Queue → Option (List ℕ × Queue)
shift q =
    if leb (length q.messages) q.shift_start
    then none
    else (let m = get_or q.messages q.shift_start [] in some (m, settle (shifted q m)))
