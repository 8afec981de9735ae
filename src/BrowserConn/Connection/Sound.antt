-- ===== src/BrowserConn/Connection/Sound.antt =====
-- What stays true of a connection of pkg/wasm/dialer/websocket_conn.go, and that its callbacks and
-- the ends of a `Read` keep it.
use grpc_tunnel.Prelude.{
  ℕ, ◌≤◌, ◌≡◌, refl, ap, Bool, true, false, not, Option, none, some, List, [], ◌∷◌, ◌++◌, if_rule,
  length, length-append, ltb, arith, inl, inr, ◌⊎◌,
}
use grpc_tunnel.BrowserConn.{Queue, BrowserError, push, shift}
use grpc_tunnel.BrowserConn.Fifo.{
  waiting, total_bytes, IsValid, shift_refines, push_refines, empty_queue-IsValid,
}
use grpc_tunnel.BrowserConn.Connection.{
  Connection, new_web_socket_conn, EventData, array_buffer, other_type, ReadOutcome, returns, waits,
  deliver, take_error, error_capacity, store_error, close_channels, handle_overflow,
  store_incoming_message, on_message, log_call, stored, JsCall,
}
use grpc_tunnel.BrowserConn.Connection.Rule.{with_signal}

pub record IsSound (c : Connection) : Type 0 where
  pub valid : IsValid c.queue
  pub few_errors : length c.errors ≤ error_capacity
  pub ended : c.is_errors_closed ≡ c.is_closed
  pub detached : c.has_handlers ≡ not c.is_closed
  pub dropped : (c.is_closed ≡ false) ⊎ (waiting c.queue ≡ [])
  -- No wake-up is lost: a `Read` does not wait over a message without a signal.
  pub heard : (c.is_reading ≡ false) ⊎ ((c.message_signal ≡ true) ⊎ (waiting c.queue ≡ []))

pub new_web_socket_conn-IsSound : IsSound new_web_socket_conn
unfolding new_web_socket_conn
new_web_socket_conn-IsSound = record {
  valid = empty_queue-IsValid;
  few_errors = omega arith;
  ended = refl;
  detached = refl;
  dropped = inl refl;
  heard = inl refl;
}

pub store_error-IsSound :
    (c : Connection) (e : BrowserError) → IsSound c → IsSound (store_error c e)
unfolding store_error
store_error-IsSound c e v =
    if_rule IsSound c.is_closed c _ (λ shut. v)
      λ o.
        if_rule IsSound (ltb (length c.errors) error_capacity)
          (record c { errors = c.errors ++ e ∷ [] }) c
          (λ room. record {
            valid = v.valid;
            few_errors = ground (arith, length-append c.errors (e ∷ []));
            ended = v.ended;
            detached = v.detached;
            dropped = v.dropped;
            heard = v.heard;
          })
          (λ full. v)

pub close_channels-IsSound : (c : Connection) → IsSound c → IsSound (close_channels c)
unfolding close_channels total_bytes
close_channels-IsSound c v =
    if_rule IsSound c.is_closed c _ (λ shut. v)
      λ o. record {
        valid = omega arith;
        few_errors = v.few_errors;
        ended = refl;
        detached = refl;
        dropped = inr refl;
        heard = inr (inr refl);
      }

-- The log is no part of what `IsSound` reads.
pub log_call-IsSound : (c : Connection) (call : JsCall) → IsSound c → IsSound (log_call c call)
log_call-IsSound c call v = record {
  valid = v.valid;
  few_errors = v.few_errors;
  ended = v.ended;
  detached = v.detached;
  dropped = v.dropped;
  heard = v.heard;
}

pub handle_overflow-IsSound :
    (c : Connection) (a b m : ℕ) → IsSound c → IsSound (handle_overflow c a b m)
unfolding handle_overflow
handle_overflow-IsSound c a b m v =
    log_call-IsSound _ _ (close_channels-IsSound _ (store_error-IsSound c _ v))

pub stored-IsSound :
    (grow : ℕ → ℕ → ℕ) (c : Connection) (m : List ℕ) (r : Option Queue)
    → c.is_closed ≡ false
    → push grow c.queue m ≡ r
    → IsSound c
    → IsSound (stored c m r)
stored-IsSound grow c m none o h v = handle_overflow-IsSound c _ _ _ v
stored-IsSound grow c m (some q) o h v = record {
  valid = (push_refines grow c.queue q m v.valid h).1;
  few_errors = v.few_errors;
  ended = v.ended;
  detached = v.detached;
  dropped = inl o;
  heard = inr (inl refl);
}

pub on_message-IsSound :
    (grow : ℕ → ℕ → ℕ) (c : Connection) (d : EventData) → IsSound c → IsSound (on_message grow c d)
unfolding on_message store_incoming_message
on_message-IsSound grow c other_type v = store_error-IsSound c _ v
on_message-IsSound grow c (array_buffer m) v =
    if_rule IsSound c.is_closed c _ (λ shut. v)
      λ o. stored-IsSound grow c m (push grow c.queue m) o refl v

-- The connection that an outcome leaves.
abbrev pub after_outcome : ReadOutcome → Connection
after_outcome (returns bs e c) = c
after_outcome (waits c) = c

-- Taking a message out keeps what `IsSound` reads of the rest.
pub deliver-IsSound :
    (c : Connection) (signal : Bool) (n : ℕ) (m : List ℕ) (q : Queue)
    → IsSound c
    → shift c.queue ≡ some (m, q)
    → IsSound (after_outcome (deliver n (with_signal c signal) (m, q)))
deliver-IsSound c signal n m q v h = record {
  valid = (shift_refines c.queue q m v.valid h).1;
  few_errors = v.few_errors;
  ended = v.ended;
  detached = v.detached;
  dropped = ground (arith, v.dropped, (shift_refines c.queue q m v.valid h).0);
  heard = inl refl;
}

pub take_error-IsSound :
    (c : Connection) (signal : Bool) (es : List BrowserError)
    → c.errors ≡ es
    → IsSound c
    → IsSound (after_outcome (take_error (with_signal c signal) es))
take_error-IsSound c signal [] h v = record {
  valid = v.valid;
  few_errors = v.few_errors;
  ended = v.ended;
  detached = v.detached;
  dropped = v.dropped;
  heard = inl refl;
}
take_error-IsSound c signal (e ∷ es) h v = record {
  valid = v.valid;
  few_errors = omega (arith, v.few_errors, ap length h);
  ended = v.ended;
  detached = v.detached;
  dropped = v.dropped;
  heard = inl refl;
}
