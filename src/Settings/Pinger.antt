-- ===== src/Settings/Pinger.antt =====
-- The goroutine of applyHandlerConnectionSettings and applyBridgeConnectionSettings that pings.
use grpc_tunnel.Prelude.{
  ℕ, suc, ◌≡◌, refl, ap, if◌then◌else◌, Bool, true, false, List, [], ◌∷◌, ◌++◌,
}

-- What its `select` can receive: a tick, with whether the ping is written, or the stop channel.
pub data PingEvent : Type 0 where
  tick : Bool → PingEvent
  stop : PingEvent

pub data PingAction : Type 0 where
  ping : PingAction
  close_socket : PingAction

-- The loop over the events; the actions, and whether the goroutine has ended.
pub run_pinger : List PingEvent → List PingAction × Bool
run_pinger [] = ([], false)
run_pinger (tick true ∷ es) = let (as', done) = run_pinger es in (ping ∷ as', done)
run_pinger (tick false ∷ es) = (ping ∷ close_socket ∷ [], true)
run_pinger (stop ∷ es) = ([], true)

pub count_closes : List PingAction → ℕ
count_closes [] = 0
count_closes (ping ∷ as') = count_closes as'
count_closes (close_socket ∷ as') = suc (count_closes as')

pub has_failed_tick : List PingEvent → Bool
has_failed_tick [] = false
has_failed_tick (tick true ∷ es) = has_failed_tick es
has_failed_tick (tick false ∷ es) = true
has_failed_tick (stop ∷ es) = false

-- The pinger closes the socket at most once, and only after a ping that fails before it is stopped.
pub run_pinger_closes :
    (es : List PingEvent) → count_closes (run_pinger es).0 ≡ (if has_failed_tick es then 1 else 0)
unfolding run_pinger count_closes has_failed_tick
run_pinger_closes [] = refl
run_pinger_closes (tick true ∷ es) = run_pinger_closes es
run_pinger_closes (tick false ∷ es) = refl
run_pinger_closes (stop ∷ es) = refl

-- Once it has ended, later events have no effect.
pub run_pinger_ended :
    (es fs : List PingEvent) → (run_pinger es).1 ≡ true → run_pinger (es ++ fs) ≡ run_pinger es
unfolding run_pinger
run_pinger_ended [] fs h = cc
run_pinger_ended (tick true ∷ es) fs h = ap (λ r. (ping ∷ r.0, r.1)) (run_pinger_ended es fs h)
run_pinger_ended (tick false ∷ es) fs h = refl
run_pinger_ended (stop ∷ es) fs h = refl
