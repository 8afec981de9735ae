-- ===== src/Dialer/Ready.antt =====
-- That a dial of pkg/wasm/dialer/dialer.go leaves its select once an event came or the context is done,
-- and that nothing happens to it after its return.
use grpc_tunnel.Prelude.{◌≡◌, refl, ◌∙◌, sym, subst, true, some, List, ◌⊎◌, inl, inr, arith}
use grpc_tunnel.Prelude.Text.{Text}
use grpc_tunnel.Dialer.{
  BrowserState, DialCall, ContextError, selecting, Dial, start_calls, receive_open, receive_error,
  receive_done, DialStep, opened, erred, ended, select_open, select_error, select_done,
}
use grpc_tunnel.Dialer.Settled.{
  Seen, earliest, DialReach, IsDialing, IsDetached, not-selecting, DialReach-IsSettled,
}

-- Something that the select waits for.
abbrev pub IsDue : Seen → Dial → Type 0
IsDue s d =
    (s.has_opened ≡ true)
    ⊎ (((text : Text) × (earliest s.errors ≡ some text))
        ⊎ ((e : ContextError) × (d.context_error ≡ some e)))

-- A step out of the select.
abbrev pub Leaves : Dial → Type 0
Leaves d = (n : Dial) × DialStep d n × IsDetached n

IsDialing-Leaves :
    (calls : List DialCall) (s : Seen) (d : Dial) → IsDialing calls s d → IsDue s d → Leaves d
IsDialing-Leaves calls s d (p, o, r, os, es, cs) (inl h) = (
  receive_open d,
  select_open p (os ∙ h) (refl {a = receive_open d}),
  unfold receive_open in (refl, refl),
)
IsDialing-Leaves calls s d (p, o, r, os, es, cs) (inr (inl (text, h))) = (
  receive_error text d,
  select_error text p (es ∙ h) (refl {a = receive_error text d}),
  unfold receive_error in (refl, refl),
)
IsDialing-Leaves calls s d (p, o, r, os, es, cs) (inr (inr (e, h))) = (
  receive_done e d,
  select_done e p h (refl {a = receive_done e d}),
  unfold receive_done in (refl, refl),
)

-- In every history of a dial that still selects, once the socket has opened, an error event came or the
-- context is done, there is a step that returns.
pub DialReach-Leaves :
    (b : BrowserState) (url : Text) (protocols : List Text) (s : Seen) (d : Dial)
    → DialReach b url protocols s d
    → d.phase ≡ selecting
    → IsDue s d
    → Leaves d
DialReach-Leaves b url protocols s d reach p due =
    elim (DialReach-IsSettled b url protocols s d reach) [
      | inl dialing ↦ IsDialing-Leaves (start_calls url protocols) s d dialing due
      | inr (detached, returned) ↦
          absurd (not-selecting b (start_calls url protocols) s d returned p)
    ]

abbrev pub SameDial : Dial → Dial → Type 0
SameDial d n = (n.phase ≡ d.phase) × (n.calls ≡ d.calls) × IsDetached n

detached_step :
    (d n : Dial) → IsDetached d → (d.phase ≡ selecting → ⊥) → DialStep d n → SameDial d n
detached_step d n (o, r) left (opened h e) = absurd (ground arith)
detached_step d n (o, r) left (erred w h e) = absurd (ground arith)
detached_step d n (o, r) left (ended x h e) = subst (SameDial d) (sym e) (refl, refl, (o, r))
detached_step d n (o, r) left (select_open h k e) = absurd (left h)
detached_step d n (o, r) left (select_error t h k e) = absurd (left h)
detached_step d n (o, r) left (select_done x h k e) = absurd (left h)

-- In every history of a dial that has left its select, a further step changes neither how it has
-- returned nor what was done to the socket, and attaches no handler.
pub DialReach-SameDial :
    (b : BrowserState) (url : Text) (protocols : List Text) (s : Seen) (d n : Dial)
    → DialReach b url protocols s d
    → (d.phase ≡ selecting → ⊥)
    → DialStep d n
    → SameDial d n
DialReach-SameDial b url protocols s d n reach left step =
    elim (DialReach-IsSettled b url protocols s d reach) [
      | inl dialing ↦ absurd (left dialing.0)
      | inr (detached, returned) ↦ detached_step d n detached left step
    ]
