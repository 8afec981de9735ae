-- ===== src/Dialer/Settled.antt =====
-- What a dial of pkg/wasm/dialer/dialer.go comes to, in every order of callbacks, of the context's end
-- and of the choices of its select.
use grpc_tunnel.Prelude.{
  ◌≡◌, refl, sym, subst, Bool, true, false, Option, none, some, List, [], ◌∷◌, ◌++◌, ◌⊎◌, inl, inr,
  arith, Bool-cases,
}
use grpc_tunnel.Prelude.Text.{Text}
use grpc_tunnel.Dialer.{
  BrowserState, build_dialer_environment_state, DialCall, detach_open, detach_error, shut_socket,
  install_connection, drop_error_handler, drop_open_handler, ContextError, DialError,
  web_socket_missing, unavailable, context_done, selecting, dialed, refused, Dial, start_calls,
  begin_dial, on_dial_open, sent_error, on_dial_error, receive_open, receive_error, receive_done,
  DialStep, opened, erred, ended, select_open, select_error, select_done,
}

-- The events that reached the callbacks.
pub record Seen : Type 0 where
  pub has_opened : Bool
  pub errors : List Text

abbrev pub earliest : List Text → Option Text
earliest [] = none
earliest (text ∷ errors) = some text

abbrev pub seen_after : {d n : Dial} → Seen → DialStep d n → Seen
seen_after s (opened h e) = record s { has_opened = true }
seen_after s (erred b h e) = record s { errors = s.errors ++ build_dialer_environment_state b ∷ [] }
seen_after s (ended x h e) = s
seen_after s (select_open h r e) = s
seen_after s (select_error t h r e) = s
seen_after s (select_done x h r e) = s

abbrev pub nothing_seen : Seen
nothing_seen = record { has_opened = false; errors = [] }

-- The histories of a dial.
pub data DialReach (b : BrowserState) (url : Text) (protocols : List Text)
    : Seen → Dial → Type 0 where
  start :
      {d : Dial} {s : Seen} (before : Option ContextError)
      → d ≡ begin_dial b url protocols before
      → s ≡ nothing_seen
      → DialReach b url protocols s d
  next :
      {d n : Dial} {s t : Seen}
      → DialReach b url protocols s d
      → (step : DialStep d n) → t ≡ seen_after s step
      → DialReach b url protocols t n

-- The reason for an error: the first error event that came while dialing, or the end of the context.
abbrev pub Caused : Seen → Dial → DialError → Type 0
Caused s d (unavailable text) = earliest s.errors ≡ some text
Caused s d (context_done e) = d.context_error ≡ some e
Caused s d web_socket_missing = ⊥

abbrev pub last_calls : DialCall → List DialCall
last_calls last = detach_open ∷ detach_error ∷ last ∷ drop_error_handler ∷ drop_open_handler ∷ []

-- Still dialing: the handlers are attached and the channels hold what was seen first.
abbrev pub IsDialing : List DialCall → Seen → Dial → Type 0
IsDialing calls s d =
    (d.phase ≡ selecting)
    × (d.has_open_handler ≡ true)
    × (d.has_error_handler ≡ true)
    × (d.opens ≡ s.has_opened)
    × (d.error ≡ earliest s.errors)
    × (d.calls ≡ calls)

-- Dialed: the socket opened, its temporary handlers are gone and the connection is installed.
abbrev pub HasDialed : List DialCall → Seen → Dial → Type 0
HasDialed calls s d =
    (d.phase ≡ dialed) × (s.has_opened ≡ true) × (d.calls ≡ calls ++ last_calls install_connection)

-- Refused: the socket is closed, and the error has its reason.
abbrev pub HasFailed : List DialCall → Seen → Dial → Type 0
HasFailed calls s d =
    (e : DialError) × (d.phase ≡ refused e)
    × Caused s d e
    × (d.calls ≡ calls ++ last_calls shut_socket)

abbrev pub IsDetached : Dial → Type 0
IsDetached d = (d.has_open_handler ≡ false) × (d.has_error_handler ≡ false)

-- Without a WebSocket nothing is done.
abbrev pub IsMissing : BrowserState → Dial → Type 0
IsMissing b d = (b.has_web_socket ≡ false) × (d.phase ≡ refused web_socket_missing) × (d.calls ≡ [])

abbrev pub IsSettled : BrowserState → List DialCall → Seen → Dial → Type 0
IsSettled b calls s d =
    IsDialing calls s d
    ⊎ (IsDetached d × (HasDialed calls s d ⊎ (HasFailed calls s d ⊎ IsMissing b d)))

sent_error-first :
    (errors : List Text) (text : Text)
    → sent_error (earliest errors) text ≡ earliest (errors ++ text ∷ [])
sent_error-first [] text = refl
sent_error-first (first ∷ errors) text = refl

dialing-IsSettled :
    (b : BrowserState) (calls : List DialCall) (s : Seen) (d n : Dial)
    → IsDialing calls s d
    → (step : DialStep d n) → IsSettled b calls (seen_after s step) n
dialing-IsSettled b calls s d n (p, o, r, os, es, cs) (opened h e) =
    subst (IsSettled b calls (record s { has_opened = true })) (sym e)
      (unfold on_dial_open in inl (p, o, r, refl, es, cs))
dialing-IsSettled b calls s d n (p, o, r, os, es, cs) (erred w h e) =
    let text = build_dialer_environment_state w in
    subst (IsSettled b calls (record s { errors = s.errors ++ text ∷ [] })) (sym e)
      (unfold on_dial_error in inl (p, o, r, os, rw es (sent_error-first s.errors text), cs))
dialing-IsSettled b calls s d n (p, o, r, os, es, cs) (ended x h e) =
    subst (IsSettled b calls s) (sym e) (inl (p, o, r, os, es, cs))
dialing-IsSettled b calls s d n (p, o, r, os, es, cs) (select_open h k e) =
    subst (IsSettled b calls s) (sym e)
      (unfold receive_open in inr ((refl, refl), inl (refl, cc, rw cs refl)))
dialing-IsSettled b calls s d n (p, o, r, os, es, cs) (select_error text h k e) =
    subst (IsSettled b calls s) (sym e) (
      unfold receive_error in
      inr ((refl, refl), inr (inl (unavailable text, refl, cc, rw cs refl))))
dialing-IsSettled b calls s d n (p, o, r, os, es, cs) (select_done x h k e) =
    subst (IsSettled b calls s) (sym e)
      (unfold receive_done in inr ((refl, refl), inr (inl (context_done x, refl, k, rw cs refl))))

no_context-Caused :
    (s : Seen) (d : Dial) (x : ContextError) (e : DialError)
    → d.context_error ≡ none
    → Caused s d e
    → Caused s (record d { context_error = some x }) e
no_context-Caused s d x web_socket_missing h c = c
no_context-Caused s d x (unavailable text) h c = c
no_context-Caused s d x (context_done e) h c = cc

abbrev pub Returned : BrowserState → List DialCall → Seen → Dial → Type 0
Returned b calls s d = HasDialed calls s d ⊎ (HasFailed calls s d ⊎ IsMissing b d)

pub not-selecting :
    (b : BrowserState) (calls : List DialCall) (s : Seen) (d : Dial)
    → Returned b calls s d
    → d.phase ≡ selecting
    → ⊥
not-selecting b calls s d (inl (p, o, c)) h = ground arith
not-selecting b calls s d (inr (inl (e, p, w, c))) h = ground arith
not-selecting b calls s d (inr (inr (m, p, c))) h = ground arith

ended-Returned :
    (b : BrowserState) (calls : List DialCall) (s : Seen) (d : Dial) (x : ContextError)
    → d.context_error ≡ none
    → Returned b calls s d
    → Returned b calls s (record d { context_error = some x })
ended-Returned b calls s d x h (inl dialled) = inl dialled
ended-Returned b calls s d x h (inr (inl (e, p, w, c))) =
    inr (inl (e, p, no_context-Caused s d x e h w, c))
ended-Returned b calls s d x h (inr (inr missing)) = inr (inr missing)

Returned-IsSettled :
    (b : BrowserState) (calls : List DialCall) (s : Seen) (d n : Dial)
    → IsDetached d
    → Returned b calls s d
    → (step : DialStep d n) → IsSettled b calls (seen_after s step) n
Returned-IsSettled b calls s d n (o, r) v (opened h e) = absurd (ground arith)
Returned-IsSettled b calls s d n (o, r) v (erred w h e) = absurd (ground arith)
Returned-IsSettled b calls s d n (o, r) v (ended x h e) =
    subst (IsSettled b calls s) (sym e) (inr ((o, r), ended-Returned b calls s d x h v))
Returned-IsSettled b calls s d n (o, r) v (select_open h k e) =
    absurd (not-selecting b calls s d v h)
Returned-IsSettled b calls s d n (o, r) v (select_error t h k e) =
    absurd (not-selecting b calls s d v h)
Returned-IsSettled b calls s d n (o, r) v (select_done x h k e) =
    absurd (not-selecting b calls s d v h)

begin_dial-IsSettled :
    (b : BrowserState) (url : Text) (protocols : List Text) (before : Option ContextError)
    → IsSettled b (start_calls url protocols) nothing_seen (begin_dial b url protocols before)
unfolding begin_dial
begin_dial-IsSettled b url protocols before = elim (Bool-cases b.has_web_socket) [
  | inl h ↦ rw h (inl (refl, refl, refl, refl, refl, refl))
  | inr h ↦ rw h (inr ((refl, refl), inr (inr (refl, refl, refl))))
]

-- In every history of a dial, it either still selects, with its handlers attached and both channels as
-- the events left them; or its handlers are detached and it has dialed after an open event, with the
-- connection installed; or it has failed, with its socket closed, and the error is that of the first
-- error event or of the context; or there is no WebSocket and nothing was done.
pub DialReach-IsSettled :
    (b : BrowserState) (url : Text) (protocols : List Text) (s : Seen) (d : Dial)
    → DialReach b url protocols s d
    → IsSettled b (start_calls url protocols) s d
DialReach-IsSettled b url protocols s d (start before e f) =
    rw (e, f) (begin_dial-IsSettled b url protocols before)
DialReach-IsSettled b url protocols s d (next {d = m} {s = earlier} reach step e) =
    rw e (elim (DialReach-IsSettled b url protocols earlier m reach) [
      | inl dialing ↦ dialing-IsSettled b (start_calls url protocols) earlier m d dialing step
      | inr (detached, returned) ↦
          Returned-IsSettled b (start_calls url protocols) earlier m d detached returned step
    ])
