-- ===== src/Dialer/Tests.antt =====
-- The environment's text, and a dial in which the socket opens after an error event.
use grpc_tunnel.Prelude.{◌≡◌, refl, true, false, none, some, [], ◌∷◌, inl, arith}
use grpc_tunnel.Prelude.Text.{lit}
use grpc_tunnel.Dialer.{
  boolean, string, other_value, BrowserState, build_dialer_environment_state, canceled, selecting,
  Dial, start_calls, begin_dial, on_dial_open, on_dial_error, receive_error, opened, erred, ended,
  select_error,
}
use grpc_tunnel.Dialer.Settled.{Seen, DialReach, start, next, IsSettled, DialReach-IsSettled}
use grpc_tunnel.Dialer.Ready.{Leaves, DialReach-Leaves, SameDial, DialReach-SameDial}

abbrev page : BrowserState
page = record {
  has_web_socket = true;
  on_line = some (boolean false);
  visibility = some (string (lit "hidden"));
}

state_test : build_dialer_environment_state page ≡ lit "offline,visibility=hidden"
unfolding build_dialer_environment_state
state_test = refl

default_test :
    build_dialer_environment_state (record page { on_line = none; visibility = some other_value })
    ≡ lit "online,visibility=visible"
unfolding build_dialer_environment_state
default_test = refl

abbrev begun : Dial
unfolding begin_dial
begun = begin_dial page (lit "wss://h/grpc") (lit "grpc" ∷ []) none

abbrev opened_late : Dial
unfolding begin_dial on_dial_open on_dial_error
opened_late = on_dial_open (on_dial_error page begun)

abbrev seen_late : Seen
seen_late = record { has_opened = true; errors = lit "offline,visibility=hidden" ∷ [] }

late_reached : DialReach page (lit "wss://h/grpc") (lit "grpc" ∷ []) seen_late opened_late
unfolding begin_dial on_dial_open on_dial_error
late_reached =
    next (next (start none refl refl) (erred page refl refl) refl) (opened refl refl) refl

DialReach-IsSettled_example :
    IsSettled page (start_calls (lit "wss://h/grpc") (lit "grpc" ∷ [])) seen_late opened_late
DialReach-IsSettled_example =
    DialReach-IsSettled page (lit "wss://h/grpc") (lit "grpc" ∷ []) seen_late opened_late
      late_reached

DialReach-Leaves_example : Leaves opened_late
unfolding begin_dial on_dial_open on_dial_error
DialReach-Leaves_example =
    DialReach-Leaves page (lit "wss://h/grpc") (lit "grpc" ∷ []) seen_late opened_late late_reached
      refl (inl refl)

abbrev failed : Dial
unfolding receive_error
failed = receive_error (lit "offline,visibility=hidden") opened_late

failed_reached : DialReach page (lit "wss://h/grpc") (lit "grpc" ∷ []) seen_late failed
unfolding begin_dial on_dial_open on_dial_error receive_error
failed_reached =
    next late_reached (select_error (lit "offline,visibility=hidden") refl refl refl) refl

abbrev later : Dial
later = record failed { context_error = some canceled }

failed_left : failed.phase ≡ selecting → ⊥
unfolding receive_error
failed_left h = ground arith

DialReach-SameDial_example : SameDial failed later
unfolding begin_dial on_dial_open on_dial_error receive_error
DialReach-SameDial_example =
    DialReach-SameDial page (lit "wss://h/grpc") (lit "grpc" ∷ []) seen_late failed later
      failed_reached failed_left (ended canceled refl refl)
