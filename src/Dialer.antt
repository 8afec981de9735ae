-- ===== src/Dialer.antt =====
-- pkg/wasm/dialer/dialer.go: the dialing of a browser's websocket. The callbacks and the goroutine that
-- selects run one at a time, in any order; what Go code does to the JavaScript objects is logged.
pub mod Settled
pub mod Ready
mod Tests
use grpc_tunnel.Prelude.{
  ◌≡◌, Bool, true, false, not, Option, none, some, List, [], ◌∷◌, ◌++◌, if◌then◌else◌,
}
use grpc_tunnel.Prelude.Text.{Text, lit}

-- A property of a JavaScript object, as far as the code tells values apart.
pub data JsProperty : Type 0 where
  boolean : Bool → JsProperty
  string : Text → JsProperty
  other_value : JsProperty

-- The global objects: whether WebSocket is truthy, and navigator.onLine and document.visibilityState of
-- objects that are truthy.
pub record BrowserState : Type 0 where
  pub has_web_socket : Bool
  pub on_line : Option JsProperty
  pub visibility : Option JsProperty

abbrev online_of : Option JsProperty → Bool
online_of (some (boolean b)) = b
online_of (some (string t)) = true
online_of (some other_value) = true
online_of none = true

unfoldable pub is_dialer_browser_online : BrowserState → Bool
is_dialer_browser_online b = online_of b.on_line

abbrev visibility_of : Option JsProperty → Text
visibility_of (some (string t)) = t
visibility_of (some (boolean b)) = lit "visible"
visibility_of (some other_value) = lit "visible"
visibility_of none = lit "visible"

unfoldable pub get_dialer_visibility_state : BrowserState → Text
get_dialer_visibility_state b = visibility_of b.visibility

unfoldable pub build_dialer_environment_state : BrowserState → Text
unfolding is_dialer_browser_online get_dialer_visibility_state
build_dialer_environment_state b =
    (if not (is_dialer_browser_online b) then lit "offline" else lit "online")
    ++ (lit ",visibility=" ++ get_dialer_visibility_state b)

pub data DialCall : Type 0 where
  new_socket : Text → Option (List Text) → DialCall
  set_binary_type : DialCall
  attach_open : DialCall
  attach_error : DialCall
  detach_open : DialCall
  detach_error : DialCall
  shut_socket : DialCall
  install_connection : DialCall
  drop_error_handler : DialCall
  drop_open_handler : DialCall

-- The error of a context that is done.
pub data ContextError : Type 0 where
  canceled : ContextError
  deadline_exceeded : ContextError

pub data DialError : Type 0 where
  web_socket_missing : DialError
  unavailable : Text → DialError
  context_done : ContextError → DialError

-- In the select, or how the dialer has returned.
pub data DialPhase : Type 0 where
  selecting : DialPhase
  dialed : DialPhase
  refused : DialError → DialPhase

-- A call of the dialer. The channels hold one element at most: `opens`, and the text of the error.
pub record Dial : Type 0 where
  pub phase : DialPhase
  pub has_open_handler : Bool
  pub has_error_handler : Bool
  pub opens : Bool
  pub error : Option Text
  pub context_error : Option ContextError
  pub calls : List DialCall

unfoldable pub build_browser_web_socket : Text → List Text → DialCall
build_browser_web_socket url [] = new_socket url none
build_browser_web_socket url (protocol ∷ protocols) = new_socket url (some (protocol ∷ protocols))

abbrev pub start_calls : Text → List Text → List DialCall
start_calls url protocols =
    build_browser_web_socket url protocols ∷ set_binary_type ∷ attach_open ∷ attach_error ∷ []

-- Up to the select. The context may be done before.
unfoldable pub begin_dial : BrowserState → Text → List Text → Option ContextError → Dial
unfolding build_browser_web_socket
begin_dial b url protocols ended =
    let dialing : Dial = record {
      phase = selecting;
      has_open_handler = true;
      has_error_handler = true;
      opens = false;
      error = none;
      context_error = ended;
      calls = start_calls url protocols;
    } in
    let missing : Dial = record {
      phase = refused web_socket_missing;
      has_open_handler = false;
      has_error_handler = false;
      opens = false;
      error = none;
      context_error = ended;
      calls = [];
    } in
    if not b.has_web_socket then missing else dialing

-- The callbacks; an element that finds its channel full is dropped.
unfoldable pub on_dial_open : Dial → Dial
on_dial_open d = record d { opens = true }

abbrev pub sent_error : Option Text → Text → Option Text
sent_error none text = some text
sent_error (some first) text = some first

unfoldable pub on_dial_error : BrowserState → Dial → Dial
unfolding build_dialer_environment_state
on_dial_error b d = record d { error = sent_error d.error (build_dialer_environment_state b) }

-- The cases of the select up to the return, with the deferred releases.
abbrev pub left_with : DialPhase → DialCall → Dial → Dial
left_with phase last d = record d {
  phase = phase;
  has_open_handler = false;
  has_error_handler = false;
  calls =
      d.calls ++ (detach_open ∷ detach_error ∷ last ∷ drop_error_handler ∷ drop_open_handler ∷ []);
}

unfoldable pub receive_open : Dial → Dial
receive_open d = left_with dialed install_connection (record d { opens = false })

unfoldable pub receive_error : Text → Dial → Dial
receive_error text d =
    left_with (refused (unavailable text)) shut_socket (record d { error = none })

unfoldable pub receive_done : ContextError → Dial → Dial
receive_done e d = left_with (refused (context_done e)) shut_socket d

-- One step: a callback that is attached, the end of the context, or a case of the select that is ready.
pub data DialStep (d : Dial) (n : Dial) : Type 0 where
  opened : d.has_open_handler ≡ true → n ≡ on_dial_open d → DialStep d n
  erred : (b : BrowserState) → d.has_error_handler ≡ true → n ≡ on_dial_error b d → DialStep d n
  ended :
      (e : ContextError)
      → d.context_error ≡ none
      → n ≡ record d { context_error = some e }
      → DialStep d n
  select_open : d.phase ≡ selecting → d.opens ≡ true → n ≡ receive_open d → DialStep d n
  select_error :
      (text : Text)
      → d.phase ≡ selecting
      → d.error ≡ some text
      → n ≡ receive_error text d
      → DialStep d n
  select_done :
      (e : ContextError)
      → d.phase ≡ selecting
      → d.context_error ≡ some e
      → n ≡ receive_done e d
      → DialStep d n
