-- ===== src/Tunnel/Browser.antt =====
-- The targets and the validation of the browser's client, pkg/grpctunnel/client_wasm.go. The page's
-- `window.location` is a parameter: its protocol and host, or `none` if it is not there.
pub mod Inferred
pub mod Client
pub mod Tests
use grpc_tunnel.Prelude.{
  ℕ, Bool, true, false, ◌||◌, not, Option, none, some, List, [], ◌∷◌, ◌++◌, if◌then◌else◌, is_none,
  ◌==◌,
}
use grpc_tunnel.Prelude.Int.{ℤ, pos, negsuc}
use grpc_tunnel.Prelude.Text.{Text, lit, is_empty, text_eq, has_prefix, trim_space}
use grpc_tunnel.Tunnel.Reconnect.{ReconnectConfig, ReconnectError, get_reconnect_config_error}
use grpc_tunnel.Tunnel.Client.{TunnelConfig}

pub record Location : Type 0 where
  pub protocol : Text
  pub host : Text

abbrev pub page_scheme : Location → Text
page_scheme l = if text_eq l.protocol (lit "https:") then lit "wss" else lit "ws"

abbrev pub without_location : Text → Text
without_location t = if is_empty t then lit "ws://localhost:8080" else lit "ws://" ++ t

abbrev pub at_location : Location → Text → Text
at_location l t =
    if is_empty t
    then page_scheme l ++ (lit "://" ++ l.host)
    else if has_prefix t (lit "/")
    then page_scheme l ++ (lit "://" ++ (l.host ++ t))
    else page_scheme l ++ (lit "://" ++ t)

abbrev pub inferred_at : Option Location → Text → Text
inferred_at none t = without_location t
inferred_at (some l) t = at_location l t

-- `inferBrowserWebSocketURL`
unfoldable pub infer_browser_web_socket_url : Option Location → Text → Text
infer_browser_web_socket_url l t =
    if has_prefix t (lit "ws://")
    then t
    else if has_prefix t (lit "wss://")
    then t
    else inferred_at l t

pub data BrowserError : Type 0 where
  tls_flag_unsupported inferred_url_empty tls_unsupported headers_unsupported : BrowserError
  proxy_unsupported handshake_timeout_unsupported compression_unsupported : BrowserError
  browser_reconnect_error : ReconnectError → BrowserError

pub data BrowserTarget : Type 0 where
  url : Text → BrowserTarget
  url_refused : BrowserError → BrowserTarget

-- `ParseTunnelTargetURL` of client_wasm.go
unfoldable pub parse_browser_target_url : Option Location → Text → Bool → BrowserTarget
parse_browser_target_url l t use_tls =
    if use_tls
    then url_refused tls_flag_unsupported
    else if is_empty (trim_space (infer_browser_web_socket_url l t))
    then url_refused inferred_url_empty
    else url (infer_browser_web_socket_url l t)

abbrev is_zero : ℤ → Bool
is_zero (pos n) = n == 0
is_zero (negsuc n) = false

abbrev pub browser_reconnect : Option ReconnectConfig → Option BrowserError
browser_reconnect none = none
browser_reconnect (some r) = elim (get_reconnect_config_error r) [
  | none ↦ none
  | some e ↦ some (browser_reconnect_error e)
]

-- `getTunnelConfigErrorWithoutTarget` of client_wasm.go
unfoldable pub get_browser_config_error_without_target : TunnelConfig → Option BrowserError
get_browser_config_error_without_target c =
    if c.should_use_tls || not (is_none c.tls_config)
    then some tls_unsupported
    else if not (is_none c.headers)
    then some headers_unsupported
    else if not (is_none c.proxy)
    then some proxy_unsupported
    else if not (is_zero c.handshake_timeout)
    then some handshake_timeout_unsupported
    else if c.should_enable_compression
    then some compression_unsupported
    else browser_reconnect c.reconnect_config
