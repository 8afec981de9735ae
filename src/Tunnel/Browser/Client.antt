-- ===== src/Tunnel/Browser/Client.antt =====
-- The options and BuildTunnelConn of the browser's client, pkg/grpctunnel/client_wasm.go, up to
-- `grpc.DialContext`.
use grpc_tunnel.Prelude.{
  ℕ, ◌≡◌, refl, Bool, true, false, Option, none, some, List, [], ◌∷◌, ◌++◌, if◌then◌else◌, is_none,
  arith, ap, ◌∙◌,
}
use grpc_tunnel.Prelude.Int.{ℤ, pos}
use grpc_tunnel.Prelude.Text.{Text}
use grpc_tunnel.Http.{Url}
use grpc_tunnel.Tunnel.Reconnect.{
  ReconnectConfig, ReconnectError, Backoff, ConnectParams, connect_params_of, Policy, policy,
  policy_refused, get_reconnect_config_error, unless_reconnect_error, apply_tunnel_reconnect_policy,
}
use grpc_tunnel.Tunnel.Target.{build_tunnel_grpc_dial_target}
use grpc_tunnel.Tunnel.Client.{
  Header, ClientOption, with_tls, with_headers, with_header, with_subprotocols, with_proxy,
  with_handshake_timeout, with_dial_compression, with_reconnect_policy, TunnelConfig, DialOption,
  AnyOption, split_dial_options, add_header,
}
use grpc_tunnel.Tunnel.Browser.{
  Location, BrowserError, headers_unsupported, proxy_unsupported, handshake_timeout_unsupported,
  browser_reconnect_error, browser_reconnect, BrowserTarget, url, url_refused,
  parse_browser_target_url, get_browser_config_error_without_target,
}

-- `clientOptions` of client_wasm.go
pub record BrowserOptions : Type 0 where
  pub has_headers : Bool
  pub has_proxy : Bool
  pub has_timeout : Bool
  pub has_tls : Bool
  pub tls_config : Option ℕ
  pub headers : Option Header
  pub subprotocols : List Text
  pub proxy : Option ℕ
  pub reconnect : Option ReconnectConfig
  pub timeout : ℤ
  pub should_enable_compression : Bool

abbrev pub no_browser_options : BrowserOptions
no_browser_options = record {
  has_headers = false;
  has_proxy = false;
  has_timeout = false;
  has_tls = false;
  tls_config = none;
  headers = none;
  subprotocols = [];
  proxy = none;
  reconnect = none;
  timeout = pos 0;
  should_enable_compression = false;
}

-- gRPC's options as the browser's client orders them.
pub data BrowserOption : Type 0 where
  browser_connect_params : ConnectParams → BrowserOption
  passed_on : DialOption → BrowserOption
  browser_dialer : Text → List Text → BrowserOption

pub data BrowserConnError : Type 0 where
  unsupported_option : BrowserConnError
  browser_error : BrowserError → BrowserConnError

pub data BrowserDial : Type 0 where
  browser_dialled : Text → List BrowserOption → BrowserDial
  browser_refused : BrowserConnError → BrowserDial

abbrev pub pass_on : List DialOption → List BrowserOption
pass_on [] = []
pass_on (o ∷ os) = passed_on o ∷ pass_on os

abbrev pub error_of_url : BrowserTarget → Option BrowserError
error_of_url (url t) = none
error_of_url (url_refused e) = some e

abbrev pub first_error : Option BrowserError → Option BrowserError → Option BrowserError
first_error (some e) r = some e
first_error none r = r

-- `GetTunnelConfigError` of client_wasm.go
unfoldable pub get_browser_config_error : Option Location → TunnelConfig → Option BrowserError
get_browser_config_error l c =
    first_error (get_browser_config_error_without_target c)
      (error_of_url (parse_browser_target_url l c.target false))

abbrev pub is_browser_dialled : BrowserDial → Bool
is_browser_dialled (browser_dialled t os) = true
is_browser_dialled (browser_refused e) = false

module _ (canonical : Text → Text) (parse_url : Text → Option Url) (url_string : Url → Text)
    (grpc_backoff : Backoff) (location : Option Location) where
  abbrev pub apply_browser_option : ClientOption → BrowserOptions → BrowserOptions
  apply_browser_option (with_tls t) o = record o { has_tls = true; tls_config = t }
  apply_browser_option (with_headers h) o = record o { has_headers = true; headers = h }
  apply_browser_option (with_header k v) o = record o {
    has_headers = true;
    headers = some (add_header canonical parse_url url_string grpc_backoff o.headers k v);
  }
  apply_browser_option (with_subprotocols ps) o = record o { subprotocols = ps }
  apply_browser_option (with_proxy p) o = record o { has_proxy = true; proxy = p }
  apply_browser_option (with_handshake_timeout t) o = record o { has_timeout = true; timeout = t }
  apply_browser_option with_dial_compression o = record o { should_enable_compression = true }
  apply_browser_option (with_reconnect_policy r) o = record o { reconnect = some r }

  abbrev pub apply_browser_options : List ClientOption → BrowserOptions → BrowserOptions
  apply_browser_options [] o = o
  apply_browser_options (p ∷ ps) o = apply_browser_options ps (apply_browser_option p o)

  abbrev pub browser_call : TunnelConfig → Text → List BrowserOption → BrowserDial
  browser_call c t reconnect =
      browser_dialled (build_tunnel_grpc_dial_target parse_url url_string c.target t)
        (reconnect ++ (pass_on c.grpc_options ++ browser_dialer t c.subprotocols ∷ []))

  abbrev pub browser_with_policy : TunnelConfig → Text → Policy → BrowserDial
  browser_with_policy c t (policy p) = browser_call c t (browser_connect_params p ∷ [])
  browser_with_policy c t (policy_refused e) =
      browser_refused (browser_error (browser_reconnect_error e))

  abbrev pub browser_with_reconnect : TunnelConfig → Text → Option ReconnectConfig → BrowserDial
  browser_with_reconnect c t none = browser_call c t []
  browser_with_reconnect c t (some r) =
      browser_with_policy c t (apply_tunnel_reconnect_policy grpc_backoff r)

  abbrev pub browser_with_url : TunnelConfig → BrowserTarget → BrowserDial
  browser_with_url c (url_refused e) = browser_refused (browser_error e)
  browser_with_url c (url t) = browser_with_reconnect c t c.reconnect_config

  abbrev pub browser_unless : Option BrowserError → TunnelConfig → BrowserDial
  browser_unless (some e) c = browser_refused (browser_error e)
  browser_unless none c = browser_with_url c (parse_browser_target_url location c.target false)

  -- `BuildTunnelConn` of client_wasm.go
  unfoldable pub build_browser_conn : TunnelConfig → BrowserDial
  build_browser_conn c = browser_unless (get_browser_config_error_without_target c) c

  abbrev browser_config_of : Text → BrowserOptions → List DialOption → TunnelConfig
  browser_config_of target o gs = record {
    target = target;
    tls_config = o.tls_config;
    should_use_tls = o.has_tls;
    headers = o.headers;
    subprotocols = o.subprotocols;
    proxy = o.proxy;
    handshake_timeout = o.timeout;
    should_enable_compression = o.should_enable_compression;
    reconnect_config = o.reconnect;
    grpc_options = gs;
  }

  abbrev browser_checked : Text → BrowserOptions → List DialOption → BrowserDial
  browser_checked target o gs =
      if o.has_headers
      then browser_refused (browser_error headers_unsupported)
      else if o.has_proxy
      then browser_refused (browser_error proxy_unsupported)
      else if o.has_timeout
      then browser_refused (browser_error handshake_timeout_unsupported)
      else build_browser_conn (browser_config_of target o gs)

  abbrev browser_with_split : Text → Option (List ClientOption × List DialOption) → BrowserDial
  browser_with_split target none = browser_refused unsupported_option
  browser_with_split target (some (ts, gs)) =
      browser_checked target (apply_browser_options ts no_browser_options) gs

  -- `DialContext` of client_wasm.go, and `Dial`, which is it with a background context.
  unfoldable pub browser_dial_context : Text → List AnyOption → BrowserDial
  browser_dial_context target os = browser_with_split target (split_dial_options os)

  browser_policy_dialled :
      (c : TunnelConfig) (t : Text) (r : ReconnectConfig) (e : Option ReconnectError)
      → is_browser_dialled
          (browser_with_policy c t (unless_reconnect_error e (connect_params_of grpc_backoff r)))
        ≡ is_none e
  browser_policy_dialled c t r none = refl
  browser_policy_dialled c t r (some e) = refl

  browser_reconnect_valid :
      (r : ReconnectConfig)
      → browser_reconnect (some r) ≡ none
      → get_reconnect_config_error r ≡ none
  browser_reconnect_valid r h = ground arith

  browser_reconnect_dialled :
      (c : TunnelConfig) (t : Text) (o : Option ReconnectConfig)
      → browser_reconnect o ≡ none
      → is_browser_dialled (browser_with_reconnect c t o) ≡ true
  unfolding apply_tunnel_reconnect_policy
  browser_reconnect_dialled c t none h = refl
  browser_reconnect_dialled c t (some r) h =
      browser_policy_dialled c t r (get_reconnect_config_error r)
      ∙ ap is_none (browser_reconnect_valid r h)

  browser_url_dialled :
      (c : TunnelConfig) (t : BrowserTarget)
      → browser_reconnect c.reconnect_config ≡ none
      → is_browser_dialled (browser_with_url c t) ≡ is_none (error_of_url t)
  browser_url_dialled c (url t) h = browser_reconnect_dialled c t c.reconnect_config h
  browser_url_dialled c (url_refused e) h = refl

  browser_unless_dialled :
      (c : TunnelConfig) (e : Option BrowserError)
      → get_browser_config_error_without_target c ≡ e
      → is_browser_dialled (browser_unless e c)
        ≡ is_none (first_error e (error_of_url (parse_browser_target_url location c.target false)))
  unfolding get_browser_config_error_without_target
  browser_unless_dialled c (some e) h = refl
  browser_unless_dialled c none h =
      browser_url_dialled c (parse_browser_target_url location c.target false) (ground arith)

  -- `build_browser_conn` comes to dial exactly the configurations that `get_browser_config_error`
  -- accepts.
  pub build_browser_conn-dials :
      (c : TunnelConfig)
      → is_browser_dialled (build_browser_conn c) ≡ is_none (get_browser_config_error location c)
  unfolding build_browser_conn get_browser_config_error
  build_browser_conn-dials c =
      browser_unless_dialled c (get_browser_config_error_without_target c) refl
