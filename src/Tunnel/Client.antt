-- ===== src/Tunnel/Client.antt =====
-- The client of pkg/grpctunnel/client.go: its options, the validation of TunnelConfig and
-- BuildTunnelConn up to `grpc.DialContext`. What the code only hands on (a TLS configuration, a
-- proxy function, a gRPC option of the caller's) is a number that tells it apart.
pub mod Options
pub mod Dialling
pub mod Tests
use grpc_tunnel.Prelude.{
  ℕ, Bool, true, false, ◌&&◌, ◌||◌, not, Option, none, some, List, [], ◌∷◌, ◌++◌, if◌then◌else◌,
  is_none, map,
}
use grpc_tunnel.Prelude.Int.{ℤ, pos}
use grpc_tunnel.Prelude.Text.{Text}
use grpc_tunnel.Prelude.Dict.{lookup, insert, or_zero}
use grpc_tunnel.Http.{Url}
use grpc_tunnel.Settings.{is_negative}
use grpc_tunnel.Tunnel.Reconnect.{
  ReconnectConfig, ReconnectError, get_reconnect_config_error, Backoff, ConnectParams, Policy,
  policy, policy_refused, apply_tunnel_reconnect_policy,
}
use grpc_tunnel.Tunnel.Target.{
  TunnelTargetError, Target, target_ok, target_err, parse_tunnel_target_url,
  build_tunnel_grpc_dial_target,
}

-- `http.Header`, by canonical key.
abbrev pub Header : Type 0
Header = List (Text × List Text)

-- `clientOptions`; `none` is nil.
pub record ClientOptions : Type 0 where
  pub tls_config : Option ℕ
  pub headers : Option Header
  pub subprotocols : List Text
  pub proxy : Option ℕ
  pub reconnect : Option ReconnectConfig
  pub timeout : ℤ
  pub is_use_tls : Bool
  pub should_enable_compression : Bool

pub data ClientOption : Type 0 where
  with_tls : Option ℕ → ClientOption
  with_headers : Option Header → ClientOption
  with_header : Text → Text → ClientOption
  with_subprotocols : List Text → ClientOption
  with_proxy : Option ℕ → ClientOption
  with_handshake_timeout : ℤ → ClientOption
  with_dial_compression : ClientOption
  with_reconnect_policy : ReconnectConfig → ClientOption

-- gRPC's options, as far as the code makes them itself: the dialer is told apart by what it dials.
pub record Dialer : Type 0 where
  pub dial_url : Option Text
  pub tls_config : Option ℕ
  pub headers : Option Header
  pub subprotocols : List Text
  pub proxy : Option ℕ
  pub handshake_timeout : ℤ
  pub enable_compression : Bool

pub data DialOption : Type 0 where
  grpc_option : ℕ → DialOption
  with_connect_params : ConnectParams → DialOption
  with_context_dialer : Dialer → DialOption

-- A value in the list that Dial takes, by its dynamic type.
pub data AnyOption : Type 0 where
  tunnel : ClientOption → AnyOption
  grpc : DialOption → AnyOption
  other : AnyOption

abbrev pub cons_tunnel :
    ClientOption
    → Option (List ClientOption × List DialOption)
    → Option (List ClientOption × List DialOption)
cons_tunnel o none = none
cons_tunnel o (some (ts, gs)) = some (o ∷ ts, gs)

abbrev pub cons_grpc :
    DialOption
    → Option (List ClientOption × List DialOption)
    → Option (List ClientOption × List DialOption)
cons_grpc o none = none
cons_grpc o (some (ts, gs)) = some (ts, o ∷ gs)

-- `splitDialOptions`; `none` is its error.
unfoldable pub split_dial_options : List AnyOption → Option (List ClientOption × List DialOption)
split_dial_options [] = some ([], [])
split_dial_options (tunnel o ∷ os) = cons_tunnel o (split_dial_options os)
split_dial_options (grpc o ∷ os) = cons_grpc o (split_dial_options os)
split_dial_options (other ∷ os) = none

pub record TunnelConfig : Type 0 where
  pub target : Text
  pub tls_config : Option ℕ
  pub should_use_tls : Bool
  pub headers : Option Header
  pub subprotocols : List Text
  pub proxy : Option ℕ
  pub handshake_timeout : ℤ
  pub should_enable_compression : Bool
  pub reconnect_config : Option ReconnectConfig
  pub grpc_options : List DialOption

pub data TunnelError : Type 0 where
  unsupported_dial_option handshake_timeout_negative : TunnelError
  reconnect_error : ReconnectError → TunnelError
  target_error : TunnelTargetError → TunnelError

abbrev pub reconnect_config_error : Option ReconnectConfig → Option TunnelError
reconnect_config_error none = none
reconnect_config_error (some c) = elim (get_reconnect_config_error c) [
  | none ↦ none
  | some e ↦ some (reconnect_error e)
]

-- `getTunnelConfigErrorWithoutTarget` of client.go
unfoldable pub get_tunnel_config_error_without_target : TunnelConfig → Option TunnelError
get_tunnel_config_error_without_target c =
    if is_negative c.handshake_timeout
    then some handshake_timeout_negative
    else reconnect_config_error c.reconnect_config

-- Whether the target is given the `wss` scheme where it names none.
abbrev pub uses_tls : TunnelConfig → Bool
uses_tls c = c.should_use_tls || not (is_none c.tls_config)

-- What `BuildTunnelConn` calls `grpc.DialContext` with.
pub record Dialled : Type 0 where
  pub dial_target : Text
  pub options : List DialOption

pub data Conn : Type 0 where
  dialled : Dialled → Conn
  conn_refused : TunnelError → Conn

module _ (canonical : Text → Text) (parse_url : Text → Option Url) (url_string : Url → Text)
    (grpc_backoff : Backoff) where
  abbrev pub add_header : Option Header → Text → Text → Header
  add_header none k v = insert (canonical k) (v ∷ []) []
  add_header (some h) k v = insert (canonical k) (or_zero (lookup (canonical k) h) [] ++ v ∷ []) h

  abbrev pub apply_client_option : ClientOption → ClientOptions → ClientOptions
  apply_client_option (with_tls t) o = record o { tls_config = t; is_use_tls = true }
  apply_client_option (with_headers h) o = record o { headers = h }
  apply_client_option (with_header k v) o = record o { headers = some (add_header o.headers k v) }
  apply_client_option (with_subprotocols ps) o = record o { subprotocols = ps }
  apply_client_option (with_proxy p) o = record o { proxy = p }
  apply_client_option (with_handshake_timeout t) o = record o { timeout = t }
  apply_client_option with_dial_compression o = record o { should_enable_compression = true }
  apply_client_option (with_reconnect_policy c) o = record o { reconnect = some c }

  abbrev pub apply_client_options : List ClientOption → ClientOptions → ClientOptions
  apply_client_options [] o = o
  apply_client_options (p ∷ ps) o = apply_client_options ps (apply_client_option p o)

  abbrev pub printed_url : Option Url → Option Text
  printed_url none = none
  printed_url (some u) = some (url_string u)

  -- `buildTunnelDialer`: what its dialer dials each time; a target that does not parse gives a
  -- dialer that only fails, without a URL.
  unfoldable pub build_tunnel_dialer : TunnelConfig → Text → Dialer
  build_tunnel_dialer c tunnel_url = record {
    dial_url = printed_url (parse_url tunnel_url);
    tls_config = c.tls_config;
    headers = c.headers;
    subprotocols = c.subprotocols;
    proxy = c.proxy;
    handshake_timeout = c.handshake_timeout;
    enable_compression = c.should_enable_compression;
  }

  -- `buildTunnelTargetURL` of client.go
  abbrev pub build_tunnel_target_url : TunnelConfig → Target
  build_tunnel_target_url c = parse_tunnel_target_url parse_url url_string c.target (uses_tls c)

  abbrev pub error_of_target : Target → Option TunnelError
  error_of_target (target_ok s) = none
  error_of_target (target_err e) = some (target_error e)

  abbrev pub unless_some : Option TunnelError → Option TunnelError → Option TunnelError
  unless_some (some e) r = some e
  unless_some none r = r

  -- `GetTunnelConfigError` of client.go
  unfoldable pub get_tunnel_config_error : TunnelConfig → Option TunnelError
  get_tunnel_config_error c =
      unless_some (get_tunnel_config_error_without_target c)
        (error_of_target (build_tunnel_target_url c))

  abbrev pub call_with : TunnelConfig → Text → List DialOption → Dialled
  call_with c url reconnect = record {
    dial_target = build_tunnel_grpc_dial_target parse_url url_string c.target url;
    options = reconnect ++ (c.grpc_options ++ with_context_dialer (build_tunnel_dialer c url) ∷ []);
  }

  abbrev pub with_options : TunnelConfig → Text → List DialOption → Conn
  with_options c url reconnect = dialled (call_with c url reconnect)

  abbrev pub with_policy : TunnelConfig → Text → Policy → Conn
  with_policy c url (policy p) = with_options c url (with_connect_params p ∷ [])
  with_policy c url (policy_refused e) = conn_refused (reconnect_error e)

  abbrev pub with_reconnect : TunnelConfig → Text → Option ReconnectConfig → Conn
  with_reconnect c url none = with_options c url []
  with_reconnect c url (some r) = with_policy c url (apply_tunnel_reconnect_policy grpc_backoff r)

  abbrev pub with_tunnel_url : TunnelConfig → Target → Conn
  with_tunnel_url c (target_err e) = conn_refused (target_error e)
  with_tunnel_url c (target_ok url) = with_reconnect c url c.reconnect_config

  abbrev pub unless_refused : Option TunnelError → TunnelConfig → Conn
  unless_refused (some e) c = conn_refused e
  unless_refused none c = with_tunnel_url c (build_tunnel_target_url c)

  -- `BuildTunnelConn` of client.go
  unfoldable pub build_tunnel_conn : TunnelConfig → Conn
  build_tunnel_conn c = unless_refused (get_tunnel_config_error_without_target c) c

  abbrev pub no_options : ClientOptions
  no_options = record {
    tls_config = none;
    headers = none;
    subprotocols = [];
    proxy = none;
    reconnect = none;
    timeout = pos 0;
    is_use_tls = false;
    should_enable_compression = false;
  }

  abbrev pub config_of : Text → ClientOptions → List DialOption → TunnelConfig
  config_of target o gs = record {
    target = target;
    tls_config = o.tls_config;
    should_use_tls = o.is_use_tls;
    headers = o.headers;
    subprotocols = o.subprotocols;
    proxy = o.proxy;
    handshake_timeout = o.timeout;
    should_enable_compression = o.should_enable_compression;
    reconnect_config = o.reconnect;
    grpc_options = gs;
  }

  abbrev pub with_split : Text → Option (List ClientOption × List DialOption) → Conn
  with_split target none = conn_refused unsupported_dial_option
  with_split target (some (ts, gs)) =
      build_tunnel_conn (config_of target (apply_client_options ts no_options) gs)

  -- `DialContext` of client.go, and `Dial`, which is it with a background context.
  unfoldable pub dial_context : Text → List AnyOption → Conn
  dial_context target os = with_split target (split_dial_options os)
