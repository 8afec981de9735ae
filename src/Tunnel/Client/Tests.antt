-- ===== src/Tunnel/Client/Tests.antt =====
-- The client of pkg/grpctunnel/client.go at concrete targets, policies and configurations.
use grpc_tunnel.Prelude.{
  ◌↔◌, ◌≡◌, ◌*◌, refl, subst, true, false, Bool, Option, none, some, [], ◌∷◌, ◌++◌, arith,
  if◌then◌else◌, is_none,
}
use mathlib.Core.Option.{some-injective}
use grpc_tunnel.Prelude.Int.{pos, negsuc, ◌≤ℤ◌}
use grpc_tunnel.Prelude.Text.{Text, lit, text_eq, trim_space, contains, has_prefix}
use grpc_tunnel.Http.{Url}
use grpc_tunnel.AbuseControl.{second}
use grpc_tunnel.Tunnel.Target.Forms.{IsAccepted, parse_tunnel_target_url-IsAccepted}
use grpc_tunnel.Tunnel.Target.{target_ok, Parses, parse_tunnel_target_url, is_web_socket}
use grpc_tunnel.Tunnel.Target.Dialled.{UrlLaws}
use grpc_tunnel.Tunnel.Reconnect.{
  ReconnectConfig, Backoff, finite, policy, connect_params_of, get_reconnect_config_error,
  apply_tunnel_reconnect_policy,
}
use grpc_tunnel.Tunnel.Reconnect.Usable.{IsUsableBackoff, apply_tunnel_reconnect_policy-IsUsable}
use grpc_tunnel.Tunnel.Client.{
  TunnelConfig, grpc_option, Dialled, dialled, call_with, with_connect_params, build_tunnel_conn,
  get_tunnel_config_error, get_tunnel_config_error_without_target,
}
use grpc_tunnel.Tunnel.Client.Dialling.{is_dialled, build_tunnel_conn-dials}

-- A URL library that knows one URL.
abbrev local : Url
local = record {
  scheme = lit "ws";
  host = lit "localhost:8080";
  hostname = lit "localhost";
  path = [];
  raw_query = [];
  fragment = [];
}

abbrev parse_url : Text → Option Url
parse_url t = if text_eq t (lit "ws://localhost:8080") then some local else none

abbrev url_string : Url → Text
url_string u = u.scheme ++ (lit "://" ++ u.host)

parsed_is_local : (b : Bool) (u : Url) → (if b then some local else none) ≡ some u → local ≡ u
parsed_is_local true u h = some-injective local u h
parsed_is_local false u h = cc

local_parses : parse_url (url_string local) ≡ some local
unfolding text_eq
local_parses = refl

local_printed : is_web_socket (url_string local) ≡ true
unfolding has_prefix
local_printed = refl

local_trimmed : trim_space (url_string local) ≡ url_string local
unfolding trim_space
local_trimmed = refl

is_local : (t : Text) (u : Url) → Parses parse_url url_string t u → local ≡ u
is_local t u p = parsed_is_local (text_eq t (lit "ws://localhost:8080")) u p.parsed

laws : UrlLaws parse_url url_string
laws = record {
  reparsed = λ t u p. subst (λ v. parse_url (url_string v) ≡ some v) (is_local t u p) local_parses;
  printed =
      λ t u p. subst (λ v. is_web_socket (url_string v) ≡ true) (is_local t u p) local_printed;
  trimmed =
      λ t u p. subst (λ v. trim_space (url_string v) ≡ url_string v) (is_local t u p) local_trimmed;
}

port_only :
    parse_tunnel_target_url parse_url url_string (lit " :8080") false
    ≡ target_ok (lit "ws://localhost:8080")
unfolding parse_tunnel_target_url trim_space contains has_prefix text_eq
port_only = refl

parse_tunnel_target_url-IsAccepted_example :
    (parse_tunnel_target_url parse_url url_string (lit " :8080") false
      ≡ target_ok (lit "ws://localhost:8080"))
    ↔ IsAccepted parse_url url_string false (trim_space (lit " :8080")) (lit "ws://localhost:8080")
parse_tunnel_target_url-IsAccepted_example =
    parse_tunnel_target_url-IsAccepted parse_url url_string (lit " :8080") false
      (lit "ws://localhost:8080")

-- gRPC's defaults: a second, times 1.6, up to two minutes; a float is about m * 2^e.
abbrev grpc_backoff : Backoff
grpc_backoff = record {
  base_delay = pos second;
  multiplier = finite (pos 7_205_759_403_792_794) (negsuc 51);
  jitter = finite (pos 7_205_759_403_792_794) (negsuc 54);
  max_delay = pos (120 * second);
}

grpc_backoff-IsUsable : IsUsableBackoff grpc_backoff
grpc_backoff-IsUsable = record {
  base_delay = omega arith;
  max_delay = omega arith;
  multiplier = (refl, refl);
  jitter = (refl, refl);
}

-- Reconnects after half a second at first, with no jitter configured.
abbrev reconnect : ReconnectConfig
reconnect = record {
  initial_delay = pos 500_000_000;
  max_delay = pos 0;
  multiplier = finite (pos 2) (pos 0);
  jitter = finite (pos 0) (pos 0);
  min_connect_timeout = pos 0;
}

reconnect_applies :
    apply_tunnel_reconnect_policy grpc_backoff reconnect
    ≡ policy (connect_params_of grpc_backoff reconnect)
unfolding apply_tunnel_reconnect_policy get_reconnect_config_error
reconnect_applies = refl

apply_tunnel_reconnect_policy-IsUsable_example :
    IsUsableBackoff (connect_params_of grpc_backoff reconnect).backoff × (pos 0 ≤ℤ pos 0)
apply_tunnel_reconnect_policy-IsUsable_example =
    apply_tunnel_reconnect_policy-IsUsable grpc_backoff reconnect
      (connect_params_of grpc_backoff reconnect) grpc_backoff-IsUsable reconnect_applies

abbrev as_given : Text → Text
as_given t = t

abbrev tunnel : TunnelConfig
tunnel = record {
  target = lit " :8080";
  tls_config = none;
  should_use_tls = false;
  headers = none;
  subprotocols = [];
  proxy = none;
  handshake_timeout = pos 0;
  should_enable_compression = false;
  reconnect_config = some reconnect;
  grpc_options = grpc_option 7 ∷ [];
}

abbrev call : Dialled
call =
    call_with as_given parse_url url_string grpc_backoff tunnel (lit "ws://localhost:8080")
      (with_connect_params (connect_params_of grpc_backoff reconnect) ∷ [])

tunnel_dialled : build_tunnel_conn as_given parse_url url_string grpc_backoff tunnel ≡ dialled call
unfolding build_tunnel_conn get_tunnel_config_error_without_target apply_tunnel_reconnect_policy
    get_reconnect_config_error parse_tunnel_target_url trim_space contains has_prefix text_eq
tunnel_dialled = refl

build_tunnel_conn-dials_example :
    is_dialled (build_tunnel_conn as_given parse_url url_string grpc_backoff tunnel)
    ≡ is_none (get_tunnel_config_error as_given parse_url url_string grpc_backoff tunnel)
build_tunnel_conn-dials_example =
    build_tunnel_conn-dials as_given parse_url url_string grpc_backoff tunnel
