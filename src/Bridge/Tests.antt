-- ===== src/Bridge/Tests.antt =====
-- The bridge of pkg/bridge/bridge.go and its settings at concrete configurations and requests.
use grpc_tunnel.Prelude.{
  ◌≡◌, ◌*◌, inr, refl, true, false, Bool, Option, none, some, [], arith, if◌then◌else◌,
}
use grpc_tunnel.Prelude.Trace.{balance}
use grpc_tunnel.Prelude.Int.{pos}
use grpc_tunnel.Prelude.Text.{Text, lit, text_eq, trim_space, contains}
use grpc_tunnel.Http.{Url, Request}
use grpc_tunnel.AbuseControl.{Guard, build_handler_abuse_guard, second, reserve_handler_connection}
use grpc_tunnel.Settings.{Settings}
use grpc_tunnel.Settings.Checks.{KeepaliveValid}
use grpc_tunnel.Bridge.Config.{Config}
use grpc_tunnel.Bridge.Target.{parse_bridge_target_url, accepted, strip_scheme, require_bare}
use grpc_tunnel.Bridge.Handler.{Handler, World, new_handler, serve_http}
use grpc_tunnel.Bridge.Handler.Serving.{same, change, serve_http_balanced}
use grpc_tunnel.Bridge.Handler.Slots.{SameSlots, serve_http_slots}
use grpc_tunnel.Bridge.Handler.Hooks.{Counts, is_served_by, serve_http-Counts}

-- A parser of URLs that knows one of them, and one of addresses that knows one.
abbrev backend : Url
backend = record {
  scheme = lit "http";
  host = lit "localhost:50051";
  hostname = lit "localhost";
  path = [];
  raw_query = [];
  fragment = [];
}

abbrev parse_url : Text → Option Url
parse_url t = if text_eq t (lit "http://localhost:50051") then some backend else none

abbrev parse_ip : Text → Option Bool
parse_ip t = if text_eq t (lit "127.0.0.1") then some true else none

-- Pings every ten seconds, and waits thirty.
abbrev settings : Settings
settings = record {
  read_buffer_size = pos 0;
  write_buffer_size = pos 8192;
  read_limit_bytes = pos 0;
  should_disable_read_limit = false;
  ping_interval = pos (10 * second);
  idle_timeout = pos (30 * second);
  limits = record {
    max_active_connections = pos 2;
    max_connections_per_client = pos 0;
    max_upgrades_per_client_per_minute = pos 0;
  };
  should_enable_compression = false;
  has_check_origin = false;
  has_on_connect = true;
  has_on_disconnect = false;
}

abbrev config : Config
config = record {
  target_address = lit " localhost:50051";
  settings = settings;
  backend_dial_timeout = pos 0;
  should_require_loopback_backend = true;
  has_logger = false;
}

target_parses : parse_bridge_target_url parse_url config.target_address ≡ accepted backend
unfolding parse_bridge_target_url strip_scheme require_bare trim_space contains text_eq
target_parses = refl

abbrev handler : Handler
handler = (new_handler parse_url parse_ip config).0

abbrev guard : Guard
guard = build_handler_abuse_guard settings.limits

abbrev request : Request
request = record {
  remote_addr = lit "10.0.0.1:4000";
  method = lit "GET";
  url_path = some (lit "/");
  header = λ name. [];
  trace_ids = none;
}

abbrev calm : World
calm = record { upgrade_succeeds = true; deadline_fails = false }

serve_http_balanced_example :
    balance same change (serve_http handler (some guard) (some request) 1 calm).0 [] ≡ some []
serve_http_balanced_example = serve_http_balanced handler (some guard) (some request) 1 calm

serve_http_slots_example :
    (g : Guard) × ((serve_http handler (some guard) (some request) 1 calm).1 ≡ some g)
    × SameSlots guard g (lit "10.0.0.1")
serve_http_slots_example = serve_http_slots handler guard (some request) (lit "10.0.0.1") 1 calm

serve_http-Counts_example :
    Counts handler
      (is_served_by handler calm (reserve_handler_connection (some guard) (some request) 1).0)
      (serve_http handler (some guard) (some request) 1 calm).0
serve_http-Counts_example = serve_http-Counts handler (some guard) (some request) 1 calm

settings_valid : KeepaliveValid settings
settings_valid = (inr (omega arith, omega arith), omega arith, omega arith, omega arith)
