-- ===== src/Tunnel/Options.antt =====
-- The functional server options of pkg/grpctunnel/server.go, and the validation of BridgeConfig.
use grpc_tunnel.Prelude.{◌≡◌, ◌↔◌, Bool, true, false, Option, none, List, [], ◌∷◌, arith}
use grpc_tunnel.Prelude.Int.{ℤ, pos}
use grpc_tunnel.Settings.{
  Settings, ConfigError, or_else, size_error, keepalive_error, default_buffer_size,
}
use grpc_tunnel.Settings.Checks.{
  SizesValid, KeepaliveValid, size_error-valid, valid-size_error, keepalive_error-valid,
  valid-keepalive_error,
}

-- `serverOptions`
pub record ServerOptions : Type 0 where
  pub has_check_origin : Bool
  pub read_buffer_size : ℤ
  pub write_buffer_size : ℤ
  pub read_limit_bytes : ℤ
  pub should_disable_read_limit : Bool
  pub ping_interval : ℤ
  pub idle_timeout : ℤ
  pub has_on_connect : Bool
  pub has_on_disconnect : Bool
  pub should_enable_compression : Bool
  pub max_active_connections : ℤ
  pub max_connections_per_client : ℤ
  pub max_upgrades_per_client : ℤ

-- The options; one that takes a callback says whether the callback is not nil.
pub data ServerOption : Type 0 where
  with_origin_check : Bool → ServerOption
  with_buffer_sizes : ℤ → ℤ → ServerOption
  with_read_limit_bytes : ℤ → ServerOption
  with_read_limit_disabled : ServerOption
  with_keepalive : ℤ → ℤ → ServerOption
  with_bridge_web_socket_compression : ServerOption
  with_max_active_connections : ℤ → ServerOption
  with_max_connections_per_client : ℤ → ServerOption
  with_max_upgrades_per_client_per_minute : ℤ → ServerOption
  with_connect_hook : Bool → ServerOption
  with_disconnect_hook : Bool → ServerOption

abbrev pub apply_server_option : ServerOption → ServerOptions → ServerOptions
apply_server_option (with_origin_check b) o = record o { has_check_origin = b }
apply_server_option (with_buffer_sizes r w) o = record o {
  read_buffer_size = r;
  write_buffer_size = w;
}
apply_server_option (with_read_limit_bytes n) o = record o { read_limit_bytes = n }
apply_server_option with_read_limit_disabled o = record o { should_disable_read_limit = true }
apply_server_option (with_keepalive p i) o = record o { ping_interval = p; idle_timeout = i }
apply_server_option with_bridge_web_socket_compression o = record o {
  should_enable_compression = true;
}
apply_server_option (with_max_active_connections n) o = record o { max_active_connections = n }
apply_server_option (with_max_connections_per_client n) o = record o {
  max_connections_per_client = n;
}
apply_server_option (with_max_upgrades_per_client_per_minute n) o = record o {
  max_upgrades_per_client = n;
}
apply_server_option (with_connect_hook b) o = record o { has_on_connect = b }
apply_server_option (with_disconnect_hook b) o = record o { has_on_disconnect = b }

abbrev default_server_options : ServerOptions
default_server_options = record {
  has_check_origin = false;
  read_buffer_size = default_buffer_size;
  write_buffer_size = default_buffer_size;
  read_limit_bytes = pos 0;
  should_disable_read_limit = false;
  ping_interval = pos 0;
  idle_timeout = pos 0;
  has_on_connect = false;
  has_on_disconnect = false;
  should_enable_compression = false;
  max_active_connections = pos 0;
  max_connections_per_client = pos 0;
  max_upgrades_per_client = pos 0;
}

abbrev pub apply_server_options : List ServerOption → ServerOptions → ServerOptions
apply_server_options [] o = o
apply_server_options (p ∷ ps) o = apply_server_options ps (apply_server_option p o)

unfoldable pub build_server_options : List ServerOption → ServerOptions
build_server_options ps = apply_server_options ps default_server_options

-- The BridgeConfig that `Wrap` makes of the options.
abbrev pub bridge_config_of : ServerOptions → Settings
bridge_config_of o = record {
  read_buffer_size = o.read_buffer_size;
  write_buffer_size = o.write_buffer_size;
  read_limit_bytes = o.read_limit_bytes;
  should_disable_read_limit = o.should_disable_read_limit;
  ping_interval = o.ping_interval;
  idle_timeout = o.idle_timeout;
  limits = record {
    max_active_connections = o.max_active_connections;
    max_connections_per_client = o.max_connections_per_client;
    max_upgrades_per_client_per_minute = o.max_upgrades_per_client;
  };
  should_enable_compression = o.should_enable_compression;
  has_check_origin = o.has_check_origin;
  has_on_connect = o.has_on_connect;
  has_on_disconnect = o.has_on_disconnect;
}

-- `GetBridgeConfigError`
unfoldable pub get_bridge_config_error : Settings → Option ConfigError
get_bridge_config_error c = or_else (size_error c) (keepalive_error c)

-- The validation accepts exactly the configurations whose sizes, durations and caps are not
-- negative and whose keepalive can work.
pub get_bridge_config_error-accepts :
    (c : Settings) → (get_bridge_config_error c ≡ none) ↔ (SizesValid c × KeepaliveValid c)
unfolding get_bridge_config_error
get_bridge_config_error-accepts c = (
  λ h. (size_error-valid c (ground arith), keepalive_error-valid c (ground arith)),
  λ h. ground (arith, valid-size_error c h.0, valid-keepalive_error c h.1),
)
