-- ===== src/Settings.antt =====
-- The websocket settings that bridge.Config (pkg/bridge/bridge.go) and grpctunnel.BridgeConfig
-- (pkg/grpctunnel/api.go) have in common, and the functions on them, which the two packages repeat
-- under other names. Durations are signed nanoseconds.
pub mod Checks
pub mod Pinger
use grpc_tunnel.Prelude.{
  ℕ, Bool, true, false, ◌&&◌, ◌||◌, Option, none, some, List, [], ◌∷◌, if◌then◌else◌,
}
use grpc_tunnel.Prelude.Int.{ℤ, pos, ltb_ℤ, leb_ℤ}
use grpc_tunnel.AbuseControl.{Limits, second}

-- A callback is told apart only by whether it is set; what it does is its owner's.
pub record Settings : Type 0 where
  pub read_buffer_size : ℤ
  pub write_buffer_size : ℤ
  pub read_limit_bytes : ℤ
  pub should_disable_read_limit : Bool
  pub ping_interval : ℤ
  pub idle_timeout : ℤ
  pub limits : Limits
  pub open limits use *
  pub should_enable_compression : Bool
  pub has_check_origin : Bool
  pub has_on_connect : Bool
  pub has_on_disconnect : Bool

pub data ConfigError : Type 0 where
  read_buffer_size_negative write_buffer_size_negative read_limit_negative : ConfigError
  read_limit_disabled_and_set ping_interval_negative idle_timeout_negative : ConfigError
  backend_dial_timeout_negative ping_interval_missing ping_interval_too_long : ConfigError
  max_active_negative max_per_client_negative max_upgrades_negative : ConfigError

abbrev pub is_negative : ℤ → Bool
is_negative a = ltb_ℤ a (pos 0)

abbrev pub is_positive : ℤ → Bool
is_positive a = ltb_ℤ (pos 0) a

-- The first part of the two validations, up to the idle timeout.
unfoldable pub size_error : Settings → Option ConfigError
size_error s =
    if is_negative s.read_buffer_size
    then some read_buffer_size_negative
    else if is_negative s.write_buffer_size
    then some write_buffer_size_negative
    else if is_negative s.read_limit_bytes
    then some read_limit_negative
    else if s.should_disable_read_limit && is_positive s.read_limit_bytes
    then some read_limit_disabled_and_set
    else if is_negative s.ping_interval
    then some ping_interval_negative
    else if is_negative s.idle_timeout
    then some idle_timeout_negative
    else none

-- The last part of the two validations, from the keepalive on.
unfoldable pub keepalive_error : Settings → Option ConfigError
keepalive_error s =
    if is_positive s.idle_timeout && leb_ℤ s.ping_interval (pos 0)
    then some ping_interval_missing
    else if is_positive s.idle_timeout && leb_ℤ s.idle_timeout s.ping_interval
    then some ping_interval_too_long
    else if is_negative s.max_active_connections
    then some max_active_negative
    else if is_negative s.max_connections_per_client
    then some max_per_client_negative
    else if is_negative s.max_upgrades_per_client_per_minute
    then some max_upgrades_negative
    else none

abbrev pub or_else : Option ConfigError → Option ConfigError → Option ConfigError
or_else (some e) r = some e
or_else none r = r

abbrev pub default_read_limit_bytes : ℤ
default_read_limit_bytes = pos 16_777_216

abbrev pub default_buffer_size : ℤ
default_buffer_size = pos 4096

-- `getHandlerReadLimitBytes`
unfoldable pub get_read_limit_bytes : Settings → ℤ
get_read_limit_bytes s =
    if s.should_disable_read_limit
    then pos 0
    else if is_positive s.read_limit_bytes
    then s.read_limit_bytes
    else default_read_limit_bytes

abbrev ping_capped : Settings → ℤ
ping_capped s =
    if is_positive s.idle_timeout
      && (leb_ℤ s.ping_interval (pos 0) || ltb_ℤ s.idle_timeout s.ping_interval)
    then s.idle_timeout
    else s.ping_interval

-- `buildHandlerPingWriteTimeout`
unfoldable pub build_ping_write_timeout : Settings → ℤ
build_ping_write_timeout s = if leb_ℤ (ping_capped s) (pos 0) then pos second else ping_capped s

-- What `applyHandlerConnectionSettings` does to the socket, in order.
pub data Setup : Type 0 where
  read_limit : ℤ → Setup
  read_deadline : ℤ → Setup
  pong_handler : ℤ → Setup
  pinger : ℤ → ℤ → Setup

abbrev limit_setup : ℤ → List Setup → List Setup
limit_setup n rest = if is_positive n then read_limit n ∷ rest else rest

abbrev ping_setup : Settings → List Setup
ping_setup s =
    if leb_ℤ s.ping_interval (pos 0)
    then []
    else pinger s.ping_interval (build_ping_write_timeout s) ∷ []

-- `deadline_fails` is whether `SetReadDeadline` returns an error; then the setup stops, and fails.
abbrev idle_setup : Bool → Settings → Bool × List Setup
idle_setup deadline_fails s =
    if is_positive s.idle_timeout
    then (if deadline_fails
        then (false, read_deadline s.idle_timeout ∷ [])
        else (true, read_deadline s.idle_timeout ∷ pong_handler s.idle_timeout ∷ ping_setup s))
    else (true, ping_setup s)

-- `applyHandlerConnectionSettings`: whether it succeeds, and what it does.
unfoldable pub apply_connection_settings : Bool → Settings → Bool × List Setup
apply_connection_settings deadline_fails s =
    let (done, rest) = idle_setup deadline_fails s in
    (done, limit_setup (get_read_limit_bytes s) rest)
