-- ===== src/Settings/Checks.antt =====
-- What the validations of pkg/bridge/bridge.go and pkg/grpctunnel/server.go accept, and what the
-- accepted settings give.
use grpc_tunnel.Prelude.{◌≡◌, true, false, ◌⊎◌, none, List, [], ◌∷◌, ◌++◌, arith, if◌then◌else◌}
use grpc_tunnel.Prelude.Int.{pos, ◌≤ℤ◌, ◌<ℤ◌}
use grpc_tunnel.Settings.{
  Settings, size_error, keepalive_error, get_read_limit_bytes, build_ping_write_timeout,
  apply_connection_settings, Setup, read_limit, read_deadline, pong_handler, pinger, is_positive,
}

-- No size or duration is negative, and a read limit is not both set and disabled.
abbrev pub SizesValid : Settings → Type 0
SizesValid s =
    (pos 0 ≤ℤ s.read_buffer_size)
    × (pos 0 ≤ℤ s.write_buffer_size)
    × (pos 0 ≤ℤ s.read_limit_bytes)
    × ((s.should_disable_read_limit ≡ false) ⊎ (s.read_limit_bytes ≤ℤ pos 0))
    × (pos 0 ≤ℤ s.ping_interval)
    × (pos 0 ≤ℤ s.idle_timeout)

-- The ping interval is positive and below an idle timeout that is set, and no cap is negative.
abbrev pub KeepaliveValid : Settings → Type 0
KeepaliveValid s =
    ((s.idle_timeout ≤ℤ pos 0) ⊎ ((pos 0 <ℤ s.ping_interval) × (s.ping_interval <ℤ s.idle_timeout)))
    × (pos 0 ≤ℤ s.max_active_connections)
    × (pos 0 ≤ℤ s.max_connections_per_client)
    × (pos 0 ≤ℤ s.max_upgrades_per_client_per_minute)

pub size_error-valid : (s : Settings) → size_error s ≡ none → SizesValid s
unfolding size_error
size_error-valid s h =
    (ground arith, ground arith, ground arith, ground arith, ground arith, ground arith)

pub valid-size_error : (s : Settings) → SizesValid s → size_error s ≡ none
unfolding size_error
valid-size_error s h = ground arith

pub keepalive_error-valid : (s : Settings) → keepalive_error s ≡ none → KeepaliveValid s
unfolding keepalive_error
keepalive_error-valid s h = (ground arith, ground arith, ground arith, ground arith)

pub valid-keepalive_error : (s : Settings) → KeepaliveValid s → keepalive_error s ≡ none
unfolding keepalive_error
valid-keepalive_error s h = ground arith

-- The deadline of a ping is positive, and within an idle timeout that is set.
pub ping_write_timeout_bounds :
    (s : Settings)
    → (pos 0 <ℤ build_ping_write_timeout s)
      × ((s.idle_timeout ≤ℤ pos 0) ⊎ (build_ping_write_timeout s ≤ℤ s.idle_timeout))
unfolding build_ping_write_timeout
ping_write_timeout_bounds s = (ground arith, ground arith)

-- Reads are limited, by a positive number of bytes, unless the limit is disabled.
pub read_limit_bounds :
    (s : Settings)
    → ((s.should_disable_read_limit ≡ true) × (get_read_limit_bytes s ≡ pos 0))
      ⊎ ((s.should_disable_read_limit ≡ false) × (pos 0 <ℤ get_read_limit_bytes s))
unfolding get_read_limit_bytes
read_limit_bounds s = ground arith

-- With an idle timeout that is set, valid settings arm the deadline, renew it on every pong, and
-- ping more often than it runs out, behind the read limit, if there is one. Where the deadline
-- cannot be set the setup fails, and neither the pong handler nor the pinger is there.
pub keepalive_setup :
    (s : Settings)
    → KeepaliveValid s
    → is_positive s.idle_timeout ≡ true
    → (limit : List Setup) × (apply_connection_settings false s ≡ (
      true,
      limit
          ++ read_deadline s.idle_timeout
            ∷ pong_handler s.idle_timeout
            ∷ pinger s.ping_interval (build_ping_write_timeout s)
            ∷ [],
    ))
      × (apply_connection_settings true s ≡ (false, limit ++ read_deadline s.idle_timeout ∷ []))
      × (s.ping_interval <ℤ s.idle_timeout)
unfolding apply_connection_settings
keepalive_setup s v h = (
  if is_positive (get_read_limit_bytes s) then read_limit (get_read_limit_bytes s) ∷ [] else [],
  ground arith,
  ground arith,
  ground arith,
)
