-- ===== src/AbuseControl.antt =====
-- pkg/bridge/abuse_control.go, and pkg/grpctunnel/abuse_control.go, which is the same code under
-- other names. A time is a number of nanoseconds since Go's zero time; counters are plain numbers.
-- `now.Sub(start) >= minute` is `start + minute ≤ now`: where `now` precedes `start`, neither holds.
pub mod Branches
pub mod Sessions
pub mod Rate
pub mod Tests
use grpc_tunnel.Prelude.{
  ℕ, ◌+◌, ◌-◌, ◌*◌, Bool, ◌&&◌, ◌||◌, Option, none, some, List, [], ltb, leb, ◌==◌, if◌then◌else◌,
}
use grpc_tunnel.Prelude.Int.{ℤ, pos, ltb_ℤ, leb_ℤ}
use grpc_tunnel.Prelude.Text.{Text, lit, is_empty, trim_space, split_host_port}
use grpc_tunnel.Prelude.Dict.{lookup, insert, delete, or_zero}
use grpc_tunnel.Http.{Request}

abbrev pub second : ℕ
second = 1_000_000_000

abbrev pub window_duration : ℕ
window_duration = 60 * second

-- One client's fixed-window attempt count; the zero value is the window of a client not seen.
pub record RateWindow : Type 0 where
  pub started_at : ℕ
  pub count : ℕ

abbrev pub zero_window : RateWindow
zero_window = record { started_at = 0; count = 0 }

-- The three limits that the guard reads of the handler's configuration.
pub record Limits : Type 0 where
  pub max_active_connections : ℤ
  pub max_connections_per_client : ℤ
  pub max_upgrades_per_client_per_minute : ℤ

pub record Guard : Type 0 where
  pub limits : Limits
  pub active_connections : ℕ
  pub client_connections : List (Text × ℕ)
  pub client_upgrade_attempts : List (Text × RateWindow)

pub data GuardError : Type 0 where
  rate_exceeded : Text → GuardError
  active_cap_exceeded : GuardError
  client_cap_exceeded : Text → GuardError

unfoldable pub build_handler_abuse_guard : Limits → Guard
build_handler_abuse_guard limits = record {
  limits = limits;
  active_connections = 0;
  client_connections = [];
  client_upgrade_attempts = [];
}

abbrev host_key : Text → Option (Text × Text) → Text
host_key addr none = addr
host_key addr (some (host, port)) = trim_space host

abbrev address_key : Text → Text
address_key addr = if is_empty addr then [] else host_key addr (split_host_port addr)

pub build_handler_client_key : Option Request → Text
build_handler_client_key none = []
build_handler_client_key (some r) = address_key (trim_space r.remote_addr)

abbrev pub unknown_key : Text
unknown_key = lit "unknown"

-- The key that both methods count a request under.
pub guard_key : Option Request → Text
guard_key r = let key = build_handler_client_key r in if is_empty key then unknown_key else key

abbrev pub connections_of : Guard → Text → ℕ
connections_of g key = or_zero (lookup key g.client_connections) 0

abbrev pub window_of : Guard → Text → RateWindow
window_of g key = or_zero (lookup key g.client_upgrade_attempts) zero_window

abbrev pub has_lapsed : RateWindow → ℕ → Bool
has_lapsed w now = (w.started_at == 0) || leb (w.started_at + window_duration) now

abbrev pub current_window : RateWindow → ℕ → RateWindow
current_window w now = if has_lapsed w now then record { started_at = now; count = 0 } else w

abbrev charge_window : Guard → Text → RateWindow → Option GuardError × Guard
charge_window g key w =
    if leb_ℤ g.limits.max_upgrades_per_client_per_minute (pos w.count)
    then (some (rate_exceeded key), g)
    else (
      none,
      record g {
        client_upgrade_attempts =
            insert key (record w { count = w.count + 1 }) g.client_upgrade_attempts;
      },
    )

-- The attempt is charged to the client's window, before the caps are looked at.
pub charge_upgrade : Guard → Text → ℕ → Option GuardError × Guard
charge_upgrade g key now =
    if ltb_ℤ (pos 0) g.limits.max_upgrades_per_client_per_minute
    then charge_window g key (current_window (window_of g key) now)
    else (none, g)

-- Whether a cap is set and reached.
abbrev pub at_cap : ℤ → ℕ → Bool
at_cap cap n = ltb_ℤ (pos 0) cap && leb_ℤ cap (pos n)

pub take_slot : Guard → Text → Option GuardError × Guard
take_slot g key =
    if at_cap g.limits.max_active_connections g.active_connections
    then (some active_cap_exceeded, g)
    else if at_cap g.limits.max_connections_per_client (connections_of g key)
    then (some (client_cap_exceeded key), g)
    else (
      none,
      record g {
        active_connections = g.active_connections + 1;
        client_connections = insert key (connections_of g key + 1) g.client_connections;
      },
    )

abbrev then_take_slot : Option GuardError × Guard → Text → Option GuardError × Guard
then_take_slot (some e, g) key = (some e, g)
then_take_slot (none, g) key = take_slot g key

pub reserve : Guard → Text → ℕ → Option GuardError × Guard
reserve g key now = then_take_slot (charge_upgrade g key now) key

pub release : Guard → Text → Guard
release g key = record g {
  active_connections =
      if ltb 0 g.active_connections then g.active_connections - 1 else g.active_connections;
  client_connections =
      if leb (connections_of g key) 1
      then delete key g.client_connections
      else insert key (connections_of g key - 1) g.client_connections;
}

-- The methods proper: a nil guard admits everything.
unfoldable pub reserve_handler_connection :
    Option Guard → Option Request → ℕ → Option GuardError × Option Guard
reserve_handler_connection none r now = (none, none)
reserve_handler_connection (some g) r now =
    let (e, g') = reserve g (guard_key r) now in (e, some g')

unfoldable pub clear_handler_connection : Option Guard → Option Request → Option Guard
clear_handler_connection none r = none
clear_handler_connection (some g) r = some (release g (guard_key r))
