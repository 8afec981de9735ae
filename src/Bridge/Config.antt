-- ===== src/Bridge/Config.antt =====
-- bridge.Config of pkg/bridge/bridge.go, its defaults and its validation.
use grpc_tunnel.Prelude.{
  ℕ, zero, suc, ◌*◌, ◌≡◌, ◌↔◌, refl, Bool, true, Option, none, some, ◌==◌, if◌then◌else◌, arith,
}
use grpc_tunnel.Prelude.Int.{ℤ, pos, negsuc, ◌≤ℤ◌}
use grpc_tunnel.Prelude.Text.{Text}
use grpc_tunnel.AbuseControl.{second}
use grpc_tunnel.Settings.{
  Settings, ConfigError, backend_dial_timeout_negative, size_error, keepalive_error, or_else,
  is_negative, default_buffer_size,
}
use grpc_tunnel.Settings.Checks.{
  SizesValid, KeepaliveValid, size_error-valid, valid-size_error, keepalive_error-valid,
  valid-keepalive_error,
}

-- `has_logger` is whether `Logger` is set.
pub record Config : Type 0 where
  pub target_address : Text
  pub settings : Settings
  pub open settings use *
  pub backend_dial_timeout : ℤ
  pub should_require_loopback_backend : Bool
  pub has_logger : Bool

abbrev pub default_backend_dial_timeout : ℤ
default_backend_dial_timeout = pos (10 * second)

abbrev pub or_default : ℤ → ℤ → ℤ
or_default (pos n) d = if n == 0 then d else pos n
or_default (negsuc n) d = negsuc n

-- The defaults that `NewHandler` fills in first.
unfoldable pub with_defaults : Config → Config
with_defaults c = record c {
  settings = record c.settings {
    read_buffer_size = or_default c.settings.read_buffer_size default_buffer_size;
    write_buffer_size = or_default c.settings.write_buffer_size default_buffer_size;
  };
  backend_dial_timeout = or_default c.backend_dial_timeout default_backend_dial_timeout;
  has_logger = true;
}

abbrev pub dial_timeout_error : Config → Option ConfigError
dial_timeout_error c =
    if is_negative c.backend_dial_timeout then some backend_dial_timeout_negative else none

-- `getHandlerConfigError`
unfoldable pub get_handler_config_error : Config → Option ConfigError
get_handler_config_error c =
    or_else (size_error c.settings) (or_else (dial_timeout_error c) (keepalive_error c.settings))

-- The validation accepts exactly the configurations whose sizes and durations are not negative,
-- whose keepalive can work, and whose caps are not negative.
pub get_handler_config_error-accepts :
    (c : Config)
    → (get_handler_config_error c ≡ none)
      ↔ (SizesValid c.settings × (pos 0 ≤ℤ c.backend_dial_timeout) × KeepaliveValid c.settings)
unfolding get_handler_config_error
get_handler_config_error-accepts c = (
  λ h. (
    size_error-valid c.settings (ground arith),
    ground arith,
    keepalive_error-valid c.settings (ground arith),
  ),
  λ h. ground (arith, valid-size_error c.settings h.0, valid-keepalive_error c.settings h.2),
)

is_negative-or_default : (a : ℤ) (n : ℕ) → is_negative (or_default a (pos n)) ≡ is_negative a
is_negative-or_default (pos zero) n = ground arith
is_negative-or_default (pos (suc m)) n = ground arith
is_negative-or_default (negsuc m) n = refl

-- Filling in the defaults does not change the verdict of the validation.
pub get_handler_config_error-with_defaults :
    (c : Config) → get_handler_config_error (with_defaults c) ≡ get_handler_config_error c
unfolding get_handler_config_error with_defaults size_error keepalive_error
get_handler_config_error-with_defaults c = rw (
  is_negative-or_default c.settings.read_buffer_size 4096,
  is_negative-or_default c.settings.write_buffer_size 4096,
  is_negative-or_default c.backend_dial_timeout (10 * second),
)
