-- ===== src/Tunnel/Reconnect.antt =====
-- The reconnect policy of pkg/grpctunnel/api.go. A float64 is told apart as far as the code does:
-- NaN, an infinity, or a finite number m * 2^e. gRPC's defaults are a parameter.
pub mod Usable
use grpc_tunnel.Prelude.{
  ℕ, ◌==◌, Bool, true, false, ◌||◌, Option, none, some, List, [], ◌∷◌, ◌++◌, if◌then◌else◌,
}
use grpc_tunnel.Prelude.Int.{ℤ, pos, ltb_ℤ}
use grpc_tunnel.Settings.{is_negative, is_positive}

pub data Float64 : Type 0 where
  nan : Float64
  infinite : Bool → Float64
  finite : ℤ → ℤ → Float64

abbrev pub float_negative : Float64 → Bool
float_negative nan = false
float_negative (infinite negative) = negative
float_negative (finite m e) = is_negative m

abbrev pub float_positive : Float64 → Bool
float_positive nan = false
float_positive (infinite true) = false
float_positive (infinite false) = true
float_positive (finite m e) = is_positive m

abbrev pub is_finite : Float64 → Bool
is_finite nan = false
is_finite (infinite negative) = false
is_finite (finite m e) = true

pub record ReconnectConfig : Type 0 where
  pub initial_delay : ℤ
  pub max_delay : ℤ
  pub multiplier : Float64
  pub jitter : Float64
  pub min_connect_timeout : ℤ

pub data ReconnectError : Type 0 where
  initial_delay_negative max_delay_negative min_connect_timeout_negative : ReconnectError
  multiplier_negative multiplier_not_finite jitter_negative jitter_not_finite : ReconnectError

abbrev float_error :
    Float64 → ReconnectError → ReconnectError → Option ReconnectError → Option ReconnectError
float_error x negative not_finite rest =
    if float_negative x then some negative else if is_finite x then rest else some not_finite

-- `GetReconnectConfigError`
unfoldable pub get_reconnect_config_error : ReconnectConfig → Option ReconnectError
get_reconnect_config_error c =
    if is_negative c.initial_delay
    then some initial_delay_negative
    else if is_negative c.max_delay
    then some max_delay_negative
    else if is_negative c.min_connect_timeout
    then some min_connect_timeout_negative
    else float_error c.multiplier multiplier_negative multiplier_not_finite
        (float_error c.jitter jitter_negative jitter_not_finite none)

-- gRPC's `backoff.Config` and `ConnectParams`.
pub record Backoff : Type 0 where
  pub base_delay : ℤ
  pub multiplier : Float64
  pub jitter : Float64
  pub max_delay : ℤ

pub record ConnectParams : Type 0 where
  pub backoff : Backoff
  pub min_connect_timeout : ℤ

abbrev pub positive_or : ℤ → ℤ → ℤ
positive_or a d = if is_positive a then a else d

abbrev pub float_or : Float64 → Float64 → Float64
float_or x d = if float_positive x then x else d

abbrev pub connect_params_of : Backoff → ReconnectConfig → ConnectParams
connect_params_of d c = record {
  backoff = record {
    base_delay = positive_or c.initial_delay d.base_delay;
    multiplier = float_or c.multiplier d.multiplier;
    jitter = float_or c.jitter d.jitter;
    max_delay = positive_or c.max_delay d.max_delay;
  };
  min_connect_timeout = positive_or c.min_connect_timeout (pos 0);
}

-- What `ApplyTunnelReconnectPolicy` adds to the options, or its error.
pub data Policy : Type 0 where
  policy : ConnectParams → Policy
  policy_refused : ReconnectError → Policy

abbrev pub unless_reconnect_error : Option ReconnectError → ConnectParams → Policy
unless_reconnect_error (some e) p = policy_refused e
unless_reconnect_error none p = policy p

-- `ApplyTunnelReconnectPolicy`
unfoldable pub apply_tunnel_reconnect_policy : Backoff → ReconnectConfig → Policy
apply_tunnel_reconnect_policy d c =
    unless_reconnect_error (get_reconnect_config_error c) (connect_params_of d c)
