-- ===== src/Tunnel/Reconnect/Usable.antt =====
-- What ApplyTunnelReconnectPolicy of pkg/grpctunnel/api.go passes on to gRPC.
use grpc_tunnel.Prelude.{◌≡◌, ◌↔◌, refl, true, false, Option, none, some, arith, if_rule, subst}
use grpc_tunnel.Prelude.Int.{pos, ◌≤ℤ◌, ◌<ℤ◌}
use grpc_tunnel.Tunnel.Reconnect.{
  Float64, float_negative, float_positive, is_finite, ReconnectConfig, ReconnectError,
  get_reconnect_config_error, Backoff, ConnectParams, connect_params_of, policy,
  unless_reconnect_error, apply_tunnel_reconnect_policy,
}

abbrev pub IsFactor : Float64 → Type 0
IsFactor x = (is_finite x ≡ true) × (float_negative x ≡ false)

-- No duration is negative, and both factors are finite and not negative.
abbrev pub ReconnectValid : ReconnectConfig → Type 0
ReconnectValid c =
    (pos 0 ≤ℤ c.initial_delay)
    × (pos 0 ≤ℤ c.max_delay)
    × (pos 0 ≤ℤ c.min_connect_timeout)
    × IsFactor c.multiplier
    × IsFactor c.jitter

-- The validation accepts exactly the configurations whose durations are not negative and whose
-- factors are finite and not negative.
pub get_reconnect_config_error-accepts :
    (c : ReconnectConfig) → (get_reconnect_config_error c ≡ none) ↔ ReconnectValid c
unfolding get_reconnect_config_error
get_reconnect_config_error-accepts c = (
  λ h. (
    ground arith,
    ground arith,
    ground arith,
    (ground arith, ground arith),
    (ground arith, ground arith),
  ),
  λ h. ground arith,
)

-- Delays that can be waited, and factors that can be computed with.
pub record IsUsableBackoff (b : Backoff) : Type 0 where
  pub base_delay : pos 0 <ℤ b.base_delay
  pub max_delay : pos 0 <ℤ b.max_delay
  pub multiplier : IsFactor b.multiplier
  pub jitter : IsFactor b.jitter

policy-injective : (p q : ConnectParams) → policy p ≡ policy q → p ≡ q
policy-injective p q h = cc

params-IsUsable :
    (d : Backoff) (c : ReconnectConfig)
    → IsUsableBackoff d
    → ReconnectValid c
    → IsUsableBackoff (connect_params_of d c).backoff
params-IsUsable d c u v = record {
  base_delay = ground (arith, u.base_delay);
  max_delay = ground (arith, u.max_delay);
  multiplier =
      if_rule IsFactor (float_positive c.multiplier) c.multiplier d.multiplier (λ y. v.3)
        (λ n. u.multiplier);
  jitter = if_rule IsFactor (float_positive c.jitter) c.jitter d.jitter (λ y. v.4) (λ n. u.jitter);
}

unless-IsUsable :
    (d : Backoff) (c : ReconnectConfig) (e : Option ReconnectError) (p : ConnectParams)
    → IsUsableBackoff d
    → get_reconnect_config_error c ≡ e
    → unless_reconnect_error e (connect_params_of d c) ≡ policy p
    → IsUsableBackoff p.backoff × (pos 0 ≤ℤ p.min_connect_timeout)
unless-IsUsable d c (some e) p u v h = cc
unless-IsUsable d c none p u v h =
    let same = policy-injective (connect_params_of d c) p h in
    subst (λ q. IsUsableBackoff q.backoff × (pos 0 ≤ℤ q.min_connect_timeout)) same
      (params-IsUsable d c u ((get_reconnect_config_error-accepts c).0 v), ground arith)

-- If gRPC's own defaults have positive delays and finite factors that are not negative, then so has
-- every policy that is passed on, whatever was configured; its connect timeout is not negative.
pub apply_tunnel_reconnect_policy-IsUsable :
    (d : Backoff) (c : ReconnectConfig) (p : ConnectParams)
    → IsUsableBackoff d
    → apply_tunnel_reconnect_policy d c ≡ policy p
    → IsUsableBackoff p.backoff × (pos 0 ≤ℤ p.min_connect_timeout)
unfolding apply_tunnel_reconnect_policy
apply_tunnel_reconnect_policy-IsUsable d c p u h =
    unless-IsUsable d c (get_reconnect_config_error c) p u refl h
