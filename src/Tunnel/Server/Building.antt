-- ===== src/Tunnel/Server/Building.antt =====
-- Which handlers BuildBridgeHandler and HandleBridgeMux of pkg/grpctunnel/server.go make.
use grpc_tunnel.Prelude.{
  ◌≡◌, subst, ◌⊎◌, inl, inr, refl, Bool, true, false, Option, none, some, List, ◌∷◌, arith, is_none,
  if_rule,
}
use grpc_tunnel.Prelude.Int.{ℤ, pos, negsuc, ◌≤ℤ◌, ◌<ℤ◌}
use grpc_tunnel.Prelude.Text.{Text, is_empty}
use grpc_tunnel.AbuseControl.{build_handler_abuse_guard}
use grpc_tunnel.Settings.{Settings, ConfigError}
use grpc_tunnel.Settings.Checks.{SizesValid, KeepaliveValid}
use grpc_tunnel.Tunnel.Options.{get_bridge_config_error, get_bridge_config_error-accepts}
use grpc_tunnel.Tunnel.Server.{
  TunnelHandler, Built, built, failed, BuildError, bridge_path_required, unless_config_error,
  handler_of, build_bridge_handler, handle_bridge_mux, registered, or_default_size,
}

or_default_size_bounds : (a : ℤ) → pos 0 ≤ℤ a → pos 0 <ℤ or_default_size a
or_default_size_bounds (pos n) h = ground arith
or_default_size_bounds (negsuc n) h = ground arith

-- What a handler that was built has been checked for.
pub record IsChecked (c : Settings) (h : TunnelHandler) : Type 0 where
  pub sizes_valid : SizesValid c
  pub keepalive_valid : KeepaliveValid c
  pub config_kept : h.config ≡ c
  pub guard_limits : h.guard.limits ≡ c.limits
  pub reads_buffered : pos 0 <ℤ h.upgrader.read_buffer_size
  pub writes_buffered : pos 0 <ℤ h.upgrader.write_buffer_size

handler_of-IsChecked :
    (c : Settings) → get_bridge_config_error c ≡ none → IsChecked c (handler_of c)
unfolding build_handler_abuse_guard
handler_of-IsChecked c h =
    let valid = (get_bridge_config_error-accepts c).0 h in
    record {
      sizes_valid = valid.0;
      keepalive_valid = valid.1;
      config_kept = refl;
      guard_limits = refl;
      reads_buffered = or_default_size_bounds c.read_buffer_size valid.0.0;
      writes_buffered = or_default_size_bounds c.write_buffer_size valid.0.1;
    }

built-injective : (h k : TunnelHandler) → built h ≡ built k → h ≡ k
built-injective h k p = cc

unless_config_error-IsChecked :
    (c : Settings) (e : Option ConfigError) (h : TunnelHandler)
    → get_bridge_config_error c ≡ e
    → unless_config_error e c ≡ built h
    → IsChecked c h
unless_config_error-IsChecked c none h v p =
    subst (IsChecked c) (built-injective (handler_of c) h p) (handler_of-IsChecked c v)
unless_config_error-IsChecked c (some e) h v p = cc

-- A handler is built only for a gRPC server that is there and a configuration that the validation
-- accepts; it keeps the configuration, its guard has the configuration's limits, and both its
-- buffer sizes are positive.
pub build_bridge_handler-IsChecked :
    (has_server : Bool) (c : Settings) (h : TunnelHandler)
    → build_bridge_handler has_server c ≡ built h
    → (has_server ≡ true) × IsChecked c h
unfolding build_bridge_handler
build_bridge_handler-IsChecked true c h p =
    (refl, unless_config_error-IsChecked c (get_bridge_config_error c) h refl p)
build_bridge_handler-IsChecked false c h p = cc

-- Either the built handler is added to the routes, under a path that is not empty, or there is an
-- error and the routes are as they were.
abbrev pub AddsOrRefuses :
    Built TunnelHandler
    → List (Text × TunnelHandler)
    → Text
    → Option BuildError × List (Text × TunnelHandler)
    → Type 0
AddsOrRefuses b routes path r =
    ((r.0 ≡ none)
      × (is_empty path ≡ false)
      × ((h : TunnelHandler) × (b ≡ built h) × (r.1 ≡ (path, h) ∷ routes)))
    ⊎ ((is_none r.0 ≡ false) × (r.1 ≡ routes))

registered-AddsOrRefuses :
    (b : Built TunnelHandler) (routes : List (Text × TunnelHandler)) (path : Text)
    → is_empty path ≡ false
    → AddsOrRefuses b routes path (registered b routes path)
registered-AddsOrRefuses (built h) routes path given = inl (refl, given, (h, refl, refl))
registered-AddsOrRefuses (failed e) routes path given = inr (refl, refl)

-- `handle_bridge_mux` either succeeds, and then has added exactly the built handler under a path
-- that is not empty, or returns an error and leaves the routes as they are.
pub handle_bridge_mux-AddsOrRefuses :
    (routes : List (Text × TunnelHandler)) (path : Text) (has_server : Bool) (c : Settings)
    → AddsOrRefuses
        (build_bridge_handler has_server c)
        routes
        path
        (handle_bridge_mux (some routes) path has_server c)
unfolding handle_bridge_mux
handle_bridge_mux-AddsOrRefuses routes path has_server c =
    if_rule (AddsOrRefuses (build_bridge_handler has_server c) routes path) (is_empty path)
      (some bridge_path_required, routes)
      (registered (build_bridge_handler has_server c) routes path) (λ blank. inr (refl, refl))
      (λ given. registered-AddsOrRefuses (build_bridge_handler has_server c) routes path given)
