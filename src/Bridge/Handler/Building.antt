-- ===== src/Bridge/Handler/Building.antt =====
-- Which handlers `NewHandler` of pkg/bridge/bridge.go leaves usable.
use grpc_tunnel.Prelude.{◌≡◌, ◌⊎◌, refl, Bool, false, Option, none, some, arith, is_none}
use grpc_tunnel.Prelude.Text.{Text}
use grpc_tunnel.Http.{Url}
use grpc_tunnel.Settings.{ConfigError}
use grpc_tunnel.Bridge.Config.{Config, with_defaults, get_handler_config_error}
use grpc_tunnel.Bridge.Target.{
  Judged, accepted, rejected, parse_bridge_target_url, should_warn_plaintext_backend,
}
use grpc_tunnel.Bridge.Handler.{Handler, new_handler, with_target, with_config}

module _ (parse_url : Text → Option Url) (parse_ip : Text → Option Bool) where
  -- What a handler without an initialisation error has been checked for.
  pub record IsUsable (cfg : Config) (h : Handler) (u : Url) : Type 0 where
    pub config_valid : get_handler_config_error (with_defaults cfg) ≡ none
    pub target_parsed : parse_bridge_target_url parse_url cfg.target_address ≡ accepted u
    pub target_kept : h.target ≡ some u
    pub policy :
        (cfg.should_require_loopback_backend ≡ false)
        ⊎ (should_warn_plaintext_backend parse_ip u.hostname ≡ false)

  with_target-refused :
      (c : Config) (r : Judged Url)
      → (with_target parse_url parse_ip c r).0.target ≡ none
      → is_none (with_target parse_url parse_ip c r).0.init_err ≡ false
  with_target-refused c (rejected e) h = refl
  with_target-refused c (accepted u) h = ground arith

  with_config-refused :
      (c : Config) (e : Option ConfigError)
      → (with_config parse_url parse_ip c e).0.target ≡ none
      → is_none (with_config parse_url parse_ip c e).0.init_err ≡ false
  with_config-refused c (some e) h = refl
  with_config-refused c none h =
      with_target-refused c (parse_bridge_target_url parse_url c.target_address) h

  -- A handler without a proxy has an initialisation error, so that no request reaches the proxy.
  pub new_handler-refused :
      (cfg : Config)
      → (new_handler parse_url parse_ip cfg).0.target ≡ none
      → is_none (new_handler parse_url parse_ip cfg).0.init_err ≡ false
  unfolding new_handler
  new_handler-refused cfg h =
      with_config-refused (with_defaults cfg) (get_handler_config_error (with_defaults cfg)) h
