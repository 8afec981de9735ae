-- ===== src/Bridge/Handler.antt =====
-- NewHandler and ServeHTTP of pkg/bridge/bridge.go. What a request does is a list of effects; its
-- `defer` statements are a list of deferred calls, the last one first. Gorilla's upgrade and Go's
-- HTTP/2 server are outside: `World` says how they turn out.
pub mod Building
pub mod Serving
pub mod Slots
pub mod Hooks
use grpc_tunnel.Prelude.{
  ℕ, Bool, true, false, ◌&&◌, not, Option, none, some, List, [], ◌∷◌, ◌++◌, if◌then◌else◌,
}
use grpc_tunnel.Prelude.Text.{Text}
use grpc_tunnel.Http.{Url, Request}
use grpc_tunnel.AbuseControl.{
  Guard, GuardError, build_handler_abuse_guard, reserve_handler_connection,
  clear_handler_connection,
}
use grpc_tunnel.Settings.{ConfigError, Setup, apply_connection_settings}
use grpc_tunnel.Bridge.Config.{Config, with_defaults, get_handler_config_error}
use grpc_tunnel.Bridge.Target.{
  TargetError, Judged, accepted, rejected, parse_bridge_target_url, should_warn_plaintext_backend,
}

-- The structured events that the handler logs.
pub data LogEvent : Type 0 where
  bridge_config_invalid backend_transport_policy_violation : LogEvent
  backend_plaintext_non_loopback bridge_request_rejected : LogEvent
  ws_upgrade_rejected_abuse_control ws_upgrade_failed ws_upgrade_succeeded : LogEvent
  ws_connection_setup_failed tunnel_connect tunnel_disconnect : LogEvent

pub data InitError : Type 0 where
  config_error : ConfigError → InitError
  target_error : TargetError → InitError
  policy_error : InitError

-- `target` is the URL that the reverse proxy directs every request to; it is there once the proxy is.
pub record Handler : Type 0 where
  pub config : Config
  pub target : Option Url
  pub init_err : Option InitError

module _ (parse_url : Text → Option Url) (parse_ip : Text → Option Bool) where
  -- `getBridgeBackendTransportPolicyError`, for a URL that is not nil: whether there is an error.
  unfoldable pub violates_transport_policy : Config → Url → Bool
  violates_transport_policy c u =
      c.should_require_loopback_backend && should_warn_plaintext_backend parse_ip u.hostname

  abbrev refused : Config → InitError → LogEvent → Handler × List LogEvent
  refused c e l = (record { config = c; target = none; init_err = some e }, l ∷ [])

  abbrev plaintext_warning : Url → List LogEvent
  plaintext_warning u =
      if should_warn_plaintext_backend parse_ip u.hostname
      then backend_plaintext_non_loopback ∷ []
      else []

  abbrev pub with_target : Config → Judged Url → Handler × List LogEvent
  with_target c (rejected e) = refused c (target_error e) bridge_config_invalid
  with_target c (accepted u) =
      if violates_transport_policy c u
      then refused c policy_error backend_transport_policy_violation
      else (record { config = c; target = some u; init_err = none }, plaintext_warning u)

  abbrev pub with_config : Config → Option ConfigError → Handler × List LogEvent
  with_config c (some e) = refused c (config_error e) bridge_config_invalid
  with_config c none = with_target c (parse_bridge_target_url parse_url c.target_address)

  -- `NewHandler`: the handler and what it logs. Its guard is `build_handler_abuse_guard` of the
  -- limits, and is passed on beside the handler, since requests change it.
  unfoldable pub new_handler : Config → Handler × List LogEvent
  new_handler cfg = let c = with_defaults cfg in with_config c (get_handler_config_error c)

pub data Effect : Type 0 where
  log : LogEvent → Effect
  http_error : ℕ → Effect
  slot_reserved slot_cleared : Effect
  upgraded socket_closed : Effect
  set_up : List Setup → Effect
  keepalive_started keepalive_stopped : Effect
  on_connect on_disconnect : Effect
  conn_wrapped served conn_closed : Effect

pub data Deferred : Type 0 where
  clear_slot close_socket stop_keepalive disconnect close_conn : Deferred

-- Whether the upgrade succeeds, and whether the socket refuses a read deadline.
pub record World : Type 0 where
  pub upgrade_succeeds : Bool
  pub deadline_fails : Bool

-- Up to the point where the handler returns and runs its deferred calls.
pub record Begun : Type 0 where
  pub effects : List Effect
  pub deferred : List Deferred
  pub guard : Option Guard

abbrev pub connect_hook : Handler → List Effect
connect_hook h = if h.config.has_on_connect then on_connect ∷ [] else []

-- The tunnel is connected, served, and over.
abbrev pub serve : Handler → List Effect × List Deferred
serve h = (
  keepalive_started ∷ connect_hook h ++ log tunnel_connect ∷ conn_wrapped ∷ served ∷ [],
  close_conn ∷ disconnect ∷ stop_keepalive ∷ close_socket ∷ clear_slot ∷ [],
)

abbrev pub set_up_socket : Handler → Bool × List Setup → List Effect × List Deferred
set_up_socket h (false, setups) =
    (set_up setups ∷ log ws_connection_setup_failed ∷ [], close_socket ∷ clear_slot ∷ [])
set_up_socket h (true, setups) = let (es, ds) = serve h in (set_up setups ∷ es, ds)

abbrev pub after_upgrade : Handler → Bool → Bool × List Setup → List Effect × List Deferred
after_upgrade h false s = (log ws_upgrade_failed ∷ [], clear_slot ∷ [])
after_upgrade h true s =
    let (es, ds) = set_up_socket h s in (upgraded ∷ log ws_upgrade_succeeded ∷ es, ds)

abbrev pub upgrade : Handler → World → List Effect × List Deferred
upgrade h w =
    after_upgrade h w.upgrade_succeeds
      (apply_connection_settings w.deadline_fails h.config.settings)

abbrev pub admit : Handler → World → Option GuardError × Option Guard → Begun
admit h w (some e, g) = record {
  effects = log ws_upgrade_rejected_abuse_control ∷ http_error 429 ∷ [];
  deferred = [];
  guard = g;
}
admit h w (none, g) =
    let (es, ds) = upgrade h w in record { effects = slot_reserved ∷ es; deferred = ds; guard = g }

abbrev pub unless_invalid : Option InitError → Option Guard → Begun → Begun
unless_invalid none g b = b
unless_invalid (some e) g b = record {
  effects = log bridge_request_rejected ∷ http_error 500 ∷ [];
  deferred = [];
  guard = g;
}

-- `ServeHTTP` until it returns.
unfoldable pub begin : Handler → Option Guard → Option Request → ℕ → World → Begun
begin h g r now w = unless_invalid h.init_err g (admit h w (reserve_handler_connection g r now))

abbrev disconnect_hook : Handler → List Effect
disconnect_hook h = if h.config.has_on_disconnect then on_disconnect ∷ [] else []

abbrev pub deferred_effects : Handler → Deferred → List Effect
deferred_effects h clear_slot = slot_cleared ∷ []
deferred_effects h close_socket = socket_closed ∷ []
deferred_effects h stop_keepalive = keepalive_stopped ∷ []
deferred_effects h disconnect = log tunnel_disconnect ∷ disconnect_hook h
deferred_effects h close_conn = conn_closed ∷ []

abbrev pub deferred_guard : Option Request → Deferred → Option Guard → Option Guard
deferred_guard r clear_slot g = clear_handler_connection g r
deferred_guard r d g = g

-- The deferred calls, from the guard as it is by then.
unfoldable pub finish :
    Handler → Option Request → List Deferred → Option Guard → List Effect × Option Guard
finish h r [] g = ([], g)
finish h r (d ∷ ds) g =
    let (es, g') = finish h r ds (deferred_guard r d g) in (deferred_effects h d ++ es, g')

-- The whole of `ServeHTTP`, where no other request comes between.
unfoldable pub serve_http :
    Handler → Option Guard → Option Request → ℕ → World → List Effect × Option Guard
unfolding begin finish
serve_http h g r now w =
    let b = begin h g r now w in
    let (es, g') = finish h r b.deferred b.guard in (b.effects ++ es, g')
