-- ===== src/Tunnel/Server.antt =====
-- BuildBridgeHandler, Wrap and HandleBridgeMux of pkg/grpctunnel/server.go. What a request does is a
-- list of effects, as for the handler of pkg/bridge; the spans and metrics of
-- pkg/grpctunnel/observability.go are among them. Gorilla's upgrade and Go's HTTP/2 server are
-- outside: `World` says how they turn out.
pub mod Building
pub mod Serving
pub mod Metrics
pub mod Tests
use grpc_tunnel.Prelude.{
  ℕ, ◌*◌, ◌==◌, Bool, true, false, ◌||◌, Option, none, some, List, [], ◌∷◌, ◌++◌, if◌then◌else◌,
}
use grpc_tunnel.Prelude.Int.{ℤ, pos, negsuc, leb_ℤ}
use grpc_tunnel.Prelude.Text.{Text, is_empty}
use grpc_tunnel.Http.{Request}
use grpc_tunnel.AbuseControl.{
  Guard, GuardError, build_handler_abuse_guard, reserve_handler_connection,
  clear_handler_connection,
}
use grpc_tunnel.Settings.{
  Settings, ConfigError, Setup, apply_connection_settings, default_buffer_size,
}
use grpc_tunnel.Bridge.Handler.{World}
use grpc_tunnel.Tunnel.Options.{
  ServerOption, build_server_options, bridge_config_of, get_bridge_config_error,
}

-- A write-buffer pool: the one that the process shares for a size, or one of the handler's own.
pub data Pool : Type 0 where
  shared_pool : ℤ → Pool
  own_pool : Pool

abbrev is_cacheable_size : ℤ → Bool
is_cacheable_size (negsuc n) = false
is_cacheable_size (pos n) =
    (n == 4096) || (n == 8 * 1024) || (n == 16 * 1024) || (n == 32 * 1024) || (n == 64 * 1024)

abbrev pool_of_size : ℤ → Pool
pool_of_size n = if is_cacheable_size n then shared_pool n else own_pool

-- `buildWebSocketWriteBufferPool`; the shared pools are told apart by their size.
unfoldable pub build_web_socket_write_buffer_pool : ℤ → Pool
build_web_socket_write_buffer_pool n =
    pool_of_size (if leb_ℤ n (pos 0) then default_buffer_size else n)

-- What the handler takes of its configuration for `websocket.Upgrader`.
pub record Upgrader : Type 0 where
  pub read_buffer_size : ℤ
  pub write_buffer_size : ℤ
  pub write_buffer_pool : Pool
  pub has_check_origin : Bool
  pub enable_compression : Bool

pub record TunnelHandler : Type 0 where
  pub config : Settings
  pub upgrader : Upgrader
  pub guard : Guard

pub data BuildError : Type 0 where
  grpc_server_required mux_required bridge_path_required : BuildError
  bridge_config_error : ConfigError → BuildError

pub data Built {ℓ} (A : Type ℓ) : Type ℓ where
  built : A → Built A
  failed : BuildError → Built A

abbrev pub or_default_size : ℤ → ℤ
or_default_size (pos n) = if n == 0 then default_buffer_size else pos n
or_default_size (negsuc n) = negsuc n

abbrev pub handler_of : Settings → TunnelHandler
handler_of c = record {
  config = c;
  upgrader = record {
    read_buffer_size = or_default_size c.read_buffer_size;
    write_buffer_size = or_default_size c.write_buffer_size;
    write_buffer_pool = build_web_socket_write_buffer_pool (or_default_size c.write_buffer_size);
    has_check_origin = c.has_check_origin;
    enable_compression = c.should_enable_compression;
  };
  guard = build_handler_abuse_guard c.limits;
}

abbrev pub unless_config_error : Option ConfigError → Settings → Built TunnelHandler
unless_config_error (some e) c = failed (bridge_config_error e)
unless_config_error none c = built (handler_of c)

-- `BuildBridgeHandler`; the first argument is whether the gRPC server is not nil.
unfoldable pub build_bridge_handler : Bool → Settings → Built TunnelHandler
build_bridge_handler false c = failed grpc_server_required
build_bridge_handler true c = unless_config_error (get_bridge_config_error c) c

abbrev pub registered :
    Built TunnelHandler
    → List (Text × TunnelHandler)
    → Text
    → Option BuildError × List (Text × TunnelHandler)
registered (failed e) routes path = (some e, routes)
registered (built h) routes path = (none, (path, h) ∷ routes)

-- `HandleBridgeMux`, on the routes of a mux; `none` is a nil mux. That a path is not registered yet
-- is `ServeMux.Handle`'s to check.
unfoldable pub handle_bridge_mux :
    Option (List (Text × TunnelHandler))
    → Text
    → Bool
    → Settings
    → Option BuildError × List (Text × TunnelHandler)
handle_bridge_mux none path has_server c = (some mux_required, [])
handle_bridge_mux (some routes) path has_server c =
    if is_empty path
    then (some bridge_path_required, routes)
    else registered (build_bridge_handler has_server c) routes path

-- `Wrap`: a handler that cannot be built is one that answers each request with status 500.
unfoldable pub wrap : Bool → List ServerOption → Built TunnelHandler
wrap has_server ps = build_bridge_handler has_server (bridge_config_of (build_server_options ps))

pub data TunnelEvent : Type 0 where
  bridge_handler_init_failed ws_upgrade_rejected_abuse_control ws_upgrade_failed : TunnelEvent
  ws_upgrade_succeeded ws_connection_setup_failed tunnel_connect tunnel_disconnect : TunnelEvent

pub data Metric : Type 0 where
  upgrade_failures_total connections_total : Metric

pub data Effect : Type 0 where
  log : TunnelEvent → Effect
  http_error : ℕ → Effect
  request_span_started request_span_ended session_span_started session_span_ended : Effect
  latency_success latency_failure : Effect
  failures_total_added connections_total_added : Effect
  active_added active_removed : Effect
  slot_reserved slot_cleared upgraded socket_closed : Effect
  set_up : List Setup → Effect
  keepalive_started keepalive_stopped on_connect on_disconnect conn_wrapped served conn_closed :
      Effect

pub data Deferred : Type 0 where
  end_request_span clear_slot remove_active end_session_span : Deferred
  close_socket stop_keepalive disconnect close_conn : Deferred

-- `storeBridgeUpgradeFailure`, `storeBridgeUpgradeSuccess`, and `storeBridgeConnectionDelta` of 1.
abbrev store_bridge_upgrade_failure : List Effect
store_bridge_upgrade_failure = latency_failure ∷ failures_total_added ∷ []

abbrev store_bridge_connection_delta : List Effect
store_bridge_connection_delta = active_added ∷ connections_total_added ∷ []

abbrev connect_hook : TunnelHandler → List Effect
connect_hook h = if h.config.has_on_connect then on_connect ∷ [] else []

-- The deferred calls once the socket is there, the last one first.
abbrev socket_deferred : List Deferred
socket_deferred =
    close_socket ∷ end_session_span ∷ remove_active ∷ clear_slot ∷ end_request_span ∷ []

abbrev pub after_setup : TunnelHandler → Bool × List Setup → List Effect × List Deferred
after_setup h (false, setups) =
    (set_up setups ∷ log ws_connection_setup_failed ∷ [], socket_deferred)
after_setup h (true, setups) = (
  set_up setups ∷ keepalive_started ∷ connect_hook h
      ++ log tunnel_connect ∷ conn_wrapped ∷ served ∷ [],
  close_conn ∷ disconnect ∷ stop_keepalive ∷ socket_deferred,
)

abbrev pub after_upgrade : TunnelHandler → Bool → Bool × List Setup → List Effect × List Deferred
after_upgrade h false s =
    (store_bridge_upgrade_failure ++ log ws_upgrade_failed ∷ [], clear_slot ∷ end_request_span ∷ [])
after_upgrade h true s =
    let (es, ds) = after_setup h s in
    (
      upgraded ∷ latency_success ∷ store_bridge_connection_delta
          ++ session_span_started ∷ log ws_upgrade_succeeded ∷ es,
      ds,
    )

-- What a request has done, and what it has deferred, when its handler returns, with the guard.
pub record Begun : Type 0 where
  pub effects : List Effect
  pub deferred : List Deferred
  pub guard : Option Guard

abbrev pub after_reserve : TunnelHandler → World → Option GuardError × Option Guard → Begun
after_reserve h w (some e, g) = record {
  effects =
      request_span_started ∷ store_bridge_upgrade_failure
      ++ log ws_upgrade_rejected_abuse_control ∷ http_error 429 ∷ [];
  deferred = end_request_span ∷ [];
  guard = g;
}
after_reserve h w (none, g) =
    let (es, ds) =
      after_upgrade h w.upgrade_succeeds (apply_connection_settings w.deadline_fails h.config) in
    record { effects = request_span_started ∷ slot_reserved ∷ es; deferred = ds; guard = g }

abbrev disconnect_hook : TunnelHandler → List Effect
disconnect_hook h = if h.config.has_on_disconnect then on_disconnect ∷ [] else []

abbrev pub deferred_effects : TunnelHandler → Deferred → List Effect
deferred_effects h end_request_span = request_span_ended ∷ []
deferred_effects h clear_slot = slot_cleared ∷ []
deferred_effects h remove_active = active_removed ∷ []
deferred_effects h end_session_span = session_span_ended ∷ []
deferred_effects h close_socket = socket_closed ∷ []
deferred_effects h stop_keepalive = keepalive_stopped ∷ []
deferred_effects h disconnect = log tunnel_disconnect ∷ disconnect_hook h
deferred_effects h close_conn = conn_closed ∷ []

abbrev pub deferred_guard : Option Request → Deferred → Option Guard → Option Guard
deferred_guard r clear_slot g = clear_handler_connection g r
deferred_guard r d g = g

-- The deferred calls, from the guard as it is by then.
pub finish :
    TunnelHandler → Option Request → List Deferred → Option Guard → List Effect × Option Guard
finish h r [] g = ([], g)
finish h r (d ∷ ds) g =
    let (es, g') = finish h r ds (deferred_guard r d g) in (deferred_effects h d ++ es, g')

abbrev pub complete : TunnelHandler → Option Request → Begun → List Effect × Option Guard
complete h r b = let (es, g') = finish h r b.deferred b.guard in (b.effects ++ es, g')

-- One request of a handler that was built, where no other request comes between.
pub handle : TunnelHandler → Guard → Option Request → ℕ → World → List Effect × Option Guard
handle h g r now w = complete h r (after_reserve h w (reserve_handler_connection (some g) r now))

-- One request of what `Wrap` returns.
pub handle_wrapped :
    Built TunnelHandler → Guard → Option Request → ℕ → World → List Effect × Option Guard
handle_wrapped (built h) g r now w = handle h g r now w
handle_wrapped (failed e) g r now w = (log bridge_handler_init_failed ∷ http_error 500 ∷ [], some g)
