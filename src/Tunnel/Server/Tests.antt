-- ===== src/Tunnel/Server/Tests.antt =====
-- The server of pkg/grpctunnel/server.go at concrete options and requests.
use grpc_tunnel.Prelude.{◌≡◌, ◌*◌, refl, true, false, ◌&&◌, none, some, List, [], ◌∷◌, is_none}
use grpc_tunnel.Prelude.Trace.{balance}
use grpc_tunnel.Prelude.Int.{pos, negsuc}
use grpc_tunnel.Prelude.Text.{lit, trim_space}
use grpc_tunnel.Http.{Request}
use grpc_tunnel.AbuseControl.{second, reserve_handler_connection}
use grpc_tunnel.Settings.{Settings, apply_connection_settings, size_error, keepalive_error}
use grpc_tunnel.Bridge.Handler.{World}
use grpc_tunnel.Tunnel.Options.{
  ServerOption, with_keepalive, with_max_active_connections, with_connect_hook,
  build_server_options, bridge_config_of, get_bridge_config_error,
}
use grpc_tunnel.Tunnel.Server.{TunnelHandler, built, handler_of, build_bridge_handler, handle}
use grpc_tunnel.Tunnel.Server.Serving.{same, change, same_of_socket, socket_change, handle_balanced}
use grpc_tunnel.Tunnel.Observability.{
  Observability, build_bridge_metric_attributes, store_deltas, Tallies, store_deltas-Tallies,
}
use grpc_tunnel.Tunnel.Server.Metrics.{Counts, handle-Counts}

-- A server with a keepalive, a cap and a hook.
abbrev options : List ServerOption
options =
    with_keepalive (pos (10 * second)) (pos (30 * second))
    ∷ with_max_active_connections (pos 2)
    ∷ with_connect_hook true
    ∷ []

abbrev settings : Settings
settings = bridge_config_of (build_server_options options)

abbrev handler : TunnelHandler
handler = handler_of settings

handler_built : build_bridge_handler true settings ≡ built handler
unfolding build_bridge_handler get_bridge_config_error size_error keepalive_error
    build_server_options
handler_built = refl

abbrev request : Request
request = record {
  remote_addr = lit "10.0.0.1:4000";
  method = lit "GET";
  url_path = some (lit "/grpc");
  header = λ name. [];
  trace_ids = none;
}

abbrev calm : World
calm = record { upgrade_succeeds = true; deadline_fails = false }

handle_balanced_example :
    (balance same change (handle handler handler.guard (some request) 1 calm).0 [] ≡ some [])
    × (balance same_of_socket socket_change
          (handle handler handler.guard (some request) 1 calm).0
          []
        ≡ some [])
handle_balanced_example = handle_balanced handler handler.guard (some request) 1 calm

handle-Counts_example :
    let admitted = is_none (reserve_handler_connection (some handler.guard) (some request) 1).0 in
    Counts handler
      (admitted && calm.upgrade_succeeds)
      (admitted
        && (calm.upgrade_succeeds && (apply_connection_settings calm.deadline_fails settings).0))
      (handle handler handler.guard (some request) 1 calm).0
handle-Counts_example = handle-Counts handler handler.guard (some request) 1 calm

attributes_test :
    build_bridge_metric_attributes (some request) (lit "failure")
    ≡ (lit "component", lit "grpctunnel.bridge")
      ∷ (lit "result", lit "failure")
      ∷ (lit "method", lit "GET")
      ∷ (lit "path", lit "/grpc")
      ∷ []
unfolding build_bridge_metric_attributes trim_space
attributes_test = refl

-- All instruments but the active counter.
abbrev instruments : Observability
instruments = record {
  has_tracer = true;
  has_connections_active = false;
  has_connections_total = true;
  has_upgrade_failures_total = true;
  has_upgrade_latency = true;
}

store_deltas-Tallies_example :
    Tallies false true 1 1
      (store_deltas (some instruments) ((some request, pos 1) ∷ (none, negsuc 0) ∷ []))
store_deltas-Tallies_example =
    store_deltas-Tallies instruments ((some request, pos 1) ∷ (none, negsuc 0) ∷ [])
