-- ===== src/Tunnel/Server/Metrics.antt =====
-- How often a request of the handler of pkg/grpctunnel/server.go serves, calls a hook, closes its
-- socket and counts in the metrics of pkg/grpctunnel/observability.go.
use grpc_tunnel.Prelude.{
  ℕ, ◌≡◌, refl, Bool, true, false, ◌&&◌, not, Option, none, some, List, ◌++◌, arith, is_none,
}
use grpc_tunnel.Prelude.Trace.{count, once}
use grpc_tunnel.Http.{Request}
use grpc_tunnel.AbuseControl.{Guard, GuardError, reserve_handler_connection}
use grpc_tunnel.Settings.{Setup, apply_connection_settings}
use grpc_tunnel.Bridge.Handler.{World}
use grpc_tunnel.Tunnel.Server.{
  TunnelHandler, Effect, after_upgrade, after_reserve, finish, complete, handle, upgraded,
  socket_closed, failures_total_added, connections_total_added, on_connect, on_disconnect, served,
}

abbrev pub is_served : Effect → Bool
is_served served = true
is_served e = false

abbrev pub is_upgraded : Effect → Bool
is_upgraded upgraded = true
is_upgraded e = false

abbrev pub is_socket_closed : Effect → Bool
is_socket_closed socket_closed = true
is_socket_closed e = false

abbrev pub is_failure : Effect → Bool
is_failure failures_total_added = true
is_failure e = false

abbrev pub is_connection : Effect → Bool
is_connection connections_total_added = true
is_connection e = false

abbrev pub is_on_connect : Effect → Bool
is_on_connect on_connect = true
is_on_connect e = false

abbrev pub is_on_disconnect : Effect → Bool
is_on_disconnect on_disconnect = true
is_on_disconnect e = false

-- The counts of a trace in which the socket is there if `u`, and is served if `s`.
abbrev pub Counts : TunnelHandler → Bool → Bool → List Effect → Type 0
Counts h u s t =
    (count is_upgraded t ≡ once u)
    × (count is_socket_closed t ≡ once u)
    × (count is_connection t ≡ once u)
    × (count is_failure t ≡ once (not u))
    × (count is_served t ≡ once s)
    × (count is_on_connect t ≡ once (s && h.config.has_on_connect))
    × (count is_on_disconnect t ≡ once (s && h.config.has_on_disconnect))

after_upgrade-Counts :
    (h : TunnelHandler) (r : Option Request) (u : Bool) (s : Bool × List Setup) (g : Option Guard)
    → let (es, ds) = after_upgrade h u s in Counts h u (u && s.0) (es ++ (finish h r ds g).0)
unfolding finish
after_upgrade-Counts h r false s g = (refl, refl, refl, refl, refl, refl, refl)
after_upgrade-Counts h r true (false, ss) g = (refl, refl, refl, refl, refl, refl, refl)
after_upgrade-Counts h r true (true, ss) g = (
  ground arith,
  ground arith,
  ground arith,
  ground arith,
  ground arith,
  ground arith,
  ground arith,
)

after_reserve-Counts :
    (h : TunnelHandler) (r : Option Request) (w : World) (a : Option GuardError × Option Guard)
    → let u = is_none a.0 && w.upgrade_succeeds in
      Counts h u
        (is_none a.0
          && (w.upgrade_succeeds && (apply_connection_settings w.deadline_fails h.config).0))
        (complete h r (after_reserve h w a)).0
unfolding finish
after_reserve-Counts h r w (some e, g) = (refl, refl, refl, refl, refl, refl, refl)
after_reserve-Counts h r w (none, g) =
    after_upgrade-Counts h r w.upgrade_succeeds
      (apply_connection_settings w.deadline_fails h.config) g

-- A request is upgraded, closes its socket and counts as a connection exactly once, if the guard
-- admits it and the upgrade succeeds, and otherwise counts as one upgrade failure and is none of
-- these. It is served, once, if moreover the socket's setup succeeds; the hooks that the
-- configuration has are then called once each, and otherwise not at all.
pub handle-Counts :
    (h : TunnelHandler) (g : Guard) (r : Option Request) (now : ℕ) (w : World)
    → let admitted = is_none (reserve_handler_connection (some g) r now).0 in
      Counts h
        (admitted && w.upgrade_succeeds)
        (admitted
          && (w.upgrade_succeeds && (apply_connection_settings w.deadline_fails h.config).0))
        (handle h g r now w).0
unfolding handle
handle-Counts h g r now w = after_reserve-Counts h r w (reserve_handler_connection (some g) r now)
