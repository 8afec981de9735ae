-- ===== src/Bridge/Handler/Hooks.antt =====
-- When ServeHTTP of pkg/bridge/bridge.go serves a request and calls the hooks.
use grpc_tunnel.Prelude.{
  ℕ, ◌≡◌, refl, Bool, true, false, Option, none, some, List, ◌++◌, arith, is_none, ◌&&◌,
}
use grpc_tunnel.Prelude.Trace.{count, once}
use grpc_tunnel.Http.{Request}
use grpc_tunnel.AbuseControl.{Guard, GuardError, reserve_handler_connection}
use grpc_tunnel.Settings.{Setup, apply_connection_settings}
use grpc_tunnel.Bridge.Handler.{
  Handler, InitError, Effect, on_connect, on_disconnect, served, World, Begun, begin, finish,
  serve_http, set_up_socket, after_upgrade, admit, unless_invalid,
}

abbrev pub is_on_connect : Effect → Bool
is_on_connect on_connect = true
is_on_connect e = false

abbrev pub is_on_disconnect : Effect → Bool
is_on_disconnect on_disconnect = true
is_on_disconnect e = false

abbrev pub is_served : Effect → Bool
is_served served = true
is_served e = false

-- The conditions under which a request is served through the tunnel.
abbrev pub is_served_by : Handler → World → Option GuardError → Bool
is_served_by h w refusal =
    is_none h.init_err
    && (is_none refusal
        && (w.upgrade_succeeds && (apply_connection_settings w.deadline_fails h.config.settings).0))

-- A trace that serves the tunnel and calls the configured hooks once each if `s`, else never.
abbrev pub Counts : Handler → Bool → List Effect → Type 0
Counts h s t =
    (count is_served t ≡ once s)
    × (count is_on_connect t ≡ once (s && h.config.has_on_connect))
    × (count is_on_disconnect t ≡ once (s && h.config.has_on_disconnect))

set_up-Counts :
    (h : Handler) (r : Option Request) (s : Bool × List Setup) (g : Option Guard)
    → let (es, ds) = set_up_socket h s in Counts h s.0 (es ++ (finish h r ds g).0)
unfolding finish
set_up-Counts h r (false, ss) g = (refl, refl, refl)
set_up-Counts h r (true, ss) g = (ground arith, ground arith, ground arith)

after_upgrade-Counts :
    (h : Handler) (r : Option Request) (b : Bool) (s : Bool × List Setup) (g : Option Guard)
    → let (es, ds) = after_upgrade h b s in Counts h (b && s.0) (es ++ (finish h r ds g).0)
unfolding finish
after_upgrade-Counts h r false s g = (refl, refl, refl)
after_upgrade-Counts h r true s g = set_up-Counts h r s g

admit-Counts :
    (h : Handler) (r : Option Request) (w : World) (a : Option GuardError × Option Guard)
    → let b = admit h w a in
      Counts h
        (is_none a.0
          && (w.upgrade_succeeds
              && (apply_connection_settings w.deadline_fails h.config.settings).0))
        (b.effects ++ (finish h r b.deferred b.guard).0)
unfolding finish
admit-Counts h r w (some e, g) = (refl, refl, refl)
admit-Counts h r w (none, g) =
    after_upgrade-Counts h r w.upgrade_succeeds
      (apply_connection_settings w.deadline_fails h.config.settings) g

unless_invalid-Counts :
    (h : Handler) (r : Option Request) (e : Option InitError) (g : Option Guard) (b : Begun)
    (s : Bool)
    → Counts h s (b.effects ++ (finish h r b.deferred b.guard).0)
    → let b' = unless_invalid e g b in
      Counts h (is_none e && s) (b'.effects ++ (finish h r b'.deferred b'.guard).0)
unfolding finish
unless_invalid-Counts h r none g b s p = p
unless_invalid-Counts h r (some e) g b s p = (refl, refl, refl)

-- A request is served, once, exactly where the handler is usable, the guard admits it, the upgrade
-- succeeds and the socket's setup succeeds; `OnConnect` and `OnDisconnect`, where the configuration
-- has them, are then called once each, and otherwise not at all.
pub serve_http-Counts :
    (h : Handler) (g : Option Guard) (r : Option Request) (now : ℕ) (w : World)
    → Counts h (is_served_by h w (reserve_handler_connection g r now).0) (serve_http h g r now w).0
unfolding serve_http begin
serve_http-Counts h g r now w =
    let a = reserve_handler_connection g r now in
    unless_invalid-Counts h r h.init_err g (admit h w a)
      (is_none a.0
        && (w.upgrade_succeeds && (apply_connection_settings w.deadline_fails h.config.settings).0))
      (admit-Counts h r w a)
