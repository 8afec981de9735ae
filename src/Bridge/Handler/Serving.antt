-- ===== src/Bridge/Handler/Serving.antt =====
-- What a request to ServeHTTP of pkg/bridge/bridge.go takes and gives back, on every branch.
use grpc_tunnel.Prelude.{
  ℕ, ◌≡◌, refl, Bool, true, false, Option, none, some, List, [], ◌∷◌, ◌++◌, arith,
}
use grpc_tunnel.Prelude.Trace.{Change, takes, gives, keeps, balance}
use grpc_tunnel.Http.{Request}
use grpc_tunnel.AbuseControl.{Guard, GuardError, reserve_handler_connection}
use grpc_tunnel.Settings.{Setup, apply_connection_settings}
use grpc_tunnel.Bridge.Handler.{
  Handler, InitError, Effect, log, slot_reserved, slot_cleared, upgraded, socket_closed,
  keepalive_started, keepalive_stopped, conn_wrapped, conn_closed, tunnel_connect,
  tunnel_disconnect, World, Begun, begin, finish, serve_http, set_up_socket, after_upgrade, admit,
  unless_invalid,
}

-- What a request holds while it is served.
pub data Held : Type 0 where
  slot socket pinger session adapter : Held

abbrev pub same : Held → Held → Bool
same slot slot = true
same socket socket = true
same pinger pinger = true
same session session = true
same adapter adapter = true
same a b = false

abbrev pub change : Effect → Change Held
change slot_reserved = takes slot
change slot_cleared = gives slot
change upgraded = takes socket
change socket_closed = gives socket
change keepalive_started = takes pinger
change keepalive_stopped = gives pinger
change (log tunnel_connect) = takes session
change (log tunnel_disconnect) = gives session
change conn_wrapped = takes adapter
change conn_closed = gives adapter
change e = keeps

set_up_balanced :
    (h : Handler) (r : Option Request) (s : Bool × List Setup) (g : Option Guard)
    → let (es, ds) = set_up_socket h s in
      balance same change (es ++ (finish h r ds g).0) (socket ∷ slot ∷ []) ≡ some []
unfolding finish
set_up_balanced h r (false, ss) g = refl
set_up_balanced h r (true, ss) g = ground arith

after_upgrade_balanced :
    (h : Handler) (r : Option Request) (b : Bool) (s : Bool × List Setup) (g : Option Guard)
    → let (es, ds) = after_upgrade h b s in
      balance same change (es ++ (finish h r ds g).0) (slot ∷ []) ≡ some []
unfolding finish
after_upgrade_balanced h r false s g = refl
after_upgrade_balanced h r true s g = set_up_balanced h r s g

admit_balanced :
    (h : Handler) (r : Option Request) (w : World) (a : Option GuardError × Option Guard)
    → let b = admit h w a in
      balance same change (b.effects ++ (finish h r b.deferred b.guard).0) [] ≡ some []
unfolding finish
admit_balanced h r w (some e, g) = refl
admit_balanced h r w (none, g) =
    after_upgrade_balanced h r w.upgrade_succeeds
      (apply_connection_settings w.deadline_fails h.config.settings) g

unless_invalid_balanced :
    (h : Handler) (r : Option Request) (e : Option InitError) (g : Option Guard) (b : Begun)
    → balance same change (b.effects ++ (finish h r b.deferred b.guard).0) [] ≡ some []
    → let b' = unless_invalid e g b in
      balance same change (b'.effects ++ (finish h r b'.deferred b'.guard).0) [] ≡ some []
unfolding finish
unless_invalid_balanced h r none g b p = p
unless_invalid_balanced h r (some e) g b p = refl

-- Whatever the outcome of the validation, the guard, the upgrade and the connection's setup, a
-- request gives back all that it took (the guard's slot, the socket, the keepalive, the session
-- that it announced, the adapter), the last taken first, and nothing that it did not take.
pub serve_http_balanced :
    (h : Handler) (g : Option Guard) (r : Option Request) (now : ℕ) (w : World)
    → balance same change (serve_http h g r now w).0 [] ≡ some []
unfolding serve_http begin
serve_http_balanced h g r now w =
    let a = reserve_handler_connection g r now in
    unless_invalid_balanced h r h.init_err g (admit h w a) (admit_balanced h r w a)
