-- ===== src/Tunnel/Server/Serving.antt =====
-- What a request of the handler of pkg/grpctunnel/server.go does on every branch.
use grpc_tunnel.Prelude.{
  ℕ, ◌≡◌, refl, Bool, true, false, Option, none, some, List, [], ◌∷◌, ◌++◌, arith,
}
use grpc_tunnel.Prelude.Trace.{Change, takes, gives, keeps, balance}
use grpc_tunnel.Prelude.Text.{Text}
use grpc_tunnel.Http.{Request}
use grpc_tunnel.AbuseControl.{
  Guard, GuardError, reserve_handler_connection, clear_handler_connection, reserve, release,
  guard_key,
}
use grpc_tunnel.AbuseControl.Branches.{reserve_slots, release-reserve}
use grpc_tunnel.Settings.{Setup, apply_connection_settings}
use grpc_tunnel.Bridge.Handler.{World}
use grpc_tunnel.Bridge.Handler.Slots.{SameSlots}
use grpc_tunnel.Tunnel.Server.{
  TunnelHandler, Effect, after_setup, after_upgrade, after_reserve, finish, complete, handle, log,
  request_span_started, request_span_ended, session_span_started, session_span_ended, active_added,
  active_removed, slot_reserved, slot_cleared, conn_wrapped, conn_closed, tunnel_connect,
  tunnel_disconnect, upgraded, socket_closed, keepalive_started, keepalive_stopped,
}

-- What a request holds while it is served, but for the socket and its keepalive: the handler closes
-- the socket before the session's span and the count of active connections, which it took after it.
pub data Held : Type 0 where
  request_span slot active_count session_span session adapter : Held

abbrev pub same : Held → Held → Bool
same request_span request_span = true
same slot slot = true
same active_count active_count = true
same session_span session_span = true
same session session = true
same adapter adapter = true
same a b = false

abbrev pub change : Effect → Change Held
change request_span_started = takes request_span
change request_span_ended = gives request_span
change slot_reserved = takes slot
change slot_cleared = gives slot
change active_added = takes active_count
change active_removed = gives active_count
change session_span_started = takes session_span
change session_span_ended = gives session_span
change (log tunnel_connect) = takes session
change (log tunnel_disconnect) = gives session
change conn_wrapped = takes adapter
change conn_closed = gives adapter
change e = keeps

-- The socket and what is made of it.
pub data OfSocket : Type 0 where
  socket keepalive announced wrapped : OfSocket

abbrev pub same_of_socket : OfSocket → OfSocket → Bool
same_of_socket socket socket = true
same_of_socket keepalive keepalive = true
same_of_socket announced announced = true
same_of_socket wrapped wrapped = true
same_of_socket a b = false

abbrev pub socket_change : Effect → Change OfSocket
socket_change upgraded = takes socket
socket_change socket_closed = gives socket
socket_change keepalive_started = takes keepalive
socket_change keepalive_stopped = gives keepalive
socket_change (log tunnel_connect) = takes announced
socket_change (log tunnel_disconnect) = gives announced
socket_change conn_wrapped = takes wrapped
socket_change conn_closed = gives wrapped
socket_change e = keeps

after_setup_balanced :
    (h : TunnelHandler) (r : Option Request) (s : Bool × List Setup) (g : Option Guard)
    → let (es, ds) = after_setup h s in
      balance same change
        (es ++ (finish h r ds g).0)
        (session_span ∷ active_count ∷ slot ∷ request_span ∷ [])
      ≡ some []
unfolding finish
after_setup_balanced h r (false, ss) g = refl
after_setup_balanced h r (true, ss) g = ground arith

after_upgrade_balanced :
    (h : TunnelHandler) (r : Option Request) (b : Bool) (s : Bool × List Setup) (g : Option Guard)
    → let (es, ds) = after_upgrade h b s in
      balance same change (es ++ (finish h r ds g).0) (slot ∷ request_span ∷ []) ≡ some []
unfolding finish
after_upgrade_balanced h r false s g = refl
after_upgrade_balanced h r true s g = after_setup_balanced h r s g

after_reserve_balanced :
    (h : TunnelHandler) (r : Option Request) (w : World) (a : Option GuardError × Option Guard)
    → balance same change (complete h r (after_reserve h w a)).0 [] ≡ some []
unfolding finish
after_reserve_balanced h r w (some e, g) = refl
after_reserve_balanced h r w (none, g) =
    after_upgrade_balanced h r w.upgrade_succeeds
      (apply_connection_settings w.deadline_fails h.config) g

after_setup_closed :
    (h : TunnelHandler) (r : Option Request) (s : Bool × List Setup) (g : Option Guard)
    → let (es, ds) = after_setup h s in
      balance same_of_socket socket_change (es ++ (finish h r ds g).0) (socket ∷ []) ≡ some []
unfolding finish
after_setup_closed h r (false, ss) g = refl
after_setup_closed h r (true, ss) g = ground arith

after_upgrade_closed :
    (h : TunnelHandler) (r : Option Request) (b : Bool) (s : Bool × List Setup) (g : Option Guard)
    → let (es, ds) = after_upgrade h b s in
      balance same_of_socket socket_change (es ++ (finish h r ds g).0) [] ≡ some []
unfolding finish
after_upgrade_closed h r false s g = refl
after_upgrade_closed h r true s g = after_setup_closed h r s g

after_reserve_closed :
    (h : TunnelHandler) (r : Option Request) (w : World) (a : Option GuardError × Option Guard)
    → balance same_of_socket socket_change (complete h r (after_reserve h w a)).0 [] ≡ some []
unfolding finish
after_reserve_closed h r w (some e, g) = refl
after_reserve_closed h r w (none, g) =
    after_upgrade_closed h r w.upgrade_succeeds
      (apply_connection_settings w.deadline_fails h.config) g

-- Whatever the outcome of the guard, the upgrade and the connection's setup, a request gives back
-- all that it took and nothing that it did not take, the last taken first: by one account the request's
-- span, the guard's slot, its place in the count of active connections, the session's span, the session
-- that it announced and the adapter; by the other the socket, its keepalive, the session and the adapter.
pub handle_balanced :
    (h : TunnelHandler) (g : Guard) (r : Option Request) (now : ℕ) (w : World)
    → (balance same change (handle h g r now w).0 [] ≡ some [])
      × (balance same_of_socket socket_change (handle h g r now w).0 [] ≡ some [])
unfolding handle
handle_balanced h g r now w = (
  after_reserve_balanced h r w (reserve_handler_connection (some g) r now),
  after_reserve_closed h r w (reserve_handler_connection (some g) r now),
)

after_setup_guard :
    (h : TunnelHandler) (r : Option Request) (s : Bool × List Setup) (g : Option Guard)
    → (finish h r (after_setup h s).1 g).1 ≡ clear_handler_connection g r
unfolding finish
after_setup_guard h r (false, ss) g = refl
after_setup_guard h r (true, ss) g = refl

after_upgrade_guard :
    (h : TunnelHandler) (r : Option Request) (b : Bool) (s : Bool × List Setup) (g : Option Guard)
    → (finish h r (after_upgrade h b s).1 g).1 ≡ clear_handler_connection g r
unfolding finish
after_upgrade_guard h r false s g = refl
after_upgrade_guard h r true s g = after_setup_guard h r s g

after_reserve_slots :
    (h : TunnelHandler) (g : Guard) (r : Option Request) (j : Text) (w : World)
    (e : Option GuardError) (g' : Guard) (now : ℕ)
    → reserve g (guard_key r) now ≡ (e, g')
    → (g'' : Guard) × ((complete h r (after_reserve h w (e, some g'))).1 ≡ some g'')
      × SameSlots g g'' j
unfolding finish clear_handler_connection
after_reserve_slots h g r j w (some e) g' now p =
    (g', refl, ground (arith, reserve_slots g (guard_key r) j now))
after_reserve_slots h g r j w none g' now p = (
  release g' (guard_key r),
  after_upgrade_guard h r w.upgrade_succeeds (apply_connection_settings w.deadline_fails h.config)
      (some g'),
  release-reserve g g' (guard_key r) j now p,
)

-- Once a request is over, however it went, the total and every client's number of connections in
-- the guard are what they were before it.
pub handle_slots :
    (h : TunnelHandler) (g : Guard) (r : Option Request) (j : Text) (now : ℕ) (w : World)
    → (g' : Guard) × ((handle h g r now w).1 ≡ some g') × SameSlots g g' j
unfolding handle reserve_handler_connection
handle_slots h g r j now w =
    let (e, g') = reserve g (guard_key r) now in after_reserve_slots h g r j w e g' now refl
