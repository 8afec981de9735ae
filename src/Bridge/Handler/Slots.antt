-- ===== src/Bridge/Handler/Slots.antt =====
-- What a request to ServeHTTP of pkg/bridge/bridge.go leaves in the guard.
use grpc_tunnel.Prelude.{ℕ, ◌≡◌, refl, Bool, true, false, Option, none, some, List, arith}
use grpc_tunnel.Http.{Request}
use grpc_tunnel.AbuseControl.{
  Guard, GuardError, reserve_handler_connection, clear_handler_connection, connections_of, reserve,
  release, guard_key,
}
use grpc_tunnel.AbuseControl.Branches.{reserve_slots, release-reserve}
use grpc_tunnel.Prelude.Text.{Text}
use grpc_tunnel.Settings.{Setup, apply_connection_settings}
use grpc_tunnel.Bridge.Handler.{
  Handler, InitError, World, Begun, begin, finish, serve_http, set_up_socket, after_upgrade, admit,
  unless_invalid,
}

set_up_guard :
    (h : Handler) (r : Option Request) (s : Bool × List Setup) (g : Option Guard)
    → (finish h r (set_up_socket h s).1 g).1 ≡ clear_handler_connection g r
unfolding finish
set_up_guard h r (false, ss) g = refl
set_up_guard h r (true, ss) g = refl

after_upgrade_guard :
    (h : Handler) (r : Option Request) (b : Bool) (s : Bool × List Setup) (g : Option Guard)
    → (finish h r (after_upgrade h b s).1 g).1 ≡ clear_handler_connection g r
unfolding finish
after_upgrade_guard h r false s g = refl
after_upgrade_guard h r true s g = set_up_guard h r s g

-- What a guard says of the slots.
abbrev pub SameSlots : Guard → Guard → Text → Type 0
SameSlots g g' j =
    (g'.active_connections ≡ g.active_connections) × (connections_of g' j ≡ connections_of g j)

admit_slots :
    (h : Handler) (g : Guard) (r : Option Request) (j : Text) (w : World) (e : Option GuardError)
    (g' : Guard) (now : ℕ)
    → reserve g (guard_key r) now ≡ (e, g')
    → let b = admit h w (e, some g') in
      (g'' : Guard) × ((finish h r b.deferred b.guard).1 ≡ some g'') × SameSlots g g'' j
unfolding finish clear_handler_connection
admit_slots h g r j w (some e) g' now p =
    (g', refl, ground (arith, reserve_slots g (guard_key r) j now))
admit_slots h g r j w none g' now p = (
  release g' (guard_key r),
  after_upgrade_guard h r w.upgrade_succeeds
      (apply_connection_settings w.deadline_fails h.config.settings) (some g'),
  release-reserve g g' (guard_key r) j now p,
)

unless_invalid_slots :
    (h : Handler) (g : Guard) (r : Option Request) (j : Text) (e : Option InitError) (b : Begun)
    → ((g' : Guard) × ((finish h r b.deferred b.guard).1 ≡ some g') × SameSlots g g' j)
    → let b' = unless_invalid e (some g) b in
      (g' : Guard) × ((finish h r b'.deferred b'.guard).1 ≡ some g') × SameSlots g g' j
unfolding finish
unless_invalid_slots h g r j none b p = p
unless_invalid_slots h g r j (some e) b p = (g, refl, (refl, refl))

-- Once a request is over, however it went, the total and every client's number of connections in
-- the guard are what they were before it.
pub serve_http_slots :
    (h : Handler) (g : Guard) (r : Option Request) (j : Text) (now : ℕ) (w : World)
    → (g' : Guard) × ((serve_http h (some g) r now w).1 ≡ some g') × SameSlots g g' j
unfolding serve_http begin reserve_handler_connection
serve_http_slots h g r j now w =
    let (e, g') = reserve g (guard_key r) now in
    unless_invalid_slots h g r j h.init_err (admit h w (e, some g'))
      (admit_slots h g r j w e g' now refl)
