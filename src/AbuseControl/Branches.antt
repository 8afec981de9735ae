-- ===== src/AbuseControl/Branches.antt =====
-- When the guard of the two abuse_control.go admits a connection, and what each outcome changes.
use grpc_tunnel.Prelude.{
  ℕ, ◌+◌, ◌-◌, ◌≡◌, ◌⊎◌, ◌↔◌, false, refl, Option, none, some, if◌then◌else◌, arith,
}
use grpc_tunnel.Prelude.Int.{ℤ, pos, ◌≤ℤ◌, ◌<ℤ◌}
use grpc_tunnel.Prelude.Text.{Text, text_eq, text_eq_iff}
use grpc_tunnel.Prelude.Dict.{lookup, insert, lookup-insert, or_zero, lookup-delete}
use grpc_tunnel.AbuseControl.{
  Guard, GuardError, charge_upgrade, take_slot, reserve, release, connections_of, window_of,
  current_window,
}

-- A limit that is not positive is off; one that is set has room above `n`.
abbrev pub HasRoom : ℤ → ℕ → Type 0
HasRoom limit n = (limit ≤ℤ pos 0) ⊎ (pos n <ℤ limit)

charge_upgrade-admits :
    (g : Guard) (key : Text) (now : ℕ)
    → ((charge_upgrade g key now).0 ≡ none)
      ↔ HasRoom g.limits.max_upgrades_per_client_per_minute
          (current_window (window_of g key) now).count
unfolding charge_upgrade
charge_upgrade-admits g key now = (λ h. ground arith, λ h. ground arith)

take_slot-admits :
    (g : Guard) (key : Text)
    → ((take_slot g key).0 ≡ none) ↔ (
        HasRoom g.limits.max_active_connections g.active_connections
        × HasRoom g.limits.max_connections_per_client (connections_of g key))
unfolding take_slot
take_slot-admits g key = (λ h. ground arith, λ h. ground arith)

-- Charging a window leaves the slots and the limits as they are.
pub charge_upgrade-slots :
    (g : Guard) (key : Text) (now : ℕ)
    → let g' = (charge_upgrade g key now).1 in
      (g'.limits ≡ g.limits)
      × (g'.active_connections ≡ g.active_connections)
      × (g'.client_connections ≡ g.client_connections)
unfolding charge_upgrade
charge_upgrade-slots g key now = (ground arith, ground arith, ground arith)

-- `reserve` admits a connection exactly when the client's current window, the total and the
-- client's own number of connections each have room under their limit.
pub reserve-admits :
    (g : Guard) (key : Text) (now : ℕ)
    → ((reserve g key now).0 ≡ none) ↔ (
        HasRoom g.limits.max_upgrades_per_client_per_minute
          (current_window (window_of g key) now).count
        × HasRoom g.limits.max_active_connections g.active_connections
        × HasRoom g.limits.max_connections_per_client (connections_of g key))
unfolding reserve charge_upgrade take_slot
reserve-admits g key now = (λ h. (ground arith, ground arith, ground arith), λ h. ground arith)

abbrev pub slots_taken : Option GuardError → ℕ
slots_taken none = 1
slots_taken (some e) = 0

or_zero-insert :
    (g : Guard) (key j : Text) (n : ℕ)
    → or_zero (lookup j (insert key n g.client_connections)) 0
      ≡ (if text_eq key j then n else connections_of g j)
or_zero-insert g key j n = ground (arith, lookup-insert key j n g.client_connections)

-- An admitted connection takes one slot of the total and one of its client; a refused one takes
-- none. The slots of the other clients and the limits stay as they are.
pub reserve_slots :
    (g : Guard) (key j : Text) (now : ℕ)
    → let (e, g') = reserve g key now in
      (g'.limits ≡ g.limits)
      × (g'.active_connections ≡ g.active_connections + slots_taken e)
      × (connections_of g' j ≡ connections_of g j + (if text_eq key j then slots_taken e else 0))
unfolding reserve charge_upgrade take_slot
reserve_slots g key j now = (
  ground arith,
  ground arith,
  ground (arith, or_zero-insert g key j (connections_of g key + 1), text_eq_iff key j),
)

-- `release` gives one slot of the total and one of the client back, and stops at zero; the other
-- clients' slots, the limits and every client's window stay as they are.
pub release_slots :
    (g : Guard) (key j : Text)
    → ((release g key).limits ≡ g.limits)
      × ((release g key).active_connections ≡ g.active_connections - 1)
      × (connections_of (release g key) j
          ≡ (if text_eq key j then connections_of g j - 1 else connections_of g j))
      × (window_of (release g key) j ≡ window_of g j)
unfolding release
release_slots g key j = (
  refl,
  ground arith,
  ground (
    arith,
    or_zero-insert g key j (connections_of g key - 1),
    lookup-delete key j g.client_connections,
    text_eq_iff key j,
  ),
  refl,
)

-- After an admitted connection is released, the total and every client's number of connections
-- are what they were before it.
pub release-reserve :
    (g g' : Guard) (key j : Text) (now : ℕ)
    → reserve g key now ≡ (none, g')
    → ((release g' key).active_connections ≡ g.active_connections)
      × (connections_of (release g' key) j ≡ connections_of g j)
release-reserve g g' key j now h = ground (arith, reserve_slots g key j now, release_slots g' key j)

-- What a client does leaves the windows of the other clients as they are.
pub reserve_windows :
    (g : Guard) (key j : Text) (now : ℕ)
    → text_eq key j ≡ false
    → window_of (reserve g key now).1 j ≡ window_of g j
unfolding reserve charge_upgrade take_slot
reserve_windows g key j now h =
    let w = current_window (window_of g key) now in
    ground (arith, lookup-insert key j (record w { count = w.count + 1 }) g.client_upgrade_attempts)
