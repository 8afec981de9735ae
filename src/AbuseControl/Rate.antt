-- ===== src/AbuseControl/Rate.antt =====
-- The fixed one-minute window on upgrade attempts.
use grpc_tunnel.Prelude.{
  ℕ, suc, ◌+◌, ◌≤◌, ◌<◌, ◌≡◌, sym, subst, true, false, Option, none, some, List, [], ◌∷◌,
  if◌then◌else◌, arith, Bool-cases, inl, inr,
}
use grpc_tunnel.Prelude.Int.{pos}
use grpc_tunnel.Prelude.Text.{Text, text_eq, text_eq_iff, text_eq_refl}
use grpc_tunnel.Prelude.Dict.{lookup-insert}
use grpc_tunnel.AbuseControl.{
  Guard, GuardError, charge_upgrade, take_slot, reserve, release, window_of, has_lapsed,
  window_duration,
}
use grpc_tunnel.AbuseControl.Branches.{reserve_windows, reserve_slots, release_slots}

-- What happens at a guard, in order: an attempt at a time, or the end of a tunnel.
pub data Event : Type 0 where
  attempt : Text → ℕ → Event
  ending : Text → Event

abbrev pub passed : Option GuardError → ℕ
passed none = 1
passed (some e) = 0

-- How many attempts under a key are admitted along a list of events.
pub admitted : Text → Guard → List Event → ℕ
admitted key g [] = 0
admitted key g (attempt k now ∷ es) =
    (if text_eq k key then passed (reserve g k now).0 else 0) + admitted key (reserve g k now).1 es
admitted key g (ending k ∷ es) = admitted key (release g k) es

-- Every attempt lies before the end of the window that starts at `start`.
abbrev pub AllBefore : ℕ → List Event → Type 0
AllBefore start [] = Unit {0}
AllBefore start (attempt k now ∷ es) = (now < start + window_duration) × AllBefore start es
AllBefore start (ending k ∷ es) = AllBefore start es

-- A window that is under way charges each admitted attempt, and never passes the limit.
reserve_charges :
    (g : Guard) (key : Text) (now max : ℕ)
    → g.limits.max_upgrades_per_client_per_minute ≡ pos (suc max)
    → 0 < (window_of g key).started_at
    → (window_of g key).count ≤ suc max
    → now < (window_of g key).started_at + window_duration
    → let (e, g') = reserve g key now in
      ((window_of g' key).started_at ≡ (window_of g key).started_at)
      × ((window_of g key).count + passed e ≤ (window_of g' key).count)
      × ((window_of g' key).count ≤ suc max)
unfolding reserve charge_upgrade take_slot
reserve_charges g key now max l s c h =
    let w = window_of g key in
    (
      ground (
        arith,
        lookup-insert key key (record w { count = w.count + 1 }) g.client_upgrade_attempts,
        text_eq_iff key key,
      ),
      ground (
        arith,
        lookup-insert key key (record w { count = w.count + 1 }) g.client_upgrade_attempts,
        text_eq_iff key key,
      ),
      ground (
        arith,
        lookup-insert key key (record w { count = w.count + 1 }) g.client_upgrade_attempts,
        text_eq_iff key key,
      ),
    )

reserve_charges_lapsed :
    (g : Guard) (key : Text) (now max : ℕ)
    → g.limits.max_upgrades_per_client_per_minute ≡ pos (suc max)
    → has_lapsed (window_of g key) now ≡ true
    → let (e, g') = reserve g key now in
      ((window_of g' key).started_at ≡ now)
      × (passed e ≤ (window_of g' key).count)
      × ((window_of g' key).count ≤ suc max)
unfolding reserve charge_upgrade take_slot
reserve_charges_lapsed g key now max l h =
    let law =
      lookup-insert key key (record { started_at = now; count = 0 + 1 })
        g.client_upgrade_attempts in
    (
      ground (arith, law, text_eq_iff key key),
      ground (arith, law, text_eq_iff key key),
      ground (arith, law, text_eq_iff key key),
    )

module _ (key : Text) (max start : ℕ) where
  -- The client's window is the one that started at `start`, and its count is within the limit.
  record InWindow (g : Guard) : Type 0 where
    limit : g.limits.max_upgrades_per_client_per_minute ≡ pos (suc max)
    begun : (window_of g key).started_at ≡ start
    within : (window_of g key).count ≤ suc max

  charge-InWindow :
      (g : Guard) (now : ℕ)
      → 0 < start
      → InWindow g
      → now < start + window_duration
      → InWindow (reserve g key now).1
        × ((window_of g key).count + passed (reserve g key now).0
            ≤ (window_of (reserve g key now).1 key).count)
  charge-InWindow g now s w h =
      let facts = reserve_charges g key now max w.limit (omega arith) w.within (omega arith) in
      (
        record {
          limit = ground (arith, reserve_slots g key key now, w.limit);
          begun = omega (arith, w.begun);
          within = omega arith;
        },
        omega arith,
      )

  other-InWindow :
      (g : Guard) (k : Text) (now : ℕ)
      → text_eq k key ≡ false
      → InWindow g
      → InWindow (reserve g k now).1
  other-InWindow g k now h w = record {
    limit = ground (arith, reserve_slots g k k now, w.limit);
    begun = ground (arith, reserve_windows g k key now h, w.begun);
    within = ground (arith, reserve_windows g k key now h, w.within);
  }

  ending-InWindow : (g : Guard) (k : Text) → InWindow g → InWindow (release g k)
  ending-InWindow g k w = record {
    limit = ground (arith, release_slots g k key, w.limit);
    begun = ground (arith, release_slots g k key, w.begun);
    within = ground (arith, release_slots g k key, w.within);
  }

  admitted-le :
      (es : List Event) (g : Guard)
      → 0 < start
      → InWindow g
      → AllBefore start es
      → (window_of g key).count + admitted key g es ≤ suc max
  unfolding admitted
  admitted-le [] g s w h = omega (arith, w.within)
  admitted-le (attempt k now ∷ es) g s w h = elim (Bool-cases (text_eq k key)) [
    | inl same ↦
        let e : k ≡ key = (text_eq_iff k key).0 same in
        let step = charge-InWindow g now s w h.0 in
        let rest = admitted-le es (reserve g key now).1 s step.0 h.1 in
        rw same (
          subst
            (λ j.
              (window_of g key).count
                + (passed (reserve g j now).0 + admitted key (reserve g j now).1 es)
              ≤ suc max)
            (sym e) (omega (arith, step.1)))
    | inr other ↦ rw other (
        ground (
          arith,
          admitted-le es (reserve g k now).1 s (other-InWindow g k now other w) h.1,
          reserve_windows g k key now other,
        ))
  ]
  admitted-le (ending k ∷ es) g s w h =
      ground
        (arith, admitted-le es (release g k) s (ending-InWindow g k w) h, release_slots g k key)

-- From an attempt at `start` that finds the client's window lapsed, and until a minute after it, no
-- order of attempts and endings gets more attempts of that client admitted than the limit allows,
-- that first attempt included.
pub admitted-le-limit :
    (key : Text) (max start : ℕ) (g : Guard) (es : List Event)
    → 0 < start
    → g.limits.max_upgrades_per_client_per_minute ≡ pos (suc max)
    → has_lapsed (window_of g key) start ≡ true
    → AllBefore start es
    → admitted key g (attempt key start ∷ es) ≤ suc max
unfolding admitted
admitted-le-limit key max start g es s l old h =
    let facts = reserve_charges_lapsed g key start max l old in
    let w : InWindow key max start (reserve g key start).1 = record {
      limit = ground (arith, reserve_slots g key key start);
      begun = facts.0;
      within = facts.2;
    } in
    rw (text_eq_refl key)
      (omega (arith, admitted-le key max start es (reserve g key start).1 s w h))
