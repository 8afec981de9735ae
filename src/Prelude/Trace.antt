-- ===== src/Prelude/Trace.antt =====
-- Traces of effects: what is held after one, and how often an effect occurs in one.
use grpc_tunnel.Prelude.Tests.{if◌then◌else◌}
use Prim.Native.Nat.{ℕ, suc}
use mathlib.Core.Bool.{Bool}
use mathlib.Core.Option.{Option, none, some}
use mathlib.Core.List.{List, [], ◌∷◌}

-- What an effect does to what is held.
pub data Change {ℓ} (H : Type ℓ) : Type ℓ where
  takes gives : H → Change H
  keeps : Change H

module _ {ℓ κ} {H : Type ℓ} {E : Type κ} (same : H → H → Bool) (change : E → Change H) where
  abbrev held_after : Change H → List H → Option (List H)
  held_after (takes r) held = some (r ∷ held)
  held_after keeps held = some held
  held_after (gives r) [] = none
  held_after (gives r) (s ∷ held) = if same r s then some held else none

  -- What is held after a trace, where each thing is given back before what was taken before it;
  -- `none` if the trace gives back something else than what was taken last.
  abbrev pub balance : List E → List H → Option (List H)
  balance [] held = some held
  balance (e ∷ es) held = elim (held_after (change e) held) [ none ↦ none | some h ↦ balance es h ]

-- How often an effect of a kind occurs.
abbrev pub count {ℓ} : {E : Type ℓ} → (E → Bool) → List E → ℕ
count p [] = 0
count p (e ∷ es) = if p e then suc (count p es) else count p es

-- The number of occurrences of what happens once if `b`, and else never.
abbrev pub once : Bool → ℕ
once b = if b then 1 else 0
