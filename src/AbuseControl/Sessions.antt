-- ===== src/AbuseControl/Sessions.antt =====
-- Tunnels that come and go, in any order, over one guard. A handler reserves a slot when a request
-- arrives and releases it when the request's handler returns; the guard's lock makes each of the
-- two one step.
use grpc_tunnel.Prelude.{
  ℕ, suc, ◌+◌, ◌-◌, ◌<◌, ◌≡◌, refl, sym, subst, ◌⊎◌, Option, none, some, List, [], ◌∷◌, length,
  if◌then◌else◌, arith, inl, inr,
}
use grpc_tunnel.Prelude.Int.{ℤ, pos, negsuc, ◌≤ℤ◌}
use grpc_tunnel.Prelude.Text.{Text, text_eq, text_eq_iff}
use grpc_tunnel.Prelude.Dict.{lookup}
use grpc_tunnel.AbuseControl.{
  Guard, Limits, GuardError, build_handler_abuse_guard, reserve, release, connections_of,
}
use grpc_tunnel.AbuseControl.Branches.{reserve_slots, release_slots, reserve-admits}

-- How often a key stands in a list, and the list without its first occurrence.
unfoldable pub occurrences : Text → List Text → ℕ
occurrences k [] = 0
occurrences k (j ∷ js) = (if text_eq j k then 1 else 0) + occurrences k js

unfoldable pub remove_one : Text → List Text → List Text
remove_one k [] = []
remove_one k (j ∷ js) = if text_eq j k then js else j ∷ remove_one k js

-- The guard, and the keys of the tunnels that hold a slot.
pub record Tunnels : Type 0 where
  pub guard : Guard
  pub live : List Text

abbrev pub live_after : Option GuardError → Text → List Text → List Text
live_after none key live = key ∷ live
live_after (some e) key live = live

pub data Step (t : Tunnels) (u : Tunnels) : Type 0 where
  arrive :
      (key : Text) (now : ℕ)
      → u ≡ record {
        guard = (reserve t.guard key now).1;
        live = live_after (reserve t.guard key now).0 key t.live;
      }
      → Step t u
  leave :
      (key : Text)
      → 0 < occurrences key t.live
      → u ≡ record { guard = release t.guard key; live = remove_one key t.live }
      → Step t u

-- A history: the steps from a fresh guard.
pub data Reach (limits : Limits) : Tunnels → Type 0 where
  start :
      {t : Tunnels}
      → t ≡ record { guard = build_handler_abuse_guard limits; live = [] }
      → Reach limits t
  next : {t u : Tunnels} → Reach limits t → Step t u → Reach limits u

occurrences-remove_one :
    (k j : Text) (ks : List Text)
    → 0 < occurrences k ks
    → occurrences j (remove_one k ks)
      ≡ (if text_eq k j then occurrences j ks - 1 else occurrences j ks)
unfolding occurrences remove_one
occurrences-remove_one k j [] h = absurd (omega arith)
occurrences-remove_one k j (i ∷ ks) h =
    ground (arith, occurrences-remove_one k j ks, text_eq_iff i k, text_eq_iff i j, text_eq_iff k j)

length-remove_one :
    (k : Text) (ks : List Text) → 0 < occurrences k ks → length ks ≡ suc (length (remove_one k ks))
unfolding occurrences remove_one
length-remove_one k [] h = absurd (omega arith)
length-remove_one k (i ∷ ks) h = ground (arith, length-remove_one k ks)

-- A limit that is set is an upper bound.
abbrev pub IsBelow : ℤ → ℕ → Type 0
IsBelow limit n = (limit ≤ℤ pos 0) ⊎ (pos n ≤ℤ limit)

pub record IsConsistent (limits : Limits) (t : Tunnels) : Type 0 where
  pub limits_kept : t.guard.limits ≡ limits
  pub total : t.guard.active_connections ≡ length t.live
  pub per_client : (k : Text) → connections_of t.guard k ≡ occurrences k t.live
  pub total_below : IsBelow limits.max_active_connections (length t.live)
  pub client_below : (k : Text) → IsBelow limits.max_connections_per_client (occurrences k t.live)

IsBelow-zero : (limit : ℤ) → IsBelow limit 0
IsBelow-zero (pos n) = inr (omega arith)
IsBelow-zero (negsuc n) = inl (omega arith)

start-IsConsistent :
    (limits : Limits)
    → IsConsistent limits (record { guard = build_handler_abuse_guard limits; live = [] })
unfolding build_handler_abuse_guard occurrences lookup
start-IsConsistent limits = record {
  limits_kept = refl;
  total = refl;
  per_client = λ k. refl;
  total_below = IsBelow-zero limits.max_active_connections;
  client_below = λ k. IsBelow-zero limits.max_connections_per_client;
}

module _ (limits : Limits) (t : Tunnels) (c : IsConsistent limits t) where
  arrive-IsConsistent :
      (key : Text) (now : ℕ)
      → IsConsistent limits (record {
        guard = (reserve t.guard key now).1;
        live = live_after (reserve t.guard key now).0 key t.live;
      })
  unfolding occurrences
  arrive-IsConsistent key now = record {
    limits_kept = ground (arith, reserve_slots t.guard key key now);
    total = ground (arith, reserve_slots t.guard key key now);
    per_client = λ k. ground (arith, reserve_slots t.guard key k now, c.per_client k);
    total_below = ground (arith, reserve-admits t.guard key now);
    client_below = λ k. ground (
      arith,
      reserve-admits t.guard key now,
      c.client_below k,
      c.per_client key,
      text_eq_iff key k,
    );
  }

  leave-IsConsistent :
      (key : Text)
      → 0 < occurrences key t.live
      → IsConsistent limits (record { guard = release t.guard key; live = remove_one key t.live })
  leave-IsConsistent key h = record {
    limits_kept = ground (arith, release_slots t.guard key key);
    total = ground (arith, release_slots t.guard key key, length-remove_one key t.live);
    per_client = λ k.
        ground
          (arith, release_slots t.guard key k, c.per_client k, occurrences-remove_one key k t.live);
    total_below = ground (arith, length-remove_one key t.live);
    client_below = λ k. ground (arith, c.client_below k, occurrences-remove_one key k t.live);
  }

Step-IsConsistent :
    (limits : Limits) {t u : Tunnels} → Step t u → IsConsistent limits t → IsConsistent limits u
Step-IsConsistent limits {t} {u} (arrive key now e) c =
    subst (IsConsistent limits) (sym e) (arrive-IsConsistent limits t c key now)
Step-IsConsistent limits {t} {u} (leave key h e) c =
    subst (IsConsistent limits) (sym e) (leave-IsConsistent limits t c key h)

-- In every history the guard's counters are exactly the numbers of live tunnels, in total and for
-- each client, and neither number passes the limit that is set for it.
pub Reach-IsConsistent : (limits : Limits) {t : Tunnels} → Reach limits t → IsConsistent limits t
Reach-IsConsistent limits (start e) =
    subst (IsConsistent limits) (sym e) (start-IsConsistent limits)
Reach-IsConsistent limits (next r st) = Step-IsConsistent limits st (Reach-IsConsistent limits r)
