-- ===== src/AbuseControl/Tests.antt =====
-- The guard of the two abuse_control.go at concrete requests.
use grpc_tunnel.Prelude.{ℕ, ◌+◌, ◌≤◌, ◌≡◌, refl, true, none, some, List, [], ◌∷◌, arith, ◌*◌}
use grpc_tunnel.Prelude.Int.{pos}
use grpc_tunnel.Prelude.Text.{Text, lit, text_eq, trim_space, split_host_port}
use grpc_tunnel.Prelude.Dict.{lookup, insert}
use grpc_tunnel.Http.{Request}
use grpc_tunnel.AbuseControl.{
  Guard, Limits, reserve, window_of, has_lapsed, charge_upgrade, take_slot,
  build_handler_abuse_guard, second, guard_key, build_handler_client_key, unknown_key,
  active_cap_exceeded, client_cap_exceeded,
}
use grpc_tunnel.AbuseControl.Sessions.{
  Tunnels, arrive, Reach, start, next, live_after, IsConsistent, Reach-IsConsistent,
}
use grpc_tunnel.AbuseControl.Rate.{Event, attempt, ending, admitted, AllBefore, admitted-le-limit}

-- Two tunnels in all, one for each client, three attempts a minute.
abbrev limits : Limits
limits = record {
  max_active_connections = pos 2;
  max_connections_per_client = pos 1;
  max_upgrades_per_client_per_minute = pos 3;
}

abbrev fresh : Guard
fresh = build_handler_abuse_guard limits

abbrev client : Text
client = lit "10.0.0.1"

abbrev neighbour : Text
neighbour = lit "10.0.0.2"

abbrev noon : ℕ
noon = 43_200 * second

-- The second tunnel of a client is refused, its neighbour's is not, and then the total is reached.
refusals :
    let (e, g) = reserve fresh client noon in
    let (e', g') = reserve g neighbour noon in
    (e ≡ none)
    × (e' ≡ none)
    × ((reserve g client noon).0 ≡ some (client_cap_exceeded client))
    × ((reserve g' (lit "10.0.0.3") noon).0 ≡ some active_cap_exceeded)
unfolding reserve charge_upgrade take_slot lookup insert text_eq build_handler_abuse_guard
refusals = (refl, refl, refl, refl)

abbrev from_port : Request
from_port = record {
  remote_addr = lit " [::1]:443 ";
  method = lit "GET";
  url_path = none;
  header = λ name. [];
  trace_ids = none;
}

key_of_port : (guard_key (some from_port) ≡ lit "::1") × (guard_key none ≡ unknown_key)
unfolding guard_key build_handler_client_key trim_space split_host_port
key_of_port = (refl, refl)

abbrev served : Guard
served = (reserve fresh client noon).1

first_admitted : reserve fresh client noon ≡ (none, served)
unfolding reserve charge_upgrade take_slot lookup insert text_eq build_handler_abuse_guard
first_admitted = refl

-- A tunnel comes and a second attempt of its client is refused.
abbrev two_attempts : Tunnels
two_attempts = record {
  guard = (reserve served client noon).1;
  live =
      live_after (reserve served client noon).0 client
        (live_after (reserve fresh client noon).0 client []);
}

two_attempts-Reach : Reach limits two_attempts
two_attempts-Reach = next (next (start refl) (arrive client noon refl)) (arrive client noon refl)

Reach-IsConsistent_example : IsConsistent limits two_attempts
Reach-IsConsistent_example = Reach-IsConsistent limits two_attempts-Reach

-- Tries within a second, with an ending between.
abbrev tries : List Event
tries =
    attempt client (noon + 1)
    ∷ ending client
    ∷ attempt neighbour noon
    ∷ attempt client (noon + second)
    ∷ []

tries_before : AllBefore noon tries
tries_before = (omega arith, (omega arith, (omega arith, tt)))

lapsed_at_first : has_lapsed (window_of fresh client) noon ≡ true
unfolding lookup build_handler_abuse_guard
lapsed_at_first = refl

three_a_minute : fresh.limits.max_upgrades_per_client_per_minute ≡ pos 3
unfolding build_handler_abuse_guard
three_a_minute = refl

admitted-le-limit_example : admitted client fresh (attempt client noon ∷ tries) ≤ 3
admitted-le-limit_example =
    admitted-le-limit client 2 noon fresh tries (omega arith) three_a_minute lapsed_at_first
      tries_before
