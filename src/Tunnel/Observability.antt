-- ===== src/Tunnel/Observability.antt =====
-- pkg/grpctunnel/observability.go: what is recorded with which attributes. OpenTelemetry's instruments
-- are told apart by whether they are there; contexts are left out, and a latency is in nanoseconds.
use grpc_tunnel.Prelude.{
  ℕ, ◌+◌, ◌≡◌, refl, ap, Bool, true, false, ◌&&◌, Option, none, some, List, [], ◌∷◌, ◌++◌,
  if◌then◌else◌, arith,
}
use grpc_tunnel.Prelude.Int.{ℤ, pos, negsuc, pos_part, neg_part, ltb_ℤ}
use grpc_tunnel.Prelude.Text.{Text, lit, is_empty, trim_space}
use grpc_tunnel.Http.{Request}

abbrev pub Attributes : Type 0
Attributes = List (Text × Text)

-- `bridgeObservability`: whether each of its handles is not nil.
pub record Observability : Type 0 where
  pub has_tracer : Bool
  pub has_connections_active : Bool
  pub has_connections_total : Bool
  pub has_upgrade_failures_total : Bool
  pub has_upgrade_latency : Bool

pub data Signal : Type 0 where
  latency_recorded : ℤ → Attributes → Signal
  failure_added : Attributes → Signal
  active_changed : ℤ → Attributes → Signal
  total_changed : ℤ → Attributes → Signal
  server_span : Text → Attributes → Signal
  plain_span : Text → Attributes → Signal

abbrev attribute_unless_empty : Text → Text → Attributes
attribute_unless_empty key value = if is_empty value then [] else (key, value) ∷ []

abbrev path_attribute : Option Text → Attributes
path_attribute none = []
path_attribute (some path) = attribute_unless_empty (lit "path") (trim_space path)

abbrev request_attributes : Option Request → Attributes
request_attributes none = []
request_attributes (some r) =
    attribute_unless_empty (lit "method") (trim_space r.method) ++ path_attribute r.url_path

unfoldable pub build_bridge_metric_attributes : Option Request → Text → Attributes
build_bridge_metric_attributes r result =
    (lit "component", lit "grpctunnel.bridge")
    ∷ (attribute_unless_empty (lit "result") result ++ request_attributes r)

abbrev only_if : Bool → Signal → List Signal
only_if true s = s ∷ []
only_if false s = []

unfoldable pub store_upgrade_result : Option Observability → ℤ → Option Request → Text → List Signal
store_upgrade_result none duration r result = []
store_upgrade_result (some o) duration r result =
    only_if o.has_upgrade_latency
      (latency_recorded duration (build_bridge_metric_attributes r result))

abbrev failure_signal : Option Observability → Attributes → List Signal
failure_signal none attributes = []
failure_signal (some o) attributes = only_if o.has_upgrade_failures_total (failure_added attributes)

unfoldable pub store_upgrade_failure : Option Observability → ℤ → Option Request → List Signal
unfolding store_upgrade_result
store_upgrade_failure o duration r =
    store_upgrade_result o duration r (lit "failure")
    ++ failure_signal o (build_bridge_metric_attributes r (lit "failure"))

unfoldable pub store_upgrade_success : Option Observability → ℤ → Option Request → List Signal
unfolding store_upgrade_result
store_upgrade_success o duration r = store_upgrade_result o duration r (lit "success")

abbrev delta_signals : Bool → Bool → Attributes → ℤ → List Signal
delta_signals active total attributes delta =
    only_if active (active_changed delta attributes)
    ++ only_if (ltb_ℤ (pos 0) delta && total) (total_changed delta attributes)

unfoldable pub store_connection_delta : Option Observability → Option Request → ℤ → List Signal
unfolding build_bridge_metric_attributes
store_connection_delta none r delta = []
store_connection_delta (some o) r delta =
    delta_signals o.has_connections_active o.has_connections_total
      (build_bridge_metric_attributes r []) delta

-- Without a tracer the span of the context is taken, and none is started.
unfoldable pub start_request_span : Option Observability → Option Request → List Signal
start_request_span none r = []
start_request_span (some o) r =
    only_if o.has_tracer
      (server_span (lit "grpctunnel.bridge.request") (build_bridge_metric_attributes r []))

unfoldable pub start_session_span : Option Observability → Option Request → List Signal
start_session_span none r = []
start_session_span (some o) r =
    only_if o.has_tracer
      (plain_span (lit "grpctunnel.bridge.session") (build_bridge_metric_attributes r []))

-- The deltas of a request one after the other.
unfoldable pub store_deltas : Option Observability → List (Option Request × ℤ) → List Signal
unfolding store_connection_delta
store_deltas o [] = []
store_deltas o ((r, delta) ∷ deltas) = store_connection_delta o r delta ++ store_deltas o deltas

-- What the two counters of connections gain and lose.
abbrev pub active_gain : List Signal → ℕ
active_gain [] = 0
active_gain (active_changed delta a ∷ ss) = pos_part delta + active_gain ss
active_gain (s ∷ ss) = active_gain ss

abbrev pub active_loss : List Signal → ℕ
active_loss [] = 0
active_loss (active_changed delta a ∷ ss) = neg_part delta + active_loss ss
active_loss (s ∷ ss) = active_loss ss

abbrev pub total_gain : List Signal → ℕ
total_gain [] = 0
total_gain (total_changed delta a ∷ ss) = pos_part delta + total_gain ss
total_gain (s ∷ ss) = total_gain ss

abbrev pub total_loss : List Signal → ℕ
total_loss [] = 0
total_loss (total_changed delta a ∷ ss) = neg_part delta + total_loss ss
total_loss (s ∷ ss) = total_loss ss

abbrev pub ups : List (Option Request × ℤ) → ℕ
ups [] = 0
ups ((r, delta) ∷ deltas) = pos_part delta + ups deltas

abbrev pub downs : List (Option Request × ℤ) → ℕ
downs [] = 0
downs ((r, delta) ∷ deltas) = neg_part delta + downs deltas

abbrev pub Tallies : (active total : Bool) → ℕ → ℕ → List Signal → Type 0
Tallies active total up down ss =
    (active_gain ss ≡ (if active then up else 0))
    × (active_loss ss ≡ (if active then down else 0))
    × (total_gain ss ≡ (if total then up else 0))
    × (total_loss ss ≡ 0)

nothing-Tallies : (active total : Bool) → Tallies active total 0 0 []
nothing-Tallies true true = (refl, refl, refl, refl)
nothing-Tallies true false = (refl, refl, refl, refl)
nothing-Tallies false true = (refl, refl, refl, refl)
nothing-Tallies false false = (refl, refl, refl, refl)

sign :
    (delta : ℤ)
    → (ltb_ℤ (pos 0) delta ≡ true → neg_part delta ≡ 0)
      × (ltb_ℤ (pos 0) delta ≡ false → pos_part delta ≡ 0)
sign (pos n) = (λ h. refl, λ h. ground arith)
sign (negsuc n) = (λ h. absurd (ground arith), λ h. refl)

-- The signals of a delta, with whether it counts as positive.
signals-Tallies :
    (active total positive : Bool) (attributes : Attributes) (delta : ℤ) (up down : ℕ)
    (ss : List Signal)
    → (positive ≡ true → neg_part delta ≡ 0)
    → (positive ≡ false → pos_part delta ≡ 0)
    → Tallies active total up down ss
    → Tallies active total (pos_part delta + up) (neg_part delta + down) (
        (only_if active (active_changed delta attributes)
          ++ only_if (positive && total) (total_changed delta attributes))
        ++ ss)
signals-Tallies true true true a delta up down ss h k (p, q, r, s) = (
  ap (λ n. pos_part delta + n) p,
  ap (λ n. neg_part delta + n) q,
  ap (λ n. pos_part delta + n) r,
  rw (h refl, s) refl,
)
signals-Tallies true true false a delta up down ss h k (p, q, r, s) = (
  ap (λ n. pos_part delta + n) p,
  ap (λ n. neg_part delta + n) q,
  let z = k refl in omega arith,
  s,
)
signals-Tallies true false true a delta up down ss h k (p, q, r, s) =
    (ap (λ n. pos_part delta + n) p, ap (λ n. neg_part delta + n) q, r, s)
signals-Tallies true false false a delta up down ss h k (p, q, r, s) =
    (ap (λ n. pos_part delta + n) p, ap (λ n. neg_part delta + n) q, r, s)
signals-Tallies false true true a delta up down ss h k (p, q, r, s) =
    (p, q, ap (λ n. pos_part delta + n) r, rw (h refl, s) refl)
signals-Tallies false true false a delta up down ss h k (p, q, r, s) =
    (p, q, let z = k refl in omega arith, s)
signals-Tallies false false true a delta up down ss h k (p, q, r, s) = (p, q, r, s)
signals-Tallies false false false a delta up down ss h k (p, q, r, s) = (p, q, r, s)

-- Whatever deltas are stored one after the other, the active counter gains and loses exactly what they
-- say, and the total counter gains the positive ones and never loses, each if it is there.
pub store_deltas-Tallies :
    (o : Observability) (deltas : List (Option Request × ℤ))
    → Tallies o.has_connections_active o.has_connections_total
        (ups deltas)
        (downs deltas)
        (store_deltas (some o) deltas)
unfolding store_deltas store_connection_delta
store_deltas-Tallies o [] = nothing-Tallies o.has_connections_active o.has_connections_total
store_deltas-Tallies o ((r, delta) ∷ deltas) =
    signals-Tallies o.has_connections_active o.has_connections_total (ltb_ℤ (pos 0) delta)
      (build_bridge_metric_attributes r []) delta (ups deltas) (downs deltas)
      (store_deltas (some o) deltas) (sign delta).0 (sign delta).1 (store_deltas-Tallies o deltas)
