-- ===== src/Logging/RequestFields.antt =====
-- What the two log line builders, buildBridgeLogLine and buildGrpctunnelLogLine, take from the
-- request and from the error: both files hold the same code for it.
use grpc_tunnel.Prelude.{
  ℕ, ◌≤◌, ◌≡◌, refl, Bool, true, Option, none, some, List, [], ◌∷◌, ◌++◌, if◌then◌else◌, length,
  length-append, arith,
}
use grpc_tunnel.Prelude.Text.{Text, lit, is_empty, trim_space}
use grpc_tunnel.Http.{Request}
use grpc_tunnel.Logging.Line.{LogField, good_names}

abbrev first_nonblank : Request → List Text → Text
unfolding trim_space
first_nonblank r [] = []
first_nonblank r (name ∷ names) =
    let value = trim_space (r.header name) in
    let rest = first_nonblank r names in if is_empty value then rest else value

abbrev request_id_headers : List Text
request_id_headers =
    lit "X-Request-Id" ∷ lit "X-Request-ID" ∷ lit "X-Correlation-Id" ∷ lit "X-Correlation-ID" ∷ []

unfoldable pub get_request_id : Option Request → Text
unfolding first_nonblank
get_request_id none = []
get_request_id (some r) = first_nonblank r request_id_headers

unfoldable pub get_trace_span_ids : Option (Text × Text) → Text × Text
get_trace_span_ids none = ([], [])
get_trace_span_ids (some ids) = ids

abbrev path_fields : Option Text → List LogField
unfolding trim_space
path_fields none = []
path_fields (some path) = (lit "path", trim_space path) ∷ []

-- What the builder appends for the request, one call after the other.
unfoldable pub request_fields : Option Request → List LogField
unfolding trim_space get_request_id get_trace_span_ids
request_fields none = []
request_fields (some r) =
    let (trace_id, span_id) = get_trace_span_ids r.trace_ids in
    (lit "request_id", get_request_id (some r))
    ∷ (lit "remote_addr", trim_space r.remote_addr)
    ∷ (lit "origin", trim_space (r.header (lit "Origin")))
    ∷ (lit "method", trim_space r.method)
    ∷ (path_fields r.url_path ++ (lit "trace_id", trace_id) ∷ (lit "span_id", span_id) ∷ [])

unfoldable pub error_fields : Option Text → List LogField
unfolding trim_space
error_fields none = []
error_fields (some error) = (lit "error", trim_space error) ∷ []

abbrev pub value_or : Text → Text → Text
value_or s d = if is_empty s then d else s

path_fields-good :
    (wide : ℕ → Bool) (path : Option Text) (xs : List LogField)
    → good_names wide xs ≡ true
    → good_names wide (path_fields path ++ xs) ≡ true
unfolding good_names path_fields
path_fields-good wide none xs h = h
path_fields-good wide (some path) xs h = h

pub request_fields-good :
    (wide : ℕ → Bool) (r : Option Request) → good_names wide (request_fields r) ≡ true
unfolding request_fields good_names
request_fields-good wide none = refl
request_fields-good wide (some r) = path_fields-good wide r.url_path _ refl

pub error_fields-good :
    (wide : ℕ → Bool) (e : Option Text) → good_names wide (error_fields e) ≡ true
unfolding error_fields good_names
error_fields-good wide none = refl
error_fields-good wide (some e) = refl

length-path : (path : Option Text) → length (path_fields path) ≤ 1
unfolding path_fields
length-path none = omega arith
length-path (some path) = omega arith

pub length-request : (r : Option Request) → length (request_fields r) ≤ 7
unfolding request_fields
length-request none = omega arith
length-request (some r) = omega (
  arith,
  length-path r.url_path,
  length-append (path_fields r.url_path) (
      (lit "trace_id", (get_trace_span_ids r.trace_ids).0)
      ∷ (lit "span_id", (get_trace_span_ids r.trace_ids).1)
      ∷ []),
)

pub length-error : (e : Option Text) → length (error_fields e) ≤ 1
unfolding error_fields
length-error none = omega arith
length-error (some e) = omega arith
