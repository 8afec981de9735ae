-- ===== src/Logging/TunnelLog.antt =====
-- buildGrpctunnelLogLine and its helpers of pkg/grpctunnel/logging.go. `err` is the text of an error that is not nil.
pub mod Reading
use grpc_tunnel.Prelude.{
  ℕ, suc, ◌+◌, ◌<◌, ◌≡◌, refl, sym, Bool, true, false, ◌||◌, Option, none, some, List, [], ◌∷◌,
  ◌++◌, append_assoc, append-nil, ltb, if◌then◌else◌, Bool-cases, inl, inr, length, length-append,
  arith,
}
use grpc_tunnel.Prelude.Text.{Text, lit, is_empty, trim_space}
use grpc_tunnel.Http.{Request}
use grpc_tunnel.Logging.Quote.{quote}
use grpc_tunnel.Logging.Quote.Printing.{printed, printed-append}
use grpc_tunnel.Logging.Line.{
  LogField, line_field, written_all, written_all-append, kept, kept-append, clean, read_fields,
  read_fields-kept, good_names, good_names-append, written_all-kept-print,
}
use grpc_tunnel.Logging.RequestFields.{
  value_or, request_fields, error_fields, request_fields-good, error_fields-good, length-request,
  length-error,
}

-- The space goes before every field but the first.
abbrev pub separated : Text → Text
separated [] = []
separated (c ∷ s) = (c ∷ s) ++ b' ' ∷ []

unfoldable pub append_grpctunnel_log_field : (ℕ → Bool) → Text → Text → Text → Text
unfolding trim_space quote
append_grpctunnel_log_field wide builder key value =
    let k = trim_space key in
    let v = trim_space value in
    if is_empty k || is_empty v then builder else separated builder ++ (k ++ (b'=' ∷ quote wide v))

-- Calls of `append_grpctunnel_log_field`, one after the other.
abbrev pub append_all : (ℕ → Bool) → Text → List LogField → Text
unfolding append_grpctunnel_log_field
append_all wide builder [] = builder
append_all wide builder ((key, value) ∷ xs) =
    append_all wide (append_grpctunnel_log_field wide builder key value) xs

pub head_fields : Text → Text → Text → Text → List LogField
unfolding trim_space
head_fields component level event message =
    (lit "component", value_or (trim_space component) (lit "grpctunnel"))
    ∷ (lit "level", value_or (trim_space level) (lit "INFO"))
    ∷ (lit "event", value_or (trim_space event) (lit "grpctunnel_event"))
    ∷ (lit "msg", message)
    ∷ []

unfoldable pub build_grpctunnel_log_line :
    (ℕ → Bool) → Text → Text → Text → Option Request → Option Text → Text → Text
unfolding append_all head_fields request_fields error_fields
build_grpctunnel_log_line wide component level event request err message =
    let builder = append_all wide [] (head_fields component level event message) in
    let builder = append_all wide builder (request_fields request) in
    append_all wide builder (error_fields err)

-- All fields of a line, in order.
pub line_fields : Text → Text → Text → Option Request → Option Text → Text → List LogField
unfolding head_fields
line_fields component level event request err message =
    head_fields component level event message ++ (request_fields request ++ error_fields err)
