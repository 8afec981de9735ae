-- ===== src/Logging/BridgeLog/Reading.antt =====
-- A log line of the bridge is one line and can be read back.
use grpc_tunnel.Prelude.{
  ℕ, ◌+◌, ◌≡◌, refl, sym, Bool, true, ◌||◌, Option, none, some, List, [], ◌∷◌, ◌++◌, append_assoc,
  append-nil, drop, ◌≤◌, if◌then◌else◌, Bool-cases, inl, inr, length, length-append, arith,
}
use grpc_tunnel.Prelude.Text.{Text, has_prefix, is_empty, trim_space}
use grpc_tunnel.Http.{Request}
use grpc_tunnel.Logging.Quote.Printing.{printed, printed-append}
use grpc_tunnel.Logging.Line.{
  LogField, line_field, written_all, written_all-append, kept, kept-append, clean, read_fields,
  read_fields-kept, good_names, good_names-append, written_all-kept-print,
}
use grpc_tunnel.Logging.RequestFields.{
  request_fields, error_fields, request_fields-good, error_fields-good, length-request,
  length-error,
}
use grpc_tunnel.Logging.BridgeLog.{
  append_bridge_log_field, append_all, head_fields, component, build_bridge_log_line, line_fields,
}

append_bridge_log_field_lem :
    (wide : ℕ → Bool) (builder key value : Text)
    → append_bridge_log_field wide builder key value
      ≡ builder ++ written_all wide (kept ((key, value) ∷ []))
unfolding append_bridge_log_field written_all kept
append_bridge_log_field_lem wide builder key value =
    elim (Bool-cases (is_empty (trim_space key) || is_empty (trim_space value))) [
      | inl blank ↦ rw blank (sym (append-nil builder))
      | inr kept_field ↦
          rw kept_field
            (ground (arith, append-nil (line_field wide (trim_space key, trim_space value))))
    ]

append_all-line_field :
    (wide : ℕ → Bool) (builder : Text) (xs : List LogField)
    → append_all wide builder xs ≡ builder ++ written_all wide (kept xs)
unfolding append_all
append_all-line_field wide builder [] = unfold kept written_all in sym (append-nil builder)
append_all-line_field wide builder ((key, value) ∷ xs) =
    rw (append_all-line_field wide (append_bridge_log_field wide builder key value) xs)
      (rw (append_bridge_log_field_lem, append_assoc, ← written_all-append, ← kept-append))

line_fields-good :
    (wide : ℕ → Bool) (level event : Text) (r : Option Request) (e : Option Text) (message : Text)
    → good_names wide (line_fields level event r e message) ≡ true
unfolding line_fields
line_fields-good wide level event r e message =
    good_names-append wide (head_fields level event message) _
      (unfold head_fields good_names in refl)
      (good_names-append wide (request_fields r) _ (request_fields-good wide r)
        (error_fields-good wide e))

length-line :
    (level event : Text) (r : Option Request) (e : Option Text) (message : Text)
    → length (line_fields level event r e message) ≤ 11
unfolding line_fields head_fields
length-line level event r e message =
    omega
      (arith, length-request r, length-error e, length-append (request_fields r) (error_fields e))

build_bridge_log_line_lem :
    (wide : ℕ → Bool) (level event : Text) (r : Option Request) (e : Option Text) (message : Text)
    → build_bridge_log_line wide level event r e message
      ≡ component ++ written_all wide (kept (line_fields level event r e message))
unfolding build_bridge_log_line line_fields
build_bridge_log_line_lem wide level event r e message =
    rw
      (
        append_all-line_field, append_all-line_field, append_all-line_field, append_assoc,
        append_assoc,
      )
      (rw (kept-append, kept-append, written_all-append, written_all-append))

-- The fields of a line that begins with the component.
unfoldable pub read_bridge_log_line : Text → Option (List LogField)
unfolding has_prefix read_fields
read_bridge_log_line s =
    if has_prefix s component then read_fields (16 + length (drop 16 s)) (drop 16 s) else none

read_bridge_log_line-component :
    (rest : Text) → read_bridge_log_line (component ++ rest) ≡ read_fields (16 + length rest) rest
unfolding read_bridge_log_line
read_bridge_log_line-component rest = refl

-- Whatever the level, the event, the message, the request and the error hold, every rune of a line of
-- the bridge's log is printable, and the line is read as its component and exactly the trimmed fields
-- that are not blank, in order, with U+FFFD for a rune that is none.
pub build_bridge_log_line-Reads :
    (wide : ℕ → Bool) (level event : Text) (r : Option Request) (e : Option Text) (message : Text)
    → (printed wide (build_bridge_log_line wide level event r e message) ≡ true)
      × (read_bridge_log_line (build_bridge_log_line wide level event r e message)
          ≡ some (clean (kept (line_fields level event r e message))))
build_bridge_log_line-Reads wide level event r e message =
    let fields = line_fields level event r e message in
    let good = line_fields-good wide level event r e message in
    rw (build_bridge_log_line_lem wide level event r e message) (
      printed-append wide component _ (unfold printed in refl)
          (written_all-kept-print wide fields good),
      rw (read_bridge_log_line-component) (
          read_fields-kept wide _ fields good (omega (arith, length-line level event r e message))),
    )
