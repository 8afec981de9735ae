-- ===== src/Logging/TunnelLog/Reading.antt =====
-- A log line of grpctunnel is one line and can be read back.
use grpc_tunnel.Prelude.{
  ℕ, ◌+◌, ◌≡◌, refl, Bool, true, false, ◌||◌, Option, some, List, [], ◌∷◌, ◌++◌, append_assoc,
  append-nil, drop, ◌≤◌, if◌then◌else◌, Bool-cases, inl, inr, length, length-append, arith,
}
use grpc_tunnel.Prelude.Text.{Text, is_empty, trim_space}
use grpc_tunnel.Http.{Request}
use grpc_tunnel.Logging.Quote.Printing.{printed}
use grpc_tunnel.Logging.Line.{
  LogField, line_field, written_all, written_all-append, kept, kept-append, clean, read_fields,
  read_fields-kept, good_names, good_names-append, written_all-kept-print,
}
use grpc_tunnel.Logging.RequestFields.{
  request_fields, error_fields, request_fields-good, error_fields-good, length-request,
  length-error,
}
use grpc_tunnel.Logging.TunnelLog.{
  append_grpctunnel_log_field, append_all, head_fields, separated, build_grpctunnel_log_line,
  line_fields,
}

is_empty-append_cons : (s t : Text) (c : ℕ) → is_empty (s ++ (c ∷ t)) ≡ false
is_empty-append_cons [] t c = refl
is_empty-append_cons (d ∷ s) t c = refl

separated-nonempty : (s : Text) → is_empty s ≡ false → separated s ≡ s ++ b' ' ∷ []
separated-nonempty [] h = cc
separated-nonempty (c ∷ s) h = refl

-- What the builder holds once these fields are written.
abbrev held : (ℕ → Bool) → List LogField → Text
held wide xs = drop 1 (written_all wide xs)

separated-held :
    (wide : ℕ → Bool) (xs : List LogField) (t : Text)
    → separated (held wide xs) ++ t ≡ drop 1 (written_all wide xs ++ b' ' ∷ t)
unfolding held written_all line_field
separated-held wide [] t = refl
separated-held wide ((key, value) ∷ xs) t =
    rw (append_assoc, separated-nonempty _ (is_empty-append_cons key _ b'=')) (simp append_assoc)

append_grpctunnel_log_field-held :
    (wide : ℕ → Bool) (xs : List LogField) (key value : Text)
    → append_grpctunnel_log_field wide (held wide xs) key value
      ≡ held wide (xs ++ kept ((key, value) ∷ []))
unfolding append_grpctunnel_log_field kept written_all
append_grpctunnel_log_field-held wide xs key value =
    elim (Bool-cases (is_empty (trim_space key) || is_empty (trim_space value))) [
      | inl blank ↦ rw blank (rw append-nil)
      | inr kept_field ↦
          rw kept_field (rw (separated-held wide xs, written_all-append wide xs, append-nil))
    ]

append_all-held :
    (wide : ℕ → Bool) (ys xs : List LogField)
    → append_all wide (held wide ys) xs ≡ held wide (ys ++ kept xs)
unfolding append_all
append_all-held wide ys [] = unfold kept in rw append-nil
append_all-held wide ys ((key, value) ∷ xs) =
    rw (append_grpctunnel_log_field-held wide ys key value) (
      rw (append_all-held wide (ys ++ kept ((key, value) ∷ [])) xs)
        (rw (append_assoc, ← kept-append)))

line_fields-good :
    (wide : ℕ → Bool) (component level event : Text) (r : Option Request) (e : Option Text)
    (message : Text)
    → good_names wide (line_fields component level event r e message) ≡ true
unfolding line_fields
line_fields-good wide component level event r e message =
    good_names-append wide (head_fields component level event message) _
      (unfold head_fields good_names in refl)
      (good_names-append wide (request_fields r) _ (request_fields-good wide r)
        (error_fields-good wide e))

length-line :
    (component level event : Text) (r : Option Request) (e : Option Text) (message : Text)
    → length (line_fields component level event r e message) ≤ 12
unfolding line_fields head_fields
length-line component level event r e message =
    omega
      (arith, length-request r, length-error e, length-append (request_fields r) (error_fields e))

append_all-start :
    (wide : ℕ → Bool) (xs : List LogField) → append_all wide [] xs ≡ held wide (kept xs)
unfolding written_all
append_all-start wide xs = append_all-held wide [] xs

build_grpctunnel_log_line_lem :
    (wide : ℕ → Bool) (component level event : Text) (r : Option Request) (e : Option Text)
    (message : Text)
    → build_grpctunnel_log_line wide component level event r e message
      ≡ held wide (kept (line_fields component level event r e message))
unfolding build_grpctunnel_log_line line_fields
build_grpctunnel_log_line_lem wide component level event r e message =
    rw
      (
        append_all-start wide,
        append_all-held wide (kept (head_fields component level event message)),
        append_all-held wide
            (kept (head_fields component level event message) ++ kept (request_fields r)),
      )
      (rw (kept-append, kept-append, append_assoc))

-- The fields of a line, the first without a space before it.
unfoldable pub read_grpctunnel_log_line : Text → Option (List LogField)
unfolding read_fields
read_grpctunnel_log_line s = if is_empty s then some [] else read_fields (13 + length s) (b' ' ∷ s)

held-nonempty :
    (wide : ℕ → Bool) (key value : Text) (xs : List LogField)
    → is_empty (held wide ((key, value) ∷ xs)) ≡ false
unfolding written_all line_field
held-nonempty wide key value xs = rw append_assoc (is_empty-append_cons key _ b'=')

read_grpctunnel_log_line-held :
    (wide : ℕ → Bool) (xs : List LogField)
    → read_grpctunnel_log_line (held wide xs)
      ≡ read_fields (13 + length (held wide xs)) (written_all wide xs)
unfolding read_grpctunnel_log_line written_all
read_grpctunnel_log_line-held wide [] = refl
read_grpctunnel_log_line-held wide ((key, value) ∷ xs) = rw (held-nonempty wide key value xs)

printed-drop : (wide : ℕ → Bool) (s : Text) → printed wide s ≡ true → printed wide (drop 1 s) ≡ true
unfolding printed
printed-drop wide [] h = refl
printed-drop wide (c ∷ s) h = ground arith

-- Whatever the component, the level, the event, the message, the request and the error hold, every
-- rune of a line of grpctunnel's log is printable, and the line is read as exactly the trimmed fields
-- that are not blank, in order, with U+FFFD for a rune that is none.
pub build_grpctunnel_log_line-Reads :
    (wide : ℕ → Bool) (component level event : Text) (r : Option Request) (e : Option Text)
    (message : Text)
    → (printed wide (build_grpctunnel_log_line wide component level event r e message) ≡ true)
      × (read_grpctunnel_log_line (build_grpctunnel_log_line wide component level event r e message)
          ≡ some (clean (kept (line_fields component level event r e message))))
build_grpctunnel_log_line-Reads wide component level event r e message =
    let fields = line_fields component level event r e message in
    let good = line_fields-good wide component level event r e message in
    let bound = length-line component level event r e message in
    rw (build_grpctunnel_log_line_lem wide component level event r e message) (
      printed-drop wide _ (written_all-kept-print wide fields good),
      rw (read_grpctunnel_log_line-held wide (kept fields))
          (read_fields-kept wide _ fields good (omega arith)),
    )
