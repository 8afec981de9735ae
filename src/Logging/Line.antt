-- ===== src/Logging/Line.antt =====
-- A log line as a list of keys and values: what the builders of the two logging files write for a
-- field, which fields they leave out, and a reader of such lines.
use grpc_tunnel.Prelude.{
  ℕ, suc, zero, ◌≤◌, ◌<◌, ◌≡◌, refl, Bool, true, false, ◌&&◌, ◌||◌, not, Option, none, some, List,
  [], ◌∷◌, ◌++◌, append_assoc, ◌==◌, if◌then◌else◌, if_rule, length, length-append, map, arith,
}
use grpc_tunnel.Prelude.Text.{Text, is_empty, trim_space, has_byte}
use grpc_tunnel.Logging.Quote.{quote, quote_mark, escaped, to_valid}
use grpc_tunnel.Logging.Quote.Printing.{printed, printed-append, quote-print}
use grpc_tunnel.Logging.Quote.Reading.{read_value, read_value-escaped, length-escaped}

abbrev pub LogField : Type 0
LogField = Text × Text

-- A field of a line, with the space before it.
unfoldable pub line_field : (ℕ → Bool) → LogField → Text
unfolding quote
line_field wide (key, value) = b' ' ∷ key ++ (b'=' ∷ quote wide value)

unfoldable pub written_all : (ℕ → Bool) → List LogField → Text
unfolding line_field
written_all wide [] = []
written_all wide (x ∷ xs) = line_field wide x ++ written_all wide xs

pub written_all-append :
    (wide : ℕ → Bool) (xs ys : List LogField)
    → written_all wide (xs ++ ys) ≡ written_all wide xs ++ written_all wide ys
unfolding written_all
written_all-append wide [] ys = refl
written_all-append wide (x ∷ xs) ys = rw (written_all-append wide xs ys, append_assoc)

-- The fields that are written: trimmed, and without those whose key or value is blank.
abbrev pub keep_field : Text → Text → List LogField
keep_field key value = if is_empty key || is_empty value then [] else (key, value) ∷ []

unfoldable pub kept : List LogField → List LogField
unfolding trim_space
kept [] = []
kept ((key, value) ∷ xs) = keep_field (trim_space key) (trim_space value) ++ kept xs

pub kept-append : (xs ys : List LogField) → kept (xs ++ ys) ≡ kept xs ++ kept ys
unfolding kept
kept-append [] ys = refl
kept-append ((key, value) ∷ xs) ys = rw (kept-append xs ys, append_assoc)

abbrev with_letter : ℕ → Option (Text × Text) → Option (Text × Text)
with_letter c none = none
with_letter c (some (key, rest)) = some (c ∷ key, rest)

-- A key up to the equals sign, and what follows the sign.
read_key : Text → Option (Text × Text)
read_key [] = none
read_key (c ∷ s) = if c == b'=' then some ([], s) else with_letter c (read_key s)

abbrev with_value :
    (Text → Option (List LogField)) → Text → Option (Text × Text) → Option (List LogField)
with_value next key none = none
with_value next key (some (value, rest)) = elim (next rest) [
  | none ↦ none
  | some fields ↦ some ((key, value) ∷ fields)
]

abbrev read_quoted : Text → Option (Text × Text)
unfolding read_value
read_quoted [] = none
read_quoted (c ∷ s) = if c == quote_mark then read_value (suc (length s)) s else none

abbrev with_key : (Text → Option (List LogField)) → Option (Text × Text) → Option (List LogField)
unfolding read_value
with_key next none = none
with_key next (some (key, rest)) = with_value next key (read_quoted rest)

-- The fields of a line, each after a space.
unfoldable pub read_fields : ℕ → Text → Option (List LogField)
unfolding read_value read_key
read_fields zero s = none
read_fields (suc f) [] = some []
read_fields (suc f) (c ∷ s) = if c == b' ' then with_key (read_fields f) (read_key s) else none

-- The values as Go writes them out.
abbrev pub clean : List LogField → List LogField
unfolding to_valid
clean [] = []
clean ((key, value) ∷ xs) = (key, map to_valid value) ∷ clean xs

-- A key of printable runes without an equals sign.
abbrev good_key : (ℕ → Bool) → Text → Bool
unfolding printed
good_key wide key = not (has_byte key b'=') && printed wide key

abbrev good_keys : (ℕ → Bool) → List LogField → Bool
unfolding printed
good_keys wide [] = true
good_keys wide ((key, value) ∷ xs) = good_key wide key && good_keys wide xs

-- The keys are good once they are trimmed.
unfoldable pub good_names : (ℕ → Bool) → List LogField → Bool
unfolding printed trim_space
good_names wide [] = true
good_names wide ((key, value) ∷ xs) = good_key wide (trim_space key) && good_names wide xs

pub good_names-append :
    (wide : ℕ → Bool) (xs ys : List LogField)
    → good_names wide xs ≡ true
    → good_names wide ys ≡ true
    → good_names wide (xs ++ ys) ≡ true
unfolding good_names
good_names-append wide [] ys h k = k
good_names-append wide ((key, value) ∷ xs) ys h k = ground (arith, good_names-append wide xs ys)

good_keys-keep :
    (wide : ℕ → Bool) (key value : Text) (rest : List LogField)
    → good_key wide key ≡ true
    → good_keys wide rest ≡ true
    → good_keys wide (keep_field key value ++ rest) ≡ true
unfolding good_keys
good_keys-keep wide key value rest h k =
    if_rule (λ (xs : List LogField). good_keys wide (xs ++ rest) ≡ true)
      (is_empty key || is_empty value) _ _ (λ e. k) (λ e. ground arith)

good_keys-kept :
    (wide : ℕ → Bool) (xs : List LogField)
    → good_names wide xs ≡ true
    → good_keys wide (kept xs) ≡ true
unfolding good_names good_keys kept
good_keys-kept wide [] h = refl
good_keys-kept wide ((key, value) ∷ xs) h =
    good_keys-keep wide (trim_space key) (trim_space value) (kept xs) (ground arith)
      (good_keys-kept wide xs (ground arith))

read_key-append :
    (key rest : Text)
    → has_byte key b'=' ≡ false
    → read_key (key ++ (b'=' ∷ rest)) ≡ some (key, rest)
unfolding read_key
read_key-append [] rest h = refl
read_key-append (c ∷ key) rest h = ground (arith, read_key-append key rest)

with_key-quote :
    (wide : ℕ → Bool) (next : Text → Option (List LogField)) (key value rest : Text)
    → with_key next (some (key, quote_mark ∷ (escaped wide value ++ quote_mark ∷ rest)))
      ≡ with_value next key (some (map to_valid value, rest))
unfolding with_key
with_key-quote wide next key value rest =
    let enough : length value < suc (length (escaped wide value ++ quote_mark ∷ rest)) =
      omega (
        arith,
        length-escaped wide value,
        length-append (escaped wide value) (quote_mark ∷ rest),
      ) in
    rw (read_value-escaped wide _ value rest enough)

read_fields-line_field :
    (wide : ℕ → Bool) (f : ℕ) (xs : List LogField)
    → good_keys wide xs ≡ true
    → length xs < f
    → read_fields f (written_all wide xs) ≡ some (clean xs)
unfolding read_fields written_all clean good_keys
read_fields-line_field wide zero xs k h = absurd (omega arith)
read_fields-line_field wide (suc f) [] k h = refl
read_fields-line_field wide (suc f) ((key, value) ∷ xs) k h =
    rw (append_assoc, append_assoc, read_key-append key _ (ground arith), with_key-quote wide)
      (rw (read_fields-line_field wide f xs (ground arith) (omega arith)))

length-keep : (key value : Text) → length (keep_field key value) ≤ 1
length-keep key value =
    if_rule (λ (xs : List LogField). length xs ≤ 1) (is_empty key || is_empty value) _ _
      (λ e. omega arith) (λ e. omega arith)

length-kept : (xs : List LogField) → length (kept xs) ≤ length xs
unfolding kept
length-kept [] = omega arith
length-kept ((key, value) ∷ xs) =
    let head = keep_field (trim_space key) (trim_space value) in
    omega (
      arith,
      length-append head (kept xs),
      length-keep (trim_space key) (trim_space value),
      length-kept xs,
    )

-- The kept fields of a line with good keys are read back, with enough fuel for the fields.
pub read_fields-kept :
    (wide : ℕ → Bool) (f : ℕ) (xs : List LogField)
    → good_names wide xs ≡ true
    → length xs < f
    → read_fields f (written_all wide (kept xs)) ≡ some (clean (kept xs))
read_fields-kept wide f xs good h =
    read_fields-line_field wide f (kept xs) (good_keys-kept wide xs good)
      (omega (arith, length-kept xs))

line_field-print :
    (wide : ℕ → Bool) (key value : Text)
    → good_key wide key ≡ true
    → printed wide (line_field wide (key, value)) ≡ true
unfolding good_key line_field printed
line_field-print wide key value h =
    printed-append wide key (b'=' ∷ quote wide value) (ground arith) (quote-print wide value)

written_all-print :
    (wide : ℕ → Bool) (xs : List LogField)
    → good_keys wide xs ≡ true
    → printed wide (written_all wide xs) ≡ true
unfolding good_keys written_all
written_all-print wide [] h = unfold printed in refl
written_all-print wide ((key, value) ∷ xs) h =
    printed-append wide (line_field wide (key, value)) (written_all wide xs)
      (line_field-print wide key value (ground arith)) (written_all-print wide xs (ground arith))

-- The kept fields of a line with good keys stand in it as printable runes.
pub written_all-kept-print :
    (wide : ℕ → Bool) (xs : List LogField)
    → good_names wide xs ≡ true
    → printed wide (written_all wide (kept xs)) ≡ true
written_all-kept-print wide xs good = written_all-print wide (kept xs) (good_keys-kept wide xs good)
