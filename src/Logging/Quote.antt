-- ===== src/Logging/Quote.antt =====
-- strconv.Quote and strconv.Unquote for double-quoted text, as the log lines of pkg/bridge/logging.go
-- and pkg/grpctunnel/logging.go use the first. Which runes above ASCII are printable is the
-- parameter `wide`.
pub mod Reading
pub mod Printing
use grpc_tunnel.Prelude.{
  ℕ, suc, zero, ◌+◌, ◌-◌, ◌*◌, ◌/◌, ◌%◌, ◌<◌, ◌≡◌, refl, ap, Bool, true, false, ◌&&◌, ◌||◌, Option,
  none, some, List, [], ◌∷◌, ◌++◌, map, append_assoc, leb, ltb, ◌==◌, if◌then◌else◌, Bool-cases,
  inl, inr, length, arith,
}
use grpc_tunnel.Prelude.Text.{Text, lit}

-- utf8.ValidRune
unfoldable pub valid_rune : ℕ → Bool
valid_rune c = ltb c 0xd800 || (ltb 0xdfff c && leb c 0x10ffff)

-- strconv.IsPrint
unfoldable pub is_print : (ℕ → Bool) → ℕ → Bool
unfolding valid_rune
is_print wide c = if ltb c 0x80 then leb 0x20 c && ltb c 0x7f else valid_rune c && wide c

abbrev hex_digit : ℕ → ℕ
hex_digit d = if ltb d 10 then b'0' + d else b'a' + (d - 10)

-- The last digits of a number, the most significant first.
pub hex_digits : ℕ → ℕ → Text
hex_digits zero c = []
hex_digits (suc n) c = hex_digits n (c / 16) ++ hex_digit (c % 16) ∷ []

abbrev pub backslash : ℕ
backslash = b'\\'

abbrev pub quote_mark : ℕ
quote_mark = b'"'

-- The letter of a control character that has one.
pub control_letter : ℕ → Option ℕ
control_letter c =
    if c == 7
    then some b'a'
    else if c == 8
    then some b'b'
    else if c == 12
    then some b'f'
    else if c == 10
    then some b'n'
    else if c == 13
    then some b'r'
    else if c == 9
    then some b't'
    else if c == 11
    then some b'v'
    else none

-- What stands for a rune that is neither printable nor a control character with a letter.
pub escape_code : ℕ → Text
unfolding valid_rune
escape_code c =
    if ltb c 0x20 || (c == 0x7f)
    then backslash ∷ b'x' ∷ hex_digits 2 c
    else if valid_rune c
    then if ltb c 0x10000
      then backslash ∷ b'u' ∷ hex_digits 4 c
      else backslash ∷ b'U' ∷ hex_digits 8 c
    else backslash ∷ b'u' ∷ hex_digits 4 0xfffd

abbrev pub escape_control : ℕ → Option ℕ → Text
escape_control c (some letter) = backslash ∷ letter ∷ []
escape_control c none = escape_code c

unfoldable pub escape : (ℕ → Bool) → ℕ → Text
unfolding is_print control_letter escape_code hex_digits
escape wide c =
    if (c == quote_mark) || (c == backslash)
    then backslash ∷ c ∷ []
    else if is_print wide c
    then c ∷ []
    else escape_control c (control_letter c)

unfoldable pub escaped : (ℕ → Bool) → Text → Text
unfolding escape
escaped wide [] = []
escaped wide (c ∷ s) = escape wide c ++ escaped wide s

-- strconv.Quote
unfoldable pub quote : (ℕ → Bool) → Text → Text
unfolding escaped
quote wide s = quote_mark ∷ escaped wide s ++ quote_mark ∷ []

-- A rune as Go writes it out: U+FFFD for a number that is none.
unfoldable pub to_valid : ℕ → ℕ
unfolding valid_rune
to_valid c = if valid_rune c then c else 0xfffd

quote_test : quote (λ c. true) (lit "a \"b\"\n\u{7f}") ≡ lit "\"a \\\"b\\\"\\n\\x7f\""
unfolding quote
quote_test = refl
