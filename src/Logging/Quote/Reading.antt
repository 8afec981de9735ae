-- ===== src/Logging/Quote/Reading.antt =====
-- A reader of quoted text, strconv.Unquote with what follows left over, and that it undoes
-- strconv.Quote.
use grpc_tunnel.Prelude.{
  ℕ, suc, zero, ◌+◌, ◌-◌, ◌*◌, ◌/◌, ◌%◌, ◌<◌, ◌≤◌, ◌≡◌, refl, Bool, true, false, ◌&&◌, ◌||◌, Option,
  none, some, [], ◌∷◌, ◌++◌, map, append_assoc, leb, ltb, ◌==◌, if◌then◌else◌, Bool-cases, inl, inr,
  if_rule, length, length-append, arith,
}
use grpc_tunnel.Prelude.Text.{Text}
use grpc_tunnel.Logging.Quote.{
  valid_rune, is_print, hex_digits, backslash, quote_mark, control_letter, escape_code,
  escape_control, escape, escaped, to_valid,
}

hex_value : ℕ → Option ℕ
hex_value c =
    if leb b'0' c && leb c b'9'
    then some (c - b'0')
    else if leb b'a' c && leb c b'f'
    then some (c - b'a' + 10)
    else none

abbrev with_digit : ℕ → Text → Option ℕ → Option (ℕ × Text)
with_digit v s none = none
with_digit v s (some d) = some (v * 16 + d, s)

abbrev read_digit : Option (ℕ × Text) → Option (ℕ × Text)
unfolding hex_value
read_digit none = none
read_digit (some (v, [])) = none
read_digit (some (v, c ∷ s)) = with_digit v s (hex_value c)

-- The number of that many hexadecimal digits.
pub read_hex : ℕ → Text → Option (ℕ × Text)
unfolding hex_value
read_hex zero s = some (0, s)
read_hex (suc n) s = read_digit (read_hex n s)

abbrev read_numbered : ℕ → Text → Option (ℕ × Text)
unfolding read_hex
read_numbered d s =
    if d == b'x'
    then read_hex 2 s
    else if d == b'u'
    then read_hex 4 s
    else if d == b'U'
    then read_hex 8 s
    else none

pub letter_control : ℕ → Option ℕ
letter_control d =
    if (d == quote_mark) || (d == backslash)
    then some d
    else if d == b'a'
    then some 7
    else if d == b'b'
    then some 8
    else if d == b'f'
    then some 12
    else if d == b'n'
    then some 10
    else if d == b'r'
    then some 13
    else if d == b't'
    then some 9
    else if d == b'v'
    then some 11
    else none

abbrev read_lettered : ℕ → Text → Option ℕ → Option (ℕ × Text)
unfolding read_hex
read_lettered d s (some c) = some (c, s)
read_lettered d s none = read_numbered d s

abbrev read_escape : Text → Option (ℕ × Text)
unfolding read_hex letter_control
read_escape [] = none
read_escape (d ∷ s) = read_lettered d s (letter_control d)

-- One rune of quoted text.
unfoldable pub read_rune : Text → Option (ℕ × Text)
unfolding read_hex letter_control
read_rune [] = none
read_rune (c ∷ s) = if c == backslash then read_escape s else some (c, s)

abbrev with_rune : ℕ → Option (Text × Text) → Option (Text × Text)
with_rune c none = none
with_rune c (some (value, rest)) = some (c ∷ value, rest)

abbrev then_rest : (Text → Option (Text × Text)) → Option (ℕ × Text) → Option (Text × Text)
then_rest next none = none
then_rest next (some (c, s)) = with_rune c (next s)

-- Quoted text after its first quote mark, and what follows its last one.
unfoldable pub read_value : ℕ → Text → Option (Text × Text)
unfolding read_rune
read_value zero s = none
read_value (suc f) [] = none
read_value (suc f) (c ∷ s) =
    if c == quote_mark then some ([], s) else then_rest (read_value f) (read_rune (c ∷ s))

abbrev power : ℕ → ℕ
power zero = 1
power (suc n) = 16 * power n

hex_value-digit :
    (d : ℕ) → d < 16 → hex_value (if ltb d 10 then b'0' + d else b'a' + (d - 10)) ≡ some d
unfolding hex_value
hex_value-digit d h = ground arith

read_hex-digits :
    (n c : ℕ) (rest : Text) → c < power n → read_hex n (hex_digits n c ++ rest) ≡ some (c, rest)
unfolding read_hex hex_digits
read_hex-digits zero c rest h = ground arith
read_hex-digits (suc n) c rest h = rw append_assoc (
    rw (read_hex-digits n (c / 16) _ (omega arith), hex_value-digit (c % 16) (omega arith))
      (ground arith))

read_rune-control :
    (c letter : ℕ) (s : Text)
    → control_letter c ≡ some letter
    → read_rune (backslash ∷ letter ∷ s) ≡ some (c, s)
unfolding read_rune control_letter
read_rune-control c letter s h = ground arith

valid_rune-lt : (c : ℕ) → valid_rune c ≡ true → c < power 8
unfolding valid_rune
valid_rune-lt c v = ground arith

read_rune-code : (c : ℕ) (s : Text) → read_rune (escape_code c ++ s) ≡ some (to_valid c, s)
unfolding read_rune escape_code to_valid
read_rune-code c s = elim (Bool-cases (ltb c 0x20 || (c == 0x7f))) [
  | inl short ↦ rw short (rw (read_hex-digits 2 c s (ground arith)) (ground arith))
  | inr h ↦ rw h (elim (Bool-cases (valid_rune c)) [
    | inl v ↦ rw v (elim (Bool-cases (ltb c 0x10000)) [
      | inl short ↦ rw short (read_hex-digits 4 c s (ground arith))
      | inr long ↦ rw long (read_hex-digits 8 c s (valid_rune-lt c v))
    ])
    | inr bad ↦ rw bad (read_hex-digits 4 0xfffd s (omega arith))
  ])
]

to_valid-control : (c l : ℕ) → control_letter c ≡ some l → to_valid c ≡ c
unfolding control_letter to_valid
to_valid-control c l h = ground arith

read_rune-hidden :
    (c : ℕ) (s : Text) (letter : Option ℕ)
    → control_letter c ≡ letter
    → read_rune (escape_control c letter ++ s) ≡ some (to_valid c, s)
read_rune-hidden c s (some l) h = rw (read_rune-control c l s h, to_valid-control c l h)
read_rune-hidden c s none h = read_rune-code c s

read_rune-special :
    (c : ℕ) (s : Text)
    → ((c == quote_mark) || (c == backslash)) ≡ true
    → read_rune (backslash ∷ c ∷ s) ≡ some (to_valid c, s)
unfolding read_rune to_valid
read_rune-special c s h = ground arith

read_rune-print :
    (wide : ℕ → Bool) (c : ℕ) (s : Text)
    → (c == backslash) ≡ false
    → is_print wide c ≡ true
    → read_rune (c ∷ s) ≡ some (to_valid c, s)
unfolding read_rune to_valid is_print
read_rune-print wide c s h p = ground arith

-- A rune as it stands in quoted text is read as that rune.
pub read_rune-escape :
    (wide : ℕ → Bool) (c : ℕ) (s : Text) → read_rune (escape wide c ++ s) ≡ some (to_valid c, s)
unfolding escape
read_rune-escape wide c s = elim (Bool-cases ((c == quote_mark) || (c == backslash))) [
  | inl special ↦ rw special (read_rune-special c s special)
  | inr plain ↦ rw plain (elim (Bool-cases (is_print wide c)) [
    | inl printed ↦ rw printed (read_rune-print wide c s (ground arith) printed)
    | inr hidden ↦ rw hidden (read_rune-hidden c s (control_letter c) refl)
  ])
]

-- A text whose first rune is no quote mark.
abbrev NoMark : Text → Type 0
NoMark [] = ⊥
NoMark (c ∷ s) = (c == quote_mark) ≡ false

escape_code-NoMark : (c : ℕ) → NoMark (escape_code c)
unfolding escape_code
escape_code-NoMark c =
    if_rule NoMark (ltb c 0x20 || (c == 0x7f)) _ _ (λ h. refl)
      λ h.
        if_rule NoMark (valid_rune c) _ _
          (λ h. if_rule NoMark (ltb c 0x10000) _ _ (λ h. refl) (λ h. refl)) λ h. refl

escape_control-NoMark : (c : ℕ) (l : Option ℕ) → NoMark (escape_control c l)
escape_control-NoMark c (some l) = refl
escape_control-NoMark c none = escape_code-NoMark c

escape-NoMark : (wide : ℕ → Bool) (c : ℕ) → NoMark (escape wide c)
unfolding escape
escape-NoMark wide c =
    if_rule NoMark ((c == quote_mark) || (c == backslash)) _ _ (λ h. refl)
      λ h.
        if_rule NoMark (is_print wide c) _ _ (λ p. ground arith)
          λ p. escape_control-NoMark c (control_letter c)

NoMark-length : (s : Text) → NoMark s → 1 ≤ length s
NoMark-length [] h = absurd h
NoMark-length (c ∷ s) h = omega arith

pub length-escaped : (wide : ℕ → Bool) (s : Text) → length s ≤ length (escaped wide s)
unfolding escaped
length-escaped wide [] = omega arith
length-escaped wide (c ∷ s) = omega (
  arith,
  length-append (escape wide c) (escaped wide s),
  length-escaped wide s,
  NoMark-length (escape wide c) (escape-NoMark wide c),
)

read_value-NoMark :
    (f : ℕ) (s t : Text)
    → NoMark s
    → read_value (suc f) (s ++ t) ≡ then_rest (read_value f) (read_rune (s ++ t))
unfolding read_value
read_value-NoMark f [] t h = absurd h
read_value-NoMark f (c ∷ s) t h = rw h

-- The text of a quoted text, as Go writes it out, is read back, with what follows left over.
pub read_value-escaped :
    (wide : ℕ → Bool) (f : ℕ) (s rest : Text)
    → length s < f
    → read_value f (escaped wide s ++ quote_mark ∷ rest) ≡ some (map to_valid s, rest)
unfolding escaped
read_value-escaped wide zero s rest h = absurd (omega arith)
read_value-escaped wide (suc f) [] rest h = unfold read_value in refl
read_value-escaped wide (suc f) (c ∷ s) rest h =
    rw (append_assoc, read_value-NoMark f _ _ (escape-NoMark wide c), read_rune-escape wide c)
      (rw (read_value-escaped wide f s rest (omega arith)))
