-- ===== src/Logging/Quote/Printing.antt =====
-- Quoted text consists of printable runes only.
use grpc_tunnel.Prelude.{
  ℕ, suc, zero, ◌+◌, ◌-◌, ◌/◌, ◌%◌, ◌<◌, ◌≡◌, refl, Bool, true, ◌&&◌, ◌||◌, Option, none, some, [],
  ◌∷◌, ◌++◌, ltb, ◌==◌, if◌then◌else◌, if_rule, arith,
}
use grpc_tunnel.Prelude.Text.{Text}
use grpc_tunnel.Logging.Quote.{
  valid_rune, is_print, hex_digits, backslash, quote_mark, control_letter, escape_code,
  escape_control, escape, escaped, quote,
}

-- Every rune of the text is printable.
unfoldable pub printed : (ℕ → Bool) → Text → Bool
unfolding is_print
printed wide [] = true
printed wide (c ∷ s) = is_print wide c && printed wide s

pub printed-append :
    (wide : ℕ → Bool) (s t : Text)
    → printed wide s ≡ true
    → printed wide t ≡ true
    → printed wide (s ++ t) ≡ true
unfolding printed
printed-append wide [] t h k = k
printed-append wide (c ∷ s) t h k = ground (arith, printed-append wide s t)

digit-print :
    (wide : ℕ → Bool) (d : ℕ)
    → d < 16
    → is_print wide (if ltb d 10 then b'0' + d else b'a' + (d - 10)) ≡ true
unfolding is_print
digit-print wide d h = ground arith

hex_digits-print : (wide : ℕ → Bool) (n c : ℕ) → printed wide (hex_digits n c) ≡ true
unfolding printed hex_digits
hex_digits-print wide zero c = refl
hex_digits-print wide (suc n) c =
    printed-append wide (hex_digits n (c / 16)) _ (hex_digits-print wide n (c / 16))
      (rw (digit-print wide (c % 16) (omega arith)))

escape_code-print : (wide : ℕ → Bool) (c : ℕ) → printed wide (escape_code c) ≡ true
unfolding printed escape_code
escape_code-print wide c =
    let P = λ (s : Text). printed wide s ≡ true in
    if_rule P (ltb c 0x20 || (c == 0x7f)) _ _ (λ h. hex_digits-print wide 2 c)
      λ h.
        if_rule P (valid_rune c) _ _
          (λ h.
            if_rule P (ltb c 0x10000) _ _ (λ h. hex_digits-print wide 4 c)
              (λ h. hex_digits-print wide 8 c))
          λ h. hex_digits-print wide 4 0xfffd

escape_control-print :
    (wide : ℕ → Bool) (c : ℕ) (l : Option ℕ)
    → control_letter c ≡ l
    → printed wide (escape_control c l) ≡ true
unfolding printed control_letter
escape_control-print wide c (some l) h = ground arith
escape_control-print wide c none h = escape_code-print wide c

escape-print : (wide : ℕ → Bool) (c : ℕ) → printed wide (escape wide c) ≡ true
unfolding escape printed
escape-print wide c =
    let P = λ (s : Text). printed wide s ≡ true in
    if_rule P ((c == quote_mark) || (c == backslash)) _ _ (λ h. ground arith)
      λ h.
        if_rule P (is_print wide c) _ _ (λ p. ground arith)
          λ p. escape_control-print wide c (control_letter c) refl

escaped-print : (wide : ℕ → Bool) (s : Text) → printed wide (escaped wide s) ≡ true
unfolding escaped printed
escaped-print wide [] = refl
escaped-print wide (c ∷ s) =
    printed-append wide (escape wide c) (escaped wide s) (escape-print wide c)
      (escaped-print wide s)

pub quote-print : (wide : ℕ → Bool) (s : Text) → printed wide (quote wide s) ≡ true
unfolding quote printed
quote-print wide s =
    printed-append wide (escaped wide s) (quote_mark ∷ []) (escaped-print wide s) refl
