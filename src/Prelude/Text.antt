-- ===== src/Prelude/Text.antt =====
-- Go strings as lists of code points, and the functions of the packages strings and net that the
-- program calls on them: TrimSpace, HasPrefix, HasSuffix, Contains, EqualFold, SplitHostPort.
-- A Go string is taken to be valid UTF-8.
use Prim.Native.Nat.{ℕ, suc, ◌+◌, ◌-◌}
use Prim.Native.Char.{code}
use Prim.Native.String.{String}
use mathlib.Core.Path.{◌≡◌, refl, sym, ap}
use mathlib.Core.Logic.{◌↔◌, ◌⊎◌, inl, inr}
use mathlib.Core.Bool.{Bool, true, false, ◌&&◌, ◌||◌}
use mathlib.Core.Option.{Option, none, some}
use mathlib.Core.List.{List, [], ◌∷◌, ◌++◌}
use native.Mathlib.Omega.{arith}
use grpc_tunnel.Prelude.Tests.{leb, ◌==◌, if◌then◌else◌, Bool-cases}
use grpc_tunnel.Prelude.Lists.{length, take, drop, get_or, length-append}

abbrev pub Text : Type 0
Text = List ℕ

-- A literal of the source.
abbrev pub lit : String → Text
lit (String.◌∷◌ letter rest) = code letter ∷ lit rest
lit String.[] = []

unfoldable pub text_eq : Text → Text → Bool
text_eq [] [] = true
text_eq [] (d ∷ t) = false
text_eq (c ∷ s) [] = false
text_eq (c ∷ s) (d ∷ t) = (c == d) && text_eq s t

pub text_eq_iff : (s t : Text) → (text_eq s t ≡ true) ↔ (s ≡ t)
unfolding text_eq
text_eq_iff [] [] = (λ h. refl, λ h. refl)
text_eq_iff [] (d ∷ t) = (λ h. cc, λ h. cc)
text_eq_iff (c ∷ s) [] = (λ h. cc, λ h. cc)
text_eq_iff (c ∷ s) (d ∷ t) =
    let ih = text_eq_iff s t in (λ h. ground (arith, ih), λ h. ground (arith, ih))

pub text_eq_refl : (s : Text) → text_eq s s ≡ true
text_eq_refl s = (text_eq_iff s s).1 refl

pub text_eq_comm : (s t : Text) → text_eq s t ≡ text_eq t s
unfolding text_eq
text_eq_comm [] [] = refl
text_eq_comm [] (d ∷ t) = refl
text_eq_comm (c ∷ s) [] = refl
text_eq_comm (c ∷ s) (d ∷ t) = ground (arith, text_eq_comm s t)

abbrev pub is_empty : Text → Bool
is_empty [] = true
is_empty (c ∷ s) = false

-- unicode.IsSpace
unfoldable pub is_space : ℕ → Bool
is_space c =
    (leb 9 c && leb c 13)
    || (c == 32)
    || (c == 0x85)
    || (c == 0xa0)
    || (c == 0x1680)
    || (leb 0x2000 c && leb c 0x200a)
    || (c == 0x2028)
    || (c == 0x2029)
    || (c == 0x202f)
    || (c == 0x205f)
    || (c == 0x3000)

unfoldable pub trim_left : Text → Text
trim_left [] = []
trim_left (c ∷ s) = if is_space c then trim_left s else c ∷ s

abbrev pub trim_cons : ℕ → Text → Text
trim_cons c [] = if is_space c then [] else c ∷ []
trim_cons c (d ∷ s) = c ∷ d ∷ s

unfoldable pub trim_right : Text → Text
trim_right [] = []
trim_right (c ∷ s) = trim_cons c (trim_right s)

-- strings.TrimSpace
unfoldable pub trim_space : Text → Text
unfolding trim_left trim_right is_space
trim_space s = trim_right (trim_left s)

unfoldable pub has_prefix : Text → Text → Bool
has_prefix s [] = true
has_prefix [] (d ∷ p) = false
has_prefix (c ∷ s) (d ∷ p) = (c == d) && has_prefix s p

same_cons : (c d : ℕ) (s t : Text) → c ≡ d → s ≡ t → c ∷ s ≡ d ∷ t
same_cons c d s t h e = cc

pub has_prefix-split : (t p : Text) → has_prefix t p ≡ true → (rest : Text) × (t ≡ p ++ rest)
unfolding has_prefix
has_prefix-split t [] h = (t, refl)
has_prefix-split [] (d ∷ p) h = absurd (ground arith)
has_prefix-split (c ∷ t) (d ∷ p) h =
    let same : c ≡ d = ground arith in
    let (rest, e) = has_prefix-split t p (ground arith) in
    (rest, same_cons c d t (p ++ rest) same e)

-- strings.Contains
unfoldable pub contains : Text → Text → Bool
unfolding has_prefix
contains [] p = is_empty p
contains (c ∷ s) p = has_prefix (c ∷ s) p || contains s p

-- strings.HasSuffix: some end of the text is the suffix.
unfoldable pub has_suffix : Text → Text → Bool
unfolding text_eq
has_suffix [] p = is_empty p
has_suffix (c ∷ s) p = text_eq (c ∷ s) p || has_suffix s p

-- strings.TrimSuffix
unfoldable pub trim_suffix : Text → Text → Text
unfolding has_suffix
trim_suffix s p = if has_suffix s p then take (length s - length p) s else s

pub has_suffix-split : (t p : Text) → has_suffix t p ≡ true → (front : Text) × (t ≡ front ++ p)
unfolding has_suffix
has_suffix-split [] [] h = ([], refl)
has_suffix-split [] (d ∷ p) h = absurd (ground arith)
has_suffix-split (c ∷ t) p h = elim (Bool-cases (text_eq (c ∷ t) p)) [
  | inl whole ↦ ([], (text_eq_iff (c ∷ t) p).0 whole)
  | inr more ↦
      let (front, e) = has_suffix-split t p (rw more at h) in
      (c ∷ front, same_cons c c t (front ++ p) refl e)
]

take_prefix : (front p : Text) → take (length front) (front ++ p) ≡ front
take_prefix [] p = refl
take_prefix (c ∷ front) p = ap (◌∷◌ c) (take_prefix front p)

pub take_front : (front p : Text) → take (length (front ++ p) - length p) (front ++ p) ≡ front
take_front front p =
    let n : length (front ++ p) - length p ≡ length front = omega (arith, length-append front p) in
    rw n (take_prefix front p)

-- What is left of a text without its suffix: the text is that with the suffix, or without.
pub trim_suffix-cases : (s p : Text) → (s ≡ trim_suffix s p ++ p) ⊎ (s ≡ trim_suffix s p)
unfolding trim_suffix
trim_suffix-cases s p = elim (Bool-cases (has_suffix s p)) [
  | inl h ↦
      let (front, e) = has_suffix-split s p h in
      inl (rw h (rw e (ap (λ t. t ++ p) (sym (take_front front p)))))
  | inr h ↦ inr (rw h refl)
]

-- filepath.Join of a clean path and a clean relative one
unfoldable pub join_path : Text → Text → Text
unfolding has_suffix
join_path dir name = if has_suffix dir (lit "/") then dir ++ name else dir ++ (b'/' ∷ name)

-- The ASCII letters fold to lower case; two more code points fold to ASCII letters.
unfoldable pub fold_rune : ℕ → ℕ
fold_rune c =
    if leb b'A' c && leb c b'Z'
    then c + 32
    else if c == 0x17f
    then b's'
    else if c == 0x212a
    then b'k'
    else c

-- strings.EqualFold, against a text of lower-case ASCII.
unfoldable pub equal_fold : Text → Text → Bool
unfolding fold_rune
equal_fold [] [] = true
equal_fold [] (d ∷ t) = false
equal_fold (c ∷ s) [] = false
equal_fold (c ∷ s) (d ∷ t) = (fold_rune c == d) && equal_fold s t

abbrev shift : Option ℕ → Option ℕ
shift none = none
shift (some i) = some (suc i)

unfoldable pub index : Text → ℕ → Option ℕ
index [] c = none
index (d ∷ s) c = if d == c then some 0 else shift (index s c)

abbrev last_cons : Option ℕ → ℕ → ℕ → Option ℕ
last_cons (some i) d c = some (suc i)
last_cons none d c = if d == c then some 0 else none

unfoldable pub last_index : Text → ℕ → Option ℕ
last_index [] c = none
last_index (d ∷ s) c = last_cons (last_index s c) d c

abbrev pub has_byte : Text → ℕ → Bool
has_byte [] c = false
has_byte (d ∷ s) c = (d == c) || has_byte s c

-- The checks on brackets that end SplitHostPort, from the positions `j` and `k`; `i` is the
-- position of the last colon.
abbrev split_checked : Text → Text → ℕ → ℕ → ℕ → Option (Text × Text)
split_checked s host i j k =
    if has_byte (drop j s) b'['
    then none
    else if has_byte (drop k s) b']'
    then none
    else some (host, drop (suc i) s)

abbrev split_bracketed : Text → ℕ → Option ℕ → Option (Text × Text)
split_bracketed s i none = none
split_bracketed s i (some end) =
    if suc end == length s
    then none
    else if suc end == i
    then split_checked s (drop 1 (take end s)) i 1 (suc end)
    else none

abbrev split_plain : Text → ℕ → Option (Text × Text)
split_plain s i =
    let host = take i s in if has_byte host b':' then none else split_checked s host i 0 0

abbrev split_at_colon : Text → Option ℕ → Option (Text × Text)
split_at_colon s none = none
split_at_colon s (some i) =
    if get_or s 0 0 == b'[' then split_bracketed s i (index s b']') else split_plain s i

-- net.SplitHostPort: the host and the port, or `none` where it returns an error.
unfoldable pub split_host_port : Text → Option (Text × Text)
unfolding index last_index
split_host_port s = split_at_colon s (last_index s b':')

-- strings.Trim by a set of characters
unfoldable pub trim_left_set : Text → Text → Text
trim_left_set cut [] = []
trim_left_set cut (c ∷ s) = if has_byte cut c then trim_left_set cut s else c ∷ s

abbrev trim_set_cons : Text → ℕ → Text → Text
trim_set_cons cut c [] = if has_byte cut c then [] else c ∷ []
trim_set_cons cut c (d ∷ s) = c ∷ d ∷ s

unfoldable pub trim_right_set : Text → Text → Text
trim_right_set cut [] = []
trim_right_set cut (c ∷ s) = trim_set_cons cut c (trim_right_set cut s)

unfoldable pub trim_set : Text → Text → Text
unfolding trim_left_set trim_right_set
trim_set s cut = trim_right_set cut (trim_left_set cut s)

trim_test : trim_space (lit "  10.0.0.1:80 \n") ≡ lit "10.0.0.1:80"
unfolding trim_space
trim_test = refl

split_test : split_host_port (lit "[::1]:80") ≡ some (lit "::1", lit "80")
unfolding split_host_port
split_test = refl

split_error_test : split_host_port (lit "::1:80") ≡ none
unfolding split_host_port
split_error_test = refl

split_plain_test : split_host_port (lit "10.0.0.1:80") ≡ some (lit "10.0.0.1", lit "80")
unfolding split_host_port
split_plain_test = refl
