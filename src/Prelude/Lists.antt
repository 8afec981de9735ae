-- ===== src/Prelude/Lists.antt =====
-- Lists measured and indexed by native numbers, under the library's names.
use Prim.Native.Nat.{ℕ, zero, suc, ◌+◌, ◌-◌, ◌≤◌, ◌<◌, min}
use mathlib.Core.Path.{◌≡◌, refl, ap}
use mathlib.Core.List.{List, [], ◌∷◌, ◌++◌}
use native.Mathlib.Omega.{arith}

module _ {ℓ} {A : Type ℓ} where
  abbrev pub length : List A → ℕ
  length [] = 0
  length (x ∷ xs) = suc (length xs)

  abbrev pub get_or : List A → ℕ → A → A
  get_or [] i d = d
  get_or (x ∷ xs) zero d = x
  get_or (x ∷ xs) (suc i) d = get_or xs i d

  -- A write out of bounds changes nothing.
  abbrev pub set : List A → ℕ → A → List A
  set [] i v = []
  set (x ∷ xs) zero v = v ∷ xs
  set (x ∷ xs) (suc i) v = x ∷ set xs i v

  abbrev pub take : ℕ → List A → List A
  take zero xs = []
  take (suc n) [] = []
  take (suc n) (x ∷ xs) = x ∷ take n xs

  abbrev pub drop : ℕ → List A → List A
  drop zero xs = xs
  drop (suc n) [] = []
  drop (suc n) (x ∷ xs) = drop n xs

  pub length-append : (xs ys : List A) → length (xs ++ ys) ≡ length xs + length ys
  length-append [] ys = omega arith
  length-append (x ∷ xs) ys = omega (arith, length-append xs ys)

  pub length-set : (xs : List A) (i : ℕ) (v : A) → length (set xs i v) ≡ length xs
  length-set [] i v = refl
  length-set (x ∷ xs) zero v = refl
  length-set (x ∷ xs) (suc i) v = ap suc (length-set xs i v)

  pub take-append-drop : (n : ℕ) (xs : List A) → take n xs ++ drop n xs ≡ xs
  take-append-drop zero xs = refl
  take-append-drop (suc n) [] = refl
  take-append-drop (suc n) (x ∷ xs) = ap (◌∷◌ x) (take-append-drop n xs)

  pub length-take : (n : ℕ) (xs : List A) → length (take n xs) ≡ min n (length xs)
  length-take zero xs = omega arith
  length-take (suc n) [] = omega arith
  length-take (suc n) (x ∷ xs) = omega (arith, length-take n xs)

  pub length-drop : (n : ℕ) (xs : List A) → length (drop n xs) ≡ length xs - n
  length-drop zero xs = omega arith
  length-drop (suc n) [] = omega arith
  length-drop (suc n) (x ∷ xs) = omega (arith, length-drop n xs)

  -- What stands at a position in range is the head of the rest from there on.
  pub drop-get_or :
      (i : ℕ) (xs : List A) (d : A) → i < length xs → drop i xs ≡ get_or xs i d ∷ drop (suc i) xs
  drop-get_or i [] d h = absurd (omega arith)
  drop-get_or zero (x ∷ xs) d h = refl
  drop-get_or (suc i) (x ∷ xs) d h = drop-get_or i xs d (omega arith)

  -- A write before a position does not change the rest from there on.
  pub drop-set : (i : ℕ) (xs : List A) (v : A) → drop (suc i) (set xs i v) ≡ drop (suc i) xs
  drop-set i [] v = refl
  drop-set zero (x ∷ xs) v = refl
  drop-set (suc i) (x ∷ xs) v = drop-set i xs v

  pub drop-append : (i : ℕ) (xs ys : List A) → i ≤ length xs → drop i (xs ++ ys) ≡ drop i xs ++ ys
  drop-append zero xs ys h = refl
  drop-append (suc i) [] ys h = absurd (omega arith)
  drop-append (suc i) (x ∷ xs) ys h = drop-append i xs ys (omega arith)

  pub drop_all : (i : ℕ) (xs : List A) → length xs ≤ i → drop i xs ≡ []
  drop_all zero [] h = refl
  drop_all zero (x ∷ xs) h = absurd (omega arith)
  drop_all (suc i) [] h = refl
  drop_all (suc i) (x ∷ xs) h = drop_all i xs (omega arith)

  pub take_all : (i : ℕ) (xs : List A) → length xs ≤ i → take i xs ≡ xs
  take_all zero [] h = refl
  take_all zero (x ∷ xs) h = absurd (omega arith)
  take_all (suc i) [] h = refl
  take_all (suc i) (x ∷ xs) h = ap (◌∷◌ x) (take_all i xs (omega arith))
