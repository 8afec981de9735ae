-- ===== src/Prelude/Sorted.antt =====
-- sort.Strings: texts in the order of their code points, which is that of their bytes, and lists in
-- strictly increasing order.
use mathlib.Core.Path.{◌≡◌, refl, ap₂, sym, subst, ◌∙◌}
use mathlib.Core.Logic.{inl, inr}
use mathlib.Core.Bool.{Bool, true, false, ◌&&◌, ◌||◌}
use mathlib.Core.List.{List, [], ◌∷◌}
use native.Mathlib.Omega.{arith}
use grpc_tunnel.Prelude.Tests.{ltb, ◌==◌, if◌then◌else◌, Bool-cases}
use grpc_tunnel.Prelude.Text.{Text, text_eq, text_eq_iff, text_eq_refl}

unfoldable pub text_lt : Text → Text → Bool
text_lt s [] = false
text_lt [] (d ∷ t) = true
text_lt (c ∷ s) (d ∷ t) = ltb c d || ((c == d) && text_lt s t)

unfoldable pub has_text : List Text → Text → Bool
unfolding text_eq
has_text [] t = false
has_text (s ∷ ss) t = text_eq s t || has_text ss t

unfoldable pub insert_text : Text → List Text → List Text
unfolding text_lt
insert_text s [] = s ∷ []
insert_text s (t ∷ ts) = let rest = insert_text s ts in if text_lt s t then s ∷ t ∷ ts else t ∷ rest

-- sort.Strings
unfoldable pub sort_texts : List Text → List Text
unfolding insert_text
sort_texts [] = []
sort_texts (t ∷ ts) = insert_text t (sort_texts ts)

pub text_lt_trans : (s t u : Text) → text_lt s t ≡ true → text_lt t u ≡ true → text_lt s u ≡ true
unfolding text_lt
text_lt_trans s [] u h k = cc
text_lt_trans s (d ∷ t) [] h k = cc
text_lt_trans [] (d ∷ t) (e ∷ u) h k = refl
text_lt_trans (c ∷ s) (d ∷ t) (e ∷ u) h k = ground (arith, text_lt_trans s t u)

pub text_lt_irrefl : (s : Text) → text_lt s s ≡ false
unfolding text_lt
text_lt_irrefl [] = refl
text_lt_irrefl (c ∷ s) = ground (arith, text_lt_irrefl s)

pub text_lt_total : (s t : Text) → text_lt s t ≡ false → text_eq s t ≡ false → text_lt t s ≡ true
unfolding text_lt text_eq
text_lt_total [] [] h k = cc
text_lt_total [] (d ∷ t) h k = cc
text_lt_total (c ∷ s) [] h k = refl
text_lt_total (c ∷ s) (d ∷ t) h k = ground (arith, text_lt_total s t)

pub has_text-insert :
    (s : Text) (ts : List Text) (t : Text)
    → has_text (insert_text s ts) t ≡ (text_eq s t || has_text ts t)
unfolding has_text insert_text
has_text-insert s [] t = refl
has_text-insert s (u ∷ ts) t = ground (arith, has_text-insert s ts t)

-- Sorting keeps the members.
pub has_text-sort : (ts : List Text) (t : Text) → has_text (sort_texts ts) t ≡ has_text ts t
unfolding has_text sort_texts
has_text-sort [] t = refl
has_text-sort (s ∷ ts) t = ground (arith, has_text-insert s (sort_texts ts) t, has_text-sort ts t)

abbrev pub AllAbove : Text → List Text → Type 0
AllAbove s [] = Unit {0}
AllAbove s (t ∷ ts) = (text_lt s t ≡ true) × AllAbove s ts

-- Strictly increasing, hence without repetition.
abbrev pub IsSorted : List Text → Type 0
IsSorted [] = Unit {0}
IsSorted (t ∷ ts) = AllAbove t ts × IsSorted ts

-- No text is repeated.
abbrev pub IsUnique : List Text → Type 0
unfolding has_text
IsUnique [] = Unit {0}
IsUnique (t ∷ ts) = (has_text ts t ≡ false) × IsUnique ts

AllAbove-trans : (s t : Text) (ts : List Text) → text_lt s t ≡ true → AllAbove t ts → AllAbove s ts
AllAbove-trans s t [] h k = tt
AllAbove-trans s t (u ∷ ts) h (k, ks) = (text_lt_trans s t u h k, AllAbove-trans s t ts h ks)

AllAbove-insert :
    (s t : Text) (ts : List Text)
    → text_lt s t ≡ true
    → AllAbove s ts
    → AllAbove s (insert_text t ts)
unfolding insert_text
AllAbove-insert s t [] h k = (h, tt)
AllAbove-insert s t (u ∷ ts) h (k, ks) = elim (Bool-cases (text_lt t u)) [
  | inl below ↦ rw below (h, (k, ks))
  | inr above ↦ rw above (k, AllAbove-insert s t ts h ks)
]

insert_text-IsSorted :
    (s : Text) (ts : List Text) → IsSorted ts → has_text ts s ≡ false → IsSorted (insert_text s ts)
unfolding insert_text has_text
insert_text-IsSorted s [] h n = (tt, tt)
insert_text-IsSorted s (t ∷ ts) (a, h) n = elim (Bool-cases (text_lt s t)) [
  | inl below ↦ rw below ((below, AllAbove-trans s t ts below a), (a, h))
  | inr above ↦ rw above (
    AllAbove-insert t s ts
        (text_lt_total s t above (ground (arith, text_eq_iff s t, text_eq_iff t s))) a,
    insert_text-IsSorted s ts h (ground arith),
  )
]

pub sort_texts-IsSorted : (ts : List Text) → IsUnique ts → IsSorted (sort_texts ts)
unfolding sort_texts IsUnique
sort_texts-IsSorted [] u = tt
sort_texts-IsSorted (t ∷ ts) (n, u) =
    insert_text-IsSorted t (sort_texts ts) (sort_texts-IsSorted ts u) (rw (has_text-sort ts t) n)

above-not_member :
    (s : Text) (ts : List Text) (t : Text)
    → AllAbove s ts
    → has_text ts t ≡ true
    → text_lt s t ≡ true
unfolding has_text
above-not_member s [] t a m = cc
above-not_member s (u ∷ ts) t (h, a) m = ground (arith, text_eq_iff u t, above-not_member s ts t a)

above_self : (s : Text) (ts : List Text) → AllAbove s ts → has_text ts s ≡ false
above_self s ts a = elim (Bool-cases (has_text ts s)) [
  | inl m ↦ cc (above-not_member s ts s a m, text_lt_irrefl s)
  | inr n ↦ n
]

pub self_member : (x : Text) (xs : List Text) → has_text (x ∷ xs) x ≡ true
unfolding has_text
self_member x xs = rw (text_eq_refl x)

pub no_member : (t : Text) → has_text [] t ≡ false
unfolding has_text
no_member t = refl

heads_equal :
    (x y : Text) (xs ys : List Text)
    → AllAbove x xs
    → AllAbove y ys
    → has_text (y ∷ ys) x ≡ true
    → has_text (x ∷ xs) y ≡ true
    → x ≡ y
unfolding has_text
heads_equal x y xs ys a b h k = elim (Bool-cases (text_eq x y)) [
  | inl same ↦ (text_eq_iff x y).0 same
  | inr other ↦
      let above : text_lt y x ≡ true =
        above-not_member y ys x b (ground (arith, text_eq_iff y x, text_eq_iff x y)) in
      let below : text_lt x y ≡ true = above-not_member x xs y a (ground arith) in
      cc (text_lt_trans x y x below above, text_lt_irrefl x)
]

tails_same :
    (x : Text) (xs ys : List Text)
    → AllAbove x xs
    → AllAbove x ys
    → ((t : Text) → has_text (x ∷ xs) t ≡ has_text (x ∷ ys) t)
    → (t : Text) → has_text xs t ≡ has_text ys t
unfolding has_text
tails_same x xs ys a b h t = elim (Bool-cases (text_eq x t)) [
  | inl same ↦ rw (← (text_eq_iff x t).0 same) (above_self x xs a ∙ sym (above_self x ys b))
  | inr other ↦ rw other at (h t)
]

-- A strictly increasing list is determined by its members.
pub IsSorted-unique :
    (xs ys : List Text)
    → IsSorted xs
    → IsSorted ys
    → ((t : Text) → has_text xs t ≡ has_text ys t)
    → xs ≡ ys
IsSorted-unique [] [] a b h = refl
IsSorted-unique [] (y ∷ ys) a b h = cc (h y, no_member y, self_member y ys)
IsSorted-unique (x ∷ xs) [] a b h = cc (h x, no_member x, self_member x xs)
IsSorted-unique (x ∷ xs) (y ∷ ys) (a, sorted) (b, sorted') h =
    let first : x ≡ y =
      heads_equal x y xs ys a b (sym (h x) ∙ self_member x xs) (h y ∙ self_member y ys) in
    ap₂ ◌∷◌ first (
      IsSorted-unique xs ys sorted sorted' (
        tails_same x xs ys a (subst (λ (z : Text). AllAbove z ys) (sym first) b)
          (λ t. subst (λ (z : Text). has_text (x ∷ xs) t ≡ has_text (z ∷ ys) t) (sym first) (h t))))
