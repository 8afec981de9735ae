-- ===== src/ApiGuard/Judged.antt =====
-- What the check against the baseline finds, and that an updated baseline passes it.
use grpc_tunnel.Prelude.{
  true, false, ◌||◌, none, some, List, [], ◌∷◌, ◌++◌, ◌⊎◌, inl, inr, ◌≡◌, refl, sym, subst, ◌↔◌,
  Bool-cases, arith,
}
use mathlib.Core.List.{Memᴰ}
use grpc_tunnel.Prelude.Text.{Text, text_eq, text_eq_iff, text_eq_refl}
use grpc_tunnel.Prelude.Sorted.{has_text, sort_texts, has_text-sort, no_member, self_member}
use grpc_tunnel.ApiGuard.Baseline.{
  Packages, Outside, missing_symbols, symbols_at, qualified, missing_of, all_missing, judge_missing,
  handle_baseline_check,
}

-- A symbol that the baseline has under a path and the current packages lack there.
pub record IsMissing (current : Packages) (baseline : Packages) (m : Text) : Type 0 where
  pub path : Text
  pub symbols : List Text
  pub symbol : Text
  pub listed : Memᴰ (path, symbols) baseline
  pub stored : has_text symbols symbol ≡ true
  pub gone : has_text (symbols_at current path) symbol ≡ false
  pub named : m ≡ qualified path symbol

has_text-append :
    (ss ts : List Text) (t : Text) → has_text (ss ++ ts) t ≡ (has_text ss t || has_text ts t)
unfolding has_text
has_text-append [] ts t = refl
has_text-append (s ∷ ss) ts t = ground (arith, has_text-append ss ts t)

missing_of-names :
    (path : Text) (now symbols : List Text) (m : Text)
    → has_text (missing_of path now symbols) m ≡ true
    → (symbol : Text) × (has_text symbols symbol ≡ true)
      × (has_text now symbol ≡ false)
      × (m ≡ qualified path symbol)
unfolding missing_of has_text
missing_of-names path now [] m h = cc
missing_of-names path now (s ∷ symbols) m h = elim (Bool-cases (has_text now s)) [
  | inl there ↦
      let (symbol, stored, gone, named) = missing_of-names path now symbols m (rw there at h) in
      (symbol, ground arith, gone, named)
  | inr gone ↦ elim (Bool-cases (text_eq (qualified path s) m)) [
    | inl this ↦
        (s, ground (arith, text_eq_refl s), gone, sym ((text_eq_iff (qualified path s) m).0 this))
    | inr other ↦
        let (symbol, stored, gone', named) =
          missing_of-names path now symbols m (rw other at (rw gone at h)) in
        (symbol, ground arith, gone', named)
  ]
]

missing_of-has :
    (path : Text) (now symbols : List Text) (symbol : Text)
    → has_text symbols symbol ≡ true
    → has_text now symbol ≡ false
    → has_text (missing_of path now symbols) (qualified path symbol) ≡ true
unfolding missing_of has_text
missing_of-has path now [] symbol h gone = cc
missing_of-has path now (s ∷ symbols) symbol h gone = ground (
  arith,
  text_eq_iff s symbol,
  text_eq_refl (qualified path symbol),
  missing_of-has path now symbols symbol,
)

IsMissing-later :
    (current : Packages) (entry : Text × List Text) (baseline : Packages) (m : Text)
    → IsMissing current baseline m
    → IsMissing current (entry ∷ baseline) m
IsMissing-later current entry baseline m later = record {
  path = later.path;
  symbols = later.symbols;
  symbol = later.symbol;
  listed = Memᴰ.tail later.listed;
  stored = later.stored;
  gone = later.gone;
  named = later.named;
}

all_missing-IsMissing :
    (current baseline : Packages) (m : Text)
    → has_text (all_missing current baseline) m ≡ true
    → IsMissing current baseline m
unfolding all_missing
all_missing-IsMissing current [] m h = unfold has_text in cc
all_missing-IsMissing current ((path, symbols) ∷ baseline) m h =
    let here = missing_of path (symbols_at current path) symbols in
    elim (Bool-cases (has_text here m)) [
      | inl found ↦
          let (symbol, stored, gone, named) =
            missing_of-names path (symbols_at current path) symbols m found in
          record {
            path = path;
            symbols = symbols;
            symbol = symbol;
            listed = Memᴰ.head refl;
            stored = stored;
            gone = gone;
            named = named;
          }
      | inr other ↦
          let later : IsMissing current baseline m =
            all_missing-IsMissing current baseline m
              (ground (arith, has_text-append here (all_missing current baseline) m)) in
          IsMissing-later current (path, symbols) baseline m later
    ]

IsMissing-all_missing :
    (current baseline : Packages) (path : Text) (symbols : List Text) (symbol : Text)
    → Memᴰ (path, symbols) baseline
    → has_text symbols symbol ≡ true
    → has_text (symbols_at current path) symbol ≡ false
    → has_text (all_missing current baseline) (qualified path symbol) ≡ true
unfolding all_missing
IsMissing-all_missing current [] path symbols symbol m stored gone = elim m [ ]
IsMissing-all_missing current ((p, ss) ∷ baseline) path symbols symbol (Memᴰ.head e) stored gone =
    subst
      (λ (x : Text × List Text).
        has_text (missing_of x.0 (symbols_at current x.0) x.1 ++ all_missing current baseline)
          (qualified path symbol)
        ≡ true)
      e
      (rw (has_text-append _ (all_missing current baseline))
        (rw (missing_of-has path (symbols_at current path) symbols symbol stored gone)))
IsMissing-all_missing current ((p, ss) ∷ baseline) path symbols symbol (Memᴰ.tail m) stored gone =
    rw (has_text-append _ (all_missing current baseline))
      (rw (IsMissing-all_missing current baseline path symbols symbol m stored gone) (ground arith))

IsMissing-found :
    (current baseline : Packages) (m : Text)
    → (has_text (all_missing current baseline) m ≡ true) ↔ IsMissing current baseline m
IsMissing-found current baseline m = (
  all_missing-IsMissing current baseline m,
  λ missing. rw missing.named (
      IsMissing-all_missing current baseline missing.path missing.symbols missing.symbol
        missing.listed missing.stored missing.gone),
)

judged :
    (current baseline : Packages) (found : List Text)
    → all_missing current baseline ≡ found
    → ((judge_missing found ≡ inr none) × ((m : Text) → ¬ IsMissing current baseline m))
      ⊎ ((ms : List Text) × (judge_missing found ≡ inl (missing_symbols ms))
          × ((m : Text) → (has_text ms m ≡ true) ↔ IsMissing current baseline m))
judged current baseline [] e =
    inl (refl, λ m missing. cc ((IsMissing-found current baseline m).1 missing, e, no_member m))
judged current baseline (x ∷ found) e = inr (
  sort_texts (x ∷ found),
  refl,
  λ m. rw (has_text-sort (x ∷ found) m, ← e) (IsMissing-found current baseline m),
)

-- The check against a baseline that is read and parsed passes if no symbol is missing, and otherwise
-- returns an error that lists exactly the missing symbols.
pub handle_baseline_check-Judges :
    (o : Outside) (path text : Text) (current baseline : Packages)
    → o.read_file path ≡ some text
    → o.unmarshal text ≡ some baseline
    → ((handle_baseline_check o path current ≡ inr none)
        × ((m : Text) → ¬ IsMissing current baseline m))
      ⊎ ((ms : List Text) × (handle_baseline_check o path current ≡ inl (missing_symbols ms))
          × ((m : Text) → (has_text ms m ≡ true) ↔ IsMissing current baseline m))
unfolding handle_baseline_check
handle_baseline_check-Judges o path text current baseline read parsed =
    rw (read, parsed) (judged current baseline (all_missing current baseline) refl)

judge-none :
    (current baseline : Packages) (found : List Text)
    → all_missing current baseline ≡ found
    → ((m : Text) → ¬ IsMissing current baseline m)
    → judge_missing found ≡ inr none
judge-none current baseline [] e n = refl
judge-none current baseline (x ∷ found) e n =
    absurd (n x ((IsMissing-found current baseline x).0 (rw e (self_member x found))))

-- Where no symbol is missing the check passes.
pub handle_baseline_check-passes :
    (o : Outside) (path text : Text) (current baseline : Packages)
    → o.read_file path ≡ some text
    → o.unmarshal text ≡ some baseline
    → ((m : Text) → ¬ IsMissing current baseline m)
    → handle_baseline_check o path current ≡ inr none
unfolding handle_baseline_check
handle_baseline_check-passes o path text current baseline read parsed n =
    rw (read, parsed) (judge-none current baseline (all_missing current baseline) refl n)
