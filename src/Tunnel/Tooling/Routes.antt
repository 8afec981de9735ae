-- ===== src/Tunnel/Tooling/Routes.antt =====
-- The patterns that BuildToolingHandler of pkg/grpctunnel/tooling.go hands to the mux, which panics
-- on one that it has already.
use grpc_tunnel.Prelude.{
  ℕ, ◌≡◌, refl, ap, sym, ◌∙◌, Bool, true, false, ◌&&◌, ◌||◌, none, List, [], ◌∷◌, ◌++◌, arith,
  if◌then◌else◌, if_rule, take, length, ◌-◌, suc, subst, Bool-cases, inl, inr,
}
use grpc_tunnel.Prelude.Text.{Text, lit, is_empty, text_eq, text_eq_comm, has_suffix, trim_suffix}
use grpc_tunnel.Tunnel.Tooling.{
  ToolingConfig, get_tooling_config_error, debug_path_prefix_of, register_tooling_pprof_handlers,
  tooling_patterns, has_tooling_service,
}

-- Whether a mux is handed a pattern twice.
abbrev pub has_duplicate : List Text → Bool
has_duplicate [] = false
has_duplicate (p ∷ ps) = has_tooling_service ps p || has_duplicate ps

text_eq-append : (b s t : Text) → text_eq (b ++ s) (b ++ t) ≡ text_eq s t
unfolding text_eq
text_eq-append [] s t = refl
text_eq-append (c ∷ b) s t = ground (arith, text_eq-append b s t)

longer_than_slash : (b : Text) (c : ℕ) (s : Text) → text_eq (lit "/") (b ++ 47 ∷ c ∷ s) ≡ false
unfolding text_eq
longer_than_slash [] c s = refl
longer_than_slash (d ∷ []) c s = ground arith
longer_than_slash (d ∷ e ∷ b) c s = ground arith

pred_suc : (n : ℕ) → suc n - 1 ≡ n
pred_suc n = omega arith

take-all_but_slash :
    (s : Text) → has_suffix s (lit "/") ≡ true → s ≡ take (length s - 1) s ++ lit "/"
unfolding has_suffix text_eq
take-all_but_slash [] h = cc
take-all_but_slash (c ∷ []) h = ground arith
take-all_but_slash (c ∷ d ∷ s) h =
    let ih : d ∷ s ≡ take (length s) (d ∷ s) ++ lit "/" =
      subst (λ n. d ∷ s ≡ take n (d ∷ s) ++ lit "/") (pred_suc (length s))
        (take-all_but_slash (d ∷ s) (ground arith)) in
    subst (λ n. c ∷ d ∷ s ≡ take n (c ∷ d ∷ s) ++ lit "/") (sym (pred_suc (suc (length s))))
      (ap (λ t. c ∷ t) ih)

trim_suffix-slash :
    (s : Text) → has_suffix s (lit "/") ≡ true → s ≡ trim_suffix s (lit "/") ++ lit "/"
unfolding trim_suffix
trim_suffix-slash s h =
    if_rule (λ t. s ≡ t ++ lit "/") (has_suffix s (lit "/")) (take (length s - 1) s) s
      (λ y. take-all_but_slash s h) (λ n. absurd (ground arith))

default_prefix : has_suffix (lit "/debug/pprof/") (lit "/") ≡ true
unfolding has_suffix text_eq
default_prefix = refl

prefix-IsValid :
    (c : ToolingConfig)
    → get_tooling_config_error c ≡ none
    → has_suffix (debug_path_prefix_of c) (lit "/") ≡ true
unfolding get_tooling_config_error
prefix-IsValid c h = elim (Bool-cases (is_empty c.debug_path_prefix)) [
  | inl default ↦
      subst
        (λ b. has_suffix (if b then lit "/debug/pprof/" else c.debug_path_prefix) (lit "/") ≡ true)
        (sym default) (default_prefix)
  | inr given ↦
      subst
        (λ b. has_suffix (if b then lit "/debug/pprof/" else c.debug_path_prefix) (lit "/") ≡ true)
        (sym given) (ground arith)
]

or_false : (b : Bool) → (b || false) ≡ b
or_false true = refl
or_false false = refl

duplicates_of_base :
    (b : Text)
    → has_duplicate (
        (b ++ lit "/")
        ∷ (b ++ lit "/cmdline")
        ∷ (b ++ lit "/profile")
        ∷ (b ++ lit "/symbol")
        ∷ (b ++ lit "/trace")
        ∷ lit "/"
        ∷ [])
      ≡ text_eq (lit "/") (b ++ lit "/")
unfolding text_eq
duplicates_of_base b = simp (text_eq-append, longer_than_slash, or_false)

pprof_patterns :
    (c : ToolingConfig)
    → get_tooling_config_error c ≡ none
    → has_duplicate (register_tooling_pprof_handlers c ++ lit "/" ∷ [])
      ≡ text_eq (lit "/") (debug_path_prefix_of c)
unfolding register_tooling_pprof_handlers
pprof_patterns c h =
    let p = debug_path_prefix_of c in
    let b = trim_suffix p (lit "/") in
    let whole = trim_suffix-slash p (prefix-IsValid c h) in
    subst
      (λ q.
        has_duplicate (
          q
          ∷ (b ++ lit "/cmdline")
          ∷ (b ++ lit "/profile")
          ∷ (b ++ lit "/symbol")
          ∷ (b ++ lit "/trace")
          ∷ lit "/"
          ∷ [])
        ≡ text_eq (lit "/") q)
      (sym whole) (duplicates_of_base b)

prefix_is_slash :
    (p : Text)
    → text_eq (lit "/") (if is_empty p then lit "/debug/pprof/" else p) ≡ text_eq p (lit "/")
unfolding text_eq
prefix_is_slash [] = refl
prefix_is_slash (d ∷ p) = text_eq_comm (lit "/") (d ∷ p)

-- With a configuration that the validation accepts, the mux is handed a pattern twice exactly if
-- pprof is on and the configured prefix is `/`.
pub tooling_patterns_duplicate :
    (c : ToolingConfig)
    → get_tooling_config_error c ≡ none
    → has_duplicate (tooling_patterns c)
      ≡ (c.should_enable_pprof && text_eq c.debug_path_prefix (lit "/"))
unfolding register_tooling_pprof_handlers
tooling_patterns_duplicate c h = elim (Bool-cases c.should_enable_pprof) [
  | inl on ↦ rw on (pprof_patterns c h ∙ prefix_is_slash c.debug_path_prefix)
  | inr off ↦ rw off
]
