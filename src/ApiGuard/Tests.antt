-- ===== src/ApiGuard/Tests.antt =====
-- The guard on a small repository, and the theorems of the children there.
use grpc_tunnel.Prelude.{
  ℕ, ◌≡◌, refl, Bool, true, false, ◌&&◌, Option, none, some, List, [], ◌∷◌, ◌⊎◌, inl, inr, ◌↔◌,
  if◌then◌else◌, arith,
}
use grpc_tunnel.Prelude.Text.{Text, lit, text_eq, text_eq_iff}
use grpc_tunnel.Prelude.Sorted.{has_text, IsSorted}
use grpc_tunnel.ApiGuard.{
  ident, star_expr, index_expr, type_spec, value_spec, type_tok, const_tok, Decl, gen_decl,
  func_decl, SourceFile, build_package_symbols,
}
use grpc_tunnel.ApiGuard.Files.{files_declare, all_parse, build_package_symbols-Finds}
use grpc_tunnel.ApiGuard.Baseline.{
  Packages, Outside, missing_symbols, unknown_command, handle_baseline_check,
  handle_documentation_check, handle_api_guard_main,
}
use grpc_tunnel.ApiGuard.Judged.{IsMissing, handle_baseline_check-Judges}
use grpc_tunnel.ApiGuard.Update.{handle_api_guard_main-update}

abbrev no_upper : ℕ → Bool
no_upper c = false

-- A file with a type, a method on it, an unexported constant and a function, and a test file.
abbrev files : List SourceFile
files =
    record {
      name = lit "server.go";
      declarations = some (
          gen_decl type_tok (type_spec (lit "Server") ∷ [])
          ∷ func_decl (lit "Run") (star_expr (index_expr (ident (lit "Server"))) ∷ [])
          ∷ gen_decl const_tok (value_spec (lit "limit" ∷ lit "Max" ∷ []) ∷ [])
          ∷ []);
    }
    ∷ record { name = lit "server_test.go"; declarations = none }
    ∷ record { name = lit "dial.go"; declarations = some (func_decl (lit "Dial") [] ∷ []) }
    ∷ []

abbrev symbols : List Text
symbols = lit "const Max" ∷ lit "func Dial" ∷ lit "method (*Server) Run" ∷ lit "type Server" ∷ []

files_test : build_package_symbols no_upper (some files) ≡ some symbols
unfolding build_package_symbols
files_test = refl

build_package_symbols-Finds_example :
    (all_parse files ≡ true)
    × IsSorted symbols
    × ((t : Text) → has_text symbols t ≡ files_declare no_upper files t)
build_package_symbols-Finds_example = build_package_symbols-Finds no_upper files symbols files_test

abbrev one_file : Text → Decl → SourceFile
one_file name d = record { name = name; declarations = some (d ∷ []) }

-- The baseline of a repository whose grpctunnel exports Dial and whose bridge exports nothing.
abbrev baseline : Packages
baseline = (lit "pkg/grpctunnel", lit "func Dial" ∷ []) ∷ (lit "pkg/bridge", []) ∷ []

abbrev sample_marshal : Packages → Option Text
unfolding text_eq
sample_marshal ((p, s ∷ []) ∷ (q, []) ∷ []) =
    if text_eq p (lit "pkg/grpctunnel")
      && text_eq s (lit "func Dial")
      && text_eq q (lit "pkg/bridge")
    then some (lit "{}")
    else none
sample_marshal packages = none

sample_undoes :
    (packages : Packages) (text : Text)
    → sample_marshal packages ≡ some text
    → some baseline ≡ some packages
unfolding sample_marshal
sample_undoes ((p, s ∷ []) ∷ (q, []) ∷ []) text h = ground (
  arith,
  text_eq_iff p (lit "pkg/grpctunnel"),
  text_eq_iff s (lit "func Dial"),
  text_eq_iff q (lit "pkg/bridge"),
)
sample_undoes packages text h = absurd (ground arith)

abbrev sample_dir : Text → Option (List SourceFile)
unfolding text_eq
sample_dir path =
    if text_eq path (lit "/repo/pkg/grpctunnel")
    then some (one_file (lit "dial.go") (func_decl (lit "Dial") []) ∷ [])
    else some []

abbrev sample_text : Text
sample_text = lit "## Deprecation Lifecycle ## CI and Release Enforcement ## Old to New Mapping"

-- The baseline file holds what an update stored; every other file has all sections.
abbrev sample_file : Text → Option Text
unfolding text_eq
sample_file path =
    if text_eq path (lit "/repo/api_compatibility_baseline.json")
    then some (lit "{}\n")
    else some sample_text

abbrev outside : Outside
unfolding sample_marshal sample_dir sample_file
outside = record {
  upper = no_upper;
  root = some (lit "/repo");
  read_dir = sample_dir;
  read_file = sample_file;
  marshal = sample_marshal;
  unmarshal = λ text. some baseline;
  can_write = true;
}

command_test :
    handle_api_guard_main outside (lit " list " ∷ []) ≡ inl (unknown_command (lit "list"))
unfolding handle_api_guard_main outside
command_test = refl

handle_api_guard_main-update_example : handle_api_guard_main outside [] ≡ inr none
handle_api_guard_main-update_example =
    handle_api_guard_main-update outside outside (lit "/repo/api_compatibility_baseline.json")
      (lit "{}\n") (lit "/repo") (unfold handle_api_guard_main outside in refl)
      (unfold outside in refl) (unfold outside in refl) refl refl (unfold outside in refl)
      (unfold outside in λ packages text h. sample_undoes packages text h)
      (unfold outside handle_documentation_check in refl)

handle_baseline_check-Judges_example :
    ((handle_baseline_check outside (lit "/repo/b.json") [] ≡ inr none)
      × ((m : Text) → ¬ IsMissing [] baseline m))
    ⊎ ((ms : List Text) × (handle_baseline_check outside (lit "/repo/b.json") []
          ≡ inl (missing_symbols ms))
        × ((m : Text) → (has_text ms m ≡ true) ↔ IsMissing [] baseline m))
handle_baseline_check-Judges_example =
    handle_baseline_check-Judges outside (lit "/repo/b.json") sample_text [] baseline
      (unfold outside in refl) (unfold outside in refl)
