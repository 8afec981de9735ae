-- ===== src/ApiGuard/Baseline.antt =====
-- The commands of the guard: the symbols of both packages, the documentation check, the check against
-- the baseline and its update. A map is the list of its entries in the order in which Go iterates.
use grpc_tunnel.Prelude.{
  ℕ, Bool, Option, none, some, List, [], ◌∷◌, ◌++◌, ◌⊎◌, inl, inr, if◌then◌else◌,
}
use grpc_tunnel.Prelude.Text.{Text, lit, text_eq, trim_space, contains, join_path}
use grpc_tunnel.Prelude.Sorted.{has_text, sort_texts}
use grpc_tunnel.Prelude.Dict.{lookup, insert, or_zero}
use grpc_tunnel.ApiGuard.{SourceFile, build_package_symbols}

-- Symbols by package path, as the baseline file stores them.
abbrev pub Packages : Type 0
Packages = List (Text × List Text)

-- What the guard has from outside. `root` is the repository's root, if it is found and holds go.mod;
-- `marshal` includes the time of the baseline; `can_write` is whether the baseline can be written.
pub record Outside : Type 0 where
  pub upper : ℕ → Bool
  pub root : Option Text
  pub read_dir : Text → Option (List SourceFile)
  pub read_file : Text → Option Text
  pub marshal : Packages → Option Text
  pub unmarshal : Text → Option Packages
  pub can_write : Bool

pub data ApiError : Type 0 where
  no_root : ApiError
  no_package : Text → ApiError
  unknown_command : Text → ApiError
  no_document : Text → ApiError
  no_section : Text → Text → ApiError
  no_baseline : ApiError
  bad_baseline : ApiError
  missing_symbols : List Text → ApiError
  no_marshal : ApiError
  no_write : ApiError

-- A command returns an error, or what it wrote, if anything: a path and a content.
abbrev pub GuardOutcome : Type 0
GuardOutcome = ApiError ⊎ Option (Text × Text)

abbrev pub store_package : Text → Option (List Text) → Packages → ApiError ⊎ Packages
store_package path none packages = inl (no_package path)
store_package path (some symbols) packages = inr (insert path symbols packages)

abbrev pub or_map : ApiError ⊎ Packages → (Packages → ApiError ⊎ Packages) → ApiError ⊎ Packages
or_map (inl e) next = inl e
or_map (inr packages) next = next packages

unfoldable pub build_package_symbol_map :
    Outside → Text → List Text → Packages → ApiError ⊎ Packages
unfolding insert build_package_symbols join_path
build_package_symbol_map o root [] packages = inr packages
build_package_symbol_map o root (path ∷ paths) packages =
    or_map
      (store_package path (build_package_symbols o.upper (o.read_dir (join_path root path)))
        packages)
      (build_package_symbol_map o root paths)

-- The first section that the text misses.
unfoldable pub missing_section : Text → List Text → Option Text
unfolding contains
missing_section text [] = none
missing_section text (pattern ∷ patterns) =
    let rest = missing_section text patterns in if contains text pattern then rest else some pattern

abbrev section_error : Text → Option Text → Option ApiError → Option ApiError
section_error path none rest = rest
section_error path (some pattern) rest = some (no_section path pattern)

abbrev document_error : Text → List Text → Option Text → Option ApiError → Option ApiError
unfolding section_error missing_section
document_error path patterns none rest = some (no_document path)
document_error path patterns (some text) rest =
    section_error path (missing_section text patterns) rest

unfoldable pub document_errors : Outside → Text → List (Text × List Text) → Option ApiError
unfolding document_error join_path
document_errors o root [] = none
document_errors o root ((name, patterns) ∷ checks) =
    let path = join_path root name in
    document_error path patterns (o.read_file path) (document_errors o root checks)

abbrev pub documents : List (Text × List Text)
documents =
    (
      lit "API_COMPATIBILITY.md",
      lit "## Deprecation Lifecycle" ∷ lit "## CI and Release Enforcement" ∷ [],
    )
    ∷ (lit "MIGRATION.md", lit "## Old to New Mapping" ∷ [])
    ∷ []

unfoldable pub handle_documentation_check : Outside → Text → Option ApiError
unfolding document_errors
handle_documentation_check o root = document_errors o root documents

abbrev pub symbols_at : Packages → Text → List Text
symbols_at current path = or_zero (lookup path current) []

abbrev pub qualified : Text → Text → Text
qualified path symbol = path ++ (lit "::" ++ symbol)

-- The symbols of one package that the current ones lack, with the path before them.
unfoldable pub missing_of : Text → List Text → List Text → List Text
unfolding has_text
missing_of path now [] = []
missing_of path now (symbol ∷ symbols) =
    let rest = missing_of path now symbols in
    if has_text now symbol then rest else qualified path symbol ∷ rest

unfoldable pub all_missing : Packages → Packages → List Text
unfolding missing_of lookup
all_missing current [] = []
all_missing current ((path, symbols) ∷ baseline) =
    missing_of path (symbols_at current path) symbols ++ all_missing current baseline

abbrev pub judge_missing : List Text → GuardOutcome
judge_missing [] = inr none
judge_missing (m ∷ ms) = inl (missing_symbols (sort_texts (m ∷ ms)))

abbrev pub judge_baseline : Packages → Option Packages → GuardOutcome
judge_baseline current none = inl bad_baseline
judge_baseline current (some baseline) = judge_missing (all_missing current baseline)

abbrev pub read_baseline : Outside → Packages → Option Text → GuardOutcome
read_baseline o current none = inl no_baseline
read_baseline o current (some text) = judge_baseline current (o.unmarshal text)

unfoldable pub handle_baseline_check : Outside → Text → Packages → GuardOutcome
unfolding all_missing sort_texts
handle_baseline_check o path current = read_baseline o current (o.read_file path)

abbrev pub write_baseline : Outside → Text → Option Text → GuardOutcome
write_baseline o path none = inl no_marshal
write_baseline o path (some text) =
    if o.can_write then inr (some (path, text ++ b'\n' ∷ [])) else inl no_write

unfoldable pub store_baseline_file : Outside → Text → Packages → GuardOutcome
unfolding write_baseline
store_baseline_file o path current = write_baseline o path (o.marshal current)

abbrev pub then_check : Option ApiError → GuardOutcome → GuardOutcome
then_check none next = next
then_check (some e) next = inl e

abbrev pub baseline_path : Text → Text
baseline_path root = join_path root (lit "api_compatibility_baseline.json")

abbrev pub run_command : Outside → Text → Text → Packages → GuardOutcome
run_command o root command current =
    let path = baseline_path root in
    if text_eq command (lit "check")
    then then_check (handle_documentation_check o root) (handle_baseline_check o path current)
    else if text_eq command (lit "update")
    then store_baseline_file o path current
    else inl (unknown_command command)

abbrev pub command_of : List Text → Text
command_of [] = lit "check"
command_of (argument ∷ more) = trim_space argument

abbrev pub package_paths : List Text
package_paths = lit "pkg/grpctunnel" ∷ lit "pkg/bridge" ∷ []

abbrev pub with_symbols : Outside → Text → Text → ApiError ⊎ Packages → GuardOutcome
with_symbols o root command (inl e) = inl e
with_symbols o root command (inr current) = run_command o root command current

abbrev pub with_root : Outside → Text → Option Text → GuardOutcome
with_root o command none = inl no_root
with_root o command (some root) =
    with_symbols o root command (build_package_symbol_map o root package_paths [])

unfoldable pub handle_api_guard_main : Outside → List Text → GuardOutcome
unfolding build_package_symbol_map handle_documentation_check handle_baseline_check
    store_baseline_file text_eq join_path trim_space
handle_api_guard_main o arguments = with_root o (command_of arguments) o.root
