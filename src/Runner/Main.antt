-- ===== src/Runner/Main.antt =====
-- The runner's command line: the table of commands, the help and the dispatch, and which commands are
-- scripts.
use grpc_tunnel.Prelude.{
  Bool, ◌||◌, Option, none, some, List, [], ◌∷◌, ◌≡◌, refl, sym, subst, if◌then◌else◌,
}
use grpc_tunnel.Prelude.Text.{Text, lit, text_eq}
use grpc_tunnel.Prelude.Dict.{lookup}
use grpc_tunnel.Prelude.Sorted.{sort_texts}
use grpc_tunnel.Runner.{Host, root_unknown, unknown_command, Task, pass, fail}
use grpc_tunnel.Runner.Commands.{
  handle_test, handle_test_short, format_code, handle_lint, apply_lint_fix, handle_check,
  handle_pre_commit, handle_fuzz, handle_fuzz_quick, handle_e2e, build_examples, clear_artifacts,
  apply_install_hooks,
}
use grpc_tunnel.Runner.Publish.{handle_canonical_publish_check}
use grpc_tunnel.Runner.Benchmarks.{Numbers}
use grpc_tunnel.Runner.Quality.{Codec, handle_quality, store_quality_baseline, handle_quality_trend}
use grpc_tunnel.Runner.Scripts.{Plays}
use grpc_tunnel.Runner.Scripted.{
  Scripted, test, test_short, fmt, lint, lint_fix, check, pre_commit, fuzz, fuzz_quick, e2e, build,
  clean, script_of, task_of, task_of-Plays,
}

abbrev pub Action : Type 0
Action = Host → Text → Task (Unit {0})

-- The names that the help lists, in order.
abbrev names : List (Text × Action) → List Text
names [] = []
names ((name, action) ∷ commands) = name ∷ names commands

unfoldable pub render_help : List (Text × Action) → List Text
unfolding sort_texts
render_help commands = sort_texts (names commands)

module _ {F : Type 0} (n : Numbers F) (j : Codec F) where
  unfoldable pub build_commands : List (Text × Action)
  build_commands =
      (lit "test", handle_test)
      ∷ (lit "test-short", handle_test_short)
      ∷ (lit "fmt", format_code)
      ∷ (lit "lint", handle_lint)
      ∷ (lit "lint-fix", apply_lint_fix)
      ∷ (lit "check", handle_check)
      ∷ (lit "pre-commit", handle_pre_commit)
      ∷ (lit "install-hooks", apply_install_hooks)
      ∷ (lit "fuzz", handle_fuzz)
      ∷ (lit "fuzz-quick", handle_fuzz_quick)
      ∷ (lit "e2e", handle_e2e)
      ∷ (lit "build", build_examples)
      ∷ (lit "quality", handle_quality n j)
      ∷ (lit "quality-baseline", store_quality_baseline n j)
      ∷ (lit "quality-trend", handle_quality_trend n j)
      ∷ (lit "canonical-publish-check", handle_canonical_publish_check)
      ∷ (lit "clean", clear_artifacts)
      ∷ []

  abbrev asks_help : Text → Bool
  asks_help argument =
      text_eq argument (lit "help")
      || text_eq argument (lit "-h")
      || text_eq argument (lit "--help")

  abbrev dispatch : Host → Text → Text → Option Action → List Text × Task (Unit {0})
  dispatch h root name none = (render_help build_commands, fail (unknown_command name))
  dispatch h root name (some action) = ([], action h root)

  abbrev with_arguments : Host → Text → List Text → List Text × Task (Unit {0})
  with_arguments h root [] = (render_help build_commands, pass tt)
  with_arguments h root (name ∷ more) =
      if asks_help name
      then (render_help build_commands, pass tt)
      else dispatch h root name (lookup name build_commands)

  abbrev in_repository : Host → Option Text → List Text → List Text × Task (Unit {0})
  in_repository h none arguments = ([], fail root_unknown)
  in_repository h (some root) arguments = with_arguments h root arguments

  -- The commands that the help lists, if it is printed, and the task.
  unfoldable pub handle_runner_main : Host → List Text → List Text × Task (Unit {0})
  unfolding build_commands lookup text_eq render_help
  handle_runner_main h arguments = in_repository h h.root arguments

abbrev pub name_of : Scripted → Text
name_of test = lit "test"
name_of test_short = lit "test-short"
name_of fmt = lit "fmt"
name_of lint = lit "lint"
name_of lint_fix = lit "lint-fix"
name_of check = lit "check"
name_of pre_commit = lit "pre-commit"
name_of fuzz = lit "fuzz"
name_of fuzz_quick = lit "fuzz-quick"
name_of e2e = lit "e2e"
name_of build = lit "build"
name_of clean = lit "clean"

dispatched :
    {F : Type 0} (n : Numbers F) (j : Codec F) (c : Scripted) (h : Host) (root : Text)
    (more : List Text)
    → with_arguments n j h root (name_of c ∷ more) ≡ ([], task_of c h root)
unfolding build_commands lookup text_eq
dispatched n j test h root more = refl
dispatched n j test_short h root more = refl
dispatched n j fmt h root more = refl
dispatched n j lint h root more = refl
dispatched n j lint_fix h root more = refl
dispatched n j check h root more = refl
dispatched n j pre_commit h root more = refl
dispatched n j fuzz h root more = refl
dispatched n j fuzz_quick h root more = refl
dispatched n j e2e h root more = refl
dispatched n j build h root more = refl
dispatched n j clean h root more = refl

in_repository-dispatched :
    {F : Type 0} (n : Numbers F) (j : Codec F) (c : Scripted) (h : Host) (root : Text)
    (more : List Text) (found : Option Text)
    → found ≡ some root
    → in_repository n j h found (name_of c ∷ more) ≡ ([], task_of c h root)
in_repository-dispatched n j c h root more found e = rw e (dispatched n j c h root more)

-- In a repository, each of the commands that only run processes and remove files prints no help and
-- takes the steps of its script in order, up to and with the first one that fails; it ends in the error
-- of that step, or finishes if none fails.
pub handle_runner_main-Plays :
    {F : Type 0} (n : Numbers F) (j : Codec F) (c : Scripted) (h : Host) (root : Text)
    (more : List Text)
    → h.root ≡ some root
    → ((handle_runner_main n j h (name_of c ∷ more)).0 ≡ [])
      × Plays h (script_of c h root) (handle_runner_main n j h (name_of c ∷ more)).1
unfolding handle_runner_main
handle_runner_main-Plays n j c h root more e =
    subst (λ run. (run.0 ≡ []) × Plays h (script_of c h root) run.1)
      (sym (in_repository-dispatched n j c h root more h.root e)) (refl, task_of-Plays c h root)
