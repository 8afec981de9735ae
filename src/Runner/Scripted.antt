-- ===== src/Runner/Scripted.antt =====
-- The commands that are scripts: their steps, and that they take them.
use grpc_tunnel.Prelude.{List, [], ◌∷◌, ◌++◌, refl}
use grpc_tunnel.Prelude.Text.{Text, lit, join_path}
use grpc_tunnel.Runner.{Process, Host, Task, ◌>>◌, process_of, handle_process, get_binary_error}
use grpc_tunnel.Runner.Commands.{
  in_root, test_args, handle_test, handle_test_short, format_code, handle_lint, apply_lint_fix,
  handle_check, handle_pre_commit, handle_single_fuzz, handle_fuzz, handle_fuzz_quick, handle_e2e,
  build_examples, wasm_dir, clear_file, clear_files, artifact_paths, clear_artifacts,
}
use grpc_tunnel.Runner.Scripts.{
  Item, need, run, clear, Plays, script_effects, script_error, need-Plays, run-Plays, clear-Plays,
  then-Plays,
}

abbrev go_in : Host → Text → List Text → Item
go_in h root args = run (in_root h root (lit "go") args)

abbrev fuzz_item : Host → Text → Text → Text → Item
fuzz_item h root duration name = go_in h root (
    lit "test"
    ∷ lit "./pkg/bridge"
    ∷ lit "-v"
    ∷ (lit "-fuzz=" ++ name)
    ∷ (lit "-fuzztime=" ++ duration)
    ∷ [])

abbrev fuzz_items : Host → Text → Text → List Item
fuzz_items h root duration =
    fuzz_item h root duration (lit "FuzzWebSocketConnWrite")
    ∷ fuzz_item h root duration (lit "FuzzWebSocketConnRead")
    ∷ fuzz_item h root duration (lit "FuzzBinaryMessage")
    ∷ fuzz_item h root duration (lit "FuzzMessageSizes")
    ∷ []

abbrev format_items : Host → Text → List Item
format_items h root =
    need (lit "goimports")
    ∷ run (in_root h root (lit "gofmt") (lit "-w" ∷ lit "-s" ∷ lit "." ∷ []))
    ∷ run (in_root h root (lit "goimports") (lit "-w" ∷ lit "." ∷ []))
    ∷ []

abbrev lint_items : Host → Text → List Text → List Item
lint_items h root fix =
    need (lit "golangci-lint")
    ∷ run (
        in_root h root (lit "golangci-lint")
          (lit "run" ∷ lit "--config=.golangci.yml" ∷ (fix ++ lit "./..." ∷ [])))
    ∷ []

abbrev short_items : Host → Text → List Item
short_items h root = go_in h root (lit "test" ∷ lit "./pkg/..." ∷ lit "-short" ∷ []) ∷ []

abbrev clear_items : List Text → List Item
clear_items [] = []
clear_items (path ∷ paths) = clear path ∷ clear_items paths

-- The commands that are scripts.
pub data Scripted : Type 0 where
  test : Scripted
  test_short : Scripted
  fmt : Scripted
  lint : Scripted
  lint_fix : Scripted
  check : Scripted
  pre_commit : Scripted
  fuzz : Scripted
  fuzz_quick : Scripted
  e2e : Scripted
  build : Scripted
  clean : Scripted

unfoldable pub script_of : Scripted → Host → Text → List Item
unfolding join_path
script_of test h root = go_in h root test_args ∷ []
script_of test_short h root = short_items h root
script_of fmt h root = format_items h root
script_of lint h root = lint_items h root []
script_of lint_fix h root = lint_items h root (lit "--fix" ∷ [])
script_of check h root = format_items h root ++ (lint_items h root [] ++ short_items h root)
script_of pre_commit h root = format_items h root ++ (lint_items h root [] ++ short_items h root)
script_of fuzz h root = fuzz_items h root (lit "60s")
script_of fuzz_quick h root = fuzz_items h root (lit "5s")
script_of e2e h root =
    go_in h root (lit "test" ∷ lit "./e2e/..." ∷ lit "-v" ∷ lit "-timeout" ∷ lit "5m" ∷ []) ∷ []
script_of build h root =
    go_in h root (lit "build" ∷ lit "-v" ∷ lit "./examples/direct-bridge" ∷ [])
    ∷ go_in h root (lit "build" ∷ lit "-v" ∷ lit "./examples/grpc-server" ∷ [])
    ∷ run (
        process_of h root (wasm_dir root) (lit "GOOS=js" ∷ lit "GOARCH=wasm" ∷ []) (lit "go")
          (lit "build" ∷ lit "-v" ∷ lit "." ∷ []))
    ∷ []
script_of clean h root =
    go_in h root (lit "clean" ∷ lit "-cache" ∷ lit "-testcache" ∷ lit "-modcache" ∷ [])
    ∷ clear_items (artifact_paths root)

abbrev pub task_of : Scripted → Host → Text → Task (Unit {0})
task_of test = handle_test
task_of test_short = handle_test_short
task_of fmt = format_code
task_of lint = handle_lint
task_of lint_fix = apply_lint_fix
task_of check = handle_check
task_of pre_commit = handle_pre_commit
task_of fuzz = handle_fuzz
task_of fuzz_quick = handle_fuzz_quick
task_of e2e = handle_e2e
task_of build = build_examples
task_of clean = clear_artifacts

clear_files-Plays :
    (h : Host) (paths : List Text) → Plays h (clear_items paths) (clear_files h paths)
unfolding clear_files
clear_files-Plays h [] = unfold script_effects script_error in (refl, refl)
clear_files-Plays h (path ∷ paths) =
    then-Plays h (clear path ∷ []) (clear_items paths) (clear_file h path) (clear_files h paths)
      (clear-Plays h path) (clear_files-Plays h paths)

need_run-Plays :
    (h : Host) (name : Text) (p : Process)
    → Plays h (need name ∷ run p ∷ []) (get_binary_error h name >> handle_process h p)
need_run-Plays h name p =
    then-Plays h (need name ∷ []) (run p ∷ []) (get_binary_error h name) (handle_process h p)
      (need-Plays h name) (run-Plays h p)

run_then-Plays :
    (h : Host) (p : Process) (ys : List Item) (next : Task (Unit {0}))
    → Plays h ys next
    → Plays h (run p ∷ ys) (handle_process h p >> next)
run_then-Plays h p ys next b =
    then-Plays h (run p ∷ []) ys (handle_process h p) next (run-Plays h p) b

format_code-Plays : (h : Host) (root : Text) → Plays h (format_items h root) (format_code h root)
unfolding format_code
format_code-Plays h root =
    then-Plays h (need (lit "goimports") ∷ []) _ (get_binary_error h (lit "goimports")) _
      (need-Plays h (lit "goimports")) (run_then-Plays h _ _ _ (run-Plays h _))

handle_lint-Plays : (h : Host) (root : Text) → Plays h (lint_items h root []) (handle_lint h root)
unfolding handle_lint
handle_lint-Plays h root = need_run-Plays h (lit "golangci-lint") _

handle_check-Plays :
    (h : Host) (root : Text)
    → Plays h
        (format_items h root ++ (lint_items h root [] ++ short_items h root))
        (handle_check h root)
unfolding handle_check handle_test_short
handle_check-Plays h root =
    then-Plays h (format_items h root) _ (format_code h root) _ (format_code-Plays h root) (
      then-Plays h (lint_items h root []) (short_items h root) (handle_lint h root) _
        (handle_lint-Plays h root) (run-Plays h _))

-- Each of these commands takes the steps of its script in order, up to and with the first one that
-- fails, and ends in the error of that step, or finishes.
pub task_of-Plays :
    (c : Scripted) (h : Host) (root : Text) → Plays h (script_of c h root) (task_of c h root)
unfolding script_of
task_of-Plays test h root = unfold handle_test in run-Plays h _
task_of-Plays test_short h root = unfold handle_test_short in run-Plays h _
task_of-Plays fmt h root = format_code-Plays h root
task_of-Plays lint h root = handle_lint-Plays h root
task_of-Plays lint_fix h root = unfold apply_lint_fix in need_run-Plays h (lit "golangci-lint") _
task_of-Plays check h root = handle_check-Plays h root
task_of-Plays pre_commit h root = unfold handle_pre_commit in handle_check-Plays h root
task_of-Plays fuzz h root =
    unfold handle_fuzz handle_single_fuzz in
    run_then-Plays h _ _ _ (run_then-Plays h _ _ _ (run_then-Plays h _ _ _ (run-Plays h _)))
task_of-Plays fuzz_quick h root =
    unfold handle_fuzz_quick handle_single_fuzz in
    run_then-Plays h _ _ _ (run_then-Plays h _ _ _ (run_then-Plays h _ _ _ (run-Plays h _)))
task_of-Plays e2e h root = unfold handle_e2e in run-Plays h _
task_of-Plays build h root =
    unfold build_examples in run_then-Plays h _ _ _ (run_then-Plays h _ _ _ (run-Plays h _))
task_of-Plays clean h root =
    unfold clear_artifacts in run_then-Plays h _ _ _ (clear_files-Plays h (artifact_paths root))
