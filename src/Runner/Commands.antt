-- ===== src/Runner/Commands.antt =====
-- The commands of the runner that only run processes: tests, formatting, linting, fuzzing, builds, and
-- the clearing of artifacts and the hook.
use grpc_tunnel.Prelude.{List, [], ◌∷◌, ◌++◌, if◌then◌else◌}
use grpc_tunnel.Prelude.Text.{Text, lit, join_path}
use grpc_tunnel.Runner.{
  Process, Host, Removal, gone, absent, stuck, removal, mode_set, hook_missing, mode_refused,
  removal_failed, Task, finished, ◌>>◌, pass, fail, unless_true, process_of, handle_process,
  get_binary_error,
}

-- A process in the repository's root, without overrides.
abbrev pub in_root : Host → Text → Text → List Text → Process
in_root h root binary args = process_of h root root [] binary args

abbrev pub test_args : List Text
test_args =
    lit "test" ∷ lit "./pkg/..." ∷ lit "-v" ∷ lit "-race" ∷ lit "-coverprofile=coverage.txt" ∷ []

unfoldable pub handle_test : Host → Text → Task (Unit {0})
unfolding handle_process
handle_test h root = handle_process h (in_root h root (lit "go") test_args)

unfoldable pub handle_test_short : Host → Text → Task (Unit {0})
unfolding handle_process
handle_test_short h root =
    handle_process h (in_root h root (lit "go") (lit "test" ∷ lit "./pkg/..." ∷ lit "-short" ∷ []))

unfoldable pub format_code : Host → Text → Task (Unit {0})
unfolding handle_process get_binary_error
format_code h root = do
  get_binary_error h (lit "goimports")
  handle_process h (in_root h root (lit "gofmt") (lit "-w" ∷ lit "-s" ∷ lit "." ∷ []))
  handle_process h (in_root h root (lit "goimports") (lit "-w" ∷ lit "." ∷ []))

unfoldable pub handle_lint : Host → Text → Task (Unit {0})
unfolding handle_process get_binary_error
handle_lint h root = do
  get_binary_error h (lit "golangci-lint")
  handle_process h (
      in_root h root (lit "golangci-lint")
        (lit "run" ∷ lit "--config=.golangci.yml" ∷ lit "./..." ∷ []))

unfoldable pub apply_lint_fix : Host → Text → Task (Unit {0})
unfolding handle_process get_binary_error
apply_lint_fix h root = do
  get_binary_error h (lit "golangci-lint")
  handle_process h (
      in_root h root (lit "golangci-lint")
        (lit "run" ∷ lit "--config=.golangci.yml" ∷ lit "--fix" ∷ lit "./..." ∷ []))

unfoldable pub handle_check : Host → Text → Task (Unit {0})
unfolding format_code handle_lint handle_test_short
handle_check h root = do format_code h root; handle_lint h root; handle_test_short h root

-- The line that is printed after the checks is left out.
unfoldable pub handle_pre_commit : Host → Text → Task (Unit {0})
unfolding handle_check
handle_pre_commit h root = handle_check h root

unfoldable pub handle_single_fuzz : Host → Text → Text → Text → Task (Unit {0})
unfolding handle_process
handle_single_fuzz h root name duration = handle_process h (
    in_root h root (lit "go") (
      lit "test"
      ∷ lit "./pkg/bridge"
      ∷ lit "-v"
      ∷ (lit "-fuzz=" ++ name)
      ∷ (lit "-fuzztime=" ++ duration)
      ∷ []))

unfoldable pub handle_fuzz : Host → Text → Task (Unit {0})
unfolding handle_single_fuzz
handle_fuzz h root = do
  handle_single_fuzz h root (lit "FuzzWebSocketConnWrite") (lit "60s")
  handle_single_fuzz h root (lit "FuzzWebSocketConnRead") (lit "60s")
  handle_single_fuzz h root (lit "FuzzBinaryMessage") (lit "60s")
  handle_single_fuzz h root (lit "FuzzMessageSizes") (lit "60s")

unfoldable pub handle_fuzz_quick : Host → Text → Task (Unit {0})
unfolding handle_single_fuzz
handle_fuzz_quick h root = do
  handle_single_fuzz h root (lit "FuzzWebSocketConnWrite") (lit "5s")
  handle_single_fuzz h root (lit "FuzzWebSocketConnRead") (lit "5s")
  handle_single_fuzz h root (lit "FuzzBinaryMessage") (lit "5s")
  handle_single_fuzz h root (lit "FuzzMessageSizes") (lit "5s")

unfoldable pub handle_e2e : Host → Text → Task (Unit {0})
unfolding handle_process
handle_e2e h root = handle_process h (
    in_root h root (lit "go")
      (lit "test" ∷ lit "./e2e/..." ∷ lit "-v" ∷ lit "-timeout" ∷ lit "5m" ∷ []))

abbrev pub wasm_dir : Text → Text
wasm_dir root = join_path (join_path root (lit "examples")) (lit "wasm-client")

unfoldable pub build_examples : Host → Text → Task (Unit {0})
unfolding handle_process join_path
build_examples h root = do
  handle_process h
      (in_root h root (lit "go") (lit "build" ∷ lit "-v" ∷ lit "./examples/direct-bridge" ∷ []))
  handle_process h
      (in_root h root (lit "go") (lit "build" ∷ lit "-v" ∷ lit "./examples/grpc-server" ∷ []))
  handle_process h (
      process_of h root (wasm_dir root) (lit "GOOS=js" ∷ lit "GOARCH=wasm" ∷ []) (lit "go")
        (lit "build" ∷ lit "-v" ∷ lit "." ∷ []))

abbrev pub removed : Text → Removal → Task (Unit {0})
removed path gone = (removal path ∷ [], finished tt)
removed path absent = pass tt
removed path stuck = fail (removal_failed path)

unfoldable pub clear_file : Host → Text → Task (Unit {0})
clear_file h path = removed path (h.removes path)

unfoldable pub clear_files : Host → List Text → Task (Unit {0})
unfolding clear_file
clear_files h [] = pass tt
clear_files h (path ∷ paths) = do clear_file h path; clear_files h paths

abbrev pub artifact_paths : Text → List Text
artifact_paths root =
    join_path root (lit "coverage.txt")
    ∷ join_path root (lit "direct-bridge")
    ∷ join_path root (lit "direct-bridge.exe")
    ∷ join_path root (lit "grpc-server")
    ∷ join_path root (lit "grpc-server.exe")
    ∷ join_path (wasm_dir root) (lit "main.wasm")
    ∷ []

unfoldable pub clear_artifacts : Host → Text → Task (Unit {0})
unfolding handle_process clear_files join_path
clear_artifacts h root = do
  handle_process h (
      in_root h root (lit "go")
        (lit "clean" ∷ lit "-cache" ∷ lit "-testcache" ∷ lit "-modcache" ∷ []))
  clear_files h (artifact_paths root)

abbrev pub hook_path : Text → Text
hook_path root =
    join_path (join_path (join_path root (lit ".git")) (lit "hooks")) (lit "pre-commit")

unfoldable pub apply_install_hooks : Host → Text → Task (Unit {0})
unfolding join_path
apply_install_hooks h root = do
  unless_true (h.has_file (hook_path root)) hook_missing
  if h.is_windows
      then pass tt
      else if h.can_chmod
      then (mode_set (hook_path root) ∷ [], finished tt)
      else fail mode_refused
