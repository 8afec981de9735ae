-- ===== src/Runner/Publish.antt =====
-- The canonical publish check: the module path, the origin, the reachable repository, and a consumer
-- in a temporary directory that gets and builds the module.
use grpc_tunnel.Prelude.{Option, none, some, List, [], ◌∷◌, ◌++◌, if◌then◌else◌}
use grpc_tunnel.Prelude.Text.{Text, lit, text_eq, trim_space, join_path}
use grpc_tunnel.Runner.{
  Process, Host, ran, temp_made, temp_removed, RunnerError, read_failed, no_module_path,
  wrong_module, wrong_origin, unreachable, no_temp_dir, get_failed, smoke_failed, Task, finished,
  failed, continue, ◌>>=◌, ◌>>◌, pass, fail, finally, unless_true, process_of, handle_process,
  output_of, store_file,
}
use grpc_tunnel.Runner.Commands.{in_root}
use grpc_tunnel.Runner.Repository.{parse_go_mod_module_path, normalize_repository_url}

abbrev pub canonical_module_path : Text
canonical_module_path = lit "github.com/monstercameron/grpc-tunnel"

abbrev pub canonical_repository_url : Text
canonical_repository_url = lit "https://github.com/monstercameron/grpc-tunnel"

abbrev pub of_option {ℓ} : {A : Type ℓ} → Option A → RunnerError → Task A
of_option none e = fail e
of_option (some a) e = pass a

-- A process whose failure is reported as another error.
unfoldable pub process_or : Host → Process → RunnerError → Task (Unit {0})
process_or h p e = (ran p ∷ [], if (h.runs p).1 then finished tt else failed e)

abbrev pub origin_process : Host → Text → Process
origin_process h root =
    in_root h root (lit "git") (lit "remote" ∷ lit "get-url" ∷ lit "origin" ∷ [])

abbrev pub reach_process : Host → Text → Process
reach_process h root =
    in_root h root (lit "git") (lit "ls-remote" ∷ canonical_repository_url ∷ lit "HEAD" ∷ [])

abbrev pub consumer_process : Host → Text → Text → List Text → Process
consumer_process h root dir args = process_of h root dir [] (lit "go") args

abbrev pub init_args : List Text
init_args = lit "mod" ∷ lit "init" ∷ lit "example.com/gogrpcbridge-publish-smoke" ∷ []

abbrev pub get_args : List Text
get_args = lit "get" ∷ (canonical_module_path ++ lit "@latest") ∷ []

abbrev pub build_args : List Text
build_args = lit "build" ∷ lit "." ∷ []

abbrev pub smoke_main : Text
smoke_main =
    lit "package main\n\nimport _ \""
    ++ (canonical_module_path ++ lit "/pkg/grpctunnel\"\n\nfunc main() {}\n")

-- The part in the temporary directory.
unfoldable pub smoke_test : Host → Text → Text → Task (Unit {0})
unfolding handle_process process_or store_file join_path
smoke_test h root dir = do
  handle_process h (consumer_process h root dir init_args)
  let get = consumer_process h root dir get_args
  process_or h get (get_failed get)
  store_file h (join_path dir (lit "main.go")) smoke_main
  let build = consumer_process h root dir build_args
  process_or h build (smoke_failed build)

abbrev pub in_temp_dir : Host → Text → Option Text → Task (Unit {0})
in_temp_dir h root none = fail no_temp_dir
in_temp_dir h root (some dir) =
    continue (temp_made dir ∷ []) (finished tt)
      (λ (u : Unit {0}). finally (temp_removed dir ∷ []) (smoke_test h root dir))

unfoldable pub check_identity : Host → Text → Task (Unit {0})
unfolding output_of process_or parse_go_mod_module_path normalize_repository_url text_eq join_path
check_identity h root = do
  let go_mod = join_path root (lit "go.mod")
  content ← of_option (h.reads go_mod) (read_failed go_mod)
  module_path ← of_option (parse_go_mod_module_path content) no_module_path
  unless_true (text_eq module_path canonical_module_path) (wrong_module module_path)
  output ← output_of h (origin_process h root)
  let origin = normalize_repository_url (trim_space output)
  unless_true (text_eq origin (normalize_repository_url canonical_repository_url))
      (wrong_origin origin)
  process_or h (reach_process h root) (unreachable (reach_process h root))

unfoldable pub handle_canonical_publish_check : Host → Text → Task (Unit {0})
unfolding check_identity smoke_test
handle_canonical_publish_check h root = do check_identity h root; in_temp_dir h root h.temp_dir
