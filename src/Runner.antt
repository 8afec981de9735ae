-- ===== src/Runner.antt =====
-- tools/runner.go: what a command runs, writes and removes, in order, and how it ends. The processes,
-- the file system and the environment are given by a record of answers.
pub mod Commands
pub mod Scripts
pub mod Scripted
pub mod Expected
pub mod Spellings
pub mod Publish
pub mod Published
pub mod Canonical
pub mod Temporary
pub mod Repository
pub mod Benchmarks
pub mod Coverage
pub mod Quality
pub mod Judging
pub mod Gates
pub mod Passing
pub mod Main
mod Tests
use grpc_tunnel.Prelude.{
  ℕ, Bool, true, false, Option, none, some, List, [], ◌∷◌, ◌++◌, if◌then◌else◌,
}
use grpc_tunnel.Prelude.Text.{Text, lit}

-- A process: its working directory, its environment, its binary and its arguments.
pub record Process : Type 0 where
  pub dir : Text
  pub env : List Text
  pub binary : Text
  pub args : List Text

-- os.Remove: it removes the file, or the file is missing, or it fails.
pub data Removal : Type 0 where
  gone : Removal
  absent : Removal
  stuck : Removal

-- The machine that the runner runs on. `runs` gives the output of a process and whether it succeeds:
-- no command runs the same process twice. `temp_dir` is what os.MkdirTemp makes.
pub record Host : Type 0 where
  pub root : Option Text
  pub environ : List Text
  pub finds : Text → Bool
  pub runs : Process → Text × Bool
  pub reads : Text → Option Text
  pub writes : Text → Bool
  pub makes_dir : Text → Bool
  pub removes : Text → Removal
  pub has_file : Text → Bool
  pub is_windows : Bool
  pub can_chmod : Bool
  pub temp_dir : Option Text
  pub strict_race : Bool

pub data Effect : Type 0 where
  ran : Process → Effect
  file_stored : Text → Text → Effect
  dir_made : Text → Effect
  removal : Text → Effect
  mode_set : Text → Effect
  temp_made : Text → Effect
  temp_removed : Text → Effect

pub data RunnerError : Type 0 where
  root_unknown : RunnerError
  unknown_command : Text → RunnerError
  no_binary : Text → RunnerError
  process_failed : Process → RunnerError
  hook_missing : RunnerError
  mode_refused : RunnerError
  removal_failed : Text → RunnerError
  read_failed : Text → RunnerError
  store_failed : Text → RunnerError
  dir_failed : Text → RunnerError
  no_module_path : RunnerError
  wrong_module : Text → RunnerError
  wrong_origin : Text → RunnerError
  unreachable : Process → RunnerError
  no_temp_dir : RunnerError
  get_failed : Process → RunnerError
  smoke_failed : Process → RunnerError
  no_coverage : RunnerError
  low_coverage : RunnerError
  race_refused : Process → RunnerError
  no_records : RunnerError
  missing_records : RunnerError
  missing_metrics : RunnerError
  bad_denominator : RunnerError
  low_savings : RunnerError
  encode_failed : RunnerError
  decode_failed : RunnerError
  missing_benchmark : Text → RunnerError

-- How a task ends.
pub data Ending {ℓ} (A : Type ℓ) : Type ℓ where
  failed : RunnerError → Ending A
  finished : A → Ending A

abbrev pub Task {ℓ} : Type ℓ → Type ℓ
Task A = List Effect × Ending A

-- The second part of a task runs if the first one finishes.
abbrev pub continue {ℓ κ} :
    {A : Type ℓ} {B : Type κ} → List Effect → Ending A → (A → Task B) → Task B
continue es (failed e) next = (es, failed e)
continue es (finished a) next = (es ++ (next a).0, (next a).1)

infixl 5 ◌>>=◌ ◌>>◌
abbrev pub ◌>>=◌ {ℓ κ} : {A : Type ℓ} {B : Type κ} → Task A → (A → Task B) → Task B
task >>= next = continue task.0 task.1 next

abbrev pub ◌>>◌ {ℓ} : {B : Type ℓ} → Task (Unit {0}) → Task B → Task B
task >> next = task >>= λ _. next

abbrev pub pass {ℓ} : {A : Type ℓ} → A → Task A
pass a = ([], finished a)

abbrev pub fail {ℓ} : {A : Type ℓ} → RunnerError → Task A
fail e = ([], failed e)

-- What is done in any case, after the task.
abbrev pub finally {ℓ} : {A : Type ℓ} → List Effect → Task A → Task A
finally after task = (task.0 ++ after, task.1)

abbrev pub unless_true : Bool → RunnerError → Task (Unit {0})
unless_true true e = pass tt
unless_true false e = fail e

unfoldable pub build_runner_env : Host → Text → List Text → List Text
build_runner_env h root overrides =
    h.environ ++ (lit "GOWORK=off" ∷ (lit "RUNNER_ROOT=" ++ root) ∷ overrides)

abbrev pub process_of : Host → Text → Text → List Text → Text → List Text → Process
unfolding build_runner_env
process_of h root dir overrides binary args = record {
  dir = dir;
  env = build_runner_env h root overrides;
  binary = binary;
  args = args;
}

-- `handleRunnerProcess`
unfoldable pub handle_process : Host → Process → Task (Unit {0})
handle_process h p = (ran p ∷ [], if (h.runs p).1 then finished tt else failed (process_failed p))

-- `buildRunnerProcessOutput`: the output comes with the error too.
unfoldable pub process_output : Host → Process → Task (Text × Bool)
process_output h p = (ran p ∷ [], finished (h.runs p))

-- The output of a process that must succeed.
unfoldable pub output_of : Host → Process → Task Text
output_of h p =
    (ran p ∷ [], if (h.runs p).1 then finished (h.runs p).0 else failed (process_failed p))

unfoldable pub get_binary_error : Host → Text → Task (Unit {0})
get_binary_error h name = unless_true (h.finds name) (no_binary name)

-- `writeFile`, as each command uses it
unfoldable pub store_file : Host → Text → Text → Task (Unit {0})
store_file h path content =
    if h.writes path then (file_stored path content ∷ [], finished tt) else fail (store_failed path)

unfoldable pub make_dir : Host → Text → Task (Unit {0})
make_dir h path =
    if h.makes_dir path then (dir_made path ∷ [], finished tt) else fail (dir_failed path)
