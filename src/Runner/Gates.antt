-- ===== src/Runner/Gates.antt =====
-- What tools/runner.go's quality gates ask for, and that they do.
use grpc_tunnel.Prelude.{
  Bool, true, false, not, some, List, ◌≡◌, refl, subst, ◌⊎◌, inl, inr, if◌then◌else◌, Bool-cases,
  arith,
}
use grpc_tunnel.Prelude.Text.{Text, lit, join_path}
use grpc_tunnel.Runner.{
  Host, RunnerError, Task, finished, fail, process_output, handle_process, make_dir,
  get_binary_error, build_runner_env,
}
use grpc_tunnel.Runner.Commands.{handle_lint}
use grpc_tunnel.Runner.Published.{
  continue-finished, if-finished, option-finished, unless-finished, output-finished, store-finished,
}
use grpc_tunnel.Runner.Benchmarks.{Numbers, BenchmarkRecord, GateResult, parse_benchmark_records}
use grpc_tunnel.Runner.Expected.{
  expected_lint, expected_race, expected_coverage, expected_cover, expected_compile,
  expected_benchmark,
}
use grpc_tunnel.Runner.Judging.{PassesGates, build_benchmark_gate_result-PassesGates}
use grpc_tunnel.Runner.Coverage.{find_total, is_race_toolchain_issue}
use grpc_tunnel.Runner.Quality.{
  Codec, race_process, coverage_process, after_race, handle_quality_test, cover_process,
  benchmark_process, build_benchmark_output, build_coverage_percent, summary_of, summary_dir,
  store_quality_summary, handle_quality,
}

-- The tests passed with race detection; or the toolchain could not do it, race detection is not asked
-- for strictly, and they passed without.
abbrev pub HaveTestsPassed : Host → Text → Type 0
HaveTestsPassed h root =
    ((h.runs (expected_race h root)).1 ≡ true)
    ⊎ ((is_race_toolchain_issue (h.runs (expected_race h root)).0 ≡ true)
        × (h.strict_race ≡ false)
        × ((h.runs (expected_coverage h root)).1 ≡ true))

-- The summary can be encoded and written.
abbrev pub IsStored : {F : Type 0} → Numbers F → Codec F → Host → Text → F → GateResult F → Type 0
IsStored n j h root coverage result =
    ((text : Text) × (j.encode_summary (record {
      generated_at_utc = j.now;
      coverage_percent = coverage;
      coverage_threshold_percent = n.decimal (lit "90.0");
      benchmark_gate_result = result;
    })
        ≡ some text))
    × (h.makes_dir (join_path (join_path root (lit "bin")) (lit "quality")) ≡ true)
    × (h.writes
          (join_path (join_path (join_path root (lit "bin")) (lit "quality")) (lit "summary.json"))
        ≡ true)

-- What the gates ask for.
pub record IsGated {F : Type 0} (n : Numbers F) (j : Codec F) (h : Host) (root : Text)
    : Type 0 where
  pub has_linter : h.finds (lit "golangci-lint") ≡ true
  pub linted : (h.runs (expected_lint h root)).1 ≡ true
  pub tested : HaveTestsPassed h root
  pub covered : (h.runs (expected_cover h root)).1 ≡ true
  pub total : Text
  pub found : find_total (h.runs (expected_cover h root)).0 ≡ some total
  pub coverage : F
  pub parsed : n.parse_float total ≡ some coverage
  pub enough : n.less coverage (n.decimal (lit "90.0")) ≡ false
  pub compiles : (h.runs (expected_compile h root)).1 ≡ true
  pub measured : (h.runs (expected_benchmark h root)).1 ≡ true
  pub records : List (Text × BenchmarkRecord F)
  pub read : parse_benchmark_records n (h.runs (expected_benchmark h root)).0 ≡ finished records
  pub result : GateResult F
  pub judged : PassesGates n records result
  pub summary : IsStored n j h root coverage result

lint-finished :
    (h : Host) (root : Text)
    → (handle_lint h root).1 ≡ finished tt
    → (h.finds (lit "golangci-lint") ≡ true) × ((h.runs (expected_lint h root)).1 ≡ true)
unfolding handle_lint get_binary_error handle_process build_runner_env
lint-finished h root e =
    let (u, a, e) = continue-finished _ _ _ _ e in (unless-finished _ _ u a, if-finished _ _ tt e)

fallback-finished :
    (lacks strict : Bool) (a b : RunnerError) (task : Task (Unit {0}))
    → (if not lacks then fail a else if strict then fail b else task).1 ≡ finished tt
    → (lacks ≡ true) × (strict ≡ false) × (task.1 ≡ finished tt)
fallback-finished false strict a b task e = absurd (ground arith)
fallback-finished true true a b task e = absurd (ground arith)
fallback-finished true false a b task e = (refl, refl, e)

after_race-finished :
    (h : Host) (root : Text) (run : Text × Bool)
    → (after_race h root run).1 ≡ finished tt
    → (run.1 ≡ true)
      ⊎ ((is_race_toolchain_issue run.0 ≡ true)
          × (h.strict_race ≡ false)
          × ((h.runs (coverage_process h root)).1 ≡ true))
unfolding handle_process
after_race-finished h root (output, true) e = inl refl
after_race-finished h root (output, false) e =
    let (lacking, loose, covers) =
      fallback-finished (is_race_toolchain_issue output) h.strict_race _ _
        (handle_process h (coverage_process h root)) e in
    inr (lacking, loose, if-finished _ _ tt covers)

tests-finished :
    (h : Host) (root : Text) → (handle_quality_test h root).1 ≡ finished tt → HaveTestsPassed h root
unfolding handle_quality_test process_output build_runner_env
tests-finished h root e = after_race-finished h root (h.runs (race_process h root)) e

coverage-finished :
    {F : Type 0} (n : Numbers F) (j : Codec F) (h : Host) (root : Text) (coverage : F)
    → (build_coverage_percent n j h root).1 ≡ finished coverage
    → ((h.runs (cover_process h root)).1 ≡ true)
      × ((total : Text) × (find_total (h.runs (cover_process h root)).0 ≡ some total)
          × (n.parse_float total ≡ some coverage))
unfolding build_coverage_percent
coverage-finished n j h root coverage e =
    let (output, a, e) = continue-finished _ _ _ _ e in
    let (total, b, e) = continue-finished _ _ _ _ e in
    let (covered, same) = output-finished h (cover_process h root) output a in
    let found = option-finished (find_total output) _ total b in
    (
      covered,
      (
        total,
        subst (λ text. find_total text ≡ some total) same found,
        option-finished (n.parse_float total) _ coverage e,
      ),
    )

dir-finished :
    (h : Host) (path : Text) (u : Unit {0})
    → (make_dir h path).1 ≡ finished u
    → h.makes_dir path ≡ true
unfolding make_dir
dir-finished h path u e = elim (Bool-cases (h.makes_dir path)) [
  | inl good ↦ good
  | inr bad ↦ absurd (ground arith)
]

summary-finished :
    {F : Type 0} (n : Numbers F) (j : Codec F) (h : Host) (root : Text) (coverage : F)
    (result : GateResult F)
    → (store_quality_summary n j h root coverage result).1 ≡ finished tt
    → IsStored n j h root coverage result
unfolding store_quality_summary
summary-finished n j h root coverage result e =
    let (text, a, e) = continue-finished _ _ _ _ e in
    let (u, b, e) = continue-finished _ _ _ _ e in
    (
      (text, option-finished (j.encode_summary (summary_of n j coverage result)) _ text a),
      dir-finished h (summary_dir root) u b,
      store-finished h (join_path (summary_dir root) (lit "summary.json")) text tt e,
    )

not-true : (b : Bool) → not b ≡ true → b ≡ false
not-true true h = absurd (ground arith)
not-true false h = refl

pub passed-IsGated :
    {F : Type 0} (n : Numbers F) (j : Codec F) (h : Host) (root : Text)
    → (handle_quality n j h root).1 ≡ finished tt
    → IsGated n j h root
unfolding handle_quality build_benchmark_output handle_process build_runner_env
passed-IsGated n j h root e =
    let (u, lints, e) = continue-finished _ _ _ _ e in
    let (v, tests, e) = continue-finished _ _ _ _ e in
    let (coverage, covers, e) = continue-finished _ _ _ _ e in
    let (w, enough, e) = continue-finished _ _ _ _ e in
    let (x, compiles, e) = continue-finished _ _ _ _ e in
    let (output, runs, e) = continue-finished _ _ _ _ e in
    let (records, reads, e) = continue-finished _ _ _ _ e in
    let (result, judges, e) = continue-finished _ _ _ _ e in
    let (has_linter, linted) = lint-finished h root lints in
    let (covered, (total, found, parsed)) = coverage-finished n j h root coverage covers in
    let (measured, same) = output-finished h (benchmark_process h root) output runs in
    record {
      has_linter = has_linter;
      linted = linted;
      tested = tests-finished h root tests;
      covered = covered;
      total = total;
      found = found;
      coverage = coverage;
      parsed = parsed;
      enough = not-true _ (unless-finished _ _ w enough);
      compiles = if-finished _ _ x compiles;
      measured = measured;
      records = records;
      read = subst (λ text. parse_benchmark_records n text ≡ finished records) same reads;
      result = result;
      judged = (build_benchmark_gate_result-PassesGates n records result).0 judges;
      summary = summary-finished n j h root coverage result e;
    }
