-- ===== src/Runner/Quality.antt =====
-- The quality gates, the baseline and the trend of the benchmarks. JSON, the clock and the platform
-- are given by a record.
use grpc_tunnel.Prelude.{Bool, true, false, not, Option, some, List, [], ◌∷◌, if◌then◌else◌}
use grpc_tunnel.Prelude.Text.{Text, lit, trim_space, join_path}
use grpc_tunnel.Prelude.Dict.{lookup}
use grpc_tunnel.Prelude.Sorted.{sort_texts}
use grpc_tunnel.Runner.{
  Process, Host, process_failed, race_refused, read_failed, encode_failed, decode_failed,
  missing_benchmark, no_coverage, low_coverage, Task, Ending, finished, failed, ◌>>=◌, ◌>>◌, pass,
  fail, unless_true, process_of, handle_process, process_output, output_of, store_file, make_dir,
}
use grpc_tunnel.Runner.Commands.{in_root, handle_lint}
use grpc_tunnel.Runner.Publish.{of_option}
use grpc_tunnel.Runner.Benchmarks.{
  Numbers, BenchmarkRecord, GateResult, parse_benchmark_records, build_benchmark_gate_result,
  build_percent_delta,
}
use grpc_tunnel.Runner.Coverage.{find_total, is_race_toolchain_issue}

pub record Snapshot (F : Type 0) : Type 0 where
  pub generated_at_utc : Text
  pub go_os : Text
  pub go_arch : Text
  pub go_version : Text
  pub benchmarks : List (Text × BenchmarkRecord F)

pub record TrendRecord (F : Type 0) : Type 0 where
  pub benchmark_name : Text
  pub ns_per_op_delta_percent : F
  pub bytes_per_op_delta_percent : F
  pub allocs_per_op_delta_percent : F
  pub kilobytes_per_op_delta_percent : F

pub record TrendSummary (F : Type 0) : Type 0 where
  pub generated_at_utc : Text
  pub baseline_generated_at_utc : Text
  pub baseline_go_version : Text
  pub current_go_version : Text
  pub benchmarks : List (Text × TrendRecord F)

pub record QualitySummary (F : Type 0) : Type 0 where
  pub generated_at_utc : Text
  pub coverage_percent : F
  pub coverage_threshold_percent : F
  pub benchmark_gate_result : GateResult F

pub record Codec (F : Type 0) : Type 0 where
  pub now : Text
  pub go_os : Text
  pub go_arch : Text
  pub encode_snapshot : Snapshot F → Option Text
  pub decode_snapshot : Text → Option (Snapshot F)
  pub encode_summary : QualitySummary F → Option Text
  pub encode_trend : TrendSummary F → Option Text

abbrev pub race_process : Host → Text → Process
race_process h root = process_of h root root (lit "CGO_ENABLED=1" ∷ []) (lit "go") (
    lit "test"
    ∷ lit "./pkg/..."
    ∷ lit "-race"
    ∷ lit "-coverprofile=coverage.txt"
    ∷ lit "-covermode=atomic"
    ∷ [])

abbrev pub coverage_process : Host → Text → Process
coverage_process h root =
    in_root h root (lit "go") (
      lit "test"
      ∷ lit "./pkg/..."
      ∷ lit "-coverprofile=coverage.txt"
      ∷ lit "-covermode=atomic"
      ∷ [])

abbrev pub after_race : Host → Text → Text × Bool → Task (Unit {0})
after_race h root (output, true) = pass tt
after_race h root (output, false) =
    if not (is_race_toolchain_issue output)
    then fail (process_failed (race_process h root))
    else if h.strict_race
    then fail (race_refused (race_process h root))
    else handle_process h (coverage_process h root)

unfoldable pub handle_quality_test : Host → Text → Task (Unit {0})
unfolding process_output handle_process is_race_toolchain_issue
handle_quality_test h root = process_output h (race_process h root) >>= after_race h root

abbrev pub cover_process : Host → Text → Process
cover_process h root =
    in_root h root (lit "go") (lit "tool" ∷ lit "cover" ∷ lit "-func=coverage.txt" ∷ [])

abbrev pub benchmark_process : Host → Text → Process
benchmark_process h root = in_root h root (lit "go") (
    lit "test"
    ∷ lit "./benchmarks"
    ∷ lit "-bench"
    ∷ lit
        "Benchmark(GRPC_(PayloadSize_1000Items|StreamLargeDataset_1000Items|BidirectionalStream_100Messages)|REST_(PayloadSize_1000Items|LargeDataset_1000Items|Bidirectional_100Messages))$"
    ∷ lit "-run"
    ∷ lit "^$"
    ∷ lit "-benchmem"
    ∷ lit "-benchtime=300ms"
    ∷ lit "-count=1"
    ∷ [])

abbrev pub compile_process : Host → Text → Process
compile_process h root =
    in_root h root (lit "go") (lit "test" ∷ lit "./..." ∷ lit "-run" ∷ lit "^$" ∷ [])

unfoldable pub build_benchmark_output : Host → Text → Task Text
unfolding output_of
build_benchmark_output h root = output_of h (benchmark_process h root)

unfoldable pub get_go_version : Host → Text → Task Text
unfolding output_of trim_space
get_go_version h root = do
  output ← output_of h (in_root h root (lit "go") (lit "version" ∷ []))
  pass (trim_space output)

abbrev pub summary_dir : Text → Text
summary_dir root = join_path (join_path root (lit "bin")) (lit "quality")

abbrev pub baseline_file : Text → Text
baseline_file root = join_path (join_path root (lit "benchmarks")) (lit "quality_baseline.json")

abbrev names_of {ℓ} : {A : Type ℓ} → List (Text × A) → List Text
names_of [] = []
names_of ((name, a) ∷ rest) = name ∷ names_of rest

module _ {F : Type 0} (n : Numbers F) (j : Codec F) where
  unfoldable pub build_coverage_percent : Host → Text → Task F
  unfolding output_of find_total
  build_coverage_percent h root = do
    output ← output_of h (cover_process h root)
    total ← of_option (find_total output) no_coverage
    of_option (n.parse_float total) no_coverage

  abbrev pub summary_of : F → GateResult F → QualitySummary F
  summary_of coverage result = record {
    generated_at_utc = j.now;
    coverage_percent = coverage;
    coverage_threshold_percent = n.decimal (lit "90.0");
    benchmark_gate_result = result;
  }

  unfoldable pub store_quality_summary : Host → Text → F → GateResult F → Task (Unit {0})
  unfolding make_dir store_file join_path
  store_quality_summary h root coverage result = do
    text ← of_option (j.encode_summary (summary_of coverage result)) encode_failed
    make_dir h (summary_dir root)
    store_file h (join_path (summary_dir root) (lit "summary.json")) text

  unfoldable pub handle_quality : Host → Text → Task (Unit {0})
  unfolding handle_lint handle_quality_test build_coverage_percent handle_process
      build_benchmark_output parse_benchmark_records build_benchmark_gate_result
      store_quality_summary
  handle_quality h root = do
    handle_lint h root
    handle_quality_test h root
    coverage ← build_coverage_percent h root
    unless_true (not (n.less coverage (n.decimal (lit "90.0")))) low_coverage
    handle_process h (compile_process h root)
    output ← build_benchmark_output h root
    records ← ([], parse_benchmark_records n output)
    result ← ([], build_benchmark_gate_result n records)
    store_quality_summary h root coverage result

  unfoldable pub store_quality_baseline : Host → Text → Task (Unit {0})
  unfolding build_benchmark_output parse_benchmark_records get_go_version store_file join_path
  store_quality_baseline h root = do
    output ← build_benchmark_output h root
    records ← ([], parse_benchmark_records n output)
    version ← get_go_version h root
    let snapshot : Snapshot F = record {
      generated_at_utc = j.now;
      go_os = j.go_os;
      go_arch = j.go_arch;
      go_version = version;
      benchmarks = records;
    }
    text ← of_option (j.encode_snapshot snapshot) encode_failed
    store_file h (baseline_file root) text

  abbrev pub trend_record : Text → BenchmarkRecord F → BenchmarkRecord F → TrendRecord F
  unfolding build_percent_delta
  trend_record name old new = record {
    benchmark_name = name;
    ns_per_op_delta_percent = build_percent_delta n old.ns_per_op new.ns_per_op;
    bytes_per_op_delta_percent = build_percent_delta n old.bytes_per_op new.bytes_per_op;
    allocs_per_op_delta_percent = build_percent_delta n old.allocs_per_op new.allocs_per_op;
    kilobytes_per_op_delta_percent =
        build_percent_delta n old.kilobytes_per_op new.kilobytes_per_op;
  }

  abbrev pub trend_of :
      Text → Option (BenchmarkRecord F) → Option (BenchmarkRecord F) → Ending (TrendRecord F)
  unfolding trend_record
  trend_of name (some old) (some new) = finished (trend_record name old new)
  trend_of name old new = failed (missing_benchmark name)

  -- The loop over the names of the baseline, in order.
  unfoldable pub build_trends :
      List (Text × BenchmarkRecord F)
      → List (Text × BenchmarkRecord F)
      → List Text
      → Task (List (Text × TrendRecord F))
  unfolding trend_of lookup
  build_trends baseline current [] = pass []
  build_trends baseline current (name ∷ names) = do
    trend ← ([], trend_of name (lookup name baseline) (lookup name current))
    rest ← build_trends baseline current names
    pass ((name, trend) ∷ rest)

  unfoldable pub store_trend_report : Host → Text → TrendSummary F → Task (Unit {0})
  unfolding make_dir store_file join_path
  store_trend_report h root summary = do
    text ← of_option (j.encode_trend summary) encode_failed
    make_dir h (summary_dir root)
    store_file h (join_path (summary_dir root) (lit "trend.json")) text

  unfoldable pub handle_quality_trend : Host → Text → Task (Unit {0})
  unfolding build_benchmark_output parse_benchmark_records get_go_version build_trends
      store_trend_report sort_texts join_path
  handle_quality_trend h root = do
    content ← of_option (h.reads (baseline_file root)) (read_failed (baseline_file root))
    baseline ← of_option (j.decode_snapshot content) decode_failed
    output ← build_benchmark_output h root
    current ← ([], parse_benchmark_records n output)
    version ← get_go_version h root
    trends ← build_trends baseline.benchmarks current (sort_texts (names_of baseline.benchmarks))
    store_trend_report h root (record {
      generated_at_utc = j.now;
      baseline_generated_at_utc = baseline.generated_at_utc;
      baseline_go_version = baseline.go_version;
      current_go_version = version;
      benchmarks = trends;
    })
