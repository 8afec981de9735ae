-- ===== src/Runner/Tests.antt =====
-- The runner on a machine where everything works, and the theorems of the children there.
use grpc_tunnel.Prelude.{
  ◌++◌, List, Bool, ℕ, ◌≡◌, refl, true, false, Option, none, some, [], ◌∷◌, ltb, leb, ◌==◌, ◌-◌,
  ◌*◌, if◌then◌else◌,
}
use grpc_tunnel.Prelude.Text.{Text, lit, text_eq}
use grpc_tunnel.Runner.{Host, process_of, absent, unknown_command, no_binary, failed, finished}
use grpc_tunnel.Runner.Commands.{handle_lint}
use grpc_tunnel.Runner.Publish.{handle_canonical_publish_check}
use grpc_tunnel.Runner.Temporary.{RemovesTemp, handle_canonical_publish_check-RemovesTemp}
use grpc_tunnel.Runner.Benchmarks.{parse_benchmark_records, Numbers, fields, parse_benchmark_name}
use grpc_tunnel.Runner.Coverage.{find_total, is_race_toolchain_issue}
use grpc_tunnel.Runner.Quality.{Codec, handle_quality}
use grpc_tunnel.Runner.Scripts.{Plays}
use grpc_tunnel.Runner.Scripted.{lint, script_of}
use grpc_tunnel.Runner.Main.{handle_runner_main, handle_runner_main-Plays}

abbrev origin_text : Text
origin_text = lit "git@github.com:monstercameron/grpc-tunnel.git\n"

-- Every process succeeds and prints the origin; no file is there to be removed.
abbrev host : Host
host = record {
  root = some (lit "/r");
  environ = lit "HOME=/h" ∷ [];
  finds = λ name. true;
  runs = λ p. (origin_text, true);
  reads = λ path. some (lit "module github.com/monstercameron/grpc-tunnel\n\ngo 1.24\n");
  writes = λ path. true;
  makes_dir = λ path. true;
  removes = λ path. absent;
  has_file = λ path. true;
  is_windows = false;
  can_chmod = true;
  temp_dir = some (lit "/tmp/s");
  strict_race = false;
}

abbrev bare_host : Host
bare_host = record host { finds = λ name. false }

abbrev digit_value : Text → Option ℕ
digit_value [] = none
digit_value (c ∷ s) = if leb b'0' c then some (c - b'0') else none

-- Whole numbers of one digit in place of float64.
abbrev numbers : Numbers ℕ
numbers = record {
  parse_float = digit_value;
  zero_of = 0;
  one = 1;
  hundred = 100;
  minus = λ a b. a - b;
  over = λ a b. a;
  times = λ a b. a * b;
  less = ltb;
  less_eq = leb;
  same = λ a b. a == b;
  decimal = λ t. 0;
}

abbrev codec : Codec ℕ
codec = record {
  now = lit "now";
  go_os = lit "linux";
  go_arch = lit "amd64";
  encode_snapshot = λ s. none;
  decode_snapshot = λ s. none;
  encode_summary = λ s. none;
  encode_trend = λ s. none;
}

help_test : (handle_runner_main numbers codec host (lit "-h" ∷ [])).1 ≡ ([], finished tt)
unfolding handle_runner_main
help_test = refl

unknown_test :
    (handle_runner_main numbers codec host (lit "lints" ∷ [])).1
    ≡ ([], failed (unknown_command (lit "lints")))
unfolding handle_runner_main
unknown_test = refl

no_linter_test : handle_lint bare_host (lit "/r") ≡ ([], failed (no_binary (lit "golangci-lint")))
unfolding handle_lint
no_linter_test = refl

name_test :
    parse_benchmark_name (lit "BenchmarkREST_Bidirectional_100Messages-16")
    ≡ lit "BenchmarkREST_Bidirectional_100Messages"
unfolding parse_benchmark_name
name_test = refl

fields_test : fields (lit " a  bc\td") ≡ lit "a" ∷ lit "bc" ∷ lit "d" ∷ []
unfolding fields
fields_test = refl

total_test :
    find_total (lit "x.go:1:\tf\t1.0%\ntotal:\t\t(statements)\t93.4%\n") ≡ some (lit "93.4")
unfolding find_total
total_test = refl

toolchain_test : is_race_toolchain_issue (lit "go: -race requires CGO; enable it") ≡ true
unfolding is_race_toolchain_issue
toolchain_test = refl

handle_runner_main-Plays_example :
    ((handle_runner_main numbers codec host (lit "lint" ∷ lit "-x" ∷ [])).0 ≡ [])
    × Plays host
        (script_of lint host (lit "/r"))
        (handle_runner_main numbers codec host (lit "lint" ∷ lit "-x" ∷ [])).1
handle_runner_main-Plays_example =
    handle_runner_main-Plays numbers codec lint host (lit "/r") (lit "-x" ∷ []) refl

handle_canonical_publish_check-RemovesTemp_example :
    RemovesTemp (handle_canonical_publish_check host (lit "/r")).0
handle_canonical_publish_check-RemovesTemp_example =
    handle_canonical_publish_check-RemovesTemp host (lit "/r")

abbrev payload_line : Text → Text
payload_line name = lit "Benchmark" ++ (name ++ lit "-8 100 9 ns/op 2 B/op 1 allocs/op 1 KB/op\n")

abbrev benchmark_text : Text
benchmark_text =
    payload_line (lit "GRPC_PayloadSize_1000Items")
    ++ (payload_line (lit "REST_PayloadSize_1000Items")
        ++ (payload_line (lit "GRPC_BidirectionalStream_100Messages")
            ++ (payload_line (lit "REST_Bidirectional_100Messages")
                ++ (payload_line (lit "GRPC_StreamLargeDataset_1000Items")
                    ++ payload_line (lit "REST_LargeDataset_1000Items")))))

abbrev is_benchmark : List Text → Bool
is_benchmark [] = false
is_benchmark (a ∷ []) = false
is_benchmark (a ∷ b ∷ args) = text_eq b (lit "./benchmarks")

-- The metrics of a line under their units; two more lines are no records.
records_test :
    parse_benchmark_records numbers
      (lit "ok  x 1s\nBenchmarkShort 1 2 ns/op\n" ++ payload_line (lit "X-1"))
    ≡ finished (
        (
          lit "BenchmarkX-1",
          record {
            benchmark_name = lit "BenchmarkX-1";
            ns_per_op = 9;
            bytes_per_op = 2;
            allocs_per_op = 1;
            kilobytes_per_op = 1;
            has_kilobytes_metric = true;
          },
        )
        ∷ [])
unfolding parse_benchmark_records
records_test = refl

-- A machine on which the gates pass.
abbrev good_host : Host
good_host = record host {
  runs =
      λ p. (if is_benchmark p.args then benchmark_text else lit "total:\t(statements)\t9%\n", true);
}

abbrev writing : Codec ℕ
writing = record codec { encode_summary = λ s. some (lit "{}") }

quality_passes : (handle_quality numbers writing good_host (lit "/r")).1 ≡ finished tt
unfolding handle_quality process_of
quality_passes = refl
