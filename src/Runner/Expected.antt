-- ===== src/Runner/Expected.antt =====
-- The processes that the publish check and the quality gates of tools/runner.go are to run, written out
-- with their environment, apart from the code's own definitions.
use grpc_tunnel.Prelude.{List, [], ◌∷◌, ◌++◌}
use grpc_tunnel.Prelude.Text.{Text, lit}
use grpc_tunnel.Runner.{Process, Host}

-- A process in `dir`, with some variables set besides those that every process gets.
abbrev pub expected : Host → Text → Text → List Text → Text → List Text → Process
expected h root dir overrides binary args = record {
  dir = dir;
  env = h.environ ++ (lit "GOWORK=off" ∷ (lit "RUNNER_ROOT=" ++ root) ∷ overrides);
  binary = binary;
  args = args;
}

abbrev pub expected_origin : Host → Text → Process
expected_origin h root =
    expected h root root [] (lit "git") (lit "remote" ∷ lit "get-url" ∷ lit "origin" ∷ [])

abbrev pub expected_reach : Host → Text → Process
expected_reach h root =
    expected h root root [] (lit "git")
      (lit "ls-remote" ∷ lit "https://github.com/monstercameron/grpc-tunnel" ∷ lit "HEAD" ∷ [])

abbrev pub expected_init : Host → Text → Text → Process
expected_init h root dir =
    expected h root dir [] (lit "go")
      (lit "mod" ∷ lit "init" ∷ lit "example.com/gogrpcbridge-publish-smoke" ∷ [])

abbrev pub expected_get : Host → Text → Text → Process
expected_get h root dir =
    expected h root dir [] (lit "go")
      (lit "get" ∷ lit "github.com/monstercameron/grpc-tunnel@latest" ∷ [])

abbrev pub expected_build : Host → Text → Text → Process
expected_build h root dir = expected h root dir [] (lit "go") (lit "build" ∷ lit "." ∷ [])

abbrev pub expected_main : Text
expected_main =
    lit
      "package main\n\nimport _ \"github.com/monstercameron/grpc-tunnel/pkg/grpctunnel\"\n\nfunc main() {}\n"

abbrev pub expected_lint : Host → Text → Process
expected_lint h root =
    expected h root root [] (lit "golangci-lint")
      (lit "run" ∷ lit "--config=.golangci.yml" ∷ lit "./..." ∷ [])

abbrev pub expected_race : Host → Text → Process
expected_race h root = expected h root root (lit "CGO_ENABLED=1" ∷ []) (lit "go") (
    lit "test"
    ∷ lit "./pkg/..."
    ∷ lit "-race"
    ∷ lit "-coverprofile=coverage.txt"
    ∷ lit "-covermode=atomic"
    ∷ [])

abbrev pub expected_coverage : Host → Text → Process
expected_coverage h root =
    expected h root root [] (lit "go") (
      lit "test"
      ∷ lit "./pkg/..."
      ∷ lit "-coverprofile=coverage.txt"
      ∷ lit "-covermode=atomic"
      ∷ [])

abbrev pub expected_cover : Host → Text → Process
expected_cover h root =
    expected h root root [] (lit "go") (lit "tool" ∷ lit "cover" ∷ lit "-func=coverage.txt" ∷ [])

abbrev pub expected_compile : Host → Text → Process
expected_compile h root =
    expected h root root [] (lit "go") (lit "test" ∷ lit "./..." ∷ lit "-run" ∷ lit "^$" ∷ [])

abbrev pub expected_benchmark : Host → Text → Process
expected_benchmark h root = expected h root root [] (lit "go") (
    lit "test"
    ∷ lit "./benchmarks"
    ∷ lit "-bench"
    ∷ lit
        "Benchmark(GRPC_(PayloadSize_1000Items|StreamLargeDataset_1000Items|BidirectionalStream_100Messages)|REST_(PayloadSize_1000Items|LargeDataset_1000Items|Bidirectional_100Messages))$"
    ∷ lit "-run"
    ∷ lit "^$"
    ∷ lit "-benchmem"
    ∷ lit "-benchtime=300ms"
    ∷ lit "-count=1"
    ∷ [])
