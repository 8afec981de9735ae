-- ===== src/Runner/Benchmarks.antt =====
-- Benchmark output as records, the gates on them and the coverage total. The numbers are float64, a
-- parameter `F` with the operations that the code uses, strconv.ParseFloat among them.
use grpc_tunnel.Prelude.{
  ℕ, Bool, true, false, ◌&&◌, ◌||◌, not, Option, none, some, List, [], ◌∷◌, length, drop, get_or,
  leb, ltb, ◌==◌, if◌then◌else◌,
}
use grpc_tunnel.Prelude.Text.{Text, lit, text_eq, is_empty, is_space, trim_space, has_prefix}
use grpc_tunnel.Prelude.Dict.{lookup, insert}
use grpc_tunnel.Runner.{
  no_records, missing_records, missing_metrics, bad_denominator, low_savings, Ending, failed,
  finished,
}

-- float64. `decimal` is the number of a literal of the source.
pub record Numbers (F : Type 0) : Type 0 where
  pub parse_float : Text → Option F
  pub zero_of : F
  pub one : F
  pub hundred : F
  pub minus : F → F → F
  pub over : F → F → F
  pub times : F → F → F
  pub less : F → F → Bool
  pub less_eq : F → F → Bool
  pub same : F → F → Bool
  pub decimal : Text → F

pub record BenchmarkRecord (F : Type 0) : Type 0 where
  pub benchmark_name : Text
  pub ns_per_op : F
  pub bytes_per_op : F
  pub allocs_per_op : F
  pub kilobytes_per_op : F
  pub has_kilobytes_metric : Bool

pub record GateResult (F : Type 0) : Type 0 where
  pub payload_savings_percent : F
  pub bidi_memory_savings_percent : F
  pub bidi_allocs_savings_percent : F
  pub large_memory_savings_percent : F

abbrev push_letter : ℕ → List Text → List Text
push_letter c [] = (c ∷ []) ∷ []
push_letter c (word ∷ words) = (c ∷ word) ∷ words

-- strings.Split at a newline
unfoldable pub split_lines : Text → List Text
split_lines [] = [] ∷ []
split_lines (c ∷ s) =
    let rest = split_lines s in if c == b'\n' then [] ∷ rest else push_letter c rest

abbrev pub add_word : Text → List Text → List Text
add_word [] words = words
add_word (c ∷ word) words = (c ∷ word) ∷ words

-- strings.Fields, as the word at the start and those after it.
unfoldable pub words_of : Text → Text × List Text
unfolding is_space
words_of [] = ([], [])
words_of (c ∷ s) =
    let rest = words_of s in
    if is_space c then ([], add_word rest.0 rest.1) else (c ∷ rest.0, rest.1)

unfoldable pub fields : Text → List Text
unfolding words_of
fields s = add_word (words_of s).0 (words_of s).1

abbrev is_digit : ℕ → Bool
is_digit c = leb b'0' c && leb c b'9'

unfoldable pub all_digits : Text → Bool
all_digits [] = true
all_digits (c ∷ s) = is_digit c && all_digits s

-- The suffix -\d+ is stripped.
unfoldable pub parse_benchmark_name : Text → Text
unfolding all_digits
parse_benchmark_name [] = []
parse_benchmark_name (c ∷ s) =
    let rest = parse_benchmark_name s in
    if (c == b'-') && not (is_empty s) && all_digits s then [] else c ∷ rest

module _ {F : Type 0} (n : Numbers F) where
  -- A metric is stored under its unit.
  unfoldable pub store_metric : Option F → Text → BenchmarkRecord F → BenchmarkRecord F
  unfolding text_eq
  store_metric none unit r = r
  store_metric (some v) unit r =
      if text_eq unit (lit "ns/op")
      then record r { ns_per_op = v }
      else if text_eq unit (lit "B/op")
      then record r { bytes_per_op = v }
      else if text_eq unit (lit "allocs/op")
      then record r { allocs_per_op = v }
      else if text_eq unit (lit "KB/op")
      then record r { kilobytes_per_op = v; has_kilobytes_metric = true }
      else r

  -- The loop over values and units.
  unfoldable pub store_metrics : List Text → BenchmarkRecord F → BenchmarkRecord F
  unfolding store_metric
  store_metrics [] r = r
  store_metrics (value ∷ []) r = r
  store_metrics (value ∷ unit ∷ more) r =
      store_metrics more (store_metric (n.parse_float value) unit r)

  abbrev pub empty_record : Text → BenchmarkRecord F
  empty_record name = record {
    benchmark_name = name;
    ns_per_op = n.zero_of;
    bytes_per_op = n.zero_of;
    allocs_per_op = n.zero_of;
    kilobytes_per_op = n.zero_of;
    has_kilobytes_metric = false;
  }

  unfoldable pub store_line :
      Text → List (Text × BenchmarkRecord F) → List (Text × BenchmarkRecord F)
  unfolding trim_space has_prefix fields parse_benchmark_name store_metrics insert
  store_line line records =
      let line = trim_space line in
      let words = fields line in
      if not (has_prefix line (lit "Benchmark"))
      then records
      else if ltb (length words) 8
      then records
      else let name = parse_benchmark_name (get_or words 0 []) in
        insert name (store_metrics (drop 2 words) (empty_record name)) records

  unfoldable pub store_lines :
      List Text → List (Text × BenchmarkRecord F) → List (Text × BenchmarkRecord F)
  unfolding store_line
  store_lines [] records = records
  store_lines (line ∷ lines) records = store_lines lines (store_line line records)

  abbrev pub or_no_records :
      List (Text × BenchmarkRecord F) → Ending (List (Text × BenchmarkRecord F))
  or_no_records [] = failed no_records
  or_no_records (x ∷ records) = finished (x ∷ records)

  unfoldable pub parse_benchmark_records : Text → Ending (List (Text × BenchmarkRecord F))
  unfolding store_lines split_lines
  parse_benchmark_records output = or_no_records (store_lines (split_lines output) [])

  abbrev pub savings : F → F → F
  savings ours theirs = n.minus n.one (n.over ours theirs)

  -- The gates on the six records that are there.
  unfoldable pub judge_records :
      (grpc_payload rest_payload grpc_bidi rest_bidi grpc_large rest_large : BenchmarkRecord F)
      → Ending (GateResult F)
  judge_records grpc_payload rest_payload grpc_bidi rest_bidi grpc_large rest_large =
      let payload = savings grpc_payload.kilobytes_per_op rest_payload.kilobytes_per_op in
      let bidi_memory = savings grpc_bidi.bytes_per_op rest_bidi.bytes_per_op in
      let bidi_allocs = savings grpc_bidi.allocs_per_op rest_bidi.allocs_per_op in
      let large_memory = savings grpc_large.bytes_per_op rest_large.bytes_per_op in
      if not grpc_payload.has_kilobytes_metric || not rest_payload.has_kilobytes_metric
      then failed missing_metrics
      else if n.less_eq rest_payload.kilobytes_per_op n.zero_of
          || n.less_eq rest_bidi.bytes_per_op n.zero_of
          || n.less_eq rest_bidi.allocs_per_op n.zero_of
          || n.less_eq rest_large.bytes_per_op n.zero_of
      then failed bad_denominator
      else if n.less payload (n.decimal (lit "0.15"))
      then failed low_savings
      else if n.less bidi_memory (n.decimal (lit "0.40"))
      then failed low_savings
      else if n.less bidi_allocs (n.decimal (lit "0.30"))
      then failed low_savings
      else if n.less large_memory (n.decimal (lit "0.05"))
      then failed low_savings
      else finished (record {
        payload_savings_percent = n.times payload n.hundred;
        bidi_memory_savings_percent = n.times bidi_memory n.hundred;
        bidi_allocs_savings_percent = n.times bidi_allocs n.hundred;
        large_memory_savings_percent = n.times large_memory n.hundred;
      })

  abbrev pub judge_found :
      Option (BenchmarkRecord F)
      → Option (BenchmarkRecord F)
      → Option (BenchmarkRecord F)
      → Option (BenchmarkRecord F)
      → Option (BenchmarkRecord F)
      → Option (BenchmarkRecord F)
      → Ending (GateResult F)
  judge_found (some a) (some b) (some c) (some d) (some e) (some f) = judge_records a b c d e f
  judge_found a b c d e f = failed missing_records

  unfoldable pub build_benchmark_gate_result :
      List (Text × BenchmarkRecord F) → Ending (GateResult F)
  unfolding judge_records lookup
  build_benchmark_gate_result records =
      judge_found (lookup (lit "BenchmarkGRPC_PayloadSize_1000Items") records)
        (lookup (lit "BenchmarkREST_PayloadSize_1000Items") records)
        (lookup (lit "BenchmarkGRPC_BidirectionalStream_100Messages") records)
        (lookup (lit "BenchmarkREST_Bidirectional_100Messages") records)
        (lookup (lit "BenchmarkGRPC_StreamLargeDataset_1000Items") records)
        (lookup (lit "BenchmarkREST_LargeDataset_1000Items") records)

  unfoldable pub build_percent_delta : F → F → F
  build_percent_delta baseline current =
      if n.same baseline n.zero_of
      then if n.same current n.zero_of then n.zero_of else n.hundred
      else n.times (n.over (n.minus current baseline) baseline) n.hundred
