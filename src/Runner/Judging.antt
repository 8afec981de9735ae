-- ===== src/Runner/Judging.antt =====
-- When the benchmark gates of tools/runner.go pass, record by record.
use grpc_tunnel.Prelude.{
  Bool, true, false, ◌||◌, not, Option, none, some, List, ◌≡◌, refl, if◌then◌else◌, arith, ◌↔◌,
}
use grpc_tunnel.Prelude.Text.{Text, lit}
use grpc_tunnel.Prelude.Dict.{lookup}
use grpc_tunnel.Runner.{missing_metrics, bad_denominator, low_savings, failed, finished}
use grpc_tunnel.Runner.Benchmarks.{
  Numbers, BenchmarkRecord, GateResult, judge_records, judge_found, build_benchmark_gate_result,
}

module _ {F : Type 0} (n : Numbers F) where
  -- A REST figure that can be divided by: it is above zero.
  abbrev IsDenominator : F → Type 0
  IsDenominator theirs = n.less_eq theirs n.zero_of ≡ false

  -- The part saved, 1 - ours / theirs, is not below a least one.
  abbrev Saves : F → F → Text → Type 0
  Saves ours theirs least = n.less (n.minus n.one (n.over ours theirs)) (n.decimal least) ≡ false

  abbrev percent_saved : F → F → F
  percent_saved ours theirs = n.times (n.minus n.one (n.over ours theirs)) n.hundred

  -- The gates on the six records, and the result.
  abbrev pub ArePassed :
      (grpc_payload rest_payload grpc_bidi rest_bidi grpc_large rest_large : BenchmarkRecord F)
      → GateResult F
      → Type 0
  ArePassed grpc_payload rest_payload grpc_bidi rest_bidi grpc_large rest_large result =
      (grpc_payload.has_kilobytes_metric ≡ true)
      × (rest_payload.has_kilobytes_metric ≡ true)
      × IsDenominator rest_payload.kilobytes_per_op
      × IsDenominator rest_bidi.bytes_per_op
      × IsDenominator rest_bidi.allocs_per_op
      × IsDenominator rest_large.bytes_per_op
      × Saves grpc_payload.kilobytes_per_op rest_payload.kilobytes_per_op (lit "0.15")
      × Saves grpc_bidi.bytes_per_op rest_bidi.bytes_per_op (lit "0.40")
      × Saves grpc_bidi.allocs_per_op rest_bidi.allocs_per_op (lit "0.30")
      × Saves grpc_large.bytes_per_op rest_large.bytes_per_op (lit "0.05")
      × (result ≡ record {
        payload_savings_percent =
            percent_saved grpc_payload.kilobytes_per_op rest_payload.kilobytes_per_op;
        bidi_memory_savings_percent = percent_saved grpc_bidi.bytes_per_op rest_bidi.bytes_per_op;
        bidi_allocs_savings_percent = percent_saved grpc_bidi.allocs_per_op rest_bidi.allocs_per_op;
        large_memory_savings_percent =
            percent_saved grpc_large.bytes_per_op rest_large.bytes_per_op;
      })

  -- The six records are there, under their names, and pass.
  pub record PassesGates (records : List (Text × BenchmarkRecord F)) (result : GateResult F)
      : Type 0 where
    pub grpc_payload : BenchmarkRecord F
    pub rest_payload : BenchmarkRecord F
    pub grpc_bidi : BenchmarkRecord F
    pub rest_bidi : BenchmarkRecord F
    pub grpc_large : BenchmarkRecord F
    pub rest_large : BenchmarkRecord F
    pub grpc_payload_found :
        lookup (lit "BenchmarkGRPC_PayloadSize_1000Items") records ≡ some grpc_payload
    pub rest_payload_found :
        lookup (lit "BenchmarkREST_PayloadSize_1000Items") records ≡ some rest_payload
    pub grpc_bidi_found :
        lookup (lit "BenchmarkGRPC_BidirectionalStream_100Messages") records ≡ some grpc_bidi
    pub rest_bidi_found :
        lookup (lit "BenchmarkREST_Bidirectional_100Messages") records ≡ some rest_bidi
    pub grpc_large_found :
        lookup (lit "BenchmarkGRPC_StreamLargeDataset_1000Items") records ≡ some grpc_large
    pub rest_large_found :
        lookup (lit "BenchmarkREST_LargeDataset_1000Items") records ≡ some rest_large
    pub passed :
        ArePassed grpc_payload rest_payload grpc_bidi rest_bidi grpc_large rest_large result

finished_same : {A : Type 0} (a b : A) → finished a ≡ finished b → b ≡ a
finished_same a b h = ground arith

-- Six checks one after the other, before a result.
all_passed :
    {A : Type 0} (metrics denominators payload memory allocs large : Bool) (r result : A)
    → (if metrics
        then failed missing_metrics
        else if denominators
        then failed bad_denominator
        else if payload
        then failed low_savings
        else if memory
        then failed low_savings
        else if allocs
        then failed low_savings
        else if large
        then failed low_savings
        else finished r)
      ≡ finished result
    → (metrics ≡ false)
      × (denominators ≡ false)
      × (payload ≡ false)
      × (memory ≡ false)
      × (allocs ≡ false)
      × (large ≡ false)
      × (result ≡ r)
all_passed true d p m a l r result h = absurd (ground arith)
all_passed false true p m a l r result h = absurd (ground arith)
all_passed false false true m a l r result h = absurd (ground arith)
all_passed false false false true a l r result h = absurd (ground arith)
all_passed false false false false true l r result h = absurd (ground arith)
all_passed false false false false false true r result h = absurd (ground arith)
all_passed false false false false false false r result h =
    (refl, refl, refl, refl, refl, refl, finished_same r result h)

neither : (a b : Bool) → (a || b) ≡ false → (a ≡ false) × (b ≡ false)
neither true b h = absurd (ground arith)
neither false b h = (refl, h)

none_of :
    (a b c d : Bool)
    → (a || b || c || d) ≡ false
    → (a ≡ false) × (b ≡ false) × (c ≡ false) × (d ≡ false)
none_of a b c d h =
    let (h, fd) = neither (a || b || c) d h in
    let (h, fc) = neither (a || b) c h in let (fa, fb) = neither a b h in (fa, fb, fc, fd)

negated : (a : Bool) → not a ≡ false → a ≡ true
negated true h = refl
negated false h = absurd (ground arith)

module _ {F : Type 0} (n : Numbers F) where
  abbrev below : F → F → Text → Bool
  below ours theirs least = n.less (n.minus n.one (n.over ours theirs)) (n.decimal least)

  abbrev result_of : (a b c d e f : BenchmarkRecord F) → GateResult F
  result_of a b c d e f = record {
    payload_savings_percent = percent_saved n a.kilobytes_per_op b.kilobytes_per_op;
    bidi_memory_savings_percent = percent_saved n c.bytes_per_op d.bytes_per_op;
    bidi_allocs_savings_percent = percent_saved n c.allocs_per_op d.allocs_per_op;
    large_memory_savings_percent = percent_saved n e.bytes_per_op f.bytes_per_op;
  }

  judged-ArePassed :
      (a b c d e f : BenchmarkRecord F) (result : GateResult F)
      → judge_records n a b c d e f ≡ finished result
      → ArePassed n a b c d e f result
  unfolding judge_records
  judged-ArePassed a b c d e f result h =
      let (metrics, denominators, s1, s2, s3, s4, same) =
        all_passed (not a.has_kilobytes_metric || not b.has_kilobytes_metric)
          (n.less_eq b.kilobytes_per_op n.zero_of
            || n.less_eq d.bytes_per_op n.zero_of
            || n.less_eq d.allocs_per_op n.zero_of
            || n.less_eq f.bytes_per_op n.zero_of)
          (below a.kilobytes_per_op b.kilobytes_per_op (lit "0.15"))
          (below c.bytes_per_op d.bytes_per_op (lit "0.40"))
          (below c.allocs_per_op d.allocs_per_op (lit "0.30"))
          (below e.bytes_per_op f.bytes_per_op (lit "0.05")) (result_of a b c d e f) result h in
      let (ours, theirs) =
        neither (not a.has_kilobytes_metric) (not b.has_kilobytes_metric) metrics in
      let (payload, memory, allocs, large) = none_of _ _ _ _ denominators in
      (negated _ ours, negated _ theirs, payload, memory, allocs, large, s1, s2, s3, s4, same)

  ArePassed-judged :
      (a b c d e f : BenchmarkRecord F) (result : GateResult F)
      → ArePassed n a b c d e f result
      → judge_records n a b c d e f ≡ finished result
  unfolding judge_records
  ArePassed-judged a b c d e f result
        (ours, theirs, payload, memory, allocs, large, s1, s2, s3, s4, same) =
      rw (ours, theirs, payload, memory, allocs, large, s1, s2, s3, s4, same) refl

  found-PassesGates :
      (oa ob oc od oe of : Option (BenchmarkRecord F)) (result : GateResult F)
      → judge_found n oa ob oc od oe of ≡ finished result
      → (a : BenchmarkRecord F) × ((b : BenchmarkRecord F) × ((c : BenchmarkRecord F)
            × ((d : BenchmarkRecord F) × ((e : BenchmarkRecord F) × ((f : BenchmarkRecord F) × ((oa
                        ≡ some a)
                      × (ob ≡ some b)
                      × (oc ≡ some c)
                      × (od ≡ some d)
                      × (oe ≡ some e)
                      × (of ≡ some f)
                      × (judge_records n a b c d e f ≡ finished result)))))))
  found-PassesGates none ob oc od oe of result h = absurd (ground arith)
  found-PassesGates (some a) none oc od oe of result h = absurd (ground arith)
  found-PassesGates (some a) (some b) none od oe of result h = absurd (ground arith)
  found-PassesGates (some a) (some b) (some c) none oe of result h = absurd (ground arith)
  found-PassesGates (some a) (some b) (some c) (some d) none of result h = absurd (ground arith)
  found-PassesGates (some a) (some b) (some c) (some d) (some e) none result h =
      absurd (ground arith)
  found-PassesGates (some a) (some b) (some c) (some d) (some e) (some f) result h =
      (a, (b, (c, (d, (e, (f, (refl, refl, refl, refl, refl, refl, h)))))))

  -- The gates give a result exactly if the six records are there and pass them, and the result is
  -- the four savings in percent.
  pub build_benchmark_gate_result-PassesGates :
      (records : List (Text × BenchmarkRecord F)) (result : GateResult F)
      → (build_benchmark_gate_result n records ≡ finished result) ↔ PassesGates n records result
  unfolding build_benchmark_gate_result
  build_benchmark_gate_result-PassesGates records result = (
    λ h.
        let (a, (b, (c, (d, (e, (f, (fa, fb, fc, fd, fe, ff, j))))))) =
          found-PassesGates _ _ _ _ _ _ result h in
        record {
          grpc_payload = a;
          rest_payload = b;
          grpc_bidi = c;
          rest_bidi = d;
          grpc_large = e;
          rest_large = f;
          grpc_payload_found = fa;
          rest_payload_found = fb;
          grpc_bidi_found = fc;
          rest_bidi_found = fd;
          grpc_large_found = fe;
          rest_large_found = ff;
          passed = judged-ArePassed a b c d e f result j;
        },
    λ p.
        rw
          (
            p.grpc_payload_found, p.rest_payload_found, p.grpc_bidi_found, p.rest_bidi_found,
            p.grpc_large_found, p.rest_large_found,
          )
          (ArePassed-judged p.grpc_payload p.rest_payload p.grpc_bidi p.rest_bidi p.grpc_large
            p.rest_large result p.passed),
  )
