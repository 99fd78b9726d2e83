-- ===== src/Tests/Pipeline.antt =====
-- The runs of both programs, and a reading of the maps that they leave.
use e_bpf_kubernetes_operato.Common.{ℕ, ◌%◌, ◌≡◌, refl, none, some, List, [], ◌∷◌, arith, ◌∙◌}
use e_bpf_kubernetes_operato.Block.Ledger as Io
use e_bpf_kubernetes_operato.Runq.Ledger as Waits
use e_bpf_kubernetes_operato.Collector.Rows.{Row}
use e_bpf_kubernetes_operato.Collector.Read.{Pinned, read_stats}
use e_bpf_kubernetes_operato.Collector.Read.Returned.{IsReading}
use e_bpf_kubernetes_operato.Pipeline.{part_of, amount, total-aggregate_rows}
use e_bpf_kubernetes_operato.Pipeline.Shown.{Sample, rows_of, value-true_sum}
use e_bpf_kubernetes_operato.Common.Words.{u64_mod}
use e_bpf_kubernetes_operato.Collector.Metrics.{labels_of}
use e_bpf_kubernetes_operato.Collector.Metrics.Keys.{labels_from_key-key_of}
use e_bpf_kubernetes_operato.Collector.Metrics.Sums.{sum_for}
use e_bpf_kubernetes_operato.Collector.Series.Follow.{update_all}
use e_bpf_kubernetes_operato.Collector.Series.Update.{
  Counter, operations, bytes, latency, errors, events, waiting,
}
use e_bpf_kubernetes_operato.Pipeline.Totals.{IsPinned, IsTrue, read_stats-IsTrue}
use e_bpf_kubernetes_operato.Tests.Block as BlockRun
use e_bpf_kubernetes_operato.Tests.Runq as RunqRun
use e_bpf_kubernetes_operato.Tests.Pinned.{blocks, runqs, resolve}
use e_bpf_kubernetes_operato.Tests.Collector.{vectors, vectors-IsExact, no_series, pod_row}
use e_bpf_kubernetes_operato.Tests.Sorting.{sort_rows, sort_rows-IsSorting}

abbrev left : Pinned blocks runqs
left = record {
  block_map =
      (7, record { io_count = 1; total_latency_ns = 60; total_bytes = 512; error_count = 1 }) ∷ [];
  runq_map = some ((7, record { count = 1; total_latency_ns = 30 }) ∷ []);
}

left-IsPinned :
    IsPinned BlockRun.starts BlockRun.stats RunqRun.starts RunqRun.stats blocks runqs
      (Io.fire_all BlockRun.starts BlockRun.stats BlockRun.events BlockRun.empty_maps)
      (Waits.trace_all RunqRun.starts RunqRun.stats RunqRun.events RunqRun.empty_maps)
      left
left-IsPinned = record {
  io = λ k. ground (arith, BlockRun.totals_after);
  rq = λ k. ground (arith, RunqRun.maps_after);
}

read_stats-IsTrue_example :
    (rows : List Row) × ((read_stats blocks runqs resolve sort_rows left).rows ≡ some rows)
    × IsReading blocks runqs resolve sort_rows left rows
    × IsTrue
        (Io.record_events BlockRun.events BlockRun.empty_ledger)
        (Waits.record_events RunqRun.events RunqRun.empty_ledger)
        rows
read_stats-IsTrue_example =
    read_stats-IsTrue BlockRun.starts BlockRun.stats RunqRun.starts RunqRun.stats blocks runqs
      resolve sort_rows 0 0 BlockRun.empty_ledger RunqRun.empty_ledger BlockRun.empty_maps
      RunqRun.empty_maps BlockRun.events RunqRun.events left BlockRun.empty_Holds
      BlockRun.events-Runs RunqRun.empty_Holds RunqRun.events-Runs left-IsPinned sort_rows-IsSorting
      refl refl (refl, tt) (refl, tt)

-- a reading of one control group of a pod, and the ledgers that it agrees with
abbrev sample : ℕ → ℕ → Sample
sample ios spent = record {
  rows = pod_row ios spent ∷ [];
  io = record {
    pending = λ j. none;
    totals = λ j. some (record { ios = ios; latency = spent; bytes = 0; errors = 0 });
  };
  rq = RunqRun.empty_ledger;
}

sample-IsTrue : (ios spent : ℕ) → let x = sample ios spent in IsTrue x.io x.rq x.rows
sample-IsTrue ios spent c k = total-aggregate_rows c (pod_row ios spent ∷ []) k ∙ same c
  where
    same :
        (c : Counter)
        → let x = sample ios spent in
          sum_for (part_of c) k x.rows % u64_mod
          ≡ sum_for (λ r. amount c x.io x.rq r.cgroup_id) k x.rows % u64_mod
    same operations = refl
    same bytes = refl
    same latency = refl
    same errors = refl
    same events = refl
    same waiting = refl

value-true_sum_example :
    (update_all vectors (rows_of (sample 2 50 ∷ sample 5 90 ∷ [])) no_series).io_count
      (labels_of (pod_row 2 50))
    ≡ some 5
value-true_sum_example =
    value-true_sum vectors 100 (vectors-IsExact 100) (omega arith) operations
      (labels_of (pod_row 2 50)) (labels_from_key-key_of (pod_row 2 50)) (sample 2 50)
      (sample 5 90 ∷ []) no_series
      (
        sample-IsTrue 2 50,
        refl,
        omega arith,
        omega arith,
        (sample-IsTrue 5 90, refl, omega arith, omega arith, tt),
      )
      (record { keyed = tt; value = refl; kept = refl })
