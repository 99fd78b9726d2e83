-- ===== src/Tests/Collector.antt =====
-- Runs of the collector's functions.
use e_bpf_kubernetes_operato.Common.{ℕ, ◌≡◌, refl, arith, true, List, [], ◌∷◌, ◌++◌}
use e_bpf_kubernetes_operato.Common.Text.{Text, codes}
use e_bpf_kubernetes_operato.Common.Words.{add64}
use e_bpf_kubernetes_operato.Collector.Classify.{kubernetes}
use e_bpf_kubernetes_operato.Collector.Rows.{Row, no_io, no_runq}
use e_bpf_kubernetes_operato.Collector.Metrics.{
  labels_of, key_of, labels_from_key, add_row, aggregate_rows,
}
use e_bpf_kubernetes_operato.Collector.Metrics.Keys.{labels_from_key-key_of}
use e_bpf_kubernetes_operato.Collector.Metrics.Sums.{total, row_key}
use e_bpf_kubernetes_operato.Common.{◌+◌, Option, none, some, value_or, if◌then◌else◌}
use e_bpf_kubernetes_operato.Collector.Metrics.{Labels, delta}
use e_bpf_kubernetes_operato.Collector.Series.{
  Vectors, PromMetrics, same_labels, collect_labels, publish, publish_all, drop_gone, update,
}
use e_bpf_kubernetes_operato.Collector.Series.Update.{operations}
use e_bpf_kubernetes_operato.Collector.Series.Follow.{
  IsExact, Shows, follow_all, totals_in, update_all, update_all-Shows,
}

abbrev uid_path : Text
uid_path = codes "12345678_1234_1234_1234_123456789abc"

abbrev slice_path : Text
slice_path = codes "/kubepods.slice/kubepods-"

abbrev pod_path : Text
pod_path = slice_path ++ (codes "pod" ++ (uid_path ++ codes ".slice"))

abbrev pub pod_row : ℕ → ℕ → Row
pod_row ios latency = record {
  cgroup_id = 7;
  cgroup_path = pod_path;
  cgroup_kind = kubernetes;
  kube_info = record {
    is_kubernetes = true;
    pod_uid = codes "12345678-1234";
    container_id = [];
    runtime = [];
  };
  stats = record no_io { io_count = ios; total_latency_ns = latency };
  runq_stats = no_runq;
  avg_ns = 0;
}

abbrev two_rows : List Row
two_rows = pod_row 2 50 ∷ pod_row 3 60 ∷ []

two_rows_average : (total (aggregate_rows two_rows []) (row_key (pod_row 2 50))).avg ≡ 22
unfolding aggregate_rows add_row add64
two_rows_average = refl

labels_from_key-key_of_example :
    labels_from_key (key_of (labels_of (pod_row 2 50))) ≡ labels_of (pod_row 2 50)
labels_from_key-key_of_example = labels_from_key-key_of (pod_row 2 50)

-- vectors of numbers, as functions of the labels
abbrev pub vectors : Vectors
vectors = record {
  Float = ℕ;
  zero = 0;
  plus = ◌+◌;
  of_u64 = λ n. n;
  State = Labels → Option ℕ;
  value = λ s l. s l;
  add = λ s l x m. if same_labels l m then some (value_or (s l) 0 + x) else s m;
  assign = λ s l x m. if same_labels l m then some x else s m;
  delete = λ s l m. if same_labels l m then none else s m;
  value-add = λ s l m x. refl;
  value-assign = λ s l m x. refl;
  value-delete = λ s l m. refl;
}

abbrev pub no_series : PromMetrics (Labels → Option ℕ)
no_series = record {
  io_count = λ l. none;
  total_bytes = λ l. none;
  total_latency_ns = λ l. none;
  error_count = λ l. none;
  runq_events = λ l. none;
  runq_latency_ns = λ l. none;
  avg_latency_ns = λ l. none;
  prev = [];
}

abbrev one_row : List Row
one_row = pod_row 4 60 ∷ []

-- one of the pod's two control groups is gone: 5 operations are counted first, and 4 again
counted_again :
    (update vectors one_row (update vectors two_rows no_series)).io_count (labels_of (pod_row 2 50))
    ≡ some 9
unfolding delta update aggregate_rows add_row add64 publish publish_all collect_labels drop_gone
counted_again = refl

-- numbers add exactly, up to any limit
pub vectors-IsExact : (limit : ℕ) → IsExact vectors limit
vectors-IsExact limit = record { from_zero = λ n h. omega arith; whole = λ m n h. refl }

-- 5 operations, then one of the two control groups gone, then the pod gone, then back
update_all-Shows_example :
    let l = labels_of (pod_row 2 50) in
    let updates = two_rows ∷ one_row ∷ [] ∷ one_row ∷ two_rows ∷ [] in
    Shows vectors operations l
      (follow_all none (totals_in operations l updates))
      (update_all vectors updates no_series)
unfolding aggregate_rows add_row add64
update_all-Shows_example =
    let l = labels_of (pod_row 2 50) in
    let updates = two_rows ∷ one_row ∷ [] ∷ one_row ∷ two_rows ∷ [] in
    update_all-Shows vectors 100 operations l updates none no_series (vectors-IsExact 100)
      (labels_from_key-key_of (pod_row 2 50))
      (omega arith, (omega arith, (tt, (omega arith, (omega arith, tt)))))
      (record { keyed = tt; value = refl; kept = refl })

followed :
    let l = labels_of (pod_row 2 50) in
    follow_all none (totals_in operations l (two_rows ∷ one_row ∷ [] ∷ one_row ∷ two_rows ∷ []))
    ≡ some (record { shown = 5; last = 5 })
unfolding aggregate_rows add_row add64
followed = refl
