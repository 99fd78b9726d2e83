-- ===== src/Collector/Metrics.antt =====
-- collector/prom_metrics.go: the totals of each pod, and the key that names a pod's series.
use e_bpf_kubernetes_operato.Common.{
  ℕ, ◌+◌, ◌-◌, ◌/◌, Option, none, some, List, [], ◌∷◌, ◌++◌, ◌==◌, ltb, if◌then◌else◌, value_or,
}
use e_bpf_kubernetes_operato.Common.Text.{Text, text_eq}
use e_bpf_kubernetes_operato.Common.Words.{add64}
use e_bpf_kubernetes_operato.Bpf.Table.{find, put}
use e_bpf_kubernetes_operato.Collector.Classify.{kind_text}
use e_bpf_kubernetes_operato.Collector.Rows.{Row}
pub mod Keys
pub mod Sums

pub record Aggregate : Type 0 where
  pub io_count : ℕ
  pub total_bytes : ℕ
  pub total_latency_ns : ℕ
  pub error_count : ℕ
  pub runq_events : ℕ
  pub runq_latency_ns : ℕ
  pub avg : ℕ

pub record Labels : Type 0 where
  pub kind : Text
  pub pod_uid : Text

abbrev pub no_aggregate : Aggregate
no_aggregate = record {
  io_count = 0;
  total_bytes = 0;
  total_latency_ns = 0;
  error_count = 0;
  runq_events = 0;
  runq_latency_ns = 0;
  avg = 0;
}

abbrev pub labels_of : Row → Labels
labels_of r = record { kind = kind_text r.cgroup_kind; pod_uid = r.kube_info.pod_uid }

-- `labels["kind"] + "|" + labels["pod_uid"]`
abbrev pub key_of : Labels → Text
key_of l = l.kind ++ (b'|' ∷ l.pod_uid)

unfoldable pub add_row : Row → Aggregate → Aggregate
add_row r a =
    let ios = add64 a.io_count r.stats.io_count in
    let latency = add64 a.total_latency_ns r.stats.total_latency_ns in
    record {
      io_count = ios;
      total_bytes = add64 a.total_bytes r.stats.total_bytes;
      total_latency_ns = latency;
      error_count = add64 a.error_count r.stats.error_count;
      runq_events = add64 a.runq_events r.runq_stats.count;
      runq_latency_ns = add64 a.runq_latency_ns r.runq_stats.total_latency_ns;
      avg = if ltb 0 ios then latency / ios else a.avg;
    }

-- the loop over the rows: `current[key]` is the zero value where there is no entry
unfoldable pub aggregate_rows : List Row → List (Text × Aggregate) → List (Text × Aggregate)
aggregate_rows [] current = current
aggregate_rows (r ∷ rows) current =
    let key = key_of (labels_of r) in
    let a = value_or (find text_eq current key) no_aggregate in
    aggregate_rows rows (put text_eq current key (add_row r a))

-- `deltaFloat`, before the conversion to a float
unfoldable pub delta : ℕ → ℕ → ℕ
delta curr prev = if ltb curr prev then curr else curr - prev

-- the loop to the first separator
unfoldable pub split_key : Text → Option Labels
split_key [] = none
split_key (b ∷ key) =
    let rest = split_key key in
    if b == b'|'
    then some (record { kind = []; pod_uid = key })
    else elim rest [ none ↦ none | some l ↦ some (record l { kind = b ∷ l.kind }) ]

unfoldable pub labels_from_key : Text → Labels
unfolding split_key
labels_from_key key = elim (split_key key) [
  | none ↦ record { kind = []; pod_uid = [] }
  | some l ↦ l
]
