-- ===== src/Collector/Series.antt =====
-- collector/prom_metrics.go: `Update` on the counters of each pod. The vectors of the Prometheus
-- client are not part of the repository: a parameter with `With(labels).Add`, `Set` and `Delete`,
-- over its own type of floats. Go's order of a loop over a map is not fixed; the model takes one.
pub mod Keyed
pub mod Publish
pub mod Drop
pub mod Update
pub mod Exported
pub mod Follow
use e_bpf_kubernetes_operato.Common.{
  ℕ, Bool, true, false, ◌&&◌, Option, none, some, List, [], ◌∷◌, ◌≡◌, if◌then◌else◌, value_or,
  is_some,
}
use e_bpf_kubernetes_operato.Common.Text.{Text, text_eq}
use e_bpf_kubernetes_operato.Bpf.Table.{find, put, remove}
use e_bpf_kubernetes_operato.Collector.Rows.{Row}
use e_bpf_kubernetes_operato.Collector.Metrics.{
  Aggregate, Labels, no_aggregate, labels_of, key_of, aggregate_rows, delta, labels_from_key,
}

abbrev pub same_labels : Labels → Labels → Bool
same_labels l m = text_eq l.kind m.kind && text_eq l.pod_uid m.pod_uid

pub record Vectors : Type 1 where
  pub Float : Type 0
  pub zero : Float
  pub plus : Float → Float → Float
  pub of_u64 : ℕ → Float
  pub State : Type 0
  pub value : State → Labels → Option Float
  pub add : State → Labels → Float → State
  pub assign : State → Labels → Float → State
  pub delete : State → Labels → State
  -- a series that is not there yet starts at zero
  pub value-add :
      (s : State) (l m : Labels) (x : Float)
      → value (add s l x) m
        ≡ (if same_labels l m then some (plus (value_or (value s l) zero) x) else value s m)
  pub value-assign :
      (s : State) (l m : Labels) (x : Float)
      → value (assign s l x) m ≡ (if same_labels l m then some x else value s m)
  pub value-delete :
      (s : State) (l m : Labels)
      → value (delete s l) m ≡ (if same_labels l m then none else value s m)

pub record PromMetrics (S : Type 0) : Type 0 where
  pub io_count : S
  pub total_bytes : S
  pub total_latency_ns : S
  pub error_count : S
  pub runq_events : S
  pub runq_latency_ns : S
  pub avg_latency_ns : S
  pub prev : List (Text × Aggregate)

abbrev pub no_labels : Labels
no_labels = record { kind = []; pod_uid = [] }

-- `keyLabels`
unfoldable pub collect_labels : List Row → List (Text × Labels) → List (Text × Labels)
collect_labels [] key_labels = key_labels
collect_labels (r ∷ rows) key_labels =
    let l = labels_of r in collect_labels rows (put text_eq key_labels (key_of l) l)

abbrev pub prev_at : List (Text × Aggregate) → Text → Aggregate
prev_at prev key = value_or (find text_eq prev key) no_aggregate

module _ (v : Vectors) where
  abbrev pub count_up : v.State → Labels → ℕ → ℕ → v.State
  count_up s l curr before = v.add s l (v.of_u64 (delta curr before))

  -- one round of the loop over `current`
  unfoldable pub publish : Text → Labels → Aggregate → PromMetrics v.State → PromMetrics v.State
  publish key l a m =
      let p = prev_at m.prev key in
      record {
        io_count = count_up m.io_count l a.io_count p.io_count;
        total_bytes = count_up m.total_bytes l a.total_bytes p.total_bytes;
        total_latency_ns = count_up m.total_latency_ns l a.total_latency_ns p.total_latency_ns;
        error_count = count_up m.error_count l a.error_count p.error_count;
        runq_events = count_up m.runq_events l a.runq_events p.runq_events;
        runq_latency_ns = count_up m.runq_latency_ns l a.runq_latency_ns p.runq_latency_ns;
        avg_latency_ns = v.assign m.avg_latency_ns l (v.of_u64 a.avg);
        prev = put text_eq m.prev key a;
      }

  unfoldable pub publish_all :
      List (Text × Labels) → List (Text × Aggregate) → PromMetrics v.State → PromMetrics v.State
  publish_all key_labels [] m = m
  publish_all key_labels ((key, a) ∷ rest) m =
      publish_all key_labels rest
        (publish key (value_or (find text_eq key_labels key) no_labels) a m)

  -- the series of a pod that disappeared
  unfoldable pub drop : Text → PromMetrics v.State → PromMetrics v.State
  drop key m =
      let l = labels_from_key key in
      record {
        io_count = v.delete m.io_count l;
        total_bytes = v.delete m.total_bytes l;
        total_latency_ns = v.delete m.total_latency_ns l;
        error_count = v.delete m.error_count l;
        runq_events = v.delete m.runq_events l;
        runq_latency_ns = v.delete m.runq_latency_ns l;
        avg_latency_ns = v.delete m.avg_latency_ns l;
        prev = remove text_eq m.prev key;
      }

  unfoldable pub drop_gone :
      List (Text × Aggregate) → List (Text × Aggregate) → PromMetrics v.State → PromMetrics v.State
  drop_gone current [] m = m
  drop_gone current ((key, p) ∷ rest) m =
      drop_gone current rest (if is_some (find text_eq current key) then m else drop key m)

  unfoldable pub update : List Row → PromMetrics v.State → PromMetrics v.State
  update rows m =
      let current = aggregate_rows rows [] in
      let m' = publish_all (collect_labels rows []) current m in drop_gone current m'.prev m'
