-- ===== src/Collector/Rows.antt =====
-- collector/main.go: the rows that `readStats` makes of the two maps. What the iterators yield is a
-- list of entries, and an error of an iterator an `Option`; the resolver is a function.
use e_bpf_kubernetes_operato.Common.{
  ℕ, ◌/◌, Bool, true, none, some, List, [], ◌∷◌, ◌++◌, ◌==◌, ltb, if◌then◌else◌,
}
use e_bpf_kubernetes_operato.Common.Text.{Text, text_eq}
use e_bpf_kubernetes_operato.Bpf.Table.{find, put}
use e_bpf_kubernetes_operato.Collector.Classify.{CgroupKind, unresolved, classify_cgroup_path}
use e_bpf_kubernetes_operato.Collector.KubePath.{KubePathInfo, parse_kube_path}

pub record CgroupIoStats : Type 0 where
  pub io_count : ℕ
  pub total_latency_ns : ℕ
  pub total_bytes : ℕ
  pub error_count : ℕ

pub record CgroupRunqStats : Type 0 where
  pub count : ℕ
  pub total_latency_ns : ℕ

pub record Row : Type 0 where
  pub cgroup_id : ℕ
  pub cgroup_path : Text
  pub cgroup_kind : CgroupKind
  pub kube_info : KubePathInfo
  pub stats : CgroupIoStats
  pub runq_stats : CgroupRunqStats
  pub avg_ns : ℕ

abbrev pub no_io : CgroupIoStats
no_io = record { io_count = 0; total_latency_ns = 0; total_bytes = 0; error_count = 0 }

abbrev pub no_runq : CgroupRunqStats
no_runq = record { count = 0; total_latency_ns = 0 }

unfoldable pub average : CgroupIoStats → ℕ
average val = if ltb 0 val.io_count then val.total_latency_ns / val.io_count else 0

-- the row map, the keys to delete, and whether a cgroup was unknown
pub record Scan : Type 0 where
  pub row_map : List (ℕ × Row)
  pub stale : List ℕ
  pub had_unknown : Bool

module _ (resolve : ℕ → Text) where
  unfoldable pub block_row : ℕ → CgroupIoStats → Row
  block_row key val =
      let path = resolve key in
      record {
        cgroup_id = key;
        cgroup_path = path;
        cgroup_kind = classify_cgroup_path path;
        kube_info = parse_kube_path path;
        stats = val;
        runq_stats = no_runq;
        avg_ns = average val;
      }

  unfoldable pub runq_row : ℕ → CgroupRunqStats → Row
  runq_row key val =
      let path = resolve key in
      record {
        cgroup_id = key;
        cgroup_path = path;
        cgroup_kind = classify_cgroup_path path;
        kube_info = parse_kube_path path;
        stats = no_io;
        runq_stats = val;
        avg_ns = 0;
      }

  -- one round of the loop over the block map
  unfoldable pub block_step : ℕ → CgroupIoStats → Scan → Scan
  block_step key val s =
      if text_eq (resolve key) unresolved
      then record s { stale = s.stale ++ key ∷ []; had_unknown = true }
      else record s { row_map = put ◌==◌ s.row_map key (block_row key val) }

  unfoldable pub scan_block : List (ℕ × CgroupIoStats) → Scan → Scan
  scan_block [] s = s
  scan_block ((key, val) ∷ rest) s = scan_block rest (block_step key val s)

  -- one round of the loop over the run-queue map
  unfoldable pub runq_step : ℕ → CgroupRunqStats → Scan → Scan
  runq_step key val s = elim (find ◌==◌ s.row_map key) [
    | some row ↦ record s { row_map = put ◌==◌ s.row_map key (record row { runq_stats = val }) }
    | none ↦
        if text_eq (resolve key) unresolved
        then record s { stale = s.stale ++ key ∷ []; had_unknown = true }
        else record s { row_map = put ◌==◌ s.row_map key (runq_row key val) }
  ]

  unfoldable pub scan_runq : List (ℕ × CgroupRunqStats) → Scan → Scan
  scan_runq [] s = s
  scan_runq ((key, val) ∷ rest) s = scan_runq rest (runq_step key val s)
