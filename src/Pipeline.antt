-- ===== src/Pipeline.antt =====
-- The programs and the collector together: what `readStats` of collector/main.go and the totals of
-- collector/prom_metrics.go make of the maps that the programs of ebpf/latency left,
-- and the pods that operator/pkg/evaluator finds by the labels.
pub mod Totals
pub mod Shown
pub mod Labels
pub mod Selected
use mathlib.Core.List.{Mem, mem-cons_self, mem-cons_of_mem}
use mathlib.Core.Option
use e_bpf_kubernetes_operato.Common.{
  ℕ, ◌+◌, ◌%◌, true, Bool, Option, none, some, List, [], ◌∷◌, ◌≡◌, ◌==◌, refl, sym, ap, ◌∙◌, arith,
  value_or, if◌then◌else◌, Bool-cases, inl, inr,
}
use e_bpf_kubernetes_operato.Common.Text.{Text, text_eq}
use e_bpf_kubernetes_operato.Common.Words.{u64_mod}
use e_bpf_kubernetes_operato.Block
use e_bpf_kubernetes_operato.Block.Ledger as Io
use e_bpf_kubernetes_operato.Runq
use e_bpf_kubernetes_operato.Runq.Ledger as Waits
use e_bpf_kubernetes_operato.Collector.Metrics.{Aggregate, aggregate_rows}
use e_bpf_kubernetes_operato.Collector.Metrics.Sums.{row_key, sum_for, total, aggregate_rows-total}
use e_bpf_kubernetes_operato.Collector.Read.Merge.{row_for}
use e_bpf_kubernetes_operato.Collector.Rows.{
  CgroupIoStats, CgroupRunqStats, Row, no_io, no_runq, block_row, runq_row,
}
use e_bpf_kubernetes_operato.Collector.Series.Update.{
  Counter, operations, bytes, latency, errors, events, waiting, total_of,
}

-- the structs of the two sides have the same fields
abbrev pub io_stats : Block.CgroupIoStats → CgroupIoStats
io_stats s = record {
  io_count = s.io_count;
  total_latency_ns = s.total_latency_ns;
  total_bytes = s.total_bytes;
  error_count = s.error_count;
}

abbrev pub runq_stats : Runq.CgroupRunqStats → CgroupRunqStats
runq_stats s = record { count = s.count; total_latency_ns = s.total_latency_ns }

-- the number of a row that each counter sums
abbrev pub part_of : Counter → Row → ℕ
part_of operations r = r.stats.io_count
part_of bytes r = r.stats.total_bytes
part_of latency r = r.stats.total_latency_ns
part_of errors r = r.stats.error_count
part_of events r = r.runq_stats.count
part_of waiting r = r.runq_stats.total_latency_ns

-- the true number of a cgroup, by the ledgers
abbrev pub amount : Counter → Io.Ledger → Waits.Ledger → ℕ → ℕ
amount operations io rq k = (value_or (io.totals k) Io.no_totals).ios
amount bytes io rq k = (value_or (io.totals k) Io.no_totals).bytes
amount latency io rq k = (value_or (io.totals k) Io.no_totals).latency
amount errors io rq k = (value_or (io.totals k) Io.no_totals).errors
amount events io rq k = (value_or (rq.totals k) Waits.no_totals).waits
amount waiting io rq k = (value_or (rq.totals k) Waits.no_totals).latency

pub total-aggregate_rows :
    (c : Counter) (rows : List Row) (k : Text)
    → total_of c (total (aggregate_rows rows []) k) ≡ sum_for (part_of c) k rows % u64_mod
total-aggregate_rows operations rows k = (aggregate_rows-total rows k).1
total-aggregate_rows bytes rows k = (aggregate_rows-total rows k).2
total-aggregate_rows latency rows k = (aggregate_rows-total rows k).3
total-aggregate_rows errors rows k = (aggregate_rows-total rows k).4
total-aggregate_rows events rows k = (aggregate_rows-total rows k).5
total-aggregate_rows waiting rows k = (aggregate_rows-total rows k).6

-- sums of residues
pub sum_for-mod :
    (part whole : Row → ℕ) (k : Text) (rows : List Row)
    → ((r : Row) → Mem r rows → part r ≡ whole r % u64_mod)
    → sum_for part k rows % u64_mod ≡ sum_for whole k rows % u64_mod
sum_for-mod part whole k [] h = refl
sum_for-mod part whole k (r ∷ rows) h =
    let ih = sum_for-mod part whole k rows (λ q m. h q (mem-cons_of_mem r m)) in
    elim (Bool-cases (text_eq (row_key r) k)) [
      | inl e ↦ rw e (omega (arith, ih, h r mem-cons_self))
      | inr e ↦ rw e ih
    ]

pub stats-row_for :
    (resolve : ℕ → Text) (k : ℕ) (io : Option CgroupIoStats) (rq : Option CgroupRunqStats) (r : Row)
    → row_for resolve k io rq ≡ some r
    → (r.stats ≡ value_or io no_io) × (r.runq_stats ≡ value_or rq no_runq)
unfolding block_row runq_row
stats-row_for resolve k none none r e = absurd (ground (arith, e))
stats-row_for resolve k none (some rq) r e = ground (arith, e)
stats-row_for resolve k (some io) none r e = ground (arith, e)
stats-row_for resolve k (some io) (some rq) r e = ground (arith, e)

pub io_stats-wrap :
    (o : Option Io.Totals)
    → value_or (Option.map io_stats (Io.wrap_entry o)) no_io
      ≡ io_stats (Io.wrap (value_or o Io.no_totals))
unfolding Io.wrap
io_stats-wrap none = refl
io_stats-wrap (some t) = refl

pub runq_stats-wrap :
    (o : Option Waits.Totals)
    → value_or (Option.map runq_stats (Waits.wrap_entry o)) no_runq
      ≡ runq_stats (Waits.wrap (value_or o Waits.no_totals))
unfolding Waits.wrap
runq_stats-wrap none = refl
runq_stats-wrap (some t) = refl

pub part_of-wrap :
    (c : Counter) (io : Io.Ledger) (rq : Waits.Ledger) (r : Row)
    → r.stats ≡ io_stats (Io.wrap (value_or (io.totals r.cgroup_id) Io.no_totals))
    → r.runq_stats ≡ runq_stats (Waits.wrap (value_or (rq.totals r.cgroup_id) Waits.no_totals))
    → part_of c r ≡ amount c io rq r.cgroup_id % u64_mod
unfolding Io.wrap Waits.wrap
part_of-wrap operations io rq r e e' = ap (λ x. x.io_count) e
part_of-wrap bytes io rq r e e' = ap (λ x. x.total_bytes) e
part_of-wrap latency io rq r e e' = ap (λ x. x.total_latency_ns) e
part_of-wrap errors io rq r e e' = ap (λ x. x.error_count) e
part_of-wrap events io rq r e e' = ap (λ x. x.count) e'
part_of-wrap waiting io rq r e e' = ap (λ x. x.total_latency_ns) e'
