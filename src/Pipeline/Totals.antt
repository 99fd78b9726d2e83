-- ===== src/Pipeline/Totals.antt =====
-- The totals of a pod after runs of the programs and a reading of their maps.
use mathlib.Core.List.{Mem}
use mathlib.Core.Option
use e_bpf_kubernetes_operato.Common.{ℕ, ◌%◌, true, some, List, [], ◌≡◌, ◌==◌, ap, ◌∙◌, value_or}
use e_bpf_kubernetes_operato.Common.Text.{Text}
use e_bpf_kubernetes_operato.Common.Words.{u64_mod}
use e_bpf_kubernetes_operato.Block
use e_bpf_kubernetes_operato.Block.Ledger as Io
use e_bpf_kubernetes_operato.Runq
use e_bpf_kubernetes_operato.Runq.Ledger as Waits
use e_bpf_kubernetes_operato.Runq.Ledger.Refinement.{trace_all-Holds}
use e_bpf_kubernetes_operato.Bpf.Table.{find}
use e_bpf_kubernetes_operato.Collector.Metrics.{aggregate_rows}
use e_bpf_kubernetes_operato.Collector.Metrics.Sums.{sum_for, total}
use e_bpf_kubernetes_operato.Collector.Read.{PinnedMap, Pinned, read_stats}
use e_bpf_kubernetes_operato.Collector.Read.Merge.{IsDistinct}
use e_bpf_kubernetes_operato.Collector.Read.Returned.{
  IsSorting, IsReading, runq_entries, runq_iterates, rows-read_stats,
}
use e_bpf_kubernetes_operato.Collector.Rows.{CgroupIoStats, CgroupRunqStats, Row, no_io, no_runq}
use e_bpf_kubernetes_operato.Collector.Series.Update.{Counter, total_of}
use e_bpf_kubernetes_operato.Pipeline.{
  io_stats, runq_stats, part_of, amount, total-aggregate_rows, sum_for-mod, stats-row_for,
  io_stats-wrap, runq_stats-wrap, part_of-wrap,
}

-- the totals that a reading's rows give to each key are those of the ledgers
abbrev pub IsTrue : Io.Ledger → Waits.Ledger → List Row → Type 0
IsTrue io rq rows =
    (c : Counter) (k : Text)
    → total_of c (total (aggregate_rows rows []) k)
      ≡ sum_for (λ r. amount c io rq r.cgroup_id) k rows % u64_mod

module _ (io_starts : Block.StartMap) (ios : Block.StatsMap) (wait_starts : Runq.StartMap)
    (waits : Runq.StatsMap) (blocks : PinnedMap CgroupIoStats)
    (runqs : PinnedMap CgroupRunqStats) where
  -- the pinned maps are the programs' maps, and the iterators yield each entry
  pub record IsPinned (s : Block.Maps io_starts.State ios.State)
      (t : Runq.Maps wait_starts.State waits.State) (m : Pinned blocks runqs) : Type 0 where
    pub io :
        (k : ℕ)
        → find ◌==◌ (blocks.entries m.block_map) k
          ≡ Option.map io_stats (ios.lookup s.stats_by_cgroup k)
    pub rq :
        (k : ℕ)
        → find ◌==◌ (runq_entries blocks runqs m) k
          ≡ Option.map runq_stats (waits.lookup t.runq_stats_by_cgroup k)

module _ (io_starts : Block.StartMap) (ios : Block.StatsMap) (wait_starts : Runq.StartMap)
    (waits : Runq.StatsMap) (blocks : PinnedMap CgroupIoStats) (runqs : PinnedMap CgroupRunqStats)
    (resolve : ℕ → Text) (sort : List Row → List Row) where
  reading-IsTrue :
      (clock clock' : ℕ) (io : Io.Ledger) (rq : Waits.Ledger)
      (s : Block.Maps io_starts.State ios.State) (t : Runq.Maps wait_starts.State waits.State)
      (m : Pinned blocks runqs) (rows : List Row)
      → Io.Holds io_starts ios clock io s
      → Waits.Holds wait_starts waits clock' rq t
      → IsPinned io_starts ios wait_starts waits blocks runqs s t m
      → IsReading blocks runqs resolve sort m rows
      → IsTrue io rq rows
  reading-IsTrue clock clock' io rq s t m rows h h' p reading c k =
      total-aggregate_rows c rows k
      ∙ sum_for-mod (part_of c) (λ r. amount c io rq r.cgroup_id) k rows (λ r i. at_row r i)
    where
      at_row : (r : Row) → Mem r rows → part_of c r ≡ amount c io rq r.cgroup_id % u64_mod
      at_row r i =
          let j = r.cgroup_id in
          let (stats, runq) = stats-row_for resolve j _ _ r ((reading.exactly r).0 i).1 in
          part_of-wrap c io rq r
            (stats
              ∙ ap (λ o. value_or o no_io) (p.io j ∙ ap (Option.map io_stats) (h.totals j))
              ∙ io_stats-wrap (io.totals j))
            (runq
              ∙ ap (λ o. value_or o no_runq) (p.rq j ∙ ap (Option.map runq_stats) (h'.totals j))
              ∙ runq_stats-wrap (rq.totals j))

  -- Let the maps of the programs hold ledgers, and then any runs of issues and completions, and of
  -- wakeups and switches, go by, with clocks that do not go back and stay below 2 ^ 64 and with no
  -- map update failing. A reading of these maps, with iterators that yield each entry once and end
  -- without an error, and with a sorting by the identifier, returns the rows of the resolved
  -- cgroups, and the totals of a pod's key are, for each of the six numbers, the sums over the
  -- cgroups of its rows of the true numbers in the ledgers of the runs, modulo 2 ^ 64.
  pub read_stats-IsTrue :
      (clock clock' : ℕ) (io : Io.Ledger) (rq : Waits.Ledger)
      (s : Block.Maps io_starts.State ios.State) (t : Runq.Maps wait_starts.State waits.State)
      (es : List Io.Event) (fs : List Waits.Event) (m : Pinned blocks runqs)
      → Io.Holds io_starts ios clock io s
      → Io.Runs io_starts ios clock es s
      → Waits.Holds wait_starts waits clock' rq t
      → Waits.Runs wait_starts waits clock' fs t
      → IsPinned io_starts ios wait_starts waits blocks runqs
          (Io.fire_all io_starts ios es s)
          (Waits.trace_all wait_starts waits fs t)
          m
      → IsSorting sort
      → blocks.iterates m.block_map ≡ true
      → runq_iterates blocks runqs m ≡ true
      → IsDistinct (blocks.entries m.block_map)
      → IsDistinct (runq_entries blocks runqs m)
      → (rows : List Row) × ((read_stats blocks runqs resolve sort m).rows ≡ some rows)
        × IsReading blocks runqs resolve sort m rows
        × IsTrue (Io.record_events es io) (Waits.record_events fs rq) rows
  read_stats-IsTrue clock clock' io rq s t es fs m h r h' r' p sorts ends ends' w w' =
      let (rows, is, reading) = rows-read_stats blocks runqs resolve sort m sorts ends ends' w w' in
      (
        rows,
        is,
        reading,
        reading-IsTrue (Io.last_time clock es) (Waits.last_time clock' fs) (Io.record_events es io)
            (Waits.record_events fs rq) (Io.fire_all io_starts ios es s)
            (Waits.trace_all wait_starts waits fs t) m rows
            (Io.fire_all-Holds io_starts ios clock es io s r h)
            (trace_all-Holds wait_starts waits clock' fs rq t r' h') p reading,
      )
