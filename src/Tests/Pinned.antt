-- ===== src/Tests/Pinned.antt =====
-- Runs of `readStats` over two pinned tables.
use mathlib.Core.Option
use e_bpf_kubernetes_operato.Common.{
  ℕ, ◌≡◌, refl, none, some, true, List, [], ◌∷◌, ◌==◌, ==_iff, if◌then◌else◌, map,
}
use e_bpf_kubernetes_operato.Common.Text.{Text, codes}
use e_bpf_kubernetes_operato.Bpf.Table.{table}
use e_bpf_kubernetes_operato.Collector.Classify.{unresolved}
use e_bpf_kubernetes_operato.Collector.Rows.{
  CgroupIoStats, CgroupRunqStats, no_io, no_runq, block_row, runq_row, block_step, runq_step,
  scan_block, scan_runq,
}
use e_bpf_kubernetes_operato.Collector.Read.{PinnedMap, Pinned, read_runq, read_stats}
use e_bpf_kubernetes_operato.Collector.Read.Stale.{block_map-read_stats}

abbrev pub blocks : PinnedMap CgroupIoStats
blocks = record { bpf_map = table ◌==◌ ==_iff 4; entries = λ s. s; iterates = λ s. true }

abbrev pub runqs : PinnedMap CgroupRunqStats
runqs = record { bpf_map = table ◌==◌ ==_iff 4; entries = λ s. s; iterates = λ s. true }

-- the group 9 is not known
abbrev pub resolve : ℕ → Text
resolve key = if key == 9 then unresolved else codes "/a.slice"

abbrev pub io_entries : List (ℕ × CgroupIoStats)
io_entries = (7, record no_io { io_count = 2; total_latency_ns = 50 }) ∷ (9, no_io) ∷ []

abbrev pub runq_entries : List (ℕ × CgroupRunqStats)
runq_entries = (9, no_runq) ∷ (7, record { count = 1; total_latency_ns = 30 }) ∷ (8, no_runq) ∷ []

abbrev pub pinned : Pinned blocks runqs
pinned = record { block_map = io_entries; runq_map = some runq_entries }

ids_read :
    Option.map (map (λ r. r.cgroup_id)) (read_stats blocks runqs resolve (λ rows. rows) pinned).rows
    ≡ some (7 ∷ 8 ∷ [])
unfolding read_stats read_runq scan_block scan_runq block_step runq_step block_row runq_row
ids_read = refl

block_map-read_stats_example :
    blocks.bpf_map.lookup (read_stats blocks runqs resolve (λ rows. rows) pinned).maps.block_map 9
    ≡ none
block_map-read_stats_example = block_map-read_stats blocks runqs resolve (λ rows. rows) pinned 9
