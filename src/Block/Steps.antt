-- ===== src/Block/Steps.antt =====
-- The program `block_rq_complete` one operation on a map at a time, as it runs while other
-- processors run theirs: each phase is a place between two operations, with the local variables.
-- What `start` points to is taken as it was when it was looked up. The pointer to the totals is an
-- address, and what is written to an element that another program's update has replaced since does
-- not reach the map.
use e_bpf_kubernetes_operato.Common.{ℕ, none, some, ◌==◌, if◌then◌else◌}
use e_bpf_kubernetes_operato.Common.Words.{sub64}
use e_bpf_kubernetes_operato.Bpf.Write.{write_through}
use e_bpf_kubernetes_operato.Block.{
  StartVal, Completion, StartMap, StatsMap, Maps, zero_stats, add_io_count, add_latency, add_bytes,
  add_error_count,
}

-- the arguments of the program, and the time that its clock gives
pub record Program : Type 0 where
  pub completion : Completion
  pub now : ℕ

pub data Phase : Type 0 where
  entered : Phase
  looking : StartVal → Phase
  creating : StartVal → Phase
  rechecking : StartVal → Phase
  counting : StartVal → ℕ → Phase
  timing : StartVal → ℕ → Phase
  sizing : StartVal → ℕ → Phase
  failing : StartVal → ℕ → Phase
  leaving : Phase
  ended : Phase

module _ (starts : StartMap) (stats : StatsMap) where
  abbrev pub State : Type 0
  State = Maps starts.State stats.State

  -- an addition through the pointer to the totals
  abbrev pub with_stats : State → stats.State → State
  with_stats s t = record s { stats_by_cgroup = t }

  unfoldable pub advance : Program → Phase → State → Phase × State
  advance p entered s = elim (starts.lookup s.start_map p.completion.rq) [
    | none ↦ (ended, s)
    | some start ↦ (looking start, s)
  ]
  advance p (looking start) s = elim (stats.lookup s.stats_by_cgroup start.cgroup_id) [
    | none ↦ (creating start, s)
    | some v ↦ (counting start (stats.element s.stats_by_cgroup start.cgroup_id), s)
  ]
  advance p (creating start) s =
      (rechecking start, with_stats s (stats.update s.stats_by_cgroup start.cgroup_id zero_stats))
  advance p (rechecking start) s = elim (stats.lookup s.stats_by_cgroup start.cgroup_id) [
    | none ↦ (leaving, s)
    | some v ↦ (counting start (stats.element s.stats_by_cgroup start.cgroup_id), s)
  ]
  advance p (counting start ptr) s = (
    timing start ptr,
    with_stats s (write_through stats s.stats_by_cgroup ptr start.cgroup_id (add_io_count 1)),
  )
  advance p (timing start ptr) s = (
    sizing start ptr,
    with_stats s (
        write_through stats s.stats_by_cgroup ptr start.cgroup_id
          (add_latency (sub64 p.now start.ts_ns))),
  )
  advance p (sizing start ptr) s = (
    if p.completion.error == 0 then leaving else failing start ptr,
    with_stats s
        (write_through stats s.stats_by_cgroup ptr start.cgroup_id (add_bytes start.bytes)),
  )
  advance p (failing start ptr) s = (
    leaving,
    with_stats s (write_through stats s.stats_by_cgroup ptr start.cgroup_id (add_error_count 1)),
  )
  advance p leaving s = (ended, record s { start_map = starts.delete s.start_map p.completion.rq })
  advance p ended s = (ended, s)
