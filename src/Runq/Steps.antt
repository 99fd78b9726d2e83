-- ===== src/Runq/Steps.antt =====
-- The program `sched_switch` one operation on a map at a time, as it runs while other processors
-- run theirs: each phase is a place between two operations, with the local variables that are used
-- after it. What `tsp` points to is taken as it was when it was looked up. The pointer to the
-- totals is an address, and what is written to an element that another program's update has
-- replaced since does not reach the map.
use e_bpf_kubernetes_operato.Common.{ℕ, none, some}
use e_bpf_kubernetes_operato.Common.Words.{sub64}
use e_bpf_kubernetes_operato.Bpf.Write.{write_through}
use e_bpf_kubernetes_operato.Runq.{
  Task, StartMap, StatsMap, Maps, zero_stats, add_count, add_latency, get_task_cgroup_id, fill_key,
  requeue_prev,
}

-- the arguments of the program, and the two times that its clock gives
pub record Program : Type 0 where
  pub prev : Task
  pub next : Task
  pub now : ℕ
  pub ts : ℕ

-- with the time that the task was looked up with, or the time that it has waited
pub data Phase : Type 0 where
  entered : Phase
  looking : Phase
  removing : ℕ → Phase
  finding : ℕ → Phase
  creating : ℕ → Phase
  rechecking : ℕ → Phase
  counting : ℕ → ℕ → Phase
  timing : ℕ → ℕ → Phase
  ended : Phase

module _ (starts : StartMap) (stats : StatsMap) where
  abbrev pub State : Type 0
  State = Maps starts.State stats.State

  abbrev pub with_stats : State → stats.State → State
  with_stats s t = record s { runq_stats_by_cgroup = t }

  abbrev pub cgroup_of : Program → ℕ
  cgroup_of p = get_task_cgroup_id p.next

  unfoldable pub advance : Program → Phase → State → Phase × State
  advance p entered s = (looking, requeue_prev starts stats p.prev p.now s)
  advance p looking s = elim (starts.lookup s.start_map (fill_key p.next)) [
    | none ↦ (ended, s)
    | some tsp ↦ (removing tsp, s)
  ]
  advance p (removing tsp) s = (
    finding (sub64 p.ts tsp),
    record s { start_map = starts.delete s.start_map (fill_key p.next) },
  )
  advance p (finding delta) s = elim (stats.lookup s.runq_stats_by_cgroup (cgroup_of p)) [
    | none ↦ (creating delta, s)
    | some v ↦ (counting delta (stats.element s.runq_stats_by_cgroup (cgroup_of p)), s)
  ]
  advance p (creating delta) s = (
    rechecking delta,
    with_stats s (stats.update s.runq_stats_by_cgroup (cgroup_of p) zero_stats),
  )
  advance p (rechecking delta) s = elim (stats.lookup s.runq_stats_by_cgroup (cgroup_of p)) [
    | none ↦ (ended, s)
    | some v ↦ (counting delta (stats.element s.runq_stats_by_cgroup (cgroup_of p)), s)
  ]
  advance p (counting delta ptr) s = (
    timing delta ptr,
    with_stats s (write_through stats s.runq_stats_by_cgroup ptr (cgroup_of p) (add_count 1)),
  )
  advance p (timing delta ptr) s = (
    ended,
    with_stats s (write_through stats s.runq_stats_by_cgroup ptr (cgroup_of p) (add_latency delta)),
  )
  advance p ended s = (ended, s)
