-- ===== src/Runq.antt =====
-- ebpf/latency/runq_latency.c: the three programs on the scheduler's tracepoints. What they read of
-- a `struct task_struct` through `BPF_CORE_READ` is a record, its chain of pointers to the cgroup's
-- identifier included; each value of the clock is an argument.
pub mod Effect
pub mod Ledger
pub mod Key
pub mod Steps
pub mod Interleave
use e_bpf_kubernetes_operato.Common.{
  ℕ, Bool, ◌&&◌, none, some, ◌≡◌, true, ◌↔◌, arith, ◌==◌, if◌then◌else◌,
}
use e_bpf_kubernetes_operato.Common.Words.{add64, sub64}
use e_bpf_kubernetes_operato.Bpf.Map.{BpfMap}
use e_bpf_kubernetes_operato.Bpf.Create.{lookup_or_create}

pub record RunqKey : Type 0 where
  pub pid : ℕ
  pub start_time : ℕ

pub record CgroupRunqStats : Type 0 where
  pub count : ℕ
  pub total_latency_ns : ℕ

pub record KernfsNode : Type 0 where
  pub id : ℕ

pub record Cgroup : Type 0 where
  pub kn : KernfsNode

pub record CssSet : Type 0 where
  pub dfl_cgrp : Cgroup

pub record Task : Type 0 where
  pub pid : ℕ
  pub start_time : ℕ
  pub state : ℕ
  pub cgroups : CssSet

-- Keys of the map are compared as memory. Every key starts as `{}`, so that the padding after `pid`
-- is zero and the memory is that of the two fields.
abbrev pub same_key : RunqKey → RunqKey → Bool
same_key a b = a.pid == b.pid && a.start_time == b.start_time

pub same_key_iff : (a b : RunqKey) → (same_key a b ≡ true) ↔ (a ≡ b)
same_key_iff a b = ground arith

abbrev pub StartMap : Type 1
StartMap = BpfMap RunqKey ℕ same_key

abbrev pub StatsMap : Type 1
StatsMap = BpfMap ℕ CgroupRunqStats ◌==◌

pub record Maps (S T : Type 0) : Type 0 where
  pub start_map : S
  pub runq_stats_by_cgroup : T

abbrev pub zero_stats : CgroupRunqStats
zero_stats = record { count = 0; total_latency_ns = 0 }

abbrev pub add_count : ℕ → CgroupRunqStats → CgroupRunqStats
add_count d v = record v { count = add64 v.count d }

abbrev pub add_latency : ℕ → CgroupRunqStats → CgroupRunqStats
add_latency d v = record v { total_latency_ns = add64 v.total_latency_ns d }

abbrev pub get_task_cgroup_id : Task → ℕ
get_task_cgroup_id task = task.cgroups.dfl_cgrp.kn.id

abbrev pub fill_key : Task → RunqKey
fill_key p = record { pid = p.pid; start_time = p.start_time }

module _ (starts : StartMap) (stats : StatsMap) where
  unfoldable pub handle_wakeup :
      Task → ℕ → Maps starts.State stats.State → Maps starts.State stats.State
  handle_wakeup p ts s = record s { start_map = starts.update s.start_map (fill_key p) ts }

  unfoldable pub sched_wakeup :
      Task → ℕ → Maps starts.State stats.State → Maps starts.State stats.State
  unfolding handle_wakeup
  sched_wakeup p ts s = handle_wakeup p ts s

  unfoldable pub sched_wakeup_new :
      Task → ℕ → Maps starts.State stats.State → Maps starts.State stats.State
  unfolding handle_wakeup
  sched_wakeup_new p ts s = handle_wakeup p ts s

  -- the two additions through the pointer to the cgroup's totals
  unfoldable pub account : ℕ → ℕ → stats.State → stats.State
  account cgroup_id delta t =
      let t1 = stats.write t cgroup_id (add_count 1) in stats.write t1 cgroup_id (add_latency delta)

  -- a task that is still runnable goes back to the queue
  unfoldable pub requeue_prev :
      Task → ℕ → Maps starts.State stats.State → Maps starts.State stats.State
  requeue_prev prev now s =
      if prev.state == 0
      then record s { start_map = starts.update s.start_map (fill_key prev) now }
      else s

  -- from the lookup of the next task's start on, that start found
  unfoldable pub leave_queue :
      Task → ℕ → ℕ → Maps starts.State stats.State → Maps starts.State stats.State
  leave_queue next ts tsp s =
      let delta = sub64 ts tsp in
      let cgroup_id = get_task_cgroup_id next in
      let (found, t) = lookup_or_create stats zero_stats s.runq_stats_by_cgroup cgroup_id in
      record {
        start_map = starts.delete s.start_map (fill_key next);
        runq_stats_by_cgroup = if found then account cgroup_id delta t else t;
      }

  -- `now` is the clock where `prev` is put back, and `ts` where `next` is taken off
  unfoldable pub sched_switch :
      Task → Task → ℕ → ℕ → Maps starts.State stats.State → Maps starts.State stats.State
  sched_switch prev next now ts s =
      let s' = requeue_prev prev now s in
      elim (starts.lookup s'.start_map (fill_key next)) [
        | none ↦ s'
        | some tsp ↦ leave_queue next ts tsp s'
      ]
