-- ===== src/Runq/Effect.antt =====
-- What each program of runq_latency.c does to the two maps, on every branch.
use e_bpf_kubernetes_operato.Common.{
  ℕ, not, ◌&&◌, none, some, ◌≡◌, refl, arith, ◌==◌, ==_iff, if◌then◌else◌, value_or, Option-cases,
  inl, inr,
}
use e_bpf_kubernetes_operato.Common.Words.{add64, sub64}
use e_bpf_kubernetes_operato.Bpf.Create.{
  lookup_or_create, admits, lookup_or_create-found, lookup-lookup_or_create,
}
use e_bpf_kubernetes_operato.Runq.{
  RunqKey, CgroupRunqStats, Task, same_key, same_key_iff, StartMap, StatsMap, Maps, zero_stats,
  add_count, add_latency, get_task_cgroup_id, fill_key, account, handle_wakeup, requeue_prev,
  leave_queue, sched_switch,
}

-- one stay in the run queue: the totals that it leaves
unfoldable pub charge : ℕ → CgroupRunqStats → CgroupRunqStats
charge delta v = record {
  count = add64 v.count 1;
  total_latency_ns = add64 v.total_latency_ns delta;
}

module _ (starts : StartMap) (stats : StatsMap) where
  lookup-account :
      (k delta : ℕ) (t : stats.State) (v : CgroupRunqStats) (j : ℕ)
      → stats.lookup t k ≡ some v
      → stats.lookup (account starts stats k delta t) j
        ≡ (if k == j then some (charge delta v) else stats.lookup t j)
  unfolding account charge
  lookup-account k delta t v j h =
      let t1 = stats.write t k (add_count 1) in
      let v1 = add_count 1 v in
      let h1 : stats.lookup t1 k ≡ some v1 =
        rw (stats.lookup-write t k k v _ h, (==_iff k k).1 refl) in
      ground (
        arith,
        stats.lookup-write t k j v (add_count 1) h,
        stats.lookup-write t1 k j v1 (add_latency delta) h1,
      )

  module _ (p : Task) (now : ℕ) (s : Maps starts.State stats.State) where
    -- A wakeup records the time under the task's key, unless the map is full, and leaves the other
    -- tasks.
    pub start_map-handle_wakeup :
        (j : RunqKey)
        → starts.lookup (handle_wakeup starts stats p now s).start_map j ≡ (
            if not (starts.rejects s.start_map (fill_key p)) && same_key (fill_key p) j
            then some now
            else starts.lookup s.start_map j)
    unfolding handle_wakeup
    start_map-handle_wakeup j = ground (
      arith,
      starts.lookup-update s.start_map (fill_key p) j now,
      starts.lookup-update_rejected s.start_map (fill_key p) j now,
    )

    pub start_map-requeue_prev :
        (j : RunqKey)
        → starts.lookup (requeue_prev starts stats p now s).start_map j ≡ (
            if p.state == 0
              && not (starts.rejects s.start_map (fill_key p))
              && same_key (fill_key p) j
            then some now
            else starts.lookup s.start_map j)
    unfolding requeue_prev
    start_map-requeue_prev j = ground (
      arith,
      starts.lookup-update s.start_map (fill_key p) j now,
      starts.lookup-update_rejected s.start_map (fill_key p) j now,
    )

    pub runq_stats_by_cgroup-requeue_prev :
        (requeue_prev starts stats p now s).runq_stats_by_cgroup ≡ s.runq_stats_by_cgroup
    unfolding requeue_prev
    runq_stats_by_cgroup-requeue_prev = ground arith

  module _ (next : Task) (ts tsp : ℕ) (s : Maps starts.State stats.State) where
    pub start_map-leave_queue :
        (j : RunqKey)
        → starts.lookup (leave_queue starts stats next ts tsp s).start_map j
          ≡ (if same_key (fill_key next) j then none else starts.lookup s.start_map j)
    unfolding leave_queue
    start_map-leave_queue j = ground (arith, starts.lookup-delete s.start_map (fill_key next) j)

    pub runq_stats_by_cgroup-leave_queue :
        (j : ℕ)
        → stats.lookup (leave_queue starts stats next ts tsp s).runq_stats_by_cgroup j ≡ (
            if admits stats s.runq_stats_by_cgroup (get_task_cgroup_id next)
              && get_task_cgroup_id next == j
            then some (
                charge (sub64 ts tsp) (
                  value_or
                    (stats.lookup s.runq_stats_by_cgroup (get_task_cgroup_id next))
                    zero_stats))
            else stats.lookup s.runq_stats_by_cgroup j)
    unfolding leave_queue
    runq_stats_by_cgroup-leave_queue j =
        let t = s.runq_stats_by_cgroup in
        let k = get_task_cgroup_id next in
        let t' = (lookup_or_create stats zero_stats t k).1 in
        let v = value_or (stats.lookup t k) zero_stats in
        let at = λ (i : ℕ). lookup-lookup_or_create stats zero_stats ==_iff t k i in
        ground (
          arith,
          at j,
          at k,
          ==_iff k k,
          lookup_or_create-found stats zero_stats ==_iff t k,
          lookup-account k (sub64 ts tsp) t' v j,
        )

  module _ (prev next : Task) (now ts : ℕ) (s : Maps starts.State stats.State) where
    -- After a switch the task that gets the processor has no start; every other task has the one
    -- that it had, but for a previous task that is still runnable, which starts to wait now if the
    -- map has room.
    pub start_map-sched_switch :
        (j : RunqKey)
        → starts.lookup (sched_switch starts stats prev next now ts s).start_map j ≡ (
            if same_key (fill_key next) j
            then none
            else if prev.state == 0
                && not (starts.rejects s.start_map (fill_key prev))
                && same_key (fill_key prev) j
            then some now
            else starts.lookup s.start_map j)
    unfolding sched_switch
    start_map-sched_switch j =
        let s' = requeue_prev starts stats prev now s in
        let k = fill_key next in
        elim (Option-cases (starts.lookup s'.start_map k)) [
          | inl e ↦ ground (arith, e, start_map-requeue_prev prev now s j, same_key_iff k j)
          | inr (tsp, e) ↦ ground (
            arith,
            e,
            start_map-requeue_prev prev now s j,
            start_map-leave_queue next ts tsp s' j,
          )
        ]

    -- A switch to a task that was seen to become runnable adds one wait and its duration to the totals
    -- of the task's cgroup, which start at zero if there were none, unless these could not be
    -- created; the other cgroups keep theirs.
    pub runq_stats_by_cgroup-sched_switch :
        (tsp j : ℕ)
        → starts.lookup (requeue_prev starts stats prev now s).start_map (fill_key next) ≡ some tsp
        → stats.lookup (sched_switch starts stats prev next now ts s).runq_stats_by_cgroup j ≡ (
            if admits stats s.runq_stats_by_cgroup (get_task_cgroup_id next)
              && get_task_cgroup_id next == j
            then some (
                charge (sub64 ts tsp) (
                  value_or
                    (stats.lookup s.runq_stats_by_cgroup (get_task_cgroup_id next))
                    zero_stats))
            else stats.lookup s.runq_stats_by_cgroup j)
    unfolding sched_switch
    runq_stats_by_cgroup-sched_switch tsp j h =
        let s' = requeue_prev starts stats prev now s in
        ground (
          arith,
          h,
          runq_stats_by_cgroup-requeue_prev prev now s,
          runq_stats_by_cgroup-leave_queue next ts tsp s' j,
        )

    -- A task that was not seen to become runnable leaves the totals alone.
    pub sched_switch_unseen :
        starts.lookup (requeue_prev starts stats prev now s).start_map (fill_key next) ≡ none
        → sched_switch starts stats prev next now ts s ≡ requeue_prev starts stats prev now s
    unfolding sched_switch
    sched_switch_unseen h = ground (arith, h)

    -- A task that was seen leaves the queue that the previous task has joined.
    pub sched_switch_seen :
        (tsp : ℕ)
        → starts.lookup (requeue_prev starts stats prev now s).start_map (fill_key next) ≡ some tsp
        → sched_switch starts stats prev next now ts s
          ≡ leave_queue starts stats next ts tsp (requeue_prev starts stats prev now s)
    unfolding sched_switch
    sched_switch_seen tsp h = ground (arith, h)
