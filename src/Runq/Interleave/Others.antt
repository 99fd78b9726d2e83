-- ===== src/Runq/Interleave/Others.antt =====
-- One operation of one program, as the other programs see it.
use e_bpf_kubernetes_operato.Common.{ℕ, ◌≡◌, ◌≢◌, refl, ap, arith}
use e_bpf_kubernetes_operato.Bpf.Write.{is_some-write_through, element-write_through}
use e_bpf_kubernetes_operato.Runq.{
  RunqKey, Task, StartMap, StatsMap, zero_stats, add_count, add_latency, fill_key, same_key_iff,
  handle_wakeup,
}
use e_bpf_kubernetes_operato.Runq.Effect.{
  start_map-handle_wakeup, runq_stats_by_cgroup-requeue_prev,
}
use e_bpf_kubernetes_operato.Runq.Steps.{
  Program, Phase, entered, looking, removing, finding, creating, rechecking, counting, timing,
  State, cgroup_of, advance,
}
use e_bpf_kubernetes_operato.Runq.Interleave.{Number, owed, share, wait_from}
use e_bpf_kubernetes_operato.Runq.Interleave.Own.{HasTotals, IsLocal, start_map-requeued}

module _ (starts : StartMap) (stats : StatsMap) where
  start_map-advance :
      (p : Program) (ph : Phase) (s : State starts stats) (key : RunqKey)
      → fill_key p.prev ≢ key
      → fill_key p.next ≢ key
      → starts.lookup (advance starts stats p ph s).1.start_map key ≡ starts.lookup s.start_map key
  unfolding advance
  start_map-advance p entered s key other other' = start_map-requeued starts stats p s key other
  start_map-advance p (removing tsp) s key other other' = ground (
    arith,
    other',
    same_key_iff (fill_key p.next) key,
    starts.lookup-delete s.start_map (fill_key p.next) key,
  )
  start_map-advance p looking s key other other' = ground arith
  start_map-advance p (finding delta) s key other other' = ground arith
  start_map-advance p (rechecking delta) s key other other' = ground arith
  start_map-advance p _ s key other other' = refl

  module _ (j : ℕ) where
    advance-HasTotals :
        (p : Program) (ph : Phase) (s : State starts stats) (i : ℕ)
        → IsLocal starts stats j p ph s
        → HasTotals starts stats j s i
        → HasTotals starts stats j (advance starts stats p ph s).1 i
    unfolding advance
    advance-HasTotals p entered s i w h =
        rw (runq_stats_by_cgroup-requeue_prev starts stats p.prev p.now s) h
    advance-HasTotals p (creating delta) s i w h = ground (
      arith,
      stats.lookup-update s.runq_stats_by_cgroup (cgroup_of starts stats p) i zero_stats,
      stats.lookup-update_rejected s.runq_stats_by_cgroup (cgroup_of starts stats p) i zero_stats,
    )
    advance-HasTotals p (counting delta ptr) s i w h =
        is_some-write_through stats j s.runq_stats_by_cgroup ptr (cgroup_of starts stats p)
          (add_count 1) w i h
    advance-HasTotals p (timing delta ptr) s i w h =
        is_some-write_through stats j s.runq_stats_by_cgroup ptr (cgroup_of starts stats p)
          (add_latency delta) w i h
    advance-HasTotals p looking s i w h = ground arith
    advance-HasTotals p (finding delta) s i w h = ground arith
    advance-HasTotals p (rechecking delta) s i w h = ground arith
    advance-HasTotals p _ s i w h = h

    -- the element of the control group is not replaced
    element-advance :
        (p : Program) (ph : Phase) (s : State starts stats)
        → IsLocal starts stats j p ph s
        → stats.element (advance starts stats p ph s).1.runq_stats_by_cgroup j
          ≡ stats.element s.runq_stats_by_cgroup j
    unfolding advance
    element-advance p entered s w =
        ap (λ t. stats.element t j) (runq_stats_by_cgroup-requeue_prev starts stats p.prev p.now s)
    element-advance p (creating delta) s w =
        stats.element-update s.runq_stats_by_cgroup (cgroup_of starts stats p) j zero_stats w
    element-advance p (counting delta ptr) s w =
        element-write_through stats j s.runq_stats_by_cgroup ptr (cgroup_of starts stats p)
          (add_count 1) w
    element-advance p (timing delta ptr) s w =
        element-write_through stats j s.runq_stats_by_cgroup ptr (cgroup_of starts stats p)
          (add_latency delta) w
    element-advance p looking s w = ground arith
    element-advance p (finding delta) s w = ground arith
    element-advance p (rechecking delta) s w = ground arith
    element-advance p _ s w = refl

    pub IsLocal-more :
        (q : Program) (ph : Phase) (s s' : State starts stats)
        → ((i : ℕ) → HasTotals starts stats j s i → HasTotals starts stats j s' i)
        → stats.element s'.runq_stats_by_cgroup j ≡ stats.element s.runq_stats_by_cgroup j
        → IsLocal starts stats j q ph s
        → IsLocal starts stats j q ph s'
    IsLocal-more q (creating delta) s s' more same w = w
    IsLocal-more q (rechecking delta) s s' more same w = w
    IsLocal-more q (counting delta ptr) s s' more same w =
        (more (cgroup_of starts stats q) w.0, rw same w.1)
    IsLocal-more q (timing delta ptr) s s' more same w =
        (more (cgroup_of starts stats q) w.0, rw same w.1)
    IsLocal-more q _ s s' more same w = tt

    -- an operation of `p` leaves what holds of the place of `q`
    pub advance-IsLocal :
        (p q : Program) (ph ph' : Phase) (s : State starts stats)
        → IsLocal starts stats j p ph s
        → IsLocal starts stats j q ph' s
        → IsLocal starts stats j q ph' (advance starts stats p ph s).1
    advance-IsLocal p q ph ph' s w w' =
        IsLocal-more q ph' s (advance starts stats p ph s).1 (λ i. advance-HasTotals p ph s i w)
          (element-advance p ph s w) w'

    owed-equal :
        (a : Number) (q : Program) (ph : Phase) (s s' : State starts stats)
        → starts.lookup s'.start_map (fill_key q.next) ≡ starts.lookup s.start_map (fill_key q.next)
        → owed starts stats a j q ph s' ≡ owed starts stats a j q ph s
    owed-equal a q entered s s' e =
        ap (λ o. share starts stats a j q (wait_from starts stats q o)) e
    owed-equal a q looking s s' e =
        ap (λ o. share starts stats a j q (wait_from starts stats q o)) e
    owed-equal a q _ s s' e = refl

    -- and what `q` owes, where `p` switches neither from its task nor to it
    pub owed-advance :
        (a : Number) (p q : Program) (ph ph' : Phase) (s : State starts stats)
        → fill_key p.prev ≢ fill_key q.next
        → fill_key p.next ≢ fill_key q.next
        → owed starts stats a j q ph' (advance starts stats p ph s).1
          ≡ owed starts stats a j q ph' s
    owed-advance a p q ph ph' s other other' =
        owed-equal a q ph' s (advance starts stats p ph s).1
          (start_map-advance p ph s (fill_key q.next) other other')

    -- the wakeup of another task leaves what `q` owes
    pub owed-handle_wakeup :
        (a : Number) (q : Program) (ph : Phase) (s : State starts stats) (task : Task) (ts : ℕ)
        → fill_key task ≢ fill_key q.next
        → owed starts stats a j q ph (handle_wakeup starts stats task ts s)
          ≡ owed starts stats a j q ph s
    owed-handle_wakeup a q ph s task ts other =
        owed-equal a q ph s (handle_wakeup starts stats task ts s) (
          ground (
            arith,
            same_key_iff (fill_key task) (fill_key q.next),
            start_map-handle_wakeup starts stats task ts s (fill_key q.next),
          ))
