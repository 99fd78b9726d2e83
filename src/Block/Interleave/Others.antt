-- ===== src/Block/Interleave/Others.antt =====
-- One operation of one program, as the other programs see it.
use e_bpf_kubernetes_operato.Common.{ℕ, ◌≡◌, ◌≢◌, refl, ap, arith, ==_iff}
use e_bpf_kubernetes_operato.Common.Words.{sub64}
use e_bpf_kubernetes_operato.Bpf.Write.{is_some-write_through, element-write_through}
use e_bpf_kubernetes_operato.Block.{
  Request, StartMap, StatsMap, zero_stats, add_io_count, add_latency, add_bytes, add_error_count,
  block_rq_issue,
}
use e_bpf_kubernetes_operato.Block.Effect.{start_map-block_rq_issue}
use e_bpf_kubernetes_operato.Block.Steps.{
  Program, Phase, entered, looking, creating, rechecking, counting, timing, sizing, failing,
  leaving, State, advance,
}
use e_bpf_kubernetes_operato.Block.Interleave.{Number, owed, share}
use e_bpf_kubernetes_operato.Block.Interleave.Own.{HasTotals, IsLocal}

module _ (starts : StartMap) (stats : StatsMap) where
  start_map-advance :
      (p : Program) (ph : Phase) (s : State starts stats) (key : ℕ)
      → p.completion.rq ≢ key
      → starts.lookup (advance starts stats p ph s).1.start_map key ≡ starts.lookup s.start_map key
  unfolding advance
  start_map-advance p leaving s key other =
      ground
        (arith, ==_iff p.completion.rq key, starts.lookup-delete s.start_map p.completion.rq key)
  start_map-advance p entered s key other = ground arith
  start_map-advance p (looking start) s key other = ground arith
  start_map-advance p (rechecking start) s key other = ground arith
  start_map-advance p _ s key other = refl

  module _ (j : ℕ) where
    advance-HasTotals :
        (p : Program) (ph : Phase) (s : State starts stats) (i : ℕ)
        → IsLocal starts stats j p ph s
        → HasTotals starts stats j s i
        → HasTotals starts stats j (advance starts stats p ph s).1 i
    unfolding advance
    advance-HasTotals p (creating start) s i w h = ground (
      arith,
      stats.lookup-update s.stats_by_cgroup start.cgroup_id i zero_stats,
      stats.lookup-update_rejected s.stats_by_cgroup start.cgroup_id i zero_stats,
    )
    advance-HasTotals p (counting start ptr) s i w h =
        is_some-write_through stats j s.stats_by_cgroup ptr start.cgroup_id (add_io_count 1) w i h
    advance-HasTotals p (timing start ptr) s i w h =
        is_some-write_through stats j s.stats_by_cgroup ptr start.cgroup_id
          (add_latency (sub64 p.now start.ts_ns)) w i h
    advance-HasTotals p (sizing start ptr) s i w h =
        is_some-write_through stats j s.stats_by_cgroup ptr start.cgroup_id (add_bytes start.bytes)
          w i h
    advance-HasTotals p (failing start ptr) s i w h =
        is_some-write_through stats j s.stats_by_cgroup ptr start.cgroup_id (add_error_count 1) w.0
          i h
    advance-HasTotals p entered s i w h = ground arith
    advance-HasTotals p (looking start) s i w h = ground arith
    advance-HasTotals p (rechecking start) s i w h = ground arith
    advance-HasTotals p _ s i w h = h

    -- the element of the control group is not replaced
    element-advance :
        (p : Program) (ph : Phase) (s : State starts stats)
        → IsLocal starts stats j p ph s
        → stats.element (advance starts stats p ph s).1.stats_by_cgroup j
          ≡ stats.element s.stats_by_cgroup j
    unfolding advance
    element-advance p entered s w = ground arith
    element-advance p (creating start) s w =
        stats.element-update s.stats_by_cgroup start.cgroup_id j zero_stats w
    element-advance p (counting start ptr) s w =
        element-write_through stats j s.stats_by_cgroup ptr start.cgroup_id (add_io_count 1) w
    element-advance p (timing start ptr) s w =
        element-write_through stats j s.stats_by_cgroup ptr start.cgroup_id
          (add_latency (sub64 p.now start.ts_ns)) w
    element-advance p (sizing start ptr) s w =
        element-write_through stats j s.stats_by_cgroup ptr start.cgroup_id (add_bytes start.bytes)
          w
    element-advance p (failing start ptr) s w =
        element-write_through stats j s.stats_by_cgroup ptr start.cgroup_id (add_error_count 1) w.0
    element-advance p (looking start) s w = ground arith
    element-advance p (rechecking start) s w = ground arith
    element-advance p _ s w = refl

    pub IsLocal-more :
        (q : Program) (ph : Phase) (s s' : State starts stats)
        → ((i : ℕ) → HasTotals starts stats j s i → HasTotals starts stats j s' i)
        → stats.element s'.stats_by_cgroup j ≡ stats.element s.stats_by_cgroup j
        → IsLocal starts stats j q ph s
        → IsLocal starts stats j q ph s'
    IsLocal-more q (creating start) s s' more same w = w
    IsLocal-more q (rechecking start) s s' more same w = w
    IsLocal-more q (counting start ptr) s s' more same w = (more start.cgroup_id w.0, rw same w.1)
    IsLocal-more q (timing start ptr) s s' more same w = (more start.cgroup_id w.0, rw same w.1)
    IsLocal-more q (sizing start ptr) s s' more same w = (more start.cgroup_id w.0, rw same w.1)
    IsLocal-more q (failing start ptr) s s' more same w =
        ((more start.cgroup_id w.0.0, rw same w.0.1), w.1)
    IsLocal-more q _ s s' more same w = tt

    -- an operation of `p` leaves what holds of the place of `q`
    pub advance-IsLocal :
        (p q : Program) (ph ph' : Phase) (s : State starts stats)
        → IsLocal starts stats j p ph s
        → IsLocal starts stats j q ph' s
        → IsLocal starts stats j q ph' (advance starts stats p ph s).1
    advance-IsLocal p q ph ph' s w w' =
        IsLocal-more q ph' s (advance starts stats p ph s).1 (λ i. advance-HasTotals p ph s i w)
          (element-advance p ph s w) w'

    owed-equal :
        (a : Number) (q : Program) (ph : Phase) (s s' : State starts stats)
        → starts.lookup s'.start_map q.completion.rq ≡ starts.lookup s.start_map q.completion.rq
        → owed starts stats a j q ph s' ≡ owed starts stats a j q ph s
    owed-equal a q entered s s' e = ap (share starts stats a j q) e
    owed-equal a q _ s s' e = refl

    -- and what `q` owes
    pub owed-advance :
        (a : Number) (p q : Program) (ph ph' : Phase) (s : State starts stats)
        → p.completion.rq ≢ q.completion.rq
        → owed starts stats a j q ph' (advance starts stats p ph s).1
          ≡ owed starts stats a j q ph' s
    owed-advance a p q ph ph' s other =
        owed-equal a q ph' s (advance starts stats p ph s).1
          (start_map-advance p ph s q.completion.rq other)

    -- the issue of another request leaves what `q` owes
    pub owed-block_rq_issue :
        (a : Number) (q : Program) (ph : Phase) (s : State starts stats) (rq : Request)
        (now current_cgroup : ℕ)
        → q.completion.rq ≢ rq.address
        → owed starts stats a j q ph (block_rq_issue starts stats rq now current_cgroup s)
          ≡ owed starts stats a j q ph s
    owed-block_rq_issue a q ph s rq now current_cgroup other =
        owed-equal a q ph s (block_rq_issue starts stats rq now current_cgroup s) (
          ground (
            arith,
            ==_iff rq.address q.completion.rq,
            start_map-block_rq_issue starts stats rq now current_cgroup s q.completion.rq,
          ))
