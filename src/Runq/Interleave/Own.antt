-- ===== src/Runq/Interleave/Own.antt =====
-- One operation of one program: what it adds to the totals of a control group, it owes less.
use e_bpf_kubernetes_operato.Common.{
  ℕ, ◌+◌, ◌%◌, true, false, some, ◌≡◌, ◌≢◌, refl, arith, ◌==◌, ==_iff, is_some, Option-cases, inl,
  inr, if◌then◌else◌,
}
use e_bpf_kubernetes_operato.Common.Words.{u64_mod, add64}
use e_bpf_kubernetes_operato.Bpf.Write.{IsPointer, lookup-write_through}
use e_bpf_kubernetes_operato.Runq.{
  CgroupRunqStats, RunqKey, StartMap, StatsMap, zero_stats, add_count, add_latency, fill_key,
  same_key_iff, requeue_prev,
}
use e_bpf_kubernetes_operato.Runq.Effect.{start_map-requeue_prev, runq_stats_by_cgroup-requeue_prev}
use e_bpf_kubernetes_operato.Runq.Steps.{
  Program, Phase, entered, looking, removing, finding, creating, rechecking, counting, timing,
  ended, State, cgroup_of, advance,
}
use e_bpf_kubernetes_operato.Runq.Interleave.{Number, number, owed}

module _ (starts : StartMap) (stats : StatsMap) where
  -- the start of a task other than the previous one stays where that goes back to the queue
  pub start_map-requeued :
      (p : Program) (s : State starts stats) (key : RunqKey)
      → fill_key p.prev ≢ key
      → starts.lookup (requeue_prev starts stats p.prev p.now s).start_map key
        ≡ starts.lookup s.start_map key
  start_map-requeued p s key other = ground (
    arith,
    start_map-requeue_prev starts stats p.prev p.now s key,
    same_key_iff (fill_key p.prev) key,
  )

  module _ (j : ℕ) where
    abbrev pub HasTotals : State starts stats → ℕ → Type 0
    HasTotals s k = is_some (stats.lookup s.runq_stats_by_cgroup k) ≡ true

    -- A program does not put totals for the control group, and adds to totals that are there.
    abbrev pub IsLocal : Program → Phase → State starts stats → Type 0
    IsLocal p (creating delta) s = (cgroup_of starts stats p == j) ≡ false
    IsLocal p (rechecking delta) s = (cgroup_of starts stats p == j) ≡ false
    IsLocal p (counting delta ptr) s =
        IsPointer stats j s.runq_stats_by_cgroup ptr (cgroup_of starts stats p)
    IsLocal p (timing delta ptr) s =
        IsPointer stats j s.runq_stats_by_cgroup ptr (cgroup_of starts stats p)
    IsLocal p ph s = Unit

    -- the numbers of the control group with what a program owes stay as they are
    pub record Kept (p : Program) (ph ph' : Phase) (s s' : State starts stats) (v : CgroupRunqStats)
        : Type 0 where
      pub totals : CgroupRunqStats
      pub found : stats.lookup s'.runq_stats_by_cgroup j ≡ some totals
      pub local : IsLocal p ph' s'
      pub sum :
          (a : Number)
          → (number a totals + owed starts stats a j p ph' s') % u64_mod
            ≡ (number a v + owed starts stats a j p ph s) % u64_mod

    -- what an addition to a control group's totals leaves of the ones of `j`
    abbrev changed : ℕ → (CgroupRunqStats → CgroupRunqStats) → CgroupRunqStats → CgroupRunqStats
    changed k f v = if k == j then f v else v

    pointer :
        (t : stats.State) (k : ℕ)
        → (if k == j then stats.element t k == stats.element t j else true) ≡ true
    pointer t k = ground (arith, ==_iff k j, ==_iff (stats.element t j) (stats.element t j))

    pub advance-Kept :
        (p : Program) (ph : Phase) (s : State starts stats) (v : CgroupRunqStats)
        → fill_key p.prev ≢ fill_key p.next
        → stats.lookup s.runq_stats_by_cgroup j ≡ some v
        → IsLocal p ph s
        → let (ph', s') = advance starts stats p ph s in Kept p ph ph' s s' v
    unfolding advance add64
    advance-Kept p entered s v other h w = record {
      totals = v;
      found = ground (arith, h, runq_stats_by_cgroup-requeue_prev starts stats p.prev p.now s);
      local = tt;
      sum = λ a. rw (start_map-requeued p s (fill_key p.next) other) refl;
    }
    advance-Kept p looking s v other h w =
        elim (Option-cases (starts.lookup s.start_map (fill_key p.next))) [
          | inl e ↦
              rw (advance, e)
                (record { totals = v; found = h; local = tt; sum = λ a. ground (arith, e) })
          | inr (tsp, e) ↦
              rw (advance, e)
                (record { totals = v; found = h; local = tt; sum = λ a. ground (arith, e) })
        ]
    advance-Kept p (removing tsp) s v other h w = record {
      totals = v;
      found = h;
      local = tt;
      sum = λ a. refl;
    }
    advance-Kept p (finding delta) s v other h w =
        let k = cgroup_of starts stats p in
        elim (Option-cases (stats.lookup s.runq_stats_by_cgroup k)) [
          | inl e ↦
              rw (advance, e)
                (record {
                  totals = v;
                  found = h;
                  local = ground (arith, e, h, ==_iff k j);
                  sum = λ a. refl;
                })
          | inr (x, e) ↦
              rw (advance, e)
                (record {
                  totals = v;
                  found = h;
                  local = (
                    ground (arith, e),
                    pointer s.runq_stats_by_cgroup (cgroup_of starts stats p),
                  );
                  sum = λ a. refl;
                })
        ]
    advance-Kept p (creating delta) s v other h w =
        let k = cgroup_of starts stats p in
        record {
          totals = v;
          found = ground (
            arith,
            h,
            w,
            stats.lookup-update s.runq_stats_by_cgroup k j zero_stats,
            stats.lookup-update_rejected s.runq_stats_by_cgroup k j zero_stats,
          );
          local = w;
          sum = λ a. refl;
        }
    advance-Kept p (rechecking delta) s v other h w =
        elim (Option-cases (stats.lookup s.runq_stats_by_cgroup (cgroup_of starts stats p))) [
          | inl e ↦
              rw (advance, e)
                (record { totals = v; found = h; local = tt; sum = λ a. ground (arith, w) })
          | inr (x, e) ↦
              rw (advance, e)
                (record {
                  totals = v;
                  found = h;
                  local = (
                    ground (arith, e),
                    pointer s.runq_stats_by_cgroup (cgroup_of starts stats p),
                  );
                  sum = λ a. refl;
                })
        ]
    advance-Kept p (counting delta ptr) s v other h w =
        let k = cgroup_of starts stats p in
        let (now_found, there) =
          lookup-write_through stats j s.runq_stats_by_cgroup ptr k (add_count 1) w v h in
        record {
          totals = changed k (add_count 1) v;
          found = now_found;
          local = there;
          sum = λ a. ground arith;
        }
    advance-Kept p (timing delta ptr) s v other h w =
        let k = cgroup_of starts stats p in
        let (now_found, there) =
          lookup-write_through stats j s.runq_stats_by_cgroup ptr k (add_latency delta) w v h in
        record {
          totals = changed k (add_latency delta) v;
          found = now_found;
          local = tt;
          sum = λ a. ground arith;
        }
    advance-Kept p ended s v other h w = record {
      totals = v;
      found = h;
      local = tt;
      sum = λ a. refl;
    }
