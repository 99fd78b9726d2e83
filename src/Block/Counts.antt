-- ===== src/Block/Counts.antt =====
-- What holds of the totals on every run of block_latency.c, also where updates of the maps fail.
use e_bpf_kubernetes_operato.Common.{
  ℕ, suc, ◌+◌, ◌≤◌, ◌<◌, some, ◌≡◌, arith, value_or, length, Option-cases, inl, inr, List, [], ◌∷◌,
}
use e_bpf_kubernetes_operato.Common.Words.{u64_mod, add64, sub64}
use e_bpf_kubernetes_operato.Block.{
  CgroupIoStats, Completion, StartMap, StatsMap, Maps, zero_stats, block_rq_issue,
  block_rq_complete,
}
use e_bpf_kubernetes_operato.Block.Effect.{
  charge, block_rq_complete_unseen, stats_by_cgroup-block_rq_complete,
}
use e_bpf_kubernetes_operato.Block.Ledger.{Event, issue, complete, fire, fire_all}

abbrev pub AtMost : ℕ → CgroupIoStats → Type 0
AtMost n v = (v.error_count ≤ v.io_count) × (v.io_count ≤ n)

charge-AtMost :
    (error delta bytes n : ℕ) (v : CgroupIoStats)
    → suc n < u64_mod
    → AtMost n v
    → AtMost (suc n) (charge error delta bytes v)
unfolding charge add64
charge-AtMost error delta bytes n v lt h = ground arith

module _ (starts : StartMap) (stats : StatsMap) where
  -- no cgroup has more errors than requests, nor more requests than the bound
  pub record IsCounted (n : ℕ) (s : Maps starts.State stats.State) : Type 0 where
    pub at_cgroup :
        (j : ℕ) (v : CgroupIoStats) → stats.lookup s.stats_by_cgroup j ≡ some v → AtMost n v

  more-IsCounted : (n : ℕ) (s : Maps starts.State stats.State) → IsCounted n s → IsCounted (suc n) s
  more-IsCounted n s h = record { at_cgroup = λ j v e. omega (arith, h.at_cgroup j v e) }

  found-AtMost :
      (n k : ℕ) (s : Maps starts.State stats.State)
      → IsCounted n s
      → AtMost n (value_or (stats.lookup s.stats_by_cgroup k) zero_stats)
  found-AtMost n k s h = elim (Option-cases (stats.lookup s.stats_by_cgroup k)) [
    | inl e ↦ ground (arith, e)
    | inr (v, e) ↦ ground (arith, e, h.at_cgroup k v e)
  ]

  complete-IsCounted :
      (n : ℕ) (c : Completion) (now : ℕ) (s : Maps starts.State stats.State)
      → suc n < u64_mod
      → IsCounted n s
      → IsCounted (suc n) (block_rq_complete starts stats c now s)
  complete-IsCounted n c now s lt h = elim (Option-cases (starts.lookup s.start_map c.rq)) [
    | inl unseen ↦ rw (block_rq_complete_unseen starts stats c now s unseen) (more-IsCounted n s h)
    | inr (start, seen) ↦
        let v = value_or (stats.lookup s.stats_by_cgroup start.cgroup_id) zero_stats in
        let next =
          charge-AtMost c.error (sub64 now start.ts_ns) start.bytes n v lt
            (found-AtMost n start.cgroup_id s h) in
        record {
          at_cgroup = λ j w e. ground (
            arith,
            next,
            stats_by_cgroup-block_rq_complete starts stats c now s start j seen,
            h.at_cgroup j w,
          );
        }
  ]

  fire-IsCounted :
      (n : ℕ) (e : Event) (s : Maps starts.State stats.State)
      → suc n < u64_mod
      → IsCounted n s
      → IsCounted (suc n) (fire starts stats e s)
  unfolding fire block_rq_issue
  fire-IsCounted n (issue rq cgroup now) s lt h = record {
    at_cgroup = λ j v e. omega (arith, h.at_cgroup j v e);
  }
  fire-IsCounted n (complete c now) s lt h = complete-IsCounted n c now s lt h

  -- On every run of issues and completions, in which updates of the maps may fail and the clock may
  -- do anything, no cgroup has counted more errors than requests, nor more requests than events
  -- have fired, as long as fewer than 2 ^ 64 have.
  pub fire_all-IsCounted :
      (es : List Event) (n : ℕ) (s : Maps starts.State stats.State)
      → n + length es < u64_mod
      → IsCounted n s
      → IsCounted (n + length es) (fire_all starts stats es s)
  unfolding fire_all
  fire_all-IsCounted [] n s lt h = record { at_cgroup = λ j v e. omega (arith, h.at_cgroup j v e) }
  fire_all-IsCounted (e ∷ es) n s lt h =
      let r =
        fire_all-IsCounted es (suc n) (fire starts stats e s) (omega arith)
          (fire-IsCounted n e s (omega arith) h) in
      record { at_cgroup = λ j v p. omega (arith, r.at_cgroup j v p) }
