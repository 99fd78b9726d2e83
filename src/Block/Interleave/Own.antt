-- ===== src/Block/Interleave/Own.antt =====
-- One operation of one program: what it adds to the totals of a cgroup, it owes less.
use e_bpf_kubernetes_operato.Common.{
  ℕ, ◌+◌, ◌%◌, true, false, some, ◌≡◌, refl, arith, ◌==◌, ==_iff, is_some, Option-cases, Bool-cases,
  inl, inr, if◌then◌else◌,
}
use e_bpf_kubernetes_operato.Common.Words.{u64_mod, add64, sub64}
use e_bpf_kubernetes_operato.Bpf.Write.{IsPointer, lookup-write_through}
use e_bpf_kubernetes_operato.Block.{
  CgroupIoStats, StartMap, StatsMap, zero_stats, add_io_count, add_latency, add_bytes,
  add_error_count,
}
use e_bpf_kubernetes_operato.Block.Steps.{
  Program, Phase, entered, looking, creating, rechecking, counting, timing, sizing, failing,
  leaving, ended, State, advance,
}
use e_bpf_kubernetes_operato.Block.Interleave.{Number, number, owed}

module _ (starts : StartMap) (stats : StatsMap) (j : ℕ) where
  abbrev pub HasTotals : State starts stats → ℕ → Type 0
  HasTotals s k = is_some (stats.lookup s.stats_by_cgroup k) ≡ true

  -- A program does not put totals for the cgroup, and adds to totals that are there.
  abbrev pub IsLocal : Program → Phase → State starts stats → Type 0
  IsLocal p (creating start) s = (start.cgroup_id == j) ≡ false
  IsLocal p (rechecking start) s = (start.cgroup_id == j) ≡ false
  IsLocal p (counting start ptr) s = IsPointer stats j s.stats_by_cgroup ptr start.cgroup_id
  IsLocal p (timing start ptr) s = IsPointer stats j s.stats_by_cgroup ptr start.cgroup_id
  IsLocal p (sizing start ptr) s = IsPointer stats j s.stats_by_cgroup ptr start.cgroup_id
  IsLocal p (failing start ptr) s =
      IsPointer stats j s.stats_by_cgroup ptr start.cgroup_id × ((p.completion.error == 0) ≡ false)
  IsLocal p ph s = Unit

  -- the numbers of the cgroup with what a program owes stay as they are
  pub record Kept (p : Program) (ph ph' : Phase) (s s' : State starts stats) (v : CgroupIoStats)
      : Type 0 where
    pub totals : CgroupIoStats
    pub found : stats.lookup s'.stats_by_cgroup j ≡ some totals
    pub local : IsLocal p ph' s'
    pub sum :
        (a : Number)
        → (number a totals + owed starts stats a j p ph' s') % u64_mod
          ≡ (number a v + owed starts stats a j p ph s) % u64_mod

  -- what an addition to a cgroup's totals leaves of the ones of `j`
  abbrev changed : ℕ → (CgroupIoStats → CgroupIoStats) → CgroupIoStats → CgroupIoStats
  changed k f v = if k == j then f v else v

  pointer :
      (t : stats.State) (k : ℕ)
      → (if k == j then stats.element t k == stats.element t j else true) ≡ true
  pointer t k = ground (arith, ==_iff k j, ==_iff (stats.element t j) (stats.element t j))

  pub advance-Kept :
      (p : Program) (ph : Phase) (s : State starts stats) (v : CgroupIoStats)
      → stats.lookup s.stats_by_cgroup j ≡ some v
      → IsLocal p ph s
      → let (ph', s') = advance starts stats p ph s in Kept p ph ph' s s' v
  unfolding advance add64
  advance-Kept p entered s v h w = elim (Option-cases (starts.lookup s.start_map p.completion.rq)) [
    | inl e ↦
        rw (advance, e) (record { totals = v; found = h; local = tt; sum = λ a. ground (arith, e) })
    | inr (start, e) ↦
        rw (advance, e) (record { totals = v; found = h; local = tt; sum = λ a. ground (arith, e) })
  ]
  advance-Kept p (looking start) s v h w =
      elim (Option-cases (stats.lookup s.stats_by_cgroup start.cgroup_id)) [
        | inl e ↦
            rw (advance, e)
              (record {
                totals = v;
                found = h;
                local = ground (arith, e, h, ==_iff start.cgroup_id j);
                sum = λ a. refl;
              })
        | inr (x, e) ↦
            rw (advance, e)
              (record {
                totals = v;
                found = h;
                local = (ground (arith, e), pointer s.stats_by_cgroup start.cgroup_id);
                sum = λ a. refl;
              })
      ]
  advance-Kept p (creating start) s v h w = record {
    totals = v;
    found = ground (
      arith,
      h,
      w,
      stats.lookup-update s.stats_by_cgroup start.cgroup_id j zero_stats,
      stats.lookup-update_rejected s.stats_by_cgroup start.cgroup_id j zero_stats,
    );
    local = w;
    sum = λ a. refl;
  }
  advance-Kept p (rechecking start) s v h w =
      elim (Option-cases (stats.lookup s.stats_by_cgroup start.cgroup_id)) [
        | inl e ↦
            rw (advance, e)
              (record { totals = v; found = h; local = tt; sum = λ a. ground (arith, w) })
        | inr (x, e) ↦
            rw (advance, e)
              (record {
                totals = v;
                found = h;
                local = (ground (arith, e), pointer s.stats_by_cgroup start.cgroup_id);
                sum = λ a. refl;
              })
      ]
  advance-Kept p (counting start ptr) s v h w =
      let k = start.cgroup_id in
      let (now_found, there) =
        lookup-write_through stats j s.stats_by_cgroup ptr k (add_io_count 1) w v h in
      record {
        totals = changed k (add_io_count 1) v;
        found = now_found;
        local = there;
        sum = λ a. ground arith;
      }
  advance-Kept p (timing start ptr) s v h w =
      let k = start.cgroup_id in
      let (now_found, there) =
        lookup-write_through stats j s.stats_by_cgroup ptr k (add_latency (sub64 p.now start.ts_ns))
          w v h in
      record {
        totals = changed k (add_latency (sub64 p.now start.ts_ns)) v;
        found = now_found;
        local = there;
        sum = λ a. ground arith;
      }
  advance-Kept p (sizing start ptr) s v h w =
      let k = start.cgroup_id in
      let (now_found, there) =
        lookup-write_through stats j s.stats_by_cgroup ptr k (add_bytes start.bytes) w v h in
      elim (Bool-cases (p.completion.error == 0)) [
        | inl e ↦
            rw (advance, e)
              (record {
                totals = changed k (add_bytes start.bytes) v;
                found = now_found;
                local = tt;
                sum = λ a. ground (arith, e);
              })
        | inr e ↦
            rw (advance, e)
              (record {
                totals = changed k (add_bytes start.bytes) v;
                found = now_found;
                local = (there, e);
                sum = λ a. ground arith;
              })
      ]
  advance-Kept p (failing start ptr) s v h w =
      let k = start.cgroup_id in
      let (now_found, there) =
        lookup-write_through stats j s.stats_by_cgroup ptr k (add_error_count 1) w.0 v h in
      record {
        totals = changed k (add_error_count 1) v;
        found = now_found;
        local = tt;
        sum = λ a. ground (arith, w.1);
      }
  advance-Kept p leaving s v h w = record { totals = v; found = h; local = tt; sum = λ a. refl }
  advance-Kept p ended s v h w = record { totals = v; found = h; local = tt; sum = λ a. refl }
