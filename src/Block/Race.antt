-- ===== src/Block/Race.antt =====
-- Two completions of one new cgroup on two processors: each looks the cgroup's totals up and finds
-- none, one goes on to its end, and then the other does.
use e_bpf_kubernetes_operato.Common.{ℕ, false, Option, none, some, ◌≡◌, ◌≢◌, arith, ==_iff}
use e_bpf_kubernetes_operato.Common.Words.{sub64}
use e_bpf_kubernetes_operato.Bpf.Create.{create_missing, lookup_or_create}
use e_bpf_kubernetes_operato.Block.{
  StartVal, CgroupIoStats, Completion, StartMap, StatsMap, Maps, zero_stats, settle_missing,
  block_rq_complete,
}
use e_bpf_kubernetes_operato.Block.Effect.{
  charge, lookup-account, start_map-block_rq_complete, stats_by_cgroup-block_rq_complete,
}

module _ (starts : StartMap) (stats : StatsMap) where
  -- where the cgroup has no totals, `settle_missing` is the rest of the completion
  pub block_rq_complete-missing :
      (c : Completion) (now : ℕ) (start : StartVal) (s : Maps starts.State stats.State)
      → starts.lookup s.start_map c.rq ≡ some start
      → stats.lookup s.stats_by_cgroup start.cgroup_id ≡ none
      → block_rq_complete starts stats c now s ≡ settle_missing starts stats c now start s
  unfolding block_rq_complete settle_missing lookup_or_create
  block_rq_complete-missing c now start s seen missing = ground arith

  stats-settle_missing :
      (c : Completion) (now : ℕ) (start : StartVal) (s : Maps starts.State stats.State)
      → stats.rejects s.stats_by_cgroup start.cgroup_id ≡ false
      → stats.lookup (settle_missing starts stats c now start s).stats_by_cgroup start.cgroup_id
        ≡ some (charge c.error (sub64 now start.ts_ns) start.bytes zero_stats)
  unfolding settle_missing create_missing
  stats-settle_missing c now start s room =
      let k = start.cgroup_id in
      let t = stats.update s.stats_by_cgroup k zero_stats in
      ground (
        arith,
        ==_iff k k,
        stats.lookup-update s.stats_by_cgroup k k zero_stats,
        lookup-account starts stats c.error (sub64 now start.ts_ns) start t zero_stats k,
      )

  abbrev pub totals : Maps starts.State stats.State → ℕ → Option CgroupIoStats
  totals s k = stats.lookup s.stats_by_cgroup k

  -- Two completions of requests of one cgroup that has no totals yet, with room for them, in this
  -- order: both look the totals up and find none, the first one goes on to its end, and only then
  -- the second one puts its zero value. This replaces the first one's totals, and only the second
  -- request is counted, where one completion after the other counts both.
  pub lost_completion :
      (a b : Completion) (now : ℕ) (start_a start_b : StartVal) (s : Maps starts.State stats.State)
      → starts.lookup s.start_map a.rq ≡ some start_a
      → starts.lookup s.start_map b.rq ≡ some start_b
      → start_a.cgroup_id ≡ start_b.cgroup_id
      → a.rq ≢ b.rq
      → totals s start_b.cgroup_id ≡ none
      → stats.rejects s.stats_by_cgroup start_a.cgroup_id ≡ false
      → stats.rejects (block_rq_complete starts stats a now s).stats_by_cgroup start_b.cgroup_id
        ≡ false
      → let s' = block_rq_complete starts stats a now s in
        let charge_a = charge a.error (sub64 now start_a.ts_ns) start_a.bytes in
        let charge_b = charge b.error (sub64 now start_b.ts_ns) start_b.bytes in
        (totals (settle_missing starts stats b now start_b s') start_b.cgroup_id
          ≡ some (charge_b zero_stats))
        × (totals (block_rq_complete starts stats b now s') start_b.cgroup_id
            ≡ some (charge_b (charge_a zero_stats)))
  lost_completion a b now start_a start_b s seen_a seen_b one two missing room room' =
      let s' = block_rq_complete starts stats a now s in
      let k = start_b.cgroup_id in
      (
        stats-settle_missing b now start_b s' room',
        ground (
          arith,
          one,
          missing,
          room,
          ==_iff k k,
          ==_iff a.rq b.rq,
          start_map-block_rq_complete starts stats a now s b.rq,
          stats_by_cgroup-block_rq_complete starts stats a now s start_a k seen_a,
          stats_by_cgroup-block_rq_complete starts stats b now s' start_b k,
        ),
      )
