-- ===== src/Block/Effect.antt =====
-- What each program of block_latency.c does to the two maps, on every branch.
use e_bpf_kubernetes_operato.Common.{
  ℕ, not, ◌&&◌, none, some, ◌≡◌, refl, arith, ◌==◌, ==_iff, if◌then◌else◌, value_or,
}
use e_bpf_kubernetes_operato.Common.Words.{add64, sub64}
use e_bpf_kubernetes_operato.Bpf.Create.{
  lookup_or_create, admits, lookup_or_create-found, lookup-lookup_or_create,
}
use e_bpf_kubernetes_operato.Block.{
  StartVal, CgroupIoStats, Request, Completion, StartMap, StatsMap, Maps, zero_stats, add_io_count,
  add_latency, add_bytes, add_error_count, block_rq_issue, account, block_rq_complete,
}

-- one completed request: the totals that it leaves
unfoldable pub charge : ℕ → ℕ → ℕ → CgroupIoStats → CgroupIoStats
charge error delta bytes v = record {
  io_count = add64 v.io_count 1;
  total_latency_ns = add64 v.total_latency_ns delta;
  total_bytes = add64 v.total_bytes bytes;
  error_count = if error == 0 then v.error_count else add64 v.error_count 1;
}

module _ (starts : StartMap) (stats : StatsMap) where
  pub lookup-account :
      (error delta : ℕ) (start : StartVal) (t : stats.State) (v : CgroupIoStats) (j : ℕ)
      → stats.lookup t start.cgroup_id ≡ some v
      → stats.lookup (account starts stats error delta start t) j ≡ (
          if start.cgroup_id == j
          then some (charge error delta start.bytes v)
          else stats.lookup t j)
  unfolding account charge
  lookup-account error delta start t v j h =
      let k = start.cgroup_id in
      let t1 = stats.write t k (add_io_count 1) in
      let t2 = stats.write t1 k (add_latency delta) in
      let t3 = stats.write t2 k (add_bytes start.bytes) in
      let v1 = add_io_count 1 v in
      let v2 = add_latency delta v1 in
      let v3 = add_bytes start.bytes v2 in
      let self = λ (i : ℕ). (==_iff i i).1 refl in
      let h1 : stats.lookup t1 k ≡ some v1 = rw (stats.lookup-write t k k v _ h, self k) in
      let h2 : stats.lookup t2 k ≡ some v2 = rw (stats.lookup-write t1 k k v1 _ h1, self k) in
      let h3 : stats.lookup t3 k ≡ some v3 = rw (stats.lookup-write t2 k k v2 _ h2, self k) in
      ground (
        arith,
        stats.lookup-write t k j v (add_io_count 1) h,
        stats.lookup-write t1 k j v1 (add_latency delta) h1,
        stats.lookup-write t2 k j v2 (add_bytes start.bytes) h2,
        stats.lookup-write t3 k j v3 (add_error_count 1) h3,
      )

  -- An issue records the time, the length and the current cgroup under the request's address, unless
  -- the map is full, and leaves the other requests.
  pub start_map-block_rq_issue :
      (rq : Request) (now current_cgroup : ℕ) (s : Maps starts.State stats.State) (j : ℕ)
      → starts.lookup (block_rq_issue starts stats rq now current_cgroup s).start_map j ≡ (
          if not (starts.rejects s.start_map rq.address) && rq.address == j
          then some (record { ts_ns = now; bytes = rq.data_len; cgroup_id = current_cgroup })
          else starts.lookup s.start_map j)
  unfolding block_rq_issue
  start_map-block_rq_issue rq now current_cgroup s j =
      let val : StartVal = record {
        ts_ns = now;
        bytes = rq.data_len;
        cgroup_id = current_cgroup;
      } in
      ground (
        arith,
        starts.lookup-update s.start_map rq.address j val,
        starts.lookup-update_rejected s.start_map rq.address j val,
      )

  module _ (c : Completion) (now : ℕ) (s : Maps starts.State stats.State) where
    -- After a completion its request has no start value, and every other request has the one that
    -- it had: on each branch, the one where the totals could not be created included.
    pub start_map-block_rq_complete :
        (j : ℕ)
        → starts.lookup (block_rq_complete starts stats c now s).start_map j
          ≡ (if c.rq == j then none else starts.lookup s.start_map j)
    unfolding block_rq_complete
    start_map-block_rq_complete j = ground (arith, starts.lookup-delete s.start_map c.rq j)

    -- a completion whose request was not seen at its issue changes nothing
    pub block_rq_complete_unseen :
        starts.lookup s.start_map c.rq ≡ none → block_rq_complete starts stats c now s ≡ s
    unfolding block_rq_complete
    block_rq_complete_unseen h = ground arith

    -- A completion of a request that was seen adds one request, the time since its issue, its length
    -- and its error, if it has one, to the totals of the cgroup of its issue, which start at zero if
    -- there were none, unless these could not be created; the other cgroups keep theirs.
    pub stats_by_cgroup-block_rq_complete :
        (start : StartVal) (j : ℕ)
        → starts.lookup s.start_map c.rq ≡ some start
        → stats.lookup (block_rq_complete starts stats c now s).stats_by_cgroup j ≡ (
            if admits stats s.stats_by_cgroup start.cgroup_id && start.cgroup_id == j
            then some (
                charge c.error
                  (sub64 now start.ts_ns)
                  start.bytes
                  (value_or (stats.lookup s.stats_by_cgroup start.cgroup_id) zero_stats))
            else stats.lookup s.stats_by_cgroup j)
    unfolding block_rq_complete
    stats_by_cgroup-block_rq_complete start j h =
        let t = s.stats_by_cgroup in
        let k = start.cgroup_id in
        let delta = sub64 now start.ts_ns in
        let t' = (lookup_or_create stats zero_stats t k).1 in
        let v = value_or (stats.lookup t k) zero_stats in
        let at = λ (i : ℕ). lookup-lookup_or_create stats zero_stats ==_iff t k i in
        ground (
          arith,
          h,
          at j,
          at k,
          ==_iff k k,
          lookup_or_create-found stats zero_stats ==_iff t k,
          lookup-account c.error delta start t' v j,
        )
