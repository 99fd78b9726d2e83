-- ===== src/Block.antt =====
-- ebpf/latency/block_latency.c: the two programs on the block layer's tracepoints. The clock, the
-- current cgroup, the request's address and its length are arguments of the programs; `int error`
-- is its bit pattern, of which the code asks only whether it is zero.
pub mod Effect
pub mod Ledger
pub mod Counts
pub mod Race
pub mod Steps
pub mod Interleave
use e_bpf_kubernetes_operato.Common.{ℕ, Bool, none, some, ◌==◌, if◌then◌else◌}
use e_bpf_kubernetes_operato.Common.Words.{add64, sub64}
use e_bpf_kubernetes_operato.Bpf.Map.{BpfMap}
use e_bpf_kubernetes_operato.Bpf.Create.{create_missing, lookup_or_create}

pub record StartVal : Type 0 where
  pub ts_ns : ℕ
  pub bytes : ℕ
  pub cgroup_id : ℕ

pub record CgroupIoStats : Type 0 where
  pub io_count : ℕ
  pub total_latency_ns : ℕ
  pub total_bytes : ℕ
  pub error_count : ℕ

-- what the programs read of a `struct request`: its address and `__data_len`
pub record Request : Type 0 where
  pub address : ℕ
  pub data_len : ℕ

-- the arguments of `block_rq_complete`
pub record Completion : Type 0 where
  pub rq : ℕ
  pub error : ℕ
  pub nr_bytes : ℕ

abbrev pub StartMap : Type 1
StartMap = BpfMap ℕ StartVal ◌==◌

abbrev pub StatsMap : Type 1
StatsMap = BpfMap ℕ CgroupIoStats ◌==◌

pub record Maps (S T : Type 0) : Type 0 where
  pub start_map : S
  pub stats_by_cgroup : T

abbrev pub zero_stats : CgroupIoStats
zero_stats = record { io_count = 0; total_latency_ns = 0; total_bytes = 0; error_count = 0 }

-- `__sync_fetch_and_add` on each field
abbrev pub add_io_count : ℕ → CgroupIoStats → CgroupIoStats
add_io_count d v = record v { io_count = add64 v.io_count d }

abbrev pub add_latency : ℕ → CgroupIoStats → CgroupIoStats
add_latency d v = record v { total_latency_ns = add64 v.total_latency_ns d }

abbrev pub add_bytes : ℕ → CgroupIoStats → CgroupIoStats
add_bytes d v = record v { total_bytes = add64 v.total_bytes d }

abbrev pub add_error_count : ℕ → CgroupIoStats → CgroupIoStats
add_error_count d v = record v { error_count = add64 v.error_count d }

module _ (starts : StartMap) (stats : StatsMap) where
  unfoldable pub block_rq_issue :
      Request → ℕ → ℕ → Maps starts.State stats.State → Maps starts.State stats.State
  block_rq_issue rq now current_cgroup s =
      let val : StartVal = record {
        ts_ns = now;
        bytes = rq.data_len;
        cgroup_id = current_cgroup;
      } in
      record s { start_map = starts.update s.start_map rq.address val }

  -- the four additions through the pointer to the cgroup's totals
  unfoldable pub account : ℕ → ℕ → StartVal → stats.State → stats.State
  account error delta start t =
      let t1 = stats.write t start.cgroup_id (add_io_count 1) in
      let t2 = stats.write t1 start.cgroup_id (add_latency delta) in
      let t3 = stats.write t2 start.cgroup_id (add_bytes start.bytes) in
      if error == 0 then t3 else stats.write t3 start.cgroup_id (add_error_count 1)

  -- from the test of the pointer to the totals on, with the map that the lookup left
  unfoldable pub finish :
      Completion
      → ℕ
      → StartVal
      → Bool × stats.State
      → Maps starts.State stats.State
      → Maps starts.State stats.State
  finish c now start (found, t) s =
      let delta = sub64 now start.ts_ns in
      record {
        start_map = starts.delete s.start_map c.rq;
        stats_by_cgroup = if found then account c.error delta start t else t;
      }

  -- from the lookup of the cgroup's totals on, the start value found
  unfoldable pub settle :
      Completion → ℕ → StartVal → Maps starts.State stats.State → Maps starts.State stats.State
  unfolding finish
  settle c now start s =
      finish c now start (lookup_or_create stats zero_stats s.stats_by_cgroup start.cgroup_id) s

  -- the same where that lookup has already found nothing
  unfoldable pub settle_missing :
      Completion → ℕ → StartVal → Maps starts.State stats.State → Maps starts.State stats.State
  unfolding finish
  settle_missing c now start s =
      finish c now start (create_missing stats zero_stats s.stats_by_cgroup start.cgroup_id) s

  unfoldable pub block_rq_complete :
      Completion → ℕ → Maps starts.State stats.State → Maps starts.State stats.State
  unfolding settle
  block_rq_complete c now s = elim (starts.lookup s.start_map c.rq) [
    | none ↦ s
    | some start ↦ settle c now start s
  ]
