-- ===== src/Kernel/Types/Sched.antt =====
-- What a task keeps for the scheduler, from ebpf/vmlinux.h.
use e_bpf_kubernetes_operato.Kernel.Layout.{
  CType, int, pointer, array, struct, union, field, bits, done, ◌⨾◌,
}
use e_bpf_kubernetes_operato.Kernel.Types.Scalars.{u32, u64, s64, u8}
use e_bpf_kubernetes_operato.Kernel.Types.Links.{rb_node, list_head}
use e_bpf_kubernetes_operato.Kernel.Types.Locks.{hrtimer, raw_spinlock_t, seqcount_t}

unfoldable pub load_weight : CType
unfolding u32
load_weight = struct (field "weight" (int 8) ⨾ field "inv_weight" u32 ⨾ done)

unfoldable pub sched_avg : CType
unfolding u64 u32
sched_avg = struct (
    field "last_update_time" u64
    ⨾ field "load_sum" u64
    ⨾ field "runnable_sum" u64
    ⨾ field "util_sum" u32
    ⨾ field "period_contrib" u32
    ⨾ field "load_avg" (int 8)
    ⨾ field "runnable_avg" (int 8)
    ⨾ field "util_avg" (int 8)
    ⨾ field "util_est" (int 4)
    ⨾ done)

unfoldable pub sched_entity : CType
unfolding load_weight rb_node u64 list_head s64 sched_avg
sched_entity = struct (
    field "load" load_weight
    ⨾ field "run_node" rb_node
    ⨾ field "deadline" u64
    ⨾ field "min_vruntime" u64
    ⨾ field "min_slice" u64
    ⨾ field "group_node" list_head
    ⨾ field "on_rq" (int 1)
    ⨾ field "sched_delayed" (int 1)
    ⨾ field "rel_deadline" (int 1)
    ⨾ field "custom_slice" (int 1)
    ⨾ field "exec_start" u64
    ⨾ field "sum_exec_runtime" u64
    ⨾ field "prev_sum_exec_runtime" u64
    ⨾ field "vruntime" u64
    ⨾ field "vlag" s64
    ⨾ field "slice" u64
    ⨾ field "nr_migrations" u64
    ⨾ field "depth" (int 4)
    ⨾ field "parent" pointer
    ⨾ field "cfs_rq" pointer
    ⨾ field "my_q" pointer
    ⨾ field "runnable_weight" (int 8)
    ⨾ bits "" 8 64
    ⨾ field "avg" sched_avg
    ⨾ done)

unfoldable pub sched_rt_entity : CType
unfolding list_head
sched_rt_entity = struct (
    field "run_list" list_head
    ⨾ field "timeout" (int 8)
    ⨾ field "watchdog_stamp" (int 8)
    ⨾ field "time_slice" (int 4)
    ⨾ field "on_rq" (int 2)
    ⨾ field "on_list" (int 2)
    ⨾ field "back" pointer
    ⨾ done)

unfoldable pub sched_dl_entity : CType
unfolding rb_node u64 s64 hrtimer
sched_dl_entity = struct (
    field "rb_node" rb_node
    ⨾ field "dl_runtime" u64
    ⨾ field "dl_deadline" u64
    ⨾ field "dl_period" u64
    ⨾ field "dl_bw" u64
    ⨾ field "dl_density" u64
    ⨾ field "runtime" s64
    ⨾ field "deadline" u64
    ⨾ field "flags" (int 4)
    ⨾ bits "dl_throttled" 4 1
    ⨾ bits "dl_yielded" 4 1
    ⨾ bits "dl_non_contending" 4 1
    ⨾ bits "dl_overrun" 4 1
    ⨾ bits "dl_server" 4 1
    ⨾ bits "dl_server_active" 4 1
    ⨾ bits "dl_defer" 4 1
    ⨾ bits "dl_defer_armed" 4 1
    ⨾ bits "dl_defer_running" 4 1
    ⨾ field "dl_timer" hrtimer
    ⨾ field "inactive_timer" hrtimer
    ⨾ field "rq" pointer
    ⨾ field "server_has_tasks" pointer
    ⨾ field "server_pick_task" pointer
    ⨾ field "pi_se" pointer
    ⨾ done)

unfoldable pub sched_statistics : CType
unfolding u64 s64
sched_statistics = struct (
    field "wait_start" u64
    ⨾ field "wait_max" u64
    ⨾ field "wait_count" u64
    ⨾ field "wait_sum" u64
    ⨾ field "iowait_count" u64
    ⨾ field "iowait_sum" u64
    ⨾ field "sleep_start" u64
    ⨾ field "sleep_max" u64
    ⨾ field "sum_sleep_runtime" s64
    ⨾ field "block_start" u64
    ⨾ field "block_max" u64
    ⨾ field "sum_block_runtime" s64
    ⨾ field "exec_max" s64
    ⨾ field "slice_max" u64
    ⨾ field "nr_migrations_cold" u64
    ⨾ field "nr_failed_migrations_affine" u64
    ⨾ field "nr_failed_migrations_running" u64
    ⨾ field "nr_failed_migrations_hot" u64
    ⨾ field "nr_forced_migrations" u64
    ⨾ field "nr_wakeups" u64
    ⨾ field "nr_wakeups_sync" u64
    ⨾ field "nr_wakeups_migrate" u64
    ⨾ field "nr_wakeups_local" u64
    ⨾ field "nr_wakeups_remote" u64
    ⨾ field "nr_wakeups_affine" u64
    ⨾ field "nr_wakeups_affine_attempts" u64
    ⨾ field "nr_wakeups_passive" u64
    ⨾ field "nr_wakeups_idle" u64
    ⨾ bits "" 8 64
    ⨾ bits "" 8 64
    ⨾ bits "" 8 64
    ⨾ bits "" 8 64
    ⨾ done)

unfoldable pub cpumask : CType
cpumask = struct (field "bits" (array 128 (int 8)) ⨾ done)

unfoldable pub cpumask_t : CType
unfolding cpumask
cpumask_t = cpumask

unfoldable pub rcu_special : CType
unfolding u8 u32
rcu_special = union (
    field "b" (
      struct
        (field "blocked" u8 ⨾ field "need_qs" u8 ⨾ field "exp_hint" u8 ⨾ field "need_mb" u8 ⨾ done))
    ⨾ field "s" u32
    ⨾ done)

unfoldable pub sched_info : CType
sched_info = struct (
    field "pcount" (int 8)
    ⨾ field "run_delay" (int 8)
    ⨾ field "last_arrival" (int 8)
    ⨾ field "last_queued" (int 8)
    ⨾ done)

unfoldable pub prev_cputime : CType
unfolding u64 raw_spinlock_t
prev_cputime = struct (field "utime" u64 ⨾ field "stime" u64 ⨾ field "lock" raw_spinlock_t ⨾ done)

unfoldable pub vtime : CType
unfolding seqcount_t u64
vtime = struct (
    field "seqcount" seqcount_t
    ⨾ field "starttime" (int 8)
    ⨾ field "state" (int 4)
    ⨾ field "cpu" (int 4)
    ⨾ field "utime" u64
    ⨾ field "stime" u64
    ⨾ field "gtime" u64
    ⨾ done)
