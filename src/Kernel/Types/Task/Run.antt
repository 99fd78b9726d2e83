-- ===== src/Kernel/Types/Task/Run.antt =====
-- Members of a task, from ebpf/vmlinux.h.
use e_bpf_kubernetes_operato.Kernel.Layout.{Members, int, pointer, field, bits, done, ◌⨾◌}
use e_bpf_kubernetes_operato.Kernel.Types.Process.{thread_info, call_single_node}
use e_bpf_kubernetes_operato.Kernel.Types.Locks.{refcount_t}
use e_bpf_kubernetes_operato.Kernel.Types.Sched.{
  sched_entity, sched_rt_entity, sched_dl_entity, sched_statistics, cpumask_t, rcu_special,
  sched_info,
}
use e_bpf_kubernetes_operato.Kernel.Types.Links.{hlist_head, list_head, plist_node, rb_node}
use e_bpf_kubernetes_operato.Kernel.Types.Scalars.{u8}

unfoldable pub task_struct_run : Members
unfolding thread_info refcount_t call_single_node sched_entity sched_rt_entity sched_dl_entity
    sched_statistics hlist_head cpumask_t rcu_special list_head u8 sched_info plist_node rb_node
task_struct_run =
    field "thread_info" thread_info
    ⨾ field "__state" (int 4)
    ⨾ field "saved_state" (int 4)
    ⨾ field "stack" pointer
    ⨾ field "usage" refcount_t
    ⨾ field "flags" (int 4)
    ⨾ field "ptrace" (int 4)
    ⨾ field "on_cpu" (int 4)
    ⨾ field "wake_entry" call_single_node
    ⨾ field "wakee_flips" (int 4)
    ⨾ field "wakee_flip_decay_ts" (int 8)
    ⨾ field "last_wakee" pointer
    ⨾ field "recent_used_cpu" (int 4)
    ⨾ field "wake_cpu" (int 4)
    ⨾ field "on_rq" (int 4)
    ⨾ field "prio" (int 4)
    ⨾ field "static_prio" (int 4)
    ⨾ field "normal_prio" (int 4)
    ⨾ field "rt_priority" (int 4)
    ⨾ field "se" sched_entity
    ⨾ field "rt" sched_rt_entity
    ⨾ field "dl" sched_dl_entity
    ⨾ field "dl_server" pointer
    ⨾ field "sched_class" pointer
    ⨾ field "sched_task_group" pointer
    ⨾ field "stats" sched_statistics
    ⨾ field "preempt_notifiers" hlist_head
    ⨾ field "btrace_seq" (int 4)
    ⨾ field "policy" (int 4)
    ⨾ field "max_allowed_capacity" (int 8)
    ⨾ field "nr_cpus_allowed" (int 4)
    ⨾ field "cpus_ptr" pointer
    ⨾ field "user_cpus_ptr" pointer
    ⨾ field "cpus_mask" cpumask_t
    ⨾ field "migration_pending" pointer
    ⨾ field "migration_disabled" (int 2)
    ⨾ field "migration_flags" (int 2)
    ⨾ field "rcu_read_lock_nesting" (int 4)
    ⨾ field "rcu_read_unlock_special" rcu_special
    ⨾ field "rcu_node_entry" list_head
    ⨾ field "rcu_blocked_node" pointer
    ⨾ field "rcu_tasks_nvcsw" (int 8)
    ⨾ field "rcu_tasks_holdout" u8
    ⨾ field "rcu_tasks_idx" u8
    ⨾ field "rcu_tasks_idle_cpu" (int 4)
    ⨾ field "rcu_tasks_holdout_list" list_head
    ⨾ field "rcu_tasks_exit_cpu" (int 4)
    ⨾ field "rcu_tasks_exit_list" list_head
    ⨾ field "trc_reader_nesting" (int 4)
    ⨾ field "trc_ipi_to_cpu" (int 4)
    ⨾ field "trc_reader_special" rcu_special
    ⨾ field "trc_holdout_list" list_head
    ⨾ field "trc_blkd_node" list_head
    ⨾ field "trc_blkd_cpu" (int 4)
    ⨾ field "sched_info" sched_info
    ⨾ field "tasks" list_head
    ⨾ field "pushable_tasks" plist_node
    ⨾ field "pushable_dl_tasks" rb_node
    ⨾ field "mm" pointer
    ⨾ field "active_mm" pointer
    ⨾ field "faults_disabled_mapping" pointer
    ⨾ field "exit_state" (int 4)
    ⨾ field "exit_code" (int 4)
    ⨾ field "exit_signal" (int 4)
    ⨾ field "pdeath_signal" (int 4)
    ⨾ field "jobctl" (int 8)
    ⨾ field "personality" (int 4)
    ⨾ bits "sched_reset_on_fork" 4 1
    ⨾ bits "sched_contributes_to_load" 4 1
    ⨾ bits "sched_migrated" 4 1
    ⨾ bits "sched_task_hot" 4 1
    ⨾ bits "" 8 28
    ⨾ bits "sched_remote_wakeup" 4 1
    ⨾ bits "sched_rt_mutex" 4 1
    ⨾ bits "in_execve" 4 1
    ⨾ bits "in_iowait" 4 1
    ⨾ bits "restore_sigmask" 4 1
    ⨾ bits "in_lru_fault" 4 1
    ⨾ bits "no_cgroup_migration" 4 1
    ⨾ bits "frozen" 4 1
    ⨾ bits "use_memdelay" 4 1
    ⨾ bits "in_memstall" 4 1
    ⨾ bits "in_eventfd" 4 1
    ⨾ bits "pasid_activated" 4 1
    ⨾ bits "reported_split_lock" 4 1
    ⨾ bits "in_thrashing" 4 1
    ⨾ field "atomic_flags" (int 8)
    ⨾ done
