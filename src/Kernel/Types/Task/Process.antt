-- ===== src/Kernel/Types/Task/Process.antt =====
-- Members of a task, from ebpf/vmlinux.h.
use e_bpf_kubernetes_operato.Kernel.Layout.{Members, int, pointer, array, field, done, ◌⨾◌}
use e_bpf_kubernetes_operato.Kernel.Types.Links.{list_head, hlist_node, wake_q_node, rb_root_cached}
use e_bpf_kubernetes_operato.Kernel.Types.Process.{
  restart_block, posix_cputimers, posix_cputimers_work, sysv_sem, sysv_shm, sigset_t, sigpending,
  kuid_t, seccomp, syscall_user_dispatch, task_io_accounting, nodemask_t,
}
use e_bpf_kubernetes_operato.Kernel.Types.Scalars.{pid_t, u64, size_t}
use e_bpf_kubernetes_operato.Kernel.Types.Sched.{prev_cputime, vtime}
use e_bpf_kubernetes_operato.Kernel.Types.Locks.{
  atomic_t, spinlock_t, raw_spinlock_t, seqcount_spinlock_t,
}

unfoldable pub task_struct_process : Members
unfolding list_head restart_block pid_t hlist_node u64 prev_cputime vtime atomic_t posix_cputimers
    posix_cputimers_work sysv_sem sysv_shm sigset_t sigpending size_t kuid_t seccomp
    syscall_user_dispatch spinlock_t raw_spinlock_t wake_q_node rb_root_cached task_io_accounting
    nodemask_t seqcount_spinlock_t
task_struct_process =
    field "restart_block" restart_block
    ⨾ field "pid" pid_t
    ⨾ field "tgid" pid_t
    ⨾ field "stack_canary" (int 8)
    ⨾ field "real_parent" pointer
    ⨾ field "parent" pointer
    ⨾ field "children" list_head
    ⨾ field "sibling" list_head
    ⨾ field "group_leader" pointer
    ⨾ field "ptraced" list_head
    ⨾ field "ptrace_entry" list_head
    ⨾ field "thread_pid" pointer
    ⨾ field "pid_links" (array 4 hlist_node)
    ⨾ field "thread_node" list_head
    ⨾ field "vfork_done" pointer
    ⨾ field "set_child_tid" pointer
    ⨾ field "clear_child_tid" pointer
    ⨾ field "worker_private" pointer
    ⨾ field "utime" u64
    ⨾ field "stime" u64
    ⨾ field "gtime" u64
    ⨾ field "prev_cputime" prev_cputime
    ⨾ field "vtime" vtime
    ⨾ field "tick_dep_mask" atomic_t
    ⨾ field "nvcsw" (int 8)
    ⨾ field "nivcsw" (int 8)
    ⨾ field "start_time" u64
    ⨾ field "start_boottime" u64
    ⨾ field "min_flt" (int 8)
    ⨾ field "maj_flt" (int 8)
    ⨾ field "posix_cputimers" posix_cputimers
    ⨾ field "posix_cputimers_work" posix_cputimers_work
    ⨾ field "ptracer_cred" pointer
    ⨾ field "real_cred" pointer
    ⨾ field "cred" pointer
    ⨾ field "cached_requested_key" pointer
    ⨾ field "comm" (array 16 (int 1))
    ⨾ field "nameidata" pointer
    ⨾ field "sysvsem" sysv_sem
    ⨾ field "sysvshm" sysv_shm
    ⨾ field "last_switch_count" (int 8)
    ⨾ field "last_switch_time" (int 8)
    ⨾ field "fs" pointer
    ⨾ field "files" pointer
    ⨾ field "io_uring" pointer
    ⨾ field "nsproxy" pointer
    ⨾ field "signal" pointer
    ⨾ field "sighand" pointer
    ⨾ field "blocked" sigset_t
    ⨾ field "real_blocked" sigset_t
    ⨾ field "saved_sigmask" sigset_t
    ⨾ field "pending" sigpending
    ⨾ field "sas_ss_sp" (int 8)
    ⨾ field "sas_ss_size" size_t
    ⨾ field "sas_ss_flags" (int 4)
    ⨾ field "task_works" pointer
    ⨾ field "audit_context" pointer
    ⨾ field "loginuid" kuid_t
    ⨾ field "sessionid" (int 4)
    ⨾ field "seccomp" seccomp
    ⨾ field "syscall_dispatch" syscall_user_dispatch
    ⨾ field "parent_exec_id" u64
    ⨾ field "self_exec_id" u64
    ⨾ field "alloc_lock" spinlock_t
    ⨾ field "pi_lock" raw_spinlock_t
    ⨾ field "wake_q" wake_q_node
    ⨾ field "pi_waiters" rb_root_cached
    ⨾ field "pi_top_task" pointer
    ⨾ field "pi_blocked_on" pointer
    ⨾ field "journal_info" pointer
    ⨾ field "bio_list" pointer
    ⨾ field "plug" pointer
    ⨾ field "reclaim_state" pointer
    ⨾ field "io_context" pointer
    ⨾ field "capture_control" pointer
    ⨾ field "ptrace_message" (int 8)
    ⨾ field "last_siginfo" pointer
    ⨾ field "ioac" task_io_accounting
    ⨾ field "psi_flags" (int 4)
    ⨾ field "acct_rss_mem1" u64
    ⨾ field "acct_vm_mem1" u64
    ⨾ field "acct_timexpd" u64
    ⨾ field "mems_allowed" nodemask_t
    ⨾ field "mems_allowed_seq" seqcount_spinlock_t
    ⨾ field "cpuset_mem_spread_rotor" (int 4)
    ⨾ field "cgroups" pointer
    ⨾ field "cg_list" list_head
    ⨾ done
