-- ===== src/Kernel/Types/Signals.antt =====
-- What the tasks of a process share, from ebpf/vmlinux.h.
use e_bpf_kubernetes_operato.Kernel.Layout.{
  CType, int, pointer, array, struct, union, field, bits, done, ◌⨾◌,
}
use e_bpf_kubernetes_operato.Kernel.Types.Scalars.{gid_t, u64, ktime_t, bool}
use e_bpf_kubernetes_operato.Kernel.Types.Locks.{
  atomic_long_t, atomic64_t, refcount_t, atomic_t, wait_queue_head_t, hrtimer, seqlock_t, mutex,
  rw_semaphore,
}
use e_bpf_kubernetes_operato.Kernel.Types.Process.{
  kuid_t, sigpending, posix_cputimers, task_io_accounting,
}
use e_bpf_kubernetes_operato.Kernel.Types.Links.{callback_head, list_head, hlist_head}
use e_bpf_kubernetes_operato.Kernel.Types.Sched.{prev_cputime}

unfoldable pub kgid_t : CType
unfolding gid_t
kgid_t = struct (field "val" gid_t ⨾ done)

unfoldable pub kernel_cap_t : CType
unfolding u64
kernel_cap_t = struct (field "val" u64 ⨾ done)

unfoldable pub cred : CType
unfolding atomic_long_t kuid_t kgid_t kernel_cap_t callback_head
cred = struct (
    field "usage" atomic_long_t
    ⨾ field "uid" kuid_t
    ⨾ field "gid" kgid_t
    ⨾ field "suid" kuid_t
    ⨾ field "sgid" kgid_t
    ⨾ field "euid" kuid_t
    ⨾ field "egid" kgid_t
    ⨾ field "fsuid" kuid_t
    ⨾ field "fsgid" kgid_t
    ⨾ field "securebits" (int 4)
    ⨾ field "cap_inheritable" kernel_cap_t
    ⨾ field "cap_permitted" kernel_cap_t
    ⨾ field "cap_effective" kernel_cap_t
    ⨾ field "cap_bset" kernel_cap_t
    ⨾ field "cap_ambient" kernel_cap_t
    ⨾ field "jit_keyring" (int 1)
    ⨾ field "session_keyring" pointer
    ⨾ field "process_keyring" pointer
    ⨾ field "thread_keyring" pointer
    ⨾ field "request_key_auth" pointer
    ⨾ field "security" pointer
    ⨾ field "user" pointer
    ⨾ field "user_ns" pointer
    ⨾ field "ucounts" pointer
    ⨾ field "group_info" pointer
    ⨾ field "" (union (field "non_rcu" (int 4) ⨾ field "rcu" callback_head ⨾ done))
    ⨾ done)

unfoldable pub cpu_itimer : CType
unfolding u64
cpu_itimer = struct (field "expires" u64 ⨾ field "incr" u64 ⨾ done)

unfoldable pub task_cputime_atomic : CType
unfolding atomic64_t
task_cputime_atomic = struct (
    field "utime" atomic64_t
    ⨾ field "stime" atomic64_t
    ⨾ field "sum_exec_runtime" atomic64_t
    ⨾ done)

unfoldable pub thread_group_cputimer : CType
unfolding task_cputime_atomic
thread_group_cputimer = struct (field "cputime_atomic" task_cputime_atomic ⨾ done)

unfoldable pub rlimit : CType
rlimit = struct (field "rlim_cur" (int 8) ⨾ field "rlim_max" (int 8) ⨾ done)

unfoldable pub pacct_struct : CType
unfolding u64
pacct_struct = struct (
    field "ac_flag" (int 4)
    ⨾ field "ac_exitcode" (int 8)
    ⨾ field "ac_mem" (int 8)
    ⨾ field "ac_utime" u64
    ⨾ field "ac_stime" u64
    ⨾ field "ac_minflt" (int 8)
    ⨾ field "ac_majflt" (int 8)
    ⨾ done)

unfoldable pub signal_struct : CType
unfolding refcount_t atomic_t list_head wait_queue_head_t sigpending hlist_head hrtimer ktime_t
    cpu_itimer thread_group_cputimer posix_cputimers seqlock_t u64 prev_cputime task_io_accounting
    rlimit pacct_struct bool mutex rw_semaphore
signal_struct = struct (
    field "sigcnt" refcount_t
    ⨾ field "live" atomic_t
    ⨾ field "nr_threads" (int 4)
    ⨾ field "quick_threads" (int 4)
    ⨾ field "thread_head" list_head
    ⨾ field "wait_chldexit" wait_queue_head_t
    ⨾ field "curr_target" pointer
    ⨾ field "shared_pending" sigpending
    ⨾ field "multiprocess" hlist_head
    ⨾ field "group_exit_code" (int 4)
    ⨾ field "notify_count" (int 4)
    ⨾ field "group_exec_task" pointer
    ⨾ field "group_stop_count" (int 4)
    ⨾ field "flags" (int 4)
    ⨾ field "core_state" pointer
    ⨾ bits "is_child_subreaper" 4 1
    ⨾ bits "has_child_subreaper" 4 1
    ⨾ field "next_posix_timer_id" (int 4)
    ⨾ field "posix_timers" hlist_head
    ⨾ field "real_timer" hrtimer
    ⨾ field "it_real_incr" ktime_t
    ⨾ field "it" (array 2 cpu_itimer)
    ⨾ field "cputimer" thread_group_cputimer
    ⨾ field "posix_cputimers" posix_cputimers
    ⨾ field "pids" (array 4 pointer)
    ⨾ field "tick_dep_mask" atomic_t
    ⨾ field "tty_old_pgrp" pointer
    ⨾ field "leader" (int 4)
    ⨾ field "tty" pointer
    ⨾ field "autogroup" pointer
    ⨾ field "stats_lock" seqlock_t
    ⨾ field "utime" u64
    ⨾ field "stime" u64
    ⨾ field "cutime" u64
    ⨾ field "cstime" u64
    ⨾ field "gtime" u64
    ⨾ field "cgtime" u64
    ⨾ field "prev_cputime" prev_cputime
    ⨾ field "nvcsw" (int 8)
    ⨾ field "nivcsw" (int 8)
    ⨾ field "cnvcsw" (int 8)
    ⨾ field "cnivcsw" (int 8)
    ⨾ field "min_flt" (int 8)
    ⨾ field "maj_flt" (int 8)
    ⨾ field "cmin_flt" (int 8)
    ⨾ field "cmaj_flt" (int 8)
    ⨾ field "inblock" (int 8)
    ⨾ field "oublock" (int 8)
    ⨾ field "cinblock" (int 8)
    ⨾ field "coublock" (int 8)
    ⨾ field "maxrss" (int 8)
    ⨾ field "cmaxrss" (int 8)
    ⨾ field "ioac" task_io_accounting
    ⨾ field "sum_sched_runtime" (int 8)
    ⨾ field "rlim" (array 16 rlimit)
    ⨾ field "pacct" pacct_struct
    ⨾ field "stats" pointer
    ⨾ field "audit_tty" (int 4)
    ⨾ field "tty_audit_buf" pointer
    ⨾ field "oom_flag_origin" bool
    ⨾ field "oom_score_adj" (int 2)
    ⨾ field "oom_score_adj_min" (int 2)
    ⨾ field "oom_mm" pointer
    ⨾ field "cred_guard_mutex" mutex
    ⨾ field "exec_update_lock" rw_semaphore
    ⨾ done)
