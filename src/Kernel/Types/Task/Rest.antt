-- ===== src/Kernel/Types/Task/Rest.antt =====
-- Members of a task, from ebpf/vmlinux.h.
use e_bpf_kubernetes_operato.Kernel.Layout.{Members, int, pointer, array, field, bits, done, ◌⨾◌}
use e_bpf_kubernetes_operato.Kernel.Types.Locks.{refcount_t, atomic_t, mutex, timer_list}
use e_bpf_kubernetes_operato.Kernel.Types.Links.{list_head, callback_head, llist_head}
use e_bpf_kubernetes_operato.Kernel.Types.Scalars.{u8, u64, u32}
use e_bpf_kubernetes_operato.Kernel.Types.Process.{
  tlbflush_unmap_batch, page_frag, kmap_ctrl, thread_struct,
}

unfoldable pub task_struct_rest : Members
unfolding refcount_t list_head u8 u64 atomic_t u32 mutex callback_head tlbflush_unmap_batch
    page_frag kmap_ctrl timer_list llist_head thread_struct
task_struct_rest =
    field "closid" u32
    ⨾ field "rmid" u32
    ⨾ field "robust_list" pointer
    ⨾ field "compat_robust_list" pointer
    ⨾ field "pi_state_list" list_head
    ⨾ field "pi_state_cache" pointer
    ⨾ field "futex_exit_mutex" mutex
    ⨾ field "futex_state" (int 4)
    ⨾ field "perf_recursion" (array 4 u8)
    ⨾ field "perf_event_ctxp" pointer
    ⨾ field "perf_event_mutex" mutex
    ⨾ field "perf_event_list" list_head
    ⨾ field "mempolicy" pointer
    ⨾ field "il_prev" (int 2)
    ⨾ field "il_weight" u8
    ⨾ field "pref_node_fork" (int 2)
    ⨾ field "numa_scan_seq" (int 4)
    ⨾ field "numa_scan_period" (int 4)
    ⨾ field "numa_scan_period_max" (int 4)
    ⨾ field "numa_preferred_nid" (int 4)
    ⨾ field "numa_migrate_retry" (int 8)
    ⨾ field "node_stamp" u64
    ⨾ field "last_task_numa_placement" u64
    ⨾ field "last_sum_exec_runtime" u64
    ⨾ field "numa_work" callback_head
    ⨾ field "numa_group" pointer
    ⨾ field "numa_faults" pointer
    ⨾ field "total_numa_faults" (int 8)
    ⨾ field "numa_faults_locality" (array 3 (int 8))
    ⨾ field "numa_pages_migrated" (int 8)
    ⨾ field "rseq" pointer
    ⨾ field "rseq_len" u32
    ⨾ field "rseq_sig" u32
    ⨾ field "rseq_event_mask" (int 8)
    ⨾ field "mm_cid" (int 4)
    ⨾ field "last_mm_cid" (int 4)
    ⨾ field "migrate_from_cpu" (int 4)
    ⨾ field "mm_cid_active" (int 4)
    ⨾ field "cid_work" callback_head
    ⨾ field "tlb_ubc" tlbflush_unmap_batch
    ⨾ field "splice_pipe" pointer
    ⨾ field "task_frag" page_frag
    ⨾ field "delays" pointer
    ⨾ field "nr_dirtied" (int 4)
    ⨾ field "nr_dirtied_pause" (int 4)
    ⨾ field "dirty_paused_when" (int 8)
    ⨾ field "timer_slack_ns" u64
    ⨾ field "default_timer_slack_ns" u64
    ⨾ field "curr_ret_stack" (int 4)
    ⨾ field "curr_ret_depth" (int 4)
    ⨾ field "ret_stack" pointer
    ⨾ field "ftrace_timestamp" (int 8)
    ⨾ field "trace_overrun" atomic_t
    ⨾ field "tracing_graph_pause" atomic_t
    ⨾ field "trace_recursion" (int 8)
    ⨾ field "memcg_nr_pages_over_high" (int 4)
    ⨾ field "active_memcg" pointer
    ⨾ field "objcg" pointer
    ⨾ field "throttle_disk" pointer
    ⨾ field "utask" pointer
    ⨾ field "sequential_io" (int 4)
    ⨾ field "sequential_io_avg" (int 4)
    ⨾ field "kmap_ctrl" kmap_ctrl
    ⨾ field "rcu" callback_head
    ⨾ field "rcu_users" refcount_t
    ⨾ field "pagefault_disabled" (int 4)
    ⨾ field "oom_reaper_list" pointer
    ⨾ field "oom_reaper_timer" timer_list
    ⨾ field "stack_vm_area" pointer
    ⨾ field "stack_refcount" refcount_t
    ⨾ field "patch_state" (int 4)
    ⨾ field "security" pointer
    ⨾ field "bpf_storage" pointer
    ⨾ field "bpf_ctx" pointer
    ⨾ field "bpf_net_context" pointer
    ⨾ field "mce_vaddr" pointer
    ⨾ field "mce_kflags" (int 8)
    ⨾ field "mce_addr" u64
    ⨾ bits "mce_ripv" 8 1
    ⨾ bits "mce_whole_page" 8 1
    ⨾ bits "__mce_reserved" 8 62
    ⨾ field "mce_kill_me" callback_head
    ⨾ field "mce_count" (int 4)
    ⨾ field "kretprobe_instances" llist_head
    ⨾ field "rethooks" llist_head
    ⨾ field "l1d_flush_kill" callback_head
    ⨾ bits "" 8 64
    ⨾ bits "" 8 64
    ⨾ bits "" 8 64
    ⨾ bits "" 8 64
    ⨾ bits "" 8 64
    ⨾ field "thread" thread_struct
    ⨾ done
