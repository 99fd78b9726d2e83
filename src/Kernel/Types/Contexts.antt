-- ===== src/Kernel/Types/Contexts.antt =====
-- The contexts of the queues, from ebpf/vmlinux.h.
use e_bpf_kubernetes_operato.Kernel.Layout.{
  CType, int, pointer, array, struct, field, bits, done, ◌⨾◌,
}
use e_bpf_kubernetes_operato.Kernel.Types.Locks.{spinlock_t, atomic_t}
use e_bpf_kubernetes_operato.Kernel.Types.Links.{list_head, hlist_node}
use e_bpf_kubernetes_operato.Kernel.Types.Objects.{kobject, delayed_work, wait_queue_entry_t}
use e_bpf_kubernetes_operato.Kernel.Types.Scalars.{bool, cpumask_var_t}

unfoldable pub blk_mq_ctx : CType
unfolding spinlock_t list_head kobject
blk_mq_ctx = struct (
    field "" (
      struct (field "lock" spinlock_t ⨾ field "rq_lists" (array 3 list_head) ⨾ bits "" 8 64 ⨾ done))
    ⨾ field "cpu" (int 4)
    ⨾ field "index_hw" (array 3 (int 2))
    ⨾ field "hctxs" (array 3 pointer)
    ⨾ field "queue" pointer
    ⨾ field "ctxs" pointer
    ⨾ field "kobj" kobject
    ⨾ bits "" 8 64
    ⨾ done)

unfoldable pub sbitmap : CType
unfolding bool
sbitmap = struct (
    field "depth" (int 4)
    ⨾ field "shift" (int 4)
    ⨾ field "map_nr" (int 4)
    ⨾ field "round_robin" bool
    ⨾ field "map" pointer
    ⨾ field "alloc_hint" pointer
    ⨾ done)

unfoldable pub blk_mq_hw_ctx : CType
unfolding spinlock_t list_head delayed_work cpumask_var_t sbitmap wait_queue_entry_t atomic_t
    hlist_node kobject
blk_mq_hw_ctx = struct (
    field "" (
      struct (
        field "lock" spinlock_t
        ⨾ field "dispatch" list_head
        ⨾ field "state" (int 8)
        ⨾ bits "" 8 64
        ⨾ bits "" 8 64
        ⨾ bits "" 8 64
        ⨾ bits "" 8 64
        ⨾ done))
    ⨾ field "run_work" delayed_work
    ⨾ field "cpumask" cpumask_var_t
    ⨾ field "next_cpu" (int 4)
    ⨾ field "next_cpu_batch" (int 4)
    ⨾ field "flags" (int 8)
    ⨾ field "sched_data" pointer
    ⨾ field "queue" pointer
    ⨾ field "fq" pointer
    ⨾ field "driver_data" pointer
    ⨾ field "ctx_map" sbitmap
    ⨾ field "dispatch_from" pointer
    ⨾ field "dispatch_busy" (int 4)
    ⨾ field "type" (int 2)
    ⨾ field "nr_ctx" (int 2)
    ⨾ field "ctxs" pointer
    ⨾ field "dispatch_wait_lock" spinlock_t
    ⨾ field "dispatch_wait" wait_queue_entry_t
    ⨾ field "wait_index" atomic_t
    ⨾ field "tags" pointer
    ⨾ field "sched_tags" pointer
    ⨾ field "numa_node" (int 4)
    ⨾ field "queue_num" (int 4)
    ⨾ field "nr_active" atomic_t
    ⨾ field "cpuhp_online" hlist_node
    ⨾ field "cpuhp_dead" hlist_node
    ⨾ field "kobj" kobject
    ⨾ field "debugfs_dir" pointer
    ⨾ field "sched_debugfs_dir" pointer
    ⨾ field "hctx_list" list_head
    ⨾ bits "" 8 64
    ⨾ bits "" 8 64
    ⨾ bits "" 8 64
    ⨾ bits "" 8 64
    ⨾ done)
