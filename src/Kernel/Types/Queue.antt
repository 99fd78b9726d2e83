-- ===== src/Kernel/Types/Queue.antt =====
-- The queues of a block device, from ebpf/vmlinux.h.
use e_bpf_kubernetes_operato.Kernel.Layout.{CType, int, pointer, array, struct, field, done, ◌⨾◌}
use e_bpf_kubernetes_operato.Kernel.Types.Scalars.{blk_features_t, blk_flags_t, bool}
use e_bpf_kubernetes_operato.Kernel.Types.Locks.{
  refcount_t, percpu_ref, spinlock_t, atomic_t, mutex, timer_list, work_struct, wait_queue_head_t,
}
use e_bpf_kubernetes_operato.Kernel.Types.Objects.{xarray, delayed_work}
use e_bpf_kubernetes_operato.Kernel.Types.Links.{list_head, callback_head}

unfoldable pub lock_class_key : CType
lock_class_key = struct done

unfoldable pub lockdep_map : CType
lockdep_map = struct done

unfoldable pub blk_integrity : CType
blk_integrity = struct (
    field "flags" (int 1)
    ⨾ field "csum_type" (int 1)
    ⨾ field "tuple_size" (int 1)
    ⨾ field "pi_offset" (int 1)
    ⨾ field "interval_exp" (int 1)
    ⨾ field "tag_size" (int 1)
    ⨾ done)

unfoldable pub queue_limits : CType
unfolding blk_features_t blk_flags_t blk_integrity
queue_limits = struct (
    field "features" blk_features_t
    ⨾ field "flags" blk_flags_t
    ⨾ field "seg_boundary_mask" (int 8)
    ⨾ field "virt_boundary_mask" (int 8)
    ⨾ field "max_hw_sectors" (int 4)
    ⨾ field "max_dev_sectors" (int 4)
    ⨾ field "chunk_sectors" (int 4)
    ⨾ field "max_sectors" (int 4)
    ⨾ field "max_user_sectors" (int 4)
    ⨾ field "max_segment_size" (int 4)
    ⨾ field "physical_block_size" (int 4)
    ⨾ field "logical_block_size" (int 4)
    ⨾ field "alignment_offset" (int 4)
    ⨾ field "io_min" (int 4)
    ⨾ field "io_opt" (int 4)
    ⨾ field "max_discard_sectors" (int 4)
    ⨾ field "max_hw_discard_sectors" (int 4)
    ⨾ field "max_user_discard_sectors" (int 4)
    ⨾ field "max_secure_erase_sectors" (int 4)
    ⨾ field "max_write_zeroes_sectors" (int 4)
    ⨾ field "max_zone_append_sectors" (int 4)
    ⨾ field "discard_granularity" (int 4)
    ⨾ field "discard_alignment" (int 4)
    ⨾ field "zone_write_granularity" (int 4)
    ⨾ field "atomic_write_hw_max" (int 4)
    ⨾ field "atomic_write_max_sectors" (int 4)
    ⨾ field "atomic_write_hw_boundary" (int 4)
    ⨾ field "atomic_write_boundary_sectors" (int 4)
    ⨾ field "atomic_write_hw_unit_min" (int 4)
    ⨾ field "atomic_write_unit_min" (int 4)
    ⨾ field "atomic_write_hw_unit_max" (int 4)
    ⨾ field "atomic_write_unit_max" (int 4)
    ⨾ field "max_segments" (int 2)
    ⨾ field "max_integrity_segments" (int 2)
    ⨾ field "max_discard_segments" (int 2)
    ⨾ field "max_open_zones" (int 4)
    ⨾ field "max_active_zones" (int 4)
    ⨾ field "dma_alignment" (int 4)
    ⨾ field "dma_pad_mask" (int 4)
    ⨾ field "integrity" blk_integrity
    ⨾ done)

unfoldable pub request_queue : CType
unfolding refcount_t xarray percpu_ref lock_class_key lockdep_map spinlock_t queue_limits atomic_t
    mutex timer_list work_struct list_head delayed_work callback_head wait_queue_head_t bool
request_queue = struct (
    field "queuedata" pointer
    ⨾ field "elevator" pointer
    ⨾ field "mq_ops" pointer
    ⨾ field "queue_ctx" pointer
    ⨾ field "queue_flags" (int 8)
    ⨾ field "rq_timeout" (int 4)
    ⨾ field "queue_depth" (int 4)
    ⨾ field "refs" refcount_t
    ⨾ field "nr_hw_queues" (int 4)
    ⨾ field "hctx_table" xarray
    ⨾ field "q_usage_counter" percpu_ref
    ⨾ field "io_lock_cls_key" lock_class_key
    ⨾ field "io_lockdep_map" lockdep_map
    ⨾ field "q_lock_cls_key" lock_class_key
    ⨾ field "q_lockdep_map" lockdep_map
    ⨾ field "last_merge" pointer
    ⨾ field "queue_lock" spinlock_t
    ⨾ field "quiesce_depth" (int 4)
    ⨾ field "disk" pointer
    ⨾ field "mq_kobj" pointer
    ⨾ field "limits" queue_limits
    ⨾ field "dev" pointer
    ⨾ field "rpm_status" (int 4)
    ⨾ field "pm_only" atomic_t
    ⨾ field "stats" pointer
    ⨾ field "rq_qos" pointer
    ⨾ field "rq_qos_mutex" mutex
    ⨾ field "id" (int 4)
    ⨾ field "nr_requests" (int 8)
    ⨾ field "timeout" timer_list
    ⨾ field "timeout_work" work_struct
    ⨾ field "nr_active_requests_shared_tags" atomic_t
    ⨾ field "sched_shared_tags" pointer
    ⨾ field "icq_list" list_head
    ⨾ field "blkcg_pols" (array 1 (int 8))
    ⨾ field "root_blkg" pointer
    ⨾ field "blkg_list" list_head
    ⨾ field "blkcg_mutex" mutex
    ⨾ field "node" (int 4)
    ⨾ field "requeue_lock" spinlock_t
    ⨾ field "requeue_list" list_head
    ⨾ field "requeue_work" delayed_work
    ⨾ field "blk_trace" pointer
    ⨾ field "fq" pointer
    ⨾ field "flush_list" list_head
    ⨾ field "sysfs_lock" mutex
    ⨾ field "sysfs_dir_lock" mutex
    ⨾ field "limits_lock" mutex
    ⨾ field "unused_hctx_list" list_head
    ⨾ field "unused_hctx_lock" spinlock_t
    ⨾ field "mq_freeze_depth" (int 4)
    ⨾ field "td" pointer
    ⨾ field "callback_head" callback_head
    ⨾ field "mq_freeze_wq" wait_queue_head_t
    ⨾ field "mq_freeze_lock" mutex
    ⨾ field "tag_set" pointer
    ⨾ field "tag_set_list" list_head
    ⨾ field "debugfs_dir" pointer
    ⨾ field "sched_debugfs_dir" pointer
    ⨾ field "rqos_debugfs_dir" pointer
    ⨾ field "debugfs_mutex" mutex
    ⨾ field "mq_sysfs_init_done" bool
    ⨾ done)
