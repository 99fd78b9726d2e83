-- ===== src/Kernel/Types/Device.antt =====
-- Devices, from ebpf/vmlinux.h.
use e_bpf_kubernetes_operato.Kernel.Layout.{CType, int, pointer, struct, field, bits, done, ◌⨾◌}
use e_bpf_kubernetes_operato.Kernel.Types.Links.{list_head}
use e_bpf_kubernetes_operato.Kernel.Types.Scalars.{bool, u32, u64, dev_t, sector_t}
use e_bpf_kubernetes_operato.Kernel.Types.Locks.{
  spinlock_t, hrtimer, work_struct, wait_queue_head_t, atomic_t, mutex,
}
use e_bpf_kubernetes_operato.Kernel.Types.Objects.{completion, kobject}

unfoldable pub dev_links_info : CType
unfolding list_head
dev_links_info = struct (
    field "suppliers" list_head
    ⨾ field "consumers" list_head
    ⨾ field "defer_sync" list_head
    ⨾ field "status" (int 4)
    ⨾ done)

unfoldable pub pm_message : CType
pm_message = struct (field "event" (int 4) ⨾ done)

unfoldable pub pm_message_t : CType
unfolding pm_message
pm_message_t = pm_message

unfoldable pub dev_pm_info : CType
unfolding pm_message_t bool u32 spinlock_t list_head completion hrtimer u64 work_struct
    wait_queue_head_t atomic_t
dev_pm_info = struct (
    field "power_state" pm_message_t
    ⨾ bits "can_wakeup" 1 1
    ⨾ bits "async_suspend" 1 1
    ⨾ bits "in_dpm_list" 1 1
    ⨾ bits "is_prepared" 1 1
    ⨾ bits "is_suspended" 1 1
    ⨾ bits "is_noirq_suspended" 1 1
    ⨾ bits "is_late_suspended" 1 1
    ⨾ bits "no_pm" 1 1
    ⨾ bits "early_init" 1 1
    ⨾ bits "direct_complete" 1 1
    ⨾ field "driver_flags" u32
    ⨾ field "lock" spinlock_t
    ⨾ field "entry" list_head
    ⨾ field "completion" completion
    ⨾ field "wakeup" pointer
    ⨾ bits "wakeup_path" 1 1
    ⨾ bits "syscore" 1 1
    ⨾ bits "no_pm_callbacks" 1 1
    ⨾ bits "async_in_progress" 1 1
    ⨾ bits "must_resume" 1 1
    ⨾ bits "may_skip_resume" 1 1
    ⨾ field "suspend_timer" hrtimer
    ⨾ field "timer_expires" u64
    ⨾ field "work" work_struct
    ⨾ field "wait_queue" wait_queue_head_t
    ⨾ field "wakeirq" pointer
    ⨾ field "usage_count" atomic_t
    ⨾ field "child_count" atomic_t
    ⨾ bits "disable_depth" 4 3
    ⨾ bits "idle_notification" 1 1
    ⨾ bits "request_pending" 1 1
    ⨾ bits "deferred_resume" 1 1
    ⨾ bits "needs_force_resume" 1 1
    ⨾ bits "runtime_auto" 1 1
    ⨾ bits "ignore_children" 1 1
    ⨾ bits "no_callbacks" 1 1
    ⨾ bits "irq_safe" 1 1
    ⨾ bits "use_autosuspend" 1 1
    ⨾ bits "timer_autosuspends" 1 1
    ⨾ bits "memalloc_noio" 1 1
    ⨾ field "links_count" (int 4)
    ⨾ field "request" (int 4)
    ⨾ field "runtime_status" (int 4)
    ⨾ field "last_status" (int 4)
    ⨾ field "runtime_error" (int 4)
    ⨾ field "autosuspend_delay" (int 4)
    ⨾ field "last_busy" u64
    ⨾ field "active_time" u64
    ⨾ field "suspended_time" u64
    ⨾ field "accounting_timestamp" u64
    ⨾ field "subsys_data" pointer
    ⨾ field "set_latency_tolerance" pointer
    ⨾ field "qos" pointer
    ⨾ done)

unfoldable pub dev_msi_info : CType
dev_msi_info = struct (field "domain" pointer ⨾ field "data" pointer ⨾ done)

unfoldable pub dev_archdata : CType
dev_archdata = struct done

unfoldable pub device : CType
unfolding kobject mutex dev_links_info dev_pm_info dev_msi_info u64 list_head dev_archdata dev_t u32
    spinlock_t bool
device = struct (
    field "kobj" kobject
    ⨾ field "parent" pointer
    ⨾ field "p" pointer
    ⨾ field "init_name" pointer
    ⨾ field "type" pointer
    ⨾ field "bus" pointer
    ⨾ field "driver" pointer
    ⨾ field "platform_data" pointer
    ⨾ field "driver_data" pointer
    ⨾ field "mutex" mutex
    ⨾ field "links" dev_links_info
    ⨾ field "power" dev_pm_info
    ⨾ field "pm_domain" pointer
    ⨾ field "em_pd" pointer
    ⨾ field "pins" pointer
    ⨾ field "msi" dev_msi_info
    ⨾ field "dma_ops" pointer
    ⨾ field "dma_mask" pointer
    ⨾ field "coherent_dma_mask" u64
    ⨾ field "bus_dma_limit" u64
    ⨾ field "dma_range_map" pointer
    ⨾ field "dma_parms" pointer
    ⨾ field "dma_pools" list_head
    ⨾ field "dma_io_tlb_mem" pointer
    ⨾ field "archdata" dev_archdata
    ⨾ field "of_node" pointer
    ⨾ field "fwnode" pointer
    ⨾ field "numa_node" (int 4)
    ⨾ field "devt" dev_t
    ⨾ field "id" u32
    ⨾ field "devres_lock" spinlock_t
    ⨾ field "devres_head" list_head
    ⨾ field "class" pointer
    ⨾ field "groups" pointer
    ⨾ field "release" pointer
    ⨾ field "iommu_group" pointer
    ⨾ field "iommu" pointer
    ⨾ field "physical_location" pointer
    ⨾ field "removable" (int 4)
    ⨾ bits "offline_disabled" 1 1
    ⨾ bits "offline" 1 1
    ⨾ bits "of_node_reused" 1 1
    ⨾ bits "state_synced" 1 1
    ⨾ bits "can_match" 1 1
    ⨾ bits "dma_skip_sync" 1 1
    ⨾ bits "dma_iommu" 1 1
    ⨾ done)

unfoldable pub block_device : CType
unfolding sector_t atomic_t dev_t spinlock_t mutex device
block_device = struct (
    field "bd_start_sect" sector_t
    ⨾ field "bd_nr_sectors" sector_t
    ⨾ field "bd_disk" pointer
    ⨾ field "bd_queue" pointer
    ⨾ field "bd_stats" pointer
    ⨾ field "bd_stamp" (int 8)
    ⨾ field "__bd_flags" atomic_t
    ⨾ field "bd_dev" dev_t
    ⨾ field "bd_mapping" pointer
    ⨾ field "bd_openers" atomic_t
    ⨾ field "bd_size_lock" spinlock_t
    ⨾ field "bd_claiming" pointer
    ⨾ field "bd_holder" pointer
    ⨾ field "bd_holder_ops" pointer
    ⨾ field "bd_holder_lock" mutex
    ⨾ field "bd_holders" (int 4)
    ⨾ field "bd_holder_dir" pointer
    ⨾ field "bd_fsfreeze_count" atomic_t
    ⨾ field "bd_fsfreeze_mutex" mutex
    ⨾ field "bd_meta_info" pointer
    ⨾ field "bd_writers" (int 4)
    ⨾ field "bd_security" pointer
    ⨾ field "bd_device" device
    ⨾ done)
