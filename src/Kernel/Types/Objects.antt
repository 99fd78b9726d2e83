-- ===== src/Kernel/Types/Objects.antt =====
-- Reference counts, wait queues and completions, from ebpf/vmlinux.h.
use e_bpf_kubernetes_operato.Kernel.Layout.{CType, int, pointer, struct, field, bits, done, ◌⨾◌}
use e_bpf_kubernetes_operato.Kernel.Types.Locks.{
  refcount_t, work_struct, timer_list, spinlock_t, raw_spinlock_t,
}
use e_bpf_kubernetes_operato.Kernel.Types.Links.{list_head}
use e_bpf_kubernetes_operato.Kernel.Types.Scalars.{gfp_t}

unfoldable pub kref : CType
unfolding refcount_t
kref = struct (field "refcount" refcount_t ⨾ done)

unfoldable pub kobject : CType
unfolding list_head kref
kobject = struct (
    field "name" pointer
    ⨾ field "entry" list_head
    ⨾ field "parent" pointer
    ⨾ field "kset" pointer
    ⨾ field "ktype" pointer
    ⨾ field "sd" pointer
    ⨾ field "kref" kref
    ⨾ bits "state_initialized" 4 1
    ⨾ bits "state_in_sysfs" 4 1
    ⨾ bits "state_add_uevent_sent" 4 1
    ⨾ bits "state_remove_uevent_sent" 4 1
    ⨾ bits "uevent_suppress" 4 1
    ⨾ done)

unfoldable pub delayed_work : CType
unfolding work_struct timer_list
delayed_work = struct (
    field "work" work_struct
    ⨾ field "timer" timer_list
    ⨾ field "wq" pointer
    ⨾ field "cpu" (int 4)
    ⨾ done)

unfoldable pub wait_queue_entry : CType
unfolding list_head
wait_queue_entry = struct (
    field "flags" (int 4)
    ⨾ field "private" pointer
    ⨾ field "func" pointer
    ⨾ field "entry" list_head
    ⨾ done)

unfoldable pub wait_queue_entry_t : CType
unfolding wait_queue_entry
wait_queue_entry_t = wait_queue_entry

unfoldable pub xarray : CType
unfolding spinlock_t gfp_t
xarray =
    struct (field "xa_lock" spinlock_t ⨾ field "xa_flags" gfp_t ⨾ field "xa_head" pointer ⨾ done)

unfoldable pub swait_queue_head : CType
unfolding raw_spinlock_t list_head
swait_queue_head = struct (field "lock" raw_spinlock_t ⨾ field "task_list" list_head ⨾ done)

unfoldable pub completion : CType
unfolding swait_queue_head
completion = struct (field "done" (int 4) ⨾ field "wait" swait_queue_head ⨾ done)
