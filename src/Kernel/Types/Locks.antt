-- ===== src/Kernel/Types/Locks.antt =====
-- Counters, locks, timers and work, from ebpf/vmlinux.h.
use e_bpf_kubernetes_operato.Kernel.Layout.{CType, int, pointer, struct, union, field, done, ◌⨾◌}
use e_bpf_kubernetes_operato.Kernel.Types.Links.{
  timerqueue_node, list_head, hlist_node, callback_head,
}
use e_bpf_kubernetes_operato.Kernel.Types.Scalars.{ktime_t, u8, u16, s64, u32}

unfoldable pub atomic_t : CType
atomic_t = struct (field "counter" (int 4) ⨾ done)

unfoldable pub refcount_struct : CType
unfolding atomic_t
refcount_struct = struct (field "refs" atomic_t ⨾ done)

unfoldable pub refcount_t : CType
unfolding refcount_struct
refcount_t = refcount_struct

unfoldable pub hrtimer : CType
unfolding timerqueue_node ktime_t u8
hrtimer = struct (
    field "node" timerqueue_node
    ⨾ field "_softexpires" ktime_t
    ⨾ field "function" pointer
    ⨾ field "base" pointer
    ⨾ field "state" u8
    ⨾ field "is_rel" u8
    ⨾ field "is_soft" u8
    ⨾ field "is_hard" u8
    ⨾ done)

unfoldable pub qspinlock : CType
unfolding atomic_t u8 u16
qspinlock = struct (
    field "" (
      union (
        field "val" atomic_t
        ⨾ field "" (struct (field "locked" u8 ⨾ field "pending" u8 ⨾ done))
        ⨾ field "" (struct (field "locked_pending" u16 ⨾ field "tail" u16 ⨾ done))
        ⨾ done))
    ⨾ done)

unfoldable pub arch_spinlock_t : CType
unfolding qspinlock
arch_spinlock_t = qspinlock

unfoldable pub raw_spinlock : CType
unfolding arch_spinlock_t
raw_spinlock = struct (field "raw_lock" arch_spinlock_t ⨾ done)

unfoldable pub raw_spinlock_t : CType
unfolding raw_spinlock
raw_spinlock_t = raw_spinlock

unfoldable pub seqcount : CType
seqcount = struct (field "sequence" (int 4) ⨾ done)

unfoldable pub seqcount_t : CType
unfolding seqcount
seqcount_t = seqcount

unfoldable pub atomic64_t : CType
unfolding s64
atomic64_t = struct (field "counter" s64 ⨾ done)

unfoldable pub atomic_long_t : CType
unfolding atomic64_t
atomic_long_t = atomic64_t

unfoldable pub optimistic_spin_queue : CType
unfolding atomic_t
optimistic_spin_queue = struct (field "tail" atomic_t ⨾ done)

unfoldable pub mutex : CType
unfolding atomic_long_t raw_spinlock_t optimistic_spin_queue list_head
mutex = struct (
    field "owner" atomic_long_t
    ⨾ field "wait_lock" raw_spinlock_t
    ⨾ field "osq" optimistic_spin_queue
    ⨾ field "wait_list" list_head
    ⨾ done)

unfoldable pub spinlock : CType
unfolding raw_spinlock
spinlock = struct (field "" (union (field "rlock" raw_spinlock ⨾ done)) ⨾ done)

unfoldable pub spinlock_t : CType
unfolding spinlock
spinlock_t = spinlock

unfoldable pub seqcount_spinlock : CType
unfolding seqcount_t
seqcount_spinlock = struct (field "seqcount" seqcount_t ⨾ done)

unfoldable pub seqcount_spinlock_t : CType
unfolding seqcount_spinlock
seqcount_spinlock_t = seqcount_spinlock

unfoldable pub timer_list : CType
unfolding hlist_node u32
timer_list = struct (
    field "entry" hlist_node
    ⨾ field "expires" (int 8)
    ⨾ field "function" pointer
    ⨾ field "flags" u32
    ⨾ done)

unfoldable pub percpu_ref : CType
percpu_ref = struct (field "percpu_count_ptr" (int 8) ⨾ field "data" pointer ⨾ done)

unfoldable pub work_struct : CType
unfolding atomic_long_t list_head
work_struct =
    struct (field "data" atomic_long_t ⨾ field "entry" list_head ⨾ field "func" pointer ⨾ done)

unfoldable pub rcu_work : CType
unfolding work_struct callback_head
rcu_work = struct (field "work" work_struct ⨾ field "rcu" callback_head ⨾ field "wq" pointer ⨾ done)

unfoldable pub wait_queue_head : CType
unfolding spinlock_t list_head
wait_queue_head = struct (field "lock" spinlock_t ⨾ field "head" list_head ⨾ done)

unfoldable pub wait_queue_head_t : CType
unfolding wait_queue_head
wait_queue_head_t = wait_queue_head

unfoldable pub seqlock_t : CType
unfolding seqcount_spinlock_t spinlock_t
seqlock_t = struct (field "seqcount" seqcount_spinlock_t ⨾ field "lock" spinlock_t ⨾ done)

unfoldable pub rw_semaphore : CType
unfolding atomic_long_t optimistic_spin_queue raw_spinlock_t list_head
rw_semaphore = struct (
    field "count" atomic_long_t
    ⨾ field "owner" atomic_long_t
    ⨾ field "osq" optimistic_spin_queue
    ⨾ field "wait_lock" raw_spinlock_t
    ⨾ field "wait_list" list_head
    ⨾ done)
