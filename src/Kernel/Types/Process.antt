-- ===== src/Kernel/Types/Process.antt =====
-- Other parts of a task, from ebpf/vmlinux.h.
use e_bpf_kubernetes_operato.Kernel.Layout.{
  CType, int, pointer, array, struct, union, field, bits, done, ◌⨾◌,
}
use e_bpf_kubernetes_operato.Kernel.Types.Scalars.{u32, u16, u64, clockid_t, uid_t, bool}
use e_bpf_kubernetes_operato.Kernel.Types.Links.{
  llist_node, timerqueue_head, callback_head, list_head,
}
use e_bpf_kubernetes_operato.Kernel.Types.Locks.{atomic_t, mutex}
use e_bpf_kubernetes_operato.Kernel.Types.Sched.{cpumask}
use e_bpf_kubernetes_operato.Kernel.Types.Fpu.{fpu}

unfoldable pub thread_info : CType
unfolding u32
thread_info = struct (
    field "flags" (int 8)
    ⨾ field "syscall_work" (int 8)
    ⨾ field "status" u32
    ⨾ field "cpu" u32
    ⨾ done)

unfoldable pub call_single_node : CType
unfolding llist_node atomic_t u16
call_single_node = struct (
    field "llist" llist_node
    ⨾ field "" (union (field "u_flags" (int 4) ⨾ field "a_flags" atomic_t ⨾ done))
    ⨾ field "src" u16
    ⨾ field "dst" u16
    ⨾ done)

unfoldable pub restart_block : CType
unfolding u32 u64 clockid_t
restart_block = struct (
    field "arch_data" (int 8)
    ⨾ field "fn" pointer
    ⨾ field "" (
        union (
          field "futex" (
            struct (
              field "uaddr" pointer
              ⨾ field "val" u32
              ⨾ field "flags" u32
              ⨾ field "bitset" u32
              ⨾ field "time" u64
              ⨾ field "uaddr2" pointer
              ⨾ done))
          ⨾ field "nanosleep" (
              struct (
                field "clockid" clockid_t
                ⨾ field "type" (int 4)
                ⨾ field "" (union (field "rmtp" pointer ⨾ field "compat_rmtp" pointer ⨾ done))
                ⨾ field "expires" u64
                ⨾ done))
          ⨾ field "poll" (
              struct (
                field "ufds" pointer
                ⨾ field "nfds" (int 4)
                ⨾ field "has_timeout" (int 4)
                ⨾ field "tv_sec" (int 8)
                ⨾ field "tv_nsec" (int 8)
                ⨾ done))
          ⨾ done))
    ⨾ done)

unfoldable pub posix_cputimer_base : CType
unfolding u64 timerqueue_head
posix_cputimer_base = struct (field "nextevt" u64 ⨾ field "tqhead" timerqueue_head ⨾ done)

unfoldable pub posix_cputimers : CType
unfolding posix_cputimer_base
posix_cputimers = struct (
    field "bases" (array 3 posix_cputimer_base)
    ⨾ field "timers_active" (int 4)
    ⨾ field "expiry_active" (int 4)
    ⨾ done)

unfoldable pub posix_cputimers_work : CType
unfolding callback_head mutex
posix_cputimers_work =
    struct (field "work" callback_head ⨾ field "mutex" mutex ⨾ field "scheduled" (int 4) ⨾ done)

unfoldable pub sysv_sem : CType
sysv_sem = struct (field "undo_list" pointer ⨾ done)

unfoldable pub sysv_shm : CType
unfolding list_head
sysv_shm = struct (field "shm_clist" list_head ⨾ done)

unfoldable pub sigset_t : CType
sigset_t = struct (field "sig" (array 1 (int 8)) ⨾ done)

unfoldable pub sigpending : CType
unfolding list_head sigset_t
sigpending = struct (field "list" list_head ⨾ field "signal" sigset_t ⨾ done)

unfoldable pub kuid_t : CType
unfolding uid_t
kuid_t = struct (field "val" uid_t ⨾ done)

unfoldable pub seccomp : CType
unfolding atomic_t
seccomp =
    struct (field "mode" (int 4) ⨾ field "filter_count" atomic_t ⨾ field "filter" pointer ⨾ done)

unfoldable pub syscall_user_dispatch : CType
unfolding bool
syscall_user_dispatch = struct (
    field "selector" pointer
    ⨾ field "offset" (int 8)
    ⨾ field "len" (int 8)
    ⨾ field "on_dispatch" bool
    ⨾ done)

unfoldable pub task_io_accounting : CType
unfolding u64
task_io_accounting = struct (
    field "rchar" u64
    ⨾ field "wchar" u64
    ⨾ field "syscr" u64
    ⨾ field "syscw" u64
    ⨾ field "read_bytes" u64
    ⨾ field "write_bytes" u64
    ⨾ field "cancelled_write_bytes" u64
    ⨾ done)

unfoldable pub nodemask_t : CType
nodemask_t = struct (field "bits" (array 16 (int 8)) ⨾ done)

unfoldable pub arch_tlbflush_unmap_batch : CType
unfolding cpumask
arch_tlbflush_unmap_batch = struct (field "cpumask" cpumask ⨾ done)

unfoldable pub tlbflush_unmap_batch : CType
unfolding arch_tlbflush_unmap_batch bool
tlbflush_unmap_batch = struct (
    field "arch" arch_tlbflush_unmap_batch
    ⨾ field "flush_required" bool
    ⨾ field "writable" bool
    ⨾ done)

unfoldable pub page_frag : CType
page_frag = struct (field "page" pointer ⨾ field "offset" (int 4) ⨾ field "size" (int 4) ⨾ done)

unfoldable pub kmap_ctrl : CType
kmap_ctrl = struct done

unfoldable pub desc_struct : CType
unfolding u16
desc_struct = struct (
    field "limit0" u16
    ⨾ field "base0" u16
    ⨾ bits "base1" 2 8
    ⨾ bits "type" 2 4
    ⨾ bits "s" 2 1
    ⨾ bits "dpl" 2 2
    ⨾ bits "p" 2 1
    ⨾ bits "limit1" 2 4
    ⨾ bits "avl" 2 1
    ⨾ bits "l" 2 1
    ⨾ bits "d" 2 1
    ⨾ bits "g" 2 1
    ⨾ bits "base2" 2 8
    ⨾ done)

unfoldable pub thread_shstk : CType
unfolding u64
thread_shstk = struct (field "base" u64 ⨾ field "size" u64 ⨾ done)

unfoldable pub thread_struct : CType
unfolding desc_struct u32 thread_shstk fpu
thread_struct = struct (
    field "tls_array" (array 3 desc_struct)
    ⨾ field "sp" (int 8)
    ⨾ field "es" (int 2)
    ⨾ field "ds" (int 2)
    ⨾ field "fsindex" (int 2)
    ⨾ field "gsindex" (int 2)
    ⨾ field "fsbase" (int 8)
    ⨾ field "gsbase" (int 8)
    ⨾ field "ptrace_bps" (array 4 pointer)
    ⨾ field "virtual_dr6" (int 8)
    ⨾ field "ptrace_dr7" (int 8)
    ⨾ field "cr2" (int 8)
    ⨾ field "trap_nr" (int 8)
    ⨾ field "error_code" (int 8)
    ⨾ field "io_bitmap" pointer
    ⨾ field "iopl_emul" (int 8)
    ⨾ bits "iopl_warn" 4 1
    ⨾ field "pkru" u32
    ⨾ field "features" (int 8)
    ⨾ field "features_locked" (int 8)
    ⨾ field "shstk" thread_shstk
    ⨾ bits "" 8 64
    ⨾ field "fpu" fpu
    ⨾ done)
