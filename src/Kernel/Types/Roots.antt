-- ===== src/Kernel/Types/Roots.antt =====
-- Hierarchies of control groups, from ebpf/vmlinux.h.
use e_bpf_kubernetes_operato.Kernel.Layout.{
  CType, int, pointer, array, struct, field, bits, done, ◌⨾◌,
}
use e_bpf_kubernetes_operato.Kernel.Types.Objects.{xarray}
use e_bpf_kubernetes_operato.Kernel.Types.Scalars.{u32, bool}
use e_bpf_kubernetes_operato.Kernel.Types.Links.{list_head, callback_head}
use e_bpf_kubernetes_operato.Kernel.Types.Locks.{wait_queue_head_t, rw_semaphore, atomic_t}
use e_bpf_kubernetes_operato.Kernel.Types.Cgroup.{cgroup}

unfoldable pub idr : CType
unfolding xarray
idr = struct (field "idr_rt" xarray ⨾ field "idr_base" (int 4) ⨾ field "idr_next" (int 4) ⨾ done)

unfoldable pub kernfs_root : CType
unfolding idr u32 list_head wait_queue_head_t rw_semaphore callback_head
kernfs_root = struct (
    field "kn" pointer
    ⨾ field "flags" (int 4)
    ⨾ field "ino_idr" idr
    ⨾ field "last_id_lowbits" u32
    ⨾ field "id_highbits" u32
    ⨾ field "syscall_ops" pointer
    ⨾ field "supers" list_head
    ⨾ field "deactivate_waitq" wait_queue_head_t
    ⨾ field "kernfs_rwsem" rw_semaphore
    ⨾ field "kernfs_iattr_rwsem" rw_semaphore
    ⨾ field "kernfs_supers_rwsem" rw_semaphore
    ⨾ field "rcu" callback_head
    ⨾ done)

unfoldable pub cgroup_root : CType
unfolding list_head callback_head cgroup atomic_t
cgroup_root = struct (
    field "kf_root" pointer
    ⨾ field "subsys_mask" (int 4)
    ⨾ field "hierarchy_id" (int 4)
    ⨾ field "root_list" list_head
    ⨾ field "rcu" callback_head
    ⨾ bits "" 8 64
    ⨾ bits "" 8 64
    ⨾ field "cgrp" cgroup
    ⨾ field "cgrp_ancestor_storage" pointer
    ⨾ field "nr_cgrps" atomic_t
    ⨾ field "flags" (int 4)
    ⨾ field "release_agent_path" (array 4096 (int 1))
    ⨾ field "name" (array 64 (int 1))
    ⨾ bits "" 8 64
    ⨾ bits "" 8 64
    ⨾ bits "" 8 64
    ⨾ bits "" 8 64
    ⨾ bits "" 8 64
    ⨾ bits "" 8 64
    ⨾ done)

unfoldable pub cgroup_subsys : CType
unfolding bool idr list_head
cgroup_subsys = struct (
    field "css_alloc" pointer
    ⨾ field "css_online" pointer
    ⨾ field "css_offline" pointer
    ⨾ field "css_released" pointer
    ⨾ field "css_free" pointer
    ⨾ field "css_reset" pointer
    ⨾ field "css_killed" pointer
    ⨾ field "css_rstat_flush" pointer
    ⨾ field "css_extra_stat_show" pointer
    ⨾ field "css_local_stat_show" pointer
    ⨾ field "can_attach" pointer
    ⨾ field "cancel_attach" pointer
    ⨾ field "attach" pointer
    ⨾ field "post_attach" pointer
    ⨾ field "can_fork" pointer
    ⨾ field "cancel_fork" pointer
    ⨾ field "fork" pointer
    ⨾ field "exit" pointer
    ⨾ field "release" pointer
    ⨾ field "bind" pointer
    ⨾ bits "early_init" 1 1
    ⨾ bits "implicit_on_dfl" 1 1
    ⨾ bits "threaded" 1 1
    ⨾ field "id" (int 4)
    ⨾ field "name" pointer
    ⨾ field "legacy_name" pointer
    ⨾ field "root" pointer
    ⨾ field "css_idr" idr
    ⨾ field "cfts" list_head
    ⨾ field "dfl_cftypes" pointer
    ⨾ field "legacy_cftypes" pointer
    ⨾ field "depends_on" (int 4)
    ⨾ done)
