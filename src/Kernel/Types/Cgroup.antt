-- ===== src/Kernel/Types/Cgroup.antt =====
-- Control groups and their files, from ebpf/vmlinux.h.
use e_bpf_kubernetes_operato.Kernel.Layout.{
  CType, int, pointer, array, struct, union, field, bits, done, ◌⨾◌,
}
use e_bpf_kubernetes_operato.Kernel.Types.Locks.{
  refcount_t, percpu_ref, atomic_t, work_struct, rcu_work, timer_list, mutex, wait_queue_head_t,
}
use e_bpf_kubernetes_operato.Kernel.Types.Links.{
  list_head, hlist_node, callback_head, hlist_head, rb_root, rb_node,
}
use e_bpf_kubernetes_operato.Kernel.Types.Scalars.{bool, u64, u8, u16, loff_t, umode_t}
use e_bpf_kubernetes_operato.Kernel.Types.Sched.{prev_cputime}

unfoldable pub css_set : CType
unfolding refcount_t list_head hlist_node bool callback_head
css_set = struct (
    field "subsys" (array 14 pointer)
    ⨾ field "refcount" refcount_t
    ⨾ field "dom_cset" pointer
    ⨾ field "dfl_cgrp" pointer
    ⨾ field "nr_tasks" (int 4)
    ⨾ field "tasks" list_head
    ⨾ field "mg_tasks" list_head
    ⨾ field "dying_tasks" list_head
    ⨾ field "task_iters" list_head
    ⨾ field "e_cset_node" (array 14 list_head)
    ⨾ field "threaded_csets" list_head
    ⨾ field "threaded_csets_node" list_head
    ⨾ field "hlist" hlist_node
    ⨾ field "cgrp_links" list_head
    ⨾ field "mg_src_preload_node" list_head
    ⨾ field "mg_dst_preload_node" list_head
    ⨾ field "mg_node" list_head
    ⨾ field "mg_src_cgrp" pointer
    ⨾ field "mg_dst_cgrp" pointer
    ⨾ field "mg_dst_cset" pointer
    ⨾ field "dead" bool
    ⨾ field "callback_head" callback_head
    ⨾ done)

unfoldable pub cgroup_subsys_state : CType
unfolding percpu_ref list_head u64 atomic_t work_struct rcu_work
cgroup_subsys_state = struct (
    field "cgroup" pointer
    ⨾ field "ss" pointer
    ⨾ field "refcnt" percpu_ref
    ⨾ field "sibling" list_head
    ⨾ field "children" list_head
    ⨾ field "rstat_css_node" list_head
    ⨾ field "id" (int 4)
    ⨾ field "flags" (int 4)
    ⨾ field "serial_nr" u64
    ⨾ field "online_cnt" atomic_t
    ⨾ field "destroy_work" work_struct
    ⨾ field "destroy_rwork" rcu_work
    ⨾ field "parent" pointer
    ⨾ field "nr_descendants" (int 4)
    ⨾ done)

unfoldable pub cgroup_file : CType
unfolding timer_list
cgroup_file =
    struct
      (field "kn" pointer ⨾ field "notified_at" (int 8) ⨾ field "notify_timer" timer_list ⨾ done)

unfoldable pub cacheline_padding : CType
cacheline_padding = struct (field "x" (array 0 (int 1)) ⨾ done)

unfoldable pub task_cputime : CType
unfolding u64
task_cputime =
    struct (field "stime" u64 ⨾ field "utime" u64 ⨾ field "sum_exec_runtime" (int 8) ⨾ done)

unfoldable pub cgroup_base_stat : CType
unfolding task_cputime u64
cgroup_base_stat = struct (field "cputime" task_cputime ⨾ field "ntime" u64 ⨾ done)

unfoldable pub cgroup_bpf : CType
unfolding hlist_head u8 list_head percpu_ref work_struct
cgroup_bpf = struct (
    field "effective" (array 38 pointer)
    ⨾ field "progs" (array 38 hlist_head)
    ⨾ field "flags" (array 38 u8)
    ⨾ field "storages" list_head
    ⨾ field "inactive" pointer
    ⨾ field "refcnt" percpu_ref
    ⨾ field "release_work" work_struct
    ⨾ done)

unfoldable pub cgroup_freezer_state : CType
unfolding bool
cgroup_freezer_state = struct (
    field "freeze" bool
    ⨾ field "e_freeze" (int 4)
    ⨾ field "nr_frozen_descendants" (int 4)
    ⨾ field "nr_frozen_tasks" (int 4)
    ⨾ done)

unfoldable pub cgroup : CType
unfolding cgroup_subsys_state cgroup_file u16 list_head cacheline_padding cgroup_base_stat
    prev_cputime mutex wait_queue_head_t work_struct cgroup_bpf cgroup_freezer_state
cgroup = struct (
    field "self" cgroup_subsys_state
    ⨾ field "flags" (int 8)
    ⨾ field "level" (int 4)
    ⨾ field "max_depth" (int 4)
    ⨾ field "nr_descendants" (int 4)
    ⨾ field "nr_dying_descendants" (int 4)
    ⨾ field "max_descendants" (int 4)
    ⨾ field "nr_populated_csets" (int 4)
    ⨾ field "nr_populated_domain_children" (int 4)
    ⨾ field "nr_populated_threaded_children" (int 4)
    ⨾ field "nr_threaded_children" (int 4)
    ⨾ field "kill_seq" (int 4)
    ⨾ field "kn" pointer
    ⨾ field "procs_file" cgroup_file
    ⨾ field "events_file" cgroup_file
    ⨾ field "psi_files" (array 3 cgroup_file)
    ⨾ field "subtree_control" u16
    ⨾ field "subtree_ss_mask" u16
    ⨾ field "old_subtree_control" u16
    ⨾ field "old_subtree_ss_mask" u16
    ⨾ field "subsys" (array 14 pointer)
    ⨾ field "nr_dying_subsys" (array 14 (int 4))
    ⨾ field "root" pointer
    ⨾ field "cset_links" list_head
    ⨾ field "e_csets" (array 14 list_head)
    ⨾ field "dom_cgrp" pointer
    ⨾ field "old_dom_cgrp" pointer
    ⨾ field "rstat_cpu" pointer
    ⨾ field "rstat_css_list" list_head
    ⨾ bits "" 8 64
    ⨾ bits "" 8 64
    ⨾ field "_pad_" cacheline_padding
    ⨾ field "rstat_flush_next" pointer
    ⨾ field "last_bstat" cgroup_base_stat
    ⨾ field "bstat" cgroup_base_stat
    ⨾ field "prev_cputime" prev_cputime
    ⨾ field "pidlists" list_head
    ⨾ field "pidlist_mutex" mutex
    ⨾ field "offline_waitq" wait_queue_head_t
    ⨾ field "release_agent_work" work_struct
    ⨾ field "psi" pointer
    ⨾ field "bpf" cgroup_bpf
    ⨾ field "freezer" cgroup_freezer_state
    ⨾ field "bpf_cgrp_storage" pointer
    ⨾ field "ancestors" (array 0 pointer)
    ⨾ bits "" 8 64
    ⨾ done)

unfoldable pub kernfs_elem_dir : CType
unfolding rb_root
kernfs_elem_dir = struct (
    field "subdirs" (int 8)
    ⨾ field "children" rb_root
    ⨾ field "root" pointer
    ⨾ field "rev" (int 8)
    ⨾ done)

unfoldable pub kernfs_elem_symlink : CType
kernfs_elem_symlink = struct (field "target_kn" pointer ⨾ done)

unfoldable pub kernfs_elem_attr : CType
unfolding loff_t
kernfs_elem_attr = struct (
    field "ops" pointer
    ⨾ field "open" pointer
    ⨾ field "size" loff_t
    ⨾ field "notify_next" pointer
    ⨾ done)

unfoldable pub kernfs_node : CType
unfolding atomic_t rb_node umode_t kernfs_elem_dir kernfs_elem_symlink kernfs_elem_attr u64
    callback_head
kernfs_node = struct (
    field "count" atomic_t
    ⨾ field "active" atomic_t
    ⨾ field "parent" pointer
    ⨾ field "name" pointer
    ⨾ field "rb" rb_node
    ⨾ field "ns" pointer
    ⨾ field "hash" (int 4)
    ⨾ field "flags" (int 2)
    ⨾ field "mode" umode_t
    ⨾ field "" (
        union (
          field "dir" kernfs_elem_dir
          ⨾ field "symlink" kernfs_elem_symlink
          ⨾ field "attr" kernfs_elem_attr
          ⨾ done))
    ⨾ field "id" u64
    ⨾ field "priv" pointer
    ⨾ field "iattr" pointer
    ⨾ field "rcu" callback_head
    ⨾ done)
