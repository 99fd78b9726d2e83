-- ===== src/Kernel/Types/Links.antt =====
-- Lists, trees and queues by links, from ebpf/vmlinux.h.
use e_bpf_kubernetes_operato.Kernel.Layout.{CType, int, pointer, struct, field, done, ◌⨾◌}
use e_bpf_kubernetes_operato.Kernel.Types.Scalars.{ktime_t}

unfoldable pub list_head : CType
list_head = struct (field "next" pointer ⨾ field "prev" pointer ⨾ done)

unfoldable pub hlist_node : CType
hlist_node = struct (field "next" pointer ⨾ field "pprev" pointer ⨾ done)

unfoldable pub llist_node : CType
llist_node = struct (field "next" pointer ⨾ done)

unfoldable pub rb_node : CType
rb_node =
    struct (
      field "__rb_parent_color" (int 8) ⨾ field "rb_right" pointer ⨾ field "rb_left" pointer ⨾ done)

unfoldable pub timerqueue_node : CType
unfolding rb_node ktime_t
timerqueue_node = struct (field "node" rb_node ⨾ field "expires" ktime_t ⨾ done)

unfoldable pub hlist_head : CType
hlist_head = struct (field "first" pointer ⨾ done)

unfoldable pub plist_node : CType
unfolding list_head
plist_node =
    struct (field "prio" (int 4) ⨾ field "prio_list" list_head ⨾ field "node_list" list_head ⨾ done)

unfoldable pub rb_root : CType
rb_root = struct (field "rb_node" pointer ⨾ done)

unfoldable pub rb_root_cached : CType
unfolding rb_root
rb_root_cached = struct (field "rb_root" rb_root ⨾ field "rb_leftmost" pointer ⨾ done)

unfoldable pub timerqueue_head : CType
unfolding rb_root_cached
timerqueue_head = struct (field "rb_root" rb_root_cached ⨾ done)

unfoldable pub callback_head : CType
callback_head = struct (field "next" pointer ⨾ field "func" pointer ⨾ done)

unfoldable pub wake_q_node : CType
wake_q_node = struct (field "next" pointer ⨾ done)

unfoldable pub llist_head : CType
llist_head = struct (field "first" pointer ⨾ done)
