-- ===== src/Kernel/Types/Request.antt =====
-- A request of the block layer, from ebpf/vmlinux.h.
use e_bpf_kubernetes_operato.Kernel.Layout.{
  CType, int, pointer, array, struct, union, field, done, ◌⨾◌,
}
use e_bpf_kubernetes_operato.Kernel.Types.Scalars.{blk_opf_t, req_flags_t, sector_t, u64}
use e_bpf_kubernetes_operato.Kernel.Types.Links.{list_head, hlist_node, llist_node, rb_node}
use e_bpf_kubernetes_operato.Kernel.Types.Locks.{atomic_t}

unfoldable pub bio_vec : CType
bio_vec =
    struct (field "bv_page" pointer ⨾ field "bv_len" (int 4) ⨾ field "bv_offset" (int 4) ⨾ done)

unfoldable pub request : CType
unfolding blk_opf_t req_flags_t sector_t list_head u64 atomic_t hlist_node llist_node rb_node
    bio_vec
request = struct (
    field "q" pointer
    ⨾ field "mq_ctx" pointer
    ⨾ field "mq_hctx" pointer
    ⨾ field "cmd_flags" blk_opf_t
    ⨾ field "rq_flags" req_flags_t
    ⨾ field "tag" (int 4)
    ⨾ field "internal_tag" (int 4)
    ⨾ field "timeout" (int 4)
    ⨾ field "__data_len" (int 4)
    ⨾ field "__sector" sector_t
    ⨾ field "bio" pointer
    ⨾ field "biotail" pointer
    ⨾ field "" (union (field "queuelist" list_head ⨾ field "rq_next" pointer ⨾ done))
    ⨾ field "part" pointer
    ⨾ field "alloc_time_ns" u64
    ⨾ field "start_time_ns" u64
    ⨾ field "io_start_time_ns" u64
    ⨾ field "wbt_flags" (int 2)
    ⨾ field "stats_sectors" (int 2)
    ⨾ field "nr_phys_segments" (int 2)
    ⨾ field "nr_integrity_segments" (int 2)
    ⨾ field "state" (int 4)
    ⨾ field "ref" atomic_t
    ⨾ field "deadline" (int 8)
    ⨾ field "" (union (field "hash" hlist_node ⨾ field "ipi_list" llist_node ⨾ done))
    ⨾ field "" (union (field "rb_node" rb_node ⨾ field "special_vec" bio_vec ⨾ done))
    ⨾ field "elv" (struct (field "icq" pointer ⨾ field "priv" (array 2 pointer) ⨾ done))
    ⨾ field "flush" (struct (field "seq" (int 4) ⨾ field "saved_end_io" pointer ⨾ done))
    ⨾ field "fifo_time" u64
    ⨾ field "end_io" pointer
    ⨾ field "end_io_data" pointer
    ⨾ done)
