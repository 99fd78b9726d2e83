-- ===== src/Kernel/Types/Disk.antt =====
-- Disks, from ebpf/vmlinux.h.
use e_bpf_kubernetes_operato.Kernel.Layout.{CType, int, pointer, array, struct, field, done, ◌⨾◌}
use e_bpf_kubernetes_operato.Kernel.Types.Locks.{
  spinlock_t, wait_queue_head_t, work_struct, mutex, atomic_t,
}
use e_bpf_kubernetes_operato.Kernel.Types.Links.{hlist_node, list_head}
use e_bpf_kubernetes_operato.Kernel.Types.Objects.{xarray, kobject}
use e_bpf_kubernetes_operato.Kernel.Types.Queue.{lockdep_map}
use e_bpf_kubernetes_operato.Kernel.Types.Scalars.{u64, blk_mode_t}

unfoldable pub mempool_s : CType
unfolding spinlock_t wait_queue_head_t
mempool_s = struct (
    field "lock" spinlock_t
    ⨾ field "min_nr" (int 4)
    ⨾ field "curr_nr" (int 4)
    ⨾ field "elements" pointer
    ⨾ field "pool_data" pointer
    ⨾ field "alloc" pointer
    ⨾ field "free" pointer
    ⨾ field "wait" wait_queue_head_t
    ⨾ done)

unfoldable pub mempool_t : CType
unfolding mempool_s
mempool_t = mempool_s

unfoldable pub bio_list : CType
bio_list = struct (field "head" pointer ⨾ field "tail" pointer ⨾ done)

unfoldable pub bio_set : CType
unfolding mempool_t spinlock_t bio_list work_struct hlist_node
bio_set = struct (
    field "bio_slab" pointer
    ⨾ field "front_pad" (int 4)
    ⨾ field "cache" pointer
    ⨾ field "bio_pool" mempool_t
    ⨾ field "bvec_pool" mempool_t
    ⨾ field "bio_integrity_pool" mempool_t
    ⨾ field "bvec_integrity_pool" mempool_t
    ⨾ field "back_pad" (int 4)
    ⨾ field "rescue_lock" spinlock_t
    ⨾ field "rescue_list" bio_list
    ⨾ field "rescue_work" work_struct
    ⨾ field "rescue_workqueue" pointer
    ⨾ field "cpuhp_dead" hlist_node
    ⨾ done)

unfoldable pub gendisk : CType
unfolding xarray bio_set mutex kobject list_head atomic_t spinlock_t lockdep_map u64 blk_mode_t
gendisk = struct (
    field "major" (int 4)
    ⨾ field "first_minor" (int 4)
    ⨾ field "minors" (int 4)
    ⨾ field "disk_name" (array 32 (int 1))
    ⨾ field "events" (int 2)
    ⨾ field "event_flags" (int 2)
    ⨾ field "part_tbl" xarray
    ⨾ field "part0" pointer
    ⨾ field "fops" pointer
    ⨾ field "queue" pointer
    ⨾ field "private_data" pointer
    ⨾ field "bio_split" bio_set
    ⨾ field "flags" (int 4)
    ⨾ field "state" (int 8)
    ⨾ field "open_mutex" mutex
    ⨾ field "open_partitions" (int 4)
    ⨾ field "bdi" pointer
    ⨾ field "queue_kobj" kobject
    ⨾ field "slave_dir" pointer
    ⨾ field "slave_bdevs" list_head
    ⨾ field "random" pointer
    ⨾ field "sync_io" atomic_t
    ⨾ field "ev" pointer
    ⨾ field "nr_zones" (int 4)
    ⨾ field "zone_capacity" (int 4)
    ⨾ field "last_zone_capacity" (int 4)
    ⨾ field "conv_zones_bitmap" pointer
    ⨾ field "zone_wplugs_hash_bits" (int 4)
    ⨾ field "nr_zone_wplugs" atomic_t
    ⨾ field "zone_wplugs_lock" spinlock_t
    ⨾ field "zone_wplugs_pool" pointer
    ⨾ field "zone_wplugs_hash" pointer
    ⨾ field "zone_wplugs_wq" pointer
    ⨾ field "cdi" pointer
    ⨾ field "node_id" (int 4)
    ⨾ field "bb" pointer
    ⨾ field "lockdep_map" lockdep_map
    ⨾ field "diskseq" u64
    ⨾ field "open_mode" blk_mode_t
    ⨾ field "ia_ranges" pointer
    ⨾ done)
