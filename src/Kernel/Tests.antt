-- ===== src/Kernel/Tests.antt =====
-- The layout at the declarations of vmlinux.h, as a C compiler gives it, and reads of memory.
use e_bpf_kubernetes_operato.Common.{◌+◌, ◌*◌, ◌≤◌, some, ◌≡◌, refl, arith, ltb, if◌then◌else◌}
use e_bpf_kubernetes_operato.Kernel.Layout.{offset_of, size, find}
use e_bpf_kubernetes_operato.Kernel.Layout.Bounds.{find-within}
use e_bpf_kubernetes_operato.Kernel.Read.{Memory, core_read}
use e_bpf_kubernetes_operato.Kernel.Read.Local.{core_read-local}
use e_bpf_kubernetes_operato.Kernel.Types.Contexts.{blk_mq_ctx, blk_mq_hw_ctx}
use e_bpf_kubernetes_operato.Kernel.Types.Queue.{request_queue}
use e_bpf_kubernetes_operato.Kernel.Types.Device.{block_device}
use e_bpf_kubernetes_operato.Kernel.Types.Signals.{cred, signal_struct}
use e_bpf_kubernetes_operato.Kernel.Types.Roots.{kernfs_root, cgroup_root, cgroup_subsys}
use e_bpf_kubernetes_operato.Kernel.Types.Disk.{gendisk}
use e_bpf_kubernetes_operato.Kernel.Types.Task.{task_struct}
use e_bpf_kubernetes_operato.Kernel.Types.Request.{request}
use e_bpf_kubernetes_operato.Kernel.Types.Cgroup.{css_set, cgroup, kernfs_node}

sizes :
    (size task_struct ≡ 9792)
    × (size request ≡ 248)
    × (size css_set ≡ 592)
    × (size cgroup ≡ 1984)
    × (size kernfs_node ≡ 136)
unfolding size task_struct request css_set cgroup kernfs_node
sizes = (refl, refl, refl, refl, refl)

-- the fields that the programs read
offsets :
    (offset_of task_struct "pid" ≡ some 2432)
    × (offset_of task_struct "start_time" ≡ some 2776)
    × (offset_of task_struct "__state" ≡ some 24)
    × (offset_of task_struct "cgroups" ≡ some 3584)
    × (offset_of request "__data_len" ≡ some 44)
    × (offset_of css_set "dfl_cgrp" ≡ some 128)
    × (offset_of cgroup "kn" ≡ some 256)
    × (offset_of kernfs_node "id" ≡ some 96)
unfolding offset_of task_struct request css_set cgroup kernfs_node
offsets = (refl, refl, refl, refl, refl, refl, refl, refl)

-- fields near the end, behind bit-fields, unions and padding
far_offsets :
    (offset_of task_struct "thread" ≡ some 5376)
    × (offset_of task_struct "splice_pipe" ≡ some 4976)
    × (offset_of request "fifo_time" ≡ some 224)
    × (offset_of cgroup "freezer" ≡ some 1952)
    × (offset_of kernfs_node "iattr" ≡ some 112)
unfolding offset_of task_struct request cgroup kernfs_node
far_offsets = (refl, refl, refl, refl, refl)

-- the queue, the contexts and the device that a request points to
request_objects :
    (size request_queue ≡ 968)
    × (size block_device ≡ 952)
    × (size blk_mq_hw_ctx ≡ 512)
    × (size blk_mq_ctx ≡ 192)
    × (offset_of request_queue "mq_freeze_lock" ≡ some 848)
    × (offset_of block_device "bd_device" ≡ some 208)
    × (offset_of blk_mq_hw_ctx "ctxs" ≡ some 256)
unfolding offset_of size request_queue block_device blk_mq_hw_ctx blk_mq_ctx
request_objects = (refl, refl, refl, refl, refl, refl, refl)

find-within_example : 352 + 8 * 4 ≤ 8 * 248
unfolding find size request
find-within_example = find-within request "__data_len" (omega arith) refl

-- two memories that agree on the 248 bytes at 1000
abbrev zero_memory : Memory
zero_memory a = 0

abbrev other_memory : Memory
other_memory a = if ltb a 1248 then 0 else 9

core_read-local_example :
    core_read request "__data_len" zero_memory 1000
    ≡ core_read request "__data_len" other_memory 1000
unfolding size request
core_read-local_example =
    core_read-local request "__data_len" zero_memory other_memory 1000 (omega arith)
      (λ i lt. ground arith)

-- what a task, its control groups and a disk point to
shared_sizes :
    (size signal_struct ≡ 1104)
    × (size cred ≡ 184)
    × (size kernfs_root ≡ 232)
    × (size cgroup_root ≡ 6272)
    × (size cgroup_subsys ≡ 256)
    × (size gendisk ≡ 776)
unfolding size signal_struct cred kernfs_root cgroup_root cgroup_subsys gendisk
shared_sizes = (refl, refl, refl, refl, refl, refl)

shared_offsets :
    (offset_of signal_struct "oom_score_adj" ≡ some 1018)
    × (offset_of cred "ucounts" ≡ some 152)
    × (offset_of cgroup_root "name" ≡ some 6160)
    × (offset_of cgroup_subsys "depends_on" ≡ some 248)
    × (offset_of gendisk "diskseq" ≡ some 752)
    × (offset_of kernfs_root "rcu" ≡ some 216)
unfolding offset_of signal_struct cred kernfs_root cgroup_root cgroup_subsys gendisk
shared_offsets = (refl, refl, refl, refl, refl, refl)
