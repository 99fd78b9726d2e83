-- ===== src/Kernel/Read.antt =====
-- Reads of the kernel's memory by `BPF_CORE_READ` in ebpf/latency: the bytes of a field at the
-- offset that the layout of its struct gives, least significant first, and a chain of pointers.
pub mod Local
pub mod Tasks
use Prim.Native.String.{String}
use e_bpf_kubernetes_operato.Common.{ℕ, zero, suc, ◌+◌, ◌*◌, ◌/◌, ◌%◌, Option, none, some}
use e_bpf_kubernetes_operato.Kernel.Layout.{CType, size, find, offset_of}
use e_bpf_kubernetes_operato.Kernel.Types.Task.{task_struct}
use e_bpf_kubernetes_operato.Kernel.Types.Request.{request as request_type}
use e_bpf_kubernetes_operato.Kernel.Types.Cgroup.{css_set, cgroup, kernfs_node}
use e_bpf_kubernetes_operato.Block.{Request}
use e_bpf_kubernetes_operato.Runq.{Task}

-- the byte at each address
abbrev pub Memory : Type 0
Memory = ℕ → ℕ

unfoldable pub load : ℕ → Memory → ℕ → ℕ
load zero m a = 0
load (suc n) m a = m a % 256 + 256 * load n m (a + 1)

abbrev pub load_found : Memory → ℕ → Option (ℕ × CType) → ℕ
load_found m a none = 0
load_found m a (some (n, t)) = load (size t) m (a + n / 8)

-- `BPF_CORE_READ(p, name)` at the struct that `p` points to
unfoldable pub core_read : CType → String → Memory → ℕ → ℕ
core_read t name m a = load_found m a (find t name)

-- what the programs of runq_latency.c read of the task at an address
unfoldable pub task_at : Memory → ℕ → Task
task_at m p =
    let css = core_read task_struct "cgroups" m p in
    let cgrp = core_read css_set "dfl_cgrp" m css in
    let kn = core_read cgroup "kn" m cgrp in
    record {
      pid = core_read task_struct "pid" m p;
      start_time = core_read task_struct "start_time" m p;
      state = core_read task_struct "__state" m p;
      cgroups = record {
        dfl_cgrp = record { kn = record { id = core_read kernfs_node "id" m kn } };
      };
    }

-- what block_rq_issue of block_latency.c reads of the request at an address
unfoldable pub request_at : Memory → ℕ → Request
request_at m rq = record { address = rq; data_len = core_read request_type "__data_len" m rq }
