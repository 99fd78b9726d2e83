-- ===== src/Lib.antt =====
-- eBPF_Kubernetes-operator: two eBPF objects measure block and run-queue latency for each cgroup,
-- a collector in Go reads their maps and exports metrics for each pod, and a Kubernetes operator
-- queries the metrics and remediates saturated pods.
--
-- Common holds shared names, wrapping 64-bit words and bytes. Bpf is the kernel's hash map, which
-- the programs call and the repository does not implement: a parameter (Bpf/Map) with the
-- documented behaviour of lookup, update with BPF_ANY, delete and writes through a looked-up
-- pointer; Bpf/Table is a bounded table that has it, Bpf/Create the lookup that creates a missing
-- value, and Bpf/Write a write through a pointer that was looked up before: an update may have
-- put another element in the place of the one that it points to, and the write does not reach the
-- map then.
--
-- Block is ebpf/latency/block_latency.c. `block_rq_issue` and `block_rq_complete` map the pair of
-- maps to the pair of maps; the clock, the current cgroup and the request are arguments.
-- Block/Effect states what each does, Block/Ledger the account in unbounded numbers that the maps
-- hold modulo 2 ^ 64, Block/Counts what holds where updates fail, Block/Race two completions on
-- two processors. Block/Steps is `block_rq_complete` again, one operation on a map at a time, and
-- Block/Interleave any number of processors that run it in any order of these operations, while
-- requests are issued.
--
-- Runq is ebpf/latency/runq_latency.c, with an effect and a ledger of its own; Runq/Key is the
-- memory of its map key, Runq/Steps `sched_switch` one operation on a map at a time, and
-- Runq/Interleave any number of processors that run it in any order of these operations, while
-- tasks wake up.
--
-- Kernel/Types holds the declarations of ebpf/vmlinux.h that these programs read, those that they
-- hold by value, those of the queue, the device and the disk of a request, of the credentials and
-- signals of a task, and of the hierarchies of control groups; Kernel/Layout is the layout of a C
-- compiler for x86-64, and Kernel/Read the reads of memory by BPF_CORE_READ, which give the
-- arguments of the programs of Block and Runq.
--
-- Collector is the collector. Collector/Classify is `ClassifyCgroupPath` of
-- collector/cgroup_classifier.go, Collector/KubePath `ParseKubePath` of
-- collector/kube_path_parser.go on strings of bytes; Collector/KubePath/Kubelet is how the
-- kubelet names a control group. Collector/Rows is the two loops of `readStats` in
-- collector/main.go, which make a row of each entry of the maps, and Collector/Read the whole
-- function, with the pinned maps, their iterators, the resolver and the sorting as parameters.
-- Collector/Resolver is collector/cgroup_resolver.go, and Collector/Loop the rounds of
-- `startCollectorLoop` in collector/main.go, which put the resolver, `readStats` and `Update`
-- together; a round has what the walk finds and what the kernel did to the maps meanwhile.
-- Collector/Metrics and Collector/Series are `Update` of collector/prom_metrics.go on these rows:
-- the totals of each pod, and the series of the Prometheus client, which is a parameter
-- (`Vectors`).
--
-- Pipeline puts the programs and the collector together: runs of both programs, a reading of the
-- maps that they leave, the totals and series that follow, the labels of a container that the
-- kubelet has started, and the pods that the operator selects by these labels.
--
-- Operator is the Kubernetes operator. Operator/Evict, Operator/ScaleUp and Operator/Migrate are
-- `Execute` of the three actions in operator/pkg/action/evict_and_taint.go, scale_up.go and
-- migrate_storage.go, and Operator/Evaluate is `Evaluate` of
-- operator/pkg/evaluator/prometheus_io_evaluator.go; each is over a client of the API server, a
-- record of the calls that it makes, which is a parameter (`Client`). Operator/Calls is the
-- chaining of calls that may fail. Operator/Reconcile is `Reconcile` of
-- operator/internal/controller/ioremediationpolicy_controller.go, which composes the four over
-- one state of the cluster. Common/Int64 is Go's int64 as bit patterns, and Common/Decimal the
-- format `%d`, whose fuel of 19 digits is enough for an int64.
--
-- The eBPF programs have no loop; runs of them are lists of events, or relations between states.
-- The number of entries of a map is a bound of the parameter: `rejects` says when an update
-- fails.
--
-- Not modelled: the verifier and the loader of eBPF, a read of memory that faults, the use of a
-- replaced element for another key, and completions and switches at once, which share no map; the
-- server and the printing of the collector; the start-up of the collector and of the operator.
-- Test drivers, manifests and dashboards are left out.
--
-- Tests runs the definitions and applies the theorems at concrete inputs.
pub mod Common
pub mod Bpf
pub mod Block
pub mod Runq
pub mod Kernel
pub mod Collector
pub mod Operator
pub mod Pipeline
mod Tests
