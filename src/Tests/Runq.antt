-- ===== src/Tests/Runq.antt =====
-- Runs of runq_latency.c over tables of two entries.
use e_bpf_kubernetes_operato.Common.{
  if◌then◌else◌, ℕ, ◌≡◌, ◌↔◌, refl, none, some, true, List, [], ◌∷◌, arith, ◌==◌, ==_iff,
}
use e_bpf_kubernetes_operato.Common.Words.{add64, sub64}
use e_bpf_kubernetes_operato.Bpf.Create.{lookup_or_create}
use e_bpf_kubernetes_operato.Bpf.Table.{table}
use e_bpf_kubernetes_operato.Runq.{
  RunqKey, CgroupRunqStats, Task, same_key, same_key_iff, StartMap, StatsMap, Maps, account,
  requeue_prev, leave_queue, sched_switch, fill_key,
}
use e_bpf_kubernetes_operato.Runq.Effect.{
  charge, start_map-sched_switch, runq_stats_by_cgroup-sched_switch,
}
use e_bpf_kubernetes_operato.Runq.Ledger.{
  Event, wakeup, switch, Ledger, trace, trace_all, Runs, Holds, record_events, last_time,
}
use e_bpf_kubernetes_operato.Runq.Ledger.Refinement.{trace_all-Holds}
use e_bpf_kubernetes_operato.Runq.Key.{key_memory}
use e_bpf_kubernetes_operato.Kernel.Read.{Memory, task_at}
use e_bpf_kubernetes_operato.Kernel.Read.Tasks.{IsSameTask, key_memory-task_at}

abbrev pub starts : StartMap
starts = table same_key same_key_iff 2

abbrev pub stats : StatsMap
stats = table ◌==◌ ==_iff 2

abbrev pub empty_maps : Maps (List (RunqKey × ℕ)) (List (ℕ × CgroupRunqStats))
empty_maps = record { start_map = []; runq_stats_by_cgroup = [] }

abbrev pub empty_ledger : Ledger
empty_ledger = record { pending = λ j. none; totals = λ j. none }

abbrev pub task : ℕ → ℕ → ℕ → Task
task pid state cgroup_id = record {
  pid = pid;
  start_time = 5;
  state = state;
  cgroups = record { dfl_cgrp = record { kn = record { id = cgroup_id } } };
}

-- task 11 wakes up, gets the processor from the sleeping task 10, and loses it while runnable
abbrev pub events : List Event
events =
    wakeup (task 11 0 7) 100
    ∷ switch (task 10 1 8) (task 11 0 7) 130 130
    ∷ switch (task 11 0 7) (task 10 0 8) 150 151
    ∷ []

pub maps_after : trace_all starts stats events empty_maps ≡ record {
  start_map = (record { pid = 11; start_time = 5 }, 150) ∷ [];
  runq_stats_by_cgroup = (7, record { count = 1; total_latency_ns = 30 }) ∷ [];
}
unfolding trace_all trace requeue_prev leave_queue sched_switch lookup_or_create account add64 sub64
maps_after = refl

pub empty_Holds : Holds starts stats 0 empty_ledger empty_maps
empty_Holds = record { pending = λ j. refl; totals = λ j. refl; past = λ j v e. cc }

pub events-Runs : Runs starts stats 0 events empty_maps
unfolding trace requeue_prev leave_queue sched_switch lookup_or_create account
events-Runs = (
  omega arith,
  omega arith,
  omega arith,
  refl,
  (
    omega arith,
    omega arith,
    omega arith,
    (λ e. ground arith, λ since e. ground arith),
    (omega arith, omega arith, omega arith, (λ e. ground arith, λ since e. ground arith), tt),
  ),
)

trace_all-Holds_example :
    Holds starts stats
      (last_time 0 events)
      (record_events events empty_ledger)
      (trace_all starts stats events empty_maps)
trace_all-Holds_example =
    trace_all-Holds starts stats 0 events empty_ledger empty_maps events-Runs empty_Holds

-- task 11 waits since 100
abbrev waiting : Maps (List (RunqKey × ℕ)) (List (ℕ × CgroupRunqStats))
waiting = record {
  start_map = (record { pid = 11; start_time = 5 }, 100) ∷ [];
  runq_stats_by_cgroup = [];
}

-- two tasks that differ in one byte, that of the second one's start time
abbrev memory : Memory
memory a = if a == 20776 then 9 else 0

key_memory-task_at_example :
    ((same_key (fill_key (task_at memory 5000)) (fill_key (task_at memory 18000)) ≡ true)
      ↔ IsSameTask memory 5000 18000)
    × ((key_memory (fill_key (task_at memory 5000)) ≡ key_memory (fill_key (task_at memory 18000)))
        ↔ IsSameTask memory 5000 18000)
key_memory-task_at_example = key_memory-task_at memory 5000 18000

start_map-sched_switch_example :
    starts.lookup
      (sched_switch starts stats (task 10 0 8) (task 11 0 7) 130 131 waiting).start_map
      (record { pid = 10; start_time = 5 })
    ≡ some 130
start_map-sched_switch_example =
    start_map-sched_switch starts stats (task 10 0 8) (task 11 0 7) 130 131 waiting
      (record { pid = 10; start_time = 5 })

runq_stats_by_cgroup-sched_switch_example :
    stats.lookup
      (sched_switch starts stats (task 10 0 8) (task 11 0 7) 130 131 waiting).runq_stats_by_cgroup
      7
    ≡ some (record { count = 1; total_latency_ns = 31 })
unfolding charge add64 sub64 requeue_prev
runq_stats_by_cgroup-sched_switch_example =
    runq_stats_by_cgroup-sched_switch starts stats (task 10 0 8) (task 11 0 7) 130 131 waiting 100 7
      refl
