-- ===== src/Tests/Block.antt =====
-- Runs of block_latency.c over tables of two entries.
use e_bpf_kubernetes_operato.Common.{
  ℕ, false, ◌≡◌, refl, none, some, List, [], ◌∷◌, arith, ◌==◌, ==_iff,
}
use e_bpf_kubernetes_operato.Common.Words.{add64, sub64}
use e_bpf_kubernetes_operato.Bpf.Create.{lookup_or_create}
use e_bpf_kubernetes_operato.Bpf.Table.{table}
use e_bpf_kubernetes_operato.Block.{
  StartVal, CgroupIoStats, Completion, StartMap, StatsMap, Maps, block_rq_issue, account,
  settle_missing, block_rq_complete,
}
use e_bpf_kubernetes_operato.Block.Effect.{
  charge, start_map-block_rq_issue, stats_by_cgroup-block_rq_complete,
}
use e_bpf_kubernetes_operato.Block.Ledger.{
  Event, issue, complete, Ledger, fire, fire_all, Runs, Holds, record_events, last_time,
  fire_all-Holds,
}
use e_bpf_kubernetes_operato.Block.Counts.{IsCounted, fire_all-IsCounted}
use e_bpf_kubernetes_operato.Block.Race.{totals, lost_completion}

abbrev pub starts : StartMap
starts = table ◌==◌ ==_iff 2

abbrev pub stats : StatsMap
stats = table ◌==◌ ==_iff 2

abbrev pub empty_maps : Maps (List (ℕ × StartVal)) (List (ℕ × CgroupIoStats))
empty_maps = record { start_map = []; stats_by_cgroup = [] }

abbrev pub empty_ledger : Ledger
empty_ledger = record { pending = λ j. none; totals = λ j. none }

abbrev pub events : List Event
events =
    issue (record { address = 4096; data_len = 512 }) 7 100
    ∷ complete (record { rq = 4096; error = 5; nr_bytes = 0 }) 160
    ∷ []

pub totals_after :
    (fire_all starts stats events empty_maps).stats_by_cgroup
    ≡ (7, record { io_count = 1; total_latency_ns = 60; total_bytes = 512; error_count = 1 }) ∷ []
unfolding fire_all fire block_rq_issue block_rq_complete lookup_or_create account add64 sub64
totals_after = refl

pub empty_Holds : Holds starts stats 0 empty_ledger empty_maps
empty_Holds = record { pending = λ j. refl; totals = λ j. refl; past = λ j v e. cc }

pub events-Runs : Runs starts stats 0 events empty_maps
unfolding fire block_rq_issue lookup_or_create
events-Runs =
    (omega arith, omega arith, refl, (omega arith, omega arith, λ start e. ground arith, tt))

fire_all-Holds_example :
    Holds starts stats
      (last_time 0 events)
      (record_events events empty_ledger)
      (fire_all starts stats events empty_maps)
fire_all-Holds_example =
    fire_all-Holds starts stats 0 events empty_ledger empty_maps events-Runs empty_Holds

empty_IsCounted : IsCounted starts stats 0 empty_maps
empty_IsCounted = record { at_cgroup = λ j v e. absurd (ground arith) }

fire_all-IsCounted_example : IsCounted starts stats 2 (fire_all starts stats events empty_maps)
fire_all-IsCounted_example =
    fire_all-IsCounted starts stats events 0 empty_maps (omega arith) empty_IsCounted

-- two requests of cgroup 7 in flight, and no totals
abbrev start_a : StartVal
start_a = record { ts_ns = 100; bytes = 512; cgroup_id = 7 }

abbrev start_b : StartVal
start_b = record { ts_ns = 110; bytes = 1024; cgroup_id = 7 }

abbrev two_pending : Maps (List (ℕ × StartVal)) (List (ℕ × CgroupIoStats))
two_pending = record { start_map = (4096, start_a) ∷ (8192, start_b) ∷ []; stats_by_cgroup = [] }

abbrev done_a : Completion
done_a = record { rq = 4096; error = 0; nr_bytes = 512 }

abbrev done_b : Completion
done_b = record { rq = 8192; error = 0; nr_bytes = 1024 }

after_a_rejects :
    stats.rejects (block_rq_complete starts stats done_a 200 two_pending).stats_by_cgroup 7 ≡ false
unfolding block_rq_complete lookup_or_create account
after_a_rejects = refl

lost_completion_example :
    (totals starts stats
        (settle_missing starts stats done_b 200 start_b
          (block_rq_complete starts stats done_a 200 two_pending))
        7
      ≡ some (record { io_count = 1; total_latency_ns = 90; total_bytes = 1024; error_count = 0 }))
    × (totals starts stats
          (block_rq_complete starts stats done_b 200
            (block_rq_complete starts stats done_a 200 two_pending))
          7
        ≡ some
            (record { io_count = 2; total_latency_ns = 190; total_bytes = 1536; error_count = 0 }))
unfolding charge add64 sub64
lost_completion_example =
    lost_completion starts stats done_a done_b 200 start_a start_b two_pending refl refl refl
      (λ e. ground arith) refl refl after_a_rejects

start_map-block_rq_issue_example :
    starts.lookup
      (block_rq_issue starts stats
        (record { address = 4096; data_len = 512 })
        100
        7
        empty_maps).start_map
      4096
    ≡ some start_a
start_map-block_rq_issue_example =
    start_map-block_rq_issue starts stats (record { address = 4096; data_len = 512 }) 100 7
      empty_maps 4096

stats_by_cgroup-block_rq_complete_example :
    stats.lookup (block_rq_complete starts stats done_a 200 two_pending).stats_by_cgroup 7
    ≡ some (record { io_count = 1; total_latency_ns = 100; total_bytes = 512; error_count = 0 })
unfolding charge add64 sub64
stats_by_cgroup-block_rq_complete_example =
    stats_by_cgroup-block_rq_complete starts stats done_a 200 two_pending start_a 7 refl
