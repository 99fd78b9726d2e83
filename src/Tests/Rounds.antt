-- ===== src/Tests/Rounds.antt =====
-- Rounds of the collector over two pinned tables.
use e_bpf_kubernetes_operato.Common.{
  ℕ, ◌≡◌, refl, none, some, true, false, List, [], ◌∷◌, if◌then◌else◌, Option, ap, is_some,
}
use e_bpf_kubernetes_operato.Common.Text.{Text, codes, text_eq}
use e_bpf_kubernetes_operato.Common.Bytes.{from_bytes}
use e_bpf_kubernetes_operato.Collector.Resolver.{
  CgroupResolver, Visit, build_cgroup_resolver, resolve, cgroup_id_from_path, visit, walk_dir,
}
use e_bpf_kubernetes_operato.Collector.Resolver.Last.{resolve-build_cgroup_resolver}
use e_bpf_kubernetes_operato.Collector.Metrics.{Labels}
use e_bpf_kubernetes_operato.Collector.Series.Update.{Counter, operations, counter_of}
use e_bpf_kubernetes_operato.Collector.Series.Exported.{IsExported}
use e_bpf_kubernetes_operato.Collector.Loop.{Collector, Tick, round, rounds}
use e_bpf_kubernetes_operato.Collector.Loop.Exported.{rounds-IsExported}
use e_bpf_kubernetes_operato.Collector.Loop.Unknown.{round-new_cgroup, round-unreadable}
use e_bpf_kubernetes_operato.Tests.Pinned.{blocks, runqs, pinned}
use e_bpf_kubernetes_operato.Tests.Collector.{vectors, no_series}

-- the handle of one path has 8 bytes
abbrev handle_of : Text → Option (List ℕ)
handle_of path =
    if text_eq path (codes "/a.slice")
    then some (7 ∷ 0 ∷ 0 ∷ 0 ∷ 0 ∷ 0 ∷ 0 ∷ 0 ∷ [])
    else some (7 ∷ [])

abbrev visits : List Visit
visits =
    record { path = codes "/"; is_dir = true; failed = false }
    ∷ record { path = codes "/a.slice"; is_dir = true; failed = false }
    ∷ record { path = codes "/a.slice/x"; is_dir = false; failed = false }
    ∷ []

seven_found :
    (build_cgroup_resolver handle_of visits) ≡ some (record { by_id = (7, codes "/a.slice") ∷ [] })
unfolding build_cgroup_resolver walk_dir visit cgroup_id_from_path from_bytes
seven_found = refl

resolve-build_cgroup_resolver_example :
    (r : CgroupResolver) × (build_cgroup_resolver handle_of visits ≡ some r)
    × (resolve r 7 ≡ codes "/a.slice")
unfolding cgroup_id_from_path from_bytes
resolve-build_cgroup_resolver_example = resolve-build_cgroup_resolver handle_of visits 7

abbrev tick : List Visit → Tick blocks runqs vectors
tick vs = record { visits = vs; meanwhile = λ m. m }

abbrev collector : Option CgroupResolver → Collector blocks runqs vectors
collector r = record { resolver = r; maps = pinned; prom_metrics = no_series }

no_values : (c : Counter) (l : Labels) → counter_of c no_series l ≡ none
no_values operations l = refl
no_values _ l = refl

no_series-IsExported : IsExported vectors no_series
no_series-IsExported = record { keyed = tt; exported = λ c l h. ap is_some (no_values c l) }

rounds-IsExported_example :
    IsExported vectors
      (rounds blocks runqs vectors handle_of
        (λ rows. rows)
        (tick visits ∷ tick [] ∷ [])
        (collector none)).prom_metrics
rounds-IsExported_example =
    rounds-IsExported blocks runqs vectors handle_of (λ rows. rows) (tick visits ∷ tick [] ∷ [])
      (collector none) no_series-IsExported

abbrev old_resolver : CgroupResolver
old_resolver = record { by_id = (7, codes "/a.slice") ∷ [] }

round-new_cgroup_example :
    let s =
      round blocks runqs vectors handle_of
        (λ rows. rows)
        (tick visits)
        (collector (some old_resolver)) in
    (s.resolver ≡ none) × (blocks.bpf_map.lookup s.maps.block_map 9 ≡ none)
round-new_cgroup_example =
    round-new_cgroup blocks runqs vectors handle_of (λ rows. rows) (tick visits)
      (collector (some old_resolver)) old_resolver 9 refl refl refl refl

abbrev unreadable : List Visit
unreadable = record { path = codes "/"; is_dir = true; failed = true } ∷ []

round-unreadable_example :
    blocks.bpf_map.lookup
      (round blocks runqs vectors handle_of
        (λ rows. rows)
        (tick unreadable)
        (collector none)).maps.block_map
      7
    ≡ none
round-unreadable_example =
    round-unreadable blocks runqs vectors handle_of (λ rows. rows) (tick unreadable)
      (collector none) 7 refl refl refl refl
