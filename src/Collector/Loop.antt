-- ===== src/Collector/Loop.antt =====
-- collector/main.go: the rounds of `startCollectorLoop`. A round has what the walk over the tree finds
-- if it is made, and what the kernel has done to the maps since the round before. The loop ends with
-- the context, which is the end of the list of rounds.
pub mod Unknown
pub mod Exported
use e_bpf_kubernetes_operato.Common.{ℕ, Bool, Option, none, some, List, [], ◌∷◌, if◌then◌else◌}
use e_bpf_kubernetes_operato.Common.Text.{Text}
use e_bpf_kubernetes_operato.Collector.Rows.{CgroupIoStats, CgroupRunqStats, Row}
use e_bpf_kubernetes_operato.Collector.Read.{PinnedMap, Pinned, Reading, read_stats}
use e_bpf_kubernetes_operato.Collector.Resolver.{
  CgroupResolver, Visit, build_cgroup_resolver, resolve,
}
use e_bpf_kubernetes_operato.Collector.Series.{Vectors, PromMetrics, update}

module _ (blocks : PinnedMap CgroupIoStats) (runqs : PinnedMap CgroupRunqStats) (v : Vectors) where
  pub record Collector : Type 0 where
    pub resolver : Option CgroupResolver
    pub maps : Pinned blocks runqs
    pub prom_metrics : PromMetrics v.State

  pub record Tick : Type 0 where
    pub visits : List Visit
    pub meanwhile : Pinned blocks runqs → Pinned blocks runqs

module _ (blocks : PinnedMap CgroupIoStats) (runqs : PinnedMap CgroupRunqStats) (v : Vectors)
    (handle_of : Text → Option (List ℕ)) (sort : List Row → List Row) where
  -- the resolver of a round: the one there is, or a new one
  abbrev pub current_resolver : List Visit → Option CgroupResolver → Option CgroupResolver
  current_resolver visits (some r) = some r
  current_resolver visits none = build_cgroup_resolver handle_of visits

  -- the reading of the maps and the update of the metrics
  unfoldable pub collect : CgroupResolver → Collector blocks runqs v → Collector blocks runqs v
  collect r s =
      let reading = read_stats blocks runqs (resolve r) sort s.maps in
      record {
        resolver = if reading.had_unknown then none else some r;
        maps = reading.maps;
        prom_metrics = elim reading.rows [
          | none ↦ s.prom_metrics
          | some rows ↦ update v rows s.prom_metrics
        ];
      }

  -- without a resolver the round ends
  abbrev pub collect_with :
      Option CgroupResolver → Collector blocks runqs v → Collector blocks runqs v
  collect_with none s = s
  collect_with (some r) s = collect r s

  unfoldable pub round : Tick blocks runqs v → Collector blocks runqs v → Collector blocks runqs v
  unfolding collect
  round t s =
      collect_with (current_resolver t.visits s.resolver) (record s { maps = t.meanwhile s.maps })

  unfoldable pub rounds :
      List (Tick blocks runqs v) → Collector blocks runqs v → Collector blocks runqs v
  rounds [] s = s
  rounds (t ∷ ts) s = rounds ts (round t s)
