-- ===== src/Collector/Loop/Exported.antt =====
-- Which series there are between two rounds.
use e_bpf_kubernetes_operato.Common.{ℕ, Option, none, some, List, [], ◌∷◌}
use e_bpf_kubernetes_operato.Common.Text.{Text}
use e_bpf_kubernetes_operato.Collector.Rows.{CgroupIoStats, CgroupRunqStats, Row}
use e_bpf_kubernetes_operato.Collector.Read.{PinnedMap, read_stats}
use e_bpf_kubernetes_operato.Collector.Resolver.{CgroupResolver, resolve}
use e_bpf_kubernetes_operato.Collector.Series.{Vectors, PromMetrics, update}
use e_bpf_kubernetes_operato.Collector.Series.Exported.{IsExported, update-IsExported}
use e_bpf_kubernetes_operato.Collector.Loop.{
  Collector, Tick, current_resolver, collect, collect_with, round, rounds,
}

module _ (blocks : PinnedMap CgroupIoStats) (runqs : PinnedMap CgroupRunqStats) (v : Vectors)
    (handle_of : Text → Option (List ℕ)) (sort : List Row → List Row) where
  published-IsExported :
      (rows : Option (List Row)) (m : PromMetrics v.State)
      → IsExported v m
      → IsExported v (elim rows [ none ↦ m | some rows' ↦ update v rows' m ])
  published-IsExported none m w = w
  published-IsExported (some rows) m w = update-IsExported v rows m w

  collected-IsExported :
      (r : Option CgroupResolver) (s : Collector blocks runqs v)
      → IsExported v s.prom_metrics
      → IsExported v (collect_with blocks runqs v handle_of sort r s).prom_metrics
  unfolding collect
  collected-IsExported none s w = w
  collected-IsExported (some r) s w =
      published-IsExported (read_stats blocks runqs (resolve r) sort s.maps).rows s.prom_metrics w

  -- If each counter has exactly the series of the kept totals at the start, as it has with no series
  -- and no totals, then so it is after any rounds: whether readings fail, the tree cannot be walked,
  -- or pods come and go, no counter has a series of a pod without kept totals, and none lacks one.
  pub rounds-IsExported :
      (ts : List (Tick blocks runqs v)) (s : Collector blocks runqs v)
      → IsExported v s.prom_metrics
      → IsExported v (rounds blocks runqs v handle_of sort ts s).prom_metrics
  unfolding rounds round
  rounds-IsExported [] s w = w
  rounds-IsExported (t ∷ ts) s w =
      let s' = record s { maps = t.meanwhile s.maps } in
      rounds-IsExported ts (round blocks runqs v handle_of sort t s) (
        collected-IsExported (current_resolver blocks runqs v handle_of sort t.visits s.resolver) s'
          w)
