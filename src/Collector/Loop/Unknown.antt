-- ===== src/Collector/Loop/Unknown.antt =====
-- Control groups that the resolver of a round does not know.
use e_bpf_kubernetes_operato.Common.{
  ℕ, Bool, true, ◌&&◌, ◌||◌, Option, none, some, List, [], ◌∷◌, ◌≡◌, ◌==◌, ==_iff, refl, arith,
  is_some, Option-cases, inl, inr,
}
use e_bpf_kubernetes_operato.Common.Text.{Text, text_eq_iff}
use e_bpf_kubernetes_operato.Bpf.Table.{find}
use e_bpf_kubernetes_operato.Collector.Classify.{unresolved}
use e_bpf_kubernetes_operato.Collector.Rows.{
  CgroupIoStats, CgroupRunqStats, Row, Scan, block_step, runq_step, scan_block, scan_runq,
}
use e_bpf_kubernetes_operato.Collector.Read.{
  PinnedMap, Pinned, nothing_scanned, read_runq, read_stats,
}
use e_bpf_kubernetes_operato.Collector.Read.Merge.{is_unknown}
use e_bpf_kubernetes_operato.Collector.Read.Stale.{block_map-read_stats}
use e_bpf_kubernetes_operato.Collector.Resolver.{CgroupResolver, Visit, resolve}
use e_bpf_kubernetes_operato.Collector.Resolver.Last.{last_path, resolve-build_cgroup_resolver}
use e_bpf_kubernetes_operato.Collector.Series.{Vectors}
use e_bpf_kubernetes_operato.Collector.Loop.{Collector, Tick, current_resolver, collect, round}

module _ (path_of : ℕ → Text) where
  scan_block-had_unknown :
      (es : List (ℕ × CgroupIoStats)) (s : Scan) (k : ℕ)
      → (s.had_unknown || is_some (find ◌==◌ es k) && is_unknown path_of k) ≡ true
      → (scan_block path_of es s).had_unknown ≡ true
  unfolding scan_block block_step
  scan_block-had_unknown [] s k h = ground arith
  scan_block-had_unknown ((key, val) ∷ es) s k h =
      scan_block-had_unknown es (block_step path_of key val s) k (ground (arith, ==_iff key k))

  scan_runq-had_unknown :
      (es : List (ℕ × CgroupRunqStats)) (s : Scan)
      → s.had_unknown ≡ true
      → (scan_runq path_of es s).had_unknown ≡ true
  unfolding scan_runq runq_step
  scan_runq-had_unknown [] s h = h
  scan_runq-had_unknown ((key, val) ∷ es) s h =
      scan_runq-had_unknown es (runq_step path_of key val s)
        (elim (Option-cases (find ◌==◌ s.row_map key)) [
          | inl e ↦ ground (arith, e)
          | inr (row, e) ↦ ground (arith, e)
        ])

module _ (blocks : PinnedMap CgroupIoStats) (runqs : PinnedMap CgroupRunqStats) (v : Vectors)
    (handle_of : Text → Option (List ℕ)) (sort : List Row → List Row) where
  read_stats-had_unknown :
      (path_of : ℕ → Text) (m : Pinned blocks runqs) (k : ℕ)
      → is_some (find ◌==◌ (blocks.entries m.block_map) k) ≡ true
      → is_unknown path_of k ≡ true
      → (read_stats blocks runqs path_of sort m).had_unknown ≡ true
  unfolding read_stats read_runq
  read_stats-had_unknown path_of m k there unknown =
      let scan = scan_block path_of (blocks.entries m.block_map) nothing_scanned in
      let first : scan.had_unknown ≡ true =
        scan_block-had_unknown path_of (blocks.entries m.block_map) nothing_scanned k
          (ground arith) in
      elim (Option-cases m.runq_map) [
        | inl e ↦ ground (arith, e, first)
        | inr (q, e) ↦
            let then_too =
              scan_runq-had_unknown path_of (runqs.entries q) (record scan { stale = [] }) first in
            ground (arith, e, first, then_too)
      ]

  round-unknown :
      (t : Tick blocks runqs v) (s : Collector blocks runqs v) (r : CgroupResolver) (k : ℕ)
      → current_resolver blocks runqs v handle_of sort t.visits s.resolver ≡ some r
      → resolve r k ≡ unresolved
      → blocks.iterates (t.meanwhile s.maps).block_map ≡ true
      → is_some (find ◌==◌ (blocks.entries (t.meanwhile s.maps).block_map) k) ≡ true
      → let s' = round blocks runqs v handle_of sort t s in
        (s'.resolver ≡ none) × (blocks.bpf_map.lookup s'.maps.block_map k ≡ none)
  unfolding round collect
  round-unknown t s r k used unknown iterates there =
      let m = t.meanwhile s.maps in
      let is : is_unknown (resolve r) k ≡ true = (text_eq_iff (resolve r k) unresolved).1 unknown in
      let had = read_stats-had_unknown (resolve r) m k there is in
      let gone = block_map-read_stats blocks runqs (resolve r) sort m k in
      (ground (arith, used, had), ground (arith, used, gone, iterates, there, is))

  -- A control group that was made after the resolver was built: a round whose iterator yields it and
  -- ends without an error deletes its totals from the block map, and drops the resolver, so that the
  -- control group is known only when there is nothing left to read of what it did so far.
  pub round-new_cgroup :
      (t : Tick blocks runqs v) (s : Collector blocks runqs v) (r : CgroupResolver) (k : ℕ)
      → s.resolver ≡ some r
      → find ◌==◌ r.by_id k ≡ none
      → blocks.iterates (t.meanwhile s.maps).block_map ≡ true
      → is_some (find ◌==◌ (blocks.entries (t.meanwhile s.maps).block_map) k) ≡ true
      → let s' = round blocks runqs v handle_of sort t s in
        (s'.resolver ≡ none) × (blocks.bpf_map.lookup s'.maps.block_map k ≡ none)
  unfolding resolve
  round-new_cgroup t s r k has new iterates there =
      round-unknown t s r k (ground (arith, has)) (ground (arith, new)) iterates there

  abbrev pub all_failed : List Visit → Bool
  all_failed [] = true
  all_failed (x ∷ xs) = x.failed && all_failed xs

  last_path_failed :
      (xs : List Visit) (k : ℕ) → all_failed xs ≡ true → last_path handle_of k xs ≡ none
  last_path_failed [] k h = refl
  last_path_failed (x ∷ xs) k h = ground (arith, last_path_failed xs k)

  -- A round without a resolver in which the walk meets only errors, as where the root of the tree
  -- cannot be read: a resolver is built all the same, and if the iterator ends without an error, every
  -- entry that it yields is deleted from the block map.
  pub round-unreadable :
      (t : Tick blocks runqs v) (s : Collector blocks runqs v) (k : ℕ)
      → s.resolver ≡ none
      → all_failed t.visits ≡ true
      → blocks.iterates (t.meanwhile s.maps).block_map ≡ true
      → is_some (find ◌==◌ (blocks.entries (t.meanwhile s.maps).block_map) k) ≡ true
      → blocks.bpf_map.lookup (round blocks runqs v handle_of sort t s).maps.block_map k ≡ none
  round-unreadable t s k without failed iterates there =
      let (r, built, path) = resolve-build_cgroup_resolver handle_of t.visits k in
      let nowhere = last_path_failed t.visits k failed in
      (round-unknown t s r k (ground (arith, without, built)) (ground (arith, path, nowhere))
        iterates there).1
