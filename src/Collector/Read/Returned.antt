-- ===== src/Collector/Read/Returned.antt =====
-- The rows that `readStats` returns, with what `sort.Slice` by the identifier promises.
use mathlib.Core.List.{Mem, Perm, Pairwise}
use mathlib.Core.List.Perm
use mathlib.Core.HLevel.{¬_prop}
use e_bpf_kubernetes_operato.Common.{
  ℕ, ◌<◌, ◌≤◌, ◌≢◌, Bool, true, false, Option, none, some, List, [], ◌∷◌, ◌≡◌, ◌↔◌, ◌==◌, refl, sym,
  ◌∙◌, arith, if◌then◌else◌, Option-cases, inl, inr,
}
use e_bpf_kubernetes_operato.Common.Text.{Text}
use e_bpf_kubernetes_operato.Bpf.Table.{find}
use e_bpf_kubernetes_operato.Collector.Read.{
  PinnedMap, Pinned, values, nothing_scanned, read_runq, read_stats,
}
use e_bpf_kubernetes_operato.Collector.Read.Indexed.{
  IsIndexed, scan_block-IsIndexed, scan_runq-IsIndexed, mem-values, values-distinct,
}
use e_bpf_kubernetes_operato.Collector.Read.Merge.{is_unknown, row_for, IsDistinct, find-scan_both}
use e_bpf_kubernetes_operato.Collector.Rows.{
  CgroupIoStats, CgroupRunqStats, Row, scan_block, scan_runq,
}

-- the documented behaviour of `sort.Slice` with the comparison of the identifiers
pub record IsSorting (sort : List Row → List Row) : Type 0 where
  pub permutes : (rows : List Row) → Perm rows (sort rows)
  pub ascends : (rows : List Row) → Pairwise (λ r q. r.cgroup_id ≤ q.cgroup_id) (sort rows)

ascending :
    (rows : List Row)
    → Pairwise (λ r q. r.cgroup_id ≤ q.cgroup_id) rows
    → Pairwise (λ r q. r.cgroup_id ≢ q.cgroup_id) rows
    → Pairwise (λ r q. r.cgroup_id < q.cgroup_id) rows
ascending [] Pairwise.nil Pairwise.nil = Pairwise.nil
ascending (r ∷ rows) (Pairwise.cons le p) (Pairwise.cons ne d) =
    Pairwise.cons (λ q m. omega (arith, le q m, ne q m)) (ascending rows p d)

resolved_row :
    (unknown : Bool) (o : Option Row) (r : Row)
    → (if unknown then none else o) ≡ some r
    → (unknown ≡ false) × (o ≡ some r)
resolved_row true o r e = absurd (ground (arith, e))
resolved_row false o r e = (refl, e)

-- the rows of a map, sorted
sorted-values :
    (sort : List Row → List Row) (t : List (ℕ × Row))
    → IsSorting sort
    → IsIndexed t
    → Pairwise (λ r q. r.cgroup_id < q.cgroup_id) (sort (values t))
      × ((r : Row) → Mem r (sort (values t)) ↔ (find ◌==◌ t r.cgroup_id ≡ some r))
sorted-values sort t s w = (
  ascending (sort (values t)) (s.ascends (values t)) (
      Perm.pairwise (λ a b. ¬_prop) (λ a b n e. n (sym e)) (s.permutes (values t))
        (values-distinct t w)),
  λ r.
      let moved = Perm.mem_iff (s.permutes (values t)) in
      let found = mem-values t r w in (λ m. found.0 (moved.1 m), λ e. moved.0 (found.1 e)),
)

module _ (blocks : PinnedMap CgroupIoStats) (runqs : PinnedMap CgroupRunqStats) where
  -- what the iterators yield, nothing where the run-queue map could not be opened
  abbrev pub runq_entries : Pinned blocks runqs → List (ℕ × CgroupRunqStats)
  runq_entries m = elim m.runq_map [ none ↦ [] | some q ↦ runqs.entries q ]

  -- what the run-queue map has of a cgroup, nothing where it could not be opened
  abbrev pub runq_lookup : Pinned blocks runqs → ℕ → Option CgroupRunqStats
  runq_lookup m k = elim m.runq_map [ none ↦ none | some q ↦ runqs.bpf_map.lookup q k ]

  abbrev pub runq_iterates : Pinned blocks runqs → Bool
  runq_iterates m = elim m.runq_map [ none ↦ true | some q ↦ runqs.iterates q ]

module _ (blocks : PinnedMap CgroupIoStats) (runqs : PinnedMap CgroupRunqStats) (resolve : ℕ → Text)
    (sort : List Row → List Row) where
  -- the rows of a reading: strictly ascending, those of the resolved cgroups of the two maps
  pub record IsReading (m : Pinned blocks runqs) (rows : List Row) : Type 0 where
    pub ascending : Pairwise (λ r q. r.cgroup_id < q.cgroup_id) rows
    pub exactly :
        (r : Row)
        → Mem r rows ↔ (
            (is_unknown resolve r.cgroup_id ≡ false)
            × (row_for resolve r.cgroup_id
                  (find ◌==◌ (blocks.entries m.block_map) r.cgroup_id)
                  (find ◌==◌ (runq_entries blocks runqs m) r.cgroup_id)
                ≡ some r))

  -- the row map after both loops
  abbrev row_map : Pinned blocks runqs → List (ℕ × Row)
  row_map m =
      let scan = scan_block resolve (blocks.entries m.block_map) nothing_scanned in
      (scan_runq resolve (runq_entries blocks runqs m) (record scan { stale = [] })).row_map

  returned :
      (m : Pinned blocks runqs)
      → blocks.iterates m.block_map ≡ true
      → runq_iterates blocks runqs m ≡ true
      → (read_stats blocks runqs resolve sort m).rows ≡ some (sort (values (row_map m)))
  unfolding read_stats read_runq scan_runq
  returned m ends ends' = elim (Option-cases m.runq_map) [
    | inl e ↦ ground (arith, e, ends)
    | inr (q, e) ↦ ground (arith, e, ends, ends')
  ]

  row_map-IsIndexed : (m : Pinned blocks runqs) → IsIndexed (row_map m)
  row_map-IsIndexed m =
      let scan = scan_block resolve (blocks.entries m.block_map) nothing_scanned in
      scan_runq-IsIndexed resolve (runq_entries blocks runqs m) (record scan { stale = [] })
        (scan_block-IsIndexed resolve (blocks.entries m.block_map) nothing_scanned tt)

  -- the rows in terms of what the iterators yield
  pub rows-read_stats :
      (m : Pinned blocks runqs)
      → IsSorting sort
      → blocks.iterates m.block_map ≡ true
      → runq_iterates blocks runqs m ≡ true
      → IsDistinct (blocks.entries m.block_map)
      → IsDistinct (runq_entries blocks runqs m)
      → (rows : List Row) × ((read_stats blocks runqs resolve sort m).rows ≡ some rows)
        × IsReading m rows
  rows-read_stats m s ends ends' w w' =
      let (up, is) = sorted-values sort (row_map m) s (row_map-IsIndexed m) in
      (
        sort (values (row_map m)),
        returned m ends ends',
        record {
          ascending = up;
          exactly = λ r.
              let ios = blocks.entries m.block_map in
              let rqs = runq_entries blocks runqs m in
              let found = find-scan_both resolve ios rqs [] r.cgroup_id w w' in
              let (into, back) = is r in
              (
                λ i. resolved_row (is_unknown resolve r.cgroup_id) _ r (sym found ∙ into i),
                λ (known, e). back (ground (arith, found, known, e)),
              );
        },
      )

  -- what is documented of an iteration that no other program disturbs: each entry of the map once
  pub record YieldsAll (m : Pinned blocks runqs) : Type 0 where
    pub io :
        (k : ℕ) → find ◌==◌ (blocks.entries m.block_map) k ≡ blocks.bpf_map.lookup m.block_map k
    pub rq : (k : ℕ) → find ◌==◌ (runq_entries blocks runqs m) k ≡ runq_lookup blocks runqs m k
    pub io_once : IsDistinct (blocks.entries m.block_map)
    pub rq_once : IsDistinct (runq_entries blocks runqs m)
