-- ===== src/Collector/Read.antt =====
-- collector/main.go: `readStats`. A pinned map is the kernel's map (Bpf/Map); what its iterator
-- yields, and whether it ends with an error, is a parameter, as are the resolver and `sort.Slice` by
-- the cgroup's identifier.
pub mod Indexed
pub mod Merge
pub mod Returned
pub mod Stale
use e_bpf_kubernetes_operato.Common.{
  ℕ, Bool, true, false, Option, none, some, List, [], ◌∷◌, ◌==◌, if◌then◌else◌,
}
use e_bpf_kubernetes_operato.Common.Text.{Text}
use e_bpf_kubernetes_operato.Bpf.Map.{BpfMap}
use e_bpf_kubernetes_operato.Collector.Rows.{
  CgroupIoStats, CgroupRunqStats, Row, Scan, scan_block, scan_runq,
}

-- a pinned map with its iterator: the entries that it yields, and whether `Err` is nil after them
pub record PinnedMap (V : Type 0) : Type 1 where
  pub bpf_map : BpfMap ℕ V ◌==◌
  pub entries : bpf_map.State → List (ℕ × V)
  pub iterates : bpf_map.State → Bool

abbrev pub values : List (ℕ × Row) → List Row
values [] = []
values ((key, row) ∷ rest) = row ∷ values rest

abbrev pub nothing_scanned : Scan
nothing_scanned = record { row_map = []; stale = []; had_unknown = false }

-- the loop that deletes the stale keys, its errors ignored
unfoldable pub delete_stale :
    {V : Type 0} (p : PinnedMap V) → List ℕ → p.bpf_map.State → p.bpf_map.State
delete_stale p [] s = s
delete_stale p (key ∷ rest) s = delete_stale p rest (p.bpf_map.delete s key)

module _ (blocks : PinnedMap CgroupIoStats) (runqs : PinnedMap CgroupRunqStats) where
  -- the two maps, the second one absent where it could not be opened
  pub record Pinned : Type 0 where
    pub block_map : blocks.bpf_map.State
    pub runq_map : Option runqs.bpf_map.State

  pub record Reading : Type 0 where
    pub rows : Option (List Row)
    pub had_unknown : Bool
    pub maps : Pinned

module _ (blocks : PinnedMap CgroupIoStats) (runqs : PinnedMap CgroupRunqStats) (resolve : ℕ → Text)
    (sort : List Row → List Row) where
  abbrev finish : Scan → Pinned blocks runqs → Reading blocks runqs
  finish scan m = record {
    rows = some (sort (values scan.row_map));
    had_unknown = scan.had_unknown;
    maps = m;
  }

  abbrev fail : Scan → Pinned blocks runqs → Reading blocks runqs
  fail scan m = record { rows = none; had_unknown = scan.had_unknown; maps = m }

  -- the part for the run-queue map, after the block map
  unfoldable pub read_runq : Scan → Pinned blocks runqs → Reading blocks runqs
  read_runq scan m = elim m.runq_map [
    | none ↦ finish scan m
    | some q ↦
        let scan' = scan_runq resolve (runqs.entries q) (record scan { stale = [] }) in
        if runqs.iterates q
        then finish scan' (record m { runq_map = some (delete_stale runqs scan'.stale q) })
        else fail scan' m
  ]

  unfoldable pub read_stats : Pinned blocks runqs → Reading blocks runqs
  read_stats m =
      let scan = scan_block resolve (blocks.entries m.block_map) nothing_scanned in
      if blocks.iterates m.block_map
      then read_runq scan (record m { block_map = delete_stale blocks scan.stale m.block_map })
      else fail scan m
