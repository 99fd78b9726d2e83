-- ===== src/Collector/Read/Stale.antt =====
-- The entries that `readStats` deletes from the two maps.
use e_bpf_kubernetes_operato.Common.{
  ℕ, Bool, true, false, ◌&&◌, ◌||◌, none, some, List, [], ◌∷◌, ◌++◌, ◌≡◌, ◌==◌, ==_iff, refl, arith,
  if◌then◌else◌, is_some, Bool-cases, Option-cases, inl, inr,
}
use mathlib.Core.Option
use e_bpf_kubernetes_operato.Common.Text.{Text}
use e_bpf_kubernetes_operato.Bpf.Table.{find}
use e_bpf_kubernetes_operato.Collector.Read.{
  PinnedMap, nothing_scanned, delete_stale, Pinned, read_runq, read_stats,
}
use e_bpf_kubernetes_operato.Collector.Read.Merge.{is_unknown, find-block_step, find-runq_step}
use e_bpf_kubernetes_operato.Collector.Rows.{
  CgroupIoStats, CgroupRunqStats, Row, Scan, block_step, runq_step, scan_block, scan_runq,
}

abbrev pub listed : List ℕ → ℕ → Bool
listed [] k = false
listed (j ∷ js) k = j == k || listed js k

listed-append : (js is : List ℕ) (k : ℕ) → listed (js ++ is) k ≡ (listed js k || listed is k)
listed-append [] is k = refl
listed-append (j ∷ js) is k = ground (arith, listed-append js is k)

pub lookup-delete_stale :
    {V : Type 0} (p : PinnedMap V) (js : List ℕ) (s : p.bpf_map.State) (k : ℕ)
    → p.bpf_map.lookup (delete_stale p js s) k
      ≡ (if listed js k then none else p.bpf_map.lookup s k)
unfolding delete_stale
lookup-delete_stale p [] s k = refl
lookup-delete_stale p (j ∷ js) s k =
    ground (arith, lookup-delete_stale p js (p.bpf_map.delete s j) k, p.bpf_map.lookup-delete s j k)

module _ (resolve : ℕ → Text) where
  -- the rows so far are of resolved cgroups
  abbrev pub IsResolved : Scan → Type 0
  IsResolved s = (k : ℕ) → is_unknown resolve k ≡ true → find ◌==◌ s.row_map k ≡ none

  stale-block_step :
      (key k : ℕ) (val : CgroupIoStats) (s : Scan)
      → listed (block_step resolve key val s).stale k
        ≡ (listed s.stale k || key == k && is_unknown resolve k)
  unfolding block_step
  stale-block_step key k val s = ground (arith, ==_iff key k, listed-append s.stale (key ∷ []) k)

  pub stale-scan_block :
      (es : List (ℕ × CgroupIoStats)) (s : Scan) (k : ℕ)
      → listed (scan_block resolve es s).stale k
        ≡ (listed s.stale k || is_some (find ◌==◌ es k) && is_unknown resolve k)
  unfolding scan_block
  stale-scan_block [] s k = ground arith
  stale-scan_block ((key, val) ∷ es) s k =
      ground
        (arith, stale-scan_block es (block_step resolve key val s) k, stale-block_step key k val s)

  block_step-IsResolved :
      (key : ℕ) (val : CgroupIoStats) (s : Scan)
      → IsResolved s
      → IsResolved (block_step resolve key val s)
  block_step-IsResolved key val s w k u =
      ground (arith, ==_iff key k, find-block_step resolve key k val s, w k u)

  pub scan_block-IsResolved :
      (es : List (ℕ × CgroupIoStats)) (s : Scan)
      → IsResolved s
      → IsResolved (scan_block resolve es s)
  unfolding scan_block
  scan_block-IsResolved [] s w = w
  scan_block-IsResolved ((key, val) ∷ es) s w =
      scan_block-IsResolved es (block_step resolve key val s) (block_step-IsResolved key val s w)

  stale-runq_step :
      (key k : ℕ) (val : CgroupRunqStats) (s : Scan)
      → IsResolved s
      → listed (runq_step resolve key val s).stale k
        ≡ (listed s.stale k || key == k && is_unknown resolve k)
  unfolding runq_step
  stale-runq_step key k val s w = elim (Bool-cases (is_unknown resolve key)) [
    | inl u ↦ ground (arith, u, w key u, ==_iff key k, listed-append s.stale (key ∷ []) k)
    | inr u ↦ elim (Option-cases (find ◌==◌ s.row_map key)) [
      | inl e ↦ ground (arith, u, e, ==_iff key k)
      | inr (row, e) ↦ ground (arith, u, e, ==_iff key k)
    ]
  ]

  runq_step-IsResolved :
      (key : ℕ) (val : CgroupRunqStats) (s : Scan)
      → IsResolved s
      → IsResolved (runq_step resolve key val s)
  runq_step-IsResolved key val s w k u =
      ground (arith, ==_iff key k, find-runq_step resolve key k val s, w k u)

  pub stale-scan_runq :
      (es : List (ℕ × CgroupRunqStats)) (s : Scan) (k : ℕ)
      → IsResolved s
      → listed (scan_runq resolve es s).stale k
        ≡ (listed s.stale k || is_some (find ◌==◌ es k) && is_unknown resolve k)
  unfolding scan_runq
  stale-scan_runq [] s k w = ground arith
  stale-scan_runq ((key, val) ∷ es) s k w = ground (
    arith,
    stale-scan_runq es (runq_step resolve key val s) k (runq_step-IsResolved key val s w),
    stale-runq_step key k val s w,
  )

module _ (blocks : PinnedMap CgroupIoStats) (runqs : PinnedMap CgroupRunqStats) (resolve : ℕ → Text)
    (sort : List Row → List Row) where
  -- After `readStats` an entry of the block map is gone exactly where the iterator ended without an
  -- error, had yielded the key, and the resolver does not know the cgroup; every other entry is as it
  -- was, whatever becomes of the run-queue map.
  pub block_map-read_stats :
      (m : Pinned blocks runqs) (k : ℕ)
      → blocks.bpf_map.lookup (read_stats blocks runqs resolve sort m).maps.block_map k ≡ (
          if blocks.iterates m.block_map
            && is_some (find ◌==◌ (blocks.entries m.block_map) k)
            && is_unknown resolve k
          then none
          else blocks.bpf_map.lookup m.block_map k)
  unfolding read_stats read_runq
  block_map-read_stats m k =
      let es = blocks.entries m.block_map in
      let scan = scan_block resolve es nothing_scanned in
      let stale = stale-scan_block resolve es nothing_scanned k in
      let gone = lookup-delete_stale blocks scan.stale m.block_map k in
      elim (Option-cases m.runq_map) [
        | inl e ↦ ground (arith, e, stale, gone)
        | inr (q, e) ↦ ground (arith, e, stale, gone)
      ]

  -- The same of the run-queue map: an entry of it is gone exactly where both iterators ended without
  -- an error, its own had yielded the key, and the resolver does not know the cgroup.
  pub runq_map-read_stats :
      (m : Pinned blocks runqs) (q : runqs.bpf_map.State) (k : ℕ)
      → m.runq_map ≡ some q
      → Option.map
          (λ q'. runqs.bpf_map.lookup q' k)
          (read_stats blocks runqs resolve sort m).maps.runq_map
        ≡ some (
            if blocks.iterates m.block_map
              && runqs.iterates q
              && is_some (find ◌==◌ (runqs.entries q) k)
              && is_unknown resolve k
            then none
            else runqs.bpf_map.lookup q k)
  unfolding read_stats read_runq
  runq_map-read_stats m q k e =
      let scan = scan_block resolve (blocks.entries m.block_map) nothing_scanned in
      let resolved =
        scan_block-IsResolved resolve (blocks.entries m.block_map) nothing_scanned (λ j u. refl) in
      let scan' = scan_runq resolve (runqs.entries q) (record scan { stale = [] }) in
      let stale =
        stale-scan_runq resolve (runqs.entries q) (record scan { stale = [] }) k resolved in
      let gone = lookup-delete_stale runqs scan'.stale q k in ground (arith, e, stale, gone)
