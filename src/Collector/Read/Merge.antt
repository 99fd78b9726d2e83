-- ===== src/Collector/Read/Merge.antt =====
-- The rows that the two loops of `readStats` make: one for each resolved cgroup of either map.
use e_bpf_kubernetes_operato.Common.{
  ℕ, Bool, Option, none, some, List, [], ◌∷◌, ◌≡◌, ◌==◌, ==_iff, refl, arith, if◌then◌else◌,
  Bool-cases, Option-cases, inl, inr, ◌∙◌, sym, ap,
}
use e_bpf_kubernetes_operato.Common.Text.{Text, text_eq}
use e_bpf_kubernetes_operato.Bpf.Table.{find, find-put}
use e_bpf_kubernetes_operato.Collector.Classify.{unresolved}
use e_bpf_kubernetes_operato.Collector.Read.{nothing_scanned}
use e_bpf_kubernetes_operato.Collector.Rows.{
  CgroupIoStats, CgroupRunqStats, Row, Scan, block_row, runq_row, block_step, runq_step, scan_block,
  scan_runq,
}

-- the keys of a list of entries occur once
abbrev pub IsDistinct : {V : Type 0} → List (ℕ × V) → Type 0
IsDistinct [] = Unit
IsDistinct ((k, x) ∷ es) = (find ◌==◌ es k ≡ none) × IsDistinct es

module _ (resolve : ℕ → Text) where
  abbrev pub is_unknown : ℕ → Bool
  is_unknown key = text_eq (resolve key) unresolved

  -- the row of a cgroup, by what the two maps have of it
  abbrev pub row_for : ℕ → Option CgroupIoStats → Option CgroupRunqStats → Option Row
  row_for key none none = none
  row_for key (some io) none = some (block_row resolve key io)
  row_for key none (some rq) = some (runq_row resolve key rq)
  row_for key (some io) (some rq) = some (record (block_row resolve key io) { runq_stats = rq })

  -- the row as the block map's loop leaves it
  abbrev pub block_entry : ℕ → Option CgroupIoStats → Option Row → Option Row
  block_entry key none before = before
  block_entry key (some io) before =
      if is_unknown key then before else some (block_row resolve key io)

  pub find-block_step :
      (key k : ℕ) (val : CgroupIoStats) (s : Scan)
      → find ◌==◌ (block_step resolve key val s).row_map k ≡ (
          if key == k
          then block_entry k (some val) (find ◌==◌ s.row_map k)
          else find ◌==◌ s.row_map k)
  unfolding block_step
  find-block_step key k val s =
      ground (arith, ==_iff key k, find-put ◌==◌ ==_iff s.row_map key k (block_row resolve key val))

  find-scan_block :
      (es : List (ℕ × CgroupIoStats)) (s : Scan) (k : ℕ)
      → IsDistinct es
      → find ◌==◌ (scan_block resolve es s).row_map k
        ≡ block_entry k (find ◌==◌ es k) (find ◌==◌ s.row_map k)
  unfolding scan_block
  find-scan_block [] s k w = refl
  find-scan_block ((key, val) ∷ es) s k w = elim (Bool-cases (key == k)) [
    | inl e ↦
        let eq : key ≡ k = (==_iff key k).0 e in
        let last : find ◌==◌ es k ≡ none = ap (find ◌==◌ es) (sym eq) ∙ w.0 in
        find-scan_block es (block_step resolve key val s) k w.1
        ∙ ground (arith, e, last, find-block_step key k val s)
    | inr e ↦
        find-scan_block es (block_step resolve key val s) k w.1
        ∙ ground (arith, e, find-block_step key k val s)
  ]

  -- the row as the run-queue map's loop leaves it
  abbrev pub runq_entry : ℕ → Option CgroupRunqStats → Option Row → Option Row
  runq_entry key none before = before
  runq_entry key (some rq) (some row) = some (record row { runq_stats = rq })
  runq_entry key (some rq) none = if is_unknown key then none else some (runq_row resolve key rq)

  pub find-runq_step :
      (key k : ℕ) (val : CgroupRunqStats) (s : Scan)
      → find ◌==◌ (runq_step resolve key val s).row_map k ≡ (
          if key == k
          then runq_entry k (some val) (find ◌==◌ s.row_map k)
          else find ◌==◌ s.row_map k)
  unfolding runq_step
  find-runq_step key k val s = elim (Option-cases (find ◌==◌ s.row_map key)) [
    | inl e ↦
        ground
          (arith, e, ==_iff key k, find-put ◌==◌ ==_iff s.row_map key k (runq_row resolve key val))
    | inr (row, e) ↦ ground (
      arith,
      e,
      ==_iff key k,
      find-put ◌==◌ ==_iff s.row_map key k (record row { runq_stats = val }),
    )
  ]

  find-scan_runq :
      (es : List (ℕ × CgroupRunqStats)) (s : Scan) (k : ℕ)
      → IsDistinct es
      → find ◌==◌ (scan_runq resolve es s).row_map k
        ≡ runq_entry k (find ◌==◌ es k) (find ◌==◌ s.row_map k)
  unfolding scan_runq
  find-scan_runq [] s k w = refl
  find-scan_runq ((key, val) ∷ es) s k w = elim (Bool-cases (key == k)) [
    | inl e ↦
        let eq : key ≡ k = (==_iff key k).0 e in
        let last : find ◌==◌ es k ≡ none = ap (find ◌==◌ es) (sym eq) ∙ w.0 in
        find-scan_runq es (runq_step resolve key val s) k w.1
        ∙ ground (arith, e, last, find-runq_step key k val s)
    | inr e ↦
        find-scan_runq es (runq_step resolve key val s) k w.1
        ∙ ground (arith, e, find-runq_step key k val s)
  ]

  runq_entry-block_entry :
      (k : ℕ) (io : Option CgroupIoStats) (rq : Option CgroupRunqStats)
      → runq_entry k rq (block_entry k io none) ≡ (if is_unknown k then none else row_for k io rq)
  runq_entry-block_entry k none none = ground arith
  runq_entry-block_entry k none (some rq) = refl
  runq_entry-block_entry k (some io) none = refl
  runq_entry-block_entry k (some io) (some rq) = ground arith

  -- Where no key is twice in what an iterator yields, the two loops make one row for each resolved
  -- cgroup that either map has, with the totals that the maps have of it, zero totals for a map
  -- without it, and no row for any other cgroup.
  pub find-scan_both :
      (ios : List (ℕ × CgroupIoStats)) (rqs : List (ℕ × CgroupRunqStats)) (gone : List ℕ) (k : ℕ)
      → IsDistinct ios
      → IsDistinct rqs
      → let scan = scan_block resolve ios nothing_scanned in
        find ◌==◌ (scan_runq resolve rqs (record scan { stale = gone })).row_map k
        ≡ (if is_unknown k then none else row_for k (find ◌==◌ ios k) (find ◌==◌ rqs k))
  find-scan_both ios rqs gone k w w' =
      let scan = scan_block resolve ios nothing_scanned in
      find-scan_runq rqs (record scan { stale = gone }) k w'
      ∙ ap (runq_entry k (find ◌==◌ rqs k)) (find-scan_block ios nothing_scanned k w)
      ∙ runq_entry-block_entry k (find ◌==◌ ios k) (find ◌==◌ rqs k)
