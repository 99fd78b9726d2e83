-- ===== src/Collector/Read/Indexed.antt =====
-- The row map of `readStats`: each row stands under its own identifier, once.
use mathlib.Core.List.{
  Mem, not-mem-nil, mem-cons_self, mem-cons_of_mem, eq-or-mem_of_mem-cons, Pairwise,
}
use mathlib.Core.Logic.Or
use mathlib.Core.Path.{subst}
use e_bpf_kubernetes_operato.Common.{
  ℕ, ◌≢◌, Option, none, some, List, [], ◌∷◌, ◌≡◌, ◌↔◌, ◌==◌, ==_iff, refl, sym, ap, ◌∙◌, arith,
  Bool-cases, Option-cases, inl, inr,
}
use e_bpf_kubernetes_operato.Common.Text.{Text}
use e_bpf_kubernetes_operato.Bpf.Table.{find, put, find-put}
use e_bpf_kubernetes_operato.Collector.Read.{values}
use e_bpf_kubernetes_operato.Collector.Rows.{
  CgroupIoStats, CgroupRunqStats, Row, Scan, block_row, runq_row, block_step, runq_step, scan_block,
  scan_runq,
}

abbrev pub IsIndexed : List (ℕ × Row) → Type 0
IsIndexed [] = Unit
IsIndexed ((k, r) ∷ t) = (r.cgroup_id ≡ k) × (find ◌==◌ t k ≡ none) × IsIndexed t

put-IsIndexed :
    (t : List (ℕ × Row)) (k : ℕ) (r : Row)
    → r.cgroup_id ≡ k
    → IsIndexed t
    → IsIndexed (put ◌==◌ t k r)
put-IsIndexed [] k r h w = (h, refl, tt)
put-IsIndexed ((j, q) ∷ t) k r h w =
    ground (arith, put-IsIndexed t k r, ==_iff j k, ==_iff k j, find-put ◌==◌ ==_iff t k j r)

-- a row that is found stands under its identifier
find-cgroup_id :
    (t : List (ℕ × Row)) (k : ℕ) (r : Row) → IsIndexed t → find ◌==◌ t k ≡ some r → r.cgroup_id ≡ k
find-cgroup_id [] k r w h = ground arith
find-cgroup_id ((j, q) ∷ t) k r w h = ground (arith, find-cgroup_id t k r w.2, ==_iff j k)

module _ (resolve : ℕ → Text) where
  block_step-IsIndexed :
      (key : ℕ) (val : CgroupIoStats) (s : Scan)
      → IsIndexed s.row_map
      → IsIndexed (block_step resolve key val s).row_map
  unfolding block_step block_row
  block_step-IsIndexed key val s w =
      ground (arith, put-IsIndexed s.row_map key (block_row resolve key val) refl w)

  runq_step-IsIndexed :
      (key : ℕ) (val : CgroupRunqStats) (s : Scan)
      → IsIndexed s.row_map
      → IsIndexed (runq_step resolve key val s).row_map
  unfolding runq_step runq_row
  runq_step-IsIndexed key val s w = elim (Option-cases (find ◌==◌ s.row_map key)) [
    | inl e ↦ ground (arith, e, put-IsIndexed s.row_map key (runq_row resolve key val) refl w)
    | inr (row, e) ↦
        let id = find-cgroup_id s.row_map key row w e in
        ground (arith, e, put-IsIndexed s.row_map key (record row { runq_stats = val }) id w)
  ]

  pub scan_block-IsIndexed :
      (es : List (ℕ × CgroupIoStats)) (s : Scan)
      → IsIndexed s.row_map
      → IsIndexed (scan_block resolve es s).row_map
  unfolding scan_block
  scan_block-IsIndexed [] s w = w
  scan_block-IsIndexed ((key, val) ∷ es) s w =
      scan_block-IsIndexed es (block_step resolve key val s) (block_step-IsIndexed key val s w)

  pub scan_runq-IsIndexed :
      (es : List (ℕ × CgroupRunqStats)) (s : Scan)
      → IsIndexed s.row_map
      → IsIndexed (scan_runq resolve es s).row_map
  unfolding scan_runq
  scan_runq-IsIndexed [] s w = w
  scan_runq-IsIndexed ((key, val) ∷ es) s w =
      scan_runq-IsIndexed es (runq_step resolve key val s) (runq_step-IsIndexed key val s w)

found_set : (o : Option Row) (r : Row) → IsProp (o ≡ some r)
found_set o r = hlevel

-- The rows of the map are those that are found under their identifiers.
pub mem-values :
    (t : List (ℕ × Row)) (r : Row)
    → IsIndexed t
    → Mem r (values t) ↔ (find ◌==◌ t r.cgroup_id ≡ some r)
mem-values [] r w = (λ m. absurd (not-mem-nil m), λ e. absurd (ground (arith, e)))
mem-values ((k, q) ∷ t) r w =
    let ih = mem-values t r w.2 in
    (
      λ m.
          Or.elim (found_set (find ◌==◌ ((k, q) ∷ t) r.cgroup_id) r) (eq-or-mem_of_mem-cons m)
            (λ (e : r ≡ q).
              let id : k ≡ r.cgroup_id = sym (ap (λ x. x.cgroup_id) e ∙ w.0) in
              ground (arith, (==_iff k r.cgroup_id).1 id, ap some (sym e)))
            (λ m'. ground (arith, ih.0 m', ==_iff k r.cgroup_id, w.1)),
      λ e. elim (Bool-cases (k == r.cgroup_id)) [
        | inl same ↦
            let is : q ≡ r = ground (arith, same, e) in
            subst (λ x. Mem r (x ∷ values t)) (sym is) mem-cons_self
        | inr other ↦ mem-cons_of_mem q (ih.1 (ground (arith, other, e)))
      ],
    )

-- No two rows of the map have one identifier.
pub values-distinct :
    (t : List (ℕ × Row)) → IsIndexed t → Pairwise (λ r q. r.cgroup_id ≢ q.cgroup_id) (values t)
values-distinct [] w = Pairwise.nil
values-distinct ((k, q) ∷ t) w =
    Pairwise.cons (λ r m e. absurd (ground (arith, (mem-values t r w.2).0 m, w.0, w.1, e)))
      (values-distinct t w.2)
