-- ===== src/Tests/Sorting.antt =====
-- A sorting of rows by their identifiers, for the runs of `readStats`.
use mathlib.Core.List.{Mem, Perm, Pairwise, eq-or-mem_of_mem-cons, not-mem-nil}
use mathlib.Core.List.Perm
use mathlib.Core.Logic.Or
use native.Mathlib.Bridge.{le_prop}
use e_bpf_kubernetes_operato.Common.{
  ◌≤◌, List, [], ◌∷◌, ◌≡◌, ap, arith, leb, if◌then◌else◌, Bool-cases, inl, inr,
}
use e_bpf_kubernetes_operato.Collector.Rows.{Row}
use e_bpf_kubernetes_operato.Collector.Read.Returned.{IsSorting}

abbrev pub insert : Row → List Row → List Row
insert r [] = r ∷ []
insert r (q ∷ rows) =
    let rest = insert r rows in if leb r.cgroup_id q.cgroup_id then r ∷ q ∷ rows else q ∷ rest

abbrev pub sort_rows : List Row → List Row
sort_rows [] = []
sort_rows (r ∷ rows) = insert r (sort_rows rows)

abbrev Ascends : List Row → Type 0
Ascends = Pairwise (λ r q. r.cgroup_id ≤ q.cgroup_id)

insert-Perm : (r : Row) (rows : List Row) → Perm (r ∷ rows) (insert r rows)
insert-Perm r [] = Perm.rfl
insert-Perm r (q ∷ rows) = elim (Bool-cases (leb r.cgroup_id q.cgroup_id)) [
  | inl e ↦ rw e Perm.rfl
  | inr e ↦ rw e (Perm.trans (Perm.swap q r rows) (Perm.cons q (insert-Perm r rows)))
]

sort_rows-Perm : (rows : List Row) → Perm rows (sort_rows rows)
sort_rows-Perm [] = Perm.rfl
sort_rows-Perm (r ∷ rows) =
    Perm.trans (Perm.cons r (sort_rows-Perm rows)) (insert-Perm r (sort_rows rows))

below-insert :
    (q r : Row) (rows : List Row)
    → q.cgroup_id ≤ r.cgroup_id
    → ((a : Row) → Mem a rows → q.cgroup_id ≤ a.cgroup_id)
    → (a : Row) → Mem a (insert r rows)
    → q.cgroup_id ≤ a.cgroup_id
below-insert q r rows le below a m =
    Or.elim le_prop (eq-or-mem_of_mem-cons ((Perm.mem_iff (insert-Perm r rows)).1 m))
      (λ (e : a ≡ r). let same = ap (λ x. x.cgroup_id) e in omega arith) (below a)

insert-Ascends : (r : Row) (rows : List Row) → Ascends rows → Ascends (insert r rows)
insert-Ascends r [] w = Pairwise.cons (λ a m. absurd (not-mem-nil m)) Pairwise.nil
insert-Ascends r (q ∷ rows) (Pairwise.cons below w) =
    elim (Bool-cases (leb r.cgroup_id q.cgroup_id)) [
      | inl e ↦
          let le : r.cgroup_id ≤ q.cgroup_id = ground (arith, e) in
          rw e (
            Pairwise.cons
              (λ a m.
                Or.elim le_prop (eq-or-mem_of_mem-cons m)
                  (λ (is : a ≡ q). let same = ap (λ x. x.cgroup_id) is in omega arith)
                  (λ m'. omega (arith, below a m')))
              (Pairwise.cons below w))
      | inr e ↦
          let le : q.cgroup_id ≤ r.cgroup_id = ground (arith, e) in
          rw e (Pairwise.cons (below-insert q r rows le below) (insert-Ascends r rows w))
    ]

sort_rows-Ascends : (rows : List Row) → Ascends (sort_rows rows)
sort_rows-Ascends [] = Pairwise.nil
sort_rows-Ascends (r ∷ rows) = insert-Ascends r (sort_rows rows) (sort_rows-Ascends rows)

pub sort_rows-IsSorting : IsSorting sort_rows
sort_rows-IsSorting = record { permutes = sort_rows-Perm; ascends = sort_rows-Ascends }
