-- ===== src/Collector/Metrics/Sums.antt =====
-- What the totals of the pods add up to.
use e_bpf_kubernetes_operato.Common.{
  ℕ, ◌+◌, ◌%◌, ◌<◌, Bool, false, ◌||◌, ◌≡◌, refl, arith, List, [], ◌∷◌, if◌then◌else◌, value_or,
  is_some, ap, Bool-cases, inl, inr,
}
use e_bpf_kubernetes_operato.Common.Text.{Text, text_eq, text_eq_iff}
use e_bpf_kubernetes_operato.Common.Words.{u64_mod, add64}
use e_bpf_kubernetes_operato.Bpf.Table.{find, put, find-put}
use e_bpf_kubernetes_operato.Collector.Rows.{Row}
use e_bpf_kubernetes_operato.Collector.Metrics.{
  Aggregate, no_aggregate, labels_of, key_of, add_row, aggregate_rows,
}

abbrev pub row_key : Row → Text
row_key r = key_of (labels_of r)

-- the sum of a number over the rows of one key
abbrev pub sum_for : (Row → ℕ) → Text → List Row → ℕ
sum_for part k [] = 0
sum_for part k (r ∷ rows) =
    let rest = sum_for part k rows in if text_eq (row_key r) k then part r + rest else rest

abbrev pub has_key : Text → List Row → Bool
has_key k [] = false
has_key k (r ∷ rows) = text_eq (row_key r) k || has_key k rows

abbrev pub total : List (Text × Aggregate) → Text → Aggregate
total current k = value_or (find text_eq current k) no_aggregate

total-put :
    (current : List (Text × Aggregate)) (key k : Text) (a : Aggregate)
    → total (put text_eq current key a) k ≡ (if text_eq key k then a else total current k)
total-put current key k a = ground (arith, find-put text_eq text_eq_iff current key k a)

module _ (field : Aggregate → ℕ) (part : Row → ℕ) where
  sum-aggregate_rows :
      ((r : Row) (a : Aggregate) → field (add_row r a) ≡ add64 (field a) (part r))
      → (rows : List Row) (current : List (Text × Aggregate)) (k : Text)
      → field (total current k) < u64_mod
      → field (total (aggregate_rows rows current) k)
        ≡ (field (total current k) + sum_for part k rows) % u64_mod
  unfolding aggregate_rows add64
  sum-aggregate_rows step [] current k h = omega arith
  sum-aggregate_rows step (r ∷ rows) current k h =
      let key = row_key r in
      let a = total current key in
      let current' = put text_eq current key (add_row r a) in
      let ih = sum-aggregate_rows step rows current' k in
      elim (Bool-cases (text_eq key k)) [
        | inl same ↦
            let eq : key ≡ k = (text_eq_iff key k).0 same in
            let at_key : a ≡ total current k = ap (total current) eq in
            let new : field (total current' k) ≡ add64 (field (total current k)) (part r) =
              rw (total-put current key k (add_row r a), same, step, at_key) in
            rw same (omega (arith, ih (omega (arith, new)), new))
        | inr other ↦
            let old : total current' k ≡ total current k =
              rw (total-put current key k (add_row r a), other) in
            rw (other, ← old) (ih (rw old h))
      ]

  sum-all :
      ((r : Row) (a : Aggregate) → field (add_row r a) ≡ add64 (field a) (part r))
      → field no_aggregate ≡ 0
      → (rows : List Row) (k : Text)
      → field (total (aggregate_rows rows []) k) ≡ sum_for part k rows % u64_mod
  sum-all step base rows k = omega (arith, sum-aggregate_rows step rows [] k (omega arith))

pub has-aggregate_rows :
    (rows : List Row) (current : List (Text × Aggregate)) (k : Text)
    → is_some (find text_eq (aggregate_rows rows current) k)
      ≡ (is_some (find text_eq current k) || has_key k rows)
unfolding aggregate_rows
has-aggregate_rows [] current k = ground arith
has-aggregate_rows (r ∷ rows) current k =
    let a = add_row r (total current (row_key r)) in
    ground (
      arith,
      has-aggregate_rows rows (put text_eq current (row_key r) a) k,
      find-put text_eq text_eq_iff current (row_key r) k a,
    )

-- The totals of a key, of a pod's control groups of one kind, are the sums over its rows modulo
-- 2 ^ 64 in each of the six numbers, and there are totals exactly for the keys of the rows.
pub aggregate_rows-total :
    (rows : List Row) (k : Text)
    → let a = total (aggregate_rows rows []) k in
      (is_some (find text_eq (aggregate_rows rows []) k) ≡ has_key k rows)
      × (a.io_count ≡ sum_for (λ r. r.stats.io_count) k rows % u64_mod)
      × (a.total_bytes ≡ sum_for (λ r. r.stats.total_bytes) k rows % u64_mod)
      × (a.total_latency_ns ≡ sum_for (λ r. r.stats.total_latency_ns) k rows % u64_mod)
      × (a.error_count ≡ sum_for (λ r. r.stats.error_count) k rows % u64_mod)
      × (a.runq_events ≡ sum_for (λ r. r.runq_stats.count) k rows % u64_mod)
      × (a.runq_latency_ns ≡ sum_for (λ r. r.runq_stats.total_latency_ns) k rows % u64_mod)
unfolding add_row
aggregate_rows-total rows k = (
  has-aggregate_rows rows [] k,
  sum-all (λ a. a.io_count) _ (λ r a. refl) refl rows k,
  sum-all (λ a. a.total_bytes) _ (λ r a. refl) refl rows k,
  sum-all (λ a. a.total_latency_ns) _ (λ r a. refl) refl rows k,
  sum-all (λ a. a.error_count) _ (λ r a. refl) refl rows k,
  sum-all (λ a. a.runq_events) _ (λ r a. refl) refl rows k,
  sum-all (λ a. a.runq_latency_ns) _ (λ r a. refl) refl rows k,
)
