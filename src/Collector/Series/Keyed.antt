-- ===== src/Collector/Series/Keyed.antt =====
-- Maps by the key of a pod's series: each key is that of its labels, and occurs once.
use e_bpf_kubernetes_operato.Common.{
  true, ◌||◌, none, some, List, [], ◌∷◌, ◌≡◌, ◌⊎◌, ap, refl, arith, is_some,
}
use e_bpf_kubernetes_operato.Common.Text.{Text, text_eq, text_eq_iff}
use e_bpf_kubernetes_operato.Bpf.Table.{find, put, remove, find-put, find-remove}
use e_bpf_kubernetes_operato.Collector.Rows.{Row}
use e_bpf_kubernetes_operato.Collector.Metrics.{
  Aggregate, Labels, labels_of, key_of, add_row, aggregate_rows, labels_from_key,
}
use e_bpf_kubernetes_operato.Collector.Metrics.Keys.{labels_from_key-key_of}
use e_bpf_kubernetes_operato.Collector.Metrics.Sums.{has_key, total, row_key}
use e_bpf_kubernetes_operato.Collector.Series.{collect_labels}

abbrev pub IsKey : Text → Type 0
IsKey k = key_of (labels_from_key k) ≡ k

abbrev pub IsKeyed : List (Text × Aggregate) → Type 0
IsKeyed [] = Unit
IsKeyed ((k, a) ∷ t) = IsKey k × (find text_eq t k ≡ none) × IsKeyed t

pub row_key-IsKey : (r : Row) → IsKey (row_key r)
row_key-IsKey r = ap key_of (labels_from_key-key_of r)

pub put-IsKeyed :
    (t : List (Text × Aggregate)) (k : Text) (a : Aggregate)
    → IsKey k
    → IsKeyed t
    → IsKeyed (put text_eq t k a)
put-IsKeyed [] k a h w = (h, refl, tt)
put-IsKeyed ((j, b) ∷ t) k a h w = ground (
  arith,
  put-IsKeyed t k a,
  text_eq_iff j k,
  text_eq_iff k j,
  find-put text_eq text_eq_iff t k j a,
)

pub remove-IsKeyed :
    (t : List (Text × Aggregate)) (k : Text) → IsKeyed t → IsKeyed (remove text_eq t k)
remove-IsKeyed [] k w = tt
remove-IsKeyed ((j, b) ∷ t) k w =
    ground (arith, remove-IsKeyed t k, find-remove text_eq text_eq_iff t k j)

pub aggregate_rows-IsKeyed :
    (rows : List Row) (current : List (Text × Aggregate))
    → IsKeyed current
    → IsKeyed (aggregate_rows rows current)
unfolding aggregate_rows
aggregate_rows-IsKeyed [] current w = w
aggregate_rows-IsKeyed (r ∷ rows) current w =
    aggregate_rows-IsKeyed rows _
      (put-IsKeyed current (row_key r) (add_row r (total current (row_key r))) (row_key-IsKey r) w)

-- the labels that are kept for a key are those that are read back from it
pub find-collect_labels :
    (rows : List Row) (kl : List (Text × Labels)) (k : Text)
    → ((j : Text) → (find text_eq kl j ≡ none) ⊎ (find text_eq kl j ≡ some (labels_from_key j)))
    → (is_some (find text_eq kl k) || has_key k rows) ≡ true
    → find text_eq (collect_labels rows kl) k ≡ some (labels_from_key k)
unfolding collect_labels
find-collect_labels [] kl k h there = ground (arith, h k)
find-collect_labels (r ∷ rows) kl k h there =
    let l = labels_of r in
    find-collect_labels rows (put text_eq kl (key_of l) l) k
      (λ j. ground (
        arith,
        h j,
        find-put text_eq text_eq_iff kl (key_of l) j l,
        labels_from_key-key_of r,
        text_eq_iff (key_of l) j,
      ))
      (ground (arith, find-put text_eq text_eq_iff kl (key_of l) k l))
