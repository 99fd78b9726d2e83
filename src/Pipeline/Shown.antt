-- ===== src/Pipeline/Shown.antt =====
-- What the counter of a pod shows after any number of readings of the programs' maps.
use mathlib.Core.Path.{subst}
use e_bpf_kubernetes_operato.Common.{
  ℕ, ◌≤◌, ◌<◌, true, Option, none, some, List, [], ◌∷◌, ◌≡◌, ap, ◌∙◌, sym, refl, arith, is_some,
  value_or, Option-cases, inl, inr,
}
use e_bpf_kubernetes_operato.Common.Text.{text_eq}
use e_bpf_kubernetes_operato.Common.Words.{u64_mod}
use e_bpf_kubernetes_operato.Block.Ledger as Io
use e_bpf_kubernetes_operato.Runq.Ledger as Waits
use e_bpf_kubernetes_operato.Bpf.Table.{find}
use e_bpf_kubernetes_operato.Collector.Metrics.{
  Labels, key_of, labels_from_key, aggregate_rows, no_aggregate,
}
use e_bpf_kubernetes_operato.Collector.Metrics.Sums.{has_key, sum_for, aggregate_rows-total}
use e_bpf_kubernetes_operato.Collector.Rows.{Row}
use e_bpf_kubernetes_operato.Collector.Series.Follow.{
  Account, IsExact, Shows, follow, IsWithin, total_in, update_all, update-Shows,
}
use e_bpf_kubernetes_operato.Collector.Series.Update.{Counter, counter_of, total_of}
use e_bpf_kubernetes_operato.Collector.Series.{Vectors, PromMetrics, update}
use e_bpf_kubernetes_operato.Pipeline.{amount}
use e_bpf_kubernetes_operato.Pipeline.Totals.{IsTrue}

-- the rows of a reading, and the ledgers of the programs at the time
pub record Sample : Type 0 where
  pub rows : List Row
  pub io : Io.Ledger
  pub rq : Waits.Ledger

abbrev pub rows_of : List Sample → List (List Row)
rows_of [] = []
rows_of (x ∷ xs) = x.rows ∷ rows_of xs

-- the true number of a pod: of the cgroups of its rows
abbrev pub true_sum : Counter → Labels → Sample → ℕ
true_sum c l x = sum_for (λ r. amount c x.io x.rq r.cgroup_id) (key_of l) x.rows

abbrev pub last_sum : Counter → Labels → ℕ → List Sample → ℕ
last_sum c l n [] = n
last_sum c l n (x ∷ xs) = last_sum c l (true_sum c l x) xs

-- true readings with rows of the pod, whose true numbers do not fall and stay in the limit
abbrev pub Climbs : ℕ → Counter → Labels → ℕ → List Sample → Type 0
Climbs limit c l n [] = Unit
Climbs limit c l n (x ∷ xs) =
    IsTrue x.io x.rq x.rows
    × (has_key (key_of l) x.rows ≡ true)
    × (n ≤ true_sum c l x)
    × (true_sum c l x ≤ limit)
    × Climbs limit c l (true_sum c l x) xs

abbrev level : ℕ → Account
level n = record { shown = n; last = n }

total_in-true :
    (limit : ℕ) (c : Counter) (l : Labels) (x : Sample)
    → limit < u64_mod
    → IsTrue x.io x.rq x.rows
    → has_key (key_of l) x.rows ≡ true
    → true_sum c l x ≤ limit
    → total_in c l x.rows ≡ some (true_sum c l x)
total_in-true limit c l x lt is has le =
    let o = find text_eq (aggregate_rows x.rows []) (key_of l) in
    let there : is_some o ≡ true = (aggregate_rows-total x.rows (key_of l)).0 ∙ has in
    let sum : total_of c (value_or o no_aggregate) ≡ true_sum c l x =
      is c (key_of l) ∙ omega arith in
    elim (Option-cases o) [
      | inl e ↦ absurd (ground (arith, e, there))
      | inr (a, e) ↦ ground (arith, e, sum)
    ]

module _ (v : Vectors) (limit : ℕ) (x : IsExact v limit) (lt : limit < u64_mod) (c : Counter)
    (l : Labels) (h : labels_from_key (key_of l) ≡ l) where
  -- one update that brings the account to the true number
  one_update :
      (a : Option Account) (y : Sample) (m : PromMetrics v.State)
      → IsTrue y.io y.rq y.rows
      → has_key (key_of l) y.rows ≡ true
      → true_sum c l y ≤ limit
      → follow a (some (true_sum c l y)) ≡ some (level (true_sum c l y))
      → Shows v c l a m
      → Shows v c l (some (level (true_sum c l y))) (update v y.rows m)
  one_update a y m is has le grows s =
      let moved : follow a (total_in c l y.rows) ≡ some (level (true_sum c l y)) =
        ap (follow a) (total_in-true limit c l y lt is has le) ∙ grows in
      subst (λ o. Shows v c l o (update v y.rows m)) moved
        (update-Shows v limit c l a m y.rows x h (subst (IsWithin limit) (sym moved) le) s)

  climb :
      (n : ℕ) (samples : List Sample) (m : PromMetrics v.State)
      → Climbs limit c l n samples
      → Shows v c l (some (level n)) m
      → Shows v c l (some (level (last_sum c l n samples))) (update_all v (rows_of samples) m)
  climb n [] m w s = s
  climb n (y ∷ ys) m w s =
      climb (true_sum c l y) ys (update v y.rows m) w.4
        (one_update (some (level n)) y m w.0 w.1 w.3 (ground (arith, w.2)) s)

  -- Where floats add whole numbers exactly up to a limit below 2 ^ 64: from metrics without a series
  -- of a pod and without totals of it, after one or more updates with the rows of true readings,
  -- each with rows of the pod, whose true numbers do not fall and stay in the limit, the counter of
  -- the pod shows the true number of the last reading: what the cgroups of its rows have completed
  -- by the ledgers of the programs.
  pub value-true_sum :
      (y : Sample) (ys : List Sample) (m : PromMetrics v.State)
      → Climbs limit c l 0 (y ∷ ys)
      → Shows v c l none m
      → v.value (counter_of c (update_all v (rows_of (y ∷ ys)) m)) l
        ≡ some (v.of_u64 (last_sum c l 0 (y ∷ ys)))
  value-true_sum y ys m w s =
      (climb (true_sum c l y) ys (update v y.rows m) w.4
        (one_update none y m w.0 w.1 w.3 refl s)).value
