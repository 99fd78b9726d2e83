-- ===== src/Collector/Series/Update.antt =====
-- What one update leaves in the series of a pod, for each of the six counters.
use e_bpf_kubernetes_operato.Common.{
  ℕ, true, Option, none, some, List, [], ◌≡◌, ap, ◌∙◌, refl, arith, if◌then◌else◌, value_or,
  is_some, Option-cases, inl, inr, ltb, ◌-◌,
}
use e_bpf_kubernetes_operato.Common.Text.{Text, text_eq}
use e_bpf_kubernetes_operato.Bpf.Table.{find}
use e_bpf_kubernetes_operato.Collector.Rows.{Row}
use e_bpf_kubernetes_operato.Collector.Metrics.{
  Aggregate, Labels, key_of, labels_from_key, aggregate_rows, delta, no_aggregate,
}
use e_bpf_kubernetes_operato.Collector.Metrics.Sums.{has-aggregate_rows}
use e_bpf_kubernetes_operato.Collector.Series.Keyed.{
  IsKeyed, aggregate_rows-IsKeyed, find-collect_labels,
}
use e_bpf_kubernetes_operato.Collector.Series.Publish.{IsCounter, counted, value-publish_all}
use e_bpf_kubernetes_operato.Collector.Series.Drop.{
  prev-publish_all, publish_all-IsKeyed, prev-drop_gone, drop_gone-IsKeyed, value-drop_gone,
}
use e_bpf_kubernetes_operato.Collector.Series.{
  Vectors, PromMetrics, collect_labels, publish, publish_all, drop, update,
}

pub data Counter : Type 0 where
  operations bytes latency errors events waiting : Counter

-- the vector of each counter
abbrev pub counter_of : {S : Type 0} → Counter → PromMetrics S → S
counter_of operations m = m.io_count
counter_of bytes m = m.total_bytes
counter_of latency m = m.total_latency_ns
counter_of errors m = m.error_count
counter_of events m = m.runq_events
counter_of waiting m = m.runq_latency_ns

-- the total that each counter follows
abbrev pub total_of : Counter → Aggregate → ℕ
total_of operations a = a.io_count
total_of bytes a = a.total_bytes
total_of latency a = a.total_latency_ns
total_of errors a = a.error_count
total_of events a = a.runq_events
total_of waiting a = a.runq_latency_ns

module _ (v : Vectors) where
  counters : (c : Counter) → IsCounter v (counter_of c) (total_of c)
  unfolding publish drop
  counters operations = record { published = λ k l a m. refl; dropped = λ k m. refl }
  counters bytes = record { published = λ k l a m. refl; dropped = λ k m. refl }
  counters latency = record { published = λ k l a m. refl; dropped = λ k m. refl }
  counters errors = record { published = λ k l a m. refl; dropped = λ k m. refl }
  counters events = record { published = λ k l a m. refl; dropped = λ k m. refl }
  counters waiting = record { published = λ k l a m. refl; dropped = λ k m. refl }

  -- the kept labels of a key of the rows
  labels_found :
      (rows : List Row) (k : Text)
      → is_some (find text_eq (aggregate_rows rows []) k) ≡ true
      → find text_eq (collect_labels rows []) k ≡ some (labels_from_key k)
  labels_found rows k there =
      find-collect_labels rows [] k (λ j. inl refl) (ground (arith, has-aggregate_rows rows [] k))

  -- a series after an update: grown, deleted or as it was
  abbrev pub updated : Counter → PromMetrics v.State → Labels → Option Aggregate → Option v.Float
  updated c m l (some a) = counted v (counter_of c) (total_of c) m l (some a)
  updated c m l none =
      if is_some (find text_eq m.prev (key_of l)) then none else v.value (counter_of c m) l

  pub value-update :
      (c : Counter) (rows : List Row) (m : PromMetrics v.State) (l : Labels)
      → IsKeyed m.prev
      → labels_from_key (key_of l) ≡ l
      → v.value (counter_of c (update v rows m)) l
        ≡ updated c m l (find text_eq (aggregate_rows rows []) (key_of l))
  unfolding update
  value-update c rows m l w h =
      let kl = collect_labels rows [] in
      let current = aggregate_rows rows [] in
      let w' = aggregate_rows-IsKeyed rows [] tt in
      let m' = publish_all v kl current m in
      let kept = prev-publish_all v kl current m (key_of l) w' in
      let grew =
        value-publish_all v (counter_of c) (total_of c) (counters c) kl current m l w'
          (labels_found rows) h in
      let dropped =
        value-drop_gone v (counter_of c) (total_of c) (counters c) current m'.prev m' l
          (publish_all-IsKeyed v kl current m w' w) h in
      elim (Option-cases (find text_eq current (key_of l))) [
        | inl e ↦ ground (arith, e, kept, grew, dropped)
        | inr (a, e) ↦ ground (arith, e, kept, grew, dropped)
      ]

  -- After an update the kept totals of a key are those of the update's rows, and there are none for
  -- a key without rows, whatever was kept before.
  pub prev-update :
      (rows : List Row) (m : PromMetrics v.State) (k : Text)
      → find text_eq (update v rows m).prev k ≡ find text_eq (aggregate_rows rows []) k
  unfolding update
  prev-update rows m k =
      let kl = collect_labels rows [] in
      let current = aggregate_rows rows [] in
      let m' = publish_all v kl current m in
      ground (
        arith,
        prev-publish_all v kl current m k (aggregate_rows-IsKeyed rows [] tt),
        prev-drop_gone v current m'.prev m' k,
      )

  -- An update leaves the kept totals under keys of labels, each once.
  pub update-IsKeyed :
      (rows : List Row) (m : PromMetrics v.State) → IsKeyed m.prev → IsKeyed (update v rows m).prev
  unfolding update
  update-IsKeyed rows m w =
      let kl = collect_labels rows [] in
      let current = aggregate_rows rows [] in
      let m' = publish_all v kl current m in
      drop_gone-IsKeyed v current m'.prev m'
        (publish_all-IsKeyed v kl current m (aggregate_rows-IsKeyed rows [] tt) w)

  -- Two updates one after the other, whose rows both have the key of a label set, with totals `a`
  -- and then `b`: the second makes each of its counters grow by `b` less `a` where `b` is not lower,
  -- and by all of `b` where it is lower.
  pub value-update_twice :
      (c : Counter) (rows rows' : List Row) (m : PromMetrics v.State) (l : Labels) (a b : Aggregate)
      → IsKeyed m.prev
      → labels_from_key (key_of l) ≡ l
      → find text_eq (aggregate_rows rows []) (key_of l) ≡ some a
      → find text_eq (aggregate_rows rows' []) (key_of l) ≡ some b
      → let m1 = update v rows m in
        let before = value_or (v.value (counter_of c m1) l) v.zero in
        v.value (counter_of c (update v rows' m1)) l
        ≡ some (
            v.plus before (
              v.of_u64 (
                if ltb (total_of c b) (total_of c a)
                then total_of c b
                else total_of c b - total_of c a)))
  unfolding delta
  value-update_twice c rows rows' m l a b w h first second =
      let m1 = update v rows m in
      let kept = prev-update rows m (key_of l) in
      let grew = value-update c rows' m1 l (update-IsKeyed rows m w) h in
      let before = value_or (v.value (counter_of c m1) l) v.zero in
      let after : Option Aggregate → Option v.Float = λ o.
        some (
          v.plus before (v.of_u64 (delta (total_of c b) (total_of c (value_or o no_aggregate))))) in
      grew ∙ ap (updated c m1 l) second ∙ ap after (kept ∙ first)
