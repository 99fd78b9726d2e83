-- ===== src/Collector/Series/Exported.antt =====
-- Which series there are.
use e_bpf_kubernetes_operato.Common.{
  List, [], ◌≡◌, arith, is_some, Option-cases, inl, inr, ◌∙◌, ap, sym,
}
use e_bpf_kubernetes_operato.Common.Text.{text_eq}
use e_bpf_kubernetes_operato.Bpf.Table.{find}
use e_bpf_kubernetes_operato.Collector.Rows.{Row}
use e_bpf_kubernetes_operato.Collector.Metrics.{Labels, key_of, labels_from_key, aggregate_rows}
use e_bpf_kubernetes_operato.Collector.Series.Keyed.{IsKeyed}
use e_bpf_kubernetes_operato.Collector.Series.Update.{
  Counter, counter_of, updated, value-update, prev-update, update-IsKeyed,
}
use e_bpf_kubernetes_operato.Collector.Series.{Vectors, PromMetrics, update}

-- each counter has exactly the series of the kept totals
pub record IsExported (v : Vectors) (m : PromMetrics v.State) : Type 0 where
  pub keyed : IsKeyed m.prev
  pub exported :
      (c : Counter) (l : Labels)
      → labels_from_key (key_of l) ≡ l
      → is_some (v.value (counter_of c m) l) ≡ is_some (find text_eq m.prev (key_of l))

module _ (v : Vectors) where
  is_some-updated :
      (c : Counter) (m : PromMetrics v.State) (l : Labels) (rows : List Row)
      → is_some (v.value (counter_of c m) l) ≡ is_some (find text_eq m.prev (key_of l))
      → is_some (updated v c m l (find text_eq (aggregate_rows rows []) (key_of l)))
        ≡ is_some (find text_eq (aggregate_rows rows []) (key_of l))
  is_some-updated c m l rows same =
      elim (Option-cases (find text_eq (aggregate_rows rows []) (key_of l))) [
        | inl e ↦ ground (arith, e, same)
        | inr (a, e) ↦ ground (arith, e)
      ]

  pub update-IsExported :
      (rows : List Row) (m : PromMetrics v.State) → IsExported v m → IsExported v (update v rows m)
  update-IsExported rows m w = record {
    keyed = update-IsKeyed v rows m w.keyed;
    exported = λ c l h.
        ap is_some (value-update v c rows m l w.keyed h)
        ∙ is_some-updated c m l rows (w.exported c l h)
        ∙ sym (ap is_some (prev-update v rows m (key_of l)));
  }
