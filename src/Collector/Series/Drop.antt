-- ===== src/Collector/Series/Drop.antt =====
-- What is kept of the pods between two updates, and the series that are deleted.
use e_bpf_kubernetes_operato.Common.{
  ℕ, Bool, true, false, not, ◌&&◌, none, List, [], ◌∷◌, ◌≡◌, refl, arith, if◌then◌else◌, value_or,
  is_some, Bool-cases, inl, inr,
}
use e_bpf_kubernetes_operato.Common.Text.{Text, text_eq, text_eq_iff}
use e_bpf_kubernetes_operato.Bpf.Table.{find, find-put, find-remove}
use e_bpf_kubernetes_operato.Collector.Metrics.{Aggregate, Labels, key_of, labels_from_key}
use e_bpf_kubernetes_operato.Collector.Series.Keyed.{IsKey, IsKeyed, put-IsKeyed, remove-IsKeyed}
use e_bpf_kubernetes_operato.Collector.Series.Publish.{same_labels-key, IsCounter}
use e_bpf_kubernetes_operato.Collector.Series.{
  Vectors, PromMetrics, no_labels, publish, publish_all, drop, drop_gone,
}

module _ (v : Vectors) where
  pub prev-publish_all :
      (kl : List (Text × Labels)) (es : List (Text × Aggregate)) (m : PromMetrics v.State)
      (j : Text)
      → IsKeyed es
      → find text_eq (publish_all v kl es m).prev j
        ≡ (if is_some (find text_eq es j) then find text_eq es j else find text_eq m.prev j)
  unfolding publish_all publish
  prev-publish_all kl [] m j w = refl
  prev-publish_all kl ((k, a) ∷ es) m j w =
      let m1 = publish v k (value_or (find text_eq kl k) no_labels) a m in
      ground (
        arith,
        prev-publish_all kl es m1 j w.2,
        find-put text_eq text_eq_iff m.prev k j a,
        text_eq_iff k j,
      )

  pub publish_all-IsKeyed :
      (kl : List (Text × Labels)) (es : List (Text × Aggregate)) (m : PromMetrics v.State)
      → IsKeyed es
      → IsKeyed m.prev
      → IsKeyed (publish_all v kl es m).prev
  unfolding publish_all publish
  publish_all-IsKeyed kl [] m w w' = w'
  publish_all-IsKeyed kl ((k, a) ∷ es) m w w' =
      publish_all-IsKeyed kl es (publish v k (value_or (find text_eq kl k) no_labels) a m) w.2
        (put-IsKeyed m.prev k a w.0 w')

  pub prev-drop_gone :
      (current ps : List (Text × Aggregate)) (m : PromMetrics v.State) (j : Text)
      → find text_eq (drop_gone v current ps m).prev j ≡ (
          if is_some (find text_eq ps j) && not (is_some (find text_eq current j))
          then none
          else find text_eq m.prev j)
  unfolding drop_gone drop
  prev-drop_gone current [] m j = refl
  prev-drop_gone current ((k, p) ∷ ps) m j = elim (Bool-cases (is_some (find text_eq current k))) [
    | inl e ↦ ground (arith, e, prev-drop_gone current ps m j, text_eq_iff k j)
    | inr e ↦ ground (
      arith,
      e,
      prev-drop_gone current ps (drop v k m) j,
      find-remove text_eq text_eq_iff m.prev k j,
      text_eq_iff k j,
    )
  ]

  drop-IsKeyed :
      (k : Text) (m : PromMetrics v.State)
      → IsKeyed m.prev
      → (keep : Bool) → IsKeyed (if keep then m else drop v k m).prev
  unfolding drop
  drop-IsKeyed k m w true = w
  drop-IsKeyed k m w false = remove-IsKeyed m.prev k w

  pub drop_gone-IsKeyed :
      (current ps : List (Text × Aggregate)) (m : PromMetrics v.State)
      → IsKeyed m.prev
      → IsKeyed (drop_gone v current ps m).prev
  unfolding drop_gone
  drop_gone-IsKeyed current [] m w = w
  drop_gone-IsKeyed current ((k, p) ∷ ps) m w =
      drop_gone-IsKeyed current ps _ (drop-IsKeyed k m w (is_some (find text_eq current k)))

module _ (v : Vectors) (counter : PromMetrics v.State → v.State) (field : Aggregate → ℕ) where
  value-drop :
      IsCounter v counter field
      → (k : Text) (m : PromMetrics v.State) (l : Labels) → IsKey k
      → labels_from_key (key_of l) ≡ l
      → v.value (counter (drop v k m)) l
        ≡ (if text_eq k (key_of l) then none else v.value (counter m) l)
  value-drop c k m l h h' =
      rw (c.dropped k m, v.value-delete (counter m) (labels_from_key k) l, same_labels-key k l h h')
        refl

  pub value-drop_gone :
      IsCounter v counter field
      → (current ps : List (Text × Aggregate)) (m : PromMetrics v.State) (l : Labels) → IsKeyed ps
      → labels_from_key (key_of l) ≡ l
      → v.value (counter (drop_gone v current ps m)) l ≡ (
          if is_some (find text_eq ps (key_of l)) && not (is_some (find text_eq current (key_of l)))
          then none
          else v.value (counter m) l)
  unfolding drop_gone
  value-drop_gone c current [] m l w h = refl
  value-drop_gone c current ((k, p) ∷ ps) m l w h =
      elim (Bool-cases (is_some (find text_eq current k))) [
        | inl e ↦
            ground (arith, e, value-drop_gone c current ps m l w.2 h, text_eq_iff k (key_of l))
        | inr e ↦ ground (
          arith,
          e,
          value-drop_gone c current ps (drop v k m) l w.2 h,
          value-drop c k m l w.0 h,
          text_eq_iff k (key_of l),
        )
      ]
