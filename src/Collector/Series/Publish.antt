-- ===== src/Collector/Series/Publish.antt =====
-- What an update leaves in each of the six counters.
use e_bpf_kubernetes_operato.Common.{
  ℕ, true, false, Option, none, some, List, [], ◌∷◌, ◌≡◌, ◌↔◌, sym, ap, ◌∙◌, refl, arith,
  if◌then◌else◌, value_or, is_some, Bool-cases, inl, inr,
}
use e_bpf_kubernetes_operato.Common.Text.{Text, text_eq, text_eq_iff}
use e_bpf_kubernetes_operato.Bpf.Table.{find, find-put}
use e_bpf_kubernetes_operato.Collector.Metrics.{Aggregate, Labels, key_of, delta, labels_from_key}
use e_bpf_kubernetes_operato.Collector.Series.Keyed.{IsKey, IsKeyed}
use e_bpf_kubernetes_operato.Collector.Series.{
  same_labels, Vectors, PromMetrics, prev_at, count_up, publish, publish_all, drop,
}

same_labels_iff : (l m : Labels) → (same_labels l m ≡ true) ↔ (l ≡ m)
same_labels_iff l m = ground (arith, text_eq_iff l.kind m.kind, text_eq_iff l.pod_uid m.pod_uid)

-- the labels of a key are the given ones exactly when the key is theirs
pub same_labels-key :
    (k : Text) (l : Labels)
    → IsKey k
    → labels_from_key (key_of l) ≡ l
    → same_labels (labels_from_key k) l ≡ text_eq k (key_of l)
same_labels-key k l h h' = elim (Bool-cases (text_eq k (key_of l))) [
  | inl e ↦
      let eq : labels_from_key k ≡ l = ap labels_from_key ((text_eq_iff k (key_of l)).0 e) ∙ h' in
      (same_labels_iff (labels_from_key k) l).1 eq ∙ sym e
  | inr e ↦ elim (Bool-cases (same_labels (labels_from_key k) l)) [
    | inr e' ↦ e' ∙ sym e
    | inl e' ↦
        let eq : k ≡ key_of l = sym h ∙ ap key_of ((same_labels_iff (labels_from_key k) l).0 e') in
        absurd (ground (arith, e, (text_eq_iff k (key_of l)).1 eq))
  ]
]

module _ (v : Vectors) (counter : PromMetrics v.State → v.State) (field : Aggregate → ℕ) where
  -- one of the six counters, with the number that it counts
  pub record IsCounter : Type 0 where
    pub published :
        (key : Text) (l : Labels) (a : Aggregate) (m : PromMetrics v.State)
        → counter (publish v key l a m)
          ≡ count_up v (counter m) l (field a) (field (prev_at m.prev key))
    pub dropped :
        (key : Text) (m : PromMetrics v.State)
        → counter (drop v key m) ≡ v.delete (counter m) (labels_from_key key)

  -- what a round of the loop over the current pods adds to a series
  abbrev pub gain : PromMetrics v.State → Text → Aggregate → v.Float
  gain m k a = v.of_u64 (delta (field a) (field (prev_at m.prev k)))

  abbrev pub grown : PromMetrics v.State → Labels → v.Float → v.Float
  grown m l x = v.plus (value_or (v.value (counter m) l) v.zero) x

  value-publish :
      IsCounter
      → (k : Text) (a : Aggregate) (m : PromMetrics v.State) (l : Labels) → IsKey k
      → labels_from_key (key_of l) ≡ l
      → v.value (counter (publish v k (labels_from_key k) a m)) l
        ≡ (if text_eq k (key_of l) then some (grown m l (gain m k a)) else v.value (counter m) l)
  value-publish c k a m l h h' =
      let lk = labels_from_key k in
      let same : same_labels lk l ≡ text_eq k (key_of l) = same_labels-key k l h h' in
      rw (c.published k lk a m, v.value-add (counter m) lk l (gain m k a), same)
        (elim (Bool-cases (text_eq k (key_of l))) [
          | inr e ↦ rw e refl
          | inl e ↦
              let eq : lk ≡ l = ap labels_from_key ((text_eq_iff k (key_of l)).0 e) ∙ h' in
              rw (e, eq) refl
        ])

  -- the value of a series after the loop over the current pods
  abbrev pub counted : PromMetrics v.State → Labels → Option Aggregate → Option v.Float
  counted m l none = v.value (counter m) l
  counted m l (some a) = some (grown m l (gain m (key_of l) a))

  prev-publish :
      (k : Text) (lk l : Labels) (a : Aggregate) (m : PromMetrics v.State)
      → text_eq k (key_of l) ≡ false
      → prev_at (publish v k lk a m).prev (key_of l) ≡ prev_at m.prev (key_of l)
  unfolding publish
  prev-publish k lk l a m e = ground (arith, find-put text_eq text_eq_iff m.prev k (key_of l) a)

  counted-kept :
      (m1 m : PromMetrics v.State) (l : Labels)
      → v.value (counter m1) l ≡ v.value (counter m) l
      → prev_at m1.prev (key_of l) ≡ prev_at m.prev (key_of l)
      → (o : Option Aggregate) → counted m1 l o ≡ counted m l o
  counted-kept m1 m l values prevs none = values
  counted-kept m1 m l values prevs (some a) =
      ap (λ o. some (v.plus (value_or o v.zero) (gain m1 (key_of l) a))) values
      ∙ ap (λ p. some (grown m l (v.of_u64 (delta (field a) (field p))))) prevs

  pub value-publish_all :
      IsCounter
      → (kl : List (Text × Labels)) (es : List (Text × Aggregate)) (m : PromMetrics v.State)
        (l : Labels)
      → IsKeyed es
      → ((k : Text)
          → is_some (find text_eq es k) ≡ true
          → find text_eq kl k ≡ some (labels_from_key k))
      → labels_from_key (key_of l) ≡ l
      → v.value (counter (publish_all v kl es m)) l ≡ counted m l (find text_eq es (key_of l))
  unfolding publish_all
  value-publish_all c kl [] m l w labelled h = refl
  value-publish_all c kl ((k, a) ∷ es) m l w labelled h =
      let lk = labels_from_key k in
      let m1 = publish v k lk a m in
      let lab : find text_eq kl k ≡ some lk = labelled k (ground (arith, text_eq_iff k k)) in
      let ih : v.value (counter (publish_all v kl es m1)) l
          ≡ counted m1 l (find text_eq es (key_of l)) =
        value-publish_all c kl es m1 l w.2 (λ j e. labelled j (ground (arith, e))) h in
      let one = value-publish c k a m l w.0 h in
      rw lab (elim (Bool-cases (text_eq k (key_of l))) [
        | inl e ↦
            let eq : k ≡ key_of l = (text_eq_iff k (key_of l)).0 e in
            let last : find text_eq es (key_of l) ≡ none = ap (find text_eq es) (sym eq) ∙ w.1 in
            let new : v.value (counter m1) l ≡ some (grown m l (gain m k a)) = one ∙ rw e refl in
            rw e (ih ∙ ap (counted m1 l) last ∙ new ∙ ap (λ j. some (grown m l (gain m j a))) eq)
        | inr e ↦
            let old : v.value (counter m1) l ≡ v.value (counter m) l = one ∙ rw e refl in
            rw e (ih ∙ counted-kept m1 m l old (prev-publish k lk l a m e) _)
      ])
