-- ===== src/Operator/Evaluate/Selected.antt =====
-- Which pods are found, and the error where none can be.
use e_bpf_kubernetes_operato.Common.{
  Bool, true, false, not, ◌&&◌, ◌||◌, none, some, List, [], ◌∷◌, ◌≡◌, refl, arith, if◌then◌else◌,
  Option-cases, inl, inr,
}
use e_bpf_kubernetes_operato.Common.Text.{Text, text_eq, text_eq_iff}
use e_bpf_kubernetes_operato.Operator.Calls.{ok}
use e_bpf_kubernetes_operato.Operator.Evaluate.{
  PrometheusEvaluator, Sample, PodItem, vector, Client, saturated_uids, has_uid, saturated_names,
  saturated_pods, prepare, evaluate,
}

-- some sample has this identifier, which is not empty
abbrev pub is_sampled : List Sample → Text → Bool
is_sampled [] uid = false
is_sampled (x ∷ xs) uid =
    elim x.pod_uid [ none ↦ false | some u ↦ text_eq u uid && not (text_eq uid []) ]
    || is_sampled xs uid

has_uid-saturated_uids :
    (xs : List Sample) (uid : Text) → has_uid (saturated_uids xs) uid ≡ is_sampled xs uid
unfolding saturated_uids
has_uid-saturated_uids [] uid = refl
has_uid-saturated_uids (x ∷ xs) uid = elim (Option-cases x.pod_uid) [
  | inl e ↦ ground (arith, e, has_uid-saturated_uids xs uid)
  | inr (u, e) ↦ ground (
    arith,
    e,
    has_uid-saturated_uids xs uid,
    text_eq_iff u [],
    text_eq_iff u uid,
    text_eq_iff uid [],
  )
]

-- the names of the pods whose identifiers are in the samples, in the order of the pods
abbrev pub sampled_names : List Sample → List PodItem → List Text
sampled_names xs [] = []
sampled_names xs (p ∷ ps) =
    let rest = sampled_names xs ps in if is_sampled xs p.uid then p.name ∷ rest else rest

saturated_names-saturated_uids :
    (xs : List Sample) (ps : List PodItem)
    → saturated_names (saturated_uids xs) ps ≡ sampled_names xs ps
unfolding saturated_names
saturated_names-saturated_uids xs [] = refl
saturated_names-saturated_uids xs (p ∷ ps) =
    ground (arith, has_uid-saturated_uids xs p.uid, saturated_names-saturated_uids xs ps)

saturated_names-nil : (ps : List PodItem) → saturated_names [] ps ≡ []
unfolding saturated_names
saturated_names-nil [] = refl
saturated_names-nil (p ∷ ps) = ground (arith, saturated_names-nil ps)

module _ {S Selector : Type 0} (c : Client S Selector) where
  saturated_pods_lem :
      (namespace : Text) (selector : Selector) (uids : List Text) (pods : List PodItem) (s : S)
      → c.is_selector selector ≡ true
      → c.list_pods s namespace selector ≡ some pods
      → saturated_pods c namespace selector uids s ≡ (ok (saturated_names uids pods), s)
  unfolding saturated_pods
  saturated_pods_lem namespace selector [] pods s valid listed =
      ground (arith, saturated_names-nil pods)
  saturated_pods_lem namespace selector (u ∷ us) pods s valid listed = ground (arith, valid, listed)

  -- Where the policy passes the checks, the query returns a vector and the pods can be listed, the
  -- result is the names, in the order of the list, of exactly those pods whose identifier is the
  -- label `pod_uid` of some sample, not empty; the cluster is as it was.
  pub evaluate_selected :
      (e : PrometheusEvaluator) (namespace : Text) (selector : Selector)
      (window threshold text : Text) (samples : List Sample) (pods : List PodItem) (s : S)
      → prepare c e window threshold s ≡ (ok text, s)
      → c.query s text ≡ some (vector samples)
      → c.is_selector selector ≡ true
      → c.list_pods s namespace selector ≡ some pods
      → evaluate c e namespace selector window threshold s ≡ (ok (sampled_names samples pods), s)
  unfolding evaluate
  evaluate_selected e namespace selector window threshold text samples pods s ready result valid
        listed =
      ground (
        arith,
        ready,
        result,
        saturated_pods_lem namespace selector (saturated_uids samples) pods s valid listed,
        saturated_names-saturated_uids samples pods,
      )
