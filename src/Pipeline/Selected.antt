-- ===== src/Pipeline/Selected.antt =====
-- From the control group of a container to the pod that the operator finds saturated.
use e_bpf_kubernetes_operato.Common.{
  ℕ, Bool, true, false, ◌||◌, some, List, [], ◌∷◌, ◌≡◌, map, refl, arith, ap, ◌∙◌, if◌then◌else◌,
}
use e_bpf_kubernetes_operato.Common.Text.{Text, text_eq, text_eq_iff}
use e_bpf_kubernetes_operato.Collector.KubePath.{uid_group, container_group}
use e_bpf_kubernetes_operato.Collector.KubePath.Kubelet.{Driver, Qos, kubelet_path}
use e_bpf_kubernetes_operato.Collector.KubePath.Shape.{has_shape}
use e_bpf_kubernetes_operato.Collector.Metrics.{Labels, labels_of}
use e_bpf_kubernetes_operato.Collector.Rows.{CgroupIoStats, block_row, no_runq}
use e_bpf_kubernetes_operato.Operator.Calls.{ok}
use e_bpf_kubernetes_operato.Operator.Evaluate.{
  PrometheusEvaluator, Sample, PodItem, vector, Client, prepare, evaluate,
}
use e_bpf_kubernetes_operato.Operator.Evaluate.Selected.{
  is_sampled, sampled_names, evaluate_selected,
}
use e_bpf_kubernetes_operato.Pipeline.Labels.{labels-kubelet_path}

-- a container, with the identifier of its control group and what the group has done
pub record Container : Type 0 where
  pub cgroup : ℕ
  pub driver : Driver
  pub qos : Qos
  pub uid : Text
  pub id : Text
  pub stats : CgroupIoStats

-- the pods with a container among the given ones
abbrev pub has_container : List Container → Text → Bool
has_container [] uid = false
has_container (k ∷ ks) uid = text_eq k.uid uid || has_container ks uid

abbrev pub names_of : List Container → List PodItem → List Text
names_of ks [] = []
names_of ks (p ∷ ps) =
    let rest = names_of ks ps in if has_container ks p.uid then p.name ∷ rest else rest

module _ (resolve : ℕ → Text) where
  -- a sample of the series that counts the control group
  abbrev pub sample_of : Container → Sample
  sample_of k = record { pod_uid = some (labels_of (block_row resolve k.cgroup k.stats)).pod_uid }

  -- the control groups have the paths that the kubelet makes
  abbrev pub AreStarted : List Container → Type 0
  AreStarted [] = Unit
  AreStarted (k ∷ ks) =
      (resolve k.cgroup ≡ kubelet_path k.driver k.qos k.uid k.id)
      × (has_shape (uid_group b'-') k.uid ≡ true)
      × (has_shape container_group k.id ≡ true)
      × AreStarted ks

  shape-not_empty : (uid : Text) → has_shape (uid_group b'-') uid ≡ true → text_eq uid [] ≡ false
  shape-not_empty [] h = absurd (ground (arith, h))
  shape-not_empty (b ∷ uid) h = refl

  is_sampled-sample_of :
      (ks : List Container) (uid : Text)
      → AreStarted ks
      → is_sampled (map sample_of ks) uid ≡ has_container ks uid
  is_sampled-sample_of [] uid w = refl
  is_sampled-sample_of (k ∷ ks) uid (at, h, h', w) =
      let labels =
        labels-kubelet_path resolve k.cgroup k.driver k.qos k.uid k.id k.stats no_runq at h h' in
      let label : (labels_of (block_row resolve k.cgroup k.stats)).pod_uid ≡ k.uid =
        ap (λ (l : Labels). l.pod_uid) labels.0 in
      ground (
        arith,
        label,
        is_sampled-sample_of ks uid w,
        shape-not_empty k.uid h,
        text_eq_iff k.uid uid,
      )

  sampled_names-sample_of :
      (ks : List Container) (ps : List PodItem)
      → AreStarted ks
      → sampled_names (map sample_of ks) ps ≡ names_of ks ps
  sampled_names-sample_of ks [] w = refl
  sampled_names-sample_of ks (p ∷ ps) w =
      ground (arith, is_sampled-sample_of ks p.uid w, sampled_names-sample_of ks ps w)

  -- Let the query return one sample for each of some containers, with the label that the collector
  -- gives the control group of the container, and let these groups have the paths that the kubelet
  -- makes for the containers. Where the policy passes the checks and the pods can be listed, an
  -- evaluation finds exactly the pods, in the order of the list, whose identifier in the API server
  -- is that of the pod of such a container, and leaves the cluster as it is.
  pub evaluate-containers :
      {S Selector : Type 0} (c : Client S Selector) (e : PrometheusEvaluator) (namespace : Text)
      (selector : Selector) (window threshold text : Text) (containers : List Container)
      (pods : List PodItem) (s : S)
      → prepare c e window threshold s ≡ (ok text, s)
      → c.query s text ≡ some (vector (map sample_of containers))
      → c.is_selector selector ≡ true
      → c.list_pods s namespace selector ≡ some pods
      → AreStarted containers
      → evaluate c e namespace selector window threshold s ≡ (ok (names_of containers pods), s)
  evaluate-containers c e namespace selector window threshold text containers pods s ready result
        valid listed started =
      evaluate_selected c e namespace selector window threshold text (map sample_of containers) pods
        s ready result valid listed
      ∙ ap (λ names. (ok names, s)) (sampled_names-sample_of containers pods started)
