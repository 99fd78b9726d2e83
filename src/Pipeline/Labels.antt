-- ===== src/Pipeline/Labels.antt =====
-- The labels under which the collector counts a container that the kubelet has started.
use e_bpf_kubernetes_operato.Common.{ℕ, true, ◌≡◌, ap, ◌∙◌, arith}
use e_bpf_kubernetes_operato.Common.Text.{Text, codes}
use e_bpf_kubernetes_operato.Collector.Classify.{
  kubernetes, classify_cgroup_path, classify_cgroup_path-kubernetes,
}
use e_bpf_kubernetes_operato.Collector.KubePath.{
  uid_group, container_group, pod_uid_of, parse_kube_path,
}
use e_bpf_kubernetes_operato.Collector.KubePath.Kubelet.{
  Driver, Qos, kubelet_path, parse_kube_path-kubelet_path,
}
use e_bpf_kubernetes_operato.Collector.KubePath.Shape.{has_shape}
use e_bpf_kubernetes_operato.Collector.Metrics.{Labels, labels_of}
use e_bpf_kubernetes_operato.Collector.Rows.{CgroupIoStats, CgroupRunqStats, block_row, runq_row}

-- the labels of a pod's series
abbrev pub pod_labels : Text → Labels
pod_labels uid = record { kind = codes "kubernetes"; pod_uid = uid }

module _ (resolve : ℕ → Text) (key : ℕ) (d : Driver) (q : Qos) (uid id : Text) where
  -- Where a cgroup resolves to the path that the kubelet makes for a container, with either driver
  -- and in each class of pods: the rows of the cgroup, from the block map and from the run-queue map,
  -- have the labels `kubernetes` and the pod's own identifier, as the API server has it.
  pub labels-kubelet_path :
      (io : CgroupIoStats) (rq : CgroupRunqStats)
      → resolve key ≡ kubelet_path d q uid id
      → has_shape (uid_group b'-') uid ≡ true
      → has_shape container_group id ≡ true
      → (labels_of (block_row resolve key io) ≡ pod_labels uid)
        × (labels_of (runq_row resolve key rq) ≡ pod_labels uid)
  unfolding block_row runq_row parse_kube_path
  labels-kubelet_path io rq at h h' =
      let path = kubelet_path d q uid id in
      let (kube, same, _) = parse_kube_path-kubelet_path d q uid id h h' in
      let kind : classify_cgroup_path (resolve key) ≡ kubernetes =
        ap classify_cgroup_path at ∙ (classify_cgroup_path-kubernetes path).1 kube in
      let pod : pod_uid_of (resolve key) ≡ uid = ap pod_uid_of at ∙ same in
      ground (arith, kind, pod)
