-- ===== src/Tests/Paths.antt =====
-- A container's path as the kubelet makes it, and what the collector reads of it.
use e_bpf_kubernetes_operato.Common.{◌≡◌, refl, true, some, [], ◌∷◌}
use e_bpf_kubernetes_operato.Common.Text.{Text, codes}
use e_bpf_kubernetes_operato.Collector.KubePath.{parse_kube_path}
use e_bpf_kubernetes_operato.Collector.KubePath.Kubelet.{
  systemd, burstable, kubelet_path, parse_kube_path-kubelet_path,
}
use e_bpf_kubernetes_operato.Collector.Rows.{no_io}
use e_bpf_kubernetes_operato.Operator.Calls.{ok}
use e_bpf_kubernetes_operato.Operator.Evaluate.{
  vector, Client, new_prometheus_evaluator, query_text, build_query, prepare, evaluate,
}
use e_bpf_kubernetes_operato.Pipeline.Selected.{Container, sample_of, evaluate-containers}

abbrev uid : Text
uid = codes "0a1b2c3d-4e5f-6071-8293-a4b5c6d7e8f9"

abbrev id : Text
id = codes "0123456789abcdef0123456789abcdef0123456789abcdef0123456789abcdef"

abbrev path : Text
path = kubelet_path systemd burstable uid id

path_text :
    path
    ≡ codes
        "/sys/fs/cgroup/kubepods.slice/kubepods-burstable.slice/kubepods-burstable-pod0a1b2c3d_4e5f_6071_8293_a4b5c6d7e8f9.slice/cri-containerd-0123456789abcdef0123456789abcdef0123456789abcdef0123456789abcdef.scope"
path_text = refl

parse_kube_path-kubelet_path_example :
    let info = parse_kube_path path in
    (info.is_kubernetes ≡ true) × (info.pod_uid ≡ uid) × (info.container_id ≡ id)
parse_kube_path-kubelet_path_example =
    parse_kube_path-kubelet_path systemd burstable uid id refl refl

abbrev container : Container
container = record {
  cgroup = 7;
  driver = systemd;
  qos = burstable;
  uid = uid;
  id = id;
  stats = no_io;
}

-- a query that returns the container's sample, and two pods
abbrev client : Client (Unit {0}) (Unit {0})
client = record {
  is_window = λ w. true;
  parse_duration = λ t. some 50000000;
  is_address = λ a. true;
  query = λ s q. some (vector (sample_of (λ key. path) container ∷ []));
  is_selector = λ x. true;
  list_pods = λ s n x. some (
      record { uid = codes "u1"; name = codes "p1" }
      ∷ record { uid = uid; name = codes "p2" }
      ∷ []);
}

abbrev window : Text
window = codes "5m"

prepared : prepare client (new_prometheus_evaluator (codes "http://p") []) window window tt ≡ (
  ok (
      query_text
        (codes "ebpf_block_io_latency_ns_total")
        (codes "ebpf_block_io_count_total")
        window
        50000000),
  tt,
)
unfolding prepare build_query
prepared = refl

evaluate-containers_example :
    evaluate client
      (new_prometheus_evaluator (codes "http://p") [])
      (codes "default")
      tt
      window
      window
      tt
    ≡ (ok (codes "p2" ∷ []), tt)
evaluate-containers_example =
    evaluate-containers (λ key. path) client (new_prometheus_evaluator (codes "http://p") [])
      (codes "default") tt window window
      (query_text (codes "ebpf_block_io_latency_ns_total") (codes "ebpf_block_io_count_total")
        window 50000000)
      (container ∷ [])
      (record { uid = codes "u1"; name = codes "p1" }
        ∷ record { uid = uid; name = codes "p2" }
        ∷ [])
      tt prepared refl refl refl (refl, refl, refl, tt)
