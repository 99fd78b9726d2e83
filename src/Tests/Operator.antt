-- ===== src/Tests/Operator.antt =====
-- Runs of the operator's actions on one node.
use e_bpf_kubernetes_operato.Common.Int.{pos, negsuc}
use e_bpf_kubernetes_operato.Common.{◌≡◌, ◌⊎◌, refl, arith, none, some, true, false, List, [], ◌∷◌}
use e_bpf_kubernetes_operato.Common.Text.{Text, codes, text_eq_iff}
use e_bpf_kubernetes_operato.Operator.Evict.{
  Taint, Pod, Node, EvictAndTaintAction, new_evict_and_taint_action,
  new_evict_and_taint_action_with_key, new_taint, desired_taints, prune, equal_taints, Client, done,
  evict_pod, taint_node, execute,
}
use e_bpf_kubernetes_operato.Operator.Evict.Taints.{others, fresh, has_expired, desired_taints_lem}
use e_bpf_kubernetes_operato.Operator.Evict.Renewal.{taint_node-expired}
use e_bpf_kubernetes_operato.Operator.Evict.Tainted.{has_asked, is_tainted, execute-tainted}

abbrev action : EvictAndTaintAction
action = new_evict_and_taint_action (some (pos 50))

-- an empty key stands for the one that is used without a key
default_key : new_evict_and_taint_action_with_key [] (some (pos 50)) ≡ action
default_key = refl

abbrev foreign_taint : Taint
foreign_taint = record {
  key = codes "gpu";
  value = [];
  effect = codes "NoExecute";
  time_added = none;
}

abbrev node : Node
node = record { name = codes "n1"; taints = foreign_taint ∷ new_taint action 100 ∷ [] }

abbrev pod : Pod
pod = record { name = codes "p1"; namespace = codes "default"; node_name = codes "n1" }

-- the taints of the node, and the names of the evicted pods
abbrev client : Client (List Taint × List Pod)
client = record {
  get_pod = λ s name namespace. some pod;
  get_node = λ s name. some (record node { taints = s.0 });
  patch_node = λ s wanted old. (true, (wanted.taints, s.1));
  evict = λ s p. (true, (s.0, p ∷ s.1));
}

-- before the taint expires the node is not patched
evicted_only :
    execute client action 120 (codes "p1") (codes "default") (node.taints, [])
    ≡ (done, (node.taints, pod ∷ []))
unfolding execute taint_node evict_pod desired_taints prune equal_taints
evicted_only = refl

-- the first run on a node adds the taint
taint_added :
    execute client action 120 (codes "p1") (codes "default") (foreign_taint ∷ [], [])
    ≡ (done, (foreign_taint ∷ new_taint action 120 ∷ [], pod ∷ []))
unfolding execute taint_node evict_pod desired_taints prune equal_taints
taint_added = refl

-- with a negative duration a taint is expired when it is added, and each run replaces it
replaced_at_once :
    desired_taints
      (new_evict_and_taint_action (some (negsuc 0)))
      120
      (new_taint action 120 ∷ foreign_taint ∷ [])
    ≡ foreign_taint ∷ new_taint action 120 ∷ []
unfolding desired_taints prune
replaced_at_once = refl

desired_taints_lem_example :
    (others action 160 (desired_taints action 160 node.taints) ≡ foreign_taint ∷ [])
    × (fresh action 160 (desired_taints action 160 node.taints) ≡ new_taint action 160 ∷ [])
    × (has_expired action 160 (desired_taints action 160 node.taints) ≡ false)
desired_taints_lem_example = desired_taints_lem action 160 refl node.taints

taint_node-expired_example :
    (desired_taints action 160 node.taints ≡ foreign_taint ∷ new_taint action 160 ∷ [])
    × (taint_node client action 160 pod node (node.taints, [])
        ≡ evict_pod client pod (node.taints, []))
taint_node-expired_example =
    taint_node-expired action client 160 100 pod node (foreign_taint ∷ []) (node.taints, []) refl
      refl refl

equal_taints-same : (ts : List Taint) → equal_taints ts ts ≡ true
unfolding equal_taints
equal_taints-same [] = refl
equal_taints-same (t ∷ ts) = ground (
  arith,
  equal_taints-same ts,
  text_eq_iff t.key t.key,
  text_eq_iff t.value t.value,
  text_eq_iff t.effect t.effect,
)

execute-tainted_example :
    let r = execute client action 160 (codes "p1") (codes "default") (node.taints, []) in
    ((has_asked r.0 ≡ true) × (is_tainted client action r.1 (codes "n1") ≡ true))
    ⊎ ((has_asked r.0 ≡ false) × ((name other : Text) → client.get_pod r.1 name other ≡ some pod))
execute-tainted_example =
    execute-tainted client action
      (λ s name old wanted read sent.
        (record node { taints = wanted.taints }, refl, equal_taints-same wanted.taints))
      (λ s p name. refl) (λ s wanted old name namespace. refl) 160 (codes "p1") (codes "default")
      pod (node.taints, []) refl
