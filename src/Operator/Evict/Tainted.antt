-- ===== src/Operator/Evict/Tainted.antt =====
-- The node of a pod that the action evicts.
use e_bpf_kubernetes_operato.Common.{
  ℕ, Bool, true, false, ◌||◌, none, some, List, [], ◌∷◌, ◌++◌, ◌≡◌, ◌⊎◌, refl, arith, ◌∙◌,
  Option-cases, Bool-cases, inl, inr,
}
use e_bpf_kubernetes_operato.Common.Text.{Text, text_eq, text_eq_iff}
use e_bpf_kubernetes_operato.Operator.Evict.{
  Taint, Pod, Node, EvictAndTaintAction, prune, new_taint, desired_taints, equal_taints, Client,
  Outcome, done, no_pod, not_scheduled, no_node, patch_failed, evict_failed, evict_pod, taint_node,
  execute,
}

-- the outcomes of an execution that has asked for the eviction
abbrev pub has_asked : Outcome → Bool
has_asked done = true
has_asked evict_failed = true
has_asked no_pod = false
has_asked not_scheduled = false
has_asked no_node = false
has_asked patch_failed = false

abbrev pub has_key : Text → List Taint → Bool
has_key key [] = false
has_key key (t ∷ ts) = text_eq t.key key || has_key key ts

has_key-append :
    (key : Text) (ts us : List Taint) → has_key key (ts ++ us) ≡ (has_key key ts || has_key key us)
has_key-append key [] us = refl
has_key-append key (t ∷ ts) us = ground (arith, has_key-append key ts us)

equal_taints-has_key :
    (key : Text) (ts us : List Taint) → equal_taints ts us ≡ true → has_key key ts ≡ has_key key us
unfolding equal_taints
equal_taints-has_key key [] [] e = refl
equal_taints-has_key key [] (u ∷ us) e = ground (arith, e)
equal_taints-has_key key (t ∷ ts) [] e = ground (arith, e)
equal_taints-has_key key (t ∷ ts) (u ∷ us) e =
    let same : t.key ≡ u.key = (text_eq_iff t.key u.key).0 (ground (arith, e)) in
    rw (same, equal_taints-has_key key ts us (ground (arith, e))) refl

module _ (a : EvictAndTaintAction) (now : ℕ) where
  prune-has_key : (ts : List Taint) → (prune a now ts).0 ≡ has_key a.taint_key (prune a now ts).1
  unfolding prune
  prune-has_key [] = refl
  prune-has_key (t ∷ ts) = ground (arith, prune-has_key ts)

  desired_taints-has_key : (ts : List Taint) → has_key a.taint_key (desired_taints a now ts) ≡ true
  unfolding desired_taints
  desired_taints-has_key ts = ground (
    arith,
    prune-has_key ts,
    has_key-append a.taint_key (prune a now ts).1 (new_taint a now ∷ []),
    text_eq_iff a.taint_key a.taint_key,
  )

module _ {S : Type 0} (c : Client S) (a : EvictAndTaintAction) where
  -- whether a node of the state has a taint of the action's key
  abbrev pub is_tainted : S → Text → Bool
  is_tainted s name = elim (c.get_node s name) [
    | none ↦ false
    | some node ↦ has_key a.taint_key node.taints
  ]

  -- A patch that succeeds leaves the node with the taints that it was sent with. Their times are
  -- left open, as the API server keeps whole seconds.
  abbrev pub StoresTaints : Type 0
  StoresTaints =
      (s : S) (name : Text) (node wanted : Node)
      → c.get_node s name ≡ some node
      → (c.patch_node s wanted node).0 ≡ true
      → (stored : Node) × (c.get_node (c.patch_node s wanted node).1 name ≡ some stored)
        × (equal_taints stored.taints wanted.taints ≡ true)

  abbrev pub PatchKeepsPods : Type 0
  PatchKeepsPods =
      (s : S) (wanted node : Node) (name namespace : Text)
      → c.get_pod (c.patch_node s wanted node).1 name namespace ≡ c.get_pod s name namespace

  abbrev pub EvictKeepsNodes : Type 0
  EvictKeepsNodes =
      (s : S) (pod : Pod) (name : Text) → c.get_node (c.evict s pod).1 name ≡ c.get_node s name

  module _ (stores : StoresTaints) (nodes : EvictKeepsNodes) where
    evict_pod-is_tainted :
        (pod : Pod) (s : S) (name : Text)
        → is_tainted s name ≡ true
        → is_tainted (evict_pod c pod s).1 name ≡ true
    unfolding evict_pod
    evict_pod-is_tainted pod s name h = rw (nodes s pod name, is_tainted) h

    taint_node-is_tainted :
        (now : ℕ) (pod : Pod) (node : Node) (s : S) (name : Text)
        → c.get_node s name ≡ some node
        → has_asked (taint_node c a now pod node s).0 ≡ true
        → is_tainted (taint_node c a now pod node s).1 name ≡ true
    unfolding taint_node
    taint_node-is_tainted now pod node s name found asked =
        let wanted = record node { taints = desired_taints a now node.taints } in
        let keyed = desired_taints-has_key a now node.taints in
        elim (Bool-cases (equal_taints node.taints wanted.taints)) [
          | inl same ↦
              let had = equal_taints-has_key a.taint_key node.taints wanted.taints same ∙ keyed in
              rw same (evict_pod-is_tainted pod s name (rw (found, is_tainted) had))
          | inr differ ↦ elim (Bool-cases (c.patch_node s wanted node).0) [
            | inr failed ↦ absurd (ground (arith, differ, failed, asked))
            | inl sent ↦
                let (stored, there, same) = stores s name node wanted found sent in
                rw (differ, sent)
                  (evict_pod-is_tainted pod (c.patch_node s wanted node).1 name (
                    rw (there, is_tainted)
                      (equal_taints-has_key a.taint_key stored.taints wanted.taints same ∙ keyed)))
          ]
        ]

    taint_node-pods :
        PatchKeepsPods
        → (now : ℕ) (pod : Pod) (node : Node) (s : S) (name namespace : Text)
        → has_asked (taint_node c a now pod node s).0 ≡ false
        → c.get_pod (taint_node c a now pod node s).1 name namespace ≡ c.get_pod s name namespace
    unfolding taint_node evict_pod
    taint_node-pods keeps now pod node s name namespace h = ground (
      arith,
      h,
      keeps s (record node { taints = desired_taints a now node.taints }) node name namespace,
    )

    -- Let a patch that succeeds leave the node with the taints that it was sent with, whatever their
    -- times, no patch change a pod, and no eviction a node. Where an execution has asked for the eviction of a pod,
    -- whether it was granted or not, the pod's node has a taint of the action's key; where it ended
    -- before that, every pod is as it was.
    pub execute-tainted :
        PatchKeepsPods
        → (now : ℕ) (pod_name namespace : Text) (pod : Pod) (s : S)
        → c.get_pod s pod_name namespace ≡ some pod
        → let r = execute c a now pod_name namespace s in
          ((has_asked r.0 ≡ true) × (is_tainted r.1 pod.node_name ≡ true))
          ⊎ ((has_asked r.0 ≡ false)
              × ((name other : Text) → c.get_pod r.1 name other ≡ c.get_pod s name other))
    unfolding execute
    execute-tainted keeps now pod_name namespace pod s found =
        elim (Bool-cases (text_eq pod.node_name [])) [
          | inl idle ↦
              let run : execute c a now pod_name namespace s ≡ (not_scheduled, s) =
                ground (arith, found, idle) in
              rw run (inr (refl, λ name other. refl))
          | inr bound ↦ elim (Option-cases (c.get_node s pod.node_name)) [
            | inl none_read ↦
                let run : execute c a now pod_name namespace s ≡ (no_node, s) =
                  ground (arith, found, bound, none_read) in
                rw run (inr (refl, λ name other. refl))
            | inr (node, read) ↦
                let run : execute c a now pod_name namespace s ≡ taint_node c a now pod node s =
                  ground (arith, found, bound, read) in
                elim (Bool-cases (has_asked (taint_node c a now pod node s).0)) [
                  | inl asked ↦
                      rw run
                        (inl (asked, taint_node-is_tainted now pod node s pod.node_name read asked))
                  | inr ended ↦
                      let pods = taint_node-pods keeps now pod node s in
                      rw run (inr (ended, λ name other. pods name other ended))
                ]
          ]
        ]
