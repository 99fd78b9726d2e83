-- ===== src/Operator/Evict/Renewal.antt =====
-- A taint that expires in the last place of a node's list.
use e_bpf_kubernetes_operato.Common.{
  ℕ, Bool, true, false, not, ◌&&◌, List, [], ◌∷◌, ◌++◌, ◌≡◌, arith,
}
use e_bpf_kubernetes_operato.Common.Text.{text_eq, text_eq_iff}
use e_bpf_kubernetes_operato.Operator.Evict.{
  Taint, Pod, Node, EvictAndTaintAction, is_removed, prune, new_taint, desired_taints, equal_taints,
  Client, evict_pod, taint_node,
}

module _ (a : EvictAndTaintAction) where
  -- the taint that an earlier run of the action added
  abbrev pub old_taint : ℕ → Taint
  old_taint before = new_taint a before

  abbrev pub none_ours : List Taint → Bool
  none_ours [] = true
  none_ours (t ∷ ts) = not (text_eq t.key a.taint_key) && none_ours ts

  prune_last :
      (now before : ℕ) (ts : List Taint)
      → none_ours ts ≡ true
      → is_removed a now (old_taint before) ≡ true
      → prune a now (ts ++ old_taint before ∷ []) ≡ (false, ts)
  unfolding prune
  prune_last now before [] plain old = ground (arith, old)
  prune_last now before (t ∷ ts) plain old = ground (arith, old, prune_last now before ts)

  equal_taints_last :
      (now before : ℕ) (ts : List Taint)
      → equal_taints (ts ++ old_taint before ∷ []) (ts ++ new_taint a now ∷ []) ≡ true
  unfolding equal_taints
  equal_taints_last now before [] = ground (arith, text_eq_iff a.taint_key a.taint_key)
  equal_taints_last now before (t ∷ ts) = ground (
    arith,
    equal_taints_last now before ts,
    text_eq_iff t.key t.key,
    text_eq_iff t.value t.value,
    text_eq_iff t.effect t.effect,
  )

  -- A node whose only taint of the action's key is an expired one that an earlier run added, in the
  -- last place: the taints that it is to have end with a new taint of this time, but the node is not
  -- patched, since the comparison leaves out the time, and the pod is evicted all the same.
  pub taint_node-expired :
      {S : Type 0} (c : Client S) (now before : ℕ) (pod : Pod) (node : Node) (ts : List Taint)
      (s : S)
      → node.taints ≡ ts ++ old_taint before ∷ []
      → none_ours ts ≡ true
      → is_removed a now (old_taint before) ≡ true
      → (desired_taints a now node.taints ≡ ts ++ new_taint a now ∷ [])
        × (taint_node c a now pod node s ≡ evict_pod c pod s)
  unfolding taint_node desired_taints
  taint_node-expired c now before pod node ts s here plain old =
      let last = prune_last now before ts plain old in
      let equal = equal_taints_last now before ts in
      (ground (arith, here, last), ground (arith, here, last, equal))
