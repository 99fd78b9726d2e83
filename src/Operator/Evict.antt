-- ===== src/Operator/Evict.antt =====
-- operator/pkg/action/evict_and_taint.go: `Execute` of `EvictAndTaintAction`. The client of the API
-- server is a parameter; a failed call is the absence of its result, or `false` beside the state that
-- it leaves. Times are in nanoseconds, and a duration may be negative; that `Sub` stops at the ends of
-- the range of an int64, 292 years apart, is left out.
pub mod Taints
pub mod Renewal
pub mod Tainted
use e_bpf_kubernetes_operato.Common.Int.{ℤ, pos, negsuc}
use e_bpf_kubernetes_operato.Common.{
  ℕ, suc, ◌+◌, Bool, true, false, not, ◌&&◌, Option, none, some, List, [], ◌∷◌, ◌++◌, leb,
  if◌then◌else◌,
}
use e_bpf_kubernetes_operato.Common.Text.{Text, codes, text_eq}

pub record Taint : Type 0 where
  pub key : Text
  pub value : Text
  pub effect : Text
  pub time_added : Option ℕ

-- what the action reads of a pod and of a node
pub record Pod : Type 0 where
  pub name : Text
  pub namespace : Text
  pub node_name : Text

pub record Node : Type 0 where
  pub name : Text
  pub taints : List Taint

pub record EvictAndTaintAction : Type 0 where
  pub taint_key : Text
  pub taint_duration : Option ℤ

abbrev pub default_taint_key : Text
default_taint_key = codes "autoremediation.tfg.local/saturation"

abbrev pub new_evict_and_taint_action : Option ℤ → EvictAndTaintAction
new_evict_and_taint_action duration = record {
  taint_key = default_taint_key;
  taint_duration = duration;
}

abbrev pub new_evict_and_taint_action_with_key : Text → Option ℤ → EvictAndTaintAction
new_evict_and_taint_action_with_key key duration = record {
  taint_key = if text_eq key [] then default_taint_key else key;
  taint_duration = duration;
}

-- `a.TaintDuration != nil && t.TimeAdded != nil && now.Sub(t.TimeAdded.Time) >= *a.TaintDuration`
abbrev pub is_expired : Option ℤ → ℕ → Option ℕ → Bool
is_expired none now added = false
is_expired (some d) now none = false
is_expired (some (pos d)) now (some at) = leb (at + d) now
is_expired (some (negsuc d)) now (some at) = leb at (now + suc d)

module _ (a : EvictAndTaintAction) (now : ℕ) where
  abbrev pub is_ours : Taint → Bool
  is_ours t = text_eq t.key a.taint_key

  abbrev pub is_removed : Taint → Bool
  is_removed t = is_ours t && is_expired a.taint_duration now t.time_added

  -- the loop over the node's taints: whether one of ours stays, and those that stay
  unfoldable pub prune : List Taint → Bool × List Taint
  prune [] = (false, [])
  prune (t ∷ ts) =
      let (present, pruned) = prune ts in
      if is_removed t
      then (present, pruned)
      else ((if is_ours t then true else present), t ∷ pruned)

  abbrev pub new_taint : Taint
  new_taint = record {
    key = a.taint_key;
    value = codes "true";
    effect = codes "NoSchedule";
    time_added = some now;
  }

  -- the taints that the node is to have
  unfoldable pub desired_taints : List Taint → List Taint
  desired_taints ts =
      let (present, pruned) = prune ts in if present then pruned else pruned ++ new_taint ∷ []

unfoldable pub equal_taints : List Taint → List Taint → Bool
equal_taints [] [] = true
equal_taints [] (u ∷ us) = false
equal_taints (t ∷ ts) [] = false
equal_taints (t ∷ ts) (u ∷ us) =
    text_eq t.key u.key
    && text_eq t.value u.value
    && text_eq t.effect u.effect
    && equal_taints ts us

pub record Client (S : Type 0) : Type 0 where
  pub get_pod : S → Text → Text → Option Pod
  pub get_node : S → Text → Option Node
  -- `Patch` with the node as it is to be, and `MergeFrom` as it was
  pub patch_node : S → Node → Node → Bool × S
  pub evict : S → Pod → Bool × S

-- the errors that `Execute` returns
pub data Outcome : Type 0 where
  done no_pod not_scheduled no_node patch_failed evict_failed : Outcome

module _ {S : Type 0} (c : Client S) where
  unfoldable pub evict_pod : Pod → S → Outcome × S
  evict_pod pod s = let (ok, s') = c.evict s pod in (if ok then done else evict_failed, s')

  -- from the node on
  unfoldable pub taint_node : EvictAndTaintAction → ℕ → Pod → Node → S → Outcome × S
  unfolding evict_pod
  taint_node a now pod node s =
      let wanted = record node { taints = desired_taints a now node.taints } in
      if equal_taints node.taints wanted.taints
      then evict_pod pod s
      else (let (ok, s') = c.patch_node s wanted node in
          if ok then evict_pod pod s' else (patch_failed, s'))

  unfoldable pub execute : EvictAndTaintAction → ℕ → Text → Text → S → Outcome × S
  unfolding taint_node
  execute a now pod_name namespace s = elim (c.get_pod s pod_name namespace) [
    | none ↦ (no_pod, s)
    | some pod ↦
        if text_eq pod.node_name [] then (not_scheduled, s) else elim (c.get_node s pod.node_name) [
          | none ↦ (no_node, s)
          | some node ↦ taint_node a now pod node s
        ]
  ]
