-- ===== src/Operator/Reconcile/Requeue.antt =====
-- When a policy is looked at again.
use e_bpf_kubernetes_operato.Common.{
  ℕ, ◌≤◌, ◌<◌, ◌^◌, Option, some, ◌≡◌, arith, Option-cases, inl, inr, List,
}
use e_bpf_kubernetes_operato.Common.Text.{Text}
use e_bpf_kubernetes_operato.Common.Int64.{two_63}
use e_bpf_kubernetes_operato.Operator.Calls.{Result-cases}
use e_bpf_kubernetes_operato.Operator.Evaluate.{new_prometheus_evaluator, evaluate}
use e_bpf_kubernetes_operato.Operator.Reconcile.{
  Policy, Client, PolicyLookup-cases, min_requeue, requeue_from_spec, build_action, remediate,
  reconcile_policy, reconcile,
}

module _ {S Selector : Type 0} (c : Client S Selector) where
  requeue_bounds :
      (window : Text)
      → ((d : ℕ) → c.evaluator.parse_duration window ≡ some d → d < 2 ^ 64)
      → (min_requeue ≤ requeue_from_spec c window) × (requeue_from_spec c window < two_63)
  unfolding requeue_from_spec
  requeue_bounds window range = elim (Option-cases (c.evaluator.parse_duration window)) [
    | inl e ↦ ground (arith, e)
    | inr (d, e) ↦ ground (arith, e, range d e)
  ]

  requeue_of :
      (window : Text) (d : ℕ)
      → ((x : ℕ) → c.evaluator.parse_duration window ≡ some x → x < 2 ^ 64)
      → ◌≡◌ {A = Option ℕ} (some (requeue_from_spec c window)) (some d)
      → (min_requeue ≤ d) × (d < two_63)
  requeue_of window d range e = ground (arith, requeue_bounds window range)

  remediate-requeue :
      (namespace name : Text) (p : Policy Selector) (pods : List Text) (s : S) (d : ℕ)
      → ((x : ℕ) → c.evaluator.parse_duration p.evaluation_window ≡ some x → x < 2 ^ 64)
      → (remediate c namespace name p pods s).0.requeue_after ≡ some d
      → (min_requeue ≤ d) × (d < two_63)
  unfolding remediate
  remediate-requeue namespace name p pods s d range asked = elim (Option-cases (build_action c p)) [
    | inl e ↦ absurd (ground (arith, e))
    | inr (a, e) ↦ requeue_of p.evaluation_window d range (ground (arith, e))
  ]

  reconcile_policy-requeue :
      (namespace name : Text) (p : Policy Selector) (s : S) (d : ℕ)
      → ((x : ℕ) → c.evaluator.parse_duration p.evaluation_window ≡ some x → x < 2 ^ 64)
      → (reconcile_policy c namespace name p s).0.requeue_after ≡ some d
      → (min_requeue ≤ d) × (d < two_63)
  unfolding reconcile_policy
  reconcile_policy-requeue namespace name p s d range asked =
      let r =
        evaluate c.evaluator (new_prometheus_evaluator p.prometheus_endpoint p.metric_type)
          namespace p.target_pod_selector p.evaluation_window p.latency_threshold s in
      elim (Result-cases r.0) [
        | inl (pods, e) ↦ remediate-requeue namespace name p pods r.1 d range (ground (arith, e))
        | inr (x, e) ↦ requeue_of p.evaluation_window d range (ground (arith, e))
      ]

  -- A reconciliation that asks for another one after some time asks for 15 seconds at least, and not
  -- for a negative duration, whatever window the policy has.
  pub reconcile-requeue :
      (namespace name : Text) (s : S) (d : ℕ)
      → ((window : Text) (x : ℕ) → c.evaluator.parse_duration window ≡ some x → x < 2 ^ 64)
      → (reconcile c namespace name s).0.requeue_after ≡ some d
      → (min_requeue ≤ d) × (d < two_63)
  unfolding reconcile
  reconcile-requeue namespace name s d range asked =
      elim (PolicyLookup-cases (c.get_policy s namespace name)) [
        | inl (p, e) ↦
            reconcile_policy-requeue namespace name p s d (range p.evaluation_window)
              (ground (arith, e))
        | inr (inl e) ↦ absurd (ground (arith, e))
        | inr (inr e) ↦ absurd (ground (arith, e))
      ]
