-- ===== src/Operator/Reconcile/Actions.antt =====
-- The actions on the saturated pods.
use e_bpf_kubernetes_operato.Common.{
  ℕ, ◌+◌, Bool, true, false, some, List, [], ◌∷◌, ◌≡◌, ◌≢◌, refl, arith, Option-cases, inl, inr,
}
use e_bpf_kubernetes_operato.Common.Text.{Text}
use e_bpf_kubernetes_operato.Common.Int64.{ge_int64}
use e_bpf_kubernetes_operato.Operator.Evict.{new_evict_and_taint_action}
use e_bpf_kubernetes_operato.Operator.ScaleUp
use e_bpf_kubernetes_operato.Operator.ScaleUp.{ScaleUpAction, no_fallback, scale_pod}
use e_bpf_kubernetes_operato.Operator.Reconcile.{
  Policy, Client, RemediationAction, scale_up, run_evict, taint_duration, build_action, run_action,
  run_actions,
}

abbrev pub count_failed : List Bool → ℕ
count_failed [] = 0
count_failed (true ∷ bs) = count_failed bs
count_failed (false ∷ bs) = count_failed bs + 1

module _ {S Selector : Type 0} (c : Client S Selector) where
  -- the results of the actions, one after the other, and the state in the end
  abbrev pub attempts : RemediationAction S → List Text → Text → S → List Bool × S
  attempts a [] namespace s = ([], s)
  attempts a (pod ∷ pods) namespace s =
      let (done, s1) = run_action c a pod namespace s in
      let (rest, s2) = attempts a pods namespace s1 in (done ∷ rest, s2)

  pub run_actions-attempts :
      (a : RemediationAction S) (pods : List Text) (namespace : Text) (s : S)
      → run_actions c a pods namespace s
        ≡ (count_failed (attempts a pods namespace s).0, (attempts a pods namespace s).1)
  unfolding run_actions
  run_actions-attempts a [] namespace s = refl
  run_actions-attempts a (pod ∷ pods) namespace s =
      ground (arith, run_actions-attempts a pods namespace (run_action c a pod namespace s).1)

  execute-fallback :
      (a : ScaleUpAction S) (fallback : Text → Text → S → Bool × S) (pod namespace : Text) (s : S)
      → a.fallback_action ≡ some fallback
      → (ScaleUp.execute c.scale a pod namespace s).0 ≢ no_fallback
  unfolding ScaleUp.execute
  execute-fallback a fallback pod namespace s there = λ e. ground (arith, there, e)

  build_action-step :
      (p : Policy Selector) (a : ScaleUpAction S)
      → build_action c p ≡ some (scale_up a)
      → (ge_int64 0 a.cpu_step_percent ≡ false)
        × (a.fallback_action ≡ some (run_evict c (new_evict_and_taint_action (taint_duration p))))
  unfolding build_action
  build_action-step p a built = elim (Option-cases p.scale_up_config) [
    | inl e ↦ (ground (arith, e), ground (arith, e))
    | inr (options, e) ↦ (ground (arith, e), ground (arith, e))
  ]

  -- The action that a policy with ScaleUp is given has a positive step, whatever the policy leaves
  -- out, and on no pod does it end with the error of a missing fallback.
  pub build_action-fallback :
      (p : Policy Selector) (a : ScaleUpAction S) (pod namespace : Text) (s : S)
      → build_action c p ≡ some (scale_up a)
      → (ge_int64 0 a.cpu_step_percent ≡ false)
        × ((ScaleUp.execute c.scale a pod namespace s).0 ≢ no_fallback)
  build_action-fallback p a pod namespace s built =
      let (step, fallback) = build_action-step p a built in
      (step, execute-fallback a _ pod namespace s fallback)
