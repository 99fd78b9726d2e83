-- ===== src/Operator/Reconcile/Status.antt =====
-- The conditions that a reconciliation leaves in the status of its policy.
use e_bpf_kubernetes_operato.Common.{
  suc, Bool, false, Option, none, some, List, [], ◌∷◌, ◌≡◌, refl, arith, ◌==◌, if◌then◌else◌,
  length, ap,
}
use e_bpf_kubernetes_operato.Common.Text.{Text, codes, text_eq}
use e_bpf_kubernetes_operato.Operator.Calls.{Result, ok}
use e_bpf_kubernetes_operato.Operator.Evaluate
use e_bpf_kubernetes_operato.Operator.Evaluate.{new_prometheus_evaluator, evaluate}
use e_bpf_kubernetes_operato.Operator.Reconcile.{
  Message, no_saturation, remediated, failed_of, Condition, Policy, found, Client,
  RemediationAction, build_action, run_action, set_status, report, requeue_from_spec, remediate,
  reconcile_policy, reconcile,
}
use e_bpf_kubernetes_operato.Operator.Reconcile.Actions.{
  attempts, count_failed, run_actions-attempts,
}

-- the status of the first condition of a type
abbrev pub status_at : List Condition → Text → Option Text
status_at [] type = none
status_at (x ∷ xs) type = if text_eq x.type type then some x.status else status_at xs type

-- the condition that the results of the actions call for
abbrev pub verdict : List Bool → Text × Text × Message
verdict [] = (codes "Available", codes "NoSaturation", no_saturation)
verdict (b ∷ bs) =
    if count_failed (b ∷ bs) == 0
    then (codes "Progressing", codes "Remediating", remediated (length (b ∷ bs)))
    else (
      codes "Degraded",
      codes "PartialFailure",
      failed_of (count_failed (b ∷ bs)) (length (b ∷ bs)),
    )

module _ {S Selector : Type 0} (c : Client S Selector) where
  abbrev pub evaluated : Text → Policy Selector → S → Result Evaluate.Error (List Text) × S
  evaluated namespace p s =
      evaluate c.evaluator (new_prometheus_evaluator p.prometheus_endpoint p.metric_type) namespace
        p.target_pod_selector p.evaluation_window p.latency_threshold s

  length-attempts :
      (a : RemediationAction S) (pods : List Text) (namespace : Text) (s : S)
      → length (attempts c a pods namespace s).0 ≡ length pods
  length-attempts a [] namespace s = refl
  length-attempts a (pod ∷ pods) namespace s =
      ap suc (length-attempts a pods namespace (run_action c a pod namespace s).1)

  report-verdict :
      (namespace name : Text) (p : Policy Selector) (pods : List Text) (bs : List Bool) (s : S)
      → length bs ≡ length pods
      → report c namespace name p pods (count_failed bs) s ≡ (
          let (type, reason, message) = verdict bs in
          set_status c namespace name p type reason message s)
  unfolding report
  report-verdict namespace name p [] [] s e = refl
  report-verdict namespace name p [] (b ∷ bs) s e = absurd (omega arith)
  report-verdict namespace name p (pod ∷ pods) [] s e = absurd (omega arith)
  report-verdict namespace name p (pod ∷ pods) (b ∷ bs) s e =
      let same : length bs ≡ length pods = omega arith in ground (arith, same)

  remediate-verdict :
      (namespace name : Text) (p : Policy Selector) (pods : List Text) (a : RemediationAction S)
      (s : S)
      → build_action c p ≡ some a
      → let (results, s') = attempts c a pods namespace s in
        let (type, reason, message) = verdict results in
        (remediate c namespace name p pods s).1
        ≡ set_status c namespace name p type reason message s'
  unfolding remediate
  remediate-verdict namespace name p pods a s built =
      let (results, s') = attempts c a pods namespace s in
      let told =
        report-verdict namespace name p pods results s' (length-attempts a pods namespace s) in
      let ran = run_actions-attempts c a pods namespace s in ground (arith, built, ran, told)

  -- Where a policy is found, its evaluation gives pods and its action is known: the action is tried
  -- on every pod in turn, also after one has failed, and the status update that follows has Available
  -- for no pods, Progressing where no try failed, and else Degraded with the numbers of failed tries
  -- and of pods. Another reconciliation is asked for, and no error is returned.
  pub reconcile-verdict :
      (namespace name : Text) (p : Policy Selector) (pods : List Text) (a : RemediationAction S)
      (s : S)
      → c.get_policy s namespace name ≡ found p
      → (evaluated namespace p s).0 ≡ ok pods
      → build_action c p ≡ some a
      → let (results, s') = attempts c a pods namespace (evaluated namespace p s).1 in
        let (type, reason, message) = verdict results in
        let (outcome, s'') = reconcile c namespace name s in
        (s'' ≡ set_status c namespace name p type reason message s')
        × (outcome.failed ≡ false)
        × (outcome.requeue_after ≡ some (requeue_from_spec c p.evaluation_window))
        × (length results ≡ length pods)
  unfolding reconcile reconcile_policy remediate
  reconcile-verdict namespace name p pods a s here evaluation built =
      let s1 = (evaluated namespace p s).1 in
      let told = remediate-verdict namespace name p pods a s1 built in
      (
        ground (arith, here, evaluation, told),
        ground (arith, here, evaluation, built),
        ground (arith, here, evaluation, built),
        length-attempts a pods namespace s1,
      )
