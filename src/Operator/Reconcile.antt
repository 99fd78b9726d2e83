-- ===== src/Operator/Reconcile.antt =====
-- operator/internal/controller/ioremediationpolicy_controller.go: `Reconcile` of a policy, over the
-- clients of its parts, which act on one cluster. `SetStatusCondition` is a parameter, and the text
-- of a condition's message is data. `time.Now()` is a function of the state that it is asked in.
pub mod Requeue
pub mod Actions
pub mod Status
pub mod Conditions
use e_bpf_kubernetes_operato.Common.Int.{ℤ}
use e_bpf_kubernetes_operato.Common.{
  ℕ, zero, suc, ◌+◌, ◌*◌, Bool, true, false, not, Option, none, some, List, [], ◌∷◌, ◌==◌, length,
  if◌then◌else◌, value_or, ◌≡◌, ◌⊎◌, inl, inr, refl,
}
use e_bpf_kubernetes_operato.Common.Text.{Text, codes, text_eq}
use e_bpf_kubernetes_operato.Common.Int64.{ge_int64, lt_int64}
use e_bpf_kubernetes_operato.Operator.Calls.{Result, ok, err, is_ok}
use e_bpf_kubernetes_operato.Operator.Evaluate
use e_bpf_kubernetes_operato.Operator.Evaluate.{new_prometheus_evaluator, evaluate}
use e_bpf_kubernetes_operato.Operator.Evict
use e_bpf_kubernetes_operato.Operator.Evict.{EvictAndTaintAction, new_evict_and_taint_action}
use e_bpf_kubernetes_operato.Operator.ScaleUp
use e_bpf_kubernetes_operato.Operator.ScaleUp.{ScaleUpAction, resized, fell_back}
use e_bpf_kubernetes_operato.Operator.Migrate

pub data Message : Type 0 where
  evaluation_error : Evaluate.Error → Message
  unknown_action : Text → Message
  no_saturation : Message
  remediated : ℕ → Message
  failed_of : ℕ → ℕ → Message

pub record Condition : Type 0 where
  pub type : Text
  pub status : Text
  pub reason : Text
  pub message : Message
  pub observed_generation : ℕ
  pub last_transition_time : ℕ

-- the percentage is its conversion to int64
pub record ScaleUpOptions : Type 0 where
  pub cpu_step_percent : ℕ
  pub max_cpu_limit : Text

pub record Policy (Selector : Type 0) : Type 0 where
  pub generation : ℕ
  pub target_pod_selector : Selector
  pub prometheus_endpoint : Text
  pub metric_type : Text
  pub latency_threshold : Text
  pub evaluation_window : Text
  pub action : Text
  pub taint_duration : Option (Option ℤ)
  pub target_storage_class : Option Text
  pub scale_up_config : Option ScaleUpOptions
  pub conditions : List Condition

pub data PolicyLookup (Selector : Type 0) : Type 0 where
  found : Policy Selector → PolicyLookup Selector
  not_found failed : PolicyLookup Selector

pub PolicyLookup-cases :
    {Selector : Type 0} (l : PolicyLookup Selector)
    → ((p : Policy Selector) × (l ≡ found p)) ⊎ ((l ≡ not_found) ⊎ (l ≡ failed))
PolicyLookup-cases (found p) = inl (p, refl)
PolicyLookup-cases not_found = inr (inl refl)
PolicyLookup-cases failed = inr (inr refl)

pub record Client (S Selector : Type 0) : Type 0 where
  pub get_policy : S → Text → Text → PolicyLookup Selector
  pub update_status : S → Text → Text → Policy Selector → Bool × S
  pub set_condition : List Condition → Condition → List Condition
  pub now : S → ℕ
  pub evaluator : Evaluate.Client S Selector
  pub evict : Evict.Client S
  pub scale : ScaleUp.Client S
  pub migrate : Migrate.Client S

pub data RemediationAction (S : Type 0) : Type 0 where
  evict_and_taint : EvictAndTaintAction → RemediationAction S
  migrate_storage : Text → RemediationAction S
  scale_up : ScaleUpAction S → RemediationAction S

abbrev pub second : ℕ
second = 1000000000

abbrev pub default_requeue : ℕ
default_requeue = 60 * second

abbrev pub min_requeue : ℕ
min_requeue = 15 * second

-- what `ctrl.Result` holds, and whether an error is returned
pub record Outcome : Type 0 where
  pub requeue_after : Option ℕ
  pub failed : Bool

-- the policy's duration, or none
abbrev pub taint_duration : {Selector : Type 0} → Policy Selector → Option ℤ
taint_duration p = value_or p.taint_duration none

module _ {S Selector : Type 0} (c : Client S Selector) where
  unfoldable pub requeue_from_spec : Text → ℕ
  requeue_from_spec window = elim (c.evaluator.parse_duration window) [
    | none ↦ default_requeue
    | some d ↦ if lt_int64 d min_requeue then default_requeue else d
  ]

  -- whether `Execute` of the action for evictions returns no error
  abbrev pub run_evict : EvictAndTaintAction → Text → Text → S → Bool × S
  run_evict a pod namespace s =
      let (r, s') = Evict.execute c.evict a (c.now s) pod namespace s in
      (elim r [ Evict.done ↦ true | _ ↦ false ], s')

  unfoldable pub build_action : Policy Selector → Option (RemediationAction S)
  build_action p =
      if text_eq p.action (codes "EvictAndTaint")
      then some (evict_and_taint (new_evict_and_taint_action (taint_duration p)))
      else if text_eq p.action (codes "MigrateStorageClass")
      then some (migrate_storage (value_or p.target_storage_class []))
      else if text_eq p.action (codes "ScaleUp")
      then (let options =
            value_or p.scale_up_config (record { cpu_step_percent = 0; max_cpu_limit = [] }) in
          some (
            scale_up (record {
              cpu_step_percent =
                  if ge_int64 0 options.cpu_step_percent then 20 else options.cpu_step_percent;
              max_cpu_limit =
                  if text_eq options.max_cpu_limit [] then codes "2000m" else options.max_cpu_limit;
              fallback_action = some (run_evict (new_evict_and_taint_action (taint_duration p)));
            })))
      else none

  unfoldable pub run_action : RemediationAction S → Text → Text → S → Bool × S
  run_action (evict_and_taint a) pod namespace s = run_evict a pod namespace s
  run_action (migrate_storage class) pod namespace s =
      let (r, s') = Migrate.execute c.migrate class namespace (c.now s) pod s in (is_ok r, s')
  run_action (scale_up a) pod namespace s =
      let (r, s') = ScaleUp.execute c.scale a pod namespace s in
      (elim r [ resized ↦ true | fell_back done ↦ done | _ ↦ false ], s')

  -- the loop over the saturated pods: how many of the actions failed
  unfoldable pub run_actions : RemediationAction S → List Text → Text → S → ℕ × S
  run_actions a [] namespace s = (0, s)
  run_actions a (pod ∷ pods) namespace s =
      let (done, s1) = run_action a pod namespace s in
      let (failures, s2) = run_actions a pods namespace s1 in
      ((if done then failures else failures + 1), s2)

  -- an error of the update is only logged
  unfoldable pub set_status : Text → Text → Policy Selector → Text → Text → Message → S → S
  set_status namespace name p type reason message s =
      let condition : Condition = record {
        type = type;
        status = codes "True";
        reason = reason;
        message = message;
        observed_generation = p.generation;
        last_transition_time = c.now s;
      } in
      (c.update_status s namespace name
        (record p { conditions = c.set_condition p.conditions condition })).1

  -- the switch after the loop
  unfoldable pub report : Text → Text → Policy Selector → List Text → ℕ → S → S
  unfolding set_status
  report namespace name p pods failures s =
      if length pods == 0
      then set_status namespace name p (codes "Available") (codes "NoSaturation") no_saturation s
      else if failures == 0
      then set_status namespace name p (codes "Progressing") (codes "Remediating")
          (remediated (length pods)) s
      else set_status namespace name p (codes "Degraded") (codes "PartialFailure")
          (failed_of failures (length pods)) s

  -- from the saturated pods on
  unfoldable pub remediate : Text → Text → Policy Selector → List Text → S → Outcome × S
  unfolding report
  remediate namespace name p pods s = elim (build_action p) [
    | none ↦ (
      record { requeue_after = none; failed = false },
      set_status namespace name p (codes "Degraded") (codes "InvalidAction")
          (unknown_action p.action) s,
    )
    | some a ↦
        let (failures, s') = run_actions a pods namespace s in
        (
          record { requeue_after = some (requeue_from_spec p.evaluation_window); failed = false },
          report namespace name p pods failures s',
        )
  ]

  unfoldable pub reconcile_policy : Text → Text → Policy Selector → S → Outcome × S
  unfolding remediate
  reconcile_policy namespace name p s =
      let e = new_prometheus_evaluator p.prometheus_endpoint p.metric_type in
      let (r, s') =
        evaluate c.evaluator e namespace p.target_pod_selector p.evaluation_window
          p.latency_threshold s in
      elim r [
        | ok pods ↦ remediate namespace name p pods s'
        | err x ↦ (
          record { requeue_after = some (requeue_from_spec p.evaluation_window); failed = true },
          set_status namespace name p (codes "Degraded") (codes "EvaluationFailed")
              (evaluation_error x) s',
        )
      ]

  unfoldable pub reconcile : Text → Text → S → Outcome × S
  unfolding reconcile_policy
  reconcile namespace name s = elim (c.get_policy s namespace name) [
    | not_found ↦ (record { requeue_after = none; failed = false }, s)
    | failed ↦ (record { requeue_after = none; failed = true }, s)
    | found p ↦ reconcile_policy namespace name p s
  ]
