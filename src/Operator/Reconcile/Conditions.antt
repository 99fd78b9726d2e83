-- ===== src/Operator/Reconcile/Conditions.antt =====
-- Conditions that stay in the status from one reconciliation to the next.
use e_bpf_kubernetes_operato.Common.{true, some, List, [], ◌≡◌, if◌then◌else◌, ◌∙◌, ap}
use e_bpf_kubernetes_operato.Common.Text.{Text, codes, text_eq}
use e_bpf_kubernetes_operato.Operator.Calls.{ok}
use e_bpf_kubernetes_operato.Operator.Reconcile.{
  Condition, Policy, found, Client, RemediationAction, no_saturation, build_action, set_status,
  reconcile,
}
use e_bpf_kubernetes_operato.Operator.Reconcile.Status.{status_at, evaluated, reconcile-verdict}

-- What is documented of `SetStatusCondition`, and of an update of the status subresource that
-- succeeds: the policy is there with the conditions of the update, whatever its spec.
pub record IsKept {S Selector : Type 0} (c : Client S Selector) : Type 0 where
  pub status_at-set :
      (xs : List Condition) (x : Condition) (type : Text)
      → status_at (c.set_condition xs x) type
        ≡ (if text_eq x.type type then some x.status else status_at xs type)
  pub get-update :
      (s : S) (namespace name : Text) (p : Policy Selector)
      → (c.update_status s namespace name p).0 ≡ true
      → (q : Policy Selector) × (c.get_policy (c.update_status s namespace name p).1 namespace name
          ≡ found q)
        × (q.conditions ≡ p.conditions)

module _ {S Selector : Type 0} (c : Client S Selector) (kept : IsKept c) where
  abbrev pub condition_of : Policy Selector → Text → Text → S → Condition
  condition_of p type reason s = record {
    type = type;
    status = codes "True";
    reason = reason;
    message = no_saturation;
    observed_generation = p.generation;
    last_transition_time = c.now s;
  }

  -- the policy with the conditions that a reconciliation without saturated pods sends
  abbrev pub available : Policy Selector → S → Policy Selector
  available p s = record p {
    conditions =
        c.set_condition p.conditions (condition_of p (codes "Available") (codes "NoSaturation") s);
  }

  set_status_lem :
      (namespace name : Text) (p : Policy Selector) (s : S)
      → (c.update_status s namespace name (available p s)).0 ≡ true
      → (q : Policy Selector) × (c.get_policy
            (set_status c namespace name p
              (codes "Available")
              (codes "NoSaturation")
              no_saturation
              s)
            namespace
            name
          ≡ found q)
        × ((t : Text)
            → status_at q.conditions t ≡ (
                if text_eq (codes "Available") t
                then some (codes "True")
                else status_at p.conditions t))
  unfolding set_status
  set_status_lem namespace name p s updates =
      let (q, there, same) = kept.get-update s namespace name (available p s) updates in
      (
        q,
        there,
        λ t.
            ap (λ xs. status_at xs t) same
            ∙ kept.status_at-set p.conditions
                (condition_of p (codes "Available") (codes "NoSaturation") s) t,
      )

  -- A policy whose status has Degraded, from an evaluation or an action that failed. Where its
  -- action is known, the evaluation finds no saturated pod and the update of the status that follows
  -- succeeds, with the policy's conditions read back as they were sent, whatever its spec: after the
  -- reconciliation the status has Available, and still has Degraded.
  pub reconcile-degraded :
      (namespace name : Text) (p : Policy Selector) (a : RemediationAction S) (s : S)
      → c.get_policy s namespace name ≡ found p
      → (evaluated c namespace p s).0 ≡ ok []
      → build_action c p ≡ some a
      → (let s1 = (evaluated c namespace p s).1 in
          (c.update_status s1 namespace name (available p s1)).0 ≡ true)
      → status_at p.conditions (codes "Degraded") ≡ some (codes "True")
      → (q : Policy Selector) × (c.get_policy (reconcile c namespace name s).1 namespace name
          ≡ found q)
        × (status_at q.conditions (codes "Available") ≡ some (codes "True"))
        × (status_at q.conditions (codes "Degraded") ≡ some (codes "True"))
  reconcile-degraded namespace name p a s here evaluation built updates before =
      let s1 = (evaluated c namespace p s).1 in
      let (q, there, statuses) = set_status_lem namespace name p s1 updates in
      let state = (reconcile-verdict c namespace name p [] a s here evaluation built).0 in
      (
        q,
        ap (λ t. c.get_policy t namespace name) state ∙ there,
        statuses (codes "Available"),
        statuses (codes "Degraded") ∙ before,
      )
