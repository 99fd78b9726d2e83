-- ===== src/Tests/Policies.antt =====
-- Runs of the controller on a cluster that holds one policy.
use e_bpf_kubernetes_operato.Common.{
  ℕ, ◌<◌, ◌^◌, ◌≡◌, ◌≢◌, ◌⊎◌, refl, arith, none, some, true, false, List, [], ◌∷◌, if◌then◌else◌,
}
use e_bpf_kubernetes_operato.Common.Text.{Text, codes, text_eq, text_eq_iff}
use e_bpf_kubernetes_operato.Common.Int64.{ge_int64}
use e_bpf_kubernetes_operato.Operator.Calls.{ok, is_ok}
use e_bpf_kubernetes_operato.Operator.Evaluate.Selected.{evaluate_selected}
use e_bpf_kubernetes_operato.Operator.Evaluate
use e_bpf_kubernetes_operato.Operator.Evaluate.{
  PodItem, vector, new_prometheus_evaluator, prepare, evaluate, build_query, query_text,
  saturated_uids, saturated_names, saturated_pods,
}
use e_bpf_kubernetes_operato.Operator.Evaluate.Refused.{is_valid, evaluate_refused}
use e_bpf_kubernetes_operato.Operator.Evict
use e_bpf_kubernetes_operato.Operator.Evict.{new_evict_and_taint_action}
use e_bpf_kubernetes_operato.Operator.ScaleUp
use e_bpf_kubernetes_operato.Operator.ScaleUp.{ScaleUpAction, no_fallback}
use e_bpf_kubernetes_operato.Operator.Migrate
use e_bpf_kubernetes_operato.Operator.Reconcile.{
  Condition, Policy, found, Client, evict_and_taint, failed_of, requeue_from_spec, run_evict,
  build_action, run_action, run_actions, set_status, reconcile,
}
use e_bpf_kubernetes_operato.Operator.Reconcile.Actions.{build_action-fallback}
use e_bpf_kubernetes_operato.Operator.Reconcile.Status.{status_at, reconcile-verdict}
use e_bpf_kubernetes_operato.Operator.Reconcile.Conditions.{IsKept, reconcile-degraded}

-- the state of the cluster is its policy, whose selector carries nothing
abbrev State : Type 0
State = Policy (Unit {0})

abbrev set_condition : List Condition → Condition → List Condition
set_condition [] x = x ∷ []
set_condition (y ∷ ys) x = if text_eq y.type x.type then x ∷ ys else y ∷ set_condition ys x

status_at-set_condition :
    (xs : List Condition) (x : Condition) (type : Text)
    → status_at (set_condition xs x) type
      ≡ (if text_eq x.type type then some x.status else status_at xs type)
status_at-set_condition [] x type = refl
status_at-set_condition (y ∷ ys) x type = ground (
  arith,
  status_at-set_condition ys x type,
  text_eq_iff y.type x.type,
  text_eq_iff y.type type,
  text_eq_iff x.type type,
)

-- a window of `5m`, a threshold of `50ms`, and samples of the pods with the given identifiers
abbrev evaluator : List Text → Evaluate.Client State (Unit {0})
evaluator uids = record {
  is_window = λ w. text_eq w (codes "5m");
  parse_duration = λ t.
      if text_eq t (codes "5m")
      then some 300000000000
      else if text_eq t (codes "50ms")
      then some 50000000
      else none;
  is_address = λ a. true;
  query = λ s q. some (vector (samples uids));
  is_selector = λ x. true;
  list_pods = λ s n x. some (
      record { uid = codes "u1"; name = codes "p1" }
      ∷ record { uid = codes "u2"; name = codes "p2" }
      ∷ []);
}
  where
    samples : List Text → List Evaluate.Sample
    samples [] = []
    samples (u ∷ us) = record { pod_uid = some u } ∷ samples us

-- a cluster in which no pod can be read, so that every action fails
abbrev client : List Text → Client State (Unit {0})
client uids = record {
  get_policy = λ s namespace name. found s;
  update_status = λ s namespace name p. (true, p);
  set_condition = set_condition;
  now = λ s. 7;
  evaluator = evaluator uids;
  evict = record {
    get_pod = λ s n m. none;
    get_node = λ s n. none;
    patch_node = λ s w o. (true, s);
    evict = λ s p. (true, s);
  };
  scale = record {
    get_pod = λ s n m. none;
    resize = λ s w o. (true, s);
    parse_quantity = λ t. some 2000;
  };
  migrate = record {
    get_storage_class = λ s n. Migrate.found;
    get_pod = λ s n m. none;
    get_replica_set = λ s n m. none;
    get_deployment = λ s n m. none;
    get_claim = λ s n m. none;
    create_claim = λ s q. (true, s);
    patch_deployment = λ s w o. (true, s);
  };
}

abbrev policy : Text → Policy (Unit {0})
policy action = record {
  generation = 1;
  target_pod_selector = tt;
  prometheus_endpoint = codes "http://p";
  metric_type = [];
  latency_threshold = codes "50ms";
  evaluation_window = codes "5m";
  action = action;
  taint_duration = none;
  target_storage_class = none;
  scale_up_config = none;
  conditions = [];
}

abbrev evict_policy : Policy (Unit {0})
evict_policy = policy (codes "EvictAndTaint")

-- one of two pods has a sample, and the action on it fails
verdict_reached :
    (reconcile (client (codes "u2" ∷ [])) (codes "default") (codes "io") evict_policy).1.conditions
    ≡ record {
      type = codes "Degraded";
      status = codes "True";
      reason = codes "PartialFailure";
      message = failed_of 1 1;
      observed_generation = 1;
      last_transition_time = 7;
    }
      ∷ []
unfolding reconcile evaluate prepare build_query saturated_uids saturated_names saturated_pods
    build_action run_action run_actions Evict.execute
verdict_reached = refl

reconcile-verdict_example :
    let (outcome, s) =
      reconcile (client (codes "u2" ∷ [])) (codes "default") (codes "io") evict_policy in
    (s
      ≡ set_status
          (client (codes "u2" ∷ []))
          (codes "default")
          (codes "io")
          evict_policy
          (codes "Degraded")
          (codes "PartialFailure")
          (failed_of 1 1)
          evict_policy)
    × (outcome.failed ≡ false)
    × (outcome.requeue_after
        ≡ some (requeue_from_spec (client (codes "u2" ∷ [])) evict_policy.evaluation_window))
    × (◌≡◌ {A = ℕ} 1 1)
unfolding evaluate prepare build_query saturated_uids saturated_names saturated_pods build_action
    run_action Evict.execute
reconcile-verdict_example =
    reconcile-verdict (client (codes "u2" ∷ [])) (codes "default") (codes "io") evict_policy
      (codes "p2" ∷ []) (evict_and_taint (new_evict_and_taint_action none)) evict_policy refl refl
      refl

abbrev degraded : Condition
degraded = record {
  type = codes "Degraded";
  status = codes "True";
  reason = codes "PartialFailure";
  message = failed_of 1 1;
  observed_generation = 1;
  last_transition_time = 3;
}

abbrev degraded_policy : Policy (Unit {0})
degraded_policy = record evict_policy { conditions = degraded ∷ [] }

client-IsKept : IsKept (client [])
client-IsKept = record {
  status_at-set = status_at-set_condition;
  get-update = λ s namespace name p e. (p, refl, refl);
}

reconcile-degraded_example :
    (q : Policy (Unit {0})) × ((client []).get_policy
        (reconcile (client []) (codes "default") (codes "io") degraded_policy).1
        (codes "default")
        (codes "io")
      ≡ found q)
    × (status_at q.conditions (codes "Available") ≡ some (codes "True"))
    × (status_at q.conditions (codes "Degraded") ≡ some (codes "True"))
unfolding evaluate prepare build_query saturated_uids saturated_names saturated_pods build_action
reconcile-degraded_example =
    reconcile-degraded (client []) client-IsKept (codes "default") (codes "io") degraded_policy
      (evict_and_taint (new_evict_and_taint_action none)) degraded_policy refl refl refl refl refl

durations :
    (window : Text) (x : ℕ) → (client []).evaluator.parse_duration window ≡ some x → x < 2 ^ 64
durations window x e = ground (arith, e)

abbrev scale_action : ScaleUpAction State
scale_action = record {
  cpu_step_percent = 20;
  max_cpu_limit = codes "2000m";
  fallback_action = some (run_evict (client []) (new_evict_and_taint_action none));
}

build_action-fallback_example :
    (ge_int64 0 20 ≡ false)
    × ((ScaleUp.execute
          (client []).scale
          scale_action
          (codes "p1")
          (codes "default")
          evict_policy).0
        ≢ no_fallback)
unfolding build_action
build_action-fallback_example =
    build_action-fallback (client []) (policy (codes "ScaleUp")) scale_action (codes "p1")
      (codes "default") evict_policy refl

abbrev window_query : Text
window_query =
    query_text (codes "ebpf_block_io_latency_ns_total") (codes "ebpf_block_io_count_total")
      (codes "5m") 50000000

evaluate_refused_example :
    let r =
      evaluate
        (evaluator [])
        (new_prometheus_evaluator [] (codes "CPU"))
        (codes "default")
        tt
        (codes "5m")
        (codes "50ms")
        evict_policy in
    (r.1 ≡ evict_policy)
    × ((is_ok r.0 ≡ false)
        ⊎ (is_valid
              (evaluator [])
              (new_prometheus_evaluator [] (codes "CPU"))
              (codes "5m")
              (codes "50ms")
            ≡ true))
evaluate_refused_example =
    evaluate_refused (evaluator []) (new_prometheus_evaluator [] (codes "CPU")) (codes "default") tt
      (codes "5m") (codes "50ms") evict_policy

evaluate_selected_example :
    evaluate
      (evaluator (codes "u2" ∷ []))
      (new_prometheus_evaluator (codes "http://p") [])
      (codes "default")
      tt
      (codes "5m")
      (codes "50ms")
      evict_policy
    ≡ (ok (codes "p2" ∷ []), evict_policy)
unfolding prepare build_query
evaluate_selected_example =
    evaluate_selected (evaluator (codes "u2" ∷ [])) (new_prometheus_evaluator (codes "http://p") [])
      (codes "default") tt (codes "5m") (codes "50ms") window_query
      (record { pod_uid = some (codes "u2") } ∷ [])
      (record { uid = codes "u1"; name = codes "p1" }
        ∷ record { uid = codes "u2"; name = codes "p2" }
        ∷ [])
      evict_policy refl refl refl refl
