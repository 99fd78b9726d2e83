-- ===== src/Operator/Evaluate/Refused.antt =====
-- Policies that are refused before a query, and what an evaluation leaves alone.
use e_bpf_kubernetes_operato.Common.{
  ℕ, Bool, true, false, not, ◌&&◌, ◌||◌, none, some, List, [], ◌∷◌, ◌≡◌, ◌⊎◌, refl, arith,
  Option-cases, inl, inr, is_some,
}
use e_bpf_kubernetes_operato.Common.Text.{Text, codes, text_eq}
use e_bpf_kubernetes_operato.Common.Int64.{ge_int64}
use e_bpf_kubernetes_operato.Operator.Calls.{fetch, ◌>>=◌, Result-cases, is_ok}
use e_bpf_kubernetes_operato.Operator.Evaluate.{
  PrometheusEvaluator, QueryResult, vector, other_type, query_failed, Client, build_query,
  saturated_uids, saturated_pods, vector_of, prepare, evaluate,
}

abbrev pub is_metric : Text → Bool
is_metric m = text_eq m (codes "CPU") || text_eq m (codes "IO") || text_eq m []

module _ {S Selector : Type 0} (c : Client S Selector) where
  -- the endpoint, the window, the threshold and the metric of a policy
  abbrev pub is_valid : PrometheusEvaluator → Text → Text → Bool
  is_valid e window threshold =
      not (text_eq e.endpoint [])
      && c.is_window window
      && elim (c.parse_duration threshold) [ none ↦ false | some ns ↦ not (ge_int64 0 ns) ]
      && c.is_address e.endpoint
      && is_metric e.metric_type

  build_query-is_metric :
      (m window : Text) (ns : ℕ) → is_some (build_query m window ns) ≡ is_metric m
  unfolding build_query
  build_query-is_metric m window ns = ground arith

  prepare-is_valid :
      (e : PrometheusEvaluator) (window threshold : Text) (s : S)
      → is_ok (prepare c e window threshold s).0 ≡ is_valid e window threshold
  unfolding prepare
  prepare-is_valid e window threshold s = elim (Option-cases (c.parse_duration threshold)) [
    | inl none_parsed ↦ ground (arith, none_parsed)
    | inr (ns, parsed) ↦ elim (Option-cases (build_query e.metric_type window ns)) [
      | inl q ↦ ground (arith, parsed, q, build_query-is_metric e.metric_type window ns)
      | inr (text, q) ↦ ground (arith, parsed, q, build_query-is_metric e.metric_type window ns)
    ]
  ]

  prepare-state :
      (e : PrometheusEvaluator) (window threshold : Text) (s : S)
      → (prepare c e window threshold s).1 ≡ s
  unfolding prepare
  prepare-state e window threshold s = ground arith

  saturated_pods-state :
      (namespace : Text) (selector : Selector) (uids : List Text) (s : S)
      → (saturated_pods c namespace selector uids s).1 ≡ s
  unfolding saturated_pods
  saturated_pods-state namespace selector [] s = refl
  saturated_pods-state namespace selector (u ∷ us) s = ground arith

  vector_of-state :
      (namespace : Text) (selector : Selector) (r : QueryResult) (s : S)
      → ((vector_of c r >>= λ samples. saturated_pods c namespace selector (saturated_uids samples))
          s).1
        ≡ s
  vector_of-state namespace selector (vector samples) s =
      saturated_pods-state namespace selector (saturated_uids samples) s
  vector_of-state namespace selector other_type s = refl

  query-state :
      (namespace : Text) (selector : Selector) (text : Text) (s : S)
      → ((fetch (λ s'. c.query s' text) query_failed >>= λ result. vector_of c result >>= λ samples.
            saturated_pods c namespace selector (saturated_uids samples))
          s).1
        ≡ s
  query-state namespace selector text s = elim (Option-cases (c.query s text)) [
    | inl e ↦ ground (arith, e)
    | inr (r, e) ↦ ground (arith, e, vector_of-state namespace selector r s)
  ]

  -- An evaluation changes nothing in the cluster. It ends with an error, or the policy has an
  -- endpoint that a client can be made for, a window that Prometheus reads, a positive threshold,
  -- and CPU, IO or no metric.
  pub evaluate_refused :
      (e : PrometheusEvaluator) (namespace : Text) (selector : Selector) (window threshold : Text)
      (s : S)
      → let r = evaluate c e namespace selector window threshold s in
        (r.1 ≡ s) × ((is_ok r.0 ≡ false) ⊎ (is_valid e window threshold ≡ true))
  unfolding evaluate
  evaluate_refused e namespace selector window threshold s =
      let state = prepare-state e window threshold s in
      let valid = prepare-is_valid e window threshold s in
      elim (Result-cases (prepare c e window threshold s).0) [
        | inr (x, p) ↦ (ground (arith, p, state), inl (ground (arith, p)))
        | inl (text, p) ↦ (
          ground (arith, p, state, query-state namespace selector text s),
          inr (ground (arith, p, valid)),
        )
      ]
