-- ===== src/Operator/Evaluate.antt =====
-- operator/pkg/evaluator/prometheus_io_evaluator.go: the pods that `Evaluate` finds saturated. The
-- parsers of durations, the Prometheus client and the client of the API server are parameters; a
-- duration is an int64 of nanoseconds.
pub mod Selected
pub mod Refused
use e_bpf_kubernetes_operato.Common.{
  ℕ, Bool, true, false, not, ◌&&◌, ◌||◌, Option, none, some, List, [], ◌∷◌, ◌++◌, if◌then◌else◌,
}
use e_bpf_kubernetes_operato.Common.Text.{Text, codes, text_eq}
use e_bpf_kubernetes_operato.Common.Decimal.{decimal}
use e_bpf_kubernetes_operato.Common.Int64.{ge_int64}
use e_bpf_kubernetes_operato.Operator.Calls.{
  Result, ok, err, Action, pure, fetch, raise, raise_if, ◌>>=◌, ◌>>◌,
}

pub record PrometheusEvaluator : Type 0 where
  pub endpoint : Text
  pub metric_type : Text

abbrev pub new_prometheus_evaluator : Text → Text → PrometheusEvaluator
new_prometheus_evaluator endpoint metric_type = record {
  endpoint = endpoint;
  metric_type = if text_eq metric_type [] then codes "IO" else metric_type;
}

-- the label `pod_uid` of a sample, and what the evaluator reads of a pod
pub record Sample : Type 0 where
  pub pod_uid : Option Text

pub record PodItem : Type 0 where
  pub uid : Text
  pub name : Text

-- a vector, or a result of another type
pub data QueryResult : Type 0 where
  vector : List Sample → QueryResult
  other_type : QueryResult

pub data Error : Type 0 where
  empty_endpoint bad_window bad_threshold threshold_not_positive no_prometheus_client : Error
  unsupported_metric query_failed unexpected_type bad_selector list_failed : Error

-- the selector of a policy is opaque
pub record Client (S Selector : Type 0) : Type 0 where
  -- `model.ParseDuration` of Prometheus succeeds
  pub is_window : Text → Bool
  -- `time.ParseDuration`
  pub parse_duration : Text → Option ℕ
  -- `api.NewClient` succeeds
  pub is_address : Text → Bool
  pub query : S → Text → Option QueryResult
  -- `LabelSelectorAsSelector` succeeds
  pub is_selector : Selector → Bool
  pub list_pods : S → Text → Selector → Option (List PodItem)

-- the query of the ratio of two rates, and a line feed with three tabs between its lines
abbrev pub query_text : Text → Text → Text → ℕ → Text
query_text latency count window threshold =
    let next = 10 ∷ 9 ∷ 9 ∷ 9 ∷ [] in
    codes "(rate("
    ++ (latency
        ++ (codes "{kind=\"kubernetes\"}["
            ++ (window
                ++ (codes "])"
                    ++ (next
                        ++ (codes "  / ignoring() (rate("
                            ++ (count
                                ++ (codes "{kind=\"kubernetes\"}["
                                    ++ (window
                                        ++ (codes "]) > 0))"
                                            ++ (next
                                                ++ (codes "  > " ++ decimal threshold))))))))))))

unfoldable pub build_query : Text → Text → ℕ → Option Text
build_query metric_type window threshold =
    if text_eq metric_type (codes "CPU")
    then some (
        query_text (codes "ebpf_cpu_runq_latency_ns_total") (codes "ebpf_cpu_runq_events_total")
          window threshold)
    else if text_eq metric_type (codes "IO") || text_eq metric_type []
    then some (
        query_text (codes "ebpf_block_io_latency_ns_total") (codes "ebpf_block_io_count_total")
          window threshold)
    else none

-- `saturatedUIDs`: the identifiers of the samples that have one
unfoldable pub saturated_uids : List Sample → List Text
saturated_uids [] = []
saturated_uids (x ∷ xs) = elim x.pod_uid [
  | none ↦ saturated_uids xs
  | some uid ↦ let rest = saturated_uids xs in if text_eq uid [] then rest else uid ∷ rest
]

abbrev pub has_uid : List Text → Text → Bool
has_uid [] uid = false
has_uid (u ∷ us) uid = text_eq u uid || has_uid us uid

unfoldable pub saturated_names : List Text → List PodItem → List Text
saturated_names uids [] = []
saturated_names uids (p ∷ ps) =
    let rest = saturated_names uids ps in if has_uid uids p.uid then p.name ∷ rest else rest

module _ {S Selector : Type 0} (c : Client S Selector) where
  -- from the saturated identifiers on
  unfoldable pub saturated_pods : Text → Selector → List Text → Action S Error (List Text)
  saturated_pods namespace selector [] = pure []
  saturated_pods namespace selector (uid ∷ uids) = do
    raise_if (not (c.is_selector selector)) bad_selector
    pods ← fetch (λ s. c.list_pods s namespace selector) list_failed
    pure (saturated_names (uid ∷ uids) pods)

  abbrev pub vector_of : QueryResult → Action S Error (List Sample)
  vector_of (vector samples) = pure samples
  vector_of other_type = raise unexpected_type

  -- the checks before the query: its text
  unfoldable pub prepare : PrometheusEvaluator → Text → Text → Action S Error Text
  prepare e window threshold = do
    raise_if (text_eq e.endpoint []) empty_endpoint
    raise_if (not (c.is_window window)) bad_window
    ns ← fetch (λ s. c.parse_duration threshold) bad_threshold
    raise_if (ge_int64 0 ns) threshold_not_positive
    raise_if (not (c.is_address e.endpoint)) no_prometheus_client
    fetch (λ s. build_query e.metric_type window ns) unsupported_metric

  unfoldable pub evaluate :
      PrometheusEvaluator → Text → Selector → Text → Text → Action S Error (List Text)
  evaluate e namespace selector window threshold = do
    text ← prepare e window threshold
    result ← fetch (λ s. c.query s text) query_failed
    samples ← vector_of result
    saturated_pods namespace selector (saturated_uids samples)
