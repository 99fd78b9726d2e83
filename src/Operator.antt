-- ===== src/Operator.antt =====
-- The Kubernetes operator (operator): what its remediation actions do to a saturated pod.
pub mod Evict
pub mod ScaleUp
pub mod Calls
pub mod Migrate
pub mod Evaluate
pub mod Reconcile
