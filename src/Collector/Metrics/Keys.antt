-- ===== src/Collector/Metrics/Keys.antt =====
-- The key of a pod's series and its labels.
use e_bpf_kubernetes_operato.Common.{
  Bool, true, not, ◌&&◌, ◌==◌, ◌≡◌, ◌↔◌, ap, refl, arith, ◌∙◌, sym, [], ◌∷◌, ◌++◌, some,
}
use e_bpf_kubernetes_operato.Common.Text.{Text}
use e_bpf_kubernetes_operato.Collector.Classify.{CgroupKind, host, kind_text}
use e_bpf_kubernetes_operato.Collector.Rows.{Row}
use e_bpf_kubernetes_operato.Collector.Metrics.{labels_of, key_of, split_key, labels_from_key}

-- no separator in the text
abbrev is_plain : Text → Bool
is_plain [] = true
is_plain (b ∷ s) = not (b == b'|') && is_plain s

split_key-plain :
    (kind uid : Text)
    → is_plain kind ≡ true
    → split_key (kind ++ (b'|' ∷ uid)) ≡ some (record { kind = kind; pod_uid = uid })
unfolding split_key
split_key-plain [] uid h = refl
split_key-plain (b ∷ kind) uid h = ground (arith, split_key-plain kind uid)

kind_text-plain : (k : CgroupKind) → is_plain (kind_text k) ≡ true
kind_text-plain host = refl
kind_text-plain _ = refl

-- The labels that are read back from the key of a row's series are the row's labels, whatever the
-- identifier of the pod: the series that a disappeared pod's key deletes is the one that was made.
pub labels_from_key-key_of : (r : Row) → labels_from_key (key_of (labels_of r)) ≡ labels_of r
unfolding labels_from_key
labels_from_key-key_of r = ground (
  arith,
  split_key-plain (kind_text r.cgroup_kind) r.kube_info.pod_uid (kind_text-plain r.cgroup_kind),
)

-- Two rows have one key exactly when they have the same labels.
pub key_of-injective :
    (r q : Row) → (key_of (labels_of r) ≡ key_of (labels_of q)) ↔ (labels_of r ≡ labels_of q)
key_of-injective r q = (
  λ e. sym (labels_from_key-key_of r) ∙ ap labels_from_key e ∙ labels_from_key-key_of q,
  λ e. ap key_of e,
)
