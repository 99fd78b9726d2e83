-- ===== src/Bpf/Create.antt =====
-- The lookup that both programs under ebpf/latency make of a cgroup's totals: where the key is
-- absent the zero value is put, and the key is looked up again, since the update may have failed.
use e_bpf_kubernetes_operato.Common.{
  Bool, true, not, ◌&&◌, ◌||◌, none, some, ◌≡◌, ◌↔◌, arith, if◌then◌else◌, is_some, value_or,
}
use e_bpf_kubernetes_operato.Bpf.Map.{BpfMap}

module _ {K V : Type 0} {same : K → K → Bool} (m : BpfMap K V same) where
  -- the key is there, or there is room for it
  abbrev pub admits : m.State → K → Bool
  admits s k = is_some (m.lookup s k) || not (m.rejects s k)

module _ {K V : Type 0} {same : K → K → Bool} (m : BpfMap K V same) (zero_value : V) where
  -- the key is absent: put the zero value, and look again
  unfoldable pub create_missing : m.State → K → Bool × m.State
  create_missing s k = let s' = m.update s k zero_value in (is_some (m.lookup s' k), s')

  -- whether the pointer is not null in the end, and the map
  unfoldable pub lookup_or_create : m.State → K → Bool × m.State
  unfolding create_missing
  lookup_or_create s k = elim (m.lookup s k) [ some v ↦ (true, s) | none ↦ create_missing s k ]

  module _ (iff : (a b : K) → (same a b ≡ true) ↔ (a ≡ b)) (s : m.State) (k : K) where
    pub lookup_or_create-found : (lookup_or_create s k).0 ≡ admits m s k
    unfolding lookup_or_create
    lookup_or_create-found = ground (
      arith,
      m.lookup-update s k k zero_value,
      m.lookup-update_rejected s k k zero_value,
      iff k k,
    )

    pub lookup-lookup_or_create :
        (j : K)
        → m.lookup (lookup_or_create s k).1 j ≡ (
            if admits m s k && same k j
            then some (value_or (m.lookup s k) zero_value)
            else m.lookup s j)
    unfolding lookup_or_create
    lookup-lookup_or_create j = ground (
      arith,
      m.lookup-update s k j zero_value,
      m.lookup-update_rejected s k j zero_value,
      iff k j,
    )
