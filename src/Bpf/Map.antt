-- ===== src/Bpf/Map.antt =====
-- The kernel's hash maps, as the programs under ebpf/latency use them: the helpers
-- `bpf_map_lookup_elem`, `bpf_map_update_elem` with `BPF_ANY` and `bpf_map_delete_elem`, and a write
-- through the pointer that a lookup returned. The kernel is not part of the repository, so a map is
-- a parameter with its documented behaviour; `Bpf/Table.antt` is a table that has it.
use e_bpf_kubernetes_operato.Common.{ℕ, Bool, true, false, Option, none, some, ◌≡◌, if◌then◌else◌}

pub record BpfMap (K V : Type 0) (same : K → K → Bool) : Type 1 where
  pub State : Type 0
  pub lookup : State → K → Option V
  -- whether an update of the key would return an error: the map is full and has no such key
  pub rejects : State → K → Bool
  pub update : State → K → V → State
  pub delete : State → K → State
  -- a write through the pointer to the key's value
  pub write : State → K → (V → V) → State
  -- the address of the key's element, which a lookup of a key that is there returns
  pub element : State → K → ℕ
  pub lookup-update :
      (s : State) (k j : K) (v : V)
      → rejects s k ≡ false
      → lookup (update s k v) j ≡ (if same k j then some v else lookup s j)
  pub lookup-update_rejected :
      (s : State) (k j : K) (v : V) → rejects s k ≡ true → lookup (update s k v) j ≡ lookup s j
  pub lookup-delete :
      (s : State) (k j : K) → lookup (delete s k) j ≡ (if same k j then none else lookup s j)
  pub lookup-write :
      (s : State) (k j : K) (v : V) (f : V → V)
      → lookup s k ≡ some v
      → lookup (write s k f) j ≡ (if same k j then some (f v) else lookup s j)
  -- an update may put a new element in the place of the key's own, and leaves those of other keys
  pub element-update :
      (s : State) (k j : K) (v : V) → same k j ≡ false → element (update s k v) j ≡ element s j
  pub element-write : (s : State) (k j : K) (f : V → V) → element (write s k f) j ≡ element s j
