-- ===== src/Bpf/Table.antt =====
-- A bounded table with the behaviour that `BpfMap` asks for: it shows that the programs' assumptions
-- on the kernel's maps can be met, and runs in the tests.
use e_bpf_kubernetes_operato.Common.{
  refl, ℕ, Bool, true, false, not, ◌&&◌, Option, none, some, List, [], ◌∷◌, ◌≡◌, ◌↔◌, arith, leb,
  if◌then◌else◌, length, is_some,
}
use e_bpf_kubernetes_operato.Bpf.Map.{BpfMap}

module _ {K V : Type 0} (same : K → K → Bool) where
  abbrev pub find : List (K × V) → K → Option V
  find [] j = none
  find ((k, v) ∷ t) j = if same k j then some v else find t j

  abbrev pub put : List (K × V) → K → V → List (K × V)
  put [] k v = (k, v) ∷ []
  put ((j, w) ∷ t) k v = if same j k then (k, v) ∷ t else (j, w) ∷ put t k v

  abbrev pub remove : List (K × V) → K → List (K × V)
  remove [] k = []
  remove ((j, w) ∷ t) k = let rest = remove t k in if same j k then rest else (j, w) ∷ rest

  abbrev pub amend : List (K × V) → K → (V → V) → List (K × V)
  amend [] k f = []
  amend ((j, w) ∷ t) k f = if same j k then (j, f w) ∷ t else (j, w) ∷ amend t k f

  abbrev pub is_full : ℕ → List (K × V) → K → Bool
  is_full max_entries t k = not (is_some (find t k)) && leb max_entries (length t)

module _ {K V : Type 0} (same : K → K → Bool) (iff : (a b : K) → (same a b ≡ true) ↔ (a ≡ b)) where
  pub find-put :
      (t : List (K × V)) (k j : K) (v : V)
      → find same (put same t k v) j ≡ (if same k j then some v else find same t j)
  find-put [] k j v = ground arith
  find-put ((i, w) ∷ t) k j v = ground (arith, find-put t k j v, iff i k, iff i j, iff k j)

  pub find-remove :
      (t : List (K × V)) (k j : K)
      → find same (remove same t k) j ≡ (if same k j then none else find same t j)
  find-remove [] k j = ground arith
  find-remove ((i, w) ∷ t) k j = ground (arith, find-remove t k j, iff i k, iff i j, iff k j)

  pub find-amend :
      (t : List (K × V)) (k j : K) (v : V) (f : V → V)
      → find same t k ≡ some v
      → find same (amend same t k f) j ≡ (if same k j then some (f v) else find same t j)
  find-amend [] k j v f h = ground arith
  find-amend ((i, w) ∷ t) k j v f h =
      ground (arith, find-amend t k j v f, iff i k, iff i j, iff k j)

module _ {K V : Type 0} (same : K → K → Bool) (iff : (a b : K) → (same a b ≡ true) ↔ (a ≡ b))
    (max_entries : ℕ) where
  abbrev pub update : List (K × V) → K → V → List (K × V)
  update t k v = if is_full same max_entries t k then t else put same t k v

  pub find-update :
      (t : List (K × V)) (k j : K) (v : V)
      → is_full same max_entries t k ≡ false
      → find same (update t k v) j ≡ (if same k j then some v else find same t j)
  find-update t k j v h = ground (arith, find-put same iff t k j v)

  pub find-update_rejected :
      (t : List (K × V)) (k j : K) (v : V)
      → is_full same max_entries t k ≡ true
      → find same (update t k v) j ≡ find same t j
  find-update_rejected t k j v h = ground arith

  -- the table changes a value where it is, so that no element is ever replaced
  abbrev pub table : BpfMap K V same
  table = record {
    State = List (K × V);
    lookup = find same;
    rejects = is_full same max_entries;
    update = update;
    delete = remove same;
    write = amend same;
    element = λ t k. 0;
    lookup-update = find-update;
    lookup-update_rejected = find-update_rejected;
    lookup-delete = find-remove same iff;
    lookup-write = find-amend same iff;
    element-update = λ t k j v other. refl;
    element-write = λ t k j f. refl;
  }
