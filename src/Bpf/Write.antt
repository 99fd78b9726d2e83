-- ===== src/Bpf/Write.antt =====
-- A write through the pointer that a lookup returned, as the other keys of the map see it.
use e_bpf_kubernetes_operato.Common.{
  ℕ, ◌==◌, ==_iff, Bool, true, some, ◌≡◌, ◌↔◌, arith, is_some, Option-cases, inl, inr,
  if◌then◌else◌,
}
use e_bpf_kubernetes_operato.Bpf.Map.{BpfMap}

module _ {K V : Type 0} {same : K → K → Bool} (m : BpfMap K V same)
    (iff : (a b : K) → (same a b ≡ true) ↔ (a ≡ b)) (s : m.State) (k : K) (f : V → V)
    (there : is_some (m.lookup s k) ≡ true) where
  -- a key that is there stays there
  pub is_some-write :
      (j : K) → is_some (m.lookup s j) ≡ true → is_some (m.lookup (m.write s k f) j) ≡ true
  is_some-write j h = elim (Option-cases (m.lookup s k)) [
    | inl e ↦ absurd (ground (arith, e, there))
    | inr (x, e) ↦ ground (arith, h, m.lookup-write s k j x f e)
  ]

  -- and its value is changed where it is the key that is written to
  pub lookup-write_there :
      (j : K) (v : V)
      → m.lookup s j ≡ some v
      → m.lookup (m.write s k f) j ≡ some (if same k j then f v else v)
  lookup-write_there j v h = elim (Option-cases (m.lookup s k)) [
    | inl e ↦ absurd (ground (arith, e, there))
    | inr (x, e) ↦ ground (arith, e, h, iff k j, m.lookup-write s k j x f e)
  ]

-- A write through a pointer that was looked up before. Where the element was replaced since, it is
-- lost: the map has another one.
unfoldable pub write_through :
    {K V : Type 0} {same : K → K → Bool} (m : BpfMap K V same) → m.State → ℕ → K → (V → V) → m.State
write_through m s ptr k f = if ptr == m.element s k then m.write s k f else s

module _ {V : Type 0} (m : BpfMap ℕ V ◌==◌) (j : ℕ) where
  -- the key is there, and a pointer to its element is up to date where it is the key `j`
  abbrev pub IsPointer : m.State → ℕ → ℕ → Type 0
  IsPointer s ptr k =
      (is_some (m.lookup s k) ≡ true) × ((if k == j then ptr == m.element s j else true) ≡ true)

  module _ (s : m.State) (ptr k : ℕ) (f : V → V) (w : IsPointer s ptr k) where
    pub is_some-write_through :
        (i : ℕ)
        → is_some (m.lookup s i) ≡ true
        → is_some (m.lookup (write_through m s ptr k f) i) ≡ true
    unfolding write_through
    is_some-write_through i h = ground (arith, h, is_some-write m ==_iff s k f w.0 i h)

    pub element-write_through : m.element (write_through m s ptr k f) j ≡ m.element s j
    unfolding write_through
    element-write_through = ground (arith, m.element-write s k j f)

    -- the totals of `j` have the change if they are written to, and the pointer stays one
    pub lookup-write_through :
        (v : V)
        → m.lookup s j ≡ some v
        → (m.lookup (write_through m s ptr k f) j ≡ some (if k == j then f v else v))
          × IsPointer (write_through m s ptr k f) ptr k
    lookup-write_through v h = (
      unfold write_through in
          ground (arith, h, w.1, ==_iff k j, lookup-write_there m ==_iff s k f w.0 j v h),
      (is_some-write_through k w.0, rw element-write_through w.1),
    )
