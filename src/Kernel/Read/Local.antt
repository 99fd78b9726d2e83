-- ===== src/Kernel/Read/Local.antt =====
-- What a read of a field depends on, and its range.
use Prim.Native.String.{String}
use native.Mathlib.Nat.{pow-suc, add-zero}
use e_bpf_kubernetes_operato.Common.{
  ℕ, zero, suc, ◌+◌, ◌/◌, ◌^◌, ◌<◌, ◌≡◌, refl, arith, Option-cases, inl, inr,
}
use e_bpf_kubernetes_operato.Kernel.Layout.{CType, size, find}
use e_bpf_kubernetes_operato.Kernel.Layout.Bounds.{IsSized, find-within}
use e_bpf_kubernetes_operato.Kernel.Read.{Memory, load, core_read}

load-local :
    (n : ℕ) (m m' : Memory) (a : ℕ)
    → ((i : ℕ) → i < n → m (a + i) ≡ m' (a + i))
    → load n m a ≡ load n m' a
unfolding load
load-local zero m m' a h = refl
load-local (suc n) m m' a h =
    let here : m a ≡ m' a = rw (← add-zero a) (h 0 (omega arith)) in
    let rest =
      load-local n m m' (a + 1)
        (λ i lt. let e : a + 1 + i ≡ a + suc i = omega arith in rw e (h (suc i) (omega arith))) in
    rw (here, rest)

pub load-lt : (n : ℕ) (m : Memory) (a : ℕ) → load n m a < 256 ^ n
unfolding load
load-lt zero m a = omega arith
load-lt (suc n) m a = omega (arith, load-lt n m (a + 1), pow-suc 256 n)

-- The value of a field depends on the bytes of its struct alone: two memories that agree on them
-- give the same value, whatever the field.
pub core_read-local :
    (t : CType) (name : String) (m m' : Memory) (a : ℕ)
    → IsSized t
    → ((i : ℕ) → i < size t → m (a + i) ≡ m' (a + i))
    → core_read t name m a ≡ core_read t name m' a
core_read-local t name m m' a s h = elim (Option-cases (find t name)) [
  | inl e ↦ unfold core_read in rw e
  | inr ((n, u), e) ↦
      unfold core_read in
      rw e (
        load-local (size u) m m' (a + n / 8) (λ i lt.
          let inside = find-within t name s e in
          let same : a + n / 8 + i ≡ a + (n / 8 + i) = omega arith in
          rw same (h (n / 8 + i) (omega arith))))
]
