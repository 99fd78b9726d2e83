-- ===== src/Runq/Key.antt =====
-- The memory of a `struct runq_key_t`, by which the kernel compares keys.
use Prim.Native.String.{String}
use e_bpf_kubernetes_operato.Common.{
  ℕ, zero, suc, ◌/◌, ◌^◌, ◌<◌, ◌≡◌, refl, sym, ◌∙◌, ◌↔◌, ap, true, Option, none, some, List, [],
  ◌∷◌, ◌++◌, arith,
}
use e_bpf_kubernetes_operato.Common.Bytes.{
  bytes, from_bytes, length-bytes, from_bytes-bytes, append-injective,
}
use e_bpf_kubernetes_operato.Kernel.Layout.{CType, struct, field, done, ◌⨾◌, size, find}
use e_bpf_kubernetes_operato.Kernel.Types.Scalars.{u32, u64}
use e_bpf_kubernetes_operato.Runq.{RunqKey, same_key, same_key_iff}

unfoldable pub runq_key_type : CType
unfolding u32 u64
runq_key_type = struct (field "pid" u32 ⨾ field "start_time" u64 ⨾ done)

-- bytes written over the start of others, and over those at an offset
abbrev pub overwrite : List ℕ → List ℕ → List ℕ
overwrite [] old = old
overwrite (b ∷ bs) [] = []
overwrite (b ∷ bs) (x ∷ old) = b ∷ overwrite bs old

abbrev pub store : ℕ → List ℕ → List ℕ → List ℕ
store zero bs old = overwrite bs old
store (suc n) bs [] = []
store (suc n) bs (x ∷ old) = x ∷ store n bs old

abbrev pub store_found : Option (ℕ × CType) → ℕ → List ℕ → List ℕ
store_found none v mem = mem
store_found (some (n, t)) v mem = store (n / 8) (bytes (size t) v) mem

-- `k->name = v` at the place that the layout gives the field
abbrev pub store_field : String → ℕ → List ℕ → List ℕ
store_field name v mem = store_found (find runq_key_type name) v mem

abbrev zeros : ℕ → List ℕ
zeros zero = []
zeros (suc n) = 0 ∷ zeros n

-- `struct runq_key_t key = {}` sets every byte to zero, the padding too, and `fill_key` the fields
unfoldable pub key_memory : RunqKey → List ℕ
key_memory k =
    store_field "start_time" k.start_time (store_field "pid" k.pid (zeros (size runq_key_type)))

-- the layout leaves four bytes of padding after `pid`
key_memory-layout :
    (k : RunqKey) → key_memory k ≡ bytes 4 k.pid ++ (bytes 4 0 ++ bytes 8 k.start_time)
unfolding key_memory runq_key_type bytes size find
key_memory-layout k = refl

abbrev pub InRange : RunqKey → Type 0
InRange k = (k.pid < 2 ^ 32) × (k.start_time < 2 ^ 64)

bytes-injective : (n x y : ℕ) → x < 256 ^ n → y < 256 ^ n → bytes n x ≡ bytes n y → x ≡ y
bytes-injective n x y hx hy e =
    omega (arith, from_bytes-bytes n x hx, from_bytes-bytes n y hy, ap from_bytes e)

-- The kernel's comparison of two keys as memory, with the padding set to zero, is the comparison of
-- the process and its start time, for 32-bit and 64-bit values.
pub key_memory-injective :
    (a b : RunqKey) → InRange a → InRange b → (key_memory a ≡ key_memory b) ↔ (same_key a b ≡ true)
key_memory-injective a b ha hb = (
  λ e'.
      let e = sym (key_memory-layout a) ∙ e' ∙ key_memory-layout b in
      let pids =
        append-injective (bytes 4 a.pid) _ (bytes 4 b.pid) _
          (omega (arith, length-bytes 4 a.pid, length-bytes 4 b.pid)) e in
      let starts = append-injective (bytes 4 0) _ (bytes 4 0) _ refl pids.1 in
      let p = bytes-injective 4 a.pid b.pid (omega arith) (omega arith) pids.0 in
      let q = bytes-injective 8 a.start_time b.start_time (omega arith) (omega arith) starts.1 in
      (same_key_iff a b).1 (ground arith),
  λ e. rw ((same_key_iff a b).0 e),
)
