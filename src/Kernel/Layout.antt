-- ===== src/Kernel/Layout.antt =====
-- How a C compiler for x86-64 lays out the types of ebpf/vmlinux.h: sizes, alignments, the places of
-- bit-fields, and the offset of a field, by which `BPF_CORE_READ` finds it.
pub mod Bounds
use Prim.Native.Nat.{max}
use Prim.Native.String.{String}
use text.Mathlib.Text.{◌==◌ as str_eq}
use e_bpf_kubernetes_operato.Common.{ℕ, ◌+◌, ◌-◌, ◌*◌, ◌/◌, Option, none, some, ◌==◌, if◌then◌else◌}

-- An integer or an enumeration has its size for its alignment. A member with no name is an anonymous
-- struct or union, whose members count as those of the struct around it, or a bit-field that only
-- takes room.
mutual
  pub data CType : Type 0 where
    int : ℕ → CType
    pointer : CType
    array : ℕ → CType → CType
    struct : Members → CType
    union : Members → CType

  pub data Member : Type 0 where
    field : String → CType → Member
    bits : String → ℕ → ℕ → Member

  pub data Members : Type 0 where
    done : Members
    ◌⨾◌ : Member → Members → Members

infixr 20 ◌⨾◌
infixr 20 ◌+++◌
unfoldable pub ◌+++◌ : Members → Members → Members
done +++ ns = ns
(m ⨾ ms) +++ ns = m ⨾ (ms +++ ns)

abbrev pub align_up : ℕ → ℕ → ℕ
align_up n a = (n + a - 1) / a * a

-- the bit where a bit-field of `width` bits starts: it does not cross a unit of its type
abbrev pub bit_start : ℕ → ℕ → ℕ → ℕ
bit_start cursor unit width =
    if cursor / unit == (cursor + width - 1) / unit then cursor else align_up cursor unit

unfoldable mutual
  pub align : CType → ℕ
  align (int n) = n
  align pointer = 8
  align (array n t) = align t
  align (struct ms) = align_members ms
  align (union ms) = align_members ms

  pub align_member : Member → ℕ
  align_member (field name t) = align t
  align_member (bits name bytes width) = if str_eq name "" then 1 else bytes

  pub align_members : Members → ℕ
  align_members done = 1
  align_members (m ⨾ ms) = max (align_member m) (align_members ms)

-- sizes are in bytes; `extent` gives the bit after the last member from the bit before the first
unfoldable mutual
  unfolding align

  pub size : CType → ℕ
  size (int n) = n
  size pointer = 8
  size (array n t) = n * size t
  size (struct ms) = align_up ((extent ms 0 + 7) / 8) (align_members ms)
  size (union ms) = align_up (widest ms) (align_members ms)

  pub after : Member → ℕ → ℕ
  after (field name t) cursor = align_up cursor (8 * align t) + 8 * size t
  after (bits name bytes width) cursor = bit_start cursor (8 * bytes) width + width

  pub extent : Members → ℕ → ℕ
  extent done cursor = cursor
  extent (m ⨾ ms) cursor = extent ms (after m cursor)

  pub room : Member → ℕ
  room (field name t) = size t
  room (bits name bytes width) = bytes

  pub widest : Members → ℕ
  widest done = 0
  widest (m ⨾ ms) = max (room m) (widest ms)

-- an offset and a type, if the first search does not fail
abbrev pub or_else : Option (ℕ × CType) → Option (ℕ × CType) → Option (ℕ × CType)
or_else none o = o
or_else (some p) o = some p

abbrev pub shift : ℕ → Option (ℕ × CType) → Option (ℕ × CType)
shift n none = none
shift n (some (k, t)) = some (n + k, t)

-- the bit where a named member starts, and its type; `cursor` is the bit after what stands before
unfoldable mutual
  unfolding align size

  pub find : CType → String → Option (ℕ × CType)
  find (int n) name = none
  find pointer name = none
  find (array n t) name = none
  find (struct ms) name = find_struct ms name 0
  find (union ms) name = find_union ms name

  pub find_member : Member → String → ℕ → Option (ℕ × CType)
  find_member (field own t) name cursor =
      let inner = find t name in
      if str_eq own name
      then some (align_up cursor (8 * align t), t)
      else if str_eq own ""
      then shift (align_up cursor (8 * align t)) inner
      else none
  find_member (bits own bytes width) name cursor = none

  pub find_struct : Members → String → ℕ → Option (ℕ × CType)
  find_struct done name cursor = none
  find_struct (m ⨾ ms) name cursor =
      or_else (find_member m name cursor) (find_struct ms name (after m cursor))

  pub find_union : Members → String → Option (ℕ × CType)
  find_union done name = none
  find_union (m ⨾ ms) name = or_else (find_member m name 0) (find_union ms name)

-- the offset in bytes, as `offsetof`
unfoldable pub offset_of : CType → String → Option ℕ
unfolding find size
offset_of t name = elim (find t name) [ none ↦ none | some (n, found) ↦ some (n / 8) ]
