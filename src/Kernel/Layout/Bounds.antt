-- ===== src/Kernel/Layout/Bounds.antt =====
-- A member that the search finds lies within its struct or union.
use Prim.Native.String.{String}
use text.Mathlib.Text.{◌==◌ as str_eq}
use e_bpf_kubernetes_operato.Common.{
  ℕ, ◌+◌, ◌*◌, ◌/◌, ◌≤◌, ◌<◌, Option, none, some, ◌≡◌, refl, ◌⊎◌, arith, Bool-cases, inl, inr,
}
use e_bpf_kubernetes_operato.Kernel.Layout.{
  CType, Member, Members, int, pointer, array, struct, union, field, bits, done, ◌⨾◌, align_up,
  align, align_members, size, after, extent, room, widest, or_else, shift, find, find_member,
  find_struct, find_union,
}

-- integers and the types of bit-fields take room
abbrev mutual
  pub IsSized : CType → Type 0
  IsSized (int n) = 0 < n
  IsSized pointer = Unit
  IsSized (array n t) = IsSized t
  IsSized (struct ms) = AreSized ms
  IsSized (union ms) = AreSized ms

  pub IsSizedMember : Member → Type 0
  IsSizedMember (field name t) = IsSized t
  IsSizedMember (bits name bytes width) = 0 < bytes

  pub AreSized : Members → Type 0
  AreSized done = Unit
  AreSized (m ⨾ ms) = IsSizedMember m × AreSized ms

align_up-ge : (n a : ℕ) → 0 < a → n ≤ align_up n a
align_up-ge n a h = grind arith

mutual
  unfolding align

  align-pos : (t : CType) → IsSized t → 0 < align t
  align-pos (int n) h = h
  align-pos pointer h = omega arith
  align-pos (array n t) h = align-pos t h
  align-pos (struct ms) h = align_members-pos ms h
  align-pos (union ms) h = align_members-pos ms h

  align_members-pos : (ms : Members) → AreSized ms → 0 < align_members ms
  align_members-pos done h = omega arith
  align_members-pos (m ⨾ ms) h = omega (arith, align_members-pos ms h.1)

after-ge : (m : Member) (cursor : ℕ) → IsSizedMember m → cursor ≤ after m cursor
unfolding after
after-ge (field name t) cursor h =
    omega (arith, align_up-ge cursor (8 * align t) (omega (arith, align-pos t h)))
after-ge (bits name bytes width) cursor h =
    ground (arith, align_up-ge cursor (8 * bytes) (omega arith))

extent-ge : (ms : Members) (cursor : ℕ) → AreSized ms → cursor ≤ extent ms cursor
unfolding extent
extent-ge done cursor h = omega arith
extent-ge (m ⨾ ms) cursor h =
    omega (arith, after-ge m cursor h.0, extent-ge ms (after m cursor) h.1)

size-struct : (ms : Members) → AreSized ms → extent ms 0 ≤ 8 * size (struct ms)
unfolding size
size-struct ms h =
    omega (arith, align_up-ge ((extent ms 0 + 7) / 8) (align_members ms) (align_members-pos ms h))

size-union : (ms : Members) → AreSized ms → widest ms ≤ size (union ms)
unfolding size
size-union ms h = align_up-ge (widest ms) (align_members ms) (align_members-pos ms h)

or_else-some :
    (o p : Option (ℕ × CType)) {r : ℕ × CType} → or_else o p ≡ some r → (o ≡ some r) ⊎ (p ≡ some r)
or_else-some none p h = inr h
or_else-some (some q) p h = inl h

shift-some :
    (k : ℕ) (o : Option (ℕ × CType)) {n : ℕ} {u : CType}
    → shift k o ≡ some (n, u)
    → (i : ℕ) × (o ≡ some (i, u)) × (n ≡ k + i)
shift-some k none h = ground arith
shift-some k (some (i, t)) h = (i, ground arith, ground arith)

-- a member starts where the search says, or an inner one does
member-cases :
    (own : String) (t : CType) (name : String) (cursor : ℕ) {n : ℕ} {u : CType}
    → find_member (field own t) name cursor ≡ some (n, u)
    → ((n ≡ align_up cursor (8 * align t)) × (u ≡ t))
      ⊎ ((i : ℕ) × (find t name ≡ some (i, u)) × (n ≡ align_up cursor (8 * align t) + i))
unfolding find_member
member-cases own t name cursor {n} {u} h =
    let start = align_up cursor (8 * align t) in
    elim (Bool-cases (str_eq own name)) [
      | inl same ↦ inl (ground (arith, same))
      | inr other ↦ elim (Bool-cases (str_eq own "")) [
        | inl anonymous ↦
            let inner : shift start (find t name) ≡ some (n, u) =
              ground (arith, other, anonymous) in
            inr (shift-some start (find t name) inner)
        | inr named ↦ absurd (ground (arith, other, named))
      ]
    ]

after-field :
    (own : String) (t : CType) (cursor : ℕ)
    → after (field own t) cursor ≡ align_up cursor (8 * align t) + 8 * size t
unfolding after
after-field own t cursor = refl

after-room : (own : String) (t : CType) → IsSized t → after (field own t) 0 ≤ 8 * room (field own t)
unfolding after
after-room own t h = let p = align-pos t h in grind arith

extent-cons : (m : Member) (ms : Members) (c : ℕ) → extent (m ⨾ ms) c ≡ extent ms (after m c)
unfolding extent
extent-cons m ms c = refl

widest-cons :
    (m : Member) (ms : Members) → (room m ≤ widest (m ⨾ ms)) × (widest ms ≤ widest (m ⨾ ms))
unfolding widest
widest-cons m ms = omega arith

mutual
  unfolding find

  find-in :
      (t : CType) (name : String) {n : ℕ} {u : CType}
      → IsSized t
      → find t name ≡ some (n, u)
      → n + 8 * size u ≤ 8 * size t
  find-in (int k) name s h = ground arith
  find-in pointer name s h = ground arith
  find-in (array k t) name s h = ground arith
  find-in (struct ms) name s h = omega (arith, find_struct-in ms name 0 s h, size-struct ms s)
  find-in (union ms) name s h = omega (arith, find_union-in ms name s h, size-union ms s)

  find_member-in :
      (m : Member) (name : String) (cursor : ℕ) {n : ℕ} {u : CType}
      → IsSizedMember m
      → find_member m name cursor ≡ some (n, u)
      → n + 8 * size u ≤ after m cursor
  find_member-in (field own t) name cursor s h = elim (member-cases own t name cursor h) [
    | inl (e, e') ↦ rw (e, e', after-field) (omega arith)
    | inr (i, e, e') ↦ omega (arith, find-in t name s e, after-field own t cursor)
  ]
  find_member-in (bits own bytes width) name cursor s h = ground arith

  find_struct-in :
      (ms : Members) (name : String) (cursor : ℕ) {n : ℕ} {u : CType}
      → AreSized ms
      → find_struct ms name cursor ≡ some (n, u)
      → n + 8 * size u ≤ extent ms cursor
  find_struct-in done name cursor s h = ground arith
  find_struct-in (m ⨾ ms) name cursor s h =
      elim (or_else-some (find_member m name cursor) (find_struct ms name (after m cursor)) h) [
        | inl e ↦ omega (
          arith,
          find_member-in m name cursor s.0 e,
          extent-ge ms (after m cursor) s.1,
          extent-cons m ms cursor,
        )
        | inr e ↦
            omega (arith, find_struct-in ms name (after m cursor) s.1 e, extent-cons m ms cursor)
      ]

  find_member_first-in :
      (m : Member) (name : String) {n : ℕ} {u : CType}
      → IsSizedMember m
      → find_member m name 0 ≡ some (n, u)
      → n + 8 * size u ≤ 8 * room m
  find_member_first-in (field own t) name s h = elim (member-cases own t name 0 h) [
    | inl (e, e') ↦ rw (e, e') (omega (arith, after-field own t 0, after-room own t s))
    | inr (i, e, e') ↦ omega (arith, find-in t name s e, after-field own t 0, after-room own t s)
  ]
  find_member_first-in (bits own bytes width) name s h = ground arith

  find_union-in :
      (ms : Members) (name : String) {n : ℕ} {u : CType}
      → AreSized ms
      → find_union ms name ≡ some (n, u)
      → n + 8 * size u ≤ 8 * widest ms
  find_union-in done name s h = ground arith
  find_union-in (m ⨾ ms) name s h =
      elim (or_else-some (find_member m name 0) (find_union ms name) h) [
        | inl e ↦ omega (arith, find_member_first-in m name s.0 e, widest-cons m ms)
        | inr e ↦ omega (arith, find_union-in ms name s.1 e, widest-cons m ms)
      ]

-- A member that the search by name finds, through anonymous structs and unions too, ends within the
-- type that holds it, whatever bit-fields and padding stand before it, if every integer in the type
-- takes room.
pub find-within :
    (t : CType) (name : String) {n : ℕ} {u : CType}
    → IsSized t
    → find t name ≡ some (n, u)
    → n + 8 * size u ≤ 8 * size t
find-within t name s h = find-in t name s h
