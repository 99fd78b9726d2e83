-- ===== src/Common/Text.antt =====
-- Go's strings as lists of bytes: equality, `strings.Contains` and `strings.ReplaceAll` of one byte.
use Prim.Native.Char.{code}
use Prim.Native.String.{String}
use mathlib.Core.List.{append_assoc}
use e_bpf_kubernetes_operato.Common.{
  ℕ, Bool, true, false, ◌&&◌, ◌||◌, List, [], ◌∷◌, ◌++◌, ◌≡◌, ◌↔◌, refl, ap, inl, inr, Bool-cases,
  arith, ◌==◌, ==_iff, if◌then◌else◌, ◌∙◌,
}

abbrev pub Text : Type 0
Text = List ℕ

-- the bytes of an ASCII literal
abbrev pub codes : String → Text
codes String.[] = []
codes (String.◌∷◌ c s) = code c ∷ codes s

abbrev pub text_eq : Text → Text → Bool
text_eq [] [] = true
text_eq [] (y ∷ t) = false
text_eq (x ∷ s) [] = false
text_eq (x ∷ s) (y ∷ t) = x == y && text_eq s t

pub text_eq_iff : (s t : Text) → (text_eq s t ≡ true) ↔ (s ≡ t)
text_eq_iff [] [] = ground arith
text_eq_iff [] (y ∷ t) = ground arith
text_eq_iff (x ∷ s) [] = ground arith
text_eq_iff (x ∷ s) (y ∷ t) = ground (arith, text_eq_iff s t, ==_iff x y)

abbrev pub starts_with : Text → Text → Bool
starts_with s [] = true
starts_with [] (y ∷ t) = false
starts_with (x ∷ s) (y ∷ t) = x == y && starts_with s t

unfoldable pub contains : Text → Text → Bool
contains [] t = starts_with [] t
contains (x ∷ s) t = starts_with (x ∷ s) t || contains s t

abbrev pub replace_byte : ℕ → ℕ → Text → Text
replace_byte old new [] = []
replace_byte old new (x ∷ s) = (if x == old then new else x) ∷ replace_byte old new s

starts_with-split : (s t : Text) → starts_with s t ≡ true → (post : Text) × (s ≡ t ++ post)
starts_with-split s [] h = (s, refl)
starts_with-split [] (y ∷ t) h = absurd (ground arith)
starts_with-split (x ∷ s) (y ∷ t) h =
    let (post, e) = starts_with-split s t (ground arith) in
    let same : x ≡ y = ground arith in (post, cc)

starts_with-append : (t post : Text) → starts_with (t ++ post) t ≡ true
starts_with-append [] post = refl
starts_with-append (y ∷ t) post = ground (arith, ==_iff y y, starts_with-append t post)

-- A text that contains another is that text between two others.
pub contains-split :
    (s t : Text) → contains s t ≡ true → (pre : Text) × (post : Text) × (s ≡ pre ++ (t ++ post))
unfolding contains
contains-split [] [] h = ([], [], refl)
contains-split [] (y ∷ t) h = absurd (ground arith)
contains-split (x ∷ s) t h = elim (Bool-cases (starts_with (x ∷ s) t)) [
  | inl here ↦ let (post, e) = starts_with-split (x ∷ s) t here in ([], post, e)
  | inr later ↦
      let (pre, post, e) = contains-split s t (ground (arith, later)) in
      (x ∷ pre, post, ap (λ (l : Text). x ∷ l) e)
]

contains-here : (s t : Text) → starts_with s t ≡ true → contains s t ≡ true
unfolding contains
contains-here [] t h = h
contains-here (x ∷ s) t h = ground (arith, h)

pub contains-append : (pre t post : Text) → contains (pre ++ (t ++ post)) t ≡ true
unfolding contains
contains-append [] t post = contains-here (t ++ post) t (starts_with-append t post)
contains-append (x ∷ pre) t post = ground (arith, contains-append pre t post)

-- what contains a text contains its parts
pub contains-part :
    (s pre t post : Text) → contains s (pre ++ (t ++ post)) ≡ true → contains s t ≡ true
contains-part s pre t post h =
    let (a, b, e) = contains-split s (pre ++ (t ++ post)) h in
    let e' : s ≡ (a ++ pre) ++ (t ++ (post ++ b)) = e ∙ simp append_assoc in
    rw e' (contains-append (a ++ pre) t (post ++ b))
