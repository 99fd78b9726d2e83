-- ===== src/Operator/ScaleUp/Verdict.antt =====
-- An execution of the action as a whole, beside one in numbers without bounds.
use e_bpf_kubernetes_operato.Common.{
  ℕ, ◌+◌, Bool, false, ◌||◌, none, some, List, [], ◌∷◌, ltb, leb, if◌then◌else◌,
}
use e_bpf_kubernetes_operato.Common.Text.{Text}
use e_bpf_kubernetes_operato.Operator.ScaleUp.{Container, baseline}
use e_bpf_kubernetes_operato.Operator.ScaleUp.Limits.{raise}
use e_bpf_kubernetes_operato.Operator.ScaleUp.Rounds.{IsSmall}

-- a container with a limit or a request below the maximum
abbrev pub has_room : ℕ → Container → Bool
has_room max c = elim (baseline c) [ none ↦ false | some b ↦ ltb b max ]

abbrev pub any_room : ℕ → List Container → Bool
any_room max [] = false
any_room max (c ∷ cs) = has_room max c || any_room max cs

abbrev pub least : ℕ → ℕ → ℕ
least x y = if leb x y then x else y

-- the container with the limit that it is to have
abbrev pub raised : ℕ → ℕ → Container → Container
raised percent max c =
    if has_room max c
    then record c {
      cpu_limit = elim (baseline c) [
        | none ↦ none
        | some b ↦ some (least max (b + raise percent b))
      ];
    }
    else c

abbrev pub AreSmall : List Container → Type 0
AreSmall [] = Unit
AreSmall (c ∷ cs) = IsSmall c × AreSmall cs
