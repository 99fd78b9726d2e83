-- ===== src/Operator/Evict/Taints.antt =====
-- The taints that the action leaves on a node.
use e_bpf_kubernetes_operato.Common.Int.{ℤ, pos, negsuc}
use e_bpf_kubernetes_operato.Common.{
  Option, none, ltb, ℕ, Bool, true, false, not, ◌&&◌, ◌||◌, some, List, [], ◌∷◌, ◌++◌, ◌≡◌,
  Option-cases, ap, refl, arith, if◌then◌else◌, inl, inr,
}
use e_bpf_kubernetes_operato.Common.Text.{text_eq_iff}
use e_bpf_kubernetes_operato.Operator.Evict.{
  Taint, EvictAndTaintAction, is_ours, is_removed, prune, new_taint, desired_taints,
}

-- no duration, or a positive one: a taint that is added now is not expired
abbrev pub is_lasting : Option ℤ → Bool
is_lasting none = true
is_lasting (some (pos d)) = ltb 0 d
is_lasting (some (negsuc d)) = false

module _ (a : EvictAndTaintAction) (now : ℕ) where
  -- the taints of other keys
  abbrev pub others : List Taint → List Taint
  others [] = []
  others (t ∷ ts) = let rest = others ts in if is_ours a now t then rest else t ∷ rest

  -- our taints that are not expired
  abbrev pub fresh : List Taint → List Taint
  fresh [] = []
  fresh (t ∷ ts) =
      let rest = fresh ts in if is_ours a now t && not (is_removed a now t) then t ∷ rest else rest

  abbrev pub is_empty : List Taint → Bool
  is_empty [] = true
  is_empty (t ∷ ts) = false

  abbrev pub has_expired : List Taint → Bool
  has_expired [] = false
  has_expired (t ∷ ts) = is_removed a now t || has_expired ts

  prune-present : (ts : List Taint) → (prune a now ts).0 ≡ not (is_empty (fresh ts))
  unfolding prune
  prune-present [] = refl
  prune-present (t ∷ ts) = ground (arith, prune-present ts)

  others-prune : (ts : List Taint) → others (prune a now ts).1 ≡ others ts
  unfolding prune
  others-prune [] = refl
  others-prune (t ∷ ts) = ground (arith, others-prune ts)

  fresh-prune : (ts : List Taint) → fresh (prune a now ts).1 ≡ fresh ts
  unfolding prune
  fresh-prune [] = refl
  fresh-prune (t ∷ ts) = ground (arith, fresh-prune ts)

  has_expired-prune : (ts : List Taint) → has_expired (prune a now ts).1 ≡ false
  unfolding prune
  has_expired-prune [] = refl
  has_expired-prune (t ∷ ts) = ground (arith, has_expired-prune ts)

  others-append : (ts us : List Taint) → others (ts ++ us) ≡ others ts ++ others us
  others-append [] us = refl
  others-append (t ∷ ts) us = ground (arith, others-append ts us)

  fresh-append : (ts us : List Taint) → fresh (ts ++ us) ≡ fresh ts ++ fresh us
  fresh-append [] us = refl
  fresh-append (t ∷ ts) us = ground (arith, fresh-append ts us)

  has_expired-append :
      (ts us : List Taint) → has_expired (ts ++ us) ≡ (has_expired ts || has_expired us)
  has_expired-append [] us = refl
  has_expired-append (t ∷ ts) us = ground (arith, has_expired-append ts us)

  append_nil : (ts : List Taint) → ts ++ [] ≡ ts
  append_nil [] = refl
  append_nil (t ∷ ts) = ap (◌∷◌ t) (append_nil ts)

  new_taint-is_ours : is_ours a now (new_taint a now) ≡ true
  new_taint-is_ours = (text_eq_iff a.taint_key a.taint_key).1 refl

  new_taint-fresh : is_lasting a.taint_duration ≡ true → is_removed a now (new_taint a now) ≡ false
  new_taint-fresh h = elim (Option-cases a.taint_duration) [
    | inl e ↦ ground (arith, e)
    | inr (pos d, e) ↦ ground (arith, e, h)
    | inr (negsuc d, e) ↦ absurd (ground (arith, e, h))
  ]

  -- Where no duration is given, or a positive one: taints of other keys stay as they are and in their order, and
  -- so do those of the action's key that are not expired; where there is none of these, one new
  -- taint stands for them; no expired taint of the action's key stays.
  pub desired_taints_lem :
      is_lasting a.taint_duration ≡ true
      → (ts : List Taint)
      → (others (desired_taints a now ts) ≡ others ts)
        × (fresh (desired_taints a now ts)
            ≡ (if is_empty (fresh ts) then new_taint a now ∷ [] else fresh ts))
        × (has_expired (desired_taints a now ts) ≡ false)
  unfolding desired_taints
  desired_taints_lem h ts =
      let pruned = (prune a now ts).1 in
      let added = new_taint a now ∷ [] in
      (
        ground (
          arith,
          prune-present ts,
          others-prune ts,
          others-append pruned added,
          new_taint-is_ours,
          append_nil (others ts),
        ),
        ground (
          arith,
          prune-present ts,
          fresh-prune ts,
          fresh-append pruned added,
          new_taint-is_ours,
          new_taint-fresh h,
        ),
        ground (
          arith,
          prune-present ts,
          has_expired-prune ts,
          has_expired-append pruned added,
          new_taint-fresh h,
        ),
      )
