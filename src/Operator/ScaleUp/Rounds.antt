-- ===== src/Operator/ScaleUp/Rounds.antt =====
-- What the action makes of the containers of a pod, and of the pod where it is executed again and
-- again.
use mathlib.Core.Path.{subst}
use e_bpf_kubernetes_operato.Common.{
  ℕ, Bool, ◌&&◌, zero, suc, ◌-◌, ◌*◌, ◌≤◌, ◌<◌, ◌^◌, true, false, none, some, List, [], ◌∷◌, ◌≡◌,
  ◌⊎◌, ltb, leb, refl, arith, Option-cases, Bool-cases, inl, inr, ap, ◌∙◌,
}
use e_bpf_kubernetes_operato.Common.Text.{Text}
use e_bpf_kubernetes_operato.Common.Int64.{}
use e_bpf_kubernetes_operato.Operator.ScaleUp.{
  Pod, Client, Outcome, ScaleUpAction, resized, no_fallback, fell_back, scale_pod, execute,
  Container, baseline, new_millis, scale_container, scale_containers,
}
use e_bpf_kubernetes_operato.Operator.ScaleUp.Limits.{ge_int64_small, new_millis-bounds}

-- how far the limit of a container is below the maximum
abbrev pub gap : ℕ → Container → ℕ
gap max c = elim (baseline c) [ none ↦ 0 | some b ↦ max - b ]

-- the baseline is no negative int64
abbrev pub IsSmall : Container → Type 0
IsSmall c = (b : ℕ) → baseline c ≡ some b → b < 2 ^ 63

-- all gaps are at most the given one
abbrev pub AreWithin : ℕ → ℕ → List Container → Type 0
AreWithin max d [] = Unit
AreWithin max d (c ∷ cs) = IsSmall c × (gap max c ≤ d) × AreWithin max d cs

module _ (percent max : ℕ) (small : (b : ℕ) → b < max → b * percent < 2 ^ 63)
    (small_max : max < 2 ^ 62) where
  -- the container stays, at the maximum or without a baseline, or gets a higher limit
  scale_container-cases :
      (c : Container)
      → IsSmall c
      → ((scale_container percent max c ≡ (false, c)) × (gap max c ≡ 0))
        ⊎ ((n : ℕ) × (scale_container percent max c ≡ (true, record c { cpu_limit = some n }))
            × (n ≤ max)
            × (0 < gap max c)
            × (max - n ≤ gap max c - 10))
  unfolding scale_container
  scale_container-cases c w = elim (Option-cases (baseline c)) [
    | inl e ↦ inl (ground (arith, e), ground (arith, e))
    | inr (b, e) ↦
        let ge = ge_int64_small b max (w b e) (omega arith) in
        elim (Bool-cases (leb max b)) [
          | inl full ↦ inl (ground (arith, e, ge, full), ground (arith, e, full))
          | inr room ↦
              let below : b < max = ground (arith, room) in
              let bounds = new_millis-bounds percent max b (small b below) small_max below in
              let here : gap max c ≡ max - b = ground (arith, e) in
              inr (
                new_millis percent max b,
                ground (arith, e, ge, room),
                bounds.1,
                omega (arith, here),
                ground (arith, here, bounds),
              )
        ]
  ]

  scale_container-headroom :
      (c : Container) → IsSmall c → (scale_container percent max c).0 ≡ ltb 0 (gap max c)
  scale_container-headroom c w = elim (scale_container-cases c w) [
    | inl (e, z) ↦ ap (λ r. r.0) e ∙ ground (arith, z)
    | inr (n, e, _, pos, _) ↦ ap (λ r. r.0) e ∙ ground (arith, pos)
  ]

  scale_container-IsSmall : (c : Container) → IsSmall c → IsSmall (scale_container percent max c).1
  scale_container-IsSmall c w = elim (scale_container-cases c w) [
    | inl (e, z) ↦ rw e w
    | inr (n, e, le, _, _) ↦ rw e (λ b same. ground (arith, same, le))
  ]

  gap-scale_container :
      (c : Container) → IsSmall c → gap max (scale_container percent max c).1 ≤ gap max c - 10
  gap-scale_container c w = elim (scale_container-cases c w) [
    | inl (e, z) ↦ rw e (omega (arith, z))
    | inr (n, e, _, _, less) ↦ rw e less
  ]

  scale_containers-AreWithin :
      (d : ℕ) (cs : List Container)
      → AreWithin max d cs
      → AreWithin max (d - 10) (scale_containers percent max cs).1
  unfolding scale_containers
  scale_containers-AreWithin d [] w = tt
  scale_containers-AreWithin d (c ∷ cs) w =
      let less = gap-scale_container c w.0 in
      (scale_container-IsSmall c w.0, omega (arith, less, w.1), scale_containers-AreWithin d cs w.2)

  scale_containers-full :
      (cs : List Container) → AreWithin max 0 cs → (scale_containers percent max cs).0 ≡ false
  unfolding scale_containers
  scale_containers-full [] w = refl
  scale_containers-full (c ∷ cs) w =
      ground (arith, scale_container-headroom c w.0, scale_containers-full cs w.2, w.1)

abbrev pub is_resized : Outcome → Bool
is_resized resized = true
is_resized _ = false

-- the outcomes of an execution that finds no headroom
abbrev pub falls_back : Outcome → Bool
falls_back no_fallback = true
falls_back (fell_back ok) = true
falls_back _ = false

module _ {S : Type 0} (c : Client S) (a : ScaleUpAction S) (pod_name namespace : Text) where
  -- a resize of the pod succeeds, and the pod is then the one that was sent
  abbrev pub StoresPod : Type 0
  StoresPod =
      (s : S) (pod wanted : Pod)
      → c.get_pod s pod_name namespace ≡ some pod
      → ((c.resize s wanted pod).0 ≡ true)
        × (c.get_pod (c.resize s wanted pod).1 pod_name namespace ≡ some wanted)

  -- the state after some executions, and whether all of them have resized the pod
  abbrev pub after : ℕ → S → S
  after zero s = s
  after (suc n) s = after n (execute c a pod_name namespace s).1

  abbrev pub all_resized : ℕ → S → Bool
  all_resized zero s = true
  all_resized (suc n) s =
      let rest = all_resized n (execute c a pod_name namespace s).1 in
      is_resized (execute c a pod_name namespace s).0 && rest

  module _ (max : ℕ) (s : S) (pod : Pod) (found : c.get_pod s pod_name namespace ≡ some pod)
      (parsed : c.parse_quantity a.max_cpu_limit ≡ some max) where
    abbrev scaled : Bool × List Container
    scaled = scale_containers a.cpu_step_percent max pod.containers

    execute-full : scaled.0 ≡ false → falls_back (execute c a pod_name namespace s).0 ≡ true
    unfolding execute scale_pod
    execute-full full = elim (Option-cases a.fallback_action) [
      | inl e ↦ ground (arith, found, parsed, full, e)
      | inr (f, e) ↦ ground (arith, found, parsed, full, e)
    ]

    execute-resized :
        StoresPod
        → scaled.0 ≡ true
        → ((execute c a pod_name namespace s).0 ≡ resized)
          × (c.get_pod (execute c a pod_name namespace s).1 pod_name namespace
              ≡ some (record pod { containers = scaled.1 }))
    unfolding execute scale_pod
    execute-resized stores room =
        let (ok, there) = stores s pod (record pod { containers = scaled.1 }) found in
        (ground (arith, found, parsed, room, ok), ground (arith, found, parsed, room, there))

  module _ (max : ℕ) (stores : StoresPod) (parsed : c.parse_quantity a.max_cpu_limit ≡ some max)
      (small : (b : ℕ) → b < max → b * a.cpu_step_percent < 2 ^ 63) (small_max : max < 2 ^ 62) where
    -- Let every resize of the pod succeed and be stored, no product with the percentage leave the
    -- range of an int64, the baselines not be negative, the maximum be below 2 ^ 62 and no container
    -- further below it than `d`. Then after at most `n` executions, with 10 n not less than `d`,
    -- that all resize the pod, the next one finds no headroom and falls back, or ends with the error
    -- that there is no fallback.
    pub execute-rounds :
        (n d : ℕ) (s : S) (pod : Pod)
        → c.get_pod s pod_name namespace ≡ some pod
        → AreWithin max d pod.containers
        → d ≤ n * 10
        → (k : ℕ) × (k ≤ n)
          × (all_resized k s ≡ true)
          × (falls_back (execute c a pod_name namespace (after k s)).0 ≡ true)
    execute-rounds zero d s pod found w le =
        let none_left : d ≡ 0 = omega arith in
        let full =
          scale_containers-full a.cpu_step_percent max small small_max pod.containers
            (subst (λ x. AreWithin max x pod.containers) none_left w) in
        (0, omega arith, refl, execute-full max s pod found parsed full)
    execute-rounds (suc n) d s pod found w le =
        let cs = scale_containers a.cpu_step_percent max pod.containers in
        elim (Bool-cases cs.0) [
          | inr full ↦ (0, omega arith, refl, execute-full max s pod found parsed full)
          | inl room ↦
              let (out, there) = execute-resized max s pod found parsed stores room in
              let (k, few, all, ends) =
                execute-rounds n (d - 10) (execute c a pod_name namespace s).1
                  (record pod { containers = cs.1 }) there
                  (scale_containers-AreWithin a.cpu_step_percent max small small_max d
                    pod.containers w)
                  (omega arith) in
              (suc k, omega arith, ground (arith, out, all), ends)
        ]
