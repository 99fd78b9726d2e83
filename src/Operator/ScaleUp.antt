-- ===== src/Operator/ScaleUp.antt =====
-- operator/pkg/action/scale_up.go: `Execute` of `ScaleUpAction`. A quantity of CPU is the value of
-- its `MilliValue`; an int64 is its bit pattern (Common/Int64), and the percentage is its conversion
-- to int64. The client of the API server, the parser of quantities and the fallback are parameters.
pub mod Limits
pub mod Rounds
pub mod Verdict
use e_bpf_kubernetes_operato.Common.{
  ℕ, ◌+◌, ◌-◌, ◌*◌, ◌/◌, ◌%◌, ◌^◌, Bool, true, false, ◌||◌, Option, none, some, List, [], ◌∷◌, ltb,
  leb, if◌then◌else◌,
}
use e_bpf_kubernetes_operato.Common.Text.{Text}
use e_bpf_kubernetes_operato.Common.Int64.{ge_int64, mul_int64, add_int64, div_int64}

-- what the action reads of a container, and the limit that it writes
pub record Container : Type 0 where
  pub name : Text
  pub cpu_limit : Option ℕ
  pub cpu_request : Option ℕ

pub record Pod : Type 0 where
  pub containers : List Container

-- the explicit limit, or the request
abbrev pub baseline : Container → Option ℕ
baseline c = elim c.cpu_limit [ some q ↦ some q | none ↦ c.cpu_request ]

unfoldable pub step_millis : ℕ → ℕ → ℕ
step_millis percent current =
    let step = div_int64 (mul_int64 current percent) 100 in if ge_int64 step 10 then step else 10

unfoldable pub new_millis : ℕ → ℕ → ℕ → ℕ
unfolding step_millis
new_millis percent max current =
    let new = add_int64 current (step_millis percent current) in
    if ge_int64 new max then max else new

-- one container: whether there was headroom, and the container after it
unfoldable pub scale_container : ℕ → ℕ → Container → Bool × Container
unfolding new_millis
scale_container percent max c = elim (baseline c) [
  | none ↦ (false, c)
  | some current ↦
      if ge_int64 current max
      then (false, c)
      else (true, record c { cpu_limit = some (new_millis percent max current) })
]

-- the loop: `changed` and `anyHeadroom` are set together
unfoldable pub scale_containers : ℕ → ℕ → List Container → Bool × List Container
scale_containers percent max [] = (false, [])
scale_containers percent max (c ∷ cs) =
    let (headroom, c') = scale_container percent max c in
    let (any_headroom, cs') = scale_containers percent max cs in
    (headroom || any_headroom, c' ∷ cs')

pub record Client (S : Type 0) : Type 0 where
  pub get_pod : S → Text → Text → Option Pod
  -- `Patch` of the subresource `resize` with the pod as it is to be, and as it was
  pub resize : S → Pod → Pod → Bool × S
  pub parse_quantity : Text → Option ℕ

-- what `Execute` returns; the fallback has its own error
pub data Outcome : Type 0 where
  resized no_pod bad_limit resize_failed no_fallback : Outcome
  fell_back : Bool → Outcome

pub record ScaleUpAction (S : Type 0) : Type 0 where
  pub cpu_step_percent : ℕ
  pub max_cpu_limit : Text
  pub fallback_action : Option (Text → Text → S → Bool × S)

module _ {S : Type 0} (c : Client S) where
  -- after the loop, with nothing to change
  abbrev fall_back : ScaleUpAction S → Text → Text → S → Outcome × S
  fall_back a pod_name namespace s = elim a.fallback_action [
    | none ↦ (no_fallback, s)
    | some fallback ↦ let (ok, s') = fallback pod_name namespace s in (fell_back ok, s')
  ]

  unfoldable pub scale_pod : ScaleUpAction S → ℕ → Text → Text → Pod → S → Outcome × S
  scale_pod a max pod_name namespace pod s =
      let (changed, containers) = scale_containers a.cpu_step_percent max pod.containers in
      if changed
      then (let (ok, s') = c.resize s (record pod { containers = containers }) pod in
          (if ok then resized else resize_failed, s'))
      else fall_back a pod_name namespace s

  unfoldable pub execute : ScaleUpAction S → Text → Text → S → Outcome × S
  unfolding scale_pod
  execute a pod_name namespace s = elim (c.get_pod s pod_name namespace) [
    | none ↦ (no_pod, s)
    | some pod ↦ elim (c.parse_quantity a.max_cpu_limit) [
      | none ↦ (bad_limit, s)
      | some max ↦ scale_pod a max pod_name namespace pod s
    ]
  ]
