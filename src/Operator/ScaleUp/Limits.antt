-- ===== src/Operator/ScaleUp/Limits.antt =====
-- The limits that the action writes, where no product or sum leaves the range of an int64.
use e_bpf_kubernetes_operato.Common.{
  ℕ, ◌+◌, ◌*◌, ◌/◌, ◌%◌, ◌≤◌, ◌<◌, ◌^◌, ◌≡◌, leb, arith, if◌then◌else◌, ap, ◌∙◌, ◌⊎◌,
}
use e_bpf_kubernetes_operato.Common.Int64.{ge_int64, mul_int64, add_int64, div_int64}
use e_bpf_kubernetes_operato.Operator.ScaleUp.{step_millis, new_millis}

pub ge_int64_small : (x y : ℕ) → x < 2 ^ 63 → y < 2 ^ 63 → ge_int64 x y ≡ leb y x
ge_int64_small x y lx ly = ground arith

div_int64_small : (x d : ℕ) → x < 2 ^ 63 → div_int64 x d ≡ x / d
div_int64_small x d lx = ground arith

mod_small : (x : ℕ) → x < 2 ^ 63 → x % 2 ^ 64 ≡ x
mod_small x lx = omega arith

div_small : (x : ℕ) → x < 2 ^ 63 → x / 100 < 2 ^ 57
div_small x lx = omega arith

-- the greater of 10 and the percentage
abbrev pub raise : ℕ → ℕ → ℕ
raise percent current = let step = current * percent / 100 in if leb 10 step then step else 10

step_millis-raise :
    (percent current : ℕ)
    → current * percent < 2 ^ 63
    → step_millis percent current ≡ raise percent current
unfolding step_millis
step_millis-raise percent current small =
    let p = current * percent in
    let step : div_int64 (mul_int64 current percent) 100 ≡ p / 100 =
      ap (λ x. div_int64 x 100) (mod_small p small) ∙ div_int64_small p 100 small in
    ap (λ x. if ge_int64 x 10 then x else 10) step
    ∙ ap (λ b. if b then p / 100 else 10)
        (ge_int64_small (p / 100) 10 (omega (arith, div_small p small)) (omega arith))

raise_small : (percent current : ℕ) → current * percent < 2 ^ 63 → raise percent current < 2 ^ 57
raise_small percent current small = ground (arith, div_small (current * percent) small)

pub new_millis-raise :
    (percent max current : ℕ)
    → current * percent < 2 ^ 63
    → max < 2 ^ 62
    → current < max
    → new_millis percent max current
      ≡ (let new = current + raise percent current in if leb max new then max else new)
unfolding new_millis
new_millis-raise percent max current small small_max below =
    let step = raise percent current in
    let bound : step < 2 ^ 57 = raise_small percent current small in
    let sum : add_int64 current (step_millis percent current) ≡ current + step =
      ap (λ x. add_int64 current x) (step_millis-raise percent current small)
      ∙ mod_small (current + step) (omega arith) in
    ap (λ x. if ge_int64 x max then max else x) sum
    ∙ ap (λ b. if b then max else current + step)
        (ge_int64_small (current + step) max (omega arith) (omega arith))

-- Where the product of the current limit and the percentage is below 2 ^ 63 and the maximum below
-- 2 ^ 62: the new limit of a container below the maximum is higher than the current one by 10 at
-- least, or the maximum, and never above it.
pub new_millis-bounds :
    (percent max current : ℕ)
    → current * percent < 2 ^ 63
    → max < 2 ^ 62
    → current < max
    → (current < new_millis percent max current)
      × (new_millis percent max current ≤ max)
      × ((new_millis percent max current ≡ max) ⊎ (current + 10 ≤ new_millis percent max current))
new_millis-bounds percent max current small small_max below =
    ground (arith, new_millis-raise percent max current small small_max below)
