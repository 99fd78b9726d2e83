-- ===== src/Tests/Scaling.antt =====
-- Runs of the action that raises the limits of CPU.
use e_bpf_kubernetes_operato.Common.{
  ℕ, ◌+◌, ◌≤◌, ◌<◌, ◌≡◌, ◌⊎◌, map, if◌then◌else◌, refl, arith, none, some, true, List, [], ◌∷◌,
}
use e_bpf_kubernetes_operato.Common.Text.{Text, codes, text_eq}
use e_bpf_kubernetes_operato.Operator.ScaleUp.{
  Container, Pod, Client, resized, ScaleUpAction, execute, scale_pod, new_millis, step_millis,
  scale_container, scale_containers,
}
use e_bpf_kubernetes_operato.Operator.ScaleUp.Limits.{new_millis-bounds}
use e_bpf_kubernetes_operato.Operator.ScaleUp.Rounds.{
  after, all_resized, falls_back, execute-rounds,
}
use e_bpf_kubernetes_operato.Operator.ScaleUp.Verdict.{raised}

abbrev limited : Container
limited = record { name = codes "a"; cpu_limit = some 500; cpu_request = some 100 }

abbrev requested : Container
requested = record { name = codes "b"; cpu_limit = none; cpu_request = some 20 }

abbrev free : Container
free = record { name = codes "c"; cpu_limit = none; cpu_request = none }

abbrev containers : List Container
containers = limited ∷ requested ∷ free ∷ []

-- 20 percent of 500, the least step of 10, and no limit for the third one
scaled_once :
    (scale_containers 20 550 containers).1
    ≡ record limited { cpu_limit = some 550 } ∷ record requested { cpu_limit = some 30 } ∷ free ∷ []
unfolding scale_containers scale_container new_millis step_millis
scaled_once = refl

new_millis-bounds_example :
    (500 < new_millis 20 2000 500)
    × (new_millis 20 2000 500 ≤ 2000)
    × ((new_millis 20 2000 500 ≡ 2000) ⊎ (500 + 10 ≤ new_millis 20 2000 500))
new_millis-bounds_example = new_millis-bounds 20 2000 500 (omega arith) (omega arith) (omega arith)

-- the pods as they were resized; a maximum is read where it is given
abbrev client : Client (List Pod)
client = record {
  get_pod = λ s name namespace. some (record { containers = containers });
  resize = λ s wanted old. (true, wanted ∷ s);
  parse_quantity = λ text. if text_eq text [] then none else some 550;
}

abbrev action : ScaleUpAction (List Pod)
action = record { cpu_step_percent = 20; max_cpu_limit = codes "550m"; fallback_action = none }

abbrev pod : Pod
pod = record { containers = containers }

resized_once :
    execute client action (codes "p1") (codes "default") []
    ≡ (resized, record pod { containers = map (raised 20 550) containers } ∷ [])
unfolding execute scale_pod scale_containers scale_container new_millis step_millis
resized_once = refl

-- a cluster of one pod, and the action with a fallback that does nothing
abbrev one_pod : Client Pod
one_pod = record {
  get_pod = λ s name namespace. some s;
  resize = λ s wanted old. (true, wanted);
  parse_quantity = λ text. some 2000;
}

abbrev with_fallback : ScaleUpAction Pod
with_fallback = record {
  cpu_step_percent = 20;
  max_cpu_limit = codes "2000m";
  fallback_action = some (λ name namespace s. (true, s));
}

execute-rounds_example :
    (k : ℕ) × (k ≤ 198)
    × (all_resized one_pod with_fallback (codes "p1") (codes "default") k pod ≡ true)
    × (falls_back
          (execute one_pod with_fallback
            (codes "p1")
            (codes "default")
            (after one_pod with_fallback (codes "p1") (codes "default") k pod)).0
        ≡ true)
execute-rounds_example =
    execute-rounds one_pod with_fallback (codes "p1") (codes "default") 2000
      (λ s p wanted found. (refl, refl)) refl (λ b lt. omega arith) (omega arith) 198 1980 pod pod
      refl
      (
        (λ b e. ground arith),
        omega arith,
        ((λ b e. ground arith), omega arith, ((λ b e. ground arith), omega arith, tt)),
      )
      (omega arith)
