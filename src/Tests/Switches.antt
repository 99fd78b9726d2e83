-- ===== src/Tests/Switches.antt =====
-- Two switches on two processors, in an order in which their operations alternate.
use e_bpf_kubernetes_operato.Common.{
  ℕ, suc, ◌+◌, ◌<◌, ◌%◌, Bool, true, false, not, ◌&&◌, some, List, [], ◌∷◌, ◌≡◌, ◌≢◌, refl, ap,
  arith, ltb, if◌then◌else◌, ◌==◌,
}
use e_bpf_kubernetes_operato.Bpf.Write.{write_through}
use e_bpf_kubernetes_operato.Common.Words.{u64_mod, add64, sub64}
use e_bpf_kubernetes_operato.Common.Family.{sum_below}
use e_bpf_kubernetes_operato.Bpf.Table.{table}
use e_bpf_kubernetes_operato.Runq.{
  RunqKey, CgroupRunqStats, StartMap, same_key, same_key_iff, requeue_prev,
}
use e_bpf_kubernetes_operato.Runq.Steps.{Program, Phase, entered, ended, State, advance}
use e_bpf_kubernetes_operato.Runq.Interleave.{System, Number, number, turn, Reach, here, later}
use e_bpf_kubernetes_operato.Runq.Interleave.Conserved.{IsDistinct, shares, waits-interleaved}
use e_bpf_kubernetes_operato.Tests.Runq.{stats, task}

abbrev starts : StartMap
starts = table same_key same_key_iff 4

-- program 0 switches from a task that is still runnable, and program 1 from one that sleeps
abbrev programs : ℕ → Program
programs i =
    if i == 0
    then record { prev = task 10 0 8; next = task 11 0 7; now = 150; ts = 160 }
    else record { prev = task 12 1 8; next = task 13 0 7; now = 170; ts = 180 }

abbrev key : ℕ → RunqKey
key pid = record { pid = pid; start_time = 5 }

abbrev counted : CgroupRunqStats
counted = record { count = 1; total_latency_ns = 10 }

-- both next tasks wait, and their control group has totals
abbrev with_totals : State starts stats
with_totals = record {
  start_map = (key 11, 100) ∷ (key 13, 120) ∷ [];
  runq_stats_by_cgroup = (7, counted) ∷ [];
}

abbrev begin : State starts stats → System starts stats
begin s = record { phase = λ i. entered; maps = s }

abbrev schedule : List ℕ → System starts stats → System starts stats
schedule [] x = x
schedule (i ∷ is) x = schedule is (turn starts stats 2 programs i x)

abbrev order : List ℕ
order = 0 ∷ 1 ∷ 1 ∷ 0 ∷ 0 ∷ 1 ∷ 1 ∷ 0 ∷ 0 ∷ 1 ∷ 1 ∷ 0 ∷ []

both_counted : (schedule order (begin with_totals)).maps ≡ record {
  start_map = (key 10, 150) ∷ [];
  runq_stats_by_cgroup = (7, record { count = 3; total_latency_ns = 130 }) ∷ [];
}
unfolding advance requeue_prev add64 sub64 write_through
both_counted = refl

abbrev without_totals : State starts stats
without_totals = record with_totals { runq_stats_by_cgroup = [] }

-- both see that there are no totals, and the second one puts its zero value over the first one's
one_lost :
    (schedule
      (0 ∷ 0 ∷ 0 ∷ 0 ∷ 1 ∷ 1 ∷ 1 ∷ 1 ∷ 0 ∷ 0 ∷ 0 ∷ 0 ∷ 1 ∷ 1 ∷ 1 ∷ 1 ∷ [])
      (begin without_totals)).maps
    ≡ record {
      start_map = (key 10, 150) ∷ [];
      runq_stats_by_cgroup = (7, record { count = 1; total_latency_ns = 60 }) ∷ [];
    }
unfolding advance requeue_prev add64 sub64 write_through
one_lost = refl

abbrev is_ended : Phase → Bool
is_ended ended = true
is_ended _ = false

goes_on : (ph : Phase) → is_ended ph ≡ false → ph ≢ ended
goes_on ended h e = absurd (ground (arith, h))
goes_on ph h e = ground (arith, h, e)

-- a run goes on by one operation of a program that has not ended
and_turn :
    {k : ℕ} {x : System starts stats} (s : State starts stats) (i : ℕ)
    → Reach starts stats 2 programs (begin s) k x
    → ltb i 2 ≡ true
    → is_ended (x.phase i) ≡ false
    → Reach starts stats 2 programs (begin s) (suc k) (turn starts stats 2 programs i x)
and_turn s i r lt run = later i r (ground (arith, lt)) (goes_on _ run)

-- every turn of a schedule is of a program that has not ended
abbrev is_fair : List ℕ → System starts stats → Bool
is_fair [] x = true
is_fair (i ∷ is) x =
    ltb i 2 && not (is_ended (x.phase i)) && is_fair is (turn starts stats 2 programs i x)

abbrev count_turns : ℕ → List ℕ → ℕ
count_turns k [] = k
count_turns k (i ∷ is) = count_turns (suc k) is

schedule-Reach :
    {k : ℕ} (s : State starts stats) (is : List ℕ) (x : System starts stats)
    → Reach starts stats 2 programs (begin s) k x
    → is_fair is x ≡ true
    → Reach starts stats 2 programs (begin s) (count_turns k is) (schedule is x)
schedule-Reach s [] x r f = r
schedule-Reach s (i ∷ is) x r f =
    schedule-Reach s is (turn starts stats 2 programs i x)
      (and_turn s i r (ground (arith, f)) (ground (arith, f))) (ground (arith, f))

abbrev last : System starts stats
last = schedule order (begin with_totals)

last-Reach : Reach starts stats 2 programs (begin with_totals) 12 last
unfolding advance requeue_prev write_through
last-Reach = schedule-Reach with_totals order (begin with_totals) here refl

programs-IsDistinct : IsDistinct starts stats 2 programs 7
programs-IsDistinct = record {
  apart = λ i k lt lt' other e. ground (arith, lt, lt', other, ap (λ (x : RunqKey). x.pid) e);
  left = λ i k lt lt' e. ground (arith, lt, lt', ap (λ (x : RunqKey). x.pid) e);
}

last_ended : (i : ℕ) → i < 2 → last.phase i ≡ ended
unfolding advance requeue_prev write_through
last_ended i lt = ground (arith, lt)

waits-interleaved_example :
    (w : CgroupRunqStats) × (stats.lookup last.maps.runq_stats_by_cgroup 7 ≡ some w)
    × ((a : Number)
        → number a w % u64_mod
          ≡ (number a counted + sum_below 2 (shares starts stats 2 programs 7 a with_totals))
            % u64_mod)
waits-interleaved_example =
    waits-interleaved starts stats 2 programs 7 with_totals counted programs-IsDistinct refl
      last-Reach last_ended
