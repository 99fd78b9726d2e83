-- ===== src/Tests/Interleave.antt =====
-- Two completions on two processors, in several orders of their operations.
use e_bpf_kubernetes_operato.Common.{
  ℕ, suc, ◌+◌, ◌<◌, ◌%◌, Bool, true, false, not, ◌&&◌, some, List, [], ◌∷◌, ◌≡◌, ◌≢◌, refl, arith,
  ltb, if◌then◌else◌, ◌==◌,
}
use e_bpf_kubernetes_operato.Bpf.Write.{write_through}
use e_bpf_kubernetes_operato.Common.Words.{u64_mod, add64, sub64}
use e_bpf_kubernetes_operato.Common.Family.{sum_below}
use e_bpf_kubernetes_operato.Block.{StartVal, CgroupIoStats}
use e_bpf_kubernetes_operato.Block.Steps.{Program, Phase, entered, ended, State, advance}
use e_bpf_kubernetes_operato.Block.Interleave.{System, Number, number, turn, Reach, here, later}
use e_bpf_kubernetes_operato.Block.Interleave.Conserved.{IsDistinct, shares, totals-interleaved}
use e_bpf_kubernetes_operato.Tests.Block.{starts, stats}

-- program 0 completes the request 1, with an error, and program 1 the request 2
abbrev programs : ℕ → Program
programs i =
    if i == 0
    then record { completion = record { rq = 1; error = 5; nr_bytes = 0 }; now = 160 }
    else record { completion = record { rq = 2; error = 0; nr_bytes = 0 }; now = 170 }

abbrev flying : List (ℕ × StartVal)
flying =
    (1, record { ts_ns = 100; bytes = 512; cgroup_id = 7 })
    ∷ (2, record { ts_ns = 100; bytes = 256; cgroup_id = 7 })
    ∷ []

abbrev counted : CgroupIoStats
counted = record { io_count = 1; total_latency_ns = 10; total_bytes = 64; error_count = 0 }

-- the cgroup 7 has totals, or has none
abbrev with_totals : State starts stats
with_totals = record { start_map = flying; stats_by_cgroup = (7, counted) ∷ [] }

abbrev without_totals : State starts stats
without_totals = record { start_map = flying; stats_by_cgroup = [] }

abbrev begin : State starts stats → System starts stats
begin s = record { phase = λ i. entered; maps = s }

abbrev schedule : List ℕ → System starts stats → System starts stats
schedule [] x = x
schedule (i ∷ is) x = schedule is (turn starts stats 2 programs i x)

-- each looks the totals up, and then they take turns
both_counted :
    (schedule (0 ∷ 1 ∷ 0 ∷ 1 ∷ 1 ∷ 0 ∷ 0 ∷ 1 ∷ 1 ∷ 0 ∷ 0 ∷ 1 ∷ 0 ∷ []) (begin with_totals)).maps
    ≡ record {
      start_map = [];
      stats_by_cgroup =
          (7, record { io_count = 3; total_latency_ns = 140; total_bytes = 832; error_count = 1 })
          ∷ [];
    }
unfolding advance add64 sub64 write_through
both_counted = refl

-- both see that there are no totals, and the second one puts its zero value over the first one's
one_lost :
    (schedule
      (0 ∷ 1 ∷ 0 ∷ 1 ∷ 0 ∷ 0 ∷ 0 ∷ 0 ∷ 0 ∷ 0 ∷ 0 ∷ 1 ∷ 1 ∷ 1 ∷ 1 ∷ 1 ∷ 1 ∷ [])
      (begin without_totals)).maps
    ≡ record {
      start_map = [];
      stats_by_cgroup =
          (7, record { io_count = 1; total_latency_ns = 70; total_bytes = 256; error_count = 0 })
          ∷ [];
    }
unfolding advance add64 sub64 write_through
one_lost = refl

abbrev is_ended : Phase → Bool
is_ended ended = true
is_ended _ = false

goes_on : (ph : Phase) → is_ended ph ≡ false → ph ≢ ended
goes_on ended h e = absurd (ground (arith, h))
goes_on ph h e = ground (arith, h, e)

-- a run goes on by one operation of a program that has not ended
and_turn :
    {k : ℕ} {x : System starts stats} (s : State starts stats) (i : ℕ)
    → Reach starts stats 2 programs (begin s) k x
    → ltb i 2 ≡ true
    → is_ended (x.phase i) ≡ false
    → Reach starts stats 2 programs (begin s) (suc k) (turn starts stats 2 programs i x)
and_turn s i r lt run = later i r (ground (arith, lt)) (goes_on _ run)

abbrev order : List ℕ
order = 0 ∷ 1 ∷ 0 ∷ 1 ∷ 1 ∷ 0 ∷ 0 ∷ 1 ∷ 1 ∷ 0 ∷ 0 ∷ 1 ∷ 0 ∷ []

-- every turn of a schedule is of a program that has not ended
abbrev is_fair : List ℕ → System starts stats → Bool
is_fair [] x = true
is_fair (i ∷ is) x =
    ltb i 2 && not (is_ended (x.phase i)) && is_fair is (turn starts stats 2 programs i x)

abbrev count_turns : ℕ → List ℕ → ℕ
count_turns k [] = k
count_turns k (i ∷ is) = count_turns (suc k) is

schedule-Reach :
    {k : ℕ} (s : State starts stats) (is : List ℕ) (x : System starts stats)
    → Reach starts stats 2 programs (begin s) k x
    → is_fair is x ≡ true
    → Reach starts stats 2 programs (begin s) (count_turns k is) (schedule is x)
schedule-Reach s [] x r f = r
schedule-Reach s (i ∷ is) x r f =
    schedule-Reach s is (turn starts stats 2 programs i x)
      (and_turn s i r (ground (arith, f)) (ground (arith, f))) (ground (arith, f))

abbrev last : System starts stats
last = schedule order (begin with_totals)

last-Reach : Reach starts stats 2 programs (begin with_totals) 13 last
unfolding advance write_through
last-Reach = schedule-Reach with_totals order (begin with_totals) here refl

programs-IsDistinct : IsDistinct starts stats 2 programs 7
programs-IsDistinct i k lt lt' other e = ground (arith, lt, lt', other, e)

last_ended : (i : ℕ) → i < 2 → last.phase i ≡ ended
unfolding advance write_through
last_ended i lt = ground (arith, lt)

totals-interleaved_example :
    (w : CgroupIoStats) × (stats.lookup last.maps.stats_by_cgroup 7 ≡ some w)
    × ((a : Number)
        → number a w % u64_mod
          ≡ (number a counted + sum_below 2 (shares starts stats 2 programs 7 a with_totals))
            % u64_mod)
totals-interleaved_example =
    totals-interleaved starts stats 2 programs 7 with_totals counted programs-IsDistinct refl
      last-Reach last_ended
