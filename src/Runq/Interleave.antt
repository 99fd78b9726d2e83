-- ===== src/Runq/Interleave.antt =====
-- Switches on several processors at once, in any order of their operations, while other tasks wake
-- up: what each still has to add to the totals of a control group.
pub mod Own
pub mod Others
pub mod Conserved
use e_bpf_kubernetes_operato.Common.{
  ℕ, suc, ◌<◌, Bool, true, false, Option, none, some, ◌≡◌, ◌≢◌, ◌==◌, if◌then◌else◌,
}
use e_bpf_kubernetes_operato.Common.Words.{sub64}
use e_bpf_kubernetes_operato.Runq.{
  CgroupRunqStats, Task, StartMap, StatsMap, fill_key, handle_wakeup,
}
use e_bpf_kubernetes_operato.Runq.Steps.{
  Program, Phase, entered, looking, removing, finding, creating, rechecking, counting, timing,
  ended, State, cgroup_of, advance,
}

-- the two numbers of a control group
pub data Number : Type 0 where
  waits latency : Number

abbrev pub number : Number → CgroupRunqStats → ℕ
number waits v = v.count
number latency v = v.total_latency_ns

-- what a wait of some length adds to each
abbrev pub amount : Number → ℕ → ℕ
amount waits delta = 1
amount latency delta = delta

-- whether a phase comes before the addition to the number
abbrev pub is_due : Number → Phase → Bool
is_due a ended = false
is_due waits (timing delta ptr) = false
is_due a ph = true

module _ (starts : StartMap) (stats : StatsMap) where
  -- the wait that a start gives
  abbrev pub wait_from : Program → Option ℕ → Option ℕ
  wait_from p none = none
  wait_from p (some tsp) = some (sub64 p.ts tsp)

  -- the wait of a program's next task: its local variable, or what the program is going to find
  abbrev pub wait_of : Program → Phase → State starts stats → Option ℕ
  wait_of p entered s = wait_from p (starts.lookup s.start_map (fill_key p.next))
  wait_of p looking s = wait_from p (starts.lookup s.start_map (fill_key p.next))
  wait_of p (removing tsp) s = wait_from p (some tsp)
  wait_of p (finding delta) s = some delta
  wait_of p (creating delta) s = some delta
  wait_of p (rechecking delta) s = some delta
  wait_of p (counting delta ptr) s = some delta
  wait_of p (timing delta ptr) s = some delta
  wait_of p ended s = none

  -- what a program adds to a number of a control group, its wait given
  abbrev pub share : Number → ℕ → Program → Option ℕ → ℕ
  share a j p none = 0
  share a j p (some delta) = if cgroup_of starts stats p == j then amount a delta else 0

  -- what a program has still to add to a number of a control group
  abbrev pub owed : Number → ℕ → Program → Phase → State starts stats → ℕ
  owed a j p ph s = if is_due a ph then share a j p (wait_of p ph s) else 0

  -- the processors, each with its program, and the maps that they share
  pub record System : Type 0 where
    pub phase : ℕ → Phase
    pub maps : State starts stats

  -- the phases after processor `i` has gone on to one
  abbrev pub moved : (ℕ → Phase) → ℕ → Phase → ℕ → Phase
  moved phase i ph k = if i == k then ph else phase k

  module _ (n : ℕ) (programs : ℕ → Program) where
    -- processor `i` does the next operation of its program
    abbrev pub turn : ℕ → System → System
    turn i s =
        let (ph, maps) = advance starts stats (programs i) (s.phase i) s.maps in
        record { phase = moved s.phase i ph; maps = maps }

    -- what is reached by so many operations of the programs, and by wakeups of tasks that none of
    -- them switches to
    pub data Reach (s : System) : ℕ → System → Type 0 where
      here : Reach s 0 s
      later :
          {k : ℕ} {t : System} (i : ℕ)
          → Reach s k t
          → i < n
          → t.phase i ≢ ended
          → Reach s (suc k) (turn i t)
      woken :
          {k : ℕ} {t : System} (task : Task) (ts : ℕ)
          → Reach s k t
          → ((i : ℕ) → i < n → fill_key task ≢ fill_key (programs i).next)
          → Reach s k (record t { maps = handle_wakeup starts stats task ts t.maps })
