-- ===== src/Block/Interleave.antt =====
-- Completions of requests on several processors at once, in any order of their operations, while
-- requests are issued: what each still has to add to the totals of a cgroup.
pub mod Own
pub mod Others
pub mod Conserved
use e_bpf_kubernetes_operato.Common.{
  ℕ, suc, ◌<◌, Bool, true, false, ◌&&◌, Option, none, some, ◌≡◌, ◌≢◌, arith, ◌==◌, if◌then◌else◌,
  is_some,
}
use e_bpf_kubernetes_operato.Common.Words.{sub64}
use e_bpf_kubernetes_operato.Common.Family.{sum_below}
use e_bpf_kubernetes_operato.Block.{
  StartVal, CgroupIoStats, Request, Completion, StartMap, StatsMap, Maps, block_rq_issue,
}
use e_bpf_kubernetes_operato.Block.Steps.{
  Program, Phase, entered, looking, creating, rechecking, counting, timing, sizing, failing,
  leaving, ended, State, advance,
}

-- the four numbers of a cgroup
pub data Number : Type 0 where
  operations latency bytes errors : Number

abbrev pub number : Number → CgroupIoStats → ℕ
number operations v = v.io_count
number latency v = v.total_latency_ns
number bytes v = v.total_bytes
number errors v = v.error_count

-- what a completion adds to each
abbrev pub amount : Number → Program → StartVal → ℕ
amount operations p start = 1
amount latency p start = sub64 p.now start.ts_ns
amount bytes p start = start.bytes
amount errors p start = if p.completion.error == 0 then 0 else 1

-- whether a phase comes before the addition to the number
abbrev pub is_due : Number → Phase → Bool
is_due a (counting start ptr) = true
is_due operations (timing start ptr) = false
is_due a (timing start ptr) = true
is_due bytes (sizing start ptr) = true
is_due errors (sizing start ptr) = true
is_due a (sizing start ptr) = false
is_due errors (failing start ptr) = true
is_due a (failing start ptr) = false
is_due a leaving = false
is_due a ended = false
is_due a ph = true

module _ (starts : StartMap) (stats : StatsMap) where
  -- the start value of a program: its local variable, or what it is going to find
  abbrev pub start_of : Program → Phase → State starts stats → Option StartVal
  start_of p entered s = starts.lookup s.start_map p.completion.rq
  start_of p (looking start) s = some start
  start_of p (creating start) s = some start
  start_of p (rechecking start) s = some start
  start_of p (counting start ptr) s = some start
  start_of p (timing start ptr) s = some start
  start_of p (sizing start ptr) s = some start
  start_of p (failing start ptr) s = some start
  start_of p leaving s = none
  start_of p ended s = none

  -- what a program adds to a number of a cgroup, its start value given
  abbrev pub share : Number → ℕ → Program → Option StartVal → ℕ
  share a j p none = 0
  share a j p (some start) = if start.cgroup_id == j then amount a p start else 0

  -- what a program has still to add to a number of a cgroup
  abbrev pub owed : Number → ℕ → Program → Phase → State starts stats → ℕ
  owed a j p ph s = if is_due a ph then share a j p (start_of p ph s) else 0

  -- the processors, each with its program, and the maps that they share
  pub record System : Type 0 where
    pub phase : ℕ → Phase
    pub maps : State starts stats

  -- the phases after processor `i` has gone on to one
  abbrev pub moved : (ℕ → Phase) → ℕ → Phase → ℕ → Phase
  moved phase i ph k = if i == k then ph else phase k

  module _ (n : ℕ) (programs : ℕ → Program) where
    -- processor `i` does the next operation of its program
    abbrev pub turn : ℕ → System → System
    turn i s =
        let (ph, maps) = advance starts stats (programs i) (s.phase i) s.maps in
        record { phase = moved s.phase i ph; maps = maps }

    -- what is reached by so many operations of the programs, and by issues of requests that none of
    -- them completes
    pub data Reach (s : System) : ℕ → System → Type 0 where
      here : Reach s 0 s
      later :
          {k : ℕ} {t : System} (i : ℕ)
          → Reach s k t
          → i < n
          → t.phase i ≢ ended
          → Reach s (suc k) (turn i t)
      issued :
          {k : ℕ} {t : System} (rq : Request) (now current_cgroup : ℕ)
          → Reach s k t
          → ((i : ℕ) → i < n → (programs i).completion.rq ≢ rq.address)
          → Reach s k (record t { maps = block_rq_issue starts stats rq now current_cgroup t.maps })
