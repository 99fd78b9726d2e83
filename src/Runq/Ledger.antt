-- ===== src/Runq/Ledger.antt =====
-- What the programs of runq_latency.c promise: an account of the tasks that wait for a processor and
-- of the finished waits of each cgroup, in numbers that do not wrap. The maps hold its residues.
pub mod Refinement
use e_bpf_kubernetes_operato.Common.{
  ℕ, ◌+◌, ◌-◌, ◌%◌, ◌≤◌, ◌<◌, true, false, Option, none, some, ◌≡◌, ◌∙◌, arith, ◌==◌, if◌then◌else◌,
  value_or, Option-cases, inl, inr, List, [], ◌∷◌,
}
use e_bpf_kubernetes_operato.Common.Words.{u64_mod, add64, sub64-eq-sub}
use e_bpf_kubernetes_operato.Bpf.Create.{admits}
use e_bpf_kubernetes_operato.Runq.{
  RunqKey, CgroupRunqStats, Task, same_key, StartMap, StatsMap, Maps, zero_stats,
  get_task_cgroup_id, fill_key, handle_wakeup, sched_wakeup, requeue_prev, leave_queue,
  sched_switch,
}
use e_bpf_kubernetes_operato.Runq.Effect.{
  charge, start_map-handle_wakeup, start_map-requeue_prev, runq_stats_by_cgroup-requeue_prev,
  start_map-leave_queue, runq_stats_by_cgroup-leave_queue, sched_switch_unseen, sched_switch_seen,
}

pub record Totals : Type 0 where
  pub waits : ℕ
  pub latency : ℕ

pub record Ledger : Type 0 where
  pub pending : RunqKey → Option ℕ
  pub totals : ℕ → Option Totals

-- a tracepoint that fires: a wakeup, of an old or a new task, with its time, or a switch with the
-- clock where the previous task is put back and where the next one is taken off
pub data Event : Type 0 where
  wakeup : Task → ℕ → Event
  switch : Task → Task → ℕ → ℕ → Event

abbrev pub begin_time : Event → ℕ
begin_time (wakeup p ts) = ts
begin_time (switch prev next now ts) = now

abbrev pub end_time : Event → ℕ
end_time (wakeup p ts) = ts
end_time (switch prev next now ts) = ts

abbrev pub last_time : ℕ → List Event → ℕ
last_time clock [] = clock
last_time clock (e ∷ es) = last_time (end_time e) es

abbrev pub no_totals : Totals
no_totals = record { waits = 0; latency = 0 }

unfoldable pub tally : ℕ → Totals → Totals
tally delta t = record { waits = t.waits + 1; latency = t.latency + delta }

unfoldable pub begin_wait : Task → ℕ → Ledger → Ledger
begin_wait p now l = record l {
  pending = λ j. if same_key (fill_key p) j then some now else l.pending j;
}

unfoldable pub end_wait : Task → ℕ → Ledger → Ledger
end_wait p ts l = elim (l.pending (fill_key p)) [
  | none ↦ l
  | some since ↦ record {
    pending = λ j. if same_key (fill_key p) j then none else l.pending j;
    totals = λ j.
        if get_task_cgroup_id p == j
        then some (tally (ts - since) (value_or (l.totals (get_task_cgroup_id p)) no_totals))
        else l.totals j;
  }
]

unfoldable pub record_event : Event → Ledger → Ledger
record_event (wakeup p ts) l = begin_wait p ts l
record_event (switch prev next now ts) l =
    end_wait next ts (if prev.state == 0 then begin_wait prev now l else l)

pub record_events : List Event → Ledger → Ledger
record_events [] l = l
record_events (e ∷ es) l = record_events es (record_event e l)

unfoldable pub wrap : Totals → CgroupRunqStats
wrap t = record { count = t.waits % u64_mod; total_latency_ns = t.latency % u64_mod }

abbrev pub wrap_entry : Option Totals → Option CgroupRunqStats
wrap_entry none = none
wrap_entry (some t) = some (wrap t)

module _ (starts : StartMap) (stats : StatsMap) where
  unfoldable pub trace : Event → Maps starts.State stats.State → Maps starts.State stats.State
  unfolding sched_wakeup
  trace (wakeup p ts) s = sched_wakeup starts stats p ts s
  trace (switch prev next now ts) s = sched_switch starts stats prev next now ts s

  unfoldable pub trace_all :
      List Event → Maps starts.State stats.State → Maps starts.State stats.State
  trace_all [] s = s
  trace_all (e ∷ es) s = trace_all es (trace e s)

  -- no update of a map fails at the event
  abbrev pub HasRoom : Event → Maps starts.State stats.State → Type 0
  HasRoom (wakeup p ts) s = starts.rejects s.start_map (fill_key p) ≡ false
  HasRoom (switch prev next now ts) s =
      (prev.state ≡ 0 → starts.rejects s.start_map (fill_key prev) ≡ false)
      × ((since : ℕ)
          → starts.lookup (requeue_prev starts stats prev now s).start_map (fill_key next)
            ≡ some since
          → admits stats s.runq_stats_by_cgroup (get_task_cgroup_id next) ≡ true)

  -- a run in which the clock does not go back, fits 64 bits, and no update fails
  abbrev pub Runs : ℕ → List Event → Maps starts.State stats.State → Type 0
  Runs clock [] s = Unit
  Runs clock (e ∷ es) s =
      (clock ≤ begin_time e)
      × (begin_time e ≤ end_time e)
      × (end_time e < u64_mod)
      × HasRoom e s
      × Runs (end_time e) es (trace e s)

  -- the maps hold the ledger, and what is pending started by the time
  pub record Holds (clock : ℕ) (l : Ledger) (s : Maps starts.State stats.State) : Type 0 where
    pub pending : (j : RunqKey) → starts.lookup s.start_map j ≡ l.pending j
    pub totals : (j : ℕ) → stats.lookup s.runq_stats_by_cgroup j ≡ wrap_entry (l.totals j)
    pub past : (j : RunqKey) (v : ℕ) → l.pending j ≡ some v → v ≤ clock
