-- ===== src/Runq/Ledger/Refinement.antt =====
-- The programs of runq_latency.c keep the ledger.
use e_bpf_kubernetes_operato.Common.{
  ℕ, ◌-◌, ◌≤◌, ◌<◌, true, false, Option, none, some, ◌≡◌, ◌∙◌, arith, ◌==◌, if◌then◌else◌, value_or,
  Option-cases, inl, inr, List, [], ◌∷◌,
}
use e_bpf_kubernetes_operato.Common.Words.{u64_mod, add64, sub64-eq-sub}
use e_bpf_kubernetes_operato.Bpf.Create.{admits}
use e_bpf_kubernetes_operato.Runq.{
  Task, StartMap, StatsMap, Maps, zero_stats, get_task_cgroup_id, fill_key, handle_wakeup,
  requeue_prev, leave_queue, sched_switch,
}
use e_bpf_kubernetes_operato.Runq.Effect.{
  charge, start_map-handle_wakeup, start_map-requeue_prev, runq_stats_by_cgroup-requeue_prev,
  start_map-leave_queue, runq_stats_by_cgroup-leave_queue, sched_switch_unseen, sched_switch_seen,
}
use e_bpf_kubernetes_operato.Runq.Ledger.{
  Totals, Ledger, Event, wakeup, switch, begin_time, end_time, last_time, no_totals, tally,
  begin_wait, end_wait, record_event, record_events, wrap, wrap_entry, trace, trace_all, HasRoom,
  Runs, Holds,
}

charge-wrap :
    (delta : ℕ) (o : Option Totals)
    → charge delta (value_or (wrap_entry o) zero_stats) ≡ wrap (tally delta (value_or o no_totals))
unfolding charge wrap tally add64
charge-wrap delta none = ground arith
charge-wrap delta (some t) = ground arith

end_wait_unseen :
    (p : Task) (ts : ℕ) (l : Ledger) → l.pending (fill_key p) ≡ none → end_wait p ts l ≡ l
unfolding end_wait
end_wait_unseen p ts l h = ground (arith, h)

module _ (starts : StartMap) (stats : StatsMap) where
  module _ {clock : ℕ} {l : Ledger} {s : Maps starts.State stats.State}
      (h : Holds starts stats clock l s) where
    wakeup-Holds :
        (p : Task) (now : ℕ)
        → clock ≤ now
        → starts.rejects s.start_map (fill_key p) ≡ false
        → Holds starts stats now (begin_wait p now l) (handle_wakeup starts stats p now s)
    unfolding begin_wait handle_wakeup
    wakeup-Holds p now le room = record {
      pending = λ j. ground (arith, start_map-handle_wakeup starts stats p now s j, h.pending j);
      totals = h.totals;
      past = λ j v e. ground (arith, h.past j v);
    }

    requeue-Holds :
        (p : Task) (now : ℕ)
        → clock ≤ now
        → (p.state ≡ 0 → starts.rejects s.start_map (fill_key p) ≡ false)
        → Holds starts stats now
            (if p.state == 0 then begin_wait p now l else l)
            (requeue_prev starts stats p now s)
    unfolding begin_wait
    requeue-Holds p now le room = record {
      pending =
          λ j. ground (arith, room, start_map-requeue_prev starts stats p now s j, h.pending j);
      totals =
          λ j. ground (arith, runq_stats_by_cgroup-requeue_prev starts stats p now s, h.totals j);
      past = λ j v e. ground (arith, h.past j v);
    }

    leave-Holds :
        (p : Task) (ts since : ℕ)
        → clock ≤ ts
        → ts < u64_mod
        → l.pending (fill_key p) ≡ some since
        → admits stats s.runq_stats_by_cgroup (get_task_cgroup_id p) ≡ true
        → Holds starts stats ts (end_wait p ts l) (leave_queue starts stats p ts since s)
    unfolding end_wait
    leave-Holds p ts since le lt seen room =
        let k = get_task_cgroup_id p in
        let spent = sub64-eq-sub ts since (omega (arith, h.past (fill_key p) since seen)) lt in
        record {
          pending = λ j.
              ground (arith, seen, start_map-leave_queue starts stats p ts since s j, h.pending j);
          totals = λ j. ground (
            arith,
            seen,
            runq_stats_by_cgroup-leave_queue starts stats p ts since s j,
            room,
            h.totals j,
            h.totals k,
            spent,
            charge-wrap (ts - since) (l.totals k),
          );
          past = λ j v e. ground (arith, seen, h.past j v);
        }

  later-Holds :
      {clock : ℕ} {l : Ledger} {s : Maps starts.State stats.State}
      → Holds starts stats clock l s
      → (ts : ℕ) → clock ≤ ts
      → Holds starts stats ts l s
  later-Holds h ts le = record {
    pending = h.pending;
    totals = h.totals;
    past = λ j v e. omega (arith, h.past j v e);
  }

  switch-Holds :
      (clock : ℕ) (prev next : Task) (now ts : ℕ) (l : Ledger) (s : Maps starts.State stats.State)
      → clock ≤ now
      → now ≤ ts
      → ts < u64_mod
      → HasRoom starts stats (switch prev next now ts) s
      → Holds starts stats clock l s
      → Holds starts stats ts
          (record_event (switch prev next now ts) l)
          (sched_switch starts stats prev next now ts s)
  unfolding record_event
  switch-Holds clock prev next now ts l s le le' lt room h =
      let s' = requeue_prev starts stats prev now s in
      let l' = if prev.state == 0 then begin_wait prev now l else l in
      let h' : Holds starts stats now l' s' = requeue-Holds h prev now le room.0 in
      elim (Option-cases (l'.pending (fill_key next))) [
        | inl unseen ↦
            rw
              (
                sched_switch_unseen starts stats prev next now ts s
                    (h'.pending (fill_key next) ∙ unseen),
                end_wait_unseen next ts l' unseen,
              )
              (later-Holds h' ts le')
        | inr (since, seen) ↦
            let found = h'.pending (fill_key next) ∙ seen in
            let fits : admits stats s'.runq_stats_by_cgroup (get_task_cgroup_id next) ≡ true =
              rw (runq_stats_by_cgroup-requeue_prev starts stats prev now s) (room.1 since found) in
            rw (sched_switch_seen starts stats prev next now ts s since found)
              (leave-Holds h' next ts since le' lt seen fits)
      ]

  trace-Holds :
      (clock : ℕ) (e : Event) (l : Ledger) (s : Maps starts.State stats.State)
      → clock ≤ begin_time e
      → begin_time e ≤ end_time e
      → end_time e < u64_mod
      → HasRoom starts stats e s
      → Holds starts stats clock l s
      → Holds starts stats (end_time e) (record_event e l) (trace starts stats e s)
  unfolding record_event trace
  trace-Holds clock (wakeup p ts) l s le le' lt room h = wakeup-Holds h p ts le room
  trace-Holds clock (switch prev next now ts) l s le le' lt room h =
      switch-Holds clock prev next now ts l s le le' lt room h

  -- From maps that hold a ledger, any run of wakeups and switches, with a clock that does not go
  -- back and stays below 2 ^ 64 and with no map update failing, leaves maps that hold the ledger of
  -- the run: the waiting tasks with the time since when they wait, a preempted task included, and
  -- for each cgroup the number of finished waits and their true total, modulo 2 ^ 64.
  pub trace_all-Holds :
      (clock : ℕ) (es : List Event) (l : Ledger) (s : Maps starts.State stats.State)
      → Runs starts stats clock es s
      → Holds starts stats clock l s
      → Holds starts stats (last_time clock es) (record_events es l) (trace_all starts stats es s)
  unfolding trace_all record_events
  trace_all-Holds clock [] l s r h = h
  trace_all-Holds clock (e ∷ es) l s r h =
      trace_all-Holds (end_time e) es (record_event e l) (trace starts stats e s) r.4
        (trace-Holds clock e l s r.0 r.1 r.2 r.3 h)
