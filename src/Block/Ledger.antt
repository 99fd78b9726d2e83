-- ===== src/Block/Ledger.antt =====
-- What the programs of block_latency.c promise: an account of the requests in flight and of the
-- completed ones of each cgroup, in numbers that do not wrap. The maps hold its residues.
use e_bpf_kubernetes_operato.Common.{
  ℕ, ◌+◌, ◌-◌, ◌%◌, ◌≤◌, ◌<◌, true, false, Option, none, some, ◌≡◌, arith, ◌==◌, if◌then◌else◌, ◌∙◌,
  value_or, Option-cases, inl, inr, List, [], ◌∷◌,
}
use e_bpf_kubernetes_operato.Common.Words.{u64_mod, add64, sub64-eq-sub}
use e_bpf_kubernetes_operato.Bpf.Create.{admits}
use e_bpf_kubernetes_operato.Block.{
  StartVal, CgroupIoStats, Request, Completion, StartMap, StatsMap, Maps, zero_stats,
  block_rq_issue, block_rq_complete,
}
use e_bpf_kubernetes_operato.Block.Effect.{
  charge, start_map-block_rq_issue, start_map-block_rq_complete, block_rq_complete_unseen,
  stats_by_cgroup-block_rq_complete,
}

pub record Totals : Type 0 where
  pub ios : ℕ
  pub latency : ℕ
  pub bytes : ℕ
  pub errors : ℕ

pub record Ledger : Type 0 where
  pub pending : ℕ → Option StartVal
  pub totals : ℕ → Option Totals

-- a tracepoint that fires: the request and the current cgroup, or the completion; the time is last
pub data Event : Type 0 where
  issue : Request → ℕ → ℕ → Event
  complete : Completion → ℕ → Event

abbrev pub time : Event → ℕ
time (issue rq cgroup now) = now
time (complete c now) = now

abbrev pub last_time : ℕ → List Event → ℕ
last_time clock [] = clock
last_time clock (e ∷ es) = last_time (time e) es

abbrev pub no_totals : Totals
no_totals = record { ios = 0; latency = 0; bytes = 0; errors = 0 }

unfoldable pub tally : ℕ → ℕ → ℕ → Totals → Totals
tally error delta bytes t = record {
  ios = t.ios + 1;
  latency = t.latency + delta;
  bytes = t.bytes + bytes;
  errors = if error == 0 then t.errors else t.errors + 1;
}

unfoldable pub record_event : Event → Ledger → Ledger
record_event (issue rq cgroup now) l = record l {
  pending = λ j.
      if rq.address == j
      then some (record { ts_ns = now; bytes = rq.data_len; cgroup_id = cgroup })
      else l.pending j;
}
record_event (complete c now) l = elim (l.pending c.rq) [
  | none ↦ l
  | some start ↦ record {
    pending = λ j. if c.rq == j then none else l.pending j;
    totals = λ j.
        if start.cgroup_id == j
        then some (
            tally c.error (now - start.ts_ns) start.bytes
              (value_or (l.totals start.cgroup_id) no_totals))
        else l.totals j;
  }
]

pub record_events : List Event → Ledger → Ledger
record_events [] l = l
record_events (e ∷ es) l = record_events es (record_event e l)

unfoldable pub wrap : Totals → CgroupIoStats
wrap t = record {
  io_count = t.ios % u64_mod;
  total_latency_ns = t.latency % u64_mod;
  total_bytes = t.bytes % u64_mod;
  error_count = t.errors % u64_mod;
}

abbrev pub wrap_entry : Option Totals → Option CgroupIoStats
wrap_entry none = none
wrap_entry (some t) = some (wrap t)

charge-wrap :
    (error delta bytes : ℕ) (o : Option Totals)
    → charge error delta bytes (value_or (wrap_entry o) zero_stats)
      ≡ wrap (tally error delta bytes (value_or o no_totals))
unfolding charge wrap tally add64
charge-wrap error delta bytes none = ground arith
charge-wrap error delta bytes (some t) = ground arith

module _ (starts : StartMap) (stats : StatsMap) where
  unfoldable pub fire : Event → Maps starts.State stats.State → Maps starts.State stats.State
  fire (issue rq cgroup now) s = block_rq_issue starts stats rq now cgroup s
  fire (complete c now) s = block_rq_complete starts stats c now s

  unfoldable pub fire_all :
      List Event → Maps starts.State stats.State → Maps starts.State stats.State
  fire_all [] s = s
  fire_all (e ∷ es) s = fire_all es (fire e s)

  -- no update of a map fails at the event
  abbrev pub HasRoom : Event → Maps starts.State stats.State → Type 0
  HasRoom (issue rq cgroup now) s = starts.rejects s.start_map rq.address ≡ false
  HasRoom (complete c now) s =
      (start : StartVal)
      → starts.lookup s.start_map c.rq ≡ some start
      → admits stats s.stats_by_cgroup start.cgroup_id ≡ true

  -- a run in which the clock does not go back, fits 64 bits, and no update fails
  abbrev pub Runs : ℕ → List Event → Maps starts.State stats.State → Type 0
  Runs clock [] s = Unit
  Runs clock (e ∷ es) s =
      (clock ≤ time e) × (time e < u64_mod) × HasRoom e s × Runs (time e) es (fire e s)

  -- the maps hold the ledger, and what is pending started by the time
  pub record Holds (clock : ℕ) (l : Ledger) (s : Maps starts.State stats.State) : Type 0 where
    pub pending : (j : ℕ) → starts.lookup s.start_map j ≡ l.pending j
    pub totals : (j : ℕ) → stats.lookup s.stats_by_cgroup j ≡ wrap_entry (l.totals j)
    pub past : (j : ℕ) (v : StartVal) → l.pending j ≡ some v → v.ts_ns ≤ clock

  complete-Holds :
      (clock : ℕ) (c : Completion) (now : ℕ) (l : Ledger) (s : Maps starts.State stats.State)
      → clock ≤ now
      → now < u64_mod
      → HasRoom (complete c now) s
      → Holds clock l s
      → Holds now (record_event (complete c now) l) (block_rq_complete starts stats c now s)
  unfolding record_event
  complete-Holds clock c now l s le lt room h = elim (Option-cases (l.pending c.rq)) [
    | inl unseen ↦
        rw
          (
            block_rq_complete_unseen starts stats c now s (h.pending c.rq ∙ unseen),
            record_event,
            unseen,
          )
          (record {
            pending = h.pending;
            totals = h.totals;
            past = λ j v p. omega (arith, h.past j v p);
          })
    | inr (start, seen) ↦
        let found = h.pending c.rq ∙ seen in
        let k = start.cgroup_id in
        let spent = sub64-eq-sub now start.ts_ns (omega (arith, h.past c.rq start seen)) lt in
        record {
          pending = λ j.
              ground (arith, seen, start_map-block_rq_complete starts stats c now s j, h.pending j);
          totals = λ j. ground (
            arith,
            seen,
            stats_by_cgroup-block_rq_complete starts stats c now s start j found,
            room start found,
            h.totals j,
            h.totals k,
            spent,
            charge-wrap c.error (now - start.ts_ns) start.bytes (l.totals k),
          );
          past = λ j v p. ground (arith, seen, h.past j v);
        }
  ]

  fire-Holds :
      (clock : ℕ) (e : Event) (l : Ledger) (s : Maps starts.State stats.State)
      → clock ≤ time e
      → time e < u64_mod
      → HasRoom e s
      → Holds clock l s
      → Holds (time e) (record_event e l) (fire e s)
  unfolding record_event fire block_rq_issue
  fire-Holds clock (issue rq cgroup now) l s le lt room h = record {
    pending =
        λ j. ground (arith, start_map-block_rq_issue starts stats rq now cgroup s j, h.pending j);
    totals = h.totals;
    past = λ j v p. ground (arith, h.past j v);
  }
  fire-Holds clock (complete c now) l s le lt room h = complete-Holds clock c now l s le lt room h

  -- From maps that hold a ledger, any run of issues and completions, with a clock that does not go
  -- back and stays below 2 ^ 64 and with no map update failing, leaves maps that hold the ledger of
  -- the run: the requests in flight with their start values, and for each cgroup the numbers of
  -- completed requests and of errors, the bytes, and the true total latency, all modulo 2 ^ 64.
  pub fire_all-Holds :
      (clock : ℕ) (es : List Event) (l : Ledger) (s : Maps starts.State stats.State)
      → Runs clock es s
      → Holds clock l s
      → Holds (last_time clock es) (record_events es l) (fire_all es s)
  unfolding fire_all record_events
  fire_all-Holds clock [] l s r h = h
  fire_all-Holds clock (e ∷ es) l s r h =
      fire_all-Holds (time e) es (record_event e l) (fire e s) r.3
        (fire-Holds clock e l s r.0 r.1 r.2 h)
