-- ===== src/Runq/Interleave/Conserved.antt =====
-- The totals of a control group under every order of the operations of switches.
use mathlib.Core.Path.{subst}
use e_bpf_kubernetes_operato.Common.{
  ℕ, ◌+◌, ◌%◌, ◌<◌, false, some, ◌≡◌, ◌≢◌, refl, ap, sym, arith, ◌==◌, ==_iff, Bool-cases, inl, inr,
}
use e_bpf_kubernetes_operato.Common.Words.{u64_mod}
use e_bpf_kubernetes_operato.Common.Family.{
  sum_below, sum_below-equal, sum_below-zero, sum_below-change,
}
use e_bpf_kubernetes_operato.Runq.{
  CgroupRunqStats, Task, StartMap, StatsMap, fill_key, handle_wakeup,
}
use e_bpf_kubernetes_operato.Runq.Steps.{Program, Phase, entered, ended, State, advance}
use e_bpf_kubernetes_operato.Runq.Interleave.{
  Number, number, share, wait_from, owed, System, turn, Reach, here, later, woken,
}
use e_bpf_kubernetes_operato.Runq.Interleave.Own.{IsLocal, Kept, advance-Kept}
use e_bpf_kubernetes_operato.Runq.Interleave.Others.{
  advance-IsLocal, IsLocal-more, owed-advance, owed-handle_wakeup,
}

module _ (starts : StartMap) (stats : StatsMap) (n : ℕ) (programs : ℕ → Program) (j : ℕ) where
  -- no two of the programs switch to one task, and none to a task that is switched from
  pub record IsDistinct : Type 0 where
    pub apart :
        (i k : ℕ) → i < n → k < n → i ≢ k → fill_key (programs i).next ≢ fill_key (programs k).next
    pub left : (i k : ℕ) → i < n → k < n → fill_key (programs i).prev ≢ fill_key (programs k).next

  abbrev owed_at : Number → (ℕ → Phase) → State starts stats → ℕ → ℕ
  owed_at a phase s i = owed starts stats a j (programs i) (phase i) s

  -- the totals with what is owed are the same sums as at the start
  record Inv (whole : Number → ℕ) (x : System starts stats) : Type 0 where
    totals : CgroupRunqStats
    found : stats.lookup x.maps.runq_stats_by_cgroup j ≡ some totals
    local : (i : ℕ) → i < n → IsLocal starts stats j (programs i) (x.phase i) x.maps
    sum :
        (a : Number)
        → (number a totals + sum_below n (owed_at a x.phase x.maps)) % u64_mod ≡ whole a % u64_mod

  module _ (distinct : IsDistinct) (whole : Number → ℕ) (x : System starts stats)
      (inv : Inv whole x) where
    module _ (i : ℕ) (lt : i < n) where
      abbrev after : System starts stats
      after = turn starts stats n programs i x

      abbrev next : Phase
      next = (advance starts stats (programs i) (x.phase i) x.maps).0

      kept : Kept starts stats j (programs i) (x.phase i) next x.maps after.maps inv.totals
      kept =
          advance-Kept starts stats j (programs i) (x.phase i) x.maps inv.totals
            (distinct.left i i lt lt) inv.found (inv.local i lt)

      turn-IsLocal :
          (k : ℕ) → k < n → IsLocal starts stats j (programs k) (after.phase k) after.maps
      turn-IsLocal k below = elim (Bool-cases (i == k)) [
        | inl e ↦ rw e (
            subst (λ m. IsLocal starts stats j (programs m) next after.maps) ((==_iff i k).0 e)
              kept.local)
        | inr e ↦ rw e (
            advance-IsLocal starts stats j (programs i) (programs k) (x.phase i) (x.phase k) x.maps
              (inv.local i lt) (inv.local k below))
      ]

      turn-owed :
          (a : Number) (k : ℕ)
          → k < n
          → k ≢ i
          → owed_at a x.phase x.maps k ≡ owed_at a after.phase after.maps k
      turn-owed a k below other =
          let e : (i == k) ≡ false = ground (arith, ==_iff i k, other) in
          rw e (
            sym (
              owed-advance starts stats j a (programs i) (programs k) (x.phase i) (x.phase k) x.maps
                (distinct.left i k lt below) (distinct.apart i k lt below (λ q. other (sym q)))))

      turn-sum :
          (a : Number)
          → (number a kept.totals + sum_below n (owed_at a after.phase after.maps)) % u64_mod
            ≡ whole a % u64_mod
      turn-sum a =
          let own : owed_at a after.phase after.maps i
              ≡ owed starts stats a j (programs i) next after.maps =
            rw ((==_iff i i).1 refl) refl in
          omega (
            arith,
            own,
            kept.sum a,
            inv.sum a,
            sum_below-change n i (owed_at a x.phase x.maps) (owed_at a after.phase after.maps) lt
                (turn-owed a),
          )

      turn-Inv : Inv whole after
      turn-Inv = record {
        totals = kept.totals;
        found = kept.found;
        local = turn-IsLocal;
        sum = turn-sum;
      }

    wakeup-Inv :
        (task : Task) (ts : ℕ)
        → ((i : ℕ) → i < n → fill_key task ≢ fill_key (programs i).next)
        → Inv whole (record x { maps = handle_wakeup starts stats task ts x.maps })
    unfolding handle_wakeup
    wakeup-Inv task ts other = record {
      totals = inv.totals;
      found = inv.found;
      local = λ i lt.
          IsLocal-more starts stats j (programs i) (x.phase i) x.maps
            (handle_wakeup starts stats task ts x.maps) (λ k h. h) refl (inv.local i lt);
      sum = λ a.
          let s' = handle_wakeup starts stats task ts x.maps in
          let same : sum_below n (owed_at a x.phase s') ≡ sum_below n (owed_at a x.phase x.maps) =
            sum_below-equal n (owed_at a x.phase s') (owed_at a x.phase x.maps) (λ i lt.
              owed-handle_wakeup starts stats j a (programs i) (x.phase i) x.maps task ts
                (other i lt)) in
          omega (arith, same, inv.sum a);
    }

  Reach-Inv :
      (distinct : IsDistinct) (whole : Number → ℕ) {x : System starts stats} {k : ℕ}
      {y : System starts stats}
      → Reach starts stats n programs x k y
      → Inv whole x
      → Inv whole y
  Reach-Inv distinct whole here inv = inv
  Reach-Inv distinct whole (later {t} i r lt run) inv =
      turn-Inv distinct whole t (Reach-Inv distinct whole r inv) i lt
  Reach-Inv distinct whole (woken {t} task ts r other) inv =
      wakeup-Inv distinct whole t (Reach-Inv distinct whole r inv) task ts other

  nothing_owed :
      (a : Number) (y : System starts stats)
      → ((i : ℕ) → i < n → y.phase i ≡ ended)
      → sum_below n (owed_at a y.phase y.maps) ≡ 0
  nothing_owed a y all =
      sum_below-zero n (owed_at a y.phase y.maps)
        (λ i lt. ap (λ ph. owed starts stats a j (programs i) ph y.maps) (all i lt))

  -- what the programs have to add to a number of the control group, by the starts at the start
  abbrev pub shares : Number → State starts stats → ℕ → ℕ
  shares a s i =
      share starts stats a j (programs i) (
        wait_from starts stats (programs i)
          (starts.lookup s.start_map (fill_key (programs i).next)))

  -- Let `n` processors enter `sched_switch`, no two for one next task and none for a next task that
  -- another one switches from or that is its own previous one, where a control group has totals.
  -- Whatever the order of their operations, and whatever other tasks wake up between them: when all
  -- programs have ended, the group's two numbers have grown by the sum of the waits of its tasks
  -- whose start was in the map, modulo 2 ^ 64, so that no wait is lost.
  pub waits-interleaved :
      {k : ℕ} {y : System starts stats} (s : State starts stats) (v : CgroupRunqStats)
      → IsDistinct
      → stats.lookup s.runq_stats_by_cgroup j ≡ some v
      → Reach starts stats n programs (record { phase = λ i. entered; maps = s }) k y
      → ((i : ℕ) → i < n → y.phase i ≡ ended)
      → (w : CgroupRunqStats) × (stats.lookup y.maps.runq_stats_by_cgroup j ≡ some w)
        × ((a : Number) → number a w % u64_mod ≡ (number a v + sum_below n (shares a s)) % u64_mod)
  waits-interleaved {y = y} s v distinct found r all =
      let whole : Number → ℕ = λ a. number a v + sum_below n (shares a s) in
      let inv =
        Reach-Inv distinct whole r
          (record { totals = v; found = found; local = λ i lt. tt; sum = λ a. refl }) in
      (inv.totals, inv.found, λ a. omega (arith, inv.sum a, nothing_owed a y all))
