-- ===== src/Block/Interleave/Conserved.antt =====
-- The totals of a cgroup under every order of the operations.
use mathlib.Core.Path.{subst}
use e_bpf_kubernetes_operato.Common.{
  ℕ, ◌+◌, ◌%◌, ◌<◌, false, some, ◌≡◌, ◌≢◌, refl, ap, sym, arith, ◌==◌, ==_iff, Bool-cases, inl, inr,
}
use e_bpf_kubernetes_operato.Common.Words.{u64_mod}
use e_bpf_kubernetes_operato.Common.Family.{
  sum_below, sum_below-equal, sum_below-zero, sum_below-change,
}
use e_bpf_kubernetes_operato.Block.{CgroupIoStats, Request, StartMap, StatsMap, block_rq_issue}
use e_bpf_kubernetes_operato.Block.Steps.{Program, Phase, entered, ended, State, advance}
use e_bpf_kubernetes_operato.Block.Interleave.{
  Number, number, share, owed, System, turn, Reach, here, later, issued,
}
use e_bpf_kubernetes_operato.Block.Interleave.Own.{IsLocal, Kept, advance-Kept}
use e_bpf_kubernetes_operato.Block.Interleave.Others.{
  advance-IsLocal, IsLocal-more, owed-advance, owed-block_rq_issue,
}

module _ (starts : StartMap) (stats : StatsMap) (n : ℕ) (programs : ℕ → Program) (j : ℕ) where
  -- no two of the programs complete one request
  abbrev pub IsDistinct : Type 0
  IsDistinct =
      (i k : ℕ) → i < n → k < n → i ≢ k → (programs i).completion.rq ≢ (programs k).completion.rq

  abbrev owed_at : Number → (ℕ → Phase) → State starts stats → ℕ → ℕ
  owed_at a phase s i = owed starts stats a j (programs i) (phase i) s

  -- the totals with what is owed are the same sums as at the start
  record Inv (whole : Number → ℕ) (x : System starts stats) : Type 0 where
    totals : CgroupIoStats
    found : stats.lookup x.maps.stats_by_cgroup j ≡ some totals
    local : (i : ℕ) → i < n → IsLocal starts stats j (programs i) (x.phase i) x.maps
    sum :
        (a : Number)
        → (number a totals + sum_below n (owed_at a x.phase x.maps)) % u64_mod ≡ whole a % u64_mod

  module _ (distinct : IsDistinct) (whole : Number → ℕ) (x : System starts stats)
      (inv : Inv whole x) where
    module _ (i : ℕ) (lt : i < n) where
      abbrev after : System starts stats
      after = turn starts stats n programs i x

      abbrev next : Phase
      next = (advance starts stats (programs i) (x.phase i) x.maps).0

      kept : Kept starts stats j (programs i) (x.phase i) next x.maps after.maps inv.totals
      kept =
          advance-Kept starts stats j (programs i) (x.phase i) x.maps inv.totals inv.found
            (inv.local i lt)

      turn-IsLocal :
          (k : ℕ) → k < n → IsLocal starts stats j (programs k) (after.phase k) after.maps
      turn-IsLocal k below = elim (Bool-cases (i == k)) [
        | inl e ↦ rw e (
            subst (λ m. IsLocal starts stats j (programs m) next after.maps) ((==_iff i k).0 e)
              kept.local)
        | inr e ↦ rw e (
            advance-IsLocal starts stats j (programs i) (programs k) (x.phase i) (x.phase k) x.maps
              (inv.local i lt) (inv.local k below))
      ]

      turn-owed :
          (a : Number) (k : ℕ)
          → k < n
          → k ≢ i
          → owed_at a x.phase x.maps k ≡ owed_at a after.phase after.maps k
      turn-owed a k below other =
          let e : (i == k) ≡ false = ground (arith, ==_iff i k, other) in
          rw e (
            sym (
              owed-advance starts stats j a (programs i) (programs k) (x.phase i) (x.phase k) x.maps
                (distinct i k lt below (λ q. other (sym q)))))

      turn-sum :
          (a : Number)
          → (number a kept.totals + sum_below n (owed_at a after.phase after.maps)) % u64_mod
            ≡ whole a % u64_mod
      turn-sum a =
          let own : owed_at a after.phase after.maps i
              ≡ owed starts stats a j (programs i) next after.maps =
            rw ((==_iff i i).1 refl) refl in
          omega (
            arith,
            own,
            kept.sum a,
            inv.sum a,
            sum_below-change n i (owed_at a x.phase x.maps) (owed_at a after.phase after.maps) lt
                (turn-owed a),
          )

      turn-Inv : Inv whole after
      turn-Inv = record {
        totals = kept.totals;
        found = kept.found;
        local = turn-IsLocal;
        sum = turn-sum;
      }

    issue-Inv :
        (rq : Request) (now current_cgroup : ℕ)
        → ((i : ℕ) → i < n → (programs i).completion.rq ≢ rq.address)
        → Inv whole (record x { maps = block_rq_issue starts stats rq now current_cgroup x.maps })
    unfolding block_rq_issue
    issue-Inv rq now current_cgroup other = record {
      totals = inv.totals;
      found = inv.found;
      local = λ i lt.
          IsLocal-more starts stats j (programs i) (x.phase i) x.maps
            (block_rq_issue starts stats rq now current_cgroup x.maps) (λ k h. h) refl
            (inv.local i lt);
      sum = λ a.
          let s' = block_rq_issue starts stats rq now current_cgroup x.maps in
          let same : sum_below n (owed_at a x.phase s') ≡ sum_below n (owed_at a x.phase x.maps) =
            sum_below-equal n (owed_at a x.phase s') (owed_at a x.phase x.maps) (λ i lt.
              owed-block_rq_issue starts stats j a (programs i) (x.phase i) x.maps rq now
                current_cgroup (other i lt)) in
          omega (arith, same, inv.sum a);
    }

  Reach-Inv :
      (distinct : IsDistinct) (whole : Number → ℕ) {x : System starts stats} {k : ℕ}
      {y : System starts stats}
      → Reach starts stats n programs x k y
      → Inv whole x
      → Inv whole y
  Reach-Inv distinct whole here inv = inv
  Reach-Inv distinct whole (later {t} i r lt run) inv =
      turn-Inv distinct whole t (Reach-Inv distinct whole r inv) i lt
  Reach-Inv distinct whole (issued {t} rq now current_cgroup r other) inv =
      issue-Inv distinct whole t (Reach-Inv distinct whole r inv) rq now current_cgroup other

  nothing_owed :
      (a : Number) (y : System starts stats)
      → ((i : ℕ) → i < n → y.phase i ≡ ended)
      → sum_below n (owed_at a y.phase y.maps) ≡ 0
  nothing_owed a y all =
      sum_below-zero n (owed_at a y.phase y.maps)
        (λ i lt. ap (λ ph. owed starts stats a j (programs i) ph y.maps) (all i lt))

  -- what the programs have to add to a number of the cgroup, by the start values at the start
  abbrev pub shares : Number → State starts stats → ℕ → ℕ
  shares a s i =
      share starts stats a j (programs i) (starts.lookup s.start_map (programs i).completion.rq)

  -- Let `n` processors enter `block_rq_complete`, each for a request of its own, where a cgroup has
  -- totals. Whatever the order of their operations, and whatever other requests are issued between
  -- them: when all programs have ended, each of the cgroup's four numbers has grown by the sum of
  -- what the completions of its requests add, modulo 2 ^ 64, so that none is lost.
  pub totals-interleaved :
      {k : ℕ} {y : System starts stats} (s : State starts stats) (v : CgroupIoStats)
      → IsDistinct
      → stats.lookup s.stats_by_cgroup j ≡ some v
      → Reach starts stats n programs (record { phase = λ i. entered; maps = s }) k y
      → ((i : ℕ) → i < n → y.phase i ≡ ended)
      → (w : CgroupIoStats) × (stats.lookup y.maps.stats_by_cgroup j ≡ some w)
        × ((a : Number) → number a w % u64_mod ≡ (number a v + sum_below n (shares a s)) % u64_mod)
  totals-interleaved {y = y} s v distinct found r all =
      let whole : Number → ℕ = λ a. number a v + sum_below n (shares a s) in
      let inv =
        Reach-Inv distinct whole r
          (record { totals = v; found = found; local = λ i lt. tt; sum = λ a. refl }) in
      (inv.totals, inv.found, λ a. omega (arith, inv.sum a, nothing_owed a y all))
