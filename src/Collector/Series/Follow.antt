-- ===== src/Collector/Series/Follow.antt =====
-- What a counter shows after any sequence of updates: an account of one series in natural numbers,
-- over vectors whose floats add whole numbers exactly up to a limit.
use mathlib.Core.Option
use e_bpf_kubernetes_operato.Common.{
  ℕ, ◌+◌, ◌-◌, ◌≤◌, Option, none, some, List, [], ◌∷◌, ◌≡◌, ap, ◌∙◌, sym, refl, arith,
  if◌then◌else◌, ltb, value_or,
}
use e_bpf_kubernetes_operato.Common.Text.{text_eq}
use e_bpf_kubernetes_operato.Bpf.Table.{find}
use e_bpf_kubernetes_operato.Collector.Rows.{Row}
use e_bpf_kubernetes_operato.Collector.Metrics.{
  Aggregate, Labels, key_of, labels_from_key, aggregate_rows, delta, no_aggregate,
}
use e_bpf_kubernetes_operato.Collector.Series.Keyed.{IsKeyed}
use e_bpf_kubernetes_operato.Collector.Series.Update.{
  Counter, operations, counter_of, total_of, updated, value-update, prev-update, update-IsKeyed,
}
use e_bpf_kubernetes_operato.Collector.Series.{Vectors, PromMetrics, update}

-- a series: what it shows, and the total that it was last given
pub record Account : Type 0 where
  pub shown : ℕ
  pub last : ℕ

-- A total arrives, or none: a series without a total goes, and starts again from its next total; one
-- with a total grows by the difference, or by all of a total that is lower than the last one.
abbrev pub follow : Option Account → Option ℕ → Option Account
follow a none = none
follow none (some b) = some (record { shown = b; last = b })
follow (some a) (some b) =
    some (record { shown = if ltb b a.last then a.shown + b else a.shown + (b - a.last); last = b })

abbrev pub follow_all : Option Account → List (Option ℕ) → Option Account
follow_all a [] = a
follow_all a (b ∷ bs) = follow_all (follow a b) bs

-- floats up to a limit, such as 2 ^ 53, add whole numbers exactly
pub record IsExact (v : Vectors) (limit : ℕ) : Type 0 where
  pub from_zero : (n : ℕ) → n ≤ limit → v.plus v.zero (v.of_u64 n) ≡ v.of_u64 n
  pub whole : (m n : ℕ) → m + n ≤ limit → v.plus (v.of_u64 m) (v.of_u64 n) ≡ v.of_u64 (m + n)

abbrev pub IsWithin : ℕ → Option Account → Type 0
IsWithin limit none = Unit
IsWithin limit (some a) = a.shown ≤ limit

-- the series stays below the limit
abbrev pub Fits : ℕ → Option Account → List (Option ℕ) → Type 0
Fits limit a [] = Unit
Fits limit a (b ∷ bs) = IsWithin limit (follow a b) × Fits limit (follow a b) bs

abbrev pub total_in : Counter → Labels → List Row → Option ℕ
total_in c l rows = Option.map (total_of c) (find text_eq (aggregate_rows rows []) (key_of l))

abbrev pub totals_in : Counter → Labels → List (List Row) → List (Option ℕ)
totals_in c l [] = []
totals_in c l (rows ∷ rest) = total_in c l rows ∷ totals_in c l rest

total_of-no_aggregate : (c : Counter) → total_of c no_aggregate ≡ 0
total_of-no_aggregate operations = refl
total_of-no_aggregate _ = refl

-- the total that an update takes for the last one
total_of-value_or :
    (c : Counter) (o : Option Aggregate)
    → total_of c (value_or o no_aggregate) ≡ value_or (Option.map (total_of c) o) 0
total_of-value_or c none = total_of-no_aggregate c
total_of-value_or c (some a) = refl

module _ (v : Vectors) where
  abbrev pub update_all : List (List Row) → PromMetrics v.State → PromMetrics v.State
  update_all [] m = m
  update_all (rows ∷ rest) m = update_all rest (update v rows m)

  -- the metrics have the account of a series
  pub record Shows (c : Counter) (l : Labels) (a : Option Account) (m : PromMetrics v.State)
      : Type 0 where
    pub keyed : IsKeyed m.prev
    pub value : v.value (counter_of c m) l ≡ Option.map (λ x. v.of_u64 x.shown) a
    pub kept : Option.map (total_of c) (find text_eq m.prev (key_of l)) ≡ Option.map (λ x. x.last) a

  value-updated :
      (limit : ℕ) (c : Counter) (l : Labels) (a : Option Account) (m : PromMetrics v.State)
      (o : Option Aggregate)
      → IsExact v limit
      → Shows c l a m
      → IsWithin limit (follow a (Option.map (total_of c) o))
      → updated v c m l o
        ≡ Option.map (λ x. v.of_u64 x.shown) (follow a (Option.map (total_of c) o))
  unfolding delta
  value-updated limit c l none m none x s h = ground (arith, s.value, s.kept)
  value-updated limit c l (some a) m none x s h = ground (arith, s.value, s.kept)
  value-updated limit c l none m (some b) x s h = ground (
    arith,
    s.value,
    s.kept,
    total_of-value_or c (find text_eq m.prev (key_of l)),
    x.from_zero (total_of c b),
  )
  value-updated limit c l (some a) m (some b) x s h = ground (
    arith,
    s.value,
    s.kept,
    total_of-value_or c (find text_eq m.prev (key_of l)),
    x.whole a.shown (total_of c b),
    x.whole a.shown (total_of c b - a.last),
  )

  last-follow : (a : Option Account) (b : Option ℕ) → Option.map (λ x. x.last) (follow a b) ≡ b
  last-follow a none = refl
  last-follow none (some b) = refl
  last-follow (some a) (some b) = refl

  -- One update moves the account on by the total of its rows.
  pub update-Shows :
      (limit : ℕ) (c : Counter) (l : Labels) (a : Option Account) (m : PromMetrics v.State)
      (rows : List Row)
      → IsExact v limit
      → labels_from_key (key_of l) ≡ l
      → IsWithin limit (follow a (total_in c l rows))
      → Shows c l a m
      → Shows c l (follow a (total_in c l rows)) (update v rows m)
  update-Shows limit c l a m rows x e h s = record {
    keyed = update-IsKeyed v rows m s.keyed;
    value =
        value-update v c rows m l s.keyed e
        ∙ value-updated limit c l a m (find text_eq (aggregate_rows rows []) (key_of l)) x s h;
    kept =
        ap (Option.map (total_of c)) (prev-update v rows m (key_of l))
        ∙ sym (last-follow a (total_in c l rows));
  }

  -- Where floats add whole numbers exactly up to a limit, and the series of a label set stays below
  -- it: if the metrics show its account at the start, as they do with no series and no totals, then
  -- after any updates they show the account that follows the totals of these updates, which grows by
  -- differences, takes a lower total for a restart, and ends where a total is missing.
  pub update_all-Shows :
      (limit : ℕ) (c : Counter) (l : Labels) (updates : List (List Row)) (a : Option Account)
      (m : PromMetrics v.State)
      → IsExact v limit
      → labels_from_key (key_of l) ≡ l
      → Fits limit a (totals_in c l updates)
      → Shows c l a m
      → Shows c l (follow_all a (totals_in c l updates)) (update_all updates m)
  update_all-Shows limit c l [] a m x e h s = s
  update_all-Shows limit c l (rows ∷ rest) a m x e h s =
      update_all-Shows limit c l rest (follow a (total_in c l rows)) (update v rows m) x e h.1
        (update-Shows limit c l a m rows x e h.0 s)
