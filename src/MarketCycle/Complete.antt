-- ===== src/MarketCycle/Complete.antt =====
-- What `_load` (backend/services/market_cycle_engine.py) gives the engine.
use personal_fin_hub.Base.{
  ℕ, ◌≡◌, refl, ◌≢◌, Bool, true, false, ◌&&◌, ◌||◌, Option, none, some, List, [], ◌∷◌, map, any,
  all, select, ◌==◌, ltb, if◌then◌else◌, ℤ, inl, inr, Bool-cases, arith,
}
use personal_fin_hub.MarketCycle.Signals.{TrendDirection, MonthKey, History}
use personal_fin_hub.Derived.Trends.{Date, DatedPoint, DatedSeries, month_key, month_le, by_month}
use personal_fin_hub.Derived.World.{
  Market, usa, japan, spain_eurozone, other_market, MacroObservation, get_source, world_kpi,
}
use personal_fin_hub.Derived.Registry.{
  levels, directions, get_definition, world_series, resolve_series, monthly_input, compute_by,
  compute_in, compute, resolve_monthly,
}
use personal_fin_hub.MarketCycle.Load.{
  same_month, common_months, insert_month, sorted_months, history_of, Loaded, loaded,
  not_computable, not_caught, if_any_month, loaded_from, load_inputs, load,
}

abbrev pub is_some {ℓ} : {A : Type ℓ} → Option A → Bool
is_some none = false
is_some (some x) = true

-- A month with all four required inputs.
abbrev pub has_inputs : History → MonthKey → Bool
has_inputs h k =
    is_some (h.policy_rate_trend k)
    && is_some (h.inflation_rate_trend k)
    && is_some (h.real_interest_rate k)
    && is_some (h.real_interest_rate_trend k)

abbrev pub month_lt : MonthKey → MonthKey → Bool
month_lt (y, m) (y', m') = if y == y' then ltb m m' else ltb y y'

abbrev pub are_ascending : List MonthKey → Bool
are_ascending [] = true
are_ascending (k ∷ months) = all (month_lt k) months && are_ascending months

-- What the engine relies on: there are months, in order and each once, and each has every required input.
abbrev pub Complete : Loaded → Type 0
Complete (loaded h) =
    (h.months ≢ []) × (are_ascending h.months ≡ true) × (all (has_inputs h) h.months ≡ true)
Complete not_computable = Unit
Complete (not_caught e) = ⊥

some_kept :
    {A : Type 0}
    → (points : List (DatedPoint A)) (o : Option A) (k : MonthKey) → is_some o ≡ true
    → is_some (by_month o points k) ≡ true
unfolding by_month
some_kept [] o k e = e
some_kept (p ∷ points) o (y, m) e =
    elim (Bool-cases (p.obs_date.year == y && p.obs_date.month == m)) [
      | inl t ↦ rw t (some_kept points (some p.value) (y, m) refl)
      | inr f ↦ rw f (some_kept points o (y, m) e)
    ]

-- A month of a series has a value in its index.
indexed :
    {A : Type 0}
    → (points : List (DatedPoint A)) (o : Option A) (k : MonthKey)
    → any (same_month k) (map (λ p. month_key p.obs_date) points) ≡ true
    → is_some (by_month o points k) ≡ true
unfolding by_month
indexed [] o k e = ground arith
indexed (p ∷ points) o (y, m) e =
    by_test (p.obs_date.year == y && p.obs_date.month == m) (indexed points o (y, m)) e
  where
    by_test :
        (t : Bool)
        → (any (same_month (y, m)) (map (λ q. month_key q.obs_date) points) ≡ true
            → is_some (by_month o points (y, m)) ≡ true)
        → (t || any (same_month (y, m)) (map (λ q. month_key q.obs_date) points)) ≡ true
        → is_some (by_month (if t then some p.value else o) points (y, m)) ≡ true
    by_test true rest e' = some_kept points (some p.value) (y, m) refl
    by_test false rest e' = rest e'

all-select :
    (p q : MonthKey → Bool) (months : List MonthKey)
    → all p months ≡ true
    → all (λ k. p k && q k) (select q months) ≡ true
all-select p q [] e = refl
all-select p q (k ∷ months) e = ground (arith, all-select p q months)

all-weaken :
    (p q : MonthKey → Bool) (months : List MonthKey)
    → ((k : MonthKey) → p k ≡ true → q k ≡ true)
    → all p months ≡ true
    → all q months ≡ true
all-weaken p q [] f e = refl
all-weaken p q (k ∷ months) f e = ground (arith, f k, all-weaken p q months f)

all-insert_month :
    (p : MonthKey → Bool) (k : MonthKey) (months : List MonthKey)
    → p k ≡ true
    → all p months ≡ true
    → all p (insert_month k months) ≡ true
unfolding insert_month
all-insert_month p k [] e h = ground arith
all-insert_month p k (j ∷ months) e h = ground (arith, all-insert_month p k months e)

all-sorted_months :
    (p : MonthKey → Bool) (months : List MonthKey)
    → all p months ≡ true
    → all p (sorted_months months) ≡ true
unfolding sorted_months
all-sorted_months p [] e = refl
all-sorted_months p (k ∷ months) e =
    ground (arith, all-insert_month p k (sorted_months months), all-sorted_months p months)

lt_of : (k j : MonthKey) → same_month k j ≡ false → month_le k j ≡ true → month_lt k j ≡ true
lt_of (y, m) (y', m') e h = ground arith

gt_of : (k j : MonthKey) → month_le k j ≡ false → month_lt j k ≡ true
gt_of (y, m) (y', m') e = ground arith

month_lt_trans :
    (i j k : MonthKey) → month_lt i j ≡ true → month_lt j k ≡ true → month_lt i k ≡ true
month_lt_trans (y, m) (y', m') (y'', m'') e h = ground arith

insert_month-ascending :
    (k : MonthKey) (months : List MonthKey)
    → are_ascending months ≡ true
    → are_ascending (insert_month k months) ≡ true
unfolding insert_month
insert_month-ascending k [] e = refl
insert_month-ascending k (j ∷ months) e = elim (Bool-cases (same_month k j)) [
  | inl same ↦ rw same e
  | inr other ↦ rw other (elim (Bool-cases (month_le k j)) [
    | inl le ↦ rw le (
        ground (
          arith,
          lt_of k j other le,
          all-weaken (month_lt j) (month_lt k) months
              (λ i h. month_lt_trans k j i (lt_of k j other le) h),
        ))
    | inr gt ↦ rw gt (
        ground (
          arith,
          all-insert_month (month_lt j) k months (gt_of k j gt),
          insert_month-ascending k months,
        ))
  ])
]

sorted_months-ascending : (months : List MonthKey) → are_ascending (sorted_months months) ≡ true
unfolding sorted_months
sorted_months-ascending [] = refl
sorted_months-ascending (k ∷ months) =
    insert_month-ascending k (sorted_months months) (sorted_months-ascending months)

both : (a b : Bool) → a ≡ true → b ≡ true → (a && b) ≡ true
both a b e h = rw e h

first_of : (k : MonthKey) (months : List MonthKey) → any (same_month k) (k ∷ months) ≡ true
first_of (y, m) months = ground arith

also_after :
    (j k : MonthKey) (months : List MonthKey)
    → any (same_month j) months ≡ true
    → any (same_month j) (k ∷ months) ≡ true
also_after j k months e = ground arith

-- The months of a list are among a list that has them all.
all_among :
    (months keys : List MonthKey)
    → ((k : MonthKey) → any (same_month k) months ≡ true → any (same_month k) keys ≡ true)
    → all (λ k. any (same_month k) keys) months ≡ true
all_among [] keys f = refl
all_among (k ∷ months) keys f =
    both (any (same_month k) keys) (all (λ j. any (same_month j) keys) months)
      (f k (first_of k months)) (all_among months keys (λ j e. f j (also_after j k months e)))

any_month :
    (h : History) (months : List MonthKey)
    → h.months ≡ months
    → are_ascending h.months ≡ true
    → all (has_inputs h) h.months ≡ true
    → Complete (if_any_month h months)
any_month h [] e a b = tt
any_month h (k ∷ months) e a b = (λ n. cc, a, b)

module _ (a b d : DatedSeries TrendDirection) (c : DatedSeries ℤ) where
  abbrev assembled : History
  assembled = history_of (directions a) (directions b) (levels c) (directions d)

  every_input :
      (k : MonthKey)
      → (((any (same_month k) (map (λ p. month_key p.obs_date) a.points)
              && any (same_month k) (map (λ p. month_key p.obs_date) b.points))
            && any (same_month k) (map (λ p. month_key p.obs_date) c.points))
          && any (same_month k) (map (λ p. month_key p.obs_date) d.points))
        ≡ true
      → has_inputs assembled k ≡ true
  unfolding history_of
  every_input k e = ground (
    arith,
    indexed a.points none k,
    indexed b.points none k,
    indexed c.points none k,
    indexed d.points none k,
  )

  assembled-Complete : Complete (if_any_month assembled assembled.months)
  unfolding history_of common_months
  assembled-Complete =
      let of_a = map (λ p. month_key p.obs_date) a.points in
      let in_a : MonthKey → Bool = λ k. any (same_month k) of_a in
      let in_b : MonthKey → Bool =
        λ k. any (same_month k) (map (λ p. month_key p.obs_date) b.points) in
      let in_c : MonthKey → Bool =
        λ k. any (same_month k) (map (λ p. month_key p.obs_date) c.points) in
      let in_d : MonthKey → Bool =
        λ k. any (same_month k) (map (λ p. month_key p.obs_date) d.points) in
      let ab = all-select in_a in_b of_a (all_among of_a of_a (λ k e. e)) in
      let abc = all-select (λ k. in_a k && in_b k) in_c (select in_b of_a) ab in
      let abcd =
        all-select (λ k. (in_a k && in_b k) && in_c k) in_d (select in_c (select in_b of_a)) abc in
      let shared = select in_d (select in_c (select in_b of_a)) in
      any_month assembled assembled.months refl (sorted_months-ascending shared) (
        all-sorted_months (has_inputs assembled) shared (
          all-weaken (λ k. ((in_a k && in_b k) && in_c k) && in_d k) (has_inputs assembled) shared
            every_input abcd))

module _ (growth : ℤ → ℤ → ℤ) (threshold : ℕ) (today : Date) (rows : List MacroObservation) where
  -- Whatever is stored, `_load` either finds that a scope is not computable, and raises no other exception, or
  -- gives at least one month, the months in order and each once, and each with all four inputs that are required.
  pub load-Complete : (scope : Market) → Complete (load growth threshold today rows scope)
  unfolding load load_inputs loaded_from resolve_monthly compute compute_in compute_by monthly_input
      resolve_series world_series get_definition get_source world_kpi
  load-Complete usa = assembled-Complete _ _ _ _
  load-Complete japan = tt
  load-Complete spain_eurozone = assembled-Complete _ _ _ _
  load-Complete (other_market k) = tt
