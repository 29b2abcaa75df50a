-- ===== src/MarketCycle/Load.antt =====
-- The history that the engine replays: `_load` and what it calls (backend/services/market_cycle_engine.py), over
-- the derived indicators.
use personal_fin_hub.Base.{
  ℕ, Bool, ◌&&◌, Option, none, List, [], ◌∷◌, map, any, select, ◌==◌, if◌then◌else◌, ℤ,
}
use personal_fin_hub.MarketCycle.Signals.{TrendDirection, MonthKey, History}
use personal_fin_hub.Derived.Trends.{Date, month_key, month_le, by_month}
use personal_fin_hub.Derived.World.{
  KpiName, policy_rate, policy_rate_trend, inflation_rate, inflation_rate_trend, real_interest_rate,
  real_interest_rate_trend, Market, KpiError, kpi_not_defined, derived_not_defined, KpiResult,
  found, failed, and_then, MacroObservation,
}
use personal_fin_hub.Derived.Registry.{
  DerivedSeries, levels, directions, resolve_monthly, intersect, input_markets, market_keys,
}

-- `_index` of each kind of series. A trend has no numbers, and `_probe` asks a level for numbers only.
abbrev pub level_index : DerivedSeries → MonthKey → Option ℤ
level_index (levels s) month = by_month none s.points month
level_index (directions s) month = none

abbrev pub trend_index : DerivedSeries → MonthKey → Option TrendDirection
trend_index (levels s) month = none
trend_index (directions s) month = by_month none s.points month

-- `set(indexes[name])`, the months of a series
abbrev pub months_in : DerivedSeries → List MonthKey
months_in (levels s) = map (λ p. month_key p.obs_date) s.points
months_in (directions s) = map (λ p. month_key p.obs_date) s.points

abbrev pub same_month : MonthKey → MonthKey → Bool
same_month (y, m) (y', m') = y' == y && m' == m

unfoldable pub common_months : List MonthKey → List MonthKey → List MonthKey
common_months keys months = select (λ k. any (same_month k) keys) months

-- `sorted` of a set: each month once
unfoldable pub insert_month : MonthKey → List MonthKey → List MonthKey
insert_month k [] = k ∷ []
insert_month k (j ∷ months) =
    let rest = insert_month k months in
    if same_month k j then j ∷ months else if month_le k j then k ∷ j ∷ months else j ∷ rest

unfoldable pub sorted_months : List MonthKey → List MonthKey
sorted_months [] = []
sorted_months (k ∷ months) = insert_month k (sorted_months months)

unfoldable pub history_of : DerivedSeries → DerivedSeries → DerivedSeries → DerivedSeries → History
history_of policy inflation real real_trend = record {
  months = sorted_months (
      common_months (months_in real_trend)
        (common_months (months_in real) (common_months (months_in inflation) (months_in policy))));
  policy_rate_trend = trend_index policy;
  inflation_rate_trend = trend_index inflation;
  real_interest_rate = level_index real;
  real_interest_rate_trend = trend_index real_trend;
}

pub data Loaded : Type 0 where
  loaded : History → Loaded
  not_computable : Loaded
  not_caught : KpiError → Loaded

-- `except (DerivedNotDefined, KpiNotDefined)`
abbrev pub caught : KpiError → Loaded
caught kpi_not_defined = not_computable
caught derived_not_defined = not_computable
caught e = not_caught e

abbrev pub if_any_month : History → List MonthKey → Loaded
if_any_month h [] = not_computable
if_any_month h (k ∷ months) = loaded h

unfoldable pub loaded_from : KpiResult History → Loaded
loaded_from (found h) = if_any_month h h.months
loaded_from (failed e) = caught e

module _ (growth : ℤ → ℤ → ℤ) (threshold : ℕ) (today : Date) (rows : List MacroObservation) where
  abbrev pub monthly_series : KpiName → Market → KpiResult DerivedSeries
  monthly_series name scope = resolve_monthly growth threshold today rows name scope

  -- The inputs in the order of SCOPE_INPUTS.
  unfoldable pub load_inputs : Market → KpiResult History
  load_inputs scope = and_then (monthly_series policy_rate scope) (λ policy_level.
      and_then (monthly_series policy_rate_trend scope) (λ policy.
        and_then (monthly_series inflation_rate scope) (λ inflation_level.
          and_then (monthly_series inflation_rate_trend scope) (λ inflation.
            and_then (monthly_series real_interest_rate scope) (λ real.
              and_then (monthly_series real_interest_rate_trend scope)
                (λ real_trend. found (history_of policy inflation real real_trend)))))))

  unfoldable pub load : Market → Loaded
  load scope = loaded_from (load_inputs scope)

-- `scope_keys`, over the inputs of SCOPE_INPUTS
unfoldable pub scope_keys : KpiResult (List Market)
scope_keys =
    intersect (λ n. input_markets market_keys n) none
      (policy_rate ∷ policy_rate_trend ∷ inflation_rate ∷ inflation_rate_trend ∷ real_interest_rate
        ∷ real_interest_rate_trend ∷ [])
