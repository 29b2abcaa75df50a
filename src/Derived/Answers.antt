-- ===== src/Derived/Answers.antt =====
-- What the access to a derived indicator answers, for every name and market (backend/services/derived_kpi_svc.py).
use personal_fin_hub.Base.{ℕ, ◌≡◌, refl, Bool, true, false, Option, none, some, List, any, ℤ}
use personal_fin_hub.Derived.Trends.{Date}
use personal_fin_hub.Derived.World.{
  KpiName, policy_rate, yield_10y, inflation_rate, m2_growth, policy_rate_trend,
  inflation_rate_trend, m2_growth_trend, real_interest_rate, real_interest_rate_trend,
  yield_curve_slope, yield_curve_slope_trend, other_kpi, Market, usa, japan, spain_eurozone,
  other_market, derived_not_defined, KpiResult, found, failed, MacroObservation, is_market,
  world_market_keys, get_source, world_kpi,
}
use personal_fin_hub.Derived.Registry.{
  ValueKind, numeric_kind, direction_kind, registry, get_definition, DerivedSeries, levels,
  directions, intersect, input_markets, market_keys_in, market_keys, world_series, resolve_series,
  monthly_input, compute_by, compute_in, compute, derived_kpi,
}

abbrev pub kind_of : DerivedSeries → ValueKind
kind_of (levels s) = numeric_kind
kind_of (directions s) = direction_kind

abbrev pub registered_kind : KpiName → Option ValueKind
registered_kind name = elim (registry name) [ none ↦ none | some d ↦ some d.value_kind ]

abbrev pub is_in : Market → KpiResult (List Market) → Bool
is_in market (found ms) = any (λ m. is_market m market) ms
is_in market (failed e) = false

-- A series of the registered kind for a market among the indicator's, and otherwise the one exception.
abbrev pub Answers : KpiName → Market → KpiResult DerivedSeries → Type 0
Answers name market (found s) =
    (is_in market (market_keys name) ≡ true) × (registered_kind name ≡ some (kind_of s))
Answers name market (failed e) =
    (is_in market (market_keys name) ≡ false) × (e ≡ derived_not_defined)

module _ (growth : ℤ → ℤ → ℤ) (threshold : ℕ) (today : Date) (rows : List MacroObservation) where
  -- Whatever is stored, a derived indicator has a series, of the kind that its definition says, in exactly the
  -- markets that `market_keys` lists for it; in any other, or under another name, DerivedNotDefined is
  -- raised. No input is missing, none is of the wrong kind, and the definitions refer to no cycle.
  pub derived_kpi-Answers :
      (name : KpiName) (market : Market)
      → Answers name market (derived_kpi growth threshold today rows name market)
  unfolding derived_kpi compute compute_in compute_by monthly_input resolve_series world_series
      market_keys market_keys_in input_markets intersect get_definition world_market_keys get_source
      world_kpi
  derived_kpi-Answers policy_rate_trend usa = (refl, refl)
  derived_kpi-Answers policy_rate_trend japan = (refl, refl)
  derived_kpi-Answers policy_rate_trend spain_eurozone = (refl, refl)
  derived_kpi-Answers policy_rate_trend (other_market k) = (refl, refl)
  derived_kpi-Answers inflation_rate_trend usa = (refl, refl)
  derived_kpi-Answers inflation_rate_trend japan = (refl, refl)
  derived_kpi-Answers inflation_rate_trend spain_eurozone = (refl, refl)
  derived_kpi-Answers inflation_rate_trend (other_market k) = (refl, refl)
  derived_kpi-Answers m2_growth_trend usa = (refl, refl)
  derived_kpi-Answers m2_growth_trend japan = (refl, refl)
  derived_kpi-Answers m2_growth_trend spain_eurozone = (refl, refl)
  derived_kpi-Answers m2_growth_trend (other_market k) = (refl, refl)
  derived_kpi-Answers real_interest_rate usa = (refl, refl)
  derived_kpi-Answers real_interest_rate japan = (refl, refl)
  derived_kpi-Answers real_interest_rate spain_eurozone = (refl, refl)
  derived_kpi-Answers real_interest_rate (other_market k) = (refl, refl)
  derived_kpi-Answers real_interest_rate_trend usa = (refl, refl)
  derived_kpi-Answers real_interest_rate_trend japan = (refl, refl)
  derived_kpi-Answers real_interest_rate_trend spain_eurozone = (refl, refl)
  derived_kpi-Answers real_interest_rate_trend (other_market k) = (refl, refl)
  derived_kpi-Answers yield_curve_slope usa = (refl, refl)
  derived_kpi-Answers yield_curve_slope japan = (refl, refl)
  derived_kpi-Answers yield_curve_slope spain_eurozone = (refl, refl)
  derived_kpi-Answers yield_curve_slope (other_market k) = (refl, refl)
  derived_kpi-Answers yield_curve_slope_trend usa = (refl, refl)
  derived_kpi-Answers yield_curve_slope_trend japan = (refl, refl)
  derived_kpi-Answers yield_curve_slope_trend spain_eurozone = (refl, refl)
  derived_kpi-Answers yield_curve_slope_trend (other_market k) = (refl, refl)
  derived_kpi-Answers policy_rate market = (refl, refl)
  derived_kpi-Answers yield_10y market = (refl, refl)
  derived_kpi-Answers inflation_rate market = (refl, refl)
  derived_kpi-Answers m2_growth market = (refl, refl)
  derived_kpi-Answers (other_kpi k) market = (refl, refl)
