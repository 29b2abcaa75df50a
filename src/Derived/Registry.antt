-- ===== src/Derived/Registry.antt =====
-- Derived indicators: the registry, the markets of each and their computation
-- (backend/services/derived_kpi_svc.py). Names are resolved on fuel, one unit for each derived indicator on the way
-- to a world indicator. Sets of markets are lists in the order of `sorted`.
use personal_fin_hub.Base.{
  ℕ, zero, suc, Option, none, some, List, [], ◌∷◌, any, select, get_elem?, if◌then◌else◌, ℤ,
}
use personal_fin_hub.MarketCycle.Signals.{TrendDirection}
use personal_fin_hub.Derived.Trends.{
  Date, DatedPoint, DatedSeries, to_monthly, slope_step, difference, real_rate,
}
use personal_fin_hub.Derived.World.{
  KpiName, policy_rate, yield_10y, inflation_rate, m2_growth, policy_rate_trend,
  inflation_rate_trend, m2_growth_trend, real_interest_rate, real_interest_rate_trend,
  yield_curve_slope, yield_curve_slope_trend, Market, derived_not_defined, index_error, type_error,
  recursion_error, KpiResult, found, failed, and_then, or_failed, MacroObservation, is_market,
  world_market_keys, get_source, world_kpi, latest_of,
}

pub data ComputationKind : Type 0 where
  by_slope_step by_real_rate by_difference : ComputationKind

pub data ValueKind : Type 0 where
  numeric_kind direction_kind : ValueKind

pub record DerivedDefinition : Type 0 where
  pub inputs : List KpiName
  pub computation : ComputationKind
  pub value_kind : ValueKind

abbrev derived_from : List KpiName → ComputationKind → ValueKind → Option DerivedDefinition
derived_from inputs computation kind =
    some (record { inputs = inputs; computation = computation; value_kind = kind })

abbrev pub registry : KpiName → Option DerivedDefinition
registry policy_rate_trend = derived_from (policy_rate ∷ []) by_slope_step direction_kind
registry inflation_rate_trend = derived_from (inflation_rate ∷ []) by_slope_step direction_kind
registry m2_growth_trend = derived_from (m2_growth ∷ []) by_slope_step direction_kind
registry real_interest_rate =
    derived_from (policy_rate ∷ inflation_rate ∷ []) by_real_rate numeric_kind
registry real_interest_rate_trend =
    derived_from (real_interest_rate ∷ []) by_slope_step direction_kind
registry yield_curve_slope = derived_from (yield_10y ∷ policy_rate ∷ []) by_difference numeric_kind
registry yield_curve_slope_trend =
    derived_from (yield_curve_slope ∷ []) by_slope_step direction_kind
registry _ = none

unfoldable pub get_definition : KpiName → KpiResult DerivedDefinition
get_definition name = or_failed derived_not_defined (registry name)

-- A derived series has levels or directions.
pub data DerivedSeries : Type 0 where
  levels : DatedSeries ℤ → DerivedSeries
  directions : DatedSeries TrendDirection → DerivedSeries

abbrev pub common : Option (List Market) → List Market → List Market
common none ms = ms
common (some found_so_far) ms = select (λ m. any (is_market m) ms) found_so_far

abbrev pub or_empty : Option (List Market) → List Market
or_empty none = []
or_empty (some ms) = ms

-- `for input_name in definition.inputs`
unfoldable pub intersect :
    (KpiName → KpiResult (List Market))
    → Option (List Market)
    → List KpiName
    → KpiResult (List Market)
intersect markets_of so_far [] = found (or_empty so_far)
intersect markets_of so_far (name ∷ inputs) =
    and_then (markets_of name) (λ ms. intersect markets_of (some (common so_far ms)) inputs)

-- `_input_markets`, given `market_keys`
unfoldable pub input_markets :
    (KpiName → KpiResult (List Market)) → KpiName → KpiResult (List Market)
input_markets derived name = elim (registry name) [
  | some d ↦ derived name
  | none ↦ world_market_keys name
]

unfoldable pub market_keys_in : ℕ → KpiName → KpiResult (List Market)
market_keys_in zero name = failed recursion_error
market_keys_in (suc fuel) name =
    and_then (get_definition name)
      (λ d. intersect (λ n. input_markets (λ m. market_keys_in fuel m) n) none d.inputs)

-- The registry is two deep.
unfoldable pub market_keys : KpiName → KpiResult (List Market)
market_keys name = market_keys_in 2 name

-- `cast(DatedSeries[float], ...)`, which Python does not check: directions would fail in the arithmetic of the
-- first two points.
abbrev pub as_levels : DerivedSeries → KpiResult (DatedSeries ℤ)
as_levels (levels s) = found s
as_levels (directions s) = failed type_error

abbrev pub monthly_of : Date → DerivedSeries → DerivedSeries
monthly_of today (levels s) = levels (to_monthly s none today)
monthly_of today (directions s) = directions (to_monthly s none today)

-- The point of `latest_derived_kpi`, a level or a direction.
pub data LatestPoint : Type 0 where
  latest_level : Option (DatedPoint ℤ) → LatestPoint
  latest_direction : Option (DatedPoint TrendDirection) → LatestPoint

abbrev latest_in : DerivedSeries → LatestPoint
latest_in (levels s) = latest_level (latest_of none s.points)
latest_in (directions s) = latest_direction (latest_of none s.points)

module _ (growth : ℤ → ℤ → ℤ) (threshold : ℕ) (today : Date) (rows : List MacroObservation) where
  unfoldable pub world_series : KpiName → Market → KpiResult (DatedSeries ℤ)
  world_series name market = and_then (get_source name market) (λ s.
      and_then (world_kpi growth name market rows)
        (λ points. found (record { resolution = s.resolution; points = points })))

  -- `_resolve_series`, given `_compute`
  unfoldable pub resolve_series :
      (KpiName → KpiResult DerivedSeries) → KpiName → Market → KpiResult DerivedSeries
  resolve_series computed name market = elim (registry name) [
    | some d ↦ computed name
    | none ↦ and_then (world_series name market) (λ s. found (levels s))
  ]

  -- `to_monthly(_resolve_series(definition.inputs[i], ...))` as levels
  unfoldable pub monthly_input :
      (KpiName → KpiResult DerivedSeries) → List KpiName → ℕ → Market → KpiResult (DatedSeries ℤ)
  monthly_input computed inputs i market =
      and_then (or_failed index_error (get_elem? inputs i)) (λ name.
        and_then (resolve_series computed name market)
          (λ s. and_then (as_levels s) (λ l. found (to_monthly l none today))))

  unfoldable pub compute_by :
      (KpiName → KpiResult DerivedSeries)
      → List KpiName
      → Market
      → ComputationKind
      → KpiResult DerivedSeries
  compute_by computed inputs market by_slope_step =
      and_then (monthly_input computed inputs 0 market)
        (λ base. found (directions (slope_step threshold base)))
  compute_by computed inputs market by_real_rate =
      and_then (monthly_input computed inputs 0 market) (λ policy.
        and_then (monthly_input computed inputs 1 market)
          (λ inflation. found (levels (real_rate policy inflation))))
  compute_by computed inputs market by_difference =
      and_then (monthly_input computed inputs 0 market) (λ left.
        and_then (monthly_input computed inputs 1 market)
          (λ right. found (levels (difference left right))))

  unfoldable pub compute_in : ℕ → KpiName → Market → KpiResult DerivedSeries
  compute_in zero name market = failed recursion_error
  compute_in (suc fuel) name market =
      and_then (get_definition name)
        (λ d. compute_by (λ n. compute_in fuel n market) d.inputs market d.computation)

  unfoldable pub compute : KpiName → Market → KpiResult DerivedSeries
  compute name market = compute_in 2 name market

  unfoldable pub derived_kpi : KpiName → Market → KpiResult DerivedSeries
  derived_kpi name market = elim (registry name) [
    | none ↦ failed derived_not_defined
    | some d ↦ and_then (market_keys name) (λ ms.
        if any (λ m. is_market m market) ms
        then compute name market
        else failed derived_not_defined)
  ]

  unfoldable pub resolve_monthly : KpiName → Market → KpiResult DerivedSeries
  resolve_monthly name market =
      and_then (resolve_series (λ n. compute n market) name market)
        (λ s. found (monthly_of today s))

  unfoldable pub latest_derived_kpi : KpiName → Market → KpiResult LatestPoint
  latest_derived_kpi name market = and_then (derived_kpi name market) (λ s. found (latest_in s))
