-- ===== src/Derived/World.antt =====
-- World indicators: the registry and its access (backend/services/world_kpi_svc.py), the normalisations
-- (backend/services/world_kpi_calc.py) and the table of observations (backend/db/queries.py). A name that is in no
-- registry is `other_kpi`; a market's key that is in none is `other_market`.
use personal_fin_hub.Base.{
  ℕ, ◌+◌, ◌-◌, Bool, true, false, not, ◌&&◌, Option, none, some, List, [], ◌∷◌, ◌++◌, map, select,
  any, ◌==◌, if◌then◌else◌, sort_with, ℤ, pos_part, neg_part,
}
use personal_fin_hub.Derived.Trends.{
  Resolution, monthly, daily, event, Date, DatedPoint, date_le, by_month,
}

pub data KpiName : Type 0 where
  policy_rate yield_10y inflation_rate m2_growth : KpiName
  policy_rate_trend inflation_rate_trend m2_growth_trend : KpiName
  real_interest_rate real_interest_rate_trend yield_curve_slope yield_curve_slope_trend : KpiName
  other_kpi : ℕ → KpiName

pub data Market : Type 0 where
  usa japan spain_eurozone : Market
  other_market : ℕ → Market

-- The slugs of the macro series.
pub data Slug : Type 0 where
  usa_13w_bill_rate boj_policy_rate ecb_deposit_rate usa_10y_treasury_yield usa_cpi_yoy : Slug
  eurozone_cpi_yoy usa_m2_money_supply japan_m2_yoy eurozone_m2_yoy : Slug

abbrev slug_number : Slug → ℕ
slug_number usa_13w_bill_rate = 0
slug_number boj_policy_rate = 1
slug_number ecb_deposit_rate = 2
slug_number usa_10y_treasury_yield = 3
slug_number usa_cpi_yoy = 4
slug_number eurozone_cpi_yoy = 5
slug_number usa_m2_money_supply = 6
slug_number japan_m2_yoy = 7
slug_number eurozone_m2_yoy = 8

pub data KpiError : Type 0 where
  kpi_not_defined derived_not_defined index_error type_error recursion_error : KpiError

pub data KpiResult {ℓ} (A : Type ℓ) : Type ℓ where
  found : A → KpiResult A
  failed : KpiError → KpiResult A

abbrev pub and_then {ℓ ℓ'} :
    {A : Type ℓ} → {B : Type ℓ'} → KpiResult A → (A → KpiResult B) → KpiResult B
and_then (found x) f = f x
and_then (failed e) f = failed e

abbrev pub or_failed {ℓ} : {A : Type ℓ} → KpiError → Option A → KpiResult A
or_failed e none = failed e
or_failed e (some x) = found x

pub record MacroObservation : Type 0 where
  pub slug : Slug
  pub obs_date : Date
  pub value : ℤ

-- `INSERT OR IGNORE` into the table, whose key is the slug and the date
abbrev same_observation : Slug → Date → MacroObservation → Bool
same_observation s d o =
    (slug_number o.slug == slug_number s)
    && (o.obs_date.year == d.year)
    && (o.obs_date.month == d.month)
    && (o.obs_date.day == d.day)

unfoldable pub upsert_macro_observation :
    Slug → Date → ℤ → List MacroObservation → Bool × List MacroObservation
upsert_macro_observation s d v rows =
    if any (same_observation s d) rows
    then (false, rows)
    else (true, rows ++ (record { slug = s; obs_date = d; value = v } ∷ []))

unfoldable pub get_macro_observations : Slug → List MacroObservation → List (DatedPoint ℤ)
get_macro_observations s rows =
    sort_with (λ p q. date_le p.obs_date q.obs_date)
      (map (λ o. record { obs_date = o.obs_date; value = o.value })
        (select (λ o. slug_number o.slug == slug_number s) rows))

pub data Normalization : Type 0 where
  as_is yoy_from_level : Normalization

abbrev pub is_nonzero : ℤ → Bool
is_nonzero v = not (pos_part v + neg_part v == 0)

-- The month a year before. Python's dates begin with the year 1.
abbrev year_before : List (DatedPoint ℤ) → Date → Option ℤ
year_before series d = by_month none series (d.year - 1, d.month)

-- `(value / prior - 1) * 100` is the floats' own, the parameter `growth`.
abbrev put_growth :
    (ℤ → ℤ → ℤ) → DatedPoint ℤ → Option ℤ → List (DatedPoint ℤ) → List (DatedPoint ℤ)
put_growth growth p none rest = rest
put_growth growth p (some prior) rest =
    if is_nonzero prior
    then record { obs_date = p.obs_date; value = growth p.value prior } ∷ rest
    else rest

unfoldable pub growths :
    (ℤ → ℤ → ℤ) → List (DatedPoint ℤ) → List (DatedPoint ℤ) → List (DatedPoint ℤ)
growths growth series [] = []
growths growth series (p ∷ points) =
    put_growth growth p (year_before series p.obs_date) (growths growth series points)

unfoldable pub normalize : (ℤ → ℤ → ℤ) → Normalization → List (DatedPoint ℤ) → List (DatedPoint ℤ)
normalize growth as_is series = series
normalize growth yoy_from_level series =
    growths growth series (sort_with (λ p q. date_le p.obs_date q.obs_date) series)

pub record KpiSource : Type 0 where
  pub ref : Slug
  pub normalization : Normalization
  pub resolution : Resolution

abbrev source : Slug → Normalization → Resolution → KpiSource
source s n r = record { ref = s; normalization = n; resolution = r }

-- The registry: the source of each market, in the order of the markets' keys.
abbrev pub world_registry : KpiName → Option (List (Market × KpiSource))
world_registry policy_rate = some (
    (japan, source boj_policy_rate as_is event)
    ∷ (spain_eurozone, source ecb_deposit_rate as_is event)
    ∷ (usa, source usa_13w_bill_rate as_is daily)
    ∷ [])
world_registry yield_10y = some ((usa, source usa_10y_treasury_yield as_is daily) ∷ [])
world_registry inflation_rate = some (
    (spain_eurozone, source eurozone_cpi_yoy as_is monthly)
    ∷ (usa, source usa_cpi_yoy yoy_from_level monthly)
    ∷ [])
world_registry m2_growth = some (
    (japan, source japan_m2_yoy yoy_from_level monthly)
    ∷ (spain_eurozone, source eurozone_m2_yoy as_is monthly)
    ∷ (usa, source usa_m2_money_supply yoy_from_level monthly)
    ∷ [])
world_registry _ = none

abbrev pub is_market : Market → Market → Bool
is_market usa usa = true
is_market japan japan = true
is_market spain_eurozone spain_eurozone = true
is_market (other_market a) (other_market b) = a == b
is_market _ _ = false

unfoldable pub world_market_keys : KpiName → KpiResult (List Market)
world_market_keys name =
    and_then (or_failed kpi_not_defined (world_registry name)) (λ ms. found (map (λ m. m.0) ms))

abbrev pub source_in : Market → List (Market × KpiSource) → Option KpiSource
source_in market [] = none
source_in market ((m, s) ∷ ms) = if is_market m market then some s else source_in market ms

unfoldable pub get_source : KpiName → Market → KpiResult KpiSource
get_source name market =
    and_then (or_failed kpi_not_defined (world_registry name))
      (λ ms. or_failed kpi_not_defined (source_in market ms))

unfoldable pub world_kpi :
    (ℤ → ℤ → ℤ) → KpiName → Market → List MacroObservation → KpiResult (List (DatedPoint ℤ))
world_kpi growth name market rows =
    and_then (get_source name market)
      (λ s. found (normalize growth s.normalization (get_macro_observations s.ref rows)))

-- `max(points, key=...)` keeps the first of the latest
unfoldable pub latest_of {ℓ} :
    {A : Type ℓ} → Option (DatedPoint A) → List (DatedPoint A) → Option (DatedPoint A)
latest_of best [] = best
latest_of none (p ∷ points) = latest_of (some p) points
latest_of (some best) (p ∷ points) =
    latest_of (some (if date_le p.obs_date best.obs_date then best else p)) points

unfoldable pub latest_world_kpi :
    (ℤ → ℤ → ℤ) → KpiName → Market → List MacroObservation → KpiResult (Option (DatedPoint ℤ))
latest_world_kpi growth name market rows =
    and_then (world_kpi growth name market rows) (λ points. found (latest_of none points))
