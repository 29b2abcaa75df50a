-- ===== src/MarketCycle/Signals.antt =====
-- The eleven signals of backend/services/market_cycle_engine.py at one month (`_probe` with
-- `detail=False`). The history is a list of months and, for each metric, a look-up by month; a
-- look-up of a month without a value is `none`.
use personal_fin_hub.Base.{
  ℕ, zero, suc, ◌-◌, min, Bool, true, false, not, ◌&&◌, ◌||◌, Option, none, some, List, get_elem?,
  all, ltb_ℤ, ℤ,
}
use personal_fin_hub.MarketCycle.Graph.{
  CycleState, hiking_cycle, high_real_rates, is_state, SignalCode, inflation_rate_trend_increasing,
  policy_rate_trend_increasing, policy_rate_trend_decreasing, real_rates_high, real_rates_low,
  real_rates_declining, real_rates_climbing, hikes_resumed, hikes_stopped, cuts_stopped,
  first_cut_detected, MarketCycleConfig,
}

-- `TrendDirection` of backend/services/derived_kpi_calc.py
pub data TrendDirection : Type 0 where
  increasing stable decreasing : TrendDirection

abbrev pub is_direction : TrendDirection → TrendDirection → Bool
is_direction increasing increasing = true
is_direction stable stable = true
is_direction decreasing decreasing = true
is_direction _ _ = false

abbrev pub MonthKey : Type 0
MonthKey = ℕ × ℕ

pub record History : Type 0 where
  pub months : List MonthKey
  pub policy_rate_trend : MonthKey → Option TrendDirection
  pub inflation_rate_trend : MonthKey → Option TrendDirection
  pub real_interest_rate : MonthKey → Option ℤ
  pub real_interest_rate_trend : MonthKey → Option TrendDirection

-- `_num(indexes, name, months[i])`. The engine never passes an `i` out of range.
abbrev pub num {ℓ} : {A : Type ℓ} → (MonthKey → Option A) → List MonthKey → ℕ → Option A
num metric months i = elim (get_elem? months i) [ none ↦ none | some month ↦ metric month ]

-- `op` "==" and "!="
abbrev pub direction_is : Option TrendDirection → TrendDirection → Bool
direction_is none target = false
direction_is (some value) target = is_direction value target

abbrev pub direction_is_not : Option TrendDirection → TrendDirection → Bool
direction_is_not none target = false
direction_is_not (some value) target = not (is_direction value target)

-- `op` ">" and "<"
abbrev pub above : Option ℤ → ℤ → Bool
above none threshold = false
above (some value) threshold = ltb_ℤ threshold value

abbrev pub below : Option ℤ → ℤ → Bool
below none threshold = false
below (some value) threshold = ltb_ℤ value threshold

module _ (cfg : MarketCycleConfig) (h : History) where
  abbrev pub policy : ℕ → Option TrendDirection
  policy i = num h.policy_rate_trend h.months i

  -- `any(...)` over `prior`, the `k` months before `i`
  pub paused : ℕ → ℕ → Bool
  paused i zero = false
  paused i (suc k) = direction_is_not (policy (i - suc k)) increasing || paused i k

  -- `range(max(0, i - lookback), i)` has as many months as the smaller of the two.
  unfoldable pub hikes_resumed_probe : ℕ → Bool
  unfolding paused
  hikes_resumed_probe i =
      direction_is (policy i) increasing && paused i (min cfg.hikes_resumed_lookback_months i)

  unfoldable pub first_cut_probe : ℕ → CycleState → Bool
  first_cut_probe i state =
      direction_is (policy i) decreasing
      && (is_state state hiking_cycle || is_state state high_real_rates)

  unfoldable pub probe : SignalCode → ℕ → CycleState → Bool
  unfolding hikes_resumed_probe first_cut_probe
  probe inflation_rate_trend_increasing i state =
      direction_is (num h.inflation_rate_trend h.months i) increasing
  probe policy_rate_trend_increasing i state = direction_is (policy i) increasing
  probe policy_rate_trend_decreasing i state = direction_is (policy i) decreasing
  probe real_rates_declining i state =
      direction_is (num h.real_interest_rate_trend h.months i) decreasing
  probe real_rates_climbing i state =
      direction_is (num h.real_interest_rate_trend h.months i) increasing
  probe hikes_stopped i state = direction_is_not (policy i) increasing
  probe cuts_stopped i state = direction_is_not (policy i) decreasing
  probe real_rates_high i state = above (num h.real_interest_rate h.months i) cfg.real_rate_high
  probe real_rates_low i state = below (num h.real_interest_rate h.months i) cfg.real_rate_low
  probe hikes_resumed i state = hikes_resumed_probe i
  probe first_cut_detected i state = first_cut_probe i state

  -- `_signals_at(i, ...).holds(names)`
  unfoldable pub holds : List SignalCode → ℕ → CycleState → Bool
  holds names i state = all (λ code. probe code i state) names
