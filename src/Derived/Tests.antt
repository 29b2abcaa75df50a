-- ===== src/Derived/Tests.antt =====
-- Series of policy rates, and the theorems at them.
use personal_fin_hub.Base.{◌≡◌, refl, List, false, ◌≢◌, none, [], ◌∷◌, ℕ, ℤ, pos, ◌-ℤ◌, arith}
use personal_fin_hub.MarketCycle.Signals.{increasing, decreasing, stable}
use personal_fin_hub.Derived.Trends.{
  monthly, event, Date, DatedPoint, DatedSeries, days_in_month, last_day_of_month, min_date,
  latest_from, latest_at_or_before, resample, turns, month_index, to_monthly, slope_step,
  steps_from, direction, differences, by_month, difference, real_rate,
}
use personal_fin_hub.Derived.World.{
  real_interest_rate, japan, spain_eurozone, ecb_deposit_rate, eurozone_cpi_yoy, found,
  MacroObservation, upsert_macro_observation, get_macro_observations, normalize, world_market_keys,
  get_source, world_kpi,
}
use personal_fin_hub.Derived.Registry.{
  levels, get_definition, intersect, input_markets, market_keys_in, market_keys, world_series,
  resolve_series, monthly_input, compute_by, compute_in, compute, derived_kpi,
}
use personal_fin_hub.Derived.Answers.{Answers, derived_kpi-Answers}
use personal_fin_hub.Derived.Months.{IsDate, months_of, months_from, AreLatest, to_monthly-Grid}

abbrev on : ℕ → ℕ → ℕ → ℤ → DatedPoint ℤ
on year month day v = record {
  obs_date = record { year = year; month = month; day = day };
  value = v;
}

-- A central bank's decisions, in hundredths of a percent.
abbrev policy_rates : DatedSeries ℤ
policy_rates = record {
  resolution = event;
  points = on 2023 11 15 (pos 400) ∷ on 2024 1 10 (pos 425) ∷ on 2024 2 20 (pos 400) ∷ [];
}

abbrev in_february : Date
in_february = record { year = 2024; month = 2; day = 25 }

-- February of a leap year, up to its twenty-fifth day
policy_months : to_monthly policy_rates none in_february ≡ record {
  resolution = monthly;
  points =
      on 2023 11 30 (pos 400)
      ∷ on 2023 12 31 (pos 400)
      ∷ on 2024 1 31 (pos 425)
      ∷ on 2024 2 25 (pos 400)
      ∷ [];
}
unfolding to_monthly resample latest_at_or_before latest_from min_date last_day_of_month
    days_in_month
policy_months = refl

-- A step up, then down; a step within the threshold is none.
policy_steps : slope_step 10 policy_rates ≡ record {
  resolution = event;
  points =
      record { obs_date = record { year = 2024; month = 1; day = 10 }; value = increasing }
      ∷ record { obs_date = record { year = 2024; month = 2; day = 20 }; value = decreasing }
      ∷ [];
}
unfolding slope_step steps_from direction ◌-ℤ◌
policy_steps = refl

within_threshold : direction (pos 10) 10 ≡ stable
unfolding direction
within_threshold = refl

-- The months of both series, whatever the days; of two points of one month the later counts.
january_only :
    difference
      (record {
        resolution = monthly;
        points = on 2023 12 31 (pos 400) ∷ on 2024 1 31 (pos 425) ∷ [];
      })
      (record {
        resolution = monthly;
        points = on 2024 1 1 (pos 310) ∷ on 2024 1 15 (pos 300) ∷ [];
      })
    ≡ record { resolution = monthly; points = on 2024 1 31 (pos 125) ∷ [] }
unfolding difference differences by_month ◌-ℤ◌
january_only = refl

event_months : event ≢ monthly
event_months e = cc

first-IsDate : IsDate (record { year = 2023; month = 11; day = 15 })
unfolding days_in_month
first-IsDate = record {
  from_january = omega arith;
  to_december = omega arith;
  in_month = omega arith;
}

today-IsDate : IsDate in_february
unfolding days_in_month
today-IsDate = record {
  from_january = omega arith;
  to_december = omega arith;
  in_month = omega arith;
}

to_monthly-Grid_example :
    let s = to_monthly policy_rates none in_february in
    (s.resolution ≡ monthly)
    × (months_of s.points
        ≡ months_from
            (month_index (2023, 11))
            (turns (record { year = 2023; month = 11; day = 15 }) in_february))
    × AreLatest policy_rates.points in_february s.points
to_monthly-Grid_example =
    to_monthly-Grid event (on 2023 11 15 (pos 400))
      (on 2024 1 10 (pos 425) ∷ on 2024 2 20 (pos 400) ∷ []) none in_february event_months
      first-IsDate today-IsDate refl

-- A deposit rate and an inflation of the euro area.
abbrev stored : List MacroObservation
stored =
    record {
      slug = ecb_deposit_rate;
      obs_date = record { year = 2024; month = 1; day = 10 };
      value = pos 400;
    }
    ∷ record {
      slug = eurozone_cpi_yoy;
      obs_date = record { year = 2024; month = 1; day = 31 };
      value = pos 310;
    }
    ∷ []

euro_real_rate :
    derived_kpi ◌-ℤ◌ 0 in_february stored real_interest_rate spain_eurozone
    ≡ found (levels (record { resolution = monthly; points = on 2024 1 31 (pos 90) ∷ [] }))
unfolding derived_kpi compute compute_in compute_by monthly_input resolve_series world_series
    market_keys market_keys_in input_markets intersect get_definition world_market_keys get_source
    world_kpi normalize get_macro_observations real_rate difference differences by_month to_monthly
    resample latest_at_or_before latest_from min_date last_day_of_month days_in_month ◌-ℤ◌
euro_real_rate = refl

-- A point that is there stays as it is.
stored_once :
    upsert_macro_observation eurozone_cpi_yoy
      (record { year = 2024; month = 1; day = 31 })
      (pos 5)
      stored
    ≡ (false, stored)
unfolding upsert_macro_observation
stored_once = refl

derived_kpi-Answers_example :
    Answers real_interest_rate japan
      (derived_kpi ◌-ℤ◌ 0 in_february stored real_interest_rate japan)
derived_kpi-Answers_example = derived_kpi-Answers ◌-ℤ◌ 0 in_february stored real_interest_rate japan
