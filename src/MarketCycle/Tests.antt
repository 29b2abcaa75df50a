-- ===== src/MarketCycle/Tests.antt =====
-- A run of the market cycle engine, and the theorems at concrete inputs.
use personal_fin_hub.Base.{
  ◌≡◌, ◌≢◌, refl, ◌⊎◌, false, none, some, List, [], ◌∷◌, arith, length, ltb, if◌then◌else◌, pos,
  ◌-ℤ◌,
}
use personal_fin_hub.MarketCycle.Graph.{
  low_real_rates, rising_inflation, hiking_cycle, high_real_rates, first_rate_cut,
  MarketCycleConfig, outgoing, Transition, forward, reversed, inflation_rate_trend_increasing,
}
use personal_fin_hub.MarketCycle.Signals.{
  increasing, stable, decreasing, History, MonthKey, probe, holds,
}
use personal_fin_hub.MarketCycle.Engine.{
  Replay, Status, TransitionStatus, EntrySignal, evaluate, held, status_for, triggered_edges,
  replay_step, replay, entry_signal,
}
use personal_fin_hub.MarketCycle.Engine.Moves.{IsConfirmed, replay_step-IsConfirmed}
use personal_fin_hub.MarketCycle.Engine.Ambiguity.{evaluate-unambiguous}
use personal_fin_hub.Derived.Trends.{Date}
use personal_fin_hub.Derived.World.{
  usa, spain_eurozone, ecb_deposit_rate, eurozone_cpi_yoy, found, MacroObservation,
  world_market_keys,
}
use personal_fin_hub.Derived.Registry.{
  get_definition, intersect, input_markets, market_keys, market_keys_in,
}
use personal_fin_hub.MarketCycle.Load.{load, scope_keys}
use personal_fin_hub.MarketCycle.Complete.{Complete, load-Complete}

-- The defaults of backend/services/config.py, with rates in hundredths of a percent.
abbrev cfg : MarketCycleConfig
cfg = record {
  initial_state = low_real_rates;
  real_rate_high = pos 100;
  real_rate_low = pos 25;
  emerging = 1;
  near = 2;
  triggered = 3;
  hikes_resumed_lookback_months = 6;
  reverse_edges_enabled = λ key. none;
  priority = λ key. none;
}

abbrev year : List MonthKey
year = (2024, 1) ∷ (2024, 2) ∷ (2024, 3) ∷ (2024, 4) ∷ (2024, 5) ∷ (2024, 6) ∷ (2024, 7) ∷ []

-- Inflation rises, then the policy rate does.
abbrev rising : History
rising = record {
  months = year;
  policy_rate_trend = λ m. if ltb m.1 4 then some stable else some increasing;
  inflation_rate_trend = λ m. if ltb m.1 4 then some increasing else some stable;
  real_interest_rate = λ m. some (pos 50);
  real_interest_rate_trend = λ m. some stable;
}

rising_since :
    replay cfg rising year 0 (record { state = low_real_rates; since = (2024, 1) })
    ≡ record { state = hiking_cycle; since = (2024, 6) }
unfolding replay replay_step triggered_edges held holds probe outgoing status_for
rising_since = refl

-- The same with months of falling policy rates in High Real Rates.
abbrev cutting : History
cutting = record rising { policy_rate_trend = λ m. some decreasing }

abbrev at_high : Replay
at_high = record { state = high_real_rates; since = (2023, 1) }

cutting_step : (replay_step cfg cutting 2 (2024, 3) at_high).state ≡ first_rate_cut
unfolding replay_step triggered_edges held holds probe outgoing status_for
cutting_step = refl

replay_step-IsConfirmed_example :
    ((length (triggered_edges cfg rising low_real_rates 2) ≢ 1)
      × (replay_step cfg rising 2 (2024, 3) (record { state = low_real_rates; since = (2024, 1) })
          ≡ record { state = low_real_rates; since = (2024, 1) }))
    ⊎ (IsConfirmed cfg rising 2 low_real_rates
          (replay_step cfg rising 2
            (2024, 3)
            (record { state = low_real_rates; since = (2024, 1) })).state
        × ((replay_step cfg rising 2
              (2024, 3)
              (record { state = low_real_rates; since = (2024, 1) })).since
            ≡ (2024, 3)))
replay_step-IsConfirmed_example =
    replay_step-IsConfirmed cfg rising 2 (2024, 3)
      (record { state = low_real_rates; since = (2024, 1) })

abbrev inflation_edge : Transition
inflation_edge = record {
  source = low_real_rates;
  target = rising_inflation;
  direction = forward;
  signals = inflation_rate_trend_increasing ∷ [];
  key = (1, 2);
  priority = 1;
}

brief : History
brief = record rising { months = (2024, 1) ∷ (2024, 2) ∷ [] }

abbrev initially : Status
initially = record {
  current_state = low_real_rates;
  current_state_since = (2024, 1);
  active_transitions =
      record {
        source = low_real_rates;
        target = rising_inflation;
        status = TransitionStatus.near;
        direction = forward;
        priority = 1;
        held_months = 2;
        required_months = 3;
      }
      ∷ [];
  entry_signals = EntrySignal.no_signal;
  ambiguous_confirmation = false;
}

brief_runs : evaluate cfg brief ≡ some initially
unfolding brief evaluate replay replay_step triggered_edges held holds probe outgoing status_for
    entry_signal
brief_runs = refl

-- The end of the year of rising inflation and then rates: two moves were made.
abbrev hiking : Status
hiking = record {
  current_state = hiking_cycle;
  current_state_since = (2024, 6);
  active_transitions =
      record {
        source = hiking_cycle;
        target = high_real_rates;
        status = TransitionStatus.inactive;
        direction = forward;
        priority = 3;
        held_months = 0;
        required_months = 3;
      }
      ∷ record {
        source = hiking_cycle;
        target = rising_inflation;
        status = TransitionStatus.inactive;
        direction = reversed;
        priority = 10;
        held_months = 0;
        required_months = 3;
      }
      ∷ [];
  entry_signals = EntrySignal.no_signal;
  ambiguous_confirmation = false;
}

evaluate-unambiguous_example : initially.ambiguous_confirmation ≡ false
evaluate-unambiguous_example =
    evaluate-unambiguous cfg brief initially (omega arith) brief_runs (λ e. cc) (λ e. cc)

-- Every scope with all inputs.
scopes : scope_keys ≡ found (spain_eurozone ∷ usa ∷ [])
unfolding scope_keys intersect input_markets market_keys market_keys_in get_definition
    world_market_keys
scopes = refl

abbrev spring : Date
spring = record { year = 2024; month = 3; day = 20 }

-- Two observations of the deposit rate and of inflation.
abbrev observations : List MacroObservation
observations =
    record {
      slug = ecb_deposit_rate;
      obs_date = record { year = 2024; month = 1; day = 10 };
      value = pos 400;
    }
    ∷ record {
      slug = ecb_deposit_rate;
      obs_date = record { year = 2024; month = 2; day = 14 };
      value = pos 425;
    }
    ∷ record {
      slug = eurozone_cpi_yoy;
      obs_date = record { year = 2024; month = 1; day = 31 };
      value = pos 310;
    }
    ∷ record {
      slug = eurozone_cpi_yoy;
      obs_date = record { year = 2024; month = 2; day = 29 };
      value = pos 330;
    }
    ∷ []

load-Complete_example : Complete (load ◌-ℤ◌ 0 spring observations spain_eurozone)
load-Complete_example = load-Complete ◌-ℤ◌ 0 spring observations spain_eurozone
