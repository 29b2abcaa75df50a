-- ===== src/MarketCycle/Graph.antt =====
-- The states and the legal edges of backend/services/market_cycle_engine.py, with the
-- configuration that numbers and disables them (backend/services/config.py).
use personal_fin_hub.Base.{
  ℕ, Bool, true, ◌&&◌, Option, none, some, List, [], ◌∷◌, ◌==◌, select, map, ℤ,
}

pub data CycleState : Type 0 where
  low_real_rates rising_inflation hiking_cycle high_real_rates first_rate_cut cutting_cycle :
      CycleState

-- the values of the IntEnum
abbrev pub state_id : CycleState → ℕ
state_id low_real_rates = 1
state_id rising_inflation = 2
state_id hiking_cycle = 3
state_id high_real_rates = 4
state_id first_rate_cut = 5
state_id cutting_cycle = 6

abbrev pub is_state : CycleState → CycleState → Bool
is_state s t = state_id s == state_id t

pub data EdgeDirection : Type 0 where
  forward reversed : EdgeDirection

-- SIGNAL_CODES
pub data SignalCode : Type 0 where
  inflation_rate_trend_increasing policy_rate_trend_increasing policy_rate_trend_decreasing
        real_rates_high real_rates_low real_rates_declining real_rates_climbing hikes_resumed
        hikes_stopped cuts_stopped first_cut_detected :
      SignalCode

-- A key such as "4->3".
abbrev pub EdgeKey : Type 0
EdgeKey = ℕ × ℕ

pub record Transition : Type 0 where
  pub source : CycleState
  pub target : CycleState
  pub direction : EdgeDirection
  pub signals : List SignalCode
  pub key : EdgeKey
  pub priority : ℕ

-- The market_cycle properties of `Config`. A dictionary is the function that its `get` is; rates are
-- fixed-point numbers.
pub record MarketCycleConfig : Type 0 where
  pub initial_state : CycleState
  pub real_rate_high : ℤ
  pub real_rate_low : ℤ
  pub emerging : ℕ
  pub near : ℕ
  pub triggered : ℕ
  pub hikes_resumed_lookback_months : ℕ
  pub reverse_edges_enabled : EdgeKey → Option Bool
  pub priority : EdgeKey → Option ℕ

-- One line of _EDGE_DEFS; the priority is the line's number until `edges` overrides it.
abbrev pub edge_def :
    CycleState → CycleState → EdgeDirection → List SignalCode → EdgeKey → ℕ → Transition
edge_def source target direction signals key index = record {
  source = source;
  target = target;
  direction = direction;
  signals = signals;
  key = key;
  priority = index;
}

abbrev pub edge_defs : List Transition
edge_defs =
    edge_def low_real_rates rising_inflation forward (inflation_rate_trend_increasing ∷ []) (1, 2) 1
    ∷ edge_def rising_inflation hiking_cycle forward (policy_rate_trend_increasing ∷ []) (2, 3) 2
    ∷ edge_def hiking_cycle high_real_rates forward (real_rates_high ∷ []) (3, 4) 3
    ∷ edge_def high_real_rates first_rate_cut forward (first_cut_detected ∷ []) (4, 5) 4
    ∷ edge_def first_rate_cut cutting_cycle forward (policy_rate_trend_decreasing ∷ []) (5, 6) 5
    ∷ edge_def cutting_cycle low_real_rates forward (real_rates_low ∷ []) (6, 1) 6
    ∷ edge_def cutting_cycle rising_inflation reversed (real_rates_declining ∷ cuts_stopped ∷ [])
        (6, 2) 7
    ∷ edge_def first_rate_cut high_real_rates reversed (real_rates_high ∷ hikes_resumed ∷ []) (5, 4)
        8
    ∷ edge_def high_real_rates hiking_cycle reversed (hikes_resumed ∷ real_rates_climbing ∷ [])
        (4, 3) 9
    ∷ edge_def hiking_cycle rising_inflation reversed
        (hikes_stopped ∷ inflation_rate_trend_increasing ∷ []) (3, 2) 10
    ∷ []

-- `dict.get(key, default)`
abbrev pub get_default {ℓ} : {A : Type ℓ} → Option A → A → A
get_default none d = d
get_default (some a) d = a

abbrev pub with_priority : MarketCycleConfig → Transition → Transition
with_priority cfg e = record e { priority = get_default (cfg.priority e.key) e.priority }

unfoldable pub edges : MarketCycleConfig → List Transition
edges cfg = map (with_priority cfg) edge_defs

abbrev pub enabled_in : EdgeDirection → Option Bool → Bool
enabled_in forward flag = true
enabled_in reversed flag = get_default flag true

unfoldable pub edge_enabled : MarketCycleConfig → Transition → Bool
edge_enabled cfg edge = enabled_in edge.direction (cfg.reverse_edges_enabled edge.key)

unfoldable pub outgoing : MarketCycleConfig → CycleState → List Transition
unfolding edges edge_enabled
outgoing cfg state =
    select (λ edge. is_state edge.source state && edge_enabled cfg edge) (edges cfg)
