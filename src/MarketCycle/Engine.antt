-- ===== src/MarketCycle/Engine.antt =====
-- The replay of the machine and its output (`_held`, `_status_for`, `_entry_signal` and `evaluate` of
-- backend/services/market_cycle_engine.py). The history is what `_load` returns; the display
-- dictionaries of signals and metrics are left out of the output.
pub mod Held
pub mod Moves
pub mod Runs
pub mod Ambiguity
use personal_fin_hub.Base.{
  ℕ, zero, suc, ◌+◌, Bool, true, false, ◌&&◌, Option, none, some, List, [], ◌∷◌, leb, if◌then◌else◌,
  select, map, length, sort_by,
}
use personal_fin_hub.MarketCycle.Graph.{
  CycleState, high_real_rates, first_rate_cut, EdgeDirection, Transition, MarketCycleConfig,
  outgoing,
}
use personal_fin_hub.MarketCycle.Signals.{History, MonthKey, holds}

pub data TransitionStatus : Type 0 where
  inactive emerging near triggered : TransitionStatus

pub data EntrySignal : Type 0 where
  no_signal favourable strong : EntrySignal

pub record ActiveTransition : Type 0 where
  pub source : CycleState
  pub target : CycleState
  pub status : TransitionStatus
  pub direction : EdgeDirection
  pub priority : ℕ
  pub held_months : ℕ
  pub required_months : ℕ

pub record Status : Type 0 where
  pub current_state : CycleState
  pub current_state_since : MonthKey
  pub active_transitions : List ActiveTransition
  pub entry_signals : EntrySignal
  pub ambiguous_confirmation : Bool

-- Python's truth of a list
abbrev pub non_empty {ℓ} : {A : Type ℓ} → List A → Bool
non_empty [] = false
non_empty (x ∷ xs) = true

unfoldable pub status_for : MarketCycleConfig → ℕ → TransitionStatus
status_for cfg held =
    if leb cfg.triggered held
    then triggered
    else if leb cfg.near held
    then near
    else if leb cfg.emerging held
    then emerging
    else inactive

abbrev pub is_triggered : TransitionStatus → Bool
is_triggered triggered = true
is_triggered _ = false

unfoldable pub entry_signal : CycleState → EntrySignal
entry_signal high_real_rates = favourable
entry_signal first_rate_cut = strong
entry_signal _ = no_signal

-- the variables of the loop of `evaluate`
pub record Replay : Type 0 where
  pub state : CycleState
  pub since : MonthKey

-- `if len(triggered) == 1`
abbrev pub advance : List Transition → MonthKey → Replay → Replay
advance (edge ∷ []) month r = record { state = edge.target; since = month }
advance _ month r = r

-- The loop of `_held`: from month `j` down, while the test holds.
pub count_back : (ℕ → Bool) → ℕ → ℕ
count_back test zero = if test zero then 1 else 0
count_back test (suc j) = if test (suc j) then suc (count_back test j) else 0

module _ (cfg : MarketCycleConfig) (h : History) where
  abbrev pub edge_holds : Transition → CycleState → ℕ → Bool
  edge_holds edge state j = non_empty edge.signals && holds cfg h edge.signals j state

  unfoldable pub held : Transition → CycleState → ℕ → ℕ
  unfolding count_back
  held edge state i = count_back (edge_holds edge state) i

  unfoldable pub triggered_edges : CycleState → ℕ → List Transition
  unfolding status_for
  triggered_edges state i =
      select (λ edge. is_triggered (status_for cfg (held edge state i))) (outgoing cfg state)

  -- one round of the loop, at month `i`
  unfoldable pub replay_step : ℕ → MonthKey → Replay → Replay
  replay_step i month r = advance (triggered_edges r.state i) month r

  -- `for i in range(len(months))`: the months from number `i` on
  unfoldable pub replay : List MonthKey → ℕ → Replay → Replay
  replay [] i r = r
  replay (month ∷ rest) i r = replay rest (i + 1) (replay_step i month r)

  abbrev pub active_transition : CycleState → ℕ → Transition → ActiveTransition
  active_transition state last edge = record {
    source = edge.source;
    target = edge.target;
    status = status_for cfg (held edge state last);
    direction = edge.direction;
    priority = edge.priority;
    held_months = held edge state last;
    required_months = cfg.triggered;
  }

  report : ℕ → Replay → Status
  report last r = record {
    current_state = r.state;
    current_state_since = r.since;
    active_transitions =
        sort_by (λ transition. transition.priority)
          (map (active_transition r.state last) (outgoing cfg r.state));
    entry_signals = entry_signal r.state;
    ambiguous_confirmation = leb 2 (length (triggered_edges r.state last));
  }

  pub evaluate_from : List MonthKey → Option Status
  unfolding report
  evaluate_from [] = none
  evaluate_from (first ∷ rest) = some (
      report (length rest)
        (replay (first ∷ rest) 0 (record { state = cfg.initial_state; since = first })))

  -- `none` stands for `NotComputable`, which `_load` raises where there is no month.
  unfoldable pub evaluate : Option Status
  unfolding evaluate_from
  evaluate = evaluate_from h.months
