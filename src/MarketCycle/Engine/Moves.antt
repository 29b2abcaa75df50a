-- ===== src/MarketCycle/Engine/Moves.antt =====
-- Which moves the replay of backend/services/market_cycle_engine.py makes: the transition table of
-- the state engine, written out once more as a function, and the months that confirm a move.
use personal_fin_hub.Base.{
  ℕ, zero, suc, ◌-◌, ◌≤◌, ◌≡◌, ◌≢◌, refl, ◌⊎◌, inl, inr, Bool, true, Option, none, some, List, [],
  ◌∷◌, arith, length, All, All-select,
}
use personal_fin_hub.MarketCycle.Graph.{
  CycleState, low_real_rates, rising_inflation, hiking_cycle, high_real_rates, first_rate_cut,
  cutting_cycle, SignalCode, inflation_rate_trend_increasing, policy_rate_trend_increasing,
  policy_rate_trend_decreasing, real_rates_high, real_rates_low, real_rates_declining,
  real_rates_climbing, hikes_resumed, hikes_stopped, cuts_stopped, first_cut_detected, Transition,
  MarketCycleConfig, get_default, outgoing,
}
use personal_fin_hub.MarketCycle.Signals.{History, MonthKey, holds}
use personal_fin_hub.MarketCycle.Engine.{
  Replay, advance, edge_holds, held, status_for, is_triggered, triggered_edges, replay_step,
}
use personal_fin_hub.MarketCycle.Engine.Held.{held-le, held_sound}

-- The signals that must hold for a move from the first state to the second; `none` where the
-- transition table has no such edge.
unfoldable pub triggers : CycleState → CycleState → Option (List SignalCode)
triggers low_real_rates rising_inflation = some (inflation_rate_trend_increasing ∷ [])
triggers rising_inflation hiking_cycle = some (policy_rate_trend_increasing ∷ [])
triggers hiking_cycle high_real_rates = some (real_rates_high ∷ [])
triggers high_real_rates first_rate_cut = some (first_cut_detected ∷ [])
triggers first_rate_cut cutting_cycle = some (policy_rate_trend_decreasing ∷ [])
triggers cutting_cycle low_real_rates = some (real_rates_low ∷ [])
triggers cutting_cycle rising_inflation = some (real_rates_declining ∷ cuts_stopped ∷ [])
triggers first_rate_cut high_real_rates = some (real_rates_high ∷ hikes_resumed ∷ [])
triggers high_real_rates hiking_cycle = some (hikes_resumed ∷ real_rates_climbing ∷ [])
triggers hiking_cycle rising_inflation = some (hikes_stopped ∷ inflation_rate_trend_increasing ∷ [])
triggers _ _ = none

-- A reverse move can be switched off.
pub permitted : MarketCycleConfig → CycleState → CycleState → Bool
permitted cfg cutting_cycle rising_inflation = get_default (cfg.reverse_edges_enabled (6, 2)) true
permitted cfg first_rate_cut high_real_rates = get_default (cfg.reverse_edges_enabled (5, 4)) true
permitted cfg high_real_rates hiking_cycle = get_default (cfg.reverse_edges_enabled (4, 3)) true
permitted cfg hiking_cycle rising_inflation = get_default (cfg.reverse_edges_enabled (3, 2)) true
permitted cfg _ _ = true

abbrev pub IsLegal : MarketCycleConfig → CycleState → Transition → Type 0
IsLegal cfg state edge =
    (triggers state edge.target ≡ some edge.signals) × (permitted cfg state edge.target ≡ true)

outgoing-IsLegal :
    (cfg : MarketCycleConfig) (state : CycleState) → All (IsLegal cfg state) (outgoing cfg state)
unfolding outgoing triggers permitted
outgoing-IsLegal cfg low_real_rates = ground arith
outgoing-IsLegal cfg rising_inflation = ground arith
outgoing-IsLegal cfg hiking_cycle = ground arith
outgoing-IsLegal cfg high_real_rates = ground arith
outgoing-IsLegal cfg first_rate_cut = ground arith
outgoing-IsLegal cfg cutting_cycle = ground arith

-- The test passes at each of the `n` months that end with month `i`.
abbrev pub HoldsBack : (ℕ → Bool) → ℕ → ℕ → Type 0
HoldsBack test i zero = Unit
HoldsBack test i (suc n) = (test (i - n) ≡ true) × HoldsBack test i n

-- A move at month `i` that the transition table allows and that the configured number of months
-- has confirmed.
pub record IsConfirmed (cfg : MarketCycleConfig) (h : History) (i : ℕ) (s t : CycleState)
    : Type 0 where
  pub signals : List SignalCode
  pub in_table : triggers s t ≡ some signals
  pub allowed : permitted cfg s t ≡ true
  pub enough_months : cfg.triggered ≤ suc i
  pub confirmed : HoldsBack (λ j. holds cfg h signals j s) i cfg.triggered

module _ (cfg : MarketCycleConfig) (h : History) where
  pub edge_holds→holds :
      (edge : Transition) (state : CycleState) (j : ℕ)
      → edge_holds cfg h edge state j ≡ true
      → holds cfg h edge.signals j state ≡ true
  edge_holds→holds edge state j e = ground arith

  held-HoldsBack :
      (edge : Transition) (state : CycleState) (i n : ℕ)
      → n ≤ held cfg h edge state i
      → HoldsBack (λ j. holds cfg h edge.signals j state) i n
  held-HoldsBack edge state i zero le = tt
  held-HoldsBack edge state i (suc n) le = (
    edge_holds→holds edge state (i - n) (
        held_sound cfg h edge state i (i - n) (omega arith)
          (omega (arith, held-le cfg h edge state i))),
    held-HoldsBack edge state i n (omega arith),
  )

  pub is_triggered-le : (n : ℕ) → is_triggered (status_for cfg n) ≡ true → cfg.triggered ≤ n
  unfolding status_for
  is_triggered-le n e = ground arith

  abbrev IsCandidate : CycleState → ℕ → Transition → Type 0
  IsCandidate state i edge =
      IsLegal cfg state edge × (is_triggered (status_for cfg (held cfg h edge state i)) ≡ true)

  triggered_edges-IsCandidate :
      (state : CycleState) (i : ℕ) → All (IsCandidate state i) (triggered_edges cfg h state i)
  unfolding triggered_edges
  triggered_edges-IsCandidate state i =
      All-select (IsLegal cfg state) _ (outgoing cfg state) (outgoing-IsLegal cfg state)

  IsCandidate-IsConfirmed :
      (state : CycleState) (i : ℕ) (edge : Transition)
      → IsCandidate state i edge
      → IsConfirmed cfg h i state edge.target
  IsCandidate-IsConfirmed state i edge c =
      let le = is_triggered-le (held cfg h edge state i) c.1 in
      record {
        signals = edge.signals;
        in_table = c.0.0;
        allowed = c.0.1;
        enough_months = omega (arith, le, held-le cfg h edge state i);
        confirmed = held-HoldsBack edge state i cfg.triggered le;
      }

  -- A round of the replay either changes nothing, and then there is not exactly one triggered
  -- edge, or makes a confirmed move of the transition table and dates the new state by this month.
  pub replay_step-IsConfirmed :
      (i : ℕ) (month : MonthKey) (r : Replay)
      → ((length (triggered_edges cfg h r.state i) ≢ 1) × (replay_step cfg h i month r ≡ r))
        ⊎ (IsConfirmed cfg h i r.state (replay_step cfg h i month r).state
            × ((replay_step cfg h i month r).since ≡ month))
  unfolding replay_step
  replay_step-IsConfirmed i month r =
      go (triggered_edges cfg h r.state i) (triggered_edges-IsCandidate r.state i)
    where
      go :
          (es : List Transition)
          → All (IsCandidate r.state i) es
          → ((length es ≢ 1) × (advance es month r ≡ r))
            ⊎ (IsConfirmed cfg h i r.state (advance es month r).state
                × ((advance es month r).since ≡ month))
      go [] c = inl (omega arith, refl)
      go (e ∷ []) c = inr (IsCandidate-IsConfirmed r.state i e c.0, refl)
      go (e ∷ f ∷ es) c = inl (omega arith, refl)
