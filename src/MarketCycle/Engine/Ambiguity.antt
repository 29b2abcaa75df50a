-- ===== src/MarketCycle/Engine/Ambiguity.antt =====
-- In which states two candidate transitions of backend/services/market_cycle_engine.py can be triggered
-- at once.
use personal_fin_hub.Base.{
  ℕ, ◌≤◌, ◌≡◌, ◌≢◌, refl, ◌∙◌, inl, inr, Bool, true, false, Option, some, List, [], ◌∷◌, arith,
  length, length-select, select, if◌then◌else◌, leb, Bool-cases,
}
use personal_fin_hub.MarketCycle.Graph.{
  CycleState, low_real_rates, rising_inflation, hiking_cycle, high_real_rates, first_rate_cut,
  cutting_cycle, first_cut_detected, policy_rate_trend_decreasing, real_rates_high, hikes_resumed,
  real_rates_climbing, forward, reversed, edge_def, with_priority, Transition, MarketCycleConfig,
  get_default, outgoing,
}
use personal_fin_hub.MarketCycle.Signals.{
  TrendDirection, increasing, decreasing, direction_is, probe, History, MonthKey, policy, holds,
}
use personal_fin_hub.MarketCycle.Engine.{
  held, status_for, is_triggered, triggered_edges, Status, evaluate_from, evaluate,
}
use personal_fin_hub.MarketCycle.Engine.Held.{held_sound}
use personal_fin_hub.MarketCycle.Engine.Runs.{evaluate_from-cons}
use personal_fin_hub.MarketCycle.Engine.Moves.{edge_holds→holds, is_triggered-le}

module _ (cfg : MarketCycleConfig) (h : History) where
  -- Two candidates that cannot both fire make no tie.
  length-select_two :
      (test : Transition → Bool) (a b : Transition) (on : Bool)
      → (test a ≡ true → test b ≡ true → ⊥)
      → length (select test (a ∷ (if on then b ∷ [] else []))) ≤ 1
  length-select_two test a b true never = elim (Bool-cases (test a)) [
    | inl fa ↦ elim (Bool-cases (test b)) [
      | inl fb ↦ absurd (never fa fb)
      | inr nb ↦ rw (fa, nb) (omega arith)
    ]
    | inr na ↦ rw na (length-select test (b ∷ []))
  ]
  length-select_two test a b false never = length-select test (a ∷ [])

  fired :
      (edge : Transition) (state : CycleState) (i : ℕ)
      → 1 ≤ cfg.triggered
      → is_triggered (status_for cfg (held cfg h edge state i)) ≡ true
      → holds cfg h edge.signals i state ≡ true
  fired edge state i le e = edge_holds→holds cfg h edge state i (
      held_sound cfg h edge state i i (omega arith)
        (omega (arith, is_triggered-le cfg h (held cfg h edge state i) e)))

  -- One edge wants a policy rate that falls and the other one that rises.
  opposite :
      (v : Option TrendDirection)
      → direction_is v decreasing ≡ true
      → direction_is v increasing ≡ true
      → ⊥
  opposite v d u = ground arith

  high-exclusive :
      (i : ℕ)
      → holds cfg h (first_cut_detected ∷ []) i high_real_rates ≡ true
      → holds cfg h (hikes_resumed ∷ real_rates_climbing ∷ []) i high_real_rates ≡ true
      → ⊥
  unfolding holds probe
  high-exclusive i a b = ground (arith, opposite (policy cfg h i))

  first-exclusive :
      (i : ℕ)
      → holds cfg h (policy_rate_trend_decreasing ∷ []) i first_rate_cut ≡ true
      → holds cfg h (real_rates_high ∷ hikes_resumed ∷ []) i first_rate_cut ≡ true
      → ⊥
  unfolding holds probe
  first-exclusive i a b = ground (arith, opposite (policy cfg h i))

  abbrev fires : CycleState → ℕ → Transition → Bool
  fires state i edge = is_triggered (status_for cfg (held cfg h edge state i))

  -- the edges out of High Real Rates and out of First Rate Cut
  abbrev first_cut : Transition
  first_cut =
      with_priority cfg
        (edge_def high_real_rates first_rate_cut forward (first_cut_detected ∷ []) (4, 5) 4)

  abbrev hiking_again : Transition
  hiking_again = with_priority cfg (
      edge_def high_real_rates hiking_cycle reversed (hikes_resumed ∷ real_rates_climbing ∷ [])
        (4, 3) 9)

  abbrev more_cuts : Transition
  more_cuts =
      with_priority cfg
        (edge_def first_rate_cut cutting_cycle forward (policy_rate_trend_decreasing ∷ []) (5, 6) 5)

  abbrev high_again : Transition
  high_again = with_priority cfg (
      edge_def first_rate_cut high_real_rates reversed (real_rates_high ∷ hikes_resumed ∷ []) (5, 4)
        8)

  no_tie :
      (state : CycleState) (i : ℕ)
      → 1 ≤ cfg.triggered
      → state ≢ hiking_cycle
      → state ≢ cutting_cycle
      → length (triggered_edges cfg h state i) ≤ 1
  unfolding triggered_edges outgoing
  no_tie low_real_rates i le n3 n6 = ground arith
  no_tie rising_inflation i le n3 n6 = ground arith
  no_tie hiking_cycle i le n3 n6 = absurd (n3 refl)
  no_tie high_real_rates i le n3 n6 =
      length-select_two (fires high_real_rates i) first_cut hiking_again
        (get_default (cfg.reverse_edges_enabled (4, 3)) true)
        (λ a b.
          high-exclusive i (fired first_cut high_real_rates i le a)
            (fired hiking_again high_real_rates i le b))
  no_tie first_rate_cut i le n3 n6 =
      length-select_two (fires first_rate_cut i) more_cuts high_again
        (get_default (cfg.reverse_edges_enabled (5, 4)) true)
        (λ a b.
          first-exclusive i (fired more_cuts first_rate_cut i le a)
            (fired high_again first_rate_cut i le b))
  no_tie cutting_cycle i le n3 n6 = absurd (n6 refl)

  evaluate_from-nil : {A : Type 0} {s : Status} → evaluate_from cfg h [] ≡ some s → A
  unfolding evaluate_from
  evaluate_from-nil ev = cc

  leb_two : {n : ℕ} → n ≤ 1 → leb 2 n ≡ false
  leb_two le = ground arith

  evaluate_from-ambiguous :
      (months : List MonthKey) (s : Status)
      → 1 ≤ cfg.triggered
      → evaluate_from cfg h months ≡ some s
      → s.current_state ≢ hiking_cycle
      → s.current_state ≢ cutting_cycle
      → s.ambiguous_confirmation ≡ false
  evaluate_from-ambiguous [] s le ev n3 n6 = evaluate_from-nil ev
  evaluate_from-ambiguous (first ∷ rest) s le ev n3 n6 =
      let parts = evaluate_from-cons cfg h first rest ev in
      parts.2 ∙ leb_two (no_tie _ (length rest) le (λ e. n3 (parts.0 ∙ e)) (λ e. n6 (parts.0 ∙ e)))

  -- With a persistence period of at least one month, an ambiguous confirmation is reported only in the
  -- Hiking Cycle and in the Cutting Cycle: the two edges out of High Real Rates, and the two out of First Rate Cut,
  -- never tie.
  pub evaluate-unambiguous :
      (s : Status)
      → 1 ≤ cfg.triggered
      → evaluate cfg h ≡ some s
      → s.current_state ≢ hiking_cycle
      → s.current_state ≢ cutting_cycle
      → s.ambiguous_confirmation ≡ false
  unfolding evaluate
  evaluate-unambiguous s le ev n3 n6 = evaluate_from-ambiguous h.months s le ev n3 n6
