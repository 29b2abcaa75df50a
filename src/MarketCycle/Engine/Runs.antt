-- ===== src/MarketCycle/Engine/Runs.antt =====
-- Whole runs of `evaluate` (backend/services/market_cycle_engine.py) over the months of a history, and what a
-- move into First Rate Cut comes from.
use mathlib.Core.Option.{some-injective}
use personal_fin_hub.Base.{
  ℕ, zero, suc, ◌+◌, ◌-◌, ◌<◌, ◌≡◌, ◌≢◌, refl, sym, ◌∙◌, ap, inl, inr, Bool, true, some, List, [],
  ◌∷◌, arith, length, leb,
}
use personal_fin_hub.MarketCycle.Graph.{
  CycleState, high_real_rates, first_rate_cut, SignalCode, first_cut_detected, MarketCycleConfig,
}
use personal_fin_hub.MarketCycle.Signals.{
  decreasing, direction_is, probe, History, MonthKey, policy, holds,
}
use personal_fin_hub.MarketCycle.Engine.{
  Replay, triggered_edges, replay_step, replay, Status, evaluate_from, evaluate,
}
use personal_fin_hub.MarketCycle.Engine.Moves.{
  triggers, HoldsBack, IsConfirmed, replay_step-IsConfirmed,
}

-- A run over the months from number `i` on, from the first state of the machine to the last: in each month either
-- no or several edges are triggered and the state stays, or a confirmed move is made and dated by the month.
pub data Run (cfg : MarketCycleConfig) (h : History)
    : ℕ → List MonthKey → Replay → Replay → Type 0 where
  ended : {i : ℕ} {r : Replay} → Run cfg h i [] r r
  stays :
      {i : ℕ} {month : MonthKey} {rest : List MonthKey} {r t : Replay}
      → length (triggered_edges cfg h r.state i) ≢ 1
      → Run cfg h (i + 1) rest r t
      → Run cfg h i (month ∷ rest) r t
  moves :
      {i : ℕ} {month : MonthKey} {rest : List MonthKey} {r s t : Replay}
      → IsConfirmed cfg h i r.state s.state
      → s.since ≡ month
      → Run cfg h (i + 1) rest s t
      → Run cfg h i (month ∷ rest) r t

-- the variables of the loop before its first round
abbrev pub start : MarketCycleConfig → MonthKey → Replay
start cfg first = record { state = cfg.initial_state; since = first }

module _ (cfg : MarketCycleConfig) (h : History) where
  -- Before the persistence period is over no round moves.
  replay-early :
      (months : List MonthKey) (i : ℕ) (r : Replay)
      → i + length months < cfg.triggered
      → replay cfg h months i r ≡ r
  unfolding replay
  replay-early [] i r lt = refl
  replay-early (month ∷ rest) i r lt = elim (replay_step-IsConfirmed cfg h i month r) [
    | inl same ↦ rw same.1 (replay-early rest (i + 1) r (omega arith))
    | inr moved ↦ absurd (omega (arith, moved.0.enough_months))
  ]

  pub evaluate_from-cons :
      (first : MonthKey) (rest : List MonthKey) {s : Status}
      → evaluate_from cfg h (first ∷ rest) ≡ some s
      → let r = replay cfg h (first ∷ rest) 0 (start cfg first) in
        (s.current_state ≡ r.state)
        × (s.current_state_since ≡ r.since)
        × (s.ambiguous_confirmation ≡ leb 2 (length (triggered_edges cfg h r.state (length rest))))
  unfolding evaluate_from
  evaluate_from-cons first rest ev =
      let e = sym (some-injective _ _ ev) in
      (
        ap (λ (s : Status). s.current_state) e,
        ap (λ (s : Status). s.current_state_since) e,
        ap (λ (s : Status). s.ambiguous_confirmation) e,
      )

  -- A history shorter than the persistence period leaves the machine in its initial state, since the
  -- first month.
  pub evaluate-early :
      (first : MonthKey) (rest : List MonthKey) (s : Status)
      → h.months ≡ first ∷ rest
      → length h.months < cfg.triggered
      → evaluate cfg h ≡ some s
      → (s.current_state ≡ cfg.initial_state) × (s.current_state_since ≡ first)
  unfolding evaluate
  evaluate-early first rest s e lt ev =
      let parts = evaluate_from-cons first rest (ap (evaluate_from cfg h) (sym e) ∙ ev) in
      let idle =
        replay-early (first ∷ rest) 0 (start cfg first)
          (omega (arith, ap (λ (l : List MonthKey). length l) e)) in
      (parts.0 ∙ ap (λ (r : Replay). r.state) idle, parts.1 ∙ ap (λ (r : Replay). r.since) idle)

  HoldsBack-mono :
      (p q : ℕ → Bool)
      → ((j : ℕ) → p j ≡ true → q j ≡ true)
      → (i n : ℕ) → HoldsBack p i n
      → HoldsBack q i n
  HoldsBack-mono p q f i zero b = tt
  HoldsBack-mono p q f i (suc n) b = (f (i - n) b.0, HoldsBack-mono p q f i n b.1)

  holds-first_cut :
      (s : CycleState) (j : ℕ)
      → holds cfg h (first_cut_detected ∷ []) j s ≡ true
      → direction_is (policy cfg h j) decreasing ≡ true
  unfolding holds probe
  holds-first_cut s j e = ground arith

  triggers-first_rate_cut :
      (s : CycleState) (signals : List SignalCode)
      → triggers s first_rate_cut ≡ some signals
      → (s ≡ high_real_rates) × (signals ≡ first_cut_detected ∷ [])
  unfolding triggers
  triggers-first_rate_cut s signals e = ground arith

  first_cut_entry :
      (i : ℕ) (s : CycleState)
      → IsConfirmed cfg h i s first_rate_cut
      → (s ≡ high_real_rates)
        × HoldsBack (λ j. direction_is (policy cfg h j) decreasing) i cfg.triggered
  first_cut_entry i s c =
      let source = triggers-first_rate_cut s c.signals c.in_table in
      (
        source.0,
        HoldsBack-mono _ _ (λ j p. holds-first_cut s j (rw (← source.1) p)) i cfg.triggered
            c.confirmed,
      )

  -- A round that enters First Rate Cut comes from High Real Rates, after policy rates that fell at every
  -- month of the persistence period.
  pub first_rate_cut-entry :
      (i : ℕ) (month : MonthKey) (r : Replay)
      → r.state ≢ first_rate_cut
      → (replay_step cfg h i month r).state ≡ first_rate_cut
      → (r.state ≡ high_real_rates)
        × HoldsBack (λ j. direction_is (policy cfg h j) decreasing) i cfg.triggered
  first_rate_cut-entry i month r ne e = elim (replay_step-IsConfirmed cfg h i month r) [
    | inl same ↦ absurd (ne (ap (λ (q : Replay). q.state) (sym same.1) ∙ e))
    | inr moved ↦ first_cut_entry i r.state (rw e at moved.0)
  ]
