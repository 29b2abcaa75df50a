-- ===== src/MarketCycle/Engine/Held.antt =====
-- The persistence count `_held` of backend/services/market_cycle_engine.py against the months that
-- it counts.
use personal_fin_hub.Base.{ℕ, zero, suc, ◌+◌, ◌-◌, ◌≤◌, ◌<◌, ◌≡◌, Bool, true, arith}
use personal_fin_hub.MarketCycle.Graph.{CycleState, Transition, MarketCycleConfig}
use personal_fin_hub.MarketCycle.Signals.{History}
use personal_fin_hub.MarketCycle.Engine.{edge_holds, count_back, held}

suc_mono : {a b : ℕ} → a ≤ b → suc a ≤ suc b
suc_mono h = omega arith

module _ (test : ℕ → Bool) where
  count_back-le : (i : ℕ) → count_back test i ≤ suc i
  unfolding count_back
  count_back-le zero = ground arith
  count_back-le (suc i) = ground (arith, count_back-le i)

  count_back_sound : (i k j : ℕ) → j + k ≡ i → k < count_back test i → test j ≡ true
  unfolding count_back
  count_back_sound zero k j e lt = let e' : j ≡ zero = omega arith in rw e' (ground arith)
  count_back_sound (suc i) zero j e lt = let e' : j ≡ suc i = omega arith in rw e' (ground arith)
  count_back_sound (suc i) (suc k) j e lt = count_back_sound i k j (omega arith) (ground arith)

  count_back_complete :
      (i n : ℕ) → n ≤ suc i → ((j : ℕ) → i < j + n → j ≤ i → test j ≡ true) → n ≤ count_back test i
  unfolding count_back
  count_back_complete i zero le all_hold = omega arith
  count_back_complete zero (suc n) le all_hold = rw (all_hold zero (omega arith) (omega arith)) le
  count_back_complete (suc i) (suc n) le all_hold =
      rw (all_hold (suc i) (omega arith) (omega arith)) (
        suc_mono
          (count_back_complete i n (omega arith) (λ j p q. all_hold j (omega arith) (omega arith))))

module _ (cfg : MarketCycleConfig) (h : History) (edge : Transition) (state : CycleState) where
  pub held-le : (i : ℕ) → held cfg h edge state i ≤ suc i
  unfolding held
  held-le i = count_back-le (edge_holds cfg h edge state) i

  -- Every month that `_held` counts is one at which the edge's signals hold.
  pub held_sound :
      (i j : ℕ) → j ≤ i → i < j + held cfg h edge state i → edge_holds cfg h edge state j ≡ true
  unfolding held
  held_sound i j le lt =
      count_back_sound (edge_holds cfg h edge state) i (i - j) j (omega arith) (omega arith)

  -- If the signals hold at the `n` months that end with month `i`, `_held` counts them all.
  pub held_complete :
      (i n : ℕ)
      → n ≤ suc i
      → ((j : ℕ) → i < j + n → j ≤ i → edge_holds cfg h edge state j ≡ true)
      → n ≤ held cfg h edge state i
  unfolding held
  held_complete i n le all_hold = count_back_complete (edge_holds cfg h edge state) i n le all_hold
