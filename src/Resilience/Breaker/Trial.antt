-- ===== src/Resilience/Breaker/Trial.antt =====
-- Admission of requests by `allow_request` and `can_proceed` (class CircuitBreaker of
-- backend/services/api_resilience.py) between two recorded outcomes.
use personal_fin_hub.Base.{
  ℕ, ◌+◌, ◌≡◌, refl, true, false, List, [], ◌∷◌, arith, any, ◌==◌, if◌then◌else◌, ◌⊎◌,
}
use personal_fin_hub.Resilience.Breaker.{
  closed, opened, half_open, CircuitBreaker, cooled_down, allow_request, can_proceed,
  record_success, record_failure,
}

-- `can_proceed` answers what the next `allow_request` would answer, and a refusal changes nothing.
pub can_proceed-eq-allow_request :
    (now : ℕ) (b : CircuitBreaker)
    → (can_proceed now b ≡ (allow_request now b).1)
      × (((allow_request now b).1 ≡ true) ⊎ ((allow_request now b).0 ≡ b))
unfolding can_proceed allow_request
can_proceed-eq-allow_request now b = ground arith

-- The number of requests granted when `allow_request` is called at each of these clock readings,
-- with no outcome recorded in between.
pub grants : List ℕ → CircuitBreaker → ℕ
grants [] b = 0
grants (t ∷ ts) b =
    let (b', granted) = allow_request t b in if granted then 1 + grants ts b' else grants ts b'

pub half_open-grants : (ts : List ℕ) (b : CircuitBreaker) → b.state ≡ half_open → grants ts b ≡ 0
unfolding grants allow_request
half_open-grants [] b h = refl
half_open-grants (t ∷ ts) b h = ground (arith, half_open-grants ts b h)

-- While an open breaker hears of no outcome it grants one request, the trial, if any call comes
-- after the cooldown, and none otherwise.
pub opened-grants :
    (ts : List ℕ) (b : CircuitBreaker)
    → b.state ≡ opened
    → grants ts b ≡ (if any (λ t. cooled_down t b) ts then 1 else 0)
unfolding grants allow_request
opened-grants [] b h = refl
opened-grants (t ∷ ts) b h =
    ground (arith, opened-grants ts b h, half_open-grants ts (record b { state = half_open }) refl)

-- A trial's outcome decides the circuit: success closes it with no failure counted, failure opens
-- it again for a cooldown that starts at the failure.
pub trial-outcome :
    (now : ℕ) (b : CircuitBreaker)
    → b.state ≡ half_open
    → ((record_success now b).state ≡ closed)
      × ((record_success now b).consecutive_failures ≡ 0)
      × ((record_failure now b).state ≡ opened)
      × (can_proceed now (record_failure now b) ≡ (if b.cooldown_seconds == 0 then true else false))
unfolding record_success record_failure can_proceed
trial-outcome now b h = ground arith
