-- ===== src/Resilience/Breaker.antt =====
-- `class CircuitBreaker` of backend/services/api_resilience.py, method by method. The lock makes
-- each method atomic, so a method is a function on the breaker's fields. A clock reading is a
-- number of ticks; `last_success_at` keeps the wall clock's reading instead of its ISO text.
pub mod History
pub mod Trial
use personal_fin_hub.Base.{
  ℕ, ◌+◌, Bool, true, false, not, Option, none, some, leb, if◌then◌else◌, max,
}

pub data CircuitState : Type 0 where
  closed opened half_open : CircuitState

pub record CircuitBreaker : Type 0 where
  pub failure_threshold : ℕ
  pub cooldown_seconds : ℕ
  pub state : CircuitState
  pub consecutive_failures : ℕ
  pub opened_at : ℕ
  pub last_success_at : Option ℕ

-- `__init__`
unfoldable pub init : ℕ → ℕ → CircuitBreaker
init failure_threshold cooldown_seconds = record {
  failure_threshold = max 1 failure_threshold;
  cooldown_seconds = cooldown_seconds;
  state = closed;
  consecutive_failures = 0;
  opened_at = 0;
  last_success_at = none;
}

abbrev pub is_closed : CircuitState → Bool
is_closed closed = true
is_closed _ = false

unfoldable pub is_open : CircuitBreaker → Bool
is_open b = not (is_closed b.state)

-- `self._now() - self._opened_at >= self._cooldown_seconds`, with the subtraction moved over.
abbrev pub cooled_down : ℕ → CircuitBreaker → Bool
cooled_down now b = leb (b.opened_at + b.cooldown_seconds) now

allow_in : CircuitState → ℕ → CircuitBreaker → CircuitBreaker × Bool
allow_in closed now b = (b, true)
allow_in opened now b =
    if cooled_down now b then (record b { state = half_open }, true) else (b, false)
allow_in half_open now b = (b, false)

unfoldable pub allow_request : ℕ → CircuitBreaker → CircuitBreaker × Bool
unfolding allow_in
allow_request now b = allow_in b.state now b

proceed_in : CircuitState → ℕ → CircuitBreaker → Bool
proceed_in closed now b = true
proceed_in opened now b = cooled_down now b
proceed_in half_open now b = false

unfoldable pub can_proceed : ℕ → CircuitBreaker → Bool
unfolding proceed_in
can_proceed now b = proceed_in b.state now b

abbrev recovered : CircuitState → CircuitState
recovered half_open = closed
recovered s = s

unfoldable pub record_success : ℕ → CircuitBreaker → CircuitBreaker
record_success wall b = record b {
  consecutive_failures = 0;
  last_success_at = some wall;
  state = recovered b.state;
}

failure_in : CircuitState → ℕ → CircuitBreaker → CircuitBreaker
failure_in closed now b =
    let counted = record b { consecutive_failures = b.consecutive_failures + 1 } in
    if leb b.failure_threshold (b.consecutive_failures + 1)
    then (record counted { state = opened; opened_at = now })
    else counted
failure_in opened now b = b
failure_in half_open now b = record b { consecutive_failures = 0; state = opened; opened_at = now }

unfoldable pub record_failure : ℕ → CircuitBreaker → CircuitBreaker
unfolding failure_in
record_failure now b = failure_in b.state now b
