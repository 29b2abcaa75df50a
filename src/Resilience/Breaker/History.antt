-- ===== src/Resilience/Breaker/History.antt =====
-- What holds of a circuit breaker over every history of its methods (class CircuitBreaker of
-- backend/services/api_resilience.py).
use personal_fin_hub.Base.{
  ℕ, suc, ◌+◌, ◌≤◌, ◌<◌, ◌≡◌, refl, ◌⊎◌, List, [], ◌∷◌, arith, length, inl, inr,
}
use personal_fin_hub.Resilience.Breaker.{
  closed, opened, CircuitBreaker, init, allow_request, record_success, record_failure,
}

pub record IsValid (b : CircuitBreaker) : Type 0 where
  pub threshold_pos : 1 ≤ b.failure_threshold
  pub failures_le : b.consecutive_failures ≤ b.failure_threshold
  pub closed_below : b.state ≡ closed → b.consecutive_failures < b.failure_threshold

pub init-IsValid : (threshold cooldown : ℕ) → IsValid (init threshold cooldown)
unfolding init
init-IsValid threshold cooldown = ground arith

pub allow_request-IsValid :
    (now : ℕ) (b : CircuitBreaker) → IsValid b → IsValid (allow_request now b).0
unfolding allow_request
allow_request-IsValid now b v = ground arith

pub record_success-IsValid :
    (wall : ℕ) (b : CircuitBreaker) → IsValid b → IsValid (record_success wall b)
unfolding record_success
record_success-IsValid wall b v = ground arith

pub record_failure-IsValid :
    (now : ℕ) (b : CircuitBreaker) → IsValid b → IsValid (record_failure now b)
unfolding record_failure
record_failure-IsValid now b v = ground arith

-- A call of one of the methods that change the breaker, at a reading of the clock.
pub data Event : Type 0 where
  ask succeed fail : ℕ → Event

abbrev pub step : Event → CircuitBreaker → CircuitBreaker
step (ask now) b = (allow_request now b).0
step (succeed wall) b = record_success wall b
step (fail now) b = record_failure now b

pub run : List Event → CircuitBreaker → CircuitBreaker
run [] b = b
run (e ∷ es) b = run es (step e b)

step-IsValid : (e : Event) (b : CircuitBreaker) → IsValid b → IsValid (step e b)
step-IsValid (ask now) b v = allow_request-IsValid now b v
step-IsValid (succeed wall) b v = record_success-IsValid wall b v
step-IsValid (fail now) b v = record_failure-IsValid now b v

run-IsValid : (es : List Event) (b : CircuitBreaker) → IsValid b → IsValid (run es b)
unfolding run
run-IsValid [] b v = v
run-IsValid (e ∷ es) b v = run-IsValid es (step e b) (step-IsValid e b v)

-- Whatever calls are made on a new breaker, its threshold stays positive, the failure count never
-- passes the threshold, and the count is below the threshold whenever the breaker is closed.
pub history-IsValid :
    (threshold cooldown : ℕ) (es : List Event) → IsValid (run es (init threshold cooldown))
history-IsValid threshold cooldown es = run-IsValid es _ (init-IsValid threshold cooldown)

pub fail_all : List ℕ → CircuitBreaker → CircuitBreaker
fail_all [] b = b
fail_all (t ∷ ts) b = fail_all ts (record_failure t b)

opened-fail_all : (ts : List ℕ) (b : CircuitBreaker) → b.state ≡ opened → fail_all ts b ≡ b
unfolding fail_all record_failure
opened-fail_all [] b o = refl
opened-fail_all (t ∷ ts) b o =
    let same : record_failure t b ≡ b = ground arith in rw same (opened-fail_all ts b o)

record_failure-closed :
    (t : ℕ) (b : CircuitBreaker)
    → IsValid b
    → b.state ≡ closed
    → let b' = record_failure t b in
      ((b'.state ≡ opened) × (suc b.consecutive_failures ≡ b.failure_threshold))
      ⊎ ((b'.state ≡ closed)
          × (b'.consecutive_failures ≡ suc b.consecutive_failures)
          × (b'.failure_threshold ≡ b.failure_threshold))
unfolding record_failure
record_failure-closed t b v c = ground arith

-- Failures in a row on a closed breaker: either they leave its count below the threshold, and it
-- is still closed with each of them counted, or they bring it to the threshold, and it is open.
pub fail_all-state :
    (ts : List ℕ) (b : CircuitBreaker)
    → IsValid b
    → b.state ≡ closed
    → ((b.consecutive_failures + length ts < b.failure_threshold)
        × ((fail_all ts b).state ≡ closed)
        × ((fail_all ts b).consecutive_failures ≡ b.consecutive_failures + length ts))
      ⊎ ((b.failure_threshold ≤ b.consecutive_failures + length ts)
          × ((fail_all ts b).state ≡ opened))
unfolding fail_all
fail_all-state [] b v c = ground arith
fail_all-state (t ∷ ts) b v c = elim (record_failure-closed t b v c) [
  | inl tripped ↦ ground (arith, opened-fail_all ts (record_failure t b) tripped.0)
  | inr counted ↦
      ground
        (arith, fail_all-state ts (record_failure t b) (record_failure-IsValid t b v) counted.0)
]
