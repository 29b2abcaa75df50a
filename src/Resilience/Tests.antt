-- ===== src/Resilience/Tests.antt =====
-- Runs of the circuit breaker and of the request loop, and the theorems at concrete inputs.
use personal_fin_hub.Base.{
  ℕ, ◌+◌, ◌≡◌, refl, true, none, some, List, [], ◌∷◌, arith, ◌==◌, if◌then◌else◌, negsuc, pos,
  length, ◌≤◌, ◌<◌,
}
use personal_fin_hub.Resilience.Breaker.{
  CircuitBreaker, closed, opened, half_open, init, allow_request, record_success, record_failure,
}
use personal_fin_hub.Resilience.Breaker.History.{IsValid, ask, succeed, fail, run, history-IsValid}
use personal_fin_hub.Resilience.Breaker.Trial.{grants, opened-grants}
use personal_fin_hub.Resilience.Backoff.{sleep_between_attempts, should_retry_http}
use personal_fin_hub.Resilience.Client.{
  Wire, reply, transport_error, Exchange, RetryConfig, returned, request, health_check,
}
use personal_fin_hub.Resilience.Client.Rounds.{retries, is_raised}
use personal_fin_hub.Resilience.Client.Outcomes.{request-settles, request-exhausts}
use personal_fin_hub.Resilience.Client.Sequence.{
  request-keeps, request_all, AllRefused, trial_wedges,
}

abbrev cfg : RetryConfig
cfg = record { retry_attempts = 3; retry_base_delay = 500; retry_max_delay = 10000 }

abbrev fresh : CircuitBreaker
fresh = record {
  failure_threshold = 5;
  cooldown_seconds = 60;
  state = closed;
  consecutive_failures = 0;
  opened_at = 0;
  last_success_at = none;
}

abbrev tripped : CircuitBreaker
tripped = record fresh { state = opened; consecutive_failures = 5; opened_at = 100 }

abbrev exchange : Wire ℕ → ℕ → Exchange ℕ
exchange w t = record { wire = w; ended = t; wall = 1000 + t; uniform = 1000 }

-- A timeout, then 503 with a Retry-After of two minutes, then a body.
abbrev flaky : ℕ → Exchange ℕ
flaky n =
    exchange
      (if n == 1
        then transport_error true
        else if n == 2
        then reply 503 (some (some (pos 120))) none
        else reply 200 none (some 42))
      n

abbrev down : ℕ → Exchange ℕ
down n = exchange (transport_error true) (100 + n)

abbrev missing : ℕ → Exchange ℕ
missing n = exchange (reply 404 none none) (100 + n)

init_runs : init 5 60 ≡ fresh
unfolding init
init_runs = refl

flaky_runs : request cfg 1 flaky fresh ≡ record {
  outcome = returned 42;
  breaker = record fresh { last_success_at = some 1003 };
  sent = 3;
  slept = 500 ∷ 60000 ∷ [];
}
unfolding request record_success sleep_between_attempts should_retry_http allow_request
flaky_runs = refl

-- A negative Retry-After makes `time.sleep` raise out of the loop.
negative_retry_after : sleep_between_attempts 1000 1 500 10000 (some (some (negsuc 4))) ≡ none
unfolding sleep_between_attempts
negative_retry_after = refl

health_check_runs : (health_check 170 true 171 5 tripped).0.state ≡ closed
unfolding health_check allow_request record_success
health_check_runs = refl

history-IsValid_example : IsValid (run (ask 1 ∷ fail 2 ∷ fail 3 ∷ succeed 4 ∷ []) (init 2 60))
history-IsValid_example = history-IsValid 2 60 (ask 1 ∷ fail 2 ∷ fail 3 ∷ succeed 4 ∷ [])

abbrev five : List ℕ
five = 1 ∷ 2 ∷ 3 ∷ 4 ∷ 5 ∷ []

fresh-IsValid : IsValid fresh
fresh-IsValid = ground arith

opened-grants_example : grants (150 ∷ 160 ∷ 161 ∷ []) tripped ≡ 1
opened-grants_example = opened-grants (150 ∷ 160 ∷ 161 ∷ []) tripped refl

flaky-retries : (j : ℕ) → 1 ≤ j → j < 3 → retries (flaky j).wire ≡ true
unfolding should_retry_http
flaky-retries j p q = ground arith

request-settles_example :
    let c = request cfg 1 flaky fresh in
    (c.outcome ≡ returned 42)
    × (c.breaker ≡ record fresh { last_success_at = some 1003 })
    × (c.sent ≡ 3)
    × (length c.slept ≡ 2)
unfolding should_retry_http allow_request record_success request
request-settles_example = request-settles cfg flaky 1 fresh 2 refl (omega arith) flaky-retries refl

request-exhausts_example :
    let c = request cfg 1 down fresh in
    (is_raised c.outcome ≡ true)
    × (c.breaker ≡ record_failure 103 fresh)
    × (c.sent ≡ 3)
    × (length c.slept + 1 ≡ 3)
unfolding allow_request
request-exhausts_example = request-exhausts cfg down 1 fresh refl (λ j p q. refl)

request-keeps_example :
    IsValid (request cfg 1 down fresh).breaker × ((request cfg 1 down fresh).sent ≤ 3)
request-keeps_example = request-keeps cfg 1 down fresh fresh-IsValid

trial_wedges_example :
    let c = request cfg 170 missing tripped in
    let r = request_all cfg ((1000000, flaky) ∷ []) c.breaker in
    (c.sent ≡ 1) × (c.breaker.state ≡ half_open) × AllRefused r.0 × (r.1 ≡ c.breaker)
unfolding should_retry_http
trial_wedges_example =
    trial_wedges cfg 170 missing tripped ((1000000, flaky) ∷ []) refl refl refl refl
