-- ===== src/Resilience/Client/Sequence.antt =====
-- Calls of `MarketAPIClient._request` one after another on one circuit breaker
-- (backend/services/api_client.py): what every call keeps, and the trial that is never settled.
use personal_fin_hub.Base.{
  ℕ, zero, suc, ◌+◌, ◌≤◌, ◌≡◌, refl, ◌∙◌, Bool, true, false, List, [], ◌∷◌, arith, max, Option,
  some, none, All,
}
use personal_fin_hub.Resilience.Breaker.{
  CircuitBreaker, opened, half_open, allow_request, cooled_down,
}
use personal_fin_hub.Resilience.Breaker.History.{
  IsValid, allow_request-IsValid, record_success-IsValid, record_failure-IsValid,
}
use personal_fin_hub.Resilience.Backoff.{sleep_between_attempts}
use personal_fin_hub.Resilience.Client.{
  Wire, reply, transport_error, other_error, Exchange, RetryConfig, Outcome, raised, Call,
  circuit_open, is_success, attempt_once, request_loop, admitted, request, wait_then,
}
use personal_fin_hub.Resilience.Client.Rounds.{ends, settled}
use personal_fin_hub.Resilience.Client.Outcomes.{request-settles}

-- A call leaves a valid breaker, and its loop sends no more requests than it has rounds.
abbrev Keeps : {A : Type 0} → ℕ → Call A → Type 0
Keeps n c = IsValid c.breaker × (c.sent ≤ n)

module _ {A : Type 0} (cfg : RetryConfig) (attempts attempt uniform ended wall n : ℕ)
    (b : CircuitBreaker) (rest : CircuitBreaker → Call A) (v : IsValid b)
    (kept : Keeps n (rest b)) where
  wait_then-Keeps : (d : Option ℕ) → Keeps (suc n) (wait_then d b rest)
  unfolding wait_then
  wait_then-Keeps none = (v, omega arith)
  wait_then-Keeps (some d) = (kept.0, omega arith)

  attempt_once-Keeps :
      (w : Wire A) → Keeps (suc n) (attempt_once cfg attempts attempt uniform ended wall b rest w)
  unfolding attempt_once
  attempt_once-Keeps (reply s a j) = ground (
    arith,
    record_success-IsValid wall b v,
    record_failure-IsValid ended b v,
    wait_then-Keeps
        (sleep_between_attempts uniform attempt cfg.retry_base_delay cfg.retry_max_delay a),
  )
  attempt_once-Keeps (transport_error t) = ground (
    arith,
    record_failure-IsValid ended b v,
    wait_then-Keeps
        (sleep_between_attempts uniform attempt cfg.retry_base_delay cfg.retry_max_delay none),
  )
  attempt_once-Keeps other_error = (v, omega arith)

request_loop-Keeps :
    {A : Type 0} (cfg : RetryConfig) (net : ℕ → Exchange A) (attempts n attempt : ℕ)
    (b : CircuitBreaker)
    → IsValid b
    → Keeps n (request_loop cfg net attempts n attempt b)
unfolding request_loop
request_loop-Keeps cfg net attempts zero attempt b v = (v, omega arith)
request_loop-Keeps cfg net attempts (suc n) attempt b v =
    attempt_once-Keeps cfg attempts attempt _ _ _ n b _ v
      (request_loop-Keeps cfg net attempts n (attempt + 1) b v) (net attempt).wire

-- Every call, whatever the network does, leaves a valid breaker valid and sends at most the
-- configured number of requests (one, if fewer are configured).
pub request-keeps :
    {A : Type 0} (cfg : RetryConfig) (now : ℕ) (net : ℕ → Exchange A) (b : CircuitBreaker)
    → IsValid b
    → let c = request cfg now net b in IsValid c.breaker × (c.sent ≤ max 1 cfg.retry_attempts)
unfolding request
request-keeps cfg now net b v = go (allow_request now b) (allow_request-IsValid now b v)
  where
    go :
        (r : CircuitBreaker × Bool)
        → IsValid r.0
        → Keeps (max 1 cfg.retry_attempts) (admitted cfg net r)
    go (b', true) v' = request_loop-Keeps cfg net _ _ 1 b' v'
    go (b', false) v' = (v', omega arith)

-- The outcomes of later calls, each at its own clock reading and over its own network.
pub request_all :
    {A : Type 0}
    → RetryConfig
    → List (ℕ × (ℕ → Exchange A))
    → CircuitBreaker
    → List (Outcome A) × CircuitBreaker
request_all cfg [] b = ([], b)
request_all cfg ((now, net) ∷ later) b =
    let c = request cfg now net b in
    let (outcomes, b') = request_all cfg later c.breaker in (c.outcome ∷ outcomes, b')

request-half_open :
    {A : Type 0} (cfg : RetryConfig) (now : ℕ) (net : ℕ → Exchange A) (b : CircuitBreaker)
    → b.state ≡ half_open
    → let c = request cfg now net b in
      (c.outcome ≡ raised circuit_open) × (c.breaker ≡ b) × (c.sent ≡ 0)
unfolding request allow_request
request-half_open cfg now net b h = ground arith

abbrev pub AllRefused : {A : Type 0} → List (Outcome A) → Type 0
AllRefused = All (λ o. o ≡ raised circuit_open)

request_all-half_open :
    {A : Type 0} (cfg : RetryConfig) (later : List (ℕ × (ℕ → Exchange A))) (b : CircuitBreaker)
    → b.state ≡ half_open
    → let r = request_all cfg later b in AllRefused r.0 × (r.1 ≡ b)
unfolding request_all
request_all-half_open cfg [] b h = (tt, refl)
request_all-half_open cfg ((now, net) ∷ later) b h =
    let refused = request-half_open cfg now net b h in
    let rest = request_all-half_open cfg later b h in
    ((refused.0, rw refused.1 rest.0), rw refused.1 rest.1)

abbrev pub succeeds : {A : Type 0} → Wire A → Bool
succeeds (reply status retry_after json) = is_success status
succeeds (transport_error timeout) = false
succeeds other_error = false

settled-failed :
    {A : Type 0} (wall : ℕ) (w : Wire A) (b : CircuitBreaker)
    → succeeds w ≡ false
    → settled wall w b ≡ b
settled-failed wall (reply s a j) b h = rw h
settled-failed wall (transport_error t) b h = refl
settled-failed wall other_error b h = refl

allow_request-trial :
    (now : ℕ) (b : CircuitBreaker)
    → b.state ≡ opened
    → cooled_down now b ≡ true
    → allow_request now b ≡ (record b { state = half_open }, true)
unfolding allow_request
allow_request-trial now b o c = ground arith

-- The trial of an open breaker ends in a status that is neither a success nor worth a retry, such as
-- 404: the call sends one request and reports nothing to the breaker, which stays half-open. From
-- then on every call, at any clock reading and whatever the network would answer, is refused and
-- changes nothing.
pub trial_wedges :
    {A : Type 0} (cfg : RetryConfig) (now : ℕ) (net : ℕ → Exchange A) (b : CircuitBreaker)
    (later : List (ℕ × (ℕ → Exchange A)))
    → b.state ≡ opened
    → cooled_down now b ≡ true
    → ends (net 1).wire ≡ true
    → succeeds (net 1).wire ≡ false
    → let c = request cfg now net b in
      let r = request_all cfg later c.breaker in
      (c.sent ≡ 1) × (c.breaker.state ≡ half_open) × AllRefused r.0 × (r.1 ≡ c.breaker)
trial_wedges cfg now net b later o cooled ended failed =
    let trial = record b { state = half_open } in
    let c =
      request-settles cfg net now b 0 (allow_request-trial now b o cooled) (omega arith)
        (λ j p q. absurd (omega arith)) ended in
    let same : (request cfg now net b).breaker ≡ trial =
      c.1 ∙ settled-failed (net 1).wall (net 1).wire trial failed in
    let rest = request_all-half_open cfg later trial refl in
    (c.2, rw same refl, rw same rest.0, rw same rest.1)
