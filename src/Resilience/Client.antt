-- ===== src/Resilience/Client.antt =====
-- `MarketAPIClient._request` and `health_check` of backend/services/api_client.py. httpx is not part of the
-- repository: what the network does at each attempt is an argument, a function from the attempt's
-- number to an exchange.
pub mod Rounds
pub mod Outcomes
pub mod Sequence
use personal_fin_hub.Base.{
  ℕ, zero, suc, ◌+◌, Bool, true, false, not, ◌&&◌, Option, none, some, List, [], ◌∷◌, ltb, leb,
  ◌==◌, if◌then◌else◌, max,
}
use personal_fin_hub.Resilience.Breaker.{
  CircuitBreaker, allow_request, record_success, record_failure,
}
use personal_fin_hub.Resilience.Backoff.{RetryAfter, should_retry_http, sleep_between_attempts}

-- What `self._client.request` does: it returns a response (its status, its Retry-After header and
-- its JSON body, if the body parses), or raises a TransportError (a timeout or not), or raises
-- something that `_request` does not catch.
pub data Wire (A : Type 0) : Type 0 where
  reply : (status : ℕ) → RetryAfter → Option A → Wire A
  transport_error : (timeout : Bool) → Wire A
  other_error : Wire A

-- One attempt: its result, the clocks' readings when it ends, and the factor drawn for the wait.
pub record Exchange (A : Type 0) : Type 0 where
  pub wire : Wire A
  pub ended : ℕ
  pub wall : ℕ
  pub uniform : ℕ

pub record RetryConfig : Type 0 where
  pub retry_attempts : ℕ
  pub retry_base_delay : ℕ
  pub retry_max_delay : ℕ

pub data Raised : Type 0 where
  circuit_open timed_out cannot_connect not_found : Raised
  api_error : (status : ℕ) → Raised
  value_error uncaught bad_json : Raised

pub data Outcome (A : Type 0) : Type 0 where
  returned : A → Outcome A
  raised : Raised → Outcome A

-- What a call leaves behind: its outcome, the breaker, the number of requests sent, and the waits.
pub record Call (A : Type 0) : Type 0 where
  pub outcome : Outcome A
  pub breaker : CircuitBreaker
  pub sent : ℕ
  pub slept : List ℕ

-- httpx's `raise_for_status` accepts the 2xx codes only.
abbrev pub is_success : ℕ → Bool
is_success status = leb 200 status && ltb status 300

module _ {A : Type 0} where
  abbrev pub finish : Outcome A → CircuitBreaker → Call A
  finish o b = record { outcome = o; breaker = b; sent = 1; slept = [] }

  -- `response.json()`
  pub json_outcome : Option A → Outcome A
  json_outcome none = raised bad_json
  json_outcome (some body) = returned body

  -- The wait and the next rounds of the loop, behind a request that was sent.
  wait_then : Option ℕ → CircuitBreaker → (CircuitBreaker → Call A) → Call A
  wait_then none b rest = finish (raised value_error) b
  wait_then (some delay) b rest =
      let r = rest b in record r { sent = suc r.sent; slept = delay ∷ r.slept }

  pub transport_failure : Bool → Outcome A
  transport_failure true = raised timed_out
  transport_failure false = raised cannot_connect

  -- The body of the loop: `try`, and the two `except` clauses.
  pub attempt_once :
      RetryConfig
      → (attempts attempt : ℕ) → (uniform ended wall : ℕ) → CircuitBreaker
      → (CircuitBreaker → Call A)
      → Wire A
      → Call A
  unfolding json_outcome wait_then transport_failure
  attempt_once cfg attempts attempt uniform ended wall b rest (reply status retry_after json) =
      if is_success status
      then finish (json_outcome json) (record_success wall b)
      else if status == 404
      then finish (raised not_found) b
      else if not (should_retry_http status)
      then finish (raised (api_error status)) b
      else if ltb attempt attempts
      then wait_then
          (sleep_between_attempts uniform attempt cfg.retry_base_delay cfg.retry_max_delay
            retry_after)
          b rest
      else finish (raised (api_error status)) (record_failure ended b)
  attempt_once cfg attempts attempt uniform ended wall b rest (transport_error timeout) =
      if ltb attempt attempts
      then wait_then
          (sleep_between_attempts uniform attempt cfg.retry_base_delay cfg.retry_max_delay none) b
          rest
      else finish (transport_failure timeout) (record_failure ended b)
  attempt_once cfg attempts attempt uniform ended wall b rest other_error =
      finish (raised uncaught) b

  -- `for attempt in range(1, attempts + 1)`, by the rounds left; the last line of `_request` is
  -- reached when none is.
  pub request_loop :
      RetryConfig → (ℕ → Exchange A) → (attempts left attempt : ℕ) → CircuitBreaker → Call A
  unfolding attempt_once
  request_loop cfg net attempts zero attempt b = record {
    outcome = raised cannot_connect;
    breaker = b;
    sent = 0;
    slept = [];
  }
  request_loop cfg net attempts (suc left) attempt b =
      let e = net attempt in
      attempt_once cfg attempts attempt e.uniform e.ended e.wall b
        (request_loop cfg net attempts left (attempt + 1)) e.wire

  admitted : RetryConfig → (ℕ → Exchange A) → CircuitBreaker × Bool → Call A
  unfolding request_loop
  admitted cfg net (b, true) =
      let attempts = max 1 cfg.retry_attempts in request_loop cfg net attempts attempts 1 b
  admitted cfg net (b, false) = record {
    outcome = raised circuit_open;
    breaker = b;
    sent = 0;
    slept = [];
  }

  -- `_request`, called at clock reading `now`.
  unfoldable pub request : RetryConfig → ℕ → (ℕ → Exchange A) → CircuitBreaker → Call A
  unfolding admitted
  request cfg now net b = admitted cfg net (allow_request now b)

-- `health_check`: the probe is the reading of the clocks at its end, and whether it raised.
probe : (ok : Bool) (ended wall : ℕ) → CircuitBreaker × Bool → CircuitBreaker × Bool
probe ok ended wall (b, false) = (b, false)
probe true ended wall (b, true) = (record_success wall b, true)
probe false ended wall (b, true) = (record_failure ended b, false)

unfoldable pub health_check :
    ℕ → (ok : Bool) (ended wall : ℕ) → CircuitBreaker → CircuitBreaker × Bool
unfolding probe
health_check now ok ended wall b = probe ok ended wall (allow_request now b)
