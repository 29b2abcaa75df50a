-- ===== src/Resilience/Client/Outcomes.antt =====
-- The outcome of a whole call of `MarketAPIClient._request` (backend/services/api_client.py), what it
-- does to the circuit breaker, and how many requests it sends.
use personal_fin_hub.Base.{ℕ, suc, ◌+◌, ◌≤◌, ◌<◌, ◌≡◌, refl, true, arith, length, max, ◌∙◌, ap, ◌-◌}
use personal_fin_hub.Resilience.Breaker.{CircuitBreaker, allow_request, record_failure}
use personal_fin_hub.Resilience.Client.{
  Exchange, RetryConfig, Call, finish, request_loop, admitted, request,
}
use personal_fin_hub.Resilience.Client.Rounds.{
  retries, ends, verdict, settled, is_raised, attempt_once-last, attempt_once-ends,
  request_loop-skip,
}

module _ {A : Type 0} (cfg : RetryConfig) (net : ℕ → Exchange A) (attempts : ℕ)
    (b : CircuitBreaker) where
  request_loop-settles :
      (k m : ℕ)
      → attempts ≡ k + suc m
      → ((j : ℕ) → 1 ≤ j → j < 1 + k → retries (net j).wire ≡ true)
      → ends (net (1 + k)).wire ≡ true
      → let c = request_loop cfg net attempts attempts 1 b in
        let e = net (1 + k) in
        (c.outcome ≡ verdict e.wire)
        × (c.breaker ≡ settled e.wall e.wire b)
        × (c.sent ≡ k + 1)
        × (length c.slept ≡ k)
  request_loop-settles k m size before last =
      let skip =
        request_loop-skip cfg net attempts k attempts (suc m) 1 (1 + k) b size refl (omega arith)
          before in
      let final : request_loop cfg net attempts (suc m) (1 + k) b
          ≡ finish (verdict (net (1 + k)).wire) (settled (net (1 + k)).wall (net (1 + k)).wire b) =
        unfold request_loop in
        attempt_once-ends cfg attempts (1 + k) _ _ _ b _ (net (1 + k)).wire last in
      (
        skip.same_outcome ∙ ap (λ (r : Call A). r.outcome) final,
        skip.same_breaker ∙ ap (λ (r : Call A). r.breaker) final,
        omega (arith, skip.more_sent, ap (λ (r : Call A). r.sent) final),
        omega (arith, skip.more_slept, ap (λ (r : Call A). length r.slept) final),
      )

  request_loop-exhausts :
      (k : ℕ)
      → attempts ≡ k + 1
      → ((j : ℕ) → 1 ≤ j → j < 1 + attempts → retries (net j).wire ≡ true)
      → let c = request_loop cfg net attempts attempts 1 b in
        (is_raised c.outcome ≡ true)
        × (c.breaker ≡ record_failure (net attempts).ended b)
        × (c.sent ≡ attempts)
        × (length c.slept + 1 ≡ attempts)
  unfolding request_loop
  request_loop-exhausts k size all_retried =
      let skip =
        request_loop-skip cfg net attempts k attempts 1 1 attempts b size (omega arith)
          (omega arith) (λ j p q. all_retried j p (omega arith)) in
      let final =
        attempt_once-last cfg attempts attempts (net attempts).uniform (net attempts).ended
          (net attempts).wall b (request_loop cfg net attempts 0 (attempts + 1)) (net attempts).wire
          (all_retried attempts (omega arith) (omega arith)) (omega arith) in
      (
        ap is_raised skip.same_outcome ∙ final.3,
        skip.same_breaker ∙ final.0,
        omega (arith, skip.more_sent, final.1),
        omega (arith, skip.more_slept, ap length final.2),
      )

request-granted :
    {A : Type 0} (cfg : RetryConfig) (now : ℕ) (net : ℕ → Exchange A) (b : CircuitBreaker)
    {b' : CircuitBreaker}
    → allow_request now b ≡ (b', true)
    → request cfg now net b
      ≡ request_loop cfg net (max 1 cfg.retry_attempts) (max 1 cfg.retry_attempts) 1 b'
unfolding request
request-granted cfg now net b granted = ap (admitted cfg net) granted

module _ {A : Type 0} (cfg : RetryConfig) (net : ℕ → Exchange A) (now : ℕ) (b : CircuitBreaker)
    {b' : CircuitBreaker} where
  -- A call that the breaker admits, whose first `k` attempts are retried and whose next attempt
  -- ends the call, with an attempt left for it: the outcome is that attempt's, the breaker hears of it only
  -- if it is a success, and `k + 1` requests go out with `k` waits between them.
  pub request-settles :
      (k : ℕ)
      → allow_request now b ≡ (b', true)
      → k < max 1 cfg.retry_attempts
      → ((j : ℕ) → 1 ≤ j → j < 1 + k → retries (net j).wire ≡ true)
      → ends (net (1 + k)).wire ≡ true
      → let c = request cfg now net b in
        let e = net (1 + k) in
        (c.outcome ≡ verdict e.wire)
        × (c.breaker ≡ settled e.wall e.wire b')
        × (c.sent ≡ k + 1)
        × (length c.slept ≡ k)
  request-settles k granted room before last = rw (request-granted cfg now net b granted) (
      request_loop-settles cfg net (max 1 cfg.retry_attempts) b' k
        (max 1 cfg.retry_attempts - suc k) (omega arith) before last)

  -- A call that the breaker admits and all of whose attempts are retried: it raises, it has sent the
  -- configured number of requests (one, if fewer are configured) with a wait between each two, and the breaker
  -- counts one failure, at the end of the last attempt.
  pub request-exhausts :
      allow_request now b ≡ (b', true)
      → ((j : ℕ) → 1 ≤ j → j < 1 + max 1 cfg.retry_attempts → retries (net j).wire ≡ true)
      → let c = request cfg now net b in
        let attempts = max 1 cfg.retry_attempts in
        (is_raised c.outcome ≡ true)
        × (c.breaker ≡ record_failure (net attempts).ended b')
        × (c.sent ≡ attempts)
        × (length c.slept + 1 ≡ attempts)
  request-exhausts granted all_retried = rw (request-granted cfg now net b granted) (
      request_loop-exhausts cfg net (max 1 cfg.retry_attempts) b' (max 1 cfg.retry_attempts - 1)
        (omega arith) all_retried)
