-- ===== src/Resilience/Client/Rounds.antt =====
-- The rounds of the loop in `MarketAPIClient._request` (backend/services/api_client.py): one
-- attempt by its kind, and a run of attempts that are each retried.
use personal_fin_hub.Base.{
  ℕ, zero, suc, ◌+◌, ◌≤◌, ◌<◌, ◌≡◌, refl, ◌∙◌, Bool, true, false, not, ◌&&◌, none, some, [], arith,
  length, ◌==◌, if◌then◌else◌, pos, negsuc,
}
use personal_fin_hub.Resilience.Breaker.{CircuitBreaker, record_success, record_failure}
use personal_fin_hub.Resilience.Backoff.{RetryAfter, should_retry_http, sleep_between_attempts}
use personal_fin_hub.Resilience.Client.{
  Wire, reply, transport_error, other_error, Exchange, RetryConfig, Outcome, returned, raised, Call,
  not_found, api_error, uncaught, is_success, json_outcome, transport_failure, finish, attempt_once,
  request_loop,
}

-- A header on which `time.sleep` does not raise.
abbrev pub is_calm : RetryAfter → Bool
is_calm (some (some (negsuc n))) = false
is_calm _ = true

-- An attempt that is made again while attempts are left.
abbrev pub retries : {A : Type 0} → Wire A → Bool
retries (reply status retry_after json) = should_retry_http status && is_calm retry_after
retries (transport_error timeout) = true
retries other_error = false

-- An attempt that ends the call whatever attempts are left.
abbrev pub ends : {A : Type 0} → Wire A → Bool
ends (reply status retry_after json) = not (should_retry_http status)
ends (transport_error timeout) = false
ends other_error = true

abbrev pub is_raised : {A : Type 0} → Outcome A → Bool
is_raised (returned a) = false
is_raised (raised r) = true

-- What such an attempt makes of the call and of the breaker.
abbrev pub verdict : {A : Type 0} → Wire A → Outcome A
verdict (reply status retry_after json) =
    if is_success status
    then json_outcome json
    else if status == 404
    then raised not_found
    else raised (api_error status)
verdict (transport_error timeout) = transport_failure timeout
verdict other_error = raised uncaught

abbrev pub settled : {A : Type 0} → ℕ → Wire A → CircuitBreaker → CircuitBreaker
settled wall (reply status retry_after json) b =
    if is_success status then record_success wall b else b
settled wall (transport_error timeout) b = b
settled wall other_error b = b

-- `c` is what `r` becomes behind `k` requests that were each followed by a wait.
pub record After {A : Type 0} (k : ℕ) (c r : Call A) : Type 0 where
  pub same_outcome : c.outcome ≡ r.outcome
  pub same_breaker : c.breaker ≡ r.breaker
  pub more_sent : c.sent ≡ k + r.sent
  pub more_slept : length c.slept ≡ k + length r.slept

After-trans : {A : Type 0} {k : ℕ} {c r s : Call A} → After 1 c r → After k r s → After (suc k) c s
After-trans p q = record {
  same_outcome = p.same_outcome ∙ q.same_outcome;
  same_breaker = p.same_breaker ∙ q.same_breaker;
  more_sent = omega (arith, p.more_sent, q.more_sent);
  more_slept = omega (arith, p.more_slept, q.more_slept);
}

module _ {A : Type 0} (cfg : RetryConfig) (attempts attempt uniform ended wall : ℕ)
    (b : CircuitBreaker) (rest : CircuitBreaker → Call A) where
  pub attempt_once-retries :
      (w : Wire A)
      → retries w ≡ true
      → attempt < attempts
      → After 1 (attempt_once cfg attempts attempt uniform ended wall b rest w) (rest b)
  unfolding attempt_once should_retry_http sleep_between_attempts
  attempt_once-retries (reply s none j) h l = ground arith
  attempt_once-retries (reply s (some none) j) h l = ground arith
  attempt_once-retries (reply s (some (some (pos n))) j) h l = ground arith
  attempt_once-retries (reply s (some (some (negsuc n))) j) h l = ground arith
  attempt_once-retries (transport_error t) h l = ground arith
  attempt_once-retries other_error h l = cc

  pub attempt_once-last :
      (w : Wire A)
      → retries w ≡ true
      → attempts ≤ attempt
      → let c = attempt_once cfg attempts attempt uniform ended wall b rest w in
        (c.breaker ≡ record_failure ended b)
        × (c.sent ≡ 1)
        × (c.slept ≡ [])
        × (is_raised c.outcome ≡ true)
  unfolding attempt_once should_retry_http transport_failure
  attempt_once-last (reply s a j) h l = ground arith
  attempt_once-last (transport_error t) h l = ground arith
  attempt_once-last other_error h l = cc

  pub attempt_once-ends :
      (w : Wire A)
      → ends w ≡ true
      → attempt_once cfg attempts attempt uniform ended wall b rest w
        ≡ finish (verdict w) (settled wall w b)
  unfolding attempt_once should_retry_http
  attempt_once-ends (reply s a j) h = ground arith
  attempt_once-ends (transport_error t) h = cc
  attempt_once-ends other_error h = refl

module _ {A : Type 0} (cfg : RetryConfig) (net : ℕ → Exchange A) (attempts : ℕ) where
  -- The attempts from `a` up to `e` are retried, and leave `m` rounds of `n`.
  pub request_loop-skip :
      (k n m a e : ℕ) (b : CircuitBreaker)
      → n ≡ k + m
      → e ≡ a + k
      → e ≤ attempts
      → ((j : ℕ) → a ≤ j → j < e → retries (net j).wire ≡ true)
      → After k (request_loop cfg net attempts n a b) (request_loop cfg net attempts m e b)
  unfolding request_loop
  request_loop-skip zero n m a e b en ee le h =
      let en' : n ≡ m = omega arith in
      let ee' : e ≡ a = omega arith in
      rw (en', ee')
        (record {
          same_outcome = refl;
          same_breaker = refl;
          more_sent = omega arith;
          more_slept = omega arith;
        })
  request_loop-skip (suc k) zero m a e b en ee le h = absurd (omega arith)
  request_loop-skip (suc k) (suc n) m a e b en ee le h =
      After-trans
        (attempt_once-retries cfg attempts a _ _ _ b _ (net a).wire
          (h a (omega arith) (omega arith)) (omega arith))
        (request_loop-skip k n m (a + 1) e b (omega arith) (omega arith) le
          (λ j p q. h j (omega arith) q))
