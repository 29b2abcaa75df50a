-- ===== src/Resilience/Backoff.antt =====
-- The waits between attempts of backend/services/api_resilience.py. Delays are whole milliseconds;
-- the factor that `random.uniform` draws is given in thousandths.
use personal_fin_hub.Base.{
  ℕ, ◌-◌, ◌*◌, ◌/◌, ◌^◌, min, Bool, ◌||◌, Option, none, some, leb, ◌==◌, ℤ, pos, negsuc, min_ℤ,
}

-- The value of the header is `none` where the header is absent, and `some none` where Python's
-- `int` refuses its text.
abbrev pub RetryAfter : Type 0
RetryAfter = Option (Option ℤ)

-- RETRY_AFTER_CAP_SECONDS
abbrev pub retry_after_cap_seconds : ℤ
retry_after_cap_seconds = pos 60

unfoldable pub should_retry_http : ℕ → Bool
should_retry_http status_code = leb 500 status_code || status_code == 429

unfoldable pub backoff_delay : ℕ → ℕ → ℕ → ℕ
backoff_delay attempt base maximum = min (base * 2 ^ (attempt - 1)) maximum

unfoldable pub jitter : ℕ → ℕ → ℕ
jitter uniform delay = delay * uniform / 1000

unfoldable pub retry_after_seconds : RetryAfter → Option ℤ
retry_after_seconds none = none
retry_after_seconds (some none) = none
retry_after_seconds (some (some value)) = some (min_ℤ value retry_after_cap_seconds)

-- `time.sleep`: it raises ValueError (`none`) for a negative number of seconds.
unfoldable pub sleep_seconds : ℤ → Option ℕ
sleep_seconds (pos seconds) = some (seconds * 1000)
sleep_seconds (negsuc _) = none

delay_or : Option ℤ → ℕ → Option ℕ
unfolding sleep_seconds
delay_or none delay = some delay
delay_or (some seconds) delay = sleep_seconds seconds

-- The milliseconds slept, or `none` where `time.sleep` raises. A call without a response is a call
-- with an absent header.
unfoldable pub sleep_between_attempts : ℕ → ℕ → ℕ → ℕ → RetryAfter → Option ℕ
unfolding delay_or retry_after_seconds jitter backoff_delay
sleep_between_attempts uniform attempt base maximum response =
    delay_or (retry_after_seconds response) (jitter uniform (backoff_delay attempt base maximum))
