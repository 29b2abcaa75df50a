-- ===== src/Resilience.antt =====
-- Resilience of the Market API client (backend/services/api_resilience.py and
-- backend/services/api_client.py): the circuit breaker, the waits between attempts and the request
-- loop that drives both.
pub mod Breaker
pub mod Backoff
pub mod Client
mod Tests
