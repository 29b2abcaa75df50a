-- ===== src/Currency.antt =====
-- Exchange rates (backend/services/currency_svc.py over the table currencies of backend/db/queries.py).
pub mod Rates
pub mod Calendar
pub mod OneWay
pub mod Sync
mod Tests
