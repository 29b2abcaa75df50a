-- ===== src/FiscalPeriods.antt =====
-- Fiscal periods: which fiscal rule holds on which dates, for each profile
-- (backend/services/fiscal_period_svc.py and the fiscal period queries of backend/db/queries.py).
pub mod Table
pub mod Service
mod Tests
