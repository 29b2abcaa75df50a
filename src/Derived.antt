-- ===== src/Derived.antt =====
-- The mathematics of derived indicators, backend/services/derived_kpi_calc.py: series of dated points.
pub mod Trends
pub mod Months
pub mod World
pub mod Registry
pub mod Answers
mod Tests
