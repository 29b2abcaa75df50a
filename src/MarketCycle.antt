-- ===== src/MarketCycle.antt =====
-- The investment market cycle: a six-state machine that is replayed over the monthly history of
-- the macro KPIs (backend/services/market_cycle_engine.py).
pub mod Graph
pub mod Signals
pub mod Engine
pub mod Load
pub mod Complete
mod Tests
