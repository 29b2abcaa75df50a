-- ===== src/Pnl.antt =====
-- Realised profit and loss (backend/services/pnl_rules.py): the FIFO lot engine and
-- the conversion of its sales to the display currency.
pub mod Lots
pub mod Fifo
pub mod Convert
mod Tests
