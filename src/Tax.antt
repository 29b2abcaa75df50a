-- ===== src/Tax.antt =====
-- The tax engine (backend/services/tax_engine.py).
pub mod Bands
pub mod Data
pub mod Catalogue
pub mod Items
pub mod Year
mod Tests
