-- ===== src/Cash.antt =====
-- Transactions and the cash they move: the rows of backend/db/schema.sql and their queries in
-- backend/db/queries.py, the services backend/services/transaction_svc.py, balance_snapshot_svc.py,
-- transaction_fee_svc.py, transaction_tax_svc.py and transfer_svc.py.
pub mod Data
pub mod Store
pub mod Balance
pub mod Adjustments
pub mod Service
pub mod Sums
pub mod Rows
pub mod Anchors
pub mod Cover
pub mod Snapshots
pub mod Charges
pub mod Transfers
pub mod Wholes
pub mod Reconcile
pub mod Ledger
mod Tests
