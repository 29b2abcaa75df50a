-- ===== src/Cash/Ledger/Deletes.antt =====
-- delete of backend/services/transaction_svc.py, as the removal of one row of the ledger.
use personal_fin_hub.Base.{ℕ, ◌≡◌, true, false, none, some, List, ◌⊎◌, ◌==◌, ◌&&◌, not, select}
use personal_fin_hub.Cash.Data.{
  Context, Transaction, Db, transaction_not_found, transaction_has_dependents, type_error, Result,
  ok, err,
}
use personal_fin_hub.Cash.Store
use personal_fin_hub.Cash.Store.{
  is_spend, is_adjustment, is_none, cash_pocket, is_transaction, rule_for, owned, get_transaction,
  or_else,
}
use personal_fin_hub.Cash.Adjustments.{recalculate_adjustments}
use personal_fin_hub.Cash.Ledger.{ledger, IsKeyed}

module _ (c : Context) where
  -- The transactions without the row of the profile.
  abbrev pub without_row : ℕ → List Transaction → List Transaction
  without_row id rows = select (λ r. not (r.id == id && owned c r.profile_id)) rows

  -- What delete returns and leaves: the ledger without the row, or the exception and the database as it was.
  abbrev pub Deletes : ℕ → Db → Result (Unit {0}) × Db → Type 0
  Deletes id db (ok u, db') =
      (existing : Transaction) × (get_transaction c id db ≡ some existing)
      × (Store.transaction_has_dependents c id db ≡ false)
      × IsKeyed db'
      × (ledger db' ≡ without_row id (ledger db))
  Deletes id db (err e, db') =
      (db' ≡ db)
      × ((get_transaction c id db ≡ none) × (e ≡ transaction_not_found)
          ⊎ ((existing : Transaction) × (get_transaction c id db ≡ some existing)
              × (Store.transaction_has_dependents c id db ≡ true)
              × (e ≡ transaction_has_dependents))
          ⊎ ((existing : Transaction) × (get_transaction c id db ≡ some existing)
              × (Store.transaction_has_dependents c id db ≡ false)
              × (e ≡ type_error)
              × (is_adjustment existing.values.type_of ≡ false)
              × (d : Db) × (ledger d ≡ without_row id (ledger db))
              × (recalculate_adjustments c existing.values.entity_id existing.values.currency
                    existing.values.timestamp d
                  ≡ none)))
