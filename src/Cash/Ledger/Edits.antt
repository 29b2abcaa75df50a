-- ===== src/Cash/Ledger/Edits.antt =====
-- update of backend/services/transaction_svc.py, as a change of one row of the ledger.
use personal_fin_hub.Base.{
  ℕ, ◌≡◌, Bool, true, false, none, some, if◌then◌else◌, ◌⊎◌, ◌==◌, ◌&&◌, select, map,
}
use personal_fin_hub.Cash.Data.{
  Context, TransactionCreate, Transaction, Db, fk_not_found, transaction_not_found, type_error,
  Result, ok, err,
}
use personal_fin_hub.Cash.Store
use personal_fin_hub.Cash.Store.{
  rule_for, owned, get_transaction, delete_injection_if_unlinked, or_else,
}
use personal_fin_hub.Cash.Service.{
  TransactionResponse, resolve_fks, resolved, ensure_spend, detach, linked_to, recalculate_both,
}
use personal_fin_hub.Cash.Ledger.{is_real, ledger, IsKeyed}

module _ (c : Context) where
  -- An UPDATE of one row of the profile, with the fiscal rule of its new date.
  abbrev pub rewritten : ℕ → TransactionCreate → Db → Transaction → Transaction
  rewritten id v db r =
      if r.id == id && owned c r.profile_id
      then record r { fiscal_rule = rule_for c v db; values = v }
      else r

  -- the values that update writes: those of create but for cash_handling, which stays if it is not sent
  abbrev pub edited : Bool → TransactionCreate → Transaction → Db → TransactionCreate
  edited sent body existing db = record (resolved c body db) {
    cash_handling = if sent then body.cash_handling else existing.values.cash_handling;
  }

  -- Beside the rewritten row, an amount of cash is not a number: in a refresh of the injections that the row
  -- leaves, in the cash that it spends, or in a recalculation.
  abbrev pub RewriteFails : Transaction → ℕ → TransactionCreate → Db → Type 0
  RewriteFails existing id v db =
      let updated = Store.update_transaction c id v db in
      (detach c existing (linked_to c existing id db) id updated ≡ none)
      ⊎ ((d : Db) × (ledger d ≡ ledger updated) × (ensure_spend c v (some id) d ≡ none))
      ⊎ ((d : Db) × (ledger d ≡ ledger updated) × (recalculate_both c existing v d ≡ none))

  -- What update returns and leaves: the row with the values of the body, or the exception and the database as
  -- it was.
  abbrev pub Edits : ℕ → Bool → TransactionCreate → Db → Result TransactionResponse × Db → Type 0
  Edits id sent body db (ok r, db') =
      (existing : Transaction) × (get_transaction c id db ≡ some existing)
      × (resolve_fks c body db ≡ false)
      × IsKeyed db'
      × (r.id ≡ id)
      × (r.values ≡ edited sent body existing db)
      × (ledger db' ≡ select is_real (map (rewritten id r.values db) db.transactions))
  Edits id sent body db (err e, db') =
      (db' ≡ db)
      × ((get_transaction c id db ≡ none) × (e ≡ transaction_not_found)
          ⊎ ((existing : Transaction) × (get_transaction c id db ≡ some existing)
              × (resolve_fks c body db ≡ true)
              × (e ≡ fk_not_found))
          ⊎ ((existing : Transaction) × (get_transaction c id db ≡ some existing)
              × (resolve_fks c body db ≡ false)
              × (e ≡ type_error)
              × RewriteFails existing id (edited sent body existing db) db))
