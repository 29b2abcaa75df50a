-- ===== src/Cash/Ledger/Others.antt =====
-- The calls on snapshots, fees and taxes (balance_snapshot_svc.py, transaction_fee_svc.py and
-- transaction_tax_svc.py) only ever change adjustments among the transactions.
use personal_fin_hub.Base.{
  ℕ, ◌≡◌, refl, not, Option, none, some, List, [], ◌∷◌, select, inl, inr, Bool-cases, arith,
}
use personal_fin_hub.Cash.Data.{
  Context, BalanceSnapshotCreate, BalanceSnapshot, Transaction, TransactionFeeCreate,
  TransactionFee, TransactionTaxCreate, TransactionTax, Db, Raised,
}
use personal_fin_hub.Cash.Store.{
  is_none, adjusts_for, get_transaction, create_balance_snapshot, get_balance_snapshot,
  update_balance_snapshot, delete_balance_snapshot, delete_adjustment_transaction,
}
use personal_fin_hub.Cash.Adjustments.{reconcile_after_fee_change}
use personal_fin_hub.Cash.Service.{committed}
use personal_fin_hub.Cash.Snapshots.{
  resolve_fk, check_conflicts, snapshot_answer, adjusted, record_snapshot, create_checked,
  create_snapshot, has_changed, readjusted, rewritten_snapshot, update_checked, update_found,
  update_snapshot, delete_found, delete_snapshot,
}
use personal_fin_hub.Cash.Charges.{
  create_fee, get_fee, update_fee, delete_fee, create_tax, get_tax, update_tax, delete_tax,
  charge_answer, add_fee_on, add_fee, edit_fee, drop_fee_found, drop_fee, add_tax_on, add_tax,
  edit_tax, drop_tax_found, drop_tax,
}
use personal_fin_hub.Cash.Ledger.{
  is_real, ledger, IsKeyed, Keeps, KeepsIf, Keeps-refl, KeepsIf-trans, Distinct-select,
  all-known-select,
}
use personal_fin_hub.Cash.Ledger.Steps.{adjust_to-KeepsIf}
use personal_fin_hub.Cash.Ledger.Refresh.{reconcile-KeepsIf}

-- What a call leaves, committed or not.
committed-Keeps :
    {A : Type 0} (a : A) (db : Db) (o : Option Db)
    → KeepsIf db o
    → Keeps db (committed (charge_answer a o) db).1
committed-Keeps a db none h = Keeps-refl db
committed-Keeps a db (some d) h = h

module _ (c : Context) where
  real-undo :
      (entity currency snapshot : ℕ) (rows : List Transaction)
      → select is_real (select (λ r. not (adjusts_for c entity currency snapshot r)) rows)
        ≡ select is_real rows
  real-undo entity currency snapshot [] = refl
  real-undo entity currency snapshot (r ∷ rows) =
      ground (arith, real-undo entity currency snapshot rows)

  undo-Keeps :
      (entity currency snapshot : ℕ) (db : Db)
      → Keeps db (delete_adjustment_transaction c entity currency snapshot db)
  unfolding delete_adjustment_transaction
  undo-Keeps entity currency snapshot db k = (
    (
      Distinct-select _ db.transactions k.0,
      all-known-select _ db.last_transaction db.transactions k.1,
    ),
    real-undo entity currency snapshot db.transactions,
  )

  snapshot_answer-Keeps :
      (id : ℕ) (body : BalanceSnapshotCreate) (db : Db) (o : Option Db)
      → KeepsIf db o
      → Keeps db (committed (snapshot_answer c id body o) db).1
  snapshot_answer-Keeps id body db none h = Keeps-refl db
  snapshot_answer-Keeps id body db (some d) h = h

  record-Keeps :
      (body : BalanceSnapshotCreate) (db : Db)
      → Keeps db (committed (record_snapshot c body db) db).1
  unfolding create_balance_snapshot
  record-Keeps body db =
      let made = create_balance_snapshot c body db in
      snapshot_answer-Keeps made.1 body db (adjusted c made.1 body made.0) (
        from_made (adjusted c made.1 body made.0) (
          adjust_to-KeepsIf c body.entity_id body.currency made.1 body.timestamp body.amount
            made.0))
    where
      from_made : (o : Option Db) → KeepsIf (create_balance_snapshot c body db).0 o → KeepsIf db o
      from_made none h = tt
      from_made (some d) h = h

  create_checked-Keeps :
      (o : Option Raised) (body : BalanceSnapshotCreate) (db : Db)
      → Keeps db (committed (create_checked c o body db) db).1
  create_checked-Keeps (some e) body db = Keeps-refl db
  create_checked-Keeps none body db = elim (Bool-cases (check_conflicts c body db)) [
    | inl clash ↦ rw clash (Keeps-refl db)
    | inr free ↦ rw free (record-Keeps body db)
  ]

  readjusted-KeepsIf :
      (s : BalanceSnapshot) (id : ℕ) (body : BalanceSnapshotCreate) (db : Db)
      → KeepsIf db (readjusted c s id body db)
  readjusted-KeepsIf s id body db = elim (Bool-cases (has_changed c s body)) [
    | inl changed ↦
        let undone = delete_adjustment_transaction c s.values.entity_id s.values.currency id db in
        rw changed (
          KeepsIf-trans db undone (adjusted c id body undone)
            (undo-Keeps s.values.entity_id s.values.currency id db)
            (adjust_to-KeepsIf c body.entity_id body.currency id body.timestamp body.amount undone))
    | inr same ↦ rw same (Keeps-refl db)
  ]

  rewritten-KeepsIf :
      (id : ℕ) (body : BalanceSnapshotCreate) (db : Db) (o : Option Db)
      → KeepsIf db o
      → KeepsIf db (rewritten_snapshot c id body o)
  unfolding update_balance_snapshot
  rewritten-KeepsIf id body db none h = tt
  rewritten-KeepsIf id body db (some d) h = h

  update_checked-Keeps :
      (o : Option Raised) (s : BalanceSnapshot) (id : ℕ) (body : BalanceSnapshotCreate) (db : Db)
      → Keeps db (committed (update_checked c o s id body db) db).1
  update_checked-Keeps (some e) s id body db = Keeps-refl db
  update_checked-Keeps none s id body db =
      snapshot_answer-Keeps id body db (rewritten_snapshot c id body (readjusted c s id body db))
        (rewritten-KeepsIf id body db (readjusted c s id body db) (readjusted-KeepsIf s id body db))

  update_found-Keeps :
      (o : Option BalanceSnapshot) (id : ℕ) (body : BalanceSnapshotCreate) (db : Db)
      → Keeps db (update_found c o id body db).1
  update_found-Keeps none id body db = Keeps-refl db
  update_found-Keeps (some s) id body db = update_checked-Keeps (resolve_fk c body db) s id body db

  delete_found-Keeps :
      (o : Option BalanceSnapshot) (id : ℕ) (db : Db) → Keeps db (delete_found c o id db).1
  unfolding delete_balance_snapshot
  delete_found-Keeps none id db = Keeps-refl db
  delete_found-Keeps (some s) id db = undo-Keeps s.values.entity_id s.values.currency s.id db

  -- The same rows with other fees or taxes, reconciled.
  charged-Keeps :
      {A : Type 0} (a : A) (id : ℕ) (db d : Db)
      → Keeps db d
      → Keeps db (committed (charge_answer a (reconcile_after_fee_change c id d)) db).1
  charged-Keeps a id db d h =
      committed-Keeps a db (reconcile_after_fee_change c id d)
        (KeepsIf-trans db d (reconcile_after_fee_change c id d) h (reconcile-KeepsIf c id d))

  add_fee-Keeps : (body : TransactionFeeCreate) (db : Db) → Keeps db (add_fee c body db).1
  unfolding add_fee add_fee_on create_fee
  add_fee-Keeps body db = elim (Bool-cases (is_none (get_transaction c body.transaction_id db))) [
    | inl missing ↦ rw missing (Keeps-refl db)
    | inr known ↦
        rw known (charged-Keeps _ body.transaction_id db (create_fee c body db).0 (λ k. (k, refl)))
  ]

  edit_fee-Keeps :
      (id : ℕ) (body : TransactionFeeCreate) (db : Db) → Keeps db (edit_fee c id body db).1
  unfolding edit_fee update_fee
  edit_fee-Keeps id body db = elim (Bool-cases (is_none (get_fee c id db))) [
    | inl missing ↦ rw missing (Keeps-refl db)
    | inr here ↦ elim (Bool-cases (is_none (get_transaction c body.transaction_id db))) [
      | inl missing ↦ rw (here, missing) (Keeps-refl db)
      | inr known ↦
          rw (here, known)
            (charged-Keeps _ body.transaction_id db (update_fee c id body db) (λ k. (k, refl)))
    ]
  ]

  drop_fee_found-Keeps :
      (o : Option TransactionFee) (id : ℕ) (db : Db) → Keeps db (drop_fee_found c o id db).1
  unfolding delete_fee
  drop_fee_found-Keeps none id db = Keeps-refl db
  drop_fee_found-Keeps (some f) id db =
      charged-Keeps tt f.values.transaction_id db (delete_fee c id db) (λ k. (k, refl))

  add_tax-Keeps : (body : TransactionTaxCreate) (db : Db) → Keeps db (add_tax c body db).1
  unfolding add_tax add_tax_on create_tax
  add_tax-Keeps body db = elim (Bool-cases (is_none (get_transaction c body.transaction_id db))) [
    | inl missing ↦ rw missing (Keeps-refl db)
    | inr known ↦
        rw known (charged-Keeps _ body.transaction_id db (create_tax c body db).0 (λ k. (k, refl)))
  ]

  edit_tax-Keeps :
      (id : ℕ) (body : TransactionTaxCreate) (db : Db) → Keeps db (edit_tax c id body db).1
  unfolding edit_tax update_tax
  edit_tax-Keeps id body db = elim (Bool-cases (is_none (get_tax c id db))) [
    | inl missing ↦ rw missing (Keeps-refl db)
    | inr here ↦ elim (Bool-cases (is_none (get_transaction c body.transaction_id db))) [
      | inl missing ↦ rw (here, missing) (Keeps-refl db)
      | inr known ↦
          rw (here, known)
            (charged-Keeps _ body.transaction_id db (update_tax c id body db) (λ k. (k, refl)))
    ]
  ]

  drop_tax_found-Keeps :
      (o : Option TransactionTax) (id : ℕ) (db : Db) → Keeps db (drop_tax_found c o id db).1
  unfolding delete_tax
  drop_tax_found-Keeps none id db = Keeps-refl db
  drop_tax_found-Keeps (some t) id db =
      charged-Keeps tt t.values.transaction_id db (delete_tax c id db) (λ k. (k, refl))

-- The calls that change snapshots, fees and taxes.
pub data Call : Type 0 where
  create_snapshot_call : BalanceSnapshotCreate → Call
  update_snapshot_call : ℕ → BalanceSnapshotCreate → Call
  delete_snapshot_call : ℕ → Call
  create_fee_call : TransactionFeeCreate → Call
  update_fee_call : ℕ → TransactionFeeCreate → Call
  delete_fee_call : ℕ → Call
  create_tax_call : TransactionTaxCreate → Call
  update_tax_call : ℕ → TransactionTaxCreate → Call
  delete_tax_call : ℕ → Call

module _ (c : Context) where
  abbrev pub perform : Call → Db → Db
  perform (create_snapshot_call body) db = (create_snapshot c body db).1
  perform (update_snapshot_call id body) db = (update_snapshot c id body db).1
  perform (delete_snapshot_call id) db = (delete_snapshot c id db).1
  perform (create_fee_call body) db = (add_fee c body db).1
  perform (update_fee_call id body) db = (edit_fee c id body db).1
  perform (delete_fee_call id) db = (drop_fee c id db).1
  perform (create_tax_call body) db = (add_tax c body db).1
  perform (update_tax_call id body) db = (edit_tax c id body db).1
  perform (delete_tax_call id) db = (drop_tax c id db).1

  -- No call of the services on snapshots, fees and taxes, refused or not, changes, adds or removes a
  -- transaction that is no adjustment, and the ids of the table stay unique and known.
  pub perform-ledger :
      (call : Call) (db : Db)
      → IsKeyed db
      → IsKeyed (perform call db) × (ledger (perform call db) ≡ ledger db)
  unfolding create_snapshot update_snapshot delete_snapshot drop_fee drop_tax
  perform-ledger (create_snapshot_call body) db =
      create_checked-Keeps c (resolve_fk c body db) body db
  perform-ledger (update_snapshot_call id body) db =
      update_found-Keeps c (get_balance_snapshot c id db) id body db
  perform-ledger (delete_snapshot_call id) db =
      delete_found-Keeps c (get_balance_snapshot c id db) id db
  perform-ledger (create_fee_call body) db = add_fee-Keeps c body db
  perform-ledger (update_fee_call id body) db = edit_fee-Keeps c id body db
  perform-ledger (delete_fee_call id) db = drop_fee_found-Keeps c (get_fee c id db) id db
  perform-ledger (create_tax_call body) db = add_tax-Keeps c body db
  perform-ledger (update_tax_call id body) db = edit_tax-Keeps c id body db
  perform-ledger (delete_tax_call id) db = drop_tax_found-Keeps c (get_tax c id db) id db
