-- ===== src/Cash/Wholes.antt =====
-- Transactions made with their fees and taxes, or several at once: backend/services/transaction_full_svc.py and
-- transaction_batch_svc.py, on one connection that any exception rolls back.
use personal_fin_hub.Base.{ℕ, Bool, not, ◌&&◌, Option, List, [], ◌∷◌, ◌==◌, select, ℤ}
use personal_fin_hub.Cash.Data.{
  Context, TransactionCreate, TransactionFeeCreate, TransactionTaxCreate, Db, Result, ok,
}
use personal_fin_hub.Cash.Store.{owned}
use personal_fin_hub.Cash.Adjustments.{reconcile_after_fee_change}
use personal_fin_hub.Cash.Service.{TransactionResponse, create_on, update_on, committed}
use personal_fin_hub.Cash.Charges.{
  TransactionFeeResponse, TransactionTaxResponse, add_fee_on, add_tax_on, charge_answer,
}
use personal_fin_hub.Cash.Transfers.{TransactionFeeInner, ◌>>=◌}

pub record TransactionTaxInner : Type 0 where
  pub tax_definition_id : ℕ
  pub tax_rate : Option ℤ
  pub tax_amount : ℤ
  pub currency : ℕ

pub record FullTransactionCreate : Type 0 where
  pub transaction : TransactionCreate
  pub fees : List TransactionFeeInner
  pub taxes : List TransactionTaxInner

pub record FullTransactionResponse : Type 0 where
  pub transaction : TransactionResponse
  pub fees : List TransactionFeeResponse
  pub taxes : List TransactionTaxResponse

abbrev pub full_fee : ℕ → TransactionFeeInner → TransactionFeeCreate
full_fee tx f = record {
  transaction_id = tx;
  broker_fee_definition_id = f.broker_fee_definition_id;
  fee_type = f.fee_type;
  nature = f.nature;
  fixed_amount = f.fixed_amount;
  percentage = f.percentage;
  currency = f.currency;
}

abbrev pub full_tax : ℕ → TransactionTaxInner → TransactionTaxCreate
full_tax tx t = record {
  transaction_id = tx;
  tax_definition_id = t.tax_definition_id;
  tax_rate = t.tax_rate;
  tax_amount = t.tax_amount;
  currency = t.currency;
}

module _ (c : Context) where
  unfoldable pub full_fees :
      ℕ → List TransactionFeeInner → Db → Result (List TransactionFeeResponse × Db)
  full_fees tx [] db = ok ([], db)
  full_fees tx (f ∷ fs) db = add_fee_on c (full_fee tx f) db >>= λ r db'.
      full_fees tx fs db' >>= λ rs db''. ok (r ∷ rs, db'')

  unfoldable pub full_taxes :
      ℕ → List TransactionTaxInner → Db → Result (List TransactionTaxResponse × Db)
  full_taxes tx [] db = ok ([], db)
  full_taxes tx (t ∷ ts) db = add_tax_on c (full_tax tx t) db >>= λ r db'.
      full_taxes tx ts db' >>= λ rs db''. ok (r ∷ rs, db'')

  -- the fees and taxes after the transaction
  unfoldable pub with_charges :
      FullTransactionCreate → TransactionResponse → Db → Result (FullTransactionResponse × Db)
  with_charges body tx db = full_fees tx.id body.fees db >>= λ fees db₁.
      full_taxes tx.id body.taxes db₁ >>= λ taxes db₂.
      ok (record { transaction = tx; fees = fees; taxes = taxes }, db₂)

  unfoldable pub create_full : FullTransactionCreate → Db → Result FullTransactionResponse × Db
  create_full body db =
      committed (create_on c body.transaction db >>= λ tx db₁. with_charges body tx db₁) db

  unfoldable pub delete_fees_by_transaction : ℕ → Db → Db
  delete_fees_by_transaction tx db = record db {
    fees = select (λ f. not (f.values.transaction_id == tx && owned c f.profile_id)) db.fees;
  }

  unfoldable pub delete_taxes_by_transaction : ℕ → Db → Db
  delete_taxes_by_transaction tx db = record db {
    taxes = select (λ t. not (t.values.transaction_id == tx && owned c t.profile_id)) db.taxes;
  }

  -- `sent` is whether the transaction's body gives cash_handling.
  unfoldable pub update_full :
      ℕ → Bool → FullTransactionCreate → Db → Result FullTransactionResponse × Db
  update_full id sent body db =
      committed
        (update_on c id sent body.transaction db >>= λ tx db₁.
          with_charges body tx (delete_taxes_by_transaction id (delete_fees_by_transaction id db₁))
          >>= λ r db₂. charge_answer r (reconcile_after_fee_change c tx.id db₂))
        db

  unfoldable pub create_all : List TransactionCreate → Db → Result (List TransactionResponse × Db)
  create_all [] db = ok ([], db)
  create_all (body ∷ bodies) db =
      create_on c body db >>= λ r db'. create_all bodies db' >>= λ rs db''. ok (r ∷ rs, db'')

  unfoldable pub create_batch : List TransactionCreate → Db → Result (List TransactionResponse) × Db
  create_batch bodies db = committed (create_all bodies db) db
