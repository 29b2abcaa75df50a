-- ===== src/Cash/Charges.antt =====
-- Fees and taxes of a transaction: their tables and queries in backend/db/queries.py, and the services
-- backend/services/transaction_fee_svc.py and transaction_tax_svc.py, whose changes refresh the
-- adjustments. A raise before the commit leaves the database as it was.
use personal_fin_hub.Base.{
  ℕ, ◌+◌, Bool, not, ◌&&◌, Option, none, some, List, [], ◌∷◌, ◌++◌, ◌==◌, if◌then◌else◌, select,
  map, sort_by,
}
use personal_fin_hub.FiscalPeriods.Table.{fetchone}
use personal_fin_hub.Cash.Data.{
  Context, TransactionFeeCreate, TransactionFee, TransactionTaxCreate, TransactionTax, Db,
  transaction_not_found, fee_not_found, tax_not_found, type_error, Result, ok, err,
}
use personal_fin_hub.Cash.Store.{is_none, owned, get_transaction}
use personal_fin_hub.Cash.Adjustments.{reconcile_after_fee_change}
use personal_fin_hub.Cash.Service.{committed}

pub record TransactionFeeResponse : Type 0 where
  pub id : ℕ
  pub values : TransactionFeeCreate

pub record TransactionTaxResponse : Type 0 where
  pub id : ℕ
  pub values : TransactionTaxCreate

abbrev pub fee_response : TransactionFee → TransactionFeeResponse
fee_response f = record { id = f.id; values = f.values }

abbrev pub tax_response : TransactionTax → TransactionTaxResponse
tax_response t = record { id = t.id; values = t.values }

-- the answer where the reconciliation raised nothing
abbrev pub charge_answer : {A : Type 0} → A → Option Db → Result (A × Db)
charge_answer a none = err type_error
charge_answer a (some db) = ok (a, db)

module _ (c : Context) where
  abbrev pub is_fee : ℕ → TransactionFee → Bool
  is_fee id f = f.id == id && owned c f.profile_id

  abbrev pub is_tax : ℕ → TransactionTax → Bool
  is_tax id t = t.id == id && owned c t.profile_id

  unfoldable pub create_fee : TransactionFeeCreate → Db → Db × ℕ
  create_fee v db =
      let id = db.last_fee + 1 in
      let row : TransactionFee = record { id = id; profile_id = c.profile_id; values = v } in
      (record db { fees = db.fees ++ row ∷ []; last_fee = id }, id)

  unfoldable pub get_fee : ℕ → Db → Option TransactionFee
  get_fee id db = fetchone (select (is_fee id) db.fees)

  unfoldable pub get_fees_by_transaction : ℕ → Db → List TransactionFee
  get_fees_by_transaction tx db =
      sort_by (λ f. f.id)
        (select (λ f. f.values.transaction_id == tx && owned c f.profile_id) db.fees)

  unfoldable pub get_all_fees : Db → List TransactionFee
  get_all_fees db = sort_by (λ f. f.id) (select (λ f. owned c f.profile_id) db.fees)

  unfoldable pub update_fee : ℕ → TransactionFeeCreate → Db → Db
  update_fee id v db = record db {
    fees = map (λ f. if is_fee id f then record f { values = v } else f) db.fees;
  }

  unfoldable pub delete_fee : ℕ → Db → Db
  delete_fee id db = record db { fees = select (λ f. not (is_fee id f)) db.fees }

  unfoldable pub create_tax : TransactionTaxCreate → Db → Db × ℕ
  create_tax v db =
      let id = db.last_tax + 1 in
      let row : TransactionTax = record { id = id; profile_id = c.profile_id; values = v } in
      (record db { taxes = db.taxes ++ row ∷ []; last_tax = id }, id)

  unfoldable pub get_tax : ℕ → Db → Option TransactionTax
  get_tax id db = fetchone (select (is_tax id) db.taxes)

  unfoldable pub get_taxes_by_transaction : ℕ → Db → List TransactionTax
  get_taxes_by_transaction tx db =
      sort_by (λ t. t.id)
        (select (λ t. t.values.transaction_id == tx && owned c t.profile_id) db.taxes)

  unfoldable pub get_all_taxes : Db → List TransactionTax
  get_all_taxes db = sort_by (λ t. t.id) (select (λ t. owned c t.profile_id) db.taxes)

  unfoldable pub update_tax : ℕ → TransactionTaxCreate → Db → Db
  update_tax id v db = record db {
    taxes = map (λ t. if is_tax id t then record t { values = v } else t) db.taxes;
  }

  unfoldable pub delete_tax : ℕ → Db → Db
  delete_tax id db = record db { taxes = select (λ t. not (is_tax id t)) db.taxes }

  -- on a connection of the caller
  unfoldable pub add_fee_on : TransactionFeeCreate → Db → Result (TransactionFeeResponse × Db)
  add_fee_on body db =
      let (db', id) = create_fee body db in
      if is_none (get_transaction c body.transaction_id db)
      then err transaction_not_found
      else charge_answer (record { id = id; values = body })
          (reconcile_after_fee_change c body.transaction_id db')

  unfoldable pub add_fee : TransactionFeeCreate → Db → Result TransactionFeeResponse × Db
  add_fee body db = committed (add_fee_on body db) db

  unfoldable pub read_fee : ℕ → Db → Result TransactionFeeResponse
  read_fee id db = elim (get_fee id db) [ none ↦ err fee_not_found | some f ↦ ok (fee_response f) ]

  unfoldable pub list_fees : Option ℕ → Db → List TransactionFeeResponse
  list_fees none db = map fee_response (get_all_fees db)
  list_fees (some tx) db = map fee_response (get_fees_by_transaction tx db)

  -- Only the new transaction's adjustments are refreshed.
  unfoldable pub edit_fee : ℕ → TransactionFeeCreate → Db → Result TransactionFeeResponse × Db
  edit_fee id body db =
      if is_none (get_fee id db)
      then (err fee_not_found, db)
      else if is_none (get_transaction c body.transaction_id db)
      then (err transaction_not_found, db)
      else committed
          (charge_answer (record { id = id; values = body })
            (reconcile_after_fee_change c body.transaction_id (update_fee id body db)))
          db

  abbrev pub drop_fee_found : Option TransactionFee → ℕ → Db → Result (Unit {0}) × Db
  drop_fee_found none id db = (err fee_not_found, db)
  drop_fee_found (some f) id db =
      committed
        (charge_answer tt (reconcile_after_fee_change c f.values.transaction_id (delete_fee id db)))
        db

  unfoldable pub drop_fee : ℕ → Db → Result (Unit {0}) × Db
  drop_fee id db = drop_fee_found (get_fee id db) id db

  unfoldable pub add_tax_on : TransactionTaxCreate → Db → Result (TransactionTaxResponse × Db)
  add_tax_on body db =
      let (db', id) = create_tax body db in
      if is_none (get_transaction c body.transaction_id db)
      then err transaction_not_found
      else charge_answer (record { id = id; values = body })
          (reconcile_after_fee_change c body.transaction_id db')

  unfoldable pub add_tax : TransactionTaxCreate → Db → Result TransactionTaxResponse × Db
  add_tax body db = committed (add_tax_on body db) db

  unfoldable pub read_tax : ℕ → Db → Result TransactionTaxResponse
  read_tax id db = elim (get_tax id db) [ none ↦ err tax_not_found | some t ↦ ok (tax_response t) ]

  unfoldable pub list_taxes : Option ℕ → Db → List TransactionTaxResponse
  list_taxes none db = map tax_response (get_all_taxes db)
  list_taxes (some tx) db = map tax_response (get_taxes_by_transaction tx db)

  unfoldable pub edit_tax : ℕ → TransactionTaxCreate → Db → Result TransactionTaxResponse × Db
  edit_tax id body db =
      if is_none (get_tax id db)
      then (err tax_not_found, db)
      else if is_none (get_transaction c body.transaction_id db)
      then (err transaction_not_found, db)
      else committed
          (charge_answer (record { id = id; values = body })
            (reconcile_after_fee_change c body.transaction_id (update_tax id body db)))
          db

  abbrev pub drop_tax_found : Option TransactionTax → ℕ → Db → Result (Unit {0}) × Db
  drop_tax_found none id db = (err tax_not_found, db)
  drop_tax_found (some t) id db =
      committed
        (charge_answer tt (reconcile_after_fee_change c t.values.transaction_id (delete_tax id db)))
        db

  unfoldable pub drop_tax : ℕ → Db → Result (Unit {0}) × Db
  drop_tax id db = drop_tax_found (get_tax id db) id db
