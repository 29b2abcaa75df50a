-- ===== src/Cash/Transfers.antt =====
-- backend/services/transfer_svc.py: the two legs and the fees of a transfer on one connection, which any
-- exception rolls back.
use personal_fin_hub.Base.{ℕ, Bool, not, ◌||◌, Option, none, some, List, [], ◌∷◌, if◌then◌else◌, ℤ}
use personal_fin_hub.Pnl.Lots.{TransactionType, transfer_in, transfer_out}
use personal_fin_hub.Currency.Rates.{code_exists}
use personal_fin_hub.Cash.Data.{
  Context, BalanceMode, Note, TransactionCreate, FeeNature, TransactionFeeCreate, Db, fk_not_found,
  Result, ok, err,
}
use personal_fin_hub.Cash.Store.{is_none, get_entity}
use personal_fin_hub.Cash.Service.{TransactionResponse, create_on, committed}
use personal_fin_hub.Cash.Charges.{TransactionFeeResponse, add_fee_on}

pub record TransactionFeeInner : Type 0 where
  pub broker_fee_definition_id : Option ℕ
  pub fee_type : ℕ
  pub nature : FeeNature
  pub fixed_amount : ℤ
  pub percentage : ℤ
  pub currency : ℕ

pub record TransferCreate : Type 0 where
  pub from_entity_id : ℕ
  pub to_entity_id : ℕ
  pub amount : ℤ
  pub currency : ℕ
  pub timestamp : ℕ
  pub notes : Option Note
  pub fees : List TransactionFeeInner
  pub cash_handling : Option BalanceMode

pub record TransferResponse : Type 0 where
  pub from_transaction : TransactionResponse
  pub to_transaction : TransactionResponse
  pub fees : List TransactionFeeResponse

-- a leg; what the call leaves out is None
abbrev pub leg : TransactionType → ℕ → Option BalanceMode → TransferCreate → TransactionCreate
leg type entity mode body = record {
  timestamp = body.timestamp;
  type_of = type;
  investment_transaction_category = none;
  income_category = none;
  entity_id = entity;
  portfolio_asset_id = none;
  quantity = none;
  unit_price = none;
  currency = body.currency;
  total_value = some body.amount;
  gross_amount = none;
  net_amount = none;
  payment_currency = none;
  fx_rate = none;
  settlement_date = none;
  fiscal_exemption_id = none;
  dividend_type = none;
  record_date = none;
  payment_date = none;
  dividend_currency = none;
  dividend_payment_currency = none;
  dividend_fx_rate = none;
  notes = body.notes;
  cash_handling = mode;
}

-- The definition that the fee names is not passed on.
abbrev pub fee_of : ℕ → TransactionFeeInner → TransactionFeeCreate
fee_of tx f = record {
  transaction_id = tx;
  broker_fee_definition_id = none;
  fee_type = f.fee_type;
  nature = f.nature;
  fixed_amount = f.fixed_amount;
  percentage = f.percentage;
  currency = f.currency;
}

-- A call, and then another on what it left.
infixl 5 ◌>>=◌
abbrev pub ◌>>=◌ : {A B : Type 0} → Result (A × Db) → (A → Db → Result (B × Db)) → Result (B × Db)
◌>>=◌ (ok (a, db)) f = f a db
◌>>=◌ (err e) f = err e

module _ (c : Context) where
  unfoldable pub create_fees :
      ℕ → List TransactionFeeInner → Db → Result (List TransactionFeeResponse × Db)
  create_fees tx [] db = ok ([], db)
  create_fees tx (f ∷ fs) db = add_fee_on c (fee_of tx f) db >>= λ r db'.
      create_fees tx fs db' >>= λ rs db''. ok (r ∷ rs, db'')

  abbrev pub is_unknown : TransferCreate → Db → Bool
  is_unknown body db =
      is_none (get_entity c body.from_entity_id db)
      || is_none (get_entity c body.to_entity_id db)
      || not (code_exists body.currency db.rates)

  unfoldable pub transfer_on : TransferCreate → Db → Result (TransferResponse × Db)
  transfer_on body db =
      create_on c (leg transfer_out body.from_entity_id body.cash_handling body) db >>= λ out db₁.
      create_on c (leg transfer_in body.to_entity_id none body) db₁ >>= λ into db₂.
      create_fees out.id body.fees db₂ >>= λ fees db₃.
      ok (record { from_transaction = out; to_transaction = into; fees = fees }, db₃)

  unfoldable pub create_transfer : TransferCreate → Db → Result TransferResponse × Db
  create_transfer body db =
      if is_unknown body db then (err fk_not_found, db) else committed (transfer_on body db) db
