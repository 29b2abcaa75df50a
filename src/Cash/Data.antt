-- ===== src/Cash/Data.antt =====
-- The data of the cash services: backend/models/models.py, backend/models/enums.py and the tables of
-- backend/db/schema.sql that they read and write. Texts, codes and categories are numbers, an instant
-- counts seconds and a date is its ordinal, from one origin before all dates in use. Rows of a table are
-- listed oldest first, and ids are AUTOINCREMENT, so the largest id ever given is part of the state.
use personal_fin_hub.Base.{ℕ, Bool, Option, List, ℤ}
use personal_fin_hub.FiscalPeriods.Table.{Table, RuleKey}
use personal_fin_hub.Pnl.Lots.{TransactionType}
use personal_fin_hub.Currency.Rates.{Rate}

-- What the code takes from Python's floats, from the zone of the profile (zoneinfo: the wall clock of a UTC
-- instant, and back) and from the connection (its active profile, `none` where it is unscoped).
pub record Context : Type 0 where
  pub profile_id : Option ℕ
  pub mul : ℤ → ℤ → ℤ
  pub div : ℤ → ℤ → ℤ
  pub round2 : ℤ → ℤ
  pub one : ℤ
  pub hundred : ℤ
  pub inverse : ℤ → ℤ
  pub to_wall_clock : ℕ → ℕ
  pub to_utc : ℕ → ℕ

pub data BalanceMode : Type 0 where
  inject debit : BalanceMode

-- The texts that the code writes in `notes`, and any other; only the first is `LIKE 'Inferred cash%'`
-- (`inferred_cash n` is a text of that form).
pub data Note : Type 0 where
  inferred_cash : ℕ → Note
  snapshot_note : ℕ → Note
  plain_note : ℕ → Note

pub record TransactionCreate : Type 0 where
  pub timestamp : ℕ
  pub type_of : TransactionType
  pub investment_transaction_category : Option ℕ
  pub income_category : Option ℕ
  pub entity_id : ℕ
  pub portfolio_asset_id : Option ℕ
  pub quantity : Option ℤ
  pub unit_price : Option ℤ
  pub currency : ℕ
  pub total_value : Option ℤ
  pub gross_amount : Option ℤ
  pub net_amount : Option ℤ
  pub payment_currency : Option ℕ
  pub fx_rate : Option ℤ
  pub settlement_date : Option ℕ
  pub fiscal_exemption_id : Option ℕ
  pub dividend_type : Option ℕ
  pub record_date : Option ℕ
  pub payment_date : Option ℕ
  pub dividend_currency : Option ℕ
  pub dividend_payment_currency : Option ℕ
  pub dividend_fx_rate : Option ℤ
  pub notes : Option Note
  pub cash_handling : Option BalanceMode

-- a row of transactions: the columns that a body gives, and the others
pub record Transaction : Type 0 where
  pub id : ℕ
  pub profile_id : Option ℕ
  pub balance_snapshot_id : Option ℕ
  pub fiscal_rule : Option RuleKey
  pub values : TransactionCreate

pub record BalanceSnapshotCreate : Type 0 where
  pub entity_id : ℕ
  pub currency : ℕ
  pub amount : ℤ
  pub timestamp : ℕ
  pub notes : Option ℕ

pub record BalanceSnapshot : Type 0 where
  pub id : ℕ
  pub profile_id : Option ℕ
  pub values : BalanceSnapshotCreate

-- a row of balance_adjustment_links
pub record Link : Type 0 where
  pub balance_adjustment_id : ℕ
  pub linked_transaction_id : ℕ

pub data FeeNature : Type 0 where
  fixed percentage_of both minimum : FeeNature

pub record TransactionFeeCreate : Type 0 where
  pub transaction_id : ℕ
  pub broker_fee_definition_id : Option ℕ
  pub fee_type : ℕ
  pub nature : FeeNature
  pub fixed_amount : ℤ
  pub percentage : ℤ
  pub currency : ℕ

pub record TransactionFee : Type 0 where
  pub id : ℕ
  pub profile_id : Option ℕ
  pub values : TransactionFeeCreate

pub record TransactionTaxCreate : Type 0 where
  pub transaction_id : ℕ
  pub tax_definition_id : ℕ
  pub tax_rate : Option ℤ
  pub tax_amount : ℤ
  pub currency : ℕ

pub record TransactionTax : Type 0 where
  pub id : ℕ
  pub profile_id : Option ℕ
  pub values : TransactionTaxCreate

-- what the cash services read of a row of entities
pub record Entity : Type 0 where
  pub id : ℕ
  pub profile_id : Option ℕ
  pub main_currency : Option ℕ
  pub is_deleted : Bool

-- what they read of portfolio_assets and fiscal_exemptions, and of schedules (whose `id` is then the
-- linked transaction)
pub record Owned : Type 0 where
  pub id : ℕ
  pub profile_id : Option ℕ

pub record Db : Type 0 where
  pub transactions : List Transaction
  pub last_transaction : ℕ
  pub snapshots : List BalanceSnapshot
  pub last_snapshot : ℕ
  pub links : List Link
  pub fees : List TransactionFee
  pub last_fee : ℕ
  pub taxes : List TransactionTax
  pub last_tax : ℕ
  pub entities : List Entity
  pub portfolio_assets : List Owned
  pub fiscal_exemptions : List Owned
  pub schedules : List Owned
  pub periods : Table
  pub default_fiscal_rule : Option RuleKey
  pub rates : List Rate

-- The exceptions, and TypeError for arithmetic on None.
pub data Raised : Type 0 where
  fk_not_found transaction_not_found transaction_has_dependents fee_not_found tax_not_found
        snapshot_not_found snapshot_conflict entity_not_found currency_not_found type_error :
      Raised

pub data Result (A : Type 0) : Type 0 where
  ok : A → Result A
  err : Raised → Result A
