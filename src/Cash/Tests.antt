-- ===== src/Cash/Tests.antt =====
-- A small database of one entity: an income, a spend and a snapshot with its adjustment. The theorems of the
-- cash services at it.
use personal_fin_hub.Base.{
  ℕ, ◌*◌, ◌≡◌, refl, true, false, Option, none, some, [], ◌∷◌, ℤ, pos, negsuc, ◌*ℤ◌, ◌-ℤ◌, ◌+ℤ◌,
  arith,
}
use personal_fin_hub.Pnl.Lots.{TransactionType, income, money_out, balance_adjustment}
use personal_fin_hub.Currency.Rates.{code_exists}
use personal_fin_hub.Cash.Data.{
  Context, plain_note, TransactionCreate, Transaction, BalanceSnapshotCreate, BalanceSnapshot,
  TransactionFeeCreate, fixed, Db, ok,
}
use personal_fin_hub.Cash.Store.{
  get_entity, get_next_snapshot, get_previous_snapshot, earliest_snapshot, latest_snapshot,
  has_transactions_on_or_after, create_balance_snapshot, adjustment_values,
}
use personal_fin_hub.Cash.Balance.{
  nothing, but_snapshot, but_transaction, sum_movements, book_all, join, charge_fees, charge_taxes,
  charge_all, compute_fee_cash_out_at, get_transactions_between, balance_since, balance_from_start,
  get_balance_at_date,
}
use personal_fin_hub.Cash.Adjustments.{recalculate_adjustments, ensure_cash_for_spend}
use personal_fin_hub.Cash.Cover.{Injectable, ensure_cash_for_spend-covers}
use personal_fin_hub.Cash.Service.{create_transaction}
use personal_fin_hub.Cash.Snapshots.{create_snapshot, resolve_fk, check_conflicts}
use personal_fin_hub.Cash.Transfers.{TransferCreate, create_transfer}
use personal_fin_hub.Cash.Anchors.{Adjustable}
use personal_fin_hub.Cash.Reconcile.{recalculate_adjustments-lands, create_snapshot-lands}
use personal_fin_hub.Cash.Ledger.{IsKeyed, ledger}
use personal_fin_hub.Cash.Ledger.Calls.{Creates, create_transaction-Creates}
use personal_fin_hub.Cash.Ledger.Edits.{Edits}
use personal_fin_hub.Cash.Ledger.Deletes.{Deletes}
use personal_fin_hub.Cash.Ledger.Legs.{Transfers, create_transfer-Transfers}
use personal_fin_hub.Cash.Wholes.{FullTransactionCreate, create_full, create_batch}
use personal_fin_hub.Cash.Ledger.Batches.{
  Batched, FullyMade, create_batch-Batched, create_full-FullyMade,
}
use personal_fin_hub.Cash.Ledger.Others.{create_fee_call, perform, perform-ledger}

abbrev utc : Context
utc = record {
  profile_id = some 1;
  mul = λ a b. a *ℤ b;
  div = λ a b. a;
  round2 = λ a. a;
  one = pos 1;
  hundred = pos 100;
  inverse = λ a. a;
  to_wall_clock = λ t. t;
  to_utc = λ t. t;
}

-- an instant of a day
abbrev day : ℕ → ℕ
day n = n * 86400

abbrev moved : TransactionType → ℤ → ℕ → TransactionCreate
moved type amount at = record (adjustment_values 1 1 amount at (plain_note 0)) { type_of = type }

abbrev row : ℕ → Option ℕ → TransactionCreate → Transaction
row id snapshot v = record {
  id = id;
  profile_id = some 1;
  balance_snapshot_id = snapshot;
  fiscal_rule = none;
  values = v;
}

abbrev snapshot : BalanceSnapshot
snapshot = record {
  id = 1;
  profile_id = some 1;
  values = record {
    entity_id = 1;
    currency = 1;
    amount = pos 300;
    timestamp = day 20;
    notes = none;
  };
}

-- An income of 500, a spend of 50, and a snapshot of 300 whose adjustment is out of date.
abbrev accounts : Db
accounts = record {
  transactions =
      row 1 none (moved income (pos 500) (day 10))
      ∷ row 2 (some 1) (moved balance_adjustment (negsuc 199) 1727999)
      ∷ row 3 none (moved money_out (pos 50) (day 15))
      ∷ [];
  last_transaction = 3;
  snapshots = snapshot ∷ [];
  last_snapshot = 1;
  links = [];
  fees = [];
  last_fee = 0;
  taxes = [];
  last_tax = 0;
  entities =
      record { id = 1; profile_id = some 1; main_currency = none; is_deleted = false }
      ∷ record { id = 2; profile_id = some 1; main_currency = none; is_deleted = false }
      ∷ [];
  portfolio_assets = [];
  fiscal_exemptions = [];
  schedules = [];
  periods = record { rows = []; last_id = 0 };
  default_fiscal_rule = none;
  rates = record { code = 1; base_code = 1; rate = pos 1; timestamp = 0 } ∷ [];
}

accounts-IsKeyed : IsKeyed accounts
accounts-IsKeyed = ((refl, (refl, (refl, tt))), refl)

accounts-Adjustable : Adjustable utc 1 1 1 (day 20) accounts
accounts-Adjustable = record {
  distinct = (refl, (refl, (refl, tt)));
  known = refl;
  own = refl;
  single = (λ e. absurd (ground (arith, e)), (λ e. refl, (λ e. refl, tt)));
  fees = refl;
  taxes = refl;
  before = refl;
  after = refl;
}

accounts_balance :
    get_balance_at_date utc true 1 1 (day 20) (but_snapshot 1) accounts ≡ some (pos 450)
unfolding get_balance_at_date get_previous_snapshot latest_snapshot balance_from_start sum_movements
    compute_fee_cash_out_at get_entity charge_all charge_fees charge_taxes join ◌+ℤ◌ ◌-ℤ◌
accounts_balance = refl

recalculate_adjustments-lands_example :
    (db' : Db) × (recalculate_adjustments utc 1 1 (day 15) accounts ≡ some db')
    × (get_balance_at_date utc true 1 1 (day 20) nothing db' ≡ some (pos 300))
unfolding get_next_snapshot earliest_snapshot
recalculate_adjustments-lands_example =
    recalculate_adjustments-lands utc 1 1 (day 15) accounts snapshot (pos 450) refl
      accounts-Adjustable accounts_balance

create_transaction-Creates_example :
    Creates utc
      (moved money_out (pos 70) (day 5))
      accounts
      (create_transaction utc (moved money_out (pos 70) (day 5)) accounts)
create_transaction-Creates_example =
    create_transaction-Creates utc (moved money_out (pos 70) (day 5)) accounts accounts-IsKeyed

abbrev wire : TransferCreate
wire = record {
  from_entity_id = 1;
  to_entity_id = 2;
  amount = pos 20;
  currency = 1;
  timestamp = day 12;
  notes = none;
  fees = [];
  cash_handling = none;
}

create_transfer-Transfers_example : Transfers utc wire accounts (create_transfer utc wire accounts)
create_transfer-Transfers_example = create_transfer-Transfers utc wire accounts accounts-IsKeyed

create_batch-Batched_example :
    Batched utc (moved money_out (pos 70) (day 5) ∷ moved income (pos 30) (day 6) ∷ []) accounts (
      create_batch utc
        (moved money_out (pos 70) (day 5) ∷ moved income (pos 30) (day 6) ∷ [])
        accounts)
create_batch-Batched_example =
    create_batch-Batched utc (moved money_out (pos 70) (day 5) ∷ moved income (pos 30) (day 6) ∷ [])
      accounts accounts-IsKeyed

abbrev charged_spend : FullTransactionCreate
charged_spend = record {
  transaction = moved money_out (pos 70) (day 16);
  fees =
      record {
        broker_fee_definition_id = none;
        fee_type = 0;
        nature = fixed;
        fixed_amount = pos 2;
        percentage = pos 0;
        currency = 1;
      }
      ∷ [];
  taxes = record { tax_definition_id = 1; tax_rate = none; tax_amount = pos 3; currency = 1 } ∷ [];
}

create_full-FullyMade_example :
    FullyMade utc charged_spend accounts (create_full utc charged_spend accounts)
create_full-FullyMade_example = create_full-FullyMade utc charged_spend accounts accounts-IsKeyed

abbrev wire_fee : TransactionFeeCreate
wire_fee = record {
  transaction_id = 3;
  broker_fee_definition_id = none;
  fee_type = 0;
  nature = fixed;
  fixed_amount = pos 2;
  percentage = pos 0;
  currency = 1;
}

perform-ledger_example :
    IsKeyed (perform utc (create_fee_call wire_fee) accounts)
    × (ledger (perform utc (create_fee_call wire_fee) accounts) ≡ ledger accounts)
perform-ledger_example = perform-ledger utc (create_fee_call wire_fee) accounts accounts-IsKeyed

accounts-Injectable : Injectable utc 1 1 (day 5) none accounts
unfolding get_previous_snapshot latest_snapshot
accounts-Injectable = record {
  distinct = (refl, (refl, (refl, tt)));
  own = refl;
  new = refl;
  fees = refl;
  taxes = refl;
  unanchored = refl;
}

early_balance :
    get_balance_at_date utc true 1 1 (day 5) (but_transaction none) accounts ≡ some (pos 0)
unfolding get_balance_at_date get_previous_snapshot latest_snapshot balance_from_start sum_movements
    compute_fee_cash_out_at get_entity charge_all charge_fees charge_taxes join ◌+ℤ◌ ◌-ℤ◌
early_balance = refl

ensure_cash_for_spend-covers_example :
    (db' : Db) × (ensure_cash_for_spend utc 1 1 (day 5) (pos 70) none none accounts ≡ some db')
    × (get_balance_at_date utc true 1 1 (day 5) (but_transaction none) db' ≡ some (pos 70))
ensure_cash_for_spend-covers_example =
    ensure_cash_for_spend-covers utc 1 1 (day 5) none accounts accounts-Injectable (pos 70) (pos 0)
      none refl early_balance

abbrev later_snapshot : BalanceSnapshotCreate
later_snapshot = record {
  entity_id = 1;
  currency = 1;
  amount = pos 320;
  timestamp = day 30;
  notes = none;
}

later-Adjustable :
    Adjustable utc 1 1 2 (day 30) (create_balance_snapshot utc later_snapshot accounts).0
unfolding create_balance_snapshot
later-Adjustable = record {
  distinct = (refl, (refl, (refl, tt)));
  known = refl;
  own = refl;
  single = (λ e. refl, (λ e. refl, (λ e. refl, tt)));
  fees = refl;
  taxes = refl;
  before = refl;
  after = refl;
}

later_balance :
    get_balance_at_date utc true 1 1
      (day 30)
      (but_snapshot 2)
      (create_balance_snapshot utc later_snapshot accounts).0
    ≡ some (pos 300)
unfolding get_balance_at_date get_previous_snapshot latest_snapshot balance_since book_all
    get_transactions_between create_balance_snapshot compute_fee_cash_out_at get_entity charge_all
    charge_fees charge_taxes join ◌+ℤ◌ ◌-ℤ◌
later_balance = refl

later_fks : resolve_fk utc later_snapshot accounts ≡ none
unfolding resolve_fk get_entity code_exists
later_fks = refl

later_free : check_conflicts utc later_snapshot accounts ≡ false
unfolding check_conflicts has_transactions_on_or_after
later_free = refl

create_snapshot-lands_example :
    (db' : Db) × (create_snapshot utc later_snapshot accounts
      ≡ (ok (record { id = 2; values = later_snapshot }), db'))
    × (get_balance_at_date utc true 1 1 (day 30) nothing db' ≡ some (pos 320))
create_snapshot-lands_example =
    create_snapshot-lands utc later_snapshot accounts (pos 300) later_fks later_free
      later-Adjustable later_balance
