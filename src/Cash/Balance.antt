-- ===== src/Cash/Balance.antt =====
-- The balance of a pocket: get_transactions_between, compute_fee_cash_out_at and get_balance_at_date of
-- backend/db/queries.py. `none` stands for the TypeError of arithmetic on None. The timestamp 'now', which
-- no caller here passes, is left out.
use personal_fin_hub.Base.{
  ℕ, Bool, false, not, ◌&&◌, Option, none, some, List, [], ◌∷◌, ltb, leb, ◌==◌, if◌then◌else◌,
  select, sort_by, ℤ, pos, ◌+ℤ◌, ◌-ℤ◌, min_ℤ,
}
use personal_fin_hub.FiscalPeriods.Table.{fetchone}
use personal_fin_hub.Pnl.Lots.{
  TransactionType, income, money_out, investment_buy, investment_sell, transfer, transfer_in,
  transfer_out, balance_adjustment,
}
use personal_fin_hub.Currency.Rates.{Rate, get_rate_at}
use personal_fin_hub.Cash.Data.{
  Context, TransactionCreate, Transaction, BalanceSnapshot, FeeNature, fixed, percentage_of, both,
  minimum, TransactionFeeCreate, TransactionFee, TransactionTax, Entity, Db,
}
use personal_fin_hub.Cash.Store.{
  is_adjustment, is_id, or_else, cash_pocket, owned, get_entity, get_previous_snapshot,
}

-- the keyword arguments of the balance that leave rows out
pub record Exclude : Type 0 where
  pub adjustment_snapshot_id : Option ℕ
  pub adjustment_id : Option ℕ
  pub transaction_id : Option ℕ

abbrev pub nothing : Exclude
nothing = record { adjustment_snapshot_id = none; adjustment_id = none; transaction_id = none }

abbrev pub but_snapshot : ℕ → Exclude
but_snapshot id = record nothing { adjustment_snapshot_id = some id }

abbrev pub but_transaction : Option ℕ → Exclude
but_transaction id = record nothing { transaction_id = id }

-- `type = 'BALANCE_ADJUSTMENT' AND balance_snapshot_id IS ?`
abbrev pub of_snapshot : ℕ → Transaction → Bool
of_snapshot snapshot r = is_adjustment r.values.type_of && is_id r.balance_snapshot_id snapshot

abbrev pub in_snapshot : Option ℕ → Transaction → Bool
in_snapshot none r = false
in_snapshot (some id) r = of_snapshot id r

abbrev pub kept : Exclude → Transaction → Bool
kept ex r =
    not (in_snapshot ex.adjustment_snapshot_id r)
    && not (is_adjustment r.values.type_of && is_id ex.adjustment_id r.id)
    && not (is_id ex.transaction_id r.id)

abbrev pub or_zero : Option ℤ → ℤ
or_zero x = or_else x (pos 0)

-- `tx["gross_amount"] if tx["gross_amount"] is not None else tx["total_value"]`
abbrev pub cash_of : TransactionCreate → Option ℤ
cash_of v = elim v.gross_amount [ none ↦ v.total_value | some x ↦ some x ]

-- the CASE of the SQL sum, where NULL adds nothing
abbrev pub sql_amount : TransactionType → TransactionCreate → ℤ
sql_amount income v = or_zero (cash_of v)
sql_amount investment_sell v = or_zero (cash_of v)
sql_amount transfer_in v = or_zero (cash_of v)
sql_amount money_out v = pos 0 -ℤ or_zero (cash_of v)
sql_amount investment_buy v = pos 0 -ℤ or_zero (cash_of v)
sql_amount transfer_out v = pos 0 -ℤ or_zero (cash_of v)
sql_amount balance_adjustment v = or_zero v.total_value
sql_amount transfer v = pos 0

abbrev pub movement : Transaction → ℤ
movement r = sql_amount r.values.type_of r.values

unfoldable pub sum_movements : List Transaction → ℤ
sum_movements [] = pos 0
sum_movements (r ∷ rs) = movement r +ℤ sum_movements rs

abbrev added : ℤ → Option ℤ → Option ℤ
added balance none = none
added balance (some x) = some (balance +ℤ x)

abbrev subtracted : ℤ → Option ℤ → Option ℤ
subtracted balance none = none
subtracted balance (some x) = some (balance -ℤ x)

-- one turn of the loop over the rows since the snapshot
abbrev pub book : TransactionType → TransactionCreate → ℤ → Option ℤ
book income v b = added b (cash_of v)
book investment_sell v b = added b (cash_of v)
book transfer_in v b = added b (cash_of v)
book money_out v b = subtracted b (cash_of v)
book investment_buy v b = subtracted b (cash_of v)
book transfer_out v b = subtracted b (cash_of v)
book balance_adjustment v b = some (b +ℤ or_zero v.total_value)
book transfer v b = some b

-- A raise ends the loop.
abbrev pub and_then {ℓ κ} : {A : Type ℓ} {B : Type κ} → Option A → (A → Option B) → Option B
and_then none f = none
and_then (some a) f = f a

unfoldable pub book_all : List Transaction → ℤ → Option ℤ
book_all [] b = some b
book_all (r ∷ rs) b = and_then (book r.values.type_of r.values b) λ b'. book_all rs b'

abbrev pub less : Option ℤ → Option ℤ → Option ℤ
less (some a) (some b) = some (a -ℤ b)
less _ _ = none

-- `total` and `rate_cache` of compute_fee_cash_out_at; the cache's keys differ in the currency only.
pub record Charges : Type 0 where
  pub total : ℤ
  pub rate_cache : List (ℕ × Option ℤ)

unfoldable pub cached : ℕ → List (ℕ × Option ℤ) → Option (Option ℤ)
cached currency [] = none
cached currency ((key, rate) ∷ rest) = if key == currency then some rate else cached currency rest

abbrev rate_of : Option Rate → Option ℤ
rate_of none = none
rate_of (some r) = some r.rate

module _ (c : Context) where
  abbrev pub in_pocket : ℕ → ℕ → Transaction → Bool
  in_pocket entity currency r =
      r.values.entity_id == entity && cash_pocket r.values == currency && owned c r.profile_id

  -- the WHERE of get_transactions_between, and of the sum
  abbrev pub within : ℕ → ℕ → ℕ → ℕ → Exclude → Transaction → Bool
  within entity currency start stop ex r =
      in_pocket entity currency r
      && leb start r.values.timestamp
      && ltb r.values.timestamp stop
      && kept ex r

  abbrev pub up_to : Bool → ℕ → ℕ → Bool
  up_to inclusive t stop = if inclusive then leb t stop else ltb t stop

  abbrev pub until : ℕ → ℕ → Bool → ℕ → Exclude → Transaction → Bool
  until entity currency inclusive stop ex r =
      in_pocket entity currency r && up_to inclusive r.values.timestamp stop && kept ex r

  unfoldable pub get_transactions_between : ℕ → ℕ → ℕ → ℕ → Exclude → Db → List Transaction
  get_transactions_between entity currency start stop ex db =
      sort_by (λ r. r.values.timestamp)
        (select (within entity currency start stop ex) db.transactions)

  -- `percentage * tx_total / 100.0`
  abbrev pub percent : TransactionFeeCreate → ℤ → ℤ
  percent f total = c.div (c.mul f.percentage total) c.hundred

  abbrev with_total : TransactionFeeCreate → FeeNature → ℤ → ℤ
  with_total f fixed total = f.fixed_amount
  with_total f percentage_of total = percent f total
  with_total f both total = f.fixed_amount +ℤ percent f total
  with_total f minimum total = min_ℤ f.fixed_amount (percent f total)

  abbrev pub fee_amount : TransactionFeeCreate → Option ℤ → Option ℤ
  fee_amount f (some total) = some (with_total f f.nature total)
  fee_amount f none = elim f.nature [ fixed ↦ some f.fixed_amount | _ ↦ none ]

  abbrev pub charged : TransactionCreate → ℕ → ℕ → Option ℕ → ℕ → Bool
  charged v entity stop without id =
      v.entity_id == entity && leb v.timestamp stop && not (is_id without id)

  abbrev pub find_row : ℕ → List Transaction → Option Transaction
  find_row id rows = fetchone (select (λ r. r.id == id) rows)

  abbrev pub joined_with :
      {A : Type 0} → A → Option Transaction → List (A × Transaction) → List (A × Transaction)
  joined_with x none rest = rest
  joined_with x (some r) rest = (x, r) ∷ rest

  -- the row of a transaction, joined with whatever refers to it
  module _ {A : Type 0} (key : A → ℕ) (owner : A → Option ℕ) where
    unfoldable pub join : List A → List Transaction → List (A × Transaction)
    join [] rows = []
    join (x ∷ xs) rows =
        let rest = join xs rows in
        if owned c (owner x) then joined_with x (find_row (key x) rows) rest else rest

  abbrev pub charged_rows {ℓ} :
      {A : Type ℓ} → ℕ → ℕ → Option ℕ → List (A × Transaction) → List (A × Transaction)
  charged_rows entity stop without rows =
      select (λ p. charged p.1.values entity stop without p.1.id) rows

  abbrev pub joined_fees : Db → List (TransactionFee × Transaction)
  unfolding join
  joined_fees db = join (λ f. f.values.transaction_id) (λ f. f.profile_id) db.fees db.transactions

  abbrev pub joined_taxes : Db → List (TransactionTax × Transaction)
  unfolding join
  joined_taxes db = join (λ t. t.values.transaction_id) (λ t. t.profile_id) db.taxes db.transactions

  abbrev convert_with : Option ℤ → ℤ → Charges → Charges
  convert_with none amount s = s
  convert_with (some rate) amount s = record s { total = s.total +ℤ c.mul amount rate }

  abbrev remember : ℕ → Option ℤ → Charges → Charges
  remember currency rate s = record s { rate_cache = (currency, rate) ∷ s.rate_cache }

  -- a charge in a currency other than the pocket's: nothing without a main currency, and otherwise at the
  -- rate that the cache holds or the first charge of its currency finds
  charge_other : Option ℕ → ℕ → ℤ → ℕ → List Rate → Charges → Charges
  unfolding cached
  charge_other none currency amount at rates s = s
  charge_other (some main) currency amount at rates s = elim (cached currency s.rate_cache) [
    | some rate ↦ convert_with rate amount s
    | none ↦
        let rate = rate_of (get_rate_at currency main at rates) in
        convert_with rate amount (remember currency rate s)
  ]

  unfoldable pub charge : ℕ → Option ℕ → ℕ → ℤ → ℕ → List Rate → Charges → Charges
  unfolding charge_other
  charge pocket main currency amount at rates s =
      if currency == pocket
      then record s { total = s.total +ℤ amount }
      else charge_other main currency amount at rates s

  unfoldable pub charge_fees :
      ℕ → Option ℕ → List Rate → List (TransactionFee × Transaction) → Charges → Option Charges
  charge_fees pocket main rates [] s = some s
  charge_fees pocket main rates ((f, r) ∷ rest) s =
      elim (fee_amount f.values r.values.total_value) [
        | none ↦ none
        | some amount ↦
            charge_fees pocket main rates rest
              (charge pocket main f.values.currency amount r.values.timestamp rates s)
      ]

  unfoldable pub charge_taxes :
      ℕ → Option ℕ → List Rate → List (TransactionTax × Transaction) → Charges → Charges
  charge_taxes pocket main rates [] s = s
  charge_taxes pocket main rates ((t, r) ∷ rest) s =
      charge_taxes pocket main rates rest
        (charge pocket main t.values.currency t.values.tax_amount r.values.timestamp rates s)

  abbrev total_charges :
      ℕ → Option ℕ → List Rate → List (TransactionTax × Transaction) → Option Charges → Option ℤ
  total_charges pocket main rates taxes none = none
  total_charges pocket main rates taxes (some s) =
      some (charge_taxes pocket main rates taxes s).total

  -- the two loops, over the charged rows of the joins
  unfoldable pub charge_all :
      ℕ
      → Option ℕ
      → ℕ
      → ℕ
      → Option ℕ
      → List Rate
      → List (TransactionFee × Transaction)
      → List (TransactionTax × Transaction)
      → Option ℤ
  charge_all pocket main entity stop without rates fees taxes =
      total_charges pocket main rates (charged_rows entity stop without taxes) (
        charge_fees pocket main rates (charged_rows entity stop without fees)
          (record { total = pos 0; rate_cache = [] }))

  -- `main_currency is not None and main_currency != target_currency`
  abbrev pub elsewhere : Option ℕ → ℕ → Bool
  elsewhere none target = false
  elsewhere (some main) target = not (main == target)

  -- what a live entity is charged
  abbrev pub charges_of :
      Option Entity
      → ℕ
      → ℕ
      → ℕ
      → Option ℕ
      → List Rate
      → List (TransactionFee × Transaction)
      → List (TransactionTax × Transaction)
      → Option ℤ
  charges_of none entity target stop without rates fees taxes = some (pos 0)
  charges_of (some e) entity target stop without rates fees taxes =
      if elsewhere e.main_currency target
      then some (pos 0)
      else charge_all (or_else e.main_currency target) e.main_currency entity stop without rates
          fees taxes

  unfoldable pub compute_fee_cash_out_at : ℕ → ℕ → ℕ → Option ℕ → Db → Option ℤ
  compute_fee_cash_out_at entity target stop without db =
      charges_of (get_entity c entity db) entity target stop without db.rates (joined_fees db)
        (joined_taxes db)

  -- from a snapshot
  unfoldable pub balance_since : BalanceSnapshot → ℕ → ℕ → ℕ → Exclude → Db → Option ℤ
  balance_since s entity currency at ex db =
      less
        (book_all (get_transactions_between entity currency s.values.timestamp at ex db)
          s.values.amount)
        (less (compute_fee_cash_out_at entity currency at ex.transaction_id db)
          (compute_fee_cash_out_at entity currency s.values.timestamp ex.transaction_id db))

  -- from the beginning
  unfoldable pub balance_from_start : Bool → ℕ → ℕ → ℕ → Exclude → Db → Option ℤ
  unfolding sum_movements
  balance_from_start inclusive entity currency at ex db =
      less (some (sum_movements (select (until entity currency inclusive at ex) db.transactions)))
        (compute_fee_cash_out_at entity currency at ex.transaction_id db)

  abbrev pub balance_with : Option BalanceSnapshot → Bool → ℕ → ℕ → ℕ → Exclude → Db → Option ℤ
  balance_with none inclusive entity currency at ex db =
      balance_from_start inclusive entity currency at ex db
  balance_with (some s) inclusive entity currency at ex db =
      balance_since s entity currency at ex db

  unfoldable pub get_balance_at_date : Bool → ℕ → ℕ → ℕ → Exclude → Db → Option ℤ
  get_balance_at_date inclusive entity currency at ex db =
      balance_with (get_previous_snapshot c entity currency at db) inclusive entity currency at ex
        db
