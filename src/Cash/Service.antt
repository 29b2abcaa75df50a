-- ===== src/Cash/Service.antt =====
-- create, get, update and delete of backend/services/transaction_svc.py. What a call on a connection of
-- its caller leaves is part of its result; a call of its own commits it, and a raise before leaves the
-- database as it was.
use personal_fin_hub.Base.{
  ℕ, Bool, true, false, not, ◌||◌, Option, none, some, List, [], ◌∷◌, ◌==◌, if◌then◌else◌, ℤ, pos,
  zero,
}
use personal_fin_hub.FiscalPeriods.Table.{RuleKey}
use personal_fin_hub.Pnl.Lots.{TransactionType, investment_buy}
use personal_fin_hub.Currency.Rates
use personal_fin_hub.Currency.Rates.{CurrencyRate, code_exists, get_rate}
use personal_fin_hub.Cash.Data.{
  Context, BalanceMode, inject, debit, TransactionCreate, Transaction, Db, fk_not_found,
  transaction_not_found, transaction_has_dependents, type_error, Result, ok, err,
}
use personal_fin_hub.Cash.Store
use personal_fin_hub.Cash.Store.{
  is_spend, is_adjustment, is_sale, is_none, or_else, cash_pocket, injection_ts, get_entity,
  get_portfolio_asset, get_fiscal_exemption, get_transaction, get_previous_snapshot,
  get_attached_transaction_ids, get_adjustments_linked_to_transaction, remove_links_for_transaction,
  delete_injection_if_unlinked,
}
use personal_fin_hub.Cash.Balance.{and_then}
use personal_fin_hub.Cash.Adjustments.{
  is_some, recalculate_adjustments, ensure_cash_for_spend, link_injection, refresh_injection,
}

-- a response: the id, the rule, and the values that the row has
pub record TransactionResponse : Type 0 where
  pub id : ℕ
  pub fiscal_rule : Option RuleKey
  pub values : TransactionCreate

-- The response to a read has two more columns.
pub record FullResponse : Type 0 where
  pub response : TransactionResponse
  pub cash_handling_effective : Option BalanceMode
  pub attached_transaction_ids : Option (List ℕ)

abbrev pub is_zero : ℤ → Bool
is_zero (pos zero) = true
is_zero _ = false

abbrev pub is_trade : TransactionType → Bool
is_trade investment_buy = true
is_trade t = is_sale t

-- commit, or the database as it was
abbrev pub committed : {A : Type 0} → Result (A × Db) → Db → Result A × Db
committed (ok (a, db')) db = (ok a, db')
committed (err e) db = (err e, db)

abbrev rate_or_none : Rates.Result CurrencyRate → Option ℤ
rate_or_none (Rates.ok r) = some r.rate
rate_or_none (Rates.err e) = none

-- `net_amount = gross_amount` where a rate is known and no net amount is given
abbrev pub net_of : Option ℤ → Option ℤ → Option ℤ → Option ℤ
net_of none gross net = net
net_of (some rate) gross none = gross
net_of (some rate) gross (some n) = some n

abbrev pub unknown_code : Option ℕ → Db → Bool
unknown_code none db = false
unknown_code (some code) db = not (code_exists code db.rates)

-- `a or b`
abbrev pub value_or : Option ℤ → Option ℤ → Option ℤ
value_or none b = b
value_or (some a) b = if is_zero a then b else some a

abbrev pub with_value : TransactionCreate → Option ℤ → TransactionCreate
with_value body none = body
with_value body (some total) = record body { total_value = some total }

abbrev pub rule_in : Option Transaction → Option RuleKey
rule_in none = none
rule_in (some r) = r.fiscal_rule

abbrev pub has_moved : Transaction → TransactionCreate → Bool
has_moved existing v =
    not (existing.values.entity_id == v.entity_id)
    || not (cash_pocket existing.values == cash_pocket v)
    || not (existing.values.timestamp == v.timestamp)

-- `sent` is whether the body gives cash_handling (`model_fields_set`).
abbrev pub effective : Bool → TransactionCreate → Transaction → Option BalanceMode
effective sent body existing = if sent then body.cash_handling else existing.values.cash_handling

unfoldable pub delete_unlinked : List Transaction → Db → Db
delete_unlinked [] db = db
delete_unlinked (adj ∷ adjs) db = delete_unlinked adjs (delete_injection_if_unlinked adj.id db)

abbrev pub or_type_error : Option Db → Result (Unit {0} × Db)
or_type_error none = err type_error
or_type_error (some db) = ok (tt, db)

module _ (c : Context) where
  -- quantity, unit_price and total_value, each in terms of the other two where it is missing
  abbrev pub resolve_fields : Bool → Option ℤ → Option ℤ → Option ℤ → Option ℤ × Option ℤ × Option ℤ
  resolve_fields trade (some q) (some p) none = (some q, some p, some (c.mul q p))
  resolve_fields true none (some p) (some t) =
      (if is_zero p then none else some (c.div t p), some p, some t)
  resolve_fields true (some q) none (some t) =
      (some q, if is_zero q then none else some (c.div t q), some t)
  resolve_fields true none none (some t) = (some c.one, some t, some t)
  resolve_fields trade q p t = (q, p, t)

  unfoldable pub resolve_investment_fields : TransactionCreate → Option ℤ × Option ℤ × Option ℤ
  resolve_investment_fields body =
      resolve_fields (is_trade body.type_of) body.quantity body.unit_price body.total_value

  -- `round(total * fx_rate, 2)` where no gross amount is given
  abbrev pub gross_of : Option ℤ → Option ℤ → ℤ → Option ℤ
  gross_of none gross total = gross
  gross_of (some rate) none total = some (c.round2 (c.mul total rate))
  gross_of (some rate) (some g) total = some g

  abbrev pub with_rate : TransactionCreate → Option ℤ → ℤ → TransactionCreate
  with_rate body rate total =
      let gross = gross_of rate body.gross_amount total in
      record body {
        fx_rate = rate;
        gross_amount = gross;
        net_amount = net_of rate gross body.net_amount;
      }

  abbrev pub fx_rate_of : TransactionCreate → ℕ → Db → Option ℤ
  fx_rate_of body payment db = elim body.fx_rate [
    | some rate ↦ some rate
    | none ↦ rate_or_none (get_rate c.one c.inverse body.currency payment none db.rates)
  ]

  abbrev pub convert_to : TransactionCreate → ℕ → Option ℤ → Db → TransactionCreate
  convert_to body payment none db = body
  convert_to body payment (some total) db = with_rate body (fx_rate_of body payment db) total

  abbrev pub resolve_payment : TransactionCreate → Option ℕ → Db → TransactionCreate
  resolve_payment body none db = body
  resolve_payment body (some payment) db =
      if payment == body.currency then body else convert_to body payment body.total_value db

  unfoldable pub resolve_fx_fields : TransactionCreate → Db → TransactionCreate
  resolve_fx_fields body db = resolve_payment body body.payment_currency db

  abbrev pub unknown_asset : Option ℕ → Db → Bool
  unknown_asset none db = false
  unknown_asset (some id) db = is_none (get_portfolio_asset c id db)

  abbrev pub unknown_exemption : Option ℕ → Db → Bool
  unknown_exemption none db = false
  unknown_exemption (some id) db = is_none (get_fiscal_exemption c id db)

  -- Whether it raises FKNotFound.
  unfoldable pub resolve_fks : TransactionCreate → Db → Bool
  resolve_fks body db =
      is_none (get_entity c body.entity_id db)
      || not (code_exists body.currency db.rates)
      || unknown_asset body.portfolio_asset_id db
      || unknown_code body.payment_currency db
      || unknown_exemption body.fiscal_exemption_id db
      || unknown_code body.dividend_currency db
      || unknown_code body.dividend_payment_currency db

  abbrev pub fill_in : TransactionCreate → Option ℤ × Option ℤ × Option ℤ → Db → TransactionCreate
  fill_in body (q, p, total) db =
      let converted = resolve_fx_fields (with_value body total) db in
      record converted {
        quantity = q;
        unit_price = p;
        total_value = value_or converted.total_value total;
      }

  -- the values that create and update write, but for cash_handling
  unfoldable pub resolved : TransactionCreate → Db → TransactionCreate
  resolved body db = fill_in body (resolve_investment_fields body) db

  abbrev pub ensure_amount : TransactionCreate → Option ℤ → Option ℕ → Db → Option Db
  ensure_amount v none without db = some db
  ensure_amount v (some total) without db =
      ensure_cash_for_spend c v.entity_id (cash_pocket v) v.timestamp (or_else v.gross_amount total)
        v.cash_handling without db

  abbrev pub ensure_spend : TransactionCreate → Option ℕ → Db → Option Db
  ensure_spend v without db =
      if is_spend v.type_of then ensure_amount v v.total_value without db else some db

  abbrev pub link_spend : TransactionCreate → ℕ → Db → Db
  link_spend v id db =
      if is_spend v.type_of
      then link_injection c v.entity_id (cash_pocket v) v.timestamp id db
      else db

  abbrev pub recalculate_unless_adjustment : TransactionCreate → Db → Option Db
  recalculate_unless_adjustment v db =
      if is_adjustment v.type_of
      then some db
      else recalculate_adjustments c v.entity_id (cash_pocket v) v.timestamp db

  abbrev pub answer : ℕ → TransactionCreate → Option Db → Result (TransactionResponse × Db)
  answer id v none = err type_error
  answer id v (some db) =
      ok (record { id = id; fiscal_rule = rule_in (get_transaction c id db); values = v }, db)

  -- the row, its link and the snapshot's adjustment
  unfoldable pub insert_spend : TransactionCreate → Db → Result (TransactionResponse × Db)
  insert_spend v db =
      let (db', id) = Store.create_transaction c v db in
      answer id v (recalculate_unless_adjustment v (link_spend v id db'))

  abbrev pub insert_after : TransactionCreate → Option Db → Result (TransactionResponse × Db)
  insert_after v none = err type_error
  insert_after v (some db) = insert_spend v db

  unfoldable pub create_on : TransactionCreate → Db → Result (TransactionResponse × Db)
  create_on body db =
      let v = resolved body db in
      if resolve_fks body db then err fk_not_found else insert_after v (ensure_spend v none db)

  unfoldable pub refresh_all : List Transaction → ℕ → Db → Option Db
  refresh_all [] id db = some db
  refresh_all (adj ∷ adjs) id db =
      and_then (refresh_injection c adj.id (some id) db) λ db'. refresh_all adjs id db'

  -- A spend leaves its injections before it enters again.
  abbrev pub detach : Transaction → List Transaction → ℕ → Db → Option Db
  detach existing linked id db =
      if is_spend existing.values.type_of
      then refresh_all linked id (remove_links_for_transaction id db)
      else some db

  abbrev pub linked_to : Transaction → ℕ → Db → List Transaction
  linked_to existing id db =
      if is_spend existing.values.type_of then get_adjustments_linked_to_transaction c id db else []

  -- The link is made where the amount is known.
  abbrev pub link_valued : TransactionCreate → ℕ → Db → Db
  link_valued v id db = if is_none v.total_value then db else link_spend v id db

  abbrev pub recalculate_old : Transaction → TransactionCreate → Option Db → Option Db
  recalculate_old existing v none = none
  recalculate_old existing v (some db) =
      if has_moved existing v
      then recalculate_adjustments c existing.values.entity_id (cash_pocket existing.values)
          existing.values.timestamp db
      else some db

  abbrev pub recalculate_both : Transaction → TransactionCreate → Db → Option Db
  recalculate_both existing v db =
      if is_adjustment v.type_of
      then some db
      else recalculate_old existing v
          (recalculate_adjustments c v.entity_id (cash_pocket v) v.timestamp db)

  unfoldable pub rewrite : Transaction → ℕ → TransactionCreate → Db → Option Db
  rewrite existing id v db =
      and_then (detach existing (linked_to existing id db) id (Store.update_transaction c id v db))
        λ d.
          and_then (ensure_spend v (some id) d)
            λ e. recalculate_both existing v (link_valued v id e)

  abbrev pub update_found :
      Option Transaction → ℕ → Bool → TransactionCreate → Db → Result (TransactionResponse × Db)
  update_found none id sent body db = err transaction_not_found
  update_found (some existing) id sent body db =
      let v = record (resolved body db) { cash_handling = effective sent body existing } in
      if resolve_fks body db then err fk_not_found else answer id v (rewrite existing id v db)

  unfoldable pub update_on : ℕ → Bool → TransactionCreate → Db → Result (TransactionResponse × Db)
  update_on id sent body db = update_found (get_transaction c id db) id sent body db

  unfoldable pub create_transaction : TransactionCreate → Db → Result TransactionResponse × Db
  create_transaction body db = committed (create_on body db) db

  unfoldable pub edit_transaction :
      ℕ → Bool → TransactionCreate → Db → Result TransactionResponse × Db
  edit_transaction id sent body db = committed (update_on id sent body db) db

  -- The recalculation is of the row's `currency`.
  unfoldable pub remove : Transaction → ℕ → Db → Option Db
  remove existing id db =
      let dropped = Store.delete_transaction c id (remove_links_for_transaction id db) in
      let cleared = delete_unlinked (linked_to existing id db) dropped in
      if is_adjustment existing.values.type_of
      then some cleared
      else recalculate_adjustments c existing.values.entity_id existing.values.currency
          existing.values.timestamp cleared

  abbrev pub delete_found : Option Transaction → ℕ → Db → Result (Unit {0} × Db)
  delete_found none id db = err transaction_not_found
  delete_found (some existing) id db =
      if Store.transaction_has_dependents c id db
      then err transaction_has_dependents
      else or_type_error (remove existing id db)

  unfoldable pub delete_on : ℕ → Db → Result (Unit {0} × Db)
  delete_on id db = delete_found (get_transaction c id db) id db

  unfoldable pub drop_transaction : ℕ → Db → Result (Unit {0}) × Db
  drop_transaction id db = committed (delete_on id db) db

  -- The policy of a spend looks at the snapshots of the row's `currency`.
  abbrev stored_or_auto : Option BalanceMode → Transaction → Db → Option BalanceMode
  stored_or_auto (some mode) r db = some mode
  stored_or_auto none r db = some (
      if is_some (
        get_previous_snapshot c r.values.entity_id r.values.currency
          (injection_ts r.values.timestamp) db)
      then debit
      else inject)

  unfoldable pub resolve_effective_cash_handling : Transaction → Db → Option BalanceMode
  resolve_effective_cash_handling r db =
      if is_spend r.values.type_of then stored_or_auto r.values.cash_handling r db else none

  abbrev pub row_to_response : Transaction → Db → FullResponse
  row_to_response r db = record {
    response = record { id = r.id; fiscal_rule = r.fiscal_rule; values = r.values };
    cash_handling_effective = resolve_effective_cash_handling r db;
    attached_transaction_ids =
        if is_adjustment r.values.type_of
        then some (get_attached_transaction_ids r.id db)
        else none;
  }

  unfoldable pub read_transaction : ℕ → Db → Result FullResponse
  read_transaction id db = elim (get_transaction c id db) [
    | none ↦ err transaction_not_found
    | some r ↦ ok (row_to_response r db)
  ]
