-- ===== src/Cash/Store.antt =====
-- The queries of backend/db/queries.py on transactions, snapshots, adjustments and links. A result
-- without ORDER BY comes in the order of the rows, and `fetchone` takes its first.
use personal_fin_hub.Base.{
  ℕ, ◌+◌, ◌-◌, ◌*◌, ◌/◌, Bool, true, false, not, ◌&&◌, ◌||◌, Option, none, some, List, [], ◌∷◌,
  ◌++◌, ltb, leb, ◌==◌, if◌then◌else◌, any, select, map, sort_by, ℤ,
}
use personal_fin_hub.FiscalPeriods.Table.{RuleKey, in_profile, fetchone, resolve_fiscal_rule}
use personal_fin_hub.Pnl.Lots.{
  TransactionType, income, money_out, investment_buy, investment_sell, transfer_in, transfer_out,
  balance_adjustment,
}
use personal_fin_hub.Cash.Data.{
  Context, Note, inferred_cash, TransactionCreate, Transaction, BalanceSnapshotCreate,
  BalanceSnapshot, Link, Entity, Owned, Db,
}

-- `SPEND_TYPES` of transaction_svc.py
abbrev pub is_spend : TransactionType → Bool
is_spend investment_buy = true
is_spend money_out = true
is_spend transfer_out = true
is_spend _ = false

abbrev pub is_inflow : TransactionType → Bool
is_inflow income = true
is_inflow investment_sell = true
is_inflow transfer_in = true
is_inflow _ = false

abbrev pub is_adjustment : TransactionType → Bool
is_adjustment balance_adjustment = true
is_adjustment _ = false

abbrev pub is_sale : TransactionType → Bool
is_sale investment_sell = true
is_sale _ = false

abbrev pub is_id : Option ℕ → ℕ → Bool
is_id none n = false
is_id (some m) n = m == n

abbrev pub is_none {ℓ} : {A : Type ℓ} → Option A → Bool
is_none none = true
is_none (some a) = false

abbrev pub or_else {ℓ} : {A : Type ℓ} → Option A → A → A
or_else none a = a
or_else (some b) a = b

-- `COALESCE(payment_currency, currency)`, and `payment_currency or currency`, since no code is empty
abbrev pub cash_pocket : TransactionCreate → ℕ
cash_pocket v = or_else v.payment_currency v.currency

-- `notes LIKE 'Inferred cash%'`
abbrev pub is_inferred : Option Note → Bool
is_inferred (some (inferred_cash n)) = true
is_inferred _ = false

-- `(ts - 1 day) 23:59:59`: the last second before the day of an instant
abbrev pub day_start : ℕ → ℕ
day_start t = t / 86400 * 86400

abbrev pub injection_ts : ℕ → ℕ
injection_ts t = day_start t - 1

-- of two snapshots, the later one and the earlier one; the first on a tie
abbrev pub later_of : BalanceSnapshot → Option BalanceSnapshot → Option BalanceSnapshot
later_of s none = some s
later_of s (some r) = if ltb s.values.timestamp r.values.timestamp then some r else some s

abbrev pub earlier_of : BalanceSnapshot → Option BalanceSnapshot → Option BalanceSnapshot
earlier_of s none = some s
earlier_of s (some r) = if ltb r.values.timestamp s.values.timestamp then some r else some s

-- `ORDER BY timestamp DESC LIMIT 1`
unfoldable pub latest_snapshot : List BalanceSnapshot → Option BalanceSnapshot
latest_snapshot [] = none
latest_snapshot (s ∷ ss) = later_of s (latest_snapshot ss)

-- `ORDER BY timestamp ASC LIMIT 1`
unfoldable pub earliest_snapshot : List BalanceSnapshot → Option BalanceSnapshot
earliest_snapshot [] = none
earliest_snapshot (s ∷ ss) = earlier_of s (earliest_snapshot ss)

-- The columns that an adjustment leaves out are NULL.
abbrev pub adjustment_values : ℕ → ℕ → ℤ → ℕ → Note → TransactionCreate
adjustment_values entity currency amount at note = record {
  timestamp = at;
  type_of = balance_adjustment;
  investment_transaction_category = none;
  income_category = none;
  entity_id = entity;
  portfolio_asset_id = none;
  quantity = none;
  unit_price = none;
  currency = currency;
  total_value = some amount;
  gross_amount = none;
  net_amount = none;
  payment_currency = none;
  fx_rate = none;
  settlement_date = none;
  fiscal_exemption_id = none;
  dividend_type = none;
  record_date = none;
  payment_date = none;
  dividend_currency = none;
  dividend_payment_currency = none;
  dividend_fx_rate = none;
  notes = some note;
  cash_handling = none;
}

abbrev pub with_amount : ℤ → Note → Transaction → Transaction
with_amount amount note r = record r {
  values = record r.values { total_value = some amount; notes = some note };
}

abbrev pub same_link : ℕ → ℕ → Link → Bool
same_link adjustment transaction l =
    l.balance_adjustment_id == adjustment && l.linked_transaction_id == transaction

-- INSERT OR IGNORE, under UNIQUE (balance_adjustment_id, linked_transaction_id)
unfoldable pub link_adjustment_to_transaction : ℕ → ℕ → Db → Db
link_adjustment_to_transaction adjustment transaction db =
    if any (same_link adjustment transaction) db.links then db else record db {
      links =
          db.links
          ++ record { balance_adjustment_id = adjustment; linked_transaction_id = transaction }
            ∷ [];
    }

unfoldable pub get_attached_transaction_ids : ℕ → Db → List ℕ
get_attached_transaction_ids adjustment db =
    map (λ l. l.linked_transaction_id)
      (select (λ l. l.balance_adjustment_id == adjustment) db.links)

unfoldable pub remove_links_for_transaction : ℕ → Db → Db
remove_links_for_transaction id db = record db {
  links =
      select (λ l. not (l.balance_adjustment_id == id || l.linked_transaction_id == id)) db.links;
}

-- The row that the DELETE takes: an inferred-cash adjustment that no snapshot has.
abbrev pub is_injection : ℕ → Transaction → Bool
is_injection id r =
    r.id == id
    && is_adjustment r.values.type_of
    && is_none r.balance_snapshot_id
    && is_inferred r.values.notes

-- Neither query is limited to the profile. The first look-up, of the same row, returns where the DELETE
-- takes nothing.
unfoldable pub delete_injection_if_unlinked : ℕ → Db → Db
delete_injection_if_unlinked id db =
    if any (λ l. l.balance_adjustment_id == id) db.links
    then db
    else record db { transactions = select (λ r. not (is_injection id r)) db.transactions }

module _ (c : Context) where
  -- `_profile_clause` on a row's owner
  abbrev pub owned : Option ℕ → Bool
  owned p = in_profile c.profile_id p

  unfoldable pub get_entity : ℕ → Db → Option Entity
  get_entity id db =
      fetchone (select (λ e. e.id == id && not e.is_deleted && owned e.profile_id) db.entities)

  unfoldable pub get_portfolio_asset : ℕ → Db → Option Owned
  get_portfolio_asset id db =
      fetchone (select (λ a. a.id == id && owned a.profile_id) db.portfolio_assets)

  unfoldable pub get_fiscal_exemption : ℕ → Db → Option Owned
  get_fiscal_exemption id db =
      fetchone (select (λ a. a.id == id && owned a.profile_id) db.fiscal_exemptions)

  abbrev pub profile_date : ℕ → ℕ
  profile_date t = c.to_wall_clock t / 86400

  -- `23:59:59` of a profile date
  abbrev pub end_of_profile_day : ℕ → ℕ
  end_of_profile_day day = c.to_utc (day * 86400 + 86399)

  abbrev pub adjustment_timestamp : ℕ → ℕ
  adjustment_timestamp t = end_of_profile_day (profile_date t - 1)

  abbrev pub rule_for : TransactionCreate → Db → Option RuleKey
  rule_for v db =
      if is_sale v.type_of
      then elim (resolve_fiscal_rule c.profile_id (profile_date v.timestamp) db.periods) [
        | none ↦ db.default_fiscal_rule
        | some rule ↦ some rule
      ]
      else none

  abbrev pub is_transaction : ℕ → Transaction → Bool
  is_transaction id r = r.id == id && owned r.profile_id

  -- An INSERT, with the id that it gives.
  abbrev pub append_transaction : Option ℕ → Option RuleKey → TransactionCreate → Db → Db × ℕ
  append_transaction snapshot rule v db =
      let id = db.last_transaction + 1 in
      let row : Transaction = record {
        id = id;
        profile_id = c.profile_id;
        balance_snapshot_id = snapshot;
        fiscal_rule = rule;
        values = v;
      } in
      (record db { transactions = db.transactions ++ row ∷ []; last_transaction = id }, id)

  unfoldable pub create_transaction : TransactionCreate → Db → Db × ℕ
  create_transaction v db = append_transaction none (rule_for v db) v db

  unfoldable pub get_transaction : ℕ → Db → Option Transaction
  get_transaction id db = fetchone (select (is_transaction id) db.transactions)

  abbrev pub map_transaction : ℕ → (Transaction → Transaction) → Db → Db
  map_transaction id f db = record db {
    transactions = map (λ r. if is_transaction id r then f r else r) db.transactions;
  }

  unfoldable pub update_transaction : ℕ → TransactionCreate → Db → Db
  update_transaction id v db =
      map_transaction id (λ r. record r { fiscal_rule = rule_for v db; values = v }) db

  unfoldable pub delete_transaction : ℕ → Db → Db
  delete_transaction id db = record db {
    transactions = select (λ r. not (is_transaction id r)) db.transactions;
  }

  unfoldable pub transaction_has_dependents : ℕ → Db → Bool
  transaction_has_dependents id db =
      any (λ f. f.values.transaction_id == id && owned f.profile_id) db.fees
      || any (λ t. t.values.transaction_id == id && owned t.profile_id) db.taxes
      || any (λ s. s.id == id && owned s.profile_id) db.schedules

  unfoldable pub create_balance_snapshot : BalanceSnapshotCreate → Db → Db × ℕ
  create_balance_snapshot v db =
      let id = db.last_snapshot + 1 in
      let row : BalanceSnapshot = record { id = id; profile_id = c.profile_id; values = v } in
      (record db { snapshots = db.snapshots ++ row ∷ []; last_snapshot = id }, id)

  abbrev pub is_snapshot : ℕ → BalanceSnapshot → Bool
  is_snapshot id s = s.id == id && owned s.profile_id

  unfoldable pub get_balance_snapshot : ℕ → Db → Option BalanceSnapshot
  get_balance_snapshot id db = fetchone (select (is_snapshot id) db.snapshots)

  unfoldable pub get_all_balance_snapshots : Db → List BalanceSnapshot
  get_all_balance_snapshots db = sort_by (λ s. s.id) (select (λ s. owned s.profile_id) db.snapshots)

  unfoldable pub update_balance_snapshot : ℕ → BalanceSnapshotCreate → Db → Db
  update_balance_snapshot id v db = record db {
    snapshots = map (λ s. if is_snapshot id s then record s { values = v } else s) db.snapshots;
  }

  unfoldable pub delete_balance_snapshot : ℕ → Db → Db
  delete_balance_snapshot id db = record db {
    snapshots = select (λ s. not (is_snapshot id s)) db.snapshots;
  }

  unfoldable pub has_transactions_on_or_after : ℕ → ℕ → ℕ → Db → Bool
  has_transactions_on_or_after entity currency since db =
      any
        (λ r.
          r.values.entity_id == entity
          && r.values.currency == currency
          && leb since r.values.timestamp
          && not (is_adjustment r.values.type_of)
          && owned r.profile_id)
        db.transactions

  abbrev pub snapshot_of : ℕ → ℕ → BalanceSnapshot → Bool
  snapshot_of entity currency s =
      s.values.entity_id == entity && s.values.currency == currency && owned s.profile_id

  unfoldable pub get_previous_snapshot : ℕ → ℕ → ℕ → Db → Option BalanceSnapshot
  get_previous_snapshot entity currency at db =
      latest_snapshot
        (select (λ s. snapshot_of entity currency s && ltb s.values.timestamp at) db.snapshots)

  unfoldable pub get_next_snapshot : ℕ → ℕ → ℕ → Db → Option BalanceSnapshot
  get_next_snapshot entity currency at db =
      earliest_snapshot
        (select (λ s. snapshot_of entity currency s && ltb at s.values.timestamp) db.snapshots)

  -- a row of one pair, of type BALANCE_ADJUSTMENT
  abbrev pub adjusts : ℕ → ℕ → Transaction → Bool
  adjusts entity currency r =
      r.values.entity_id == entity
      && r.values.currency == currency
      && is_adjustment r.values.type_of
      && owned r.profile_id

  abbrev pub adjusts_for : ℕ → ℕ → ℕ → Transaction → Bool
  adjusts_for entity currency snapshot r =
      adjusts entity currency r && is_id r.balance_snapshot_id snapshot

  unfoldable pub get_adjustment_transaction : ℕ → ℕ → ℕ → Db → Option Transaction
  get_adjustment_transaction entity currency snapshot db =
      fetchone (select (adjusts_for entity currency snapshot) db.transactions)

  abbrev pub injected_at : ℕ → ℕ → ℕ → Transaction → Bool
  injected_at entity currency at r =
      adjusts entity currency r
      && is_none r.balance_snapshot_id
      && is_inferred r.values.notes
      && r.values.timestamp == at

  unfoldable pub get_injected_adjustment_at : ℕ → ℕ → ℕ → Db → Option Transaction
  get_injected_adjustment_at entity currency at db =
      fetchone (select (injected_at entity currency at) db.transactions)

  unfoldable pub create_adjustment_transaction : ℕ → ℕ → ℤ → ℕ → Option ℕ → Note → Db → Db × ℕ
  create_adjustment_transaction entity currency amount at snapshot note db =
      append_transaction snapshot none (adjustment_values entity currency amount at note) db

  unfoldable pub update_adjustment_transaction : ℕ → ℤ → Note → Db → Db
  update_adjustment_transaction id amount note db = map_transaction id (with_amount amount note) db

  unfoldable pub delete_adjustment_transaction : ℕ → ℕ → ℕ → Db → Db
  delete_adjustment_transaction entity currency snapshot db = record db {
    transactions = select (λ r. not (adjusts_for entity currency snapshot r)) db.transactions;
  }

  -- The join of the links of a transaction with their adjustments, by the link.
  unfoldable pub joined_adjustments : List Link → ℕ → List Transaction → List Transaction
  joined_adjustments [] id rows = []
  joined_adjustments (l ∷ ls) id rows =
      if l.linked_transaction_id == id
      then select (λ r. is_transaction l.balance_adjustment_id r) rows
        ++ joined_adjustments ls id rows
      else joined_adjustments ls id rows

  unfoldable pub get_adjustments_linked_to_transaction : ℕ → Db → List Transaction
  unfolding joined_adjustments
  get_adjustments_linked_to_transaction id db = joined_adjustments db.links id db.transactions
