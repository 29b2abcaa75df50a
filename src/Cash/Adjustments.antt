-- ===== src/Cash/Adjustments.antt =====
-- The adjustments of backend/services/transaction_svc.py: the ones that make a snapshot's balance come out,
-- and the injected cash that pays for a spend. `none` stands for the TypeError of arithmetic on None.
use personal_fin_hub.Base.{
  ℕ, ◌+◌, Bool, true, false, not, ◌&&◌, Option, none, some, List, [], ◌∷◌, ltb, leb, ◌==◌,
  if◌then◌else◌, select, ℤ, pos, ◌+ℤ◌, ◌-ℤ◌, leb_ℤ, max_ℤ,
}
use personal_fin_hub.Cash.Data.{
  Context, BalanceMode, inject, debit, Note, inferred_cash, snapshot_note, Transaction,
  BalanceSnapshot, Entity, Db,
}
use personal_fin_hub.Cash.Store.{
  is_spend, is_inflow, is_adjustment, is_none, or_else, cash_pocket, day_start, injection_ts,
  get_entity, adjustment_timestamp, get_transaction, delete_transaction, get_previous_snapshot,
  get_next_snapshot, get_adjustment_transaction, get_injected_adjustment_at,
  create_adjustment_transaction, update_adjustment_transaction, link_adjustment_to_transaction,
  get_attached_transaction_ids, remove_links_for_transaction, delete_injection_if_unlinked,
}
use personal_fin_hub.Cash.Balance.{
  but_snapshot, but_transaction, and_then, or_zero, get_transactions_between, get_balance_at_date,
}

abbrev pub is_debit : Option BalanceMode → Bool
is_debit (some debit) = true
is_debit _ = false

abbrev pub is_inject : Option BalanceMode → Bool
is_inject (some inject) = true
is_inject _ = false

abbrev pub is_some {ℓ} : {A : Type ℓ} → Option A → Bool
is_some none = false
is_some (some a) = true

-- "Inferred cash for investment purchases"
abbrev pub purchases : Note
purchases = inferred_cash 0

-- `running` and `required` of the walk through a day
pub record Walk : Type 0 where
  pub running : ℤ
  pub required : ℤ

-- `gross_amount if not None else (total_value or 0.0)`
abbrev pub walk_amount : Transaction → ℤ
walk_amount r = or_else r.values.gross_amount (or_zero r.values.total_value)

abbrev pub spend_step : ℤ → Walk → Walk
spend_step amount w =
    let running = w.running -ℤ amount in
    record { running = running; required = max_ℤ w.required (pos 0 -ℤ running) }

abbrev pub walk_step : Transaction → Walk → Walk
walk_step r w =
    if is_spend r.values.type_of
    then spend_step (walk_amount r) w
    else if is_inflow r.values.type_of
    then record w { running = w.running +ℤ walk_amount r }
    else w

unfoldable pub walk_day : List Transaction → Walk → Walk
walk_day [] w = w
walk_day (r ∷ rs) w = walk_day rs (walk_step r w)

abbrev pub link_found : Option Transaction → ℕ → Db → Db
link_found none spend db = db
link_found (some adj) spend db = link_adjustment_to_transaction adj.id spend db

abbrev pub drop_injection : ℕ → Db → Db
drop_injection id db = delete_injection_if_unlinked id (remove_links_for_transaction id db)

unfoldable pub link_all : ℕ → List Transaction → Db → Db
link_all adjustment [] db = db
link_all adjustment (r ∷ rs) db =
    link_all adjustment rs (link_adjustment_to_transaction adjustment r.id db)

abbrev pub main_of : Option Entity → Option ℕ
main_of none = none
main_of (some e) = e.main_currency

-- The spends of the main currency that the query selects, which is not limited to the profile: both bounds
-- are the day of the injection.
abbrev pub spends_to_link : ℕ → ℕ → ℕ → Db → List Transaction
spends_to_link entity main day db =
    select
      (λ r.
        r.values.entity_id == entity
        && r.values.currency == main
        && is_spend r.values.type_of
        && leb day r.values.timestamp
        && ltb r.values.timestamp day)
      db.transactions

module _ (c : Context) where
  -- the adjustment of a snapshot, set or made
  abbrev pub put_adjustment : Option Transaction → ℕ → ℕ → ℕ → ℕ → ℤ → Db → Db
  put_adjustment (some adj) entity currency snapshot at amount db =
      update_adjustment_transaction c adj.id amount (snapshot_note at) db
  put_adjustment none entity currency snapshot at amount db =
      (create_adjustment_transaction c entity currency amount (adjustment_timestamp c at)
        (some snapshot) (snapshot_note at) db).0

  unfoldable pub write_adjustment : ℕ → ℕ → ℕ → ℕ → ℤ → Db → Db
  write_adjustment entity currency snapshot at amount db =
      put_adjustment (get_adjustment_transaction c entity currency snapshot db) entity currency
        snapshot at amount db

  abbrev pub adjust_by : Option ℤ → ℕ → ℕ → ℕ → ℕ → ℤ → Db → Option Db
  adjust_by none entity currency snapshot at target db = none
  adjust_by (some expected) entity currency snapshot at target db =
      some (write_adjustment entity currency snapshot at (target -ℤ expected) db)

  -- the adjustment that makes up for what the balance at the snapshot lacks without it
  unfoldable pub adjust_to : ℕ → ℕ → ℕ → ℕ → ℤ → Db → Option Db
  adjust_to entity currency snapshot at target db =
      adjust_by (get_balance_at_date c true entity currency at (but_snapshot snapshot) db) entity
        currency snapshot at target db

  abbrev pub recalculate_next : Option BalanceSnapshot → ℕ → ℕ → Db → Option Db
  recalculate_next none entity currency db = some db
  recalculate_next (some s) entity currency db =
      adjust_to entity currency s.id s.values.timestamp s.values.amount db

  unfoldable pub recalculate_adjustments : ℕ → ℕ → ℕ → Db → Option Db
  recalculate_adjustments entity currency at db =
      recalculate_next (get_next_snapshot c entity currency at db) entity currency db

  abbrev pub is_anchored : ℕ → ℕ → ℕ → Db → Bool
  is_anchored entity currency at db =
      is_some (get_previous_snapshot c entity currency (injection_ts at) db)

  -- the injection before the day of `at`, raised or made
  abbrev pub put_injection : Option Transaction → ℕ → ℕ → ℕ → ℤ → Db → Db
  put_injection (some adj) entity currency at needed db =
      update_adjustment_transaction c adj.id (or_zero adj.values.total_value +ℤ needed) purchases db
  put_injection none entity currency at needed db =
      (create_adjustment_transaction c entity currency needed (injection_ts at) none purchases db).0

  unfoldable pub inject_cash : ℕ → ℕ → ℕ → ℤ → Db → Db
  inject_cash entity currency at needed db =
      put_injection (get_injected_adjustment_at c entity currency (injection_ts at) db) entity
        currency at needed db

  abbrev pub inject_if_short : ℕ → ℕ → ℕ → ℤ → Option ℤ → Db → Option Db
  inject_if_short entity currency at total none db = none
  inject_if_short entity currency at total (some balance) db =
      some
        (if leb_ℤ total balance then db else inject_cash entity currency at (total -ℤ balance) db)

  unfoldable pub ensure_cash_for_spend :
      ℕ → ℕ → ℕ → ℤ → Option BalanceMode → Option ℕ → Db → Option Db
  ensure_cash_for_spend entity currency at total mode without db =
      if is_debit mode
      then some db
      else if is_anchored entity currency at db && not (is_inject mode)
      then some db
      else inject_if_short entity currency at total
          (get_balance_at_date c true entity currency at (but_transaction without) db) db

  unfoldable pub link_injection : ℕ → ℕ → ℕ → ℕ → Db → Db
  link_injection entity currency at spend db =
      link_found (get_injected_adjustment_at c entity currency (injection_ts at) db) spend db

  -- the walk of a day from its opening balance; `day` is the instant it begins at
  unfoldable pub required_injection_for_day : ℕ → ℕ → ℕ → ℕ → Option ℕ → Db → Option ℤ
  required_injection_for_day entity currency day adjustment without db =
      elim (get_balance_at_date c false entity currency day
        (record {
          adjustment_snapshot_id = none;
          adjustment_id = some adjustment;
          transaction_id = without;
        })
        db) [
          | none ↦ none
          | some opening ↦
              let rows =
                get_transactions_between c entity currency day (day + 86400)
                  (but_transaction without) db in
              some
                (c.round2 (walk_day rows (record { running = opening; required = pos 0 })).required)
        ]

  abbrev pub set_injection : ℕ → Option ℤ → Db → Option Db
  set_injection id none db = none
  set_injection id (some required) db = some (
      if leb_ℤ required (pos 0)
      then drop_injection id db
      else update_adjustment_transaction c id required purchases db)

  abbrev pub refresh_linked : Transaction → List ℕ → ℕ → Option ℕ → Db → Option Db
  refresh_linked adj [] id without db = some (drop_injection id db)
  refresh_linked adj (l ∷ ls) id without db =
      set_injection id
        (required_injection_for_day adj.values.entity_id adj.values.currency
          (day_start adj.values.timestamp + 86400) id without db)
        db

  abbrev pub refresh_found : Option Transaction → ℕ → Option ℕ → Db → Option Db
  refresh_found none id without db = some db
  refresh_found (some adj) id without db =
      if is_adjustment adj.values.type_of && is_none adj.balance_snapshot_id
      then refresh_linked adj (get_attached_transaction_ids id db) id without db
      else some db

  unfoldable pub refresh_injection : ℕ → Option ℕ → Db → Option Db
  refresh_injection id without db = refresh_found (get_transaction c id db) id without db

  abbrev pub inject_main : Transaction → ℕ → ℤ → Option Transaction → Db → Db
  inject_main tx main needed (some adj) db =
      update_adjustment_transaction c adj.id needed purchases db
  inject_main tx main needed none db =
      let (db', id) =
        create_adjustment_transaction c tx.values.entity_id main needed
          (injection_ts tx.values.timestamp) none purchases db in
      link_all id
        (spends_to_link tx.values.entity_id main (day_start (injection_ts tx.values.timestamp)) db')
        db'

  abbrev pub clear_main : Option Transaction → Db → Db
  clear_main none db = db
  clear_main (some adj) db = delete_transaction c adj.id db

  abbrev pub cover_main : Transaction → ℕ → Option ℤ → Db → Option Db
  cover_main tx main none db = none
  cover_main tx main (some balance) db =
      let existing =
        get_injected_adjustment_at c tx.values.entity_id main (injection_ts tx.values.timestamp)
          db in
      some (
        if leb_ℤ (pos 0) balance
        then clear_main existing db
        else inject_main tx main (pos 0 -ℤ balance) existing db)

  -- the fee-driven injection on the main pocket
  unfoldable pub refresh_main : Transaction → ℕ → Db → Option Db
  refresh_main tx main db =
      if is_anchored tx.values.entity_id main tx.values.timestamp db
      then some db
      else cover_main tx main
          (get_balance_at_date c true tx.values.entity_id main tx.values.timestamp
            (but_transaction none) db)
          db

  abbrev pub reconcile_main : Transaction → Option ℕ → Db → Option Db
  reconcile_main tx none db = some db
  reconcile_main tx (some main) db =
      if main == tx.values.currency
      then some db
      else and_then (recalculate_adjustments tx.values.entity_id main tx.values.timestamp db)
          λ db'. refresh_main tx main db'

  unfoldable pub reconcile_transaction : Transaction → Db → Option Db
  reconcile_transaction tx db =
      and_then
        (recalculate_adjustments tx.values.entity_id (cash_pocket tx.values) tx.values.timestamp db)
        λ db'. reconcile_main tx (main_of (get_entity c tx.values.entity_id db')) db'

  abbrev pub reconcile_found : Option Transaction → Db → Option Db
  reconcile_found none db = some db
  reconcile_found (some tx) db =
      if is_adjustment tx.values.type_of then some db else reconcile_transaction tx db

  unfoldable pub reconcile_after_fee_change : ℕ → Db → Option Db
  reconcile_after_fee_change id db = reconcile_found (get_transaction c id db) db
