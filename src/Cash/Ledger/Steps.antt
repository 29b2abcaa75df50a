-- ===== src/Cash/Ledger/Steps.antt =====
-- Each adjusting routine of transaction_svc.py, as a step that keeps the ledger.
use personal_fin_hub.Base.{
  ℕ, ◌≡◌, refl, Bool, true, false, not, ◌&&◌, Option, none, some, if◌then◌else◌, any, ℤ, ◌+ℤ◌, ◌-ℤ◌,
  leb_ℤ, inl, inr, Bool-cases, arith,
}
use personal_fin_hub.Cash.Data.{
  Context, BalanceMode, snapshot_note, Transaction, BalanceSnapshot, Db,
}
use personal_fin_hub.Cash.Store.{
  injection_ts, adjusts_for, injected_at, get_next_snapshot, get_adjustment_transaction,
  get_injected_adjustment_at, adjustment_timestamp, link_adjustment_to_transaction,
  remove_links_for_transaction, same_link,
}
use personal_fin_hub.Cash.Balance.{but_snapshot, but_transaction, or_zero, get_balance_at_date}
use personal_fin_hub.Cash.Adjustments.{
  is_debit, is_inject, purchases, put_adjustment, write_adjustment, adjust_by, adjust_to,
  recalculate_next, recalculate_adjustments, is_anchored, put_injection, inject_cash,
  inject_if_short, ensure_cash_for_spend,
}
use personal_fin_hub.Cash.Rows.{found}
use personal_fin_hub.Cash.Ledger.{
  Keeps, KeepsIf, Keeps-refl, create_adjustment-Keeps, update_adjustment-Keeps,
}

module _ (c : Context) where
  put_adjustment-Keeps :
      (o : Option Transaction) (entity currency snapshot at : ℕ) (amount : ℤ) (db : Db)
      → get_adjustment_transaction c entity currency snapshot db ≡ o
      → Keeps db (put_adjustment c o entity currency snapshot at amount db)
  unfolding get_adjustment_transaction
  put_adjustment-Keeps none entity currency snapshot at amount db e =
      create_adjustment-Keeps c entity currency amount (adjustment_timestamp c at) (some snapshot)
        (snapshot_note at) db
  put_adjustment-Keeps (some adj) entity currency snapshot at amount db e =
      let f = found (adjusts_for c entity currency snapshot) db.transactions adj e in
      update_adjustment-Keeps c _ adj amount (snapshot_note at) db f (ground (arith, f.passes))

  adjust_by-KeepsIf :
      (o : Option ℤ) (entity currency snapshot at : ℕ) (target : ℤ) (db : Db)
      → KeepsIf db (adjust_by c o entity currency snapshot at target db)
  unfolding write_adjustment
  adjust_by-KeepsIf none entity currency snapshot at target db = tt
  adjust_by-KeepsIf (some expected) entity currency snapshot at target db =
      put_adjustment-Keeps (get_adjustment_transaction c entity currency snapshot db) entity
        currency snapshot at (target -ℤ expected) db refl

  pub adjust_to-KeepsIf :
      (entity currency snapshot at : ℕ) (target : ℤ) (db : Db)
      → KeepsIf db (adjust_to c entity currency snapshot at target db)
  unfolding adjust_to
  adjust_to-KeepsIf entity currency snapshot at target db =
      adjust_by-KeepsIf (get_balance_at_date c true entity currency at (but_snapshot snapshot) db)
        entity currency snapshot at target db

  recalculate_next-KeepsIf :
      (o : Option BalanceSnapshot) (entity currency : ℕ) (db : Db)
      → KeepsIf db (recalculate_next c o entity currency db)
  recalculate_next-KeepsIf none entity currency db = Keeps-refl db
  recalculate_next-KeepsIf (some s) entity currency db =
      adjust_to-KeepsIf entity currency s.id s.values.timestamp s.values.amount db

  pub recalculate-KeepsIf :
      (entity currency at : ℕ) (db : Db)
      → KeepsIf db (recalculate_adjustments c entity currency at db)
  unfolding recalculate_adjustments
  recalculate-KeepsIf entity currency at db =
      recalculate_next-KeepsIf (get_next_snapshot c entity currency at db) entity currency db

  put_injection-Keeps :
      (o : Option Transaction) (entity currency at : ℕ) (needed : ℤ) (db : Db)
      → get_injected_adjustment_at c entity currency (injection_ts at) db ≡ o
      → Keeps db (put_injection c o entity currency at needed db)
  unfolding get_injected_adjustment_at
  put_injection-Keeps none entity currency at needed db e =
      create_adjustment-Keeps c entity currency needed (injection_ts at) none purchases db
  put_injection-Keeps (some adj) entity currency at needed db e =
      let f = found (injected_at c entity currency (injection_ts at)) db.transactions adj e in
      update_adjustment-Keeps c _ adj (or_zero adj.values.total_value +ℤ needed) purchases db f
        (ground (arith, f.passes))

  inject_if_short-KeepsIf :
      (o : Option ℤ) (entity currency at : ℕ) (total : ℤ) (db : Db)
      → KeepsIf db (inject_if_short c entity currency at total o db)
  unfolding inject_cash
  inject_if_short-KeepsIf none entity currency at total db = tt
  inject_if_short-KeepsIf (some balance) entity currency at total db =
      elim (Bool-cases (leb_ℤ total balance)) [
        | inl enough ↦ rw enough (Keeps-refl db)
        | inr short ↦ rw short (
            put_injection-Keeps (get_injected_adjustment_at c entity currency (injection_ts at) db)
              entity currency at (total -ℤ balance) db refl)
      ]

  pub ensure-KeepsIf :
      (entity currency at : ℕ) (total : ℤ) (mode : Option BalanceMode) (without : Option ℕ)
      (db : Db)
      → KeepsIf db (ensure_cash_for_spend c entity currency at total mode without db)
  unfolding ensure_cash_for_spend
  ensure-KeepsIf entity currency at total mode without db =
      branch (is_debit mode) (is_anchored c entity currency at db && not (is_inject mode))
    where
      branch :
          (a b : Bool)
          → KeepsIf db (
              if a
              then some db
              else if b
              then some db
              else inject_if_short c entity currency at total
                  (get_balance_at_date c true entity currency at (but_transaction without) db)
                  db)
      branch true b = Keeps-refl db
      branch false true = Keeps-refl db
      branch false false =
          inject_if_short-KeepsIf
            (get_balance_at_date c true entity currency at (but_transaction without) db) entity
            currency at total db

pub link-Keeps :
    (adjustment transaction : ℕ) (db : Db)
    → Keeps db (link_adjustment_to_transaction adjustment transaction db)
unfolding link_adjustment_to_transaction
link-Keeps adjustment transaction db =
    elim (Bool-cases (any (same_link adjustment transaction) db.links)) [
      | inl e ↦ rw e (Keeps-refl db)
      | inr e ↦ rw e (λ k. (k, refl))
    ]

pub remove_links-Keeps : (id : ℕ) (db : Db) → Keeps db (remove_links_for_transaction id db)
unfolding remove_links_for_transaction
remove_links-Keeps id db k = (k, refl)
