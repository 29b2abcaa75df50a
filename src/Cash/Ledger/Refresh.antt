-- ===== src/Cash/Ledger/Refresh.antt =====
-- The refresh of an injection and the reconciliation after a change of fees (transaction_svc.py), as steps
-- that keep the ledger.
use personal_fin_hub.Base.{
  ℕ, ◌+◌, ◌≡◌, refl, subst, true, ◌&&◌, Option, none, some, List, [], ◌∷◌, ◌==◌, ℤ, pos, ◌-ℤ◌,
  leb_ℤ, inl, inr, Bool-cases, arith,
}
use personal_fin_hub.Cash.Data.{Context, Transaction, Db}
use personal_fin_hub.Cash.Store.{
  is_adjustment, is_none, injection_ts, day_start, cash_pocket, is_transaction, injected_at,
  get_entity, get_transaction, get_injected_adjustment_at, create_adjustment_transaction,
  link_adjustment_to_transaction, remove_links_for_transaction, get_attached_transaction_ids,
  update_adjustment_transaction,
}
use personal_fin_hub.Cash.Balance.{but_transaction, and_then, get_balance_at_date}
use personal_fin_hub.Cash.Adjustments.{
  purchases, recalculate_adjustments, is_anchored, link_found, link_injection, drop_injection,
  set_injection, refresh_linked, refresh_found, refresh_injection, required_injection_for_day,
  spends_to_link, link_all, inject_main, clear_main, cover_main, refresh_main, reconcile_main,
  main_of, reconcile_transaction, reconcile_found, reconcile_after_fee_change,
}
use personal_fin_hub.Cash.Rows.{found}
use personal_fin_hub.Cash.Ledger.{
  Keeps, KeepsIf, Keeps-refl, Keeps-trans, KeepsIf-trans, create_adjustment-Keeps,
  update_adjustment-Keeps, delete_adjustment-Keeps, delete_injection-Keeps,
}
use personal_fin_hub.Cash.Ledger.Steps.{recalculate-KeepsIf, link-Keeps, remove_links-Keeps}

pub and_then-KeepsIf :
    (a : Db) (o : Option Db) (f : Db → Option Db)
    → KeepsIf a o
    → ((b : Db) → KeepsIf b (f b))
    → KeepsIf a (and_then o f)
and_then-KeepsIf a none f h g = tt
and_then-KeepsIf a (some b) f h g = KeepsIf-trans a b (f b) h (g b)

drop-Keeps : (id : ℕ) (db : Db) → Keeps db (drop_injection id db)
drop-Keeps id db =
    Keeps-trans db (remove_links_for_transaction id db) (drop_injection id db)
      (remove_links-Keeps id db) (delete_injection-Keeps id (remove_links_for_transaction id db))

link_all-Keeps :
    (adjustment : ℕ) (rows : List Transaction) (db : Db) → Keeps db (link_all adjustment rows db)
unfolding link_all
link_all-Keeps adjustment [] db = Keeps-refl db
link_all-Keeps adjustment (r ∷ rows) db =
    Keeps-trans db (link_adjustment_to_transaction adjustment r.id db)
      (link_all adjustment rows (link_adjustment_to_transaction adjustment r.id db))
      (link-Keeps adjustment r.id db)
      (link_all-Keeps adjustment rows (link_adjustment_to_transaction adjustment r.id db))

link_found-Keeps : (o : Option Transaction) (spend : ℕ) (db : Db) → Keeps db (link_found o spend db)
link_found-Keeps none spend db = Keeps-refl db
link_found-Keeps (some adj) spend db = link-Keeps adj.id spend db

module _ (c : Context) where
  pub link_injection-Keeps :
      (entity currency at spend : ℕ) (db : Db)
      → Keeps db (link_injection c entity currency at spend db)
  unfolding link_injection
  link_injection-Keeps entity currency at spend db =
      link_found-Keeps (get_injected_adjustment_at c entity currency (injection_ts at) db) spend db

  set_injection-KeepsIf :
      (adj : Transaction) (id : ℕ) (o : Option ℤ) (db : Db)
      → get_transaction c id db ≡ some adj
      → is_adjustment adj.values.type_of ≡ true
      → KeepsIf db (set_injection c id o db)
  unfolding get_transaction
  set_injection-KeepsIf adj id none db e k = tt
  set_injection-KeepsIf adj id (some required) db e k = elim (Bool-cases (leb_ℤ required (pos 0))) [
    | inl low ↦ rw low (drop-Keeps id db)
    | inr high ↦
        let f = found (is_transaction c id) db.transactions adj e in
        let same : adj.id ≡ id = ground (arith, f.passes) in
        rw high (
          subst (λ n. Keeps db (update_adjustment_transaction c n required purchases db)) same
            (update_adjustment-Keeps c (is_transaction c id) adj required purchases db f k))
  ]

  refresh_linked-KeepsIf :
      (adj : Transaction) (ids : List ℕ) (id : ℕ) (without : Option ℕ) (db : Db)
      → get_transaction c id db ≡ some adj
      → is_adjustment adj.values.type_of ≡ true
      → KeepsIf db (refresh_linked c adj ids id without db)
  refresh_linked-KeepsIf adj [] id without db e k = drop-Keeps id db
  refresh_linked-KeepsIf adj (l ∷ ls) id without db e k =
      set_injection-KeepsIf adj id
        (required_injection_for_day c adj.values.entity_id adj.values.currency
          (day_start adj.values.timestamp + 86400) id without db)
        db e k

  refresh_found-KeepsIf :
      (o : Option Transaction) (id : ℕ) (without : Option ℕ) (db : Db)
      → get_transaction c id db ≡ o
      → KeepsIf db (refresh_found c o id without db)
  refresh_found-KeepsIf none id without db e = Keeps-refl db
  refresh_found-KeepsIf (some adj) id without db e =
      elim (Bool-cases (is_adjustment adj.values.type_of && is_none adj.balance_snapshot_id)) [
        | inl holds ↦ rw holds (
            refresh_linked-KeepsIf adj (get_attached_transaction_ids id db) id without db e
              (ground (arith, holds)))
        | inr fails ↦ rw fails (Keeps-refl db)
      ]

  pub refresh-KeepsIf :
      (id : ℕ) (without : Option ℕ) (db : Db) → KeepsIf db (refresh_injection c id without db)
  unfolding refresh_injection
  refresh-KeepsIf id without db = refresh_found-KeepsIf (get_transaction c id db) id without db refl

  clear_main-Keeps :
      (o : Option Transaction) (entity main at : ℕ) (db : Db)
      → get_injected_adjustment_at c entity main at db ≡ o
      → Keeps db (clear_main c o db)
  unfolding get_injected_adjustment_at
  clear_main-Keeps none entity main at db e = Keeps-refl db
  clear_main-Keeps (some adj) entity main at db e =
      let f = found (injected_at c entity main at) db.transactions adj e in
      delete_adjustment-Keeps c (injected_at c entity main at) adj db f (ground (arith, f.passes))

  inject_main-Keeps :
      (o : Option Transaction) (tx : Transaction) (main : ℕ) (needed : ℤ) (entity at : ℕ) (db : Db)
      → get_injected_adjustment_at c entity main at db ≡ o
      → Keeps db (inject_main c tx main needed o db)
  unfolding get_injected_adjustment_at
  inject_main-Keeps none tx main needed entity at db e =
      let made =
        create_adjustment_transaction c tx.values.entity_id main needed
          (injection_ts tx.values.timestamp) none purchases db in
      let spends =
        spends_to_link tx.values.entity_id main (day_start (injection_ts tx.values.timestamp))
          made.0 in
      Keeps-trans db made.0 (link_all made.1 spends made.0)
        (create_adjustment-Keeps c tx.values.entity_id main needed
          (injection_ts tx.values.timestamp) none purchases db)
        (link_all-Keeps made.1 spends made.0)
  inject_main-Keeps (some adj) tx main needed entity at db e =
      let f = found (injected_at c entity main at) db.transactions adj e in
      update_adjustment-Keeps c (injected_at c entity main at) adj needed purchases db f
        (ground (arith, f.passes))

  cover_main-KeepsIf :
      (tx : Transaction) (main : ℕ) (o : Option ℤ) (db : Db)
      → KeepsIf db (cover_main c tx main o db)
  cover_main-KeepsIf tx main none db = tt
  cover_main-KeepsIf tx main (some balance) db =
      let entity = tx.values.entity_id in
      let at = injection_ts tx.values.timestamp in
      let existing = get_injected_adjustment_at c entity main at db in
      elim (Bool-cases (leb_ℤ (pos 0) balance)) [
        | inl rich ↦ rw rich (clear_main-Keeps existing entity main at db refl)
        | inr poor ↦
            rw poor (inject_main-Keeps existing tx main (pos 0 -ℤ balance) entity at db refl)
      ]

  refresh_main-KeepsIf :
      (tx : Transaction) (main : ℕ) (db : Db) → KeepsIf db (refresh_main c tx main db)
  unfolding refresh_main
  refresh_main-KeepsIf tx main db =
      elim (Bool-cases (is_anchored c tx.values.entity_id main tx.values.timestamp db)) [
        | inl holds ↦ rw holds (Keeps-refl db)
        | inr fails ↦ rw fails (
            cover_main-KeepsIf tx main
              (get_balance_at_date c true tx.values.entity_id main tx.values.timestamp
                (but_transaction none) db)
              db)
      ]

  reconcile_main-KeepsIf :
      (tx : Transaction) (main : Option ℕ) (db : Db) → KeepsIf db (reconcile_main c tx main db)
  reconcile_main-KeepsIf tx none db = Keeps-refl db
  reconcile_main-KeepsIf tx (some main) db = elim (Bool-cases (main == tx.values.currency)) [
    | inl same ↦ rw same (Keeps-refl db)
    | inr other ↦ rw other (
        and_then-KeepsIf db
          (recalculate_adjustments c tx.values.entity_id main tx.values.timestamp db)
          (λ d. refresh_main c tx main d)
          (recalculate-KeepsIf c tx.values.entity_id main tx.values.timestamp db)
          (λ d. refresh_main-KeepsIf tx main d))
  ]

  reconcile_found-KeepsIf : (o : Option Transaction) (db : Db) → KeepsIf db (reconcile_found c o db)
  unfolding reconcile_transaction
  reconcile_found-KeepsIf none db = Keeps-refl db
  reconcile_found-KeepsIf (some tx) db = elim (Bool-cases (is_adjustment tx.values.type_of)) [
    | inl holds ↦ rw holds (Keeps-refl db)
    | inr fails ↦ rw fails (
        and_then-KeepsIf db
          (recalculate_adjustments c tx.values.entity_id (cash_pocket tx.values) tx.values.timestamp
            db)
          (λ d. reconcile_main c tx (main_of (get_entity c tx.values.entity_id d)) d)
          (recalculate-KeepsIf c tx.values.entity_id (cash_pocket tx.values) tx.values.timestamp db)
          (λ d. reconcile_main-KeepsIf tx (main_of (get_entity c tx.values.entity_id d)) d))
  ]

  pub reconcile-KeepsIf : (id : ℕ) (db : Db) → KeepsIf db (reconcile_after_fee_change c id db)
  unfolding reconcile_after_fee_change
  reconcile-KeepsIf id db = reconcile_found-KeepsIf (get_transaction c id db) db
