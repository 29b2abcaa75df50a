-- ===== src/Cash/Snapshots.antt =====
-- backend/services/balance_snapshot_svc.py. A raise before the commit leaves the database as it was.
use personal_fin_hub.Base.{
  ℕ, Bool, true, not, ◌&&◌, ◌||◌, Option, none, some, List, map, select, ◌==◌, if◌then◌else◌, ℤ,
  leb_ℤ,
}
use personal_fin_hub.Currency.Rates.{code_exists}
use personal_fin_hub.Cash.Data.{
  Context, BalanceSnapshotCreate, BalanceSnapshot, Db, Raised, entity_not_found, currency_not_found,
  snapshot_conflict, snapshot_not_found, type_error, Result, ok, err,
}
use personal_fin_hub.Cash.Store.{
  is_none, get_entity, has_transactions_on_or_after, create_balance_snapshot, get_balance_snapshot,
  get_all_balance_snapshots, update_balance_snapshot, delete_balance_snapshot,
  delete_adjustment_transaction,
}
use personal_fin_hub.Cash.Adjustments.{adjust_to}
use personal_fin_hub.Cash.Service.{committed}

pub record BalanceSnapshotResponse : Type 0 where
  pub id : ℕ
  pub values : BalanceSnapshotCreate

abbrev pub snapshot_response : BalanceSnapshot → BalanceSnapshotResponse
snapshot_response s = record { id = s.id; values = s.values }

abbrev pub or_any : Option ℕ → ℕ → Bool
or_any none n = true
or_any (some m) n = n == m

abbrev pub same_amount : ℤ → ℤ → Bool
same_amount a b = leb_ℤ a b && leb_ℤ b a

module _ (c : Context) where
  -- the exception that _resolve_fk raises
  unfoldable pub resolve_fk : BalanceSnapshotCreate → Db → Option Raised
  resolve_fk body db =
      if is_none (get_entity c body.entity_id db)
      then some entity_not_found
      else if not (code_exists body.currency db.rates)
      then some currency_not_found
      else none

  unfoldable pub check_conflicts : BalanceSnapshotCreate → Db → Bool
  check_conflicts body db =
      has_transactions_on_or_after c body.entity_id body.currency body.timestamp db

  -- the answer where nothing was raised on the way
  abbrev pub snapshot_answer :
      ℕ → BalanceSnapshotCreate → Option Db → Result (BalanceSnapshotResponse × Db)
  snapshot_answer id body none = err type_error
  snapshot_answer id body (some db) = ok (record { id = id; values = body }, db)

  abbrev pub adjusted : ℕ → BalanceSnapshotCreate → Db → Option Db
  adjusted id body db = adjust_to c body.entity_id body.currency id body.timestamp body.amount db

  abbrev pub record_snapshot : BalanceSnapshotCreate → Db → Result (BalanceSnapshotResponse × Db)
  record_snapshot body db =
      let (db', id) = create_balance_snapshot c body db in
      snapshot_answer id body (adjusted id body db')

  abbrev pub create_checked :
      Option Raised → BalanceSnapshotCreate → Db → Result (BalanceSnapshotResponse × Db)
  create_checked (some e) body db = err e
  create_checked none body db =
      if check_conflicts body db then err snapshot_conflict else record_snapshot body db

  unfoldable pub create_snapshot : BalanceSnapshotCreate → Db → Result BalanceSnapshotResponse × Db
  create_snapshot body db = committed (create_checked (resolve_fk body db) body db) db

  unfoldable pub get_snapshot : ℕ → Db → Result BalanceSnapshotResponse
  get_snapshot id db = elim (get_balance_snapshot c id db) [
    | none ↦ err snapshot_not_found
    | some s ↦ ok (snapshot_response s)
  ]

  unfoldable pub list_snapshots : Option ℕ → Option ℕ → Db → List BalanceSnapshotResponse
  list_snapshots entity currency db =
      select (λ r. or_any currency r.values.currency)
        (select (λ r. or_any entity r.values.entity_id)
          (map snapshot_response (get_all_balance_snapshots c db)))

  abbrev pub has_changed : BalanceSnapshot → BalanceSnapshotCreate → Bool
  has_changed s body =
      not (s.values.timestamp == body.timestamp) || not (same_amount s.values.amount body.amount)

  -- The adjustment is measured before the snapshot itself is rewritten.
  abbrev pub readjusted : BalanceSnapshot → ℕ → BalanceSnapshotCreate → Db → Option Db
  readjusted s id body db =
      if has_changed s body
      then adjusted id body
          (delete_adjustment_transaction c s.values.entity_id s.values.currency id db)
      else some db

  abbrev pub rewritten_snapshot : ℕ → BalanceSnapshotCreate → Option Db → Option Db
  rewritten_snapshot id body none = none
  rewritten_snapshot id body (some db) = some (update_balance_snapshot c id body db)

  abbrev pub update_checked :
      Option Raised
      → BalanceSnapshot
      → ℕ
      → BalanceSnapshotCreate
      → Db
      → Result (BalanceSnapshotResponse × Db)
  update_checked (some e) s id body db = err e
  update_checked none s id body db =
      snapshot_answer id body (rewritten_snapshot id body (readjusted s id body db))

  abbrev pub update_found :
      Option BalanceSnapshot → ℕ → BalanceSnapshotCreate → Db → Result BalanceSnapshotResponse × Db
  update_found none id body db = (err snapshot_not_found, db)
  update_found (some s) id body db = committed (update_checked (resolve_fk body db) s id body db) db

  unfoldable pub update_snapshot :
      ℕ → BalanceSnapshotCreate → Db → Result BalanceSnapshotResponse × Db
  update_snapshot id body db = update_found (get_balance_snapshot c id db) id body db

  abbrev pub delete_found : Option BalanceSnapshot → ℕ → Db → Result (Unit {0}) × Db
  delete_found none id db = (err snapshot_not_found, db)
  delete_found (some s) id db = (
    ok tt,
    delete_balance_snapshot c id
        (delete_adjustment_transaction c s.values.entity_id s.values.currency s.id db),
  )

  unfoldable pub delete_snapshot : ℕ → Db → Result (Unit {0}) × Db
  delete_snapshot id db = delete_found (get_balance_snapshot c id db) id db
