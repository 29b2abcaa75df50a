-- ===== src/Cash/Reconcile.antt =====
-- What the adjustments promise: the balance at a snapshot is the snapshot's amount, after a recalculation of
-- transaction_svc.py and after the creation of a snapshot by balance_snapshot_svc.py.
use personal_fin_hub.Base.{ℕ, ◌+◌, ◌≡◌, ap, ◌∙◌, true, false, none, some, ℤ, if◌then◌else◌}
use personal_fin_hub.Cash.Data.{
  Context, BalanceSnapshotCreate, BalanceSnapshot, Db, Result, ok, Raised,
}
use personal_fin_hub.Cash.Store.{get_next_snapshot, create_balance_snapshot}
use personal_fin_hub.Cash.Balance.{nothing, but_snapshot, get_balance_at_date}
use personal_fin_hub.Cash.Adjustments.{recalculate_next, recalculate_adjustments}
use personal_fin_hub.Cash.Anchors.{Adjustable, adjust_to-lands}
use personal_fin_hub.Cash.Service.{committed}
use personal_fin_hub.Cash.Snapshots.{
  resolve_fk, check_conflicts, snapshot_answer, record_snapshot, create_checked, create_snapshot,
}

module _ (c : Context) where
  -- Recalculating the adjustments of a pocket after some time, where the next snapshot's adjustment can be set
  -- and the balance there without it is a number, succeeds, and then the balance at the next snapshot is the
  -- snapshot's amount.
  pub recalculate_adjustments-lands :
      (entity currency at : ℕ) (db : Db) (s : BalanceSnapshot) (expected : ℤ)
      → get_next_snapshot c entity currency at db ≡ some s
      → Adjustable c entity currency s.id s.values.timestamp db
      → get_balance_at_date c true entity currency s.values.timestamp (but_snapshot s.id) db
        ≡ some expected
      → (db' : Db) × (recalculate_adjustments c entity currency at db ≡ some db')
        × (get_balance_at_date c true entity currency s.values.timestamp nothing db'
            ≡ some s.values.amount)
  unfolding recalculate_adjustments
  recalculate_adjustments-lands entity currency at db s expected e adjustable known =
      let (db', set, lands) =
        adjust_to-lands c entity currency s.id s.values.timestamp db adjustable s.values.amount
          expected known in
      (db', ap (λ n. recalculate_next c n entity currency db) e ∙ set, lands)

  -- A snapshot of a known entity and currency, with no transaction at or after it, whose adjustment can be set and
  -- at which the balance without that adjustment is a number, is created, and then the balance at it is its
  -- amount.
  pub create_snapshot-lands :
      (body : BalanceSnapshotCreate) (db : Db) (expected : ℤ)
      → resolve_fk c body db ≡ none
      → check_conflicts c body db ≡ false
      → Adjustable c body.entity_id body.currency
          (db.last_snapshot + 1)
          body.timestamp
          (create_balance_snapshot c body db).0
      → get_balance_at_date c true body.entity_id body.currency body.timestamp
          (but_snapshot (db.last_snapshot + 1))
          (create_balance_snapshot c body db).0
        ≡ some expected
      → (db' : Db) × (create_snapshot c body db
          ≡ (ok (record { id = db.last_snapshot + 1; values = body }), db'))
        × (get_balance_at_date c true body.entity_id body.currency body.timestamp nothing db'
            ≡ some body.amount)
  unfolding create_snapshot create_balance_snapshot
  create_snapshot-lands body db expected fks free adjustable known =
      let id = db.last_snapshot + 1 in
      let (db', set, lands) =
        adjust_to-lands c body.entity_id body.currency id body.timestamp
          (create_balance_snapshot c body db).0 adjustable body.amount expected known in
      (
        db',
        ap (λ e. committed (create_checked c e body db) db) fks
            ∙ ap
                (λ b.
                  committed
                    (if b then Result.err Raised.snapshot_conflict else record_snapshot c body db)
                    db)
                free
            ∙ ap (λ o. committed (snapshot_answer c id body o) db) set,
        lands,
      )
