-- ===== src/Cash/Anchors.antt =====
-- The adjustment of a snapshot: once adjust_to has set it, the balance at the snapshot is its amount.
use personal_fin_hub.Base.{
  ℕ, ◌+◌, ◌≡◌, refl, sym, subst, ap, ◌∙◌, Bool, true, false, not, ◌&&◌, ◌||◌, Option, none, some,
  List, [], ◌∷◌, ◌++◌, ltb, leb, ◌==◌, if◌then◌else◌, any, all, select, map, ℤ, ◌+ℤ◌, ◌-ℤ◌,
  int_laws, inl, inr, Option-cases, or_false, arith,
}
use personal_fin_hub.FiscalPeriods.Table.{fetchone}
use personal_fin_hub.Cash.Data.{Context, snapshot_note, Transaction, BalanceSnapshot, Db}
use personal_fin_hub.Cash.Store.{
  is_none, is_transaction, adjusts_for, snapshot_of, get_previous_snapshot,
  get_adjustment_transaction, adjustment_timestamp, adjustment_values, with_amount,
  create_adjustment_transaction, update_adjustment_transaction,
}
use personal_fin_hub.Cash.Balance.{
  Exclude, nothing, but_snapshot, of_snapshot, movement, find_row, get_balance_at_date,
}
use personal_fin_hub.Cash.Adjustments.{put_adjustment, adjust_by, write_adjustment, adjust_to}
use personal_fin_hub.Cash.Sums.{select-append}
use personal_fin_hub.Cash.Sums.Shift.{
  with_rows, raised_by, window, Differ-insert, keep_charged, balance_raised,
}
use personal_fin_hub.Cash.Rows.Selections.{
  Single, Single-after, select_same, all-left, all-at, append_nil,
}
use personal_fin_hub.Cash.Rows.Kinds.{
  latest_snapshot-all, all-select, in_profile_self, adjustment_can_book, adjustment_amount,
}
use personal_fin_hub.Cash.Rows.{
  Distinct, found, none_found, any-append, select_skip, select_take, update_rows,
}

module _ (c : Context) (entity currency snapshot at : ℕ) (db : Db) where
  abbrev pub own_adjustment : Transaction → Bool
  own_adjustment r =
      adjusts_for c entity currency snapshot r
      && is_none r.values.payment_currency
      && r.values.timestamp == adjustment_timestamp c at

  -- A fee or a tax is of a known transaction that is not the snapshot's adjustment.
  abbrev pub charges_another : ℕ → Bool
  charges_another id =
      leb id db.last_transaction
      && not (any (λ r. r.id == id && of_snapshot snapshot r) db.transactions)

  -- What the adjustment of a snapshot is set under: ids are unique and known, the snapshot has at most one
  -- adjustment, which is of its pocket and at its time and bears no charge, and that time lies before the
  -- snapshot and not before an earlier one.
  pub record Adjustable : Type 0 where
    pub distinct : Distinct db.transactions
    pub known : all (λ r. leb r.id db.last_transaction) db.transactions ≡ true
    pub own : all (λ r. not (of_snapshot snapshot r) || own_adjustment r) db.transactions ≡ true
    pub single : Single (of_snapshot snapshot) db.transactions
    pub fees : all (λ f. charges_another f.values.transaction_id) db.fees ≡ true
    pub taxes : all (λ t. charges_another t.values.transaction_id) db.taxes ≡ true
    pub before : ltb (adjustment_timestamp c at) at ≡ true
    pub after :
        all
          (λ s.
            not (snapshot_of c entity currency s && ltb s.values.timestamp at)
            || leb s.values.timestamp (adjustment_timestamp c at))
          db.snapshots
        ≡ true

  abbrev prev : Option BalanceSnapshot
  prev = get_previous_snapshot c entity currency at db

  abbrev counts : Exclude → Transaction → Bool
  counts ex r = window c prev true entity currency at ex r

  -- Of another row, the exclusion changes nothing.
  counts_same :
      (p : Option BalanceSnapshot) (r : Transaction)
      → of_snapshot snapshot r ≡ false
      → window c p true entity currency at (but_snapshot snapshot) r
        ≡ window c p true entity currency at nothing r
  counts_same none r e = rw e refl
  counts_same (some s) r e = rw e refl

  module _ (adjustable : Adjustable) where
    prev_before :
        (s : BalanceSnapshot)
        → get_previous_snapshot c entity currency at db ≡ some s
        → leb s.values.timestamp (adjustment_timestamp c at) ≡ true
    unfolding get_previous_snapshot
    prev_before s e =
        latest_snapshot-all (λ r. leb r.values.timestamp (adjustment_timestamp c at))
          (select (λ r. snapshot_of c entity currency r && ltb r.values.timestamp at) db.snapshots)
          s
          (all-select (λ r. snapshot_of c entity currency r && ltb r.values.timestamp at)
            (λ r. leb r.values.timestamp (adjustment_timestamp c at)) db.snapshots adjustable.after)
          e

    counts_own :
        (p : Option BalanceSnapshot) (r : Transaction)
        → ((s : BalanceSnapshot)
            → p ≡ some s
            → leb s.values.timestamp (adjustment_timestamp c at) ≡ true)
        → own_adjustment r ≡ true
        → window c p true entity currency at nothing r ≡ true
    counts_own none r h own = ground (arith, own, adjustable.before)
    counts_own (some s) r h own = ground (arith, own, adjustable.before, h s refl)

    own-of_snapshot : (r : Transaction) → own_adjustment r ≡ true → of_snapshot snapshot r ≡ true
    own-of_snapshot r own = ground arith

    -- A list with a new adjustment of the snapshot, around which none of it stands.
    lands :
        (B A : List Transaction) (r : Transaction) (last : ℕ)
        → own_adjustment r ≡ true
        → any (of_snapshot snapshot) (B ++ A) ≡ false
        → select (counts (but_snapshot snapshot)) db.transactions
          ≡ select (counts (but_snapshot snapshot)) (B ++ A)
        → ((id : ℕ)
            → charges_another id ≡ true
            → find_row c id (B ++ r ∷ A) ≡ find_row c id db.transactions)
        → get_balance_at_date c true entity currency at nothing (with_rows (B ++ r ∷ A) last db)
          ≡ raised_by
              (movement r)
              (get_balance_at_date c true entity currency at (but_snapshot snapshot) db)
    lands B A r last own free same finds =
        let P = prev in
        let rows' = B ++ r ∷ A in
        let but =
          select_same (of_snapshot snapshot) (counts (but_snapshot snapshot)) (counts nothing)
            (B ++ A) (λ q. counts_same P q) free in
        balance_raised c (B ++ r ∷ A) last db
          (
            keep_charged c charges_another rows' db.transactions finds
                (λ f. f.values.transaction_id) db.fees adjustable.fees,
            keep_charged c charges_another rows' db.transactions finds
                (λ t. t.values.transaction_id) db.taxes adjustable.taxes,
          )
          true entity currency at nothing (but_snapshot snapshot) (movement r) refl
          (rw
            (
              select_take (counts nothing) B A r (counts_own P r prev_before own),
              same ∙ but ∙ select-append (counts nothing) B A,
            )
            (Differ-insert (movement r) (select (counts nothing) B) (select (counts nothing) A) r
              refl (adjustment_can_book r.values.type_of r.values (ground (arith, own)))))

    own-free :
        (rows : List Transaction)
        → all (λ r. not (of_snapshot snapshot r) || own_adjustment r) rows ≡ true
        → any (adjusts_for c entity currency snapshot) rows ≡ false
        → any (of_snapshot snapshot) rows ≡ false
    own-free [] h e = refl
    own-free (r ∷ rows) h e = ground (arith, own-free rows)

    abbrev added : ℤ → Transaction
    added amount = record {
      id = db.last_transaction + 1;
      profile_id = c.profile_id;
      balance_snapshot_id = some snapshot;
      fiscal_rule = none;
      values =
          adjustment_values entity currency amount (adjustment_timestamp c at) (snapshot_note at);
    }

    added-own : (amount : ℤ) → own_adjustment (added amount) ≡ true
    added-own amount = ground (arith, in_profile_self c.profile_id)

    create_lands :
        (amount : ℤ)
        → get_adjustment_transaction c entity currency snapshot db ≡ none
        → get_balance_at_date c true entity currency at nothing
            (put_adjustment c none entity currency snapshot at amount db)
          ≡ raised_by amount
              (get_balance_at_date c true entity currency at (but_snapshot snapshot) db)
    unfolding get_adjustment_transaction create_adjustment_transaction
    create_lands amount e =
        let rows = db.transactions in
        lands rows [] (added amount) (db.last_transaction + 1) (added-own amount)
          (ap (λ xs. any (of_snapshot snapshot) xs) (append_nil rows)
            ∙ own-free rows adjustable.own
                (none_found (adjusts_for c entity currency snapshot) rows e))
          (ap (λ xs. select (counts (but_snapshot snapshot)) xs) (sym (append_nil rows)))
          (λ id another. ap fetchone (
            select_skip (λ r. r.id == id) rows [] (added amount) (ground (arith, another))
            ∙ ap (λ xs. select (λ r. r.id == id) xs) (append_nil rows)))

    counts_excluded :
        (p : Option BalanceSnapshot) (r : Transaction)
        → of_snapshot snapshot r ≡ true
        → window c p true entity currency at (but_snapshot snapshot) r ≡ false
    counts_excluded none r e = ground arith
    counts_excluded (some s) r e = ground arith

    another_apart :
        (B A : List Transaction) (adj : Transaction) (id : ℕ)
        → db.transactions ≡ B ++ adj ∷ A
        → of_snapshot snapshot adj ≡ true
        → charges_another id ≡ true
        → (adj.id == id) ≡ false
    another_apart B A adj id split of another =
        let p = λ (r : Transaction). r.id == id && of_snapshot snapshot r in
        let here = sym (ap (any p) split ∙ any-append p B (adj ∷ A)) in
        ground (arith, here, another, of)

    update_at :
        (amount : ℤ) (adj : Transaction) (B A : List Transaction)
        → db.transactions ≡ B ++ adj ∷ A
        → adjusts_for c entity currency snapshot adj ≡ true
        → any (adjusts_for c entity currency snapshot) B ≡ false
        → get_balance_at_date c true entity currency at nothing
            (update_adjustment_transaction c adj.id amount (snapshot_note at) db)
          ≡ raised_by amount
              (get_balance_at_date c true entity currency at (but_snapshot snapshot) db)
    unfolding update_adjustment_transaction
    update_at amount adj B A split passes skipped =
        let hit = is_transaction c adj.id in
        let new = with_amount amount (snapshot_note at) adj in
        let of : of_snapshot snapshot adj ≡ true = ground (arith, passes) in
        let owns = λ (r : Transaction). not (of_snapshot snapshot r) || own_adjustment r in
        let own = sym (ap (all owns) split) ∙ adjustable.own in
        let rows : map (λ r. if hit r then with_amount amount (snapshot_note at) r else r)
              db.transactions
            ≡ B ++ new ∷ A =
          update_rows c (with_amount amount (snapshot_note at)) B A adj db.transactions split
            adjustable.distinct (ground (arith, passes)) in
        ap
          (λ rs.
            get_balance_at_date c true entity currency at nothing
              (with_rows rs db.last_transaction db))
          rows
        ∙ lands B A new db.last_transaction (ground (arith, of, all-at owns B A adj own))
            (any-append (of_snapshot snapshot) B A
              ∙ or_false (any (of_snapshot snapshot) B) (any (of_snapshot snapshot) A)
                  (own-free B (all-left owns B (adj ∷ A) own) skipped)
                  (Single-after (of_snapshot snapshot) B A adj
                    (subst (Single (of_snapshot snapshot)) split adjustable.single) of))
            (ap (select (counts (but_snapshot snapshot))) split
              ∙ select_skip (counts (but_snapshot snapshot)) B A adj (counts_excluded prev adj of))
            (λ id another.
              let apart = another_apart B A adj id split of another in
              ap fetchone (
                select_skip (λ r. r.id == id) B A new apart
                ∙ sym (select_skip (λ r. r.id == id) B A adj apart)
                ∙ ap (select (λ r. r.id == id)) (sym split)))
        ∙ ap
            (λ m.
              raised_by m
                (get_balance_at_date c true entity currency at (but_snapshot snapshot) db))
            (adjustment_amount new.values.type_of new.values (ground (arith, of)))

    update_lands :
        (amount : ℤ) (adj : Transaction)
        → get_adjustment_transaction c entity currency snapshot db ≡ some adj
        → get_balance_at_date c true entity currency at nothing
            (put_adjustment c (some adj) entity currency snapshot at amount db)
          ≡ raised_by amount
              (get_balance_at_date c true entity currency at (but_snapshot snapshot) db)
    unfolding get_adjustment_transaction update_adjustment_transaction
    update_lands amount adj e =
        let f = found (adjusts_for c entity currency snapshot) db.transactions adj e in
        update_at amount adj f.before f.after f.split f.passes f.skipped

    write_adjustment-lands :
        (amount : ℤ)
        → get_balance_at_date c true entity currency at nothing
            (write_adjustment c entity currency snapshot at amount db)
          ≡ raised_by amount
              (get_balance_at_date c true entity currency at (but_snapshot snapshot) db)
    unfolding write_adjustment
    write_adjustment-lands amount =
        elim (Option-cases (get_adjustment_transaction c entity currency snapshot db)) [
          | inl e ↦ rw e (create_lands amount e)
          | inr (adj, e) ↦ rw e (update_lands amount adj e)
        ]

    pub adjust_to-lands :
        (target expected : ℤ)
        → get_balance_at_date c true entity currency at (but_snapshot snapshot) db ≡ some expected
        → (db' : Db) × (adjust_to c entity currency snapshot at target db ≡ some db')
          × (get_balance_at_date c true entity currency at nothing db' ≡ some target)
    unfolding adjust_to
    adjust_to-lands target expected e = (
      write_adjustment c entity currency snapshot at (target -ℤ expected) db,
      ap (λ b. adjust_by c b entity currency snapshot at target db) e,
      write_adjustment-lands (target -ℤ expected)
          ∙ ap (raised_by (target -ℤ expected)) e
          ∙ ap some (back target expected),
    )
      where
        back : (t e : ℤ) → e +ℤ (t -ℤ e) ≡ t
        back t e = grind int_laws
