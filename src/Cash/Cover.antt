-- ===== src/Cash/Cover.antt =====
-- The cash that _ensure_cash_for_spend injects: afterwards the balance at the spend covers it.
use personal_fin_hub.Base.{
  ℕ, ◌+◌, ◌≡◌, refl, sym, subst, ap, ◌∙◌, Bool, true, false, not, ◌&&◌, ◌||◌, Option, none, some,
  List, [], ◌∷◌, ◌++◌, ltb, leb, ◌==◌, any, all, select, ℤ, ◌+ℤ◌, ◌-ℤ◌, max_ℤ, leb_ℤ, int_laws,
  any-false_mono, inl, inr, Bool-cases, Option-cases, +ℤ_comm, arith,
}
use personal_fin_hub.FiscalPeriods.Table.{fetchone}
use personal_fin_hub.Cash.Data.{Context, BalanceMode, Transaction, BalanceSnapshot, Db}
use personal_fin_hub.Cash.Store.{
  is_adjustment, is_id, is_none, injection_ts, snapshot_of, later_of, latest_snapshot,
  get_previous_snapshot, injected_at, get_injected_adjustment_at, adjustment_values, with_amount,
  create_adjustment_transaction, update_adjustment_transaction,
}
use personal_fin_hub.Cash.Balance.{but_transaction, until, or_zero, find_row, get_balance_at_date}
use personal_fin_hub.Cash.Adjustments.{
  is_debit, is_some, purchases, is_anchored, put_injection, inject_cash, ensure_cash_for_spend,
}
use personal_fin_hub.Cash.Sums.Shift.{
  with_rows, raised_by, Differ, Differ-insert, Differ-replace, keep_charged, balance_raised,
}
use personal_fin_hub.Cash.Rows.{
  Distinct, found, any-append, select_skip, select_take, select_none, update_rows,
}
use personal_fin_hub.Cash.Rows.Selections.{all-at, append_nil}
use personal_fin_hub.Cash.Rows.Kinds.{in_profile_self, adjustment_can_book, adjustment_amount}

injection_before : (t : ℕ) → leb (injection_ts t) t ≡ true
injection_before t = ground arith

enough_max : (t b : ℤ) → leb_ℤ t b ≡ true → b ≡ max_ℤ b t
enough_max t b e = ground (arith, e)

short_max : (t b : ℤ) → leb_ℤ t b ≡ false → b +ℤ (t -ℤ b) ≡ max_ℤ b t
short_max t b e = back t b ∙ short_is_max
  where
    back : (t b : ℤ) → b +ℤ (t -ℤ b) ≡ t
    back t b = grind int_laws

    short_is_max : t ≡ max_ℤ b t
    short_is_max = ground (arith, e)

latest_none : (ss : List BalanceSnapshot) → latest_snapshot ss ≡ none → ss ≡ []
unfolding latest_snapshot
latest_none [] e = refl
latest_none (s ∷ ss) e = absurd (never s (latest_snapshot ss) e)
  where
    never : (s : BalanceSnapshot) (o : Option BalanceSnapshot) → later_of s o ≡ none → ⊥
    never s none e = ground (arith, e)
    never s (some r) e = ground (arith, e)

module _ (c : Context) (entity currency at : ℕ) (without : Option ℕ) (db : Db) where
  abbrev is_injected : Transaction → Bool
  is_injected r = injected_at c entity currency (injection_ts at) r

  -- A fee or a tax is of a known transaction that is not the injection.
  abbrev pub charges_other : ℕ → Bool
  charges_other id =
      leb id db.last_transaction && not (any (λ r. r.id == id && is_injected r) db.transactions)

  -- What a spend is covered under: ids are unique, an injection of its day has no payment currency, is not
  -- the row left out and bears no charge, and the pocket has no snapshot before the spend.
  pub record Injectable : Type 0 where
    pub distinct : Distinct db.transactions
    pub own :
        all
          (λ r.
            not (is_injected r) || is_none r.values.payment_currency && not (is_id without r.id))
          db.transactions
        ≡ true
    pub new : is_id without (db.last_transaction + 1) ≡ false
    pub fees : all (λ f. charges_other f.values.transaction_id) db.fees ≡ true
    pub taxes : all (λ t. charges_other t.values.transaction_id) db.taxes ≡ true
    pub unanchored : get_previous_snapshot c entity currency at db ≡ none

  abbrev counts : Transaction → Bool
  counts r = until c entity currency true at (but_transaction without) r

  module _ (h : Injectable) where
    -- A list of rows that differs from the table's by `m`, and in which what bears charges is found.
    covers :
        (rows : List Transaction) (last : ℕ) (m : ℤ)
        → ((id : ℕ) → charges_other id ≡ true → find_row c id rows ≡ find_row c id db.transactions)
        → Differ m (select counts rows) (select counts db.transactions)
        → get_balance_at_date c true entity currency at
            (but_transaction without)
            (with_rows rows last db)
          ≡ raised_by m (get_balance_at_date c true entity currency at (but_transaction without) db)
    covers rows last m finds d =
        balance_raised c rows last db
          (
            keep_charged c charges_other rows db.transactions finds (λ f. f.values.transaction_id)
                db.fees h.fees,
            keep_charged c charges_other rows db.transactions finds (λ t. t.values.transaction_id)
                db.taxes h.taxes,
          )
          true entity currency at (but_transaction without) (but_transaction without) m refl
          (rw h.unanchored d)

    injected_counts :
        (r : Transaction)
        → is_injected r ≡ true
        → is_none r.values.payment_currency && not (is_id without r.id) ≡ true
        → counts r ≡ true
    injected_counts r i own = ground (arith, i, own, injection_before at)

    abbrev inserted : ℤ → Transaction
    inserted needed = record {
      id = db.last_transaction + 1;
      profile_id = c.profile_id;
      balance_snapshot_id = none;
      fiscal_rule = none;
      values = adjustment_values entity currency needed (injection_ts at) purchases;
    }

    inserted-counts : (needed : ℤ) → counts (inserted needed) ≡ true
    inserted-counts needed =
        injected_counts (inserted needed) (ground (arith, in_profile_self c.profile_id))
          (ground (arith, h.new))

    insert_covers :
        (needed : ℤ)
        → get_balance_at_date c true entity currency at
            (but_transaction without)
            (put_injection c none entity currency at needed db)
          ≡ raised_by needed
              (get_balance_at_date c true entity currency at (but_transaction without) db)
    unfolding create_adjustment_transaction
    insert_covers needed =
        let rows = db.transactions in
        covers (rows ++ inserted needed ∷ []) (db.last_transaction + 1) needed
          (λ id other. ap fetchone (
            select_skip (λ r. r.id == id) rows [] (inserted needed) (ground (arith, other))
            ∙ ap (select (λ r. r.id == id)) (append_nil rows)))
          (rw (select_take counts rows [] (inserted needed) (inserted-counts needed)) (
            subst (λ xs. Differ needed (select counts rows ++ inserted needed ∷ []) xs)
              (append_nil (select counts rows))
              (Differ-insert needed (select counts rows) [] (inserted needed) refl refl)))

    update_at :
        (needed : ℤ) (adj : Transaction) (B A : List Transaction)
        → db.transactions ≡ B ++ adj ∷ A
        → is_injected adj ≡ true
        → get_balance_at_date c true entity currency at
            (but_transaction without)
            (put_injection c (some adj) entity currency at needed db)
          ≡ raised_by needed
              (get_balance_at_date c true entity currency at (but_transaction without) db)
    unfolding update_adjustment_transaction
    update_at needed adj B A split i =
        let amount = or_zero adj.values.total_value +ℤ needed in
        let new = with_amount amount purchases adj in
        let owns = λ (r : Transaction).
          not (is_injected r) || is_none r.values.payment_currency && not (is_id without r.id) in
        let own = all-at owns B A adj (sym (ap (all owns) split) ∙ h.own) in
        let counted = injected_counts adj i (ground (arith, own, i)) in
        let kind : is_adjustment adj.values.type_of ≡ true = ground (arith, i) in
        ap
          (λ rs.
            get_balance_at_date c true entity currency at (but_transaction without)
              (with_rows rs db.last_transaction db))
          (update_rows c (with_amount amount purchases) B A adj db.transactions split h.distinct
            (ground (arith, i)))
        ∙ covers (B ++ new ∷ A) db.last_transaction needed
            (λ id other.
              let p = λ (r : Transaction). r.id == id && is_injected r in
              let here = sym (ap (any p) split ∙ any-append p B (adj ∷ A)) in
              let apart : (adj.id == id) ≡ false = ground (arith, here, other, i) in
              ap fetchone (
                select_skip (λ r. r.id == id) B A new apart
                ∙ sym (select_skip (λ r. r.id == id) B A adj apart)
                ∙ ap (select (λ r. r.id == id)) (sym split)))
            (rw
              (
                select_take counts B A new counted,
                ap (select counts) split ∙ select_take counts B A adj counted,
              )
              (Differ-replace needed (select counts B) (select counts A) new adj
                (adjustment_amount new.values.type_of new.values kind
                  ∙ +ℤ_comm (or_zero adj.values.total_value) needed
                  ∙ ap (λ x. needed +ℤ x)
                      (sym (adjustment_amount adj.values.type_of adj.values kind)))
                (adjustment_can_book new.values.type_of new.values kind
                  ∙ sym (adjustment_can_book adj.values.type_of adj.values kind))))

    inject_covers :
        (needed : ℤ)
        → get_balance_at_date c true entity currency at
            (but_transaction without)
            (inject_cash c entity currency at needed db)
          ≡ raised_by needed
              (get_balance_at_date c true entity currency at (but_transaction without) db)
    unfolding inject_cash get_injected_adjustment_at
    inject_covers needed =
        elim (Option-cases (get_injected_adjustment_at c entity currency (injection_ts at) db)) [
          | inl e ↦ rw e (insert_covers needed)
          | inr (adj, e) ↦
              let f = found is_injected db.transactions adj e in
              rw e (update_at needed adj f.before f.after f.split f.passes)
        ]

    -- A snapshot before the day of the spend would be one before the spend.
    not_anchored : is_anchored c entity currency at db ≡ false
    unfolding get_previous_snapshot latest_snapshot
    not_anchored =
        let p = λ (t : ℕ) (s : BalanceSnapshot).
          snapshot_of c entity currency s && ltb s.values.timestamp t in
        let none_before = any_of_empty (p at) db.snapshots (latest_none _ h.unanchored) in
        ap (λ ss. is_some (latest_snapshot ss))
          (select_none (p (injection_ts at)) db.snapshots (
            any-false_mono (p at) (p (injection_ts at)) db.snapshots
              (λ s e. ground (arith, e, injection_before at)) none_before))
      where
        any_of_empty :
            (p : BalanceSnapshot → Bool) (ss : List BalanceSnapshot)
            → select p ss ≡ []
            → any p ss ≡ false
        any_of_empty p [] e = refl
        any_of_empty p (s ∷ ss) e = ground (arith, any_of_empty p ss, e)

    -- A spend that may be given cash, in a pocket that no snapshot anchors: if the balance at it is a number,
    -- the call succeeds, and then the balance at the spend is the greater of the balance before and the
    -- amount spent.
    pub ensure_cash_for_spend-covers :
        (total balance : ℤ) (mode : Option BalanceMode)
        → is_debit mode ≡ false
        → get_balance_at_date c true entity currency at (but_transaction without) db ≡ some balance
        → (db' : Db) × (ensure_cash_for_spend c entity currency at total mode without db ≡ some db')
          × (get_balance_at_date c true entity currency at (but_transaction without) db'
              ≡ some (max_ℤ balance total))
    unfolding ensure_cash_for_spend
    ensure_cash_for_spend-covers total balance mode free e =
        elim (Bool-cases (leb_ℤ total balance)) [
          | inl enough ↦ (
            db,
            rw (free, not_anchored, e, enough) refl,
            e ∙ ap some (enough_max total balance enough),
          )
          | inr short ↦ (
            inject_cash c entity currency at (total -ℤ balance) db,
            rw (free, not_anchored, e, short) refl,
            inject_covers (total -ℤ balance)
                ∙ ap (raised_by (total -ℤ balance)) e
                ∙ ap some (short_max total balance short),
          )
        ]
