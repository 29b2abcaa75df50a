-- ===== src/Cash/Sums/Shift.antt =====
-- The balance of get_balance_at_date moves by what the rows of its window move by, when the rows that
-- bear charges stay.
use personal_fin_hub.Base.{
  ℕ, ◌≡◌, refl, sym, ap, ap₂, ◌∙◌, Bool, true, false, ◌&&◌, Option, none, some, List, [], ◌∷◌, ◌++◌,
  if◌then◌else◌, all, All, select, sort_by, ℤ, ◌+ℤ◌, ◌-ℤ◌, int_laws, +ℤ_assoc, +ℤ_swap, arith,
}
use personal_fin_hub.Cash.Data.{
  Context, Transaction, BalanceSnapshot, TransactionFee, TransactionTax, Db,
}
use personal_fin_hub.Cash.Store.{owned, get_entity, get_previous_snapshot}
use personal_fin_hub.Cash.Balance.{
  Exclude, sum_movements, movement, book_all, within, until, get_transactions_between, find_row,
  joined_with, join, charges_of, compute_fee_cash_out_at, less, balance_since, balance_from_start,
  balance_with, get_balance_at_date,
}
use personal_fin_hub.Cash.Sums.{
  can_book, all-append, sum_movements-append, sum-sort, all-sort, book_all_eq,
}

abbrev pub with_rows : List Transaction → ℕ → Db → Db
with_rows rows last db = record db { transactions = rows; last_transaction = last }

abbrev pub raised_by : ℤ → Option ℤ → Option ℤ
raised_by m none = none
raised_by m (some b) = some (b +ℤ m)

-- the rows that the balance adds up
abbrev pub window :
    Context → Option BalanceSnapshot → Bool → ℕ → ℕ → ℕ → Exclude → Transaction → Bool
window c none inclusive entity currency at ex r = until c entity currency inclusive at ex r
window c (some s) inclusive entity currency at ex r =
    within c entity currency s.values.timestamp at ex r

-- Two lists of rows whose sums differ by `m`, and that can be booked alike.
abbrev pub Differ : ℤ → List Transaction → List Transaction → Type 0
Differ m rows' rows =
    (sum_movements rows' ≡ m +ℤ sum_movements rows) × (all can_book rows' ≡ all can_book rows)

Differ-one :
    (m : ℤ) (r : Transaction) (A : List Transaction)
    → movement r ≡ m
    → can_book r ≡ true
    → Differ m (r ∷ A) A
unfolding sum_movements
Differ-one m r A e k = (ap (λ x. x +ℤ sum_movements A) e, ap (λ b. b && all can_book A) k)

Differ-append : (m : ℤ) (B A' A : List Transaction) → Differ m A' A → Differ m (B ++ A') (B ++ A)
Differ-append m B A' A d = (
  sum_movements-append B A'
      ∙ ap (λ x. sum_movements B +ℤ x) d.0
      ∙ +ℤ_swap (sum_movements B) m (sum_movements A)
      ∙ sym (ap (λ x. m +ℤ x) (sum_movements-append B A)),
  all-append can_book B A' ∙ ap (λ b. all can_book B && b) d.1 ∙ sym (all-append can_book B A),
)

-- A row more.
pub Differ-insert :
    (m : ℤ) (B A : List Transaction) (r : Transaction)
    → movement r ≡ m
    → can_book r ≡ true
    → Differ m (B ++ r ∷ A) (B ++ A)
Differ-insert m B A r e k = Differ-append m B (r ∷ A) A (Differ-one m r A e k)

-- A row that has changed.
pub Differ-replace :
    (m : ℤ) (B A : List Transaction) (r' r : Transaction)
    → movement r' ≡ m +ℤ movement r
    → can_book r' ≡ can_book r
    → Differ m (B ++ r' ∷ A) (B ++ r ∷ A)
unfolding sum_movements
Differ-replace m B A r' r e k = Differ-append m B (r' ∷ A) (r ∷ A) (
  ap (λ x. x +ℤ sum_movements A) e ∙ +ℤ_assoc m (movement r) (sum_movements A),
  ap (λ b. b && all can_book A) k,
)

module _ (c : Context) where
  module _ {A : Type 0} (key : A → ℕ) (owner : A → Option ℕ) where
    join_eq :
        (rows' rows : List Transaction) (xs : List A)
        → All (λ x. find_row c (key x) rows' ≡ find_row c (key x) rows) xs
        → join c key owner xs rows' ≡ join c key owner xs rows
    unfolding join
    join_eq rows' rows [] h = refl
    join_eq rows' rows (x ∷ xs) h =
        ap₂ (λ r rest. if owned c (owner x) then joined_with c x r rest else rest) h.0
          (join_eq rows' rows xs h.1)

  -- Every row that bears a fee or a tax is still found.
  abbrev pub KeepsCharged : List Transaction → Db → Type 0
  KeepsCharged rows db =
      All
        (λ (f : TransactionFee).
          find_row c f.values.transaction_id rows
          ≡ find_row c f.values.transaction_id db.transactions)
        db.fees
      × All
          (λ (t : TransactionTax).
            find_row c t.values.transaction_id rows
            ≡ find_row c t.values.transaction_id db.transactions)
          db.taxes

  pub keep_charged :
      {A : Type 0} (fits : ℕ → Bool) (rows' rows : List Transaction)
      → ((id : ℕ) → fits id ≡ true → find_row c id rows' ≡ find_row c id rows)
      → (key : A → ℕ) (xs : List A) → all (λ x. fits (key x)) xs ≡ true
      → All (λ x. find_row c (key x) rows' ≡ find_row c (key x) rows) xs
  keep_charged fits rows' rows finds key [] h = tt
  keep_charged fits rows' rows finds key (x ∷ xs) h =
      (finds (key x) (ground arith), keep_charged fits rows' rows finds key xs (ground arith))

  charges_eq :
      (rows : List Transaction) (last : ℕ) (db : Db)
      → KeepsCharged rows db
      → (entity currency at : ℕ) (without : Option ℕ)
      → compute_fee_cash_out_at c entity currency at without (with_rows rows last db)
        ≡ compute_fee_cash_out_at c entity currency at without db
  unfolding compute_fee_cash_out_at get_entity join
  charges_eq rows last db k entity currency at without =
      ap₂ (λ fs ts. charges_of c (get_entity c entity db) entity currency at without db.rates fs ts)
        (join_eq (λ f. f.values.transaction_id) (λ f. f.profile_id) rows db.transactions db.fees
          k.0)
        (join_eq (λ t. t.values.transaction_id) (λ t. t.profile_id) rows db.transactions db.taxes
          k.1)

  less_raised : (x m : ℤ) (o : Option ℤ) → less (some (m +ℤ x)) o ≡ raised_by m (less (some x) o)
  less_raised x m none = refl
  less_raised x m (some y) = ap some (swap x m y)
    where
      swap : (x m y : ℤ) → (m +ℤ x) -ℤ y ≡ (x -ℤ y) +ℤ m
      swap x m y = grind int_laws

  book_raised :
      (b m x : ℤ) (p : Bool) (o : Option ℤ)
      → less (if p then some (b +ℤ (m +ℤ x)) else none) o
        ≡ raised_by m (less (if p then some (b +ℤ x) else none) o)
  book_raised b m x false o = refl
  book_raised b m x true o = ap (λ z. less (some z) o) (+ℤ_swap b m x) ∙ less_raised (b +ℤ x) m o

  book_sorted :
      (key : Transaction → ℕ) (rows : List Transaction) (b : ℤ)
      → book_all (sort_by key rows) b
        ≡ (if all can_book rows then some (b +ℤ sum_movements rows) else none)
  book_sorted key rows b =
      book_all_eq (sort_by key rows) b
      ∙ ap₂ (λ p x. if p then some (b +ℤ x) else none) (all-sort key can_book rows)
          (sum-sort key rows)

  from_start_raised :
      (rows : List Transaction) (last : ℕ) (db : Db)
      → KeepsCharged rows db
      → (inclusive : Bool) (entity currency at : ℕ) (ex' ex : Exclude) (m : ℤ)
      → ex'.transaction_id ≡ ex.transaction_id
      → Differ m
          (select (until c entity currency inclusive at ex') rows)
          (select (until c entity currency inclusive at ex) db.transactions)
      → balance_from_start c inclusive entity currency at ex' (with_rows rows last db)
        ≡ raised_by m (balance_from_start c inclusive entity currency at ex db)
  unfolding balance_from_start
  from_start_raised rows last db k inclusive entity currency at ex' ex m e d =
      ap₂ (λ x w. less (some x) w) d.0
        (ap (λ w. compute_fee_cash_out_at c entity currency at w (with_rows rows last db)) e
          ∙ charges_eq rows last db k entity currency at ex.transaction_id)
      ∙ less_raised
          (sum_movements (select (until c entity currency inclusive at ex) db.transactions)) m _

  since_raised :
      (rows : List Transaction) (last : ℕ) (db : Db)
      → KeepsCharged rows db
      → (s : BalanceSnapshot) (entity currency at : ℕ) (ex' ex : Exclude) (m : ℤ)
      → ex'.transaction_id ≡ ex.transaction_id
      → Differ m
          (select (within c entity currency s.values.timestamp at ex') rows)
          (select (within c entity currency s.values.timestamp at ex) db.transactions)
      → balance_since c s entity currency at ex' (with_rows rows last db)
        ≡ raised_by m (balance_since c s entity currency at ex db)
  unfolding balance_since get_transactions_between
  since_raised rows last db k s entity currency at ex' ex m e d =
      let fees = λ (t : ℕ).
        ap (λ w. compute_fee_cash_out_at c entity currency t w (with_rows rows last db)) e
        ∙ charges_eq rows last db k entity currency t ex.transaction_id in
      let counted = select (within c entity currency s.values.timestamp at ex') rows in
      let before = select (within c entity currency s.values.timestamp at ex) db.transactions in
      let owed =
        less (compute_fee_cash_out_at c entity currency at ex.transaction_id db)
          (compute_fee_cash_out_at c entity currency s.values.timestamp ex.transaction_id db) in
      ap₂ less
        (book_sorted (λ r. r.values.timestamp) counted s.values.amount
          ∙ ap₂ (λ p x. if p then some (s.values.amount +ℤ x) else none) d.1 d.0)
        (ap₂ less (fees at) (fees s.values.timestamp))
      ∙ book_raised s.values.amount m (sum_movements before) (all can_book before) owed
      ∙ ap (λ z. raised_by m (less z owed))
          (sym (book_sorted (λ r. r.values.timestamp) before s.values.amount))

  balance_with_raised :
      (rows : List Transaction) (last : ℕ) (db : Db)
      → KeepsCharged rows db
      → (prev : Option BalanceSnapshot) (inclusive : Bool) (entity currency at : ℕ)
        (ex' ex : Exclude) (m : ℤ)
      → ex'.transaction_id ≡ ex.transaction_id
      → Differ m
          (select (window c prev inclusive entity currency at ex') rows)
          (select (window c prev inclusive entity currency at ex) db.transactions)
      → balance_with c prev inclusive entity currency at ex' (with_rows rows last db)
        ≡ raised_by m (balance_with c prev inclusive entity currency at ex db)
  balance_with_raised rows last db k none inclusive entity currency at ex' ex m e d =
      from_start_raised rows last db k inclusive entity currency at ex' ex m e d
  balance_with_raised rows last db k (some s) inclusive entity currency at ex' ex m e d =
      since_raised rows last db k s entity currency at ex' ex m e d

  pub balance_raised :
      (rows : List Transaction) (last : ℕ) (db : Db)
      → KeepsCharged rows db
      → (inclusive : Bool) (entity currency at : ℕ) (ex' ex : Exclude) (m : ℤ)
      → ex'.transaction_id ≡ ex.transaction_id
      → Differ m
          (select
            (window c
              (get_previous_snapshot c entity currency at db)
              inclusive
              entity
              currency
              at
              ex')
            rows)
          (select
            (window c
              (get_previous_snapshot c entity currency at db)
              inclusive
              entity
              currency
              at
              ex)
            db.transactions)
      → get_balance_at_date c inclusive entity currency at ex' (with_rows rows last db)
        ≡ raised_by m (get_balance_at_date c inclusive entity currency at ex db)
  unfolding get_balance_at_date get_previous_snapshot
  balance_raised rows last db k inclusive entity currency at ex' ex m e d =
      balance_with_raised rows last db k (get_previous_snapshot c entity currency at db) inclusive
        entity currency at ex' ex m e d
