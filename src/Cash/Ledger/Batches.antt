-- ===== src/Cash/Ledger/Batches.antt =====
-- Batches and transactions with charges (transaction_batch_svc.py and transaction_full_svc.py) refine the
-- ledger: all rows at its end, or nothing.
use personal_fin_hub.Base.{
  ℕ, ◌≡◌, refl, sym, ap, ◌∙◌, Option, none, some, List, [], ◌∷◌, ◌++◌, ℤ, ◌==◌, select, inl, inr,
  Bool-cases,
}
use personal_fin_hub.Cash.Data.{
  Context, TransactionCreate, Transaction, TransactionTaxCreate, Db, Result, ok, err,
}
use personal_fin_hub.Cash.Store.{is_none, get_transaction}
use personal_fin_hub.Cash.Adjustments.{reconcile_after_fee_change}
use personal_fin_hub.Cash.Sums.{select-append}
use personal_fin_hub.Cash.Rows.Selections.{append_nil}
use personal_fin_hub.Cash.Service.{
  TransactionResponse, committed, with_value, convert_to, resolve_payment,
  resolve_investment_fields, resolve_fx_fields, resolved, create_on,
}
use personal_fin_hub.Cash.Charges.{
  TransactionFeeResponse, TransactionTaxResponse, create_tax, add_fee_on, add_tax_on,
}
use personal_fin_hub.Cash.Transfers.{TransactionFeeInner, ◌>>=◌}
use personal_fin_hub.Cash.Wholes.{
  TransactionTaxInner, FullTransactionCreate, FullTransactionResponse, full_fee, full_tax,
  full_fees, full_taxes, with_charges, create_full, create_all, create_batch,
}
use personal_fin_hub.Cash.Ledger.{is_real, ledger, IsKeyed, Keeps, KeepsIf, Keeps-refl, Keeps-trans}
use personal_fin_hub.Cash.Ledger.Refresh.{reconcile-KeepsIf}
use personal_fin_hub.Cash.Ledger.Calls.{IsRowOf}
use personal_fin_hub.Cash.Ledger.Legs.{
  KeepsResult, charge_answer-Keeps, add_fee-Keeps, bind-Keeps, created,
}

append_assoc : (xs ys zs : List Transaction) → (xs ++ ys) ++ zs ≡ xs ++ (ys ++ zs)
append_assoc [] ys zs = refl
append_assoc (x ∷ xs) ys zs = ap (λ l. x ∷ l) (append_assoc xs ys zs)

module _ (c : Context) where
  -- The rows of a list of responses, to a list of bodies.
  abbrev pub AreRowsOf :
      List TransactionCreate → List TransactionResponse → List Transaction → Type 0
  AreRowsOf [] [] [] = Unit
  AreRowsOf (body ∷ bodies) (r ∷ rs) (row ∷ rows) =
      IsRowOf c r row × (row.values.type_of ≡ body.type_of) × AreRowsOf bodies rs rows
  AreRowsOf _ _ _ = ⊥

  abbrev Appends : List TransactionCreate → Db → Result (List TransactionResponse × Db) → Type 0
  Appends bodies db (ok (rs, db')) =
      IsKeyed db'
      × (rows : List Transaction) × AreRowsOf bodies rs rows
      × (ledger db' ≡ ledger db ++ select is_real rows)
  Appends bodies db (err e) = Unit

  -- What a batch returns and leaves: a row for each body in its order, of which those that are no adjustments
  -- are at the end of the ledger, or an exception and the database as it was.
  abbrev pub Batched : List TransactionCreate → Db → Result (List TransactionResponse) × Db → Type 0
  Batched bodies db (ok rs, db') =
      IsKeyed db'
      × (rows : List Transaction) × AreRowsOf bodies rs rows
      × (ledger db' ≡ ledger db ++ select is_real rows)
  Batched bodies db (err e, db') = db' ≡ db

  convert_type :
      (body : TransactionCreate) (payment : ℕ) (total : Option ℤ) (db : Db)
      → (convert_to c body payment total db).type_of ≡ body.type_of
  convert_type body payment none db = refl
  convert_type body payment (some total) db = refl

  payment_type :
      (body : TransactionCreate) (payment : Option ℕ) (db : Db)
      → (resolve_payment c body payment db).type_of ≡ body.type_of
  payment_type body none db = refl
  payment_type body (some payment) db = elim (Bool-cases (payment == body.currency)) [
    | inl same ↦ rw same refl
    | inr other ↦ rw other (convert_type body payment body.total_value db)
  ]

  value_type :
      (body : TransactionCreate) (total : Option ℤ) → (with_value body total).type_of ≡ body.type_of
  value_type body none = refl
  value_type body (some total) = refl

  -- No step of create changes the type.
  resolved_type : (body : TransactionCreate) (db : Db) → (resolved c body db).type_of ≡ body.type_of
  unfolding resolved resolve_fx_fields
  resolved_type body db =
      let filled = with_value body (resolve_investment_fields c body).2 in
      payment_type filled filled.payment_currency db
      ∙ value_type body (resolve_investment_fields c body).2

  prepend :
      (body : TransactionCreate) (bodies : List TransactionCreate) (db d : Db)
      (r : TransactionResponse) (rest : Result (List TransactionResponse × Db))
      → IsKeyed db
      → create_on c body db ≡ ok (r, d)
      → Appends bodies d rest
      → Appends (body ∷ bodies) db (rest >>= λ rs e. ok (r ∷ rs, e))
  prepend body bodies db d r (err x) k e h = tt
  prepend body bodies db d r (ok (rs, d')) k e h =
      let (k₁, row, is, values, known, appended) = created c body db d r k e in
      let (k₂, rows, are, more) = h in
      (
        k₂,
        row ∷ rows,
        (is, ap (λ v. v.type_of) (is.1 ∙ values) ∙ resolved_type body db, are),
        more
            ∙ ap (λ l. l ++ select is_real rows) appended
            ∙ append_assoc (ledger db) (select is_real (row ∷ [])) (select is_real rows)
            ∙ ap (λ l. ledger db ++ l) (sym (select-append is_real (row ∷ []) rows)),
      )

  all_after :
      (body : TransactionCreate) (bodies : List TransactionCreate) (db : Db)
      (r : Result (TransactionResponse × Db))
      → IsKeyed db
      → create_on c body db ≡ r
      → ((d : Db) → IsKeyed d → Appends bodies d (create_all c bodies d))
      → Appends (body ∷ bodies) db (r >>= λ a d. create_all c bodies d >>= λ rs e. ok (a ∷ rs, e))
  all_after body bodies db (err x) k e onward = tt
  all_after body bodies db (ok (a, d)) k e onward =
      prepend body bodies db d a (create_all c bodies d) k e
        (onward d (created c body db d a k e).0)

  create_all-Appends :
      (bodies : List TransactionCreate) (db : Db)
      → IsKeyed db
      → Appends bodies db (create_all c bodies db)
  unfolding create_all
  create_all-Appends [] db k = (k, [], tt, sym (append_nil (ledger db)))
  create_all-Appends (body ∷ bodies) db k =
      all_after body bodies db (create_on c body db) k refl (λ d k'. create_all-Appends bodies d k')

  batched :
      (bodies : List TransactionCreate) (db : Db) (r : Result (List TransactionResponse × Db))
      → Appends bodies db r
      → Batched bodies db (committed r db)
  batched bodies db (ok (rs, d)) h = h
  batched bodies db (err e) h = refl

  -- On a table whose ids are unique and known, a batch keeps them so and either creates one row of each body's
  -- type, in their order, and appends those that are no adjustments to the transactions of that kind, of
  -- which it changes no other, or raises and leaves the database as it was.
  pub create_batch-Batched :
      (bodies : List TransactionCreate) (db : Db)
      → IsKeyed db
      → Batched bodies db (create_batch c bodies db)
  unfolding create_batch
  create_batch-Batched bodies db k =
      batched bodies db (create_all c bodies db) (create_all-Appends bodies db k)

  add_tax-Keeps : (body : TransactionTaxCreate) (db : Db) → KeepsResult db (add_tax_on c body db)
  unfolding add_tax_on create_tax
  add_tax-Keeps body db = elim (Bool-cases (is_none (get_transaction c body.transaction_id db))) [
    | inl missing ↦ rw missing tt
    | inr known ↦
        let made = create_tax c body db in
        let response : TransactionTaxResponse = record { id = made.1; values = body } in
        rw known (
          charge_answer-Keeps response db (reconcile_after_fee_change c body.transaction_id made.0)
            (keep_from (reconcile_after_fee_change c body.transaction_id made.0)
              (reconcile-KeepsIf c body.transaction_id made.0)))
  ]
    where
      keep_from : (o : Option Db) → KeepsIf (create_tax c body db).0 o → KeepsIf db o
      keep_from none h = tt
      keep_from (some d) h = h

  full_fees-Keeps :
      (tx : ℕ) (fs : List TransactionFeeInner) (db : Db) → KeepsResult db (full_fees c tx fs db)
  unfolding full_fees
  full_fees-Keeps tx [] db = Keeps-refl db
  full_fees-Keeps tx (f ∷ fs) db =
      bind-Keeps c db (add_fee_on c (full_fee tx f) db)
        (λ r d. full_fees c tx fs d >>= λ rs e. ok (r ∷ rs, e)) (add_fee-Keeps c (full_fee tx f) db)
        (λ r d.
          bind-Keeps c d (full_fees c tx fs d) (λ rs e. ok (r ∷ rs, e)) (full_fees-Keeps tx fs d)
            (λ rs e. Keeps-refl e))

  full_taxes-Keeps :
      (tx : ℕ) (ts : List TransactionTaxInner) (db : Db) → KeepsResult db (full_taxes c tx ts db)
  unfolding full_taxes
  full_taxes-Keeps tx [] db = Keeps-refl db
  full_taxes-Keeps tx (t ∷ ts) db =
      bind-Keeps c db (add_tax_on c (full_tax tx t) db)
        (λ r d. full_taxes c tx ts d >>= λ rs e. ok (r ∷ rs, e)) (add_tax-Keeps (full_tax tx t) db)
        (λ r d.
          bind-Keeps c d (full_taxes c tx ts d) (λ rs e. ok (r ∷ rs, e)) (full_taxes-Keeps tx ts d)
            (λ rs e. Keeps-refl e))

  -- What a full creation returns and leaves: the transaction's row at the end of the ledger, or an exception
  -- and the database as it was.
  abbrev pub FullyMade : FullTransactionCreate → Db → Result FullTransactionResponse × Db → Type 0
  FullyMade body db (ok r, db') =
      IsKeyed db'
      × (row : Transaction) × IsRowOf c r.transaction row
      × (r.transaction.values ≡ resolved c body.transaction db)
      × (ledger db' ≡ ledger db ++ select is_real (row ∷ []))
  FullyMade body db (err e, db') = db' ≡ db

  with_taxes :
      (body : FullTransactionCreate) (db d₁ d₂ : Db) (tx : TransactionResponse)
      (fees : List TransactionFeeResponse) (taxes : Result (List TransactionTaxResponse × Db))
      → IsKeyed db
      → create_on c body.transaction db ≡ ok (tx, d₁)
      → Keeps d₁ d₂
      → KeepsResult d₂ taxes
      → FullyMade body db (
          committed
            (taxes >>= λ ts d₃. ok (record { transaction = tx; fees = fees; taxes = ts }, d₃))
            db)
  with_taxes body db d₁ d₂ tx fees (err x) k e h g = refl
  with_taxes body db d₁ d₂ tx fees (ok (ts, d₃)) k e h g =
      let (k₁, row, is, values, known, appended) = created c body.transaction db d₁ tx k e in
      let kept = Keeps-trans d₁ d₂ d₃ h g k₁ in (kept.0, row, is, values, kept.1 ∙ appended)

  with_fees :
      (body : FullTransactionCreate) (db d₁ : Db) (tx : TransactionResponse)
      (fees : Result (List TransactionFeeResponse × Db))
      → IsKeyed db
      → create_on c body.transaction db ≡ ok (tx, d₁)
      → KeepsResult d₁ fees
      → FullyMade body db (
          committed
            (fees >>= λ fs d₂. full_taxes c tx.id body.taxes d₂ >>= λ ts d₃.
              ok (record { transaction = tx; fees = fs; taxes = ts }, d₃))
            db)
  with_fees body db d₁ tx (err x) k e h = refl
  with_fees body db d₁ tx (ok (fs, d₂)) k e h =
      with_taxes body db d₁ d₂ tx fs (full_taxes c tx.id body.taxes d₂) k e h
        (full_taxes-Keeps tx.id body.taxes d₂)

  with_transaction :
      (body : FullTransactionCreate) (db : Db) (r : Result (TransactionResponse × Db))
      → IsKeyed db
      → create_on c body.transaction db ≡ r
      → FullyMade body db (committed (r >>= λ tx d₁. with_charges c body tx d₁) db)
  unfolding with_charges
  with_transaction body db (err x) k e = refl
  with_transaction body db (ok (tx, d₁)) k e =
      with_fees body db d₁ tx (full_fees c tx.id body.fees d₁) k e
        (full_fees-Keeps tx.id body.fees d₁)

  -- On a table whose ids are unique and known, the creation of a transaction with its fees and taxes keeps them
  -- so and either appends its row to the transactions that are no adjustments (if it is none itself) and
  -- changes no other of them, or raises, at whatever fee or tax, and leaves the database as it was.
  pub create_full-FullyMade :
      (body : FullTransactionCreate) (db : Db)
      → IsKeyed db
      → FullyMade body db (create_full c body db)
  unfolding create_full
  create_full-FullyMade body db k =
      with_transaction body db (create_on c body.transaction db) k refl
