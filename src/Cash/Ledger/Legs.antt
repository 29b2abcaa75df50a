-- ===== src/Cash/Ledger/Legs.antt =====
-- A transfer (transfer_svc.py) refines the ledger: it appends both of its legs or nothing.
use personal_fin_hub.Base.{
  ℕ, ◌≡◌, refl, subst, ap, ap₂, ◌∙◌, Bool, true, false, Option, none, some, List, [], ◌∷◌, ◌++◌,
  if◌then◌else◌, select, ℤ, inl, inr, Bool-cases,
}
use personal_fin_hub.Pnl.Lots.{TransactionType, transfer_in, transfer_out}
use personal_fin_hub.Cash.Data.{
  Context, BalanceMode, TransactionCreate, Transaction, TransactionFeeCreate, Db, Result, ok, err,
}
use personal_fin_hub.Cash.Store.{is_adjustment, is_none, get_transaction}
use personal_fin_hub.Cash.Adjustments.{reconcile_after_fee_change}
use personal_fin_hub.Cash.Service.{
  TransactionResponse, committed, is_zero, is_trade, resolve_investment_fields, resolve_fx_fields,
  fill_in, resolved, create_on, create_transaction,
}
use personal_fin_hub.Cash.Charges.{TransactionFeeResponse, create_fee, charge_answer, add_fee_on}
use personal_fin_hub.Cash.Transfers.{
  TransactionFeeInner, TransferCreate, TransferResponse, leg, fee_of, ◌>>=◌, create_fees,
  is_unknown, transfer_on, create_transfer,
}
use personal_fin_hub.Cash.Ledger.{is_real, ledger, IsKeyed, Keeps, KeepsIf, Keeps-refl, Keeps-trans}
use personal_fin_hub.Cash.Ledger.Refresh.{reconcile-KeepsIf}
use personal_fin_hub.Cash.Ledger.Calls.{Creates, IsRowOf, create_transaction-Creates}

abbrev pub KeepsResult : {A : Type 0} → Db → Result (A × Db) → Type 0
KeepsResult db (ok (a, d)) = Keeps db d
KeepsResult db (err e) = Unit

pub charge_answer-Keeps :
    {A : Type 0} (a : A) (db : Db) (o : Option Db)
    → KeepsIf db o
    → KeepsResult db (charge_answer a o)
charge_answer-Keeps a db none h = tt
charge_answer-Keeps a db (some d) h = h

module _ (c : Context) where
  pub add_fee-Keeps :
      (body : TransactionFeeCreate) (db : Db) → KeepsResult db (add_fee_on c body db)
  unfolding add_fee_on create_fee
  add_fee-Keeps body db = elim (Bool-cases (is_none (get_transaction c body.transaction_id db))) [
    | inl missing ↦ rw missing tt
    | inr known ↦
        let made = create_fee c body db in
        let response : TransactionFeeResponse = record { id = made.1; values = body } in
        rw known (
          charge_answer-Keeps response db (reconcile_after_fee_change c body.transaction_id made.0)
            (keep_from (reconcile_after_fee_change c body.transaction_id made.0)
              (reconcile-KeepsIf c body.transaction_id made.0)))
  ]
    where
      keep_from : (o : Option Db) → KeepsIf (create_fee c body db).0 o → KeepsIf db o
      keep_from none h = tt
      keep_from (some d) h = h

  -- a sequence of two steps that keep the ledger
  pub bind-Keeps :
      {A B : Type 0} (db : Db) (r : Result (A × Db)) (f : A → Db → Result (B × Db))
      → KeepsResult db r
      → ((a : A) (d : Db) → KeepsResult d (f a d))
      → KeepsResult db (r >>= f)
  bind-Keeps db (err e) f h g = tt
  bind-Keeps db (ok (a, d)) f h g = join (f a d) (g a d)
    where
      join : {B : Type 0} (r : Result (B × Db)) → KeepsResult d r → KeepsResult db r
      join (err e) k = tt
      join (ok (b, e)) k = Keeps-trans db d e h k

  create_fees-Keeps :
      (tx : ℕ) (fs : List TransactionFeeInner) (db : Db) → KeepsResult db (create_fees c tx fs db)
  unfolding create_fees
  create_fees-Keeps tx [] db = Keeps-refl db
  create_fees-Keeps tx (f ∷ fs) db =
      bind-Keeps db (add_fee_on c (fee_of tx f) db)
        (λ r d. create_fees c tx fs d >>= λ rs e. ok (r ∷ rs, e)) (add_fee-Keeps (fee_of tx f) db)
        (λ r d.
          bind-Keeps d (create_fees c tx fs d) (λ rs e. ok (r ∷ rs, e)) (create_fees-Keeps tx fs d)
            (λ rs e. Keeps-refl e))

  -- What one call of create_on does, where it returns.
  pub created :
      (body : TransactionCreate) (db d : Db) (r : TransactionResponse)
      → IsKeyed db
      → create_on c body db ≡ ok (r, d)
      → Creates c body db (ok r, d)
  unfolding create_transaction
  created body db d r k e =
      subst (Creates c body db) (ap (λ x. committed x db) e)
        (create_transaction-Creates c body db k)

  fields_of :
      (type : TransactionType) (entity : ℕ) (mode : Option BalanceMode) (body : TransferCreate)
      → is_trade type ≡ false
      → resolve_investment_fields c (leg type entity mode body) ≡ (none, none, some body.amount)
  unfolding resolve_investment_fields
  fields_of type entity mode body e = rw e refl

  -- A leg is written as it is given: no field of it is computed.
  resolved-leg :
      (type : TransactionType) (entity : ℕ) (mode : Option BalanceMode) (body : TransferCreate)
      (db : Db)
      → is_trade type ≡ false
      → resolved c (leg type entity mode body) db ≡ leg type entity mode body
  unfolding resolved resolve_investment_fields resolve_fx_fields
  resolved-leg type entity mode body db e =
      let given = leg type entity mode body in
      ap (λ fields. fill_in c given fields db) (fields_of type entity mode body e)
      ∙ ap (λ t. record given { total_value = t }) (either (is_zero body.amount) (some body.amount))
    where
      either : (b : Bool) (t : Option ℤ) → (if b then t else t) ≡ t
      either true t = refl
      either false t = refl

  -- What a transfer returns and leaves: both legs at the end of the ledger, or an exception and the database as
  -- it was.
  abbrev pub Transfers : TransferCreate → Db → Result TransferResponse × Db → Type 0
  Transfers body db (ok r, db') =
      IsKeyed db'
      × (out into : Transaction) × IsRowOf c r.from_transaction out
      × IsRowOf c r.to_transaction into
      × (out.values ≡ leg transfer_out body.from_entity_id body.cash_handling body)
      × (into.values ≡ leg transfer_in body.to_entity_id none body)
      × (ledger db' ≡ ledger db ++ out ∷ into ∷ [])
  Transfers body db (err e, db') = db' ≡ db

  abbrev out_leg : TransferCreate → TransactionCreate
  out_leg body = leg transfer_out body.from_entity_id body.cash_handling body

  abbrev in_leg : TransferCreate → TransactionCreate
  in_leg body = leg transfer_in body.to_entity_id none body

  with_fees :
      (body : TransferCreate) (db d₁ d₂ : Db) (out into : TransactionResponse)
      (fees : Result (List TransactionFeeResponse × Db))
      → IsKeyed db
      → create_on c (out_leg body) db ≡ ok (out, d₁)
      → create_on c (in_leg body) d₁ ≡ ok (into, d₂)
      → KeepsResult d₂ fees
      → Transfers body db (
          committed
            (fees >>= λ fs d₃.
              ok (record { from_transaction = out; to_transaction = into; fees = fs }, d₃))
            db)
  with_fees body db d₁ d₂ out into (err e) k e₁ e₂ h = refl
  with_fees body db d₁ d₂ out into (ok (fs, d₃)) k e₁ e₂ h =
      let first = created (out_leg body) db d₁ out k e₁ in
      let (k₁, row₁, is₁, values₁, known₁, appended₁) = first in
      let (k₂, row₂, is₂, values₂, known₂, appended₂) = created (in_leg body) d₁ d₂ into k₁ e₂ in
      let kept = h k₂ in
      let out_values =
        is₁.1
        ∙ values₁
        ∙ resolved-leg transfer_out body.from_entity_id body.cash_handling body db refl in
      let in_values =
        is₂.1 ∙ values₂ ∙ resolved-leg transfer_in body.to_entity_id none body d₁ refl in
      (
        kept.0,
        row₁,
        row₂,
        is₁,
        is₂,
        out_values,
        in_values,
        kept.1
            ∙ appended₂
            ∙ ap₂ (λ l r. l ++ r) appended₁
                (real_row row₂ (ap (λ v. is_adjustment v.type_of) in_values))
            ∙ ap (λ r. (ledger db ++ r) ++ row₂ ∷ [])
                (real_row row₁ (ap (λ v. is_adjustment v.type_of) out_values))
            ∙ append_pair (ledger db) row₁ row₂,
      )
    where
      real_row :
          (row : Transaction)
          → is_adjustment row.values.type_of ≡ false
          → select is_real (row ∷ []) ≡ row ∷ []
      real_row row e = rw e refl

      append_pair :
          (l : List Transaction) (x y : Transaction) → (l ++ x ∷ []) ++ y ∷ [] ≡ l ++ x ∷ y ∷ []
      append_pair [] x y = refl
      append_pair (z ∷ l) x y = ap (λ r. z ∷ r) (append_pair l x y)

  with_in :
      (body : TransferCreate) (db d₁ : Db) (out : TransactionResponse)
      (r : Result (TransactionResponse × Db))
      → IsKeyed db
      → create_on c (out_leg body) db ≡ ok (out, d₁)
      → create_on c (in_leg body) d₁ ≡ r
      → Transfers body db (
          committed
            (r >>= λ into d₂. create_fees c out.id body.fees d₂ >>= λ fs d₃.
              ok (record { from_transaction = out; to_transaction = into; fees = fs }, d₃))
            db)
  with_in body db d₁ out (err e) k e₁ e₂ = refl
  with_in body db d₁ out (ok (into, d₂)) k e₁ e₂ =
      with_fees body db d₁ d₂ out into (create_fees c out.id body.fees d₂) k e₁ e₂
        (create_fees-Keeps out.id body.fees d₂)

  with_out :
      (body : TransferCreate) (db : Db) (r : Result (TransactionResponse × Db))
      → IsKeyed db
      → create_on c (out_leg body) db ≡ r
      → Transfers body db (
          committed
            (r >>= λ out d₁. create_on c (in_leg body) d₁ >>= λ into d₂.
              create_fees c out.id body.fees d₂ >>= λ fs d₃.
              ok (record { from_transaction = out; to_transaction = into; fees = fs }, d₃))
            db)
  with_out body db (err e) k e₁ = refl
  with_out body db (ok (out, d₁)) k e₁ =
      with_in body db d₁ out (create_on c (in_leg body) d₁) k e₁ refl

  -- On a table whose ids are unique and known, a transfer either appends both legs, with the amount, currency
  -- and time of the body, to the transactions that are no adjustments and changes no other of them, whatever
  -- its fees make the adjustments do, or raises and leaves the database as it was.
  pub create_transfer-Transfers :
      (body : TransferCreate) (db : Db) → IsKeyed db → Transfers body db (create_transfer c body db)
  unfolding create_transfer transfer_on
  create_transfer-Transfers body db k = elim (Bool-cases (is_unknown c body db)) [
    | inl unknown ↦ rw unknown refl
    | inr known ↦ rw known (with_out body db (create_on c (out_leg body) db) k refl)
  ]
