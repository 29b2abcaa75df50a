-- ===== src/Cash/Ledger/Calls.antt =====
-- create of transaction_svc.py refines the ledger: it appends a row, whatever the adjustments do beside it.
use personal_fin_hub.Base.{
  ℕ, ◌+◌, ◌≡◌, refl, ap, ◌∙◌, Bool, true, false, Option, none, some, [], ◌∷◌, ◌++◌, if◌then◌else◌,
  select, ℤ, ◌⊎◌, inl, inr, Bool-cases,
}
use personal_fin_hub.FiscalPeriods.Table.{RuleKey}
use personal_fin_hub.Cash.Data.{
  Context, TransactionCreate, Transaction, Db, fk_not_found, type_error, Result, ok, err,
}
use personal_fin_hub.Cash.Store
use personal_fin_hub.Cash.Store.{
  is_spend, is_adjustment, is_none, cash_pocket, is_transaction, rule_for, append_transaction,
  get_transaction, remove_links_for_transaction, delete_injection_if_unlinked, or_else,
}
use personal_fin_hub.Cash.Sums.{select-append}
use personal_fin_hub.Cash.Service.{
  TransactionResponse, committed, resolve_fks, resolved, ensure_amount, ensure_spend, link_spend,
  recalculate_unless_adjustment, answer, insert_spend, insert_after, create_on, create_transaction,
}
use personal_fin_hub.Cash.Ledger.{
  is_real, ledger, IsKeyed, Keeps, KeepsIf, Keeps-refl, KeepsIf-trans, append-IsKeyed,
}
use personal_fin_hub.Cash.Ledger.Steps.{recalculate-KeepsIf, ensure-KeepsIf}
use personal_fin_hub.Cash.Ledger.Refresh.{link_injection-Keeps}

module _ (c : Context) where
  pub if-Keeps : (b : Bool) (db d e : Db) → Keeps db d → Keeps db e → Keeps db (if b then d else e)
  if-Keeps true db d e h g = h
  if-Keeps false db d e h g = g

  pub if-KeepsIf :
      (b : Bool) (db : Db) (o p : Option Db)
      → KeepsIf db o
      → KeepsIf db p
      → KeepsIf db (if b then o else p)
  if-KeepsIf true db o p h g = h
  if-KeepsIf false db o p h g = g

  ensure_amount-KeepsIf :
      (v : TransactionCreate) (o : Option ℤ) (without : Option ℕ) (db : Db)
      → KeepsIf db (ensure_amount c v o without db)
  ensure_amount-KeepsIf v none without db = Keeps-refl db
  ensure_amount-KeepsIf v (some total) without db =
      ensure-KeepsIf c v.entity_id (cash_pocket v) v.timestamp (or_else v.gross_amount total)
        v.cash_handling without db

  pub ensure_spend-KeepsIf :
      (v : TransactionCreate) (without : Option ℕ) (db : Db)
      → KeepsIf db (ensure_spend c v without db)
  ensure_spend-KeepsIf v without db =
      if-KeepsIf (is_spend v.type_of) db _ _ (ensure_amount-KeepsIf v v.total_value without db)
        (Keeps-refl db)

  pub link_spend-Keeps :
      (v : TransactionCreate) (id : ℕ) (db : Db) → Keeps db (link_spend c v id db)
  link_spend-Keeps v id db =
      if-Keeps (is_spend v.type_of) db _ _
        (link_injection-Keeps c v.entity_id (cash_pocket v) v.timestamp id db) (Keeps-refl db)

  recalculate_unless-KeepsIf :
      (v : TransactionCreate) (db : Db) → KeepsIf db (recalculate_unless_adjustment c v db)
  recalculate_unless-KeepsIf v db =
      if-KeepsIf (is_adjustment v.type_of) db _ _ (Keeps-refl db)
        (recalculate-KeepsIf c v.entity_id (cash_pocket v) v.timestamp db)

  -- the row that a response speaks of
  abbrev pub IsRowOf : TransactionResponse → Transaction → Type 0
  IsRowOf r row = (row.id ≡ r.id) × (row.values ≡ r.values) × (row.profile_id ≡ c.profile_id)

  -- What create returns and leaves: one row more in the ledger, unless it is an adjustment, or the exception
  -- and the database as it was.
  abbrev pub Creates : TransactionCreate → Db → Result TransactionResponse × Db → Type 0
  Creates body db (ok r, db') =
      IsKeyed db'
      × (row : Transaction) × IsRowOf r row
      × (r.values ≡ resolved c body db)
      × (resolve_fks c body db ≡ false)
      × (ledger db' ≡ ledger db ++ select is_real (row ∷ []))
  Creates body db (err e, db') =
      (db' ≡ db)
      × ((resolve_fks c body db ≡ true) × (e ≡ fk_not_found)
          ⊎ (resolve_fks c body db ≡ false) × (e ≡ type_error))

  answer-Creates :
      (body v : TransactionCreate) (db d : Db) (rule : Option RuleKey) (o : Option Db)
      → resolve_fks c body db ≡ false
      → v ≡ resolved c body db
      → ledger d ≡ ledger db
      → IsKeyed (append_transaction c none rule v d).0
      → KeepsIf (append_transaction c none rule v d).0 o
      → Creates body db (committed (answer c (d.last_transaction + 1) v o) db)
  answer-Creates body v db d rule none known is same k keeps = (refl, inr (known, refl))
  answer-Creates body v db d rule (some db') known is same k keeps =
      let row : Transaction = record {
        id = d.last_transaction + 1;
        profile_id = c.profile_id;
        balance_snapshot_id = none;
        fiscal_rule = rule;
        values = v;
      } in
      let kept = keeps k in
      (
        kept.0,
        row,
        (refl, refl, refl),
        is,
        known,
        kept.1
            ∙ select-append is_real d.transactions (row ∷ [])
            ∙ ap (λ l. l ++ select is_real (row ∷ [])) same,
      )

  insert-Creates :
      (body v : TransactionCreate) (db : Db) (o : Option Db)
      → resolve_fks c body db ≡ false
      → v ≡ resolved c body db
      → IsKeyed db
      → KeepsIf db o
      → Creates body db (committed (insert_after c v o) db)
  unfolding insert_spend Store.create_transaction
  insert-Creates body v db none known is k keeps = (refl, inr (known, refl))
  insert-Creates body v db (some d) known is k keeps =
      let kept = keeps k in
      let made = append_transaction c none (rule_for c v d) v d in
      answer-Creates body v db d (rule_for c v d)
        (recalculate_unless_adjustment c v (link_spend c v made.1 made.0)) known is kept.1
        (append-IsKeyed c none (rule_for c v d) v d kept.0)
        (KeepsIf-trans made.0 (link_spend c v made.1 made.0)
          (recalculate_unless_adjustment c v (link_spend c v made.1 made.0))
          (link_spend-Keeps v made.1 made.0)
          (recalculate_unless-KeepsIf v (link_spend c v made.1 made.0)))

  -- On a table whose ids are unique and known, create keeps them so and either appends the row that it returns
  -- to the transactions that are no adjustments (if it is none itself) and changes no other of them, or
  -- raises FKNotFound, if something the body refers to is missing, or TypeError, if not, and changes nothing.
  pub create_transaction-Creates :
      (body : TransactionCreate) (db : Db)
      → IsKeyed db
      → Creates body db (create_transaction c body db)
  unfolding create_transaction create_on
  create_transaction-Creates body db k = elim (Bool-cases (resolve_fks c body db)) [
    | inl missing ↦ rw missing (refl, inl (missing, refl))
    | inr known ↦
        let v = resolved c body db in
        rw known (
          insert-Creates body v db (ensure_spend c v none db) known refl k
            (ensure_spend-KeepsIf v none db))
  ]
