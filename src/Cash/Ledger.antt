-- ===== src/Cash/Ledger.antt =====
-- The abstract ledger: the transactions that are no adjustments. What the adjustments of transaction_svc.py do
-- to the table leaves it as it is.
pub mod Steps
pub mod Refresh
pub mod Calls
pub mod Edits
pub mod Deletes
pub mod Legs
pub mod Others
pub mod Batches
use personal_fin_hub.Base.{
  ℕ, ◌+◌, ◌≡◌, refl, sym, subst, ap, ap₂, ◌∙◌, Bool, true, false, not, ◌&&◌, ◌||◌, Option, none,
  some, List, [], ◌∷◌, ◌++◌, leb, ◌==◌, if◌then◌else◌, any, all, select, map, ℤ, any-false_mono,
  inl, inr, Bool-cases, Option-cases, or_false, arith,
}
use personal_fin_hub.FiscalPeriods.Table.{fetchone}
use personal_fin_hub.Cash.Data.{Context, Note, TransactionCreate, Transaction, Db}
use personal_fin_hub.Cash.Store.{
  is_adjustment, owned, is_transaction, map_transaction, with_amount, update_adjustment_transaction,
  create_adjustment_transaction, delete_transaction, is_injection, delete_injection_if_unlinked,
  append_transaction,
}
use personal_fin_hub.Cash.Sums.{all-append, select-append}
use personal_fin_hub.Cash.Rows.Selections.{append_nil}
use personal_fin_hub.Cash.Rows.{Distinct, Found, any-append, Distinct-around}

abbrev pub is_real : Transaction → Bool
is_real r = not (is_adjustment r.values.type_of)

-- what the adjustments stand beside
abbrev pub ledger : Db → List Transaction
ledger db = select is_real db.transactions

-- Ids are unique, and the last one given is the largest.
abbrev pub IsKeyed : Db → Type 0
IsKeyed db =
    Distinct db.transactions × (all (λ r. leb r.id db.last_transaction) db.transactions ≡ true)

-- A step that keeps ids in order and the ledger as it is.
abbrev pub Keeps : Db → Db → Type 0
Keeps db db' = IsKeyed db → IsKeyed db' × (ledger db' ≡ ledger db)

abbrev pub KeepsIf : Db → Option Db → Type 0
KeepsIf db none = Unit
KeepsIf db (some db') = Keeps db db'

pub Keeps-refl : (db : Db) → Keeps db db
Keeps-refl db k = (k, refl)

pub Keeps-trans : (a b d : Db) → Keeps a b → Keeps b d → Keeps a d
Keeps-trans a b d h g k = let hk = h k in let gk = g hk.0 in (gk.0, gk.1 ∙ hk.1)

pub KeepsIf-trans : (a b : Db) (o : Option Db) → Keeps a b → KeepsIf b o → KeepsIf a o
KeepsIf-trans a b none h g = tt
KeepsIf-trans a b (some d) h g = Keeps-trans a b d h g

module _ (g : Transaction → Transaction) (same : (r : Transaction) → (g r).id ≡ r.id) where
  any-id-map :
      (n : ℕ) (rows : List Transaction)
      → any (λ q. q.id == n) (map g rows) ≡ any (λ q. q.id == n) rows
  any-id-map n [] = refl
  any-id-map n (r ∷ rows) = ap₂ (λ i b. i == n || b) (same r) (any-id-map n rows)

  pub Distinct-map : (rows : List Transaction) → Distinct rows → Distinct (map g rows)
  Distinct-map [] d = tt
  Distinct-map (r ∷ rows) d = (
    ap (λ n. any (λ q. q.id == n) (map g rows)) (same r) ∙ any-id-map r.id rows ∙ d.0,
    Distinct-map rows d.1,
  )

  pub all-known-map :
      (last : ℕ) (rows : List Transaction)
      → all (λ r. leb r.id last) (map g rows) ≡ all (λ r. leb r.id last) rows
  all-known-map last [] = refl
  all-known-map last (r ∷ rows) = ap₂ (λ i b. leb i last && b) (same r) (all-known-map last rows)

module _ (p : Transaction → Bool) where
  any-select_weaker :
      (q : Transaction → Bool) (rows : List Transaction)
      → any q rows ≡ false
      → any q (select p rows) ≡ false
  any-select_weaker q [] e = refl
  any-select_weaker q (r ∷ rows) e = ground (arith, any-select_weaker q rows)

  pub Distinct-select : (rows : List Transaction) → Distinct rows → Distinct (select p rows)
  Distinct-select [] d = tt
  Distinct-select (r ∷ rows) d = elim (Bool-cases (p r)) [
    | inl e ↦ rw e (any-select_weaker (λ q. q.id == r.id) rows d.0, Distinct-select rows d.1)
    | inr e ↦ rw e (Distinct-select rows d.1)
  ]

  pub all-known-select :
      (last : ℕ) (rows : List Transaction)
      → all (λ r. leb r.id last) rows ≡ true
      → all (λ r. leb r.id last) (select p rows) ≡ true
  all-known-select last [] e = refl
  all-known-select last (r ∷ rows) e = ground (arith, all-known-select last rows)

fresh :
    (last : ℕ) (rows : List Transaction)
    → all (λ r. leb r.id last) rows ≡ true
    → any (λ q. q.id == last + 1) rows ≡ false
fresh last [] e = refl
fresh last (r ∷ rows) e = ground (arith, fresh last rows)

Distinct-append :
    (last : ℕ) (rows : List Transaction) (new : Transaction)
    → new.id ≡ last + 1
    → all (λ r. leb r.id last) rows ≡ true
    → Distinct rows
    → Distinct (rows ++ new ∷ [])
Distinct-append last [] new e k d = (refl, tt)
Distinct-append last (r ∷ rows) new e k d = (
  any-append (λ q. q.id == r.id) rows (new ∷ []) ∙ or_false _ _ d.0 (ground (arith, k, e)),
  Distinct-append last rows new e (ground (arith, k)) d.1,
)

all-known-append :
    (last : ℕ) (rows : List Transaction) (new : Transaction)
    → new.id ≡ last + 1
    → all (λ r. leb r.id last) rows ≡ true
    → all (λ r. leb r.id (last + 1)) (rows ++ new ∷ []) ≡ true
all-known-append last [] new e k = ground (arith, e)
all-known-append last (r ∷ rows) new e k = ground (arith, e, all-known-append last rows new e)

real-drop :
    (id : ℕ) (rows : List Transaction)
    → select is_real (select (λ r. not (is_injection id r)) rows) ≡ select is_real rows
real-drop id [] = refl
real-drop id (r ∷ rows) = ground (arith, real-drop id rows)

delete_rows-Keeps :
    (b : Bool) (id : ℕ) (db : Db)
    → Keeps db (
        if b
        then db
        else record db { transactions = select (λ r. not (is_injection id r)) db.transactions })
delete_rows-Keeps true id db k = (k, refl)
delete_rows-Keeps false id db k = (
  (
    Distinct-select _ db.transactions k.0,
    all-known-select _ db.last_transaction db.transactions k.1,
  ),
  real-drop id db.transactions,
)

pub delete_injection-Keeps : (id : ℕ) (db : Db) → Keeps db (delete_injection_if_unlinked id db)
unfolding delete_injection_if_unlinked
delete_injection-Keeps id db =
    delete_rows-Keeps (any (λ l. l.balance_adjustment_id == id) db.links) id db

module _ (c : Context) where
  -- An INSERT gives a fresh id, and adds its row to the ledger if it is real.
  pub append-IsKeyed :
      (snapshot : Option ℕ) (rule : Option _) (v : TransactionCreate) (db : Db)
      → IsKeyed db
      → IsKeyed (append_transaction c snapshot rule v db).0
  append-IsKeyed snapshot rule v db k = (
    Distinct-append db.last_transaction db.transactions _ refl k.1 k.0,
    all-known-append db.last_transaction db.transactions _ refl k.1,
  )

  pub create_adjustment-Keeps :
      (entity currency : ℕ) (amount : ℤ) (at : ℕ) (snapshot : Option ℕ) (note : Note) (db : Db)
      → Keeps db (create_adjustment_transaction c entity currency amount at snapshot note db).0
  unfolding create_adjustment_transaction
  create_adjustment-Keeps entity currency amount at snapshot note db k = (
    append-IsKeyed snapshot none _ db k,
    select-append is_real db.transactions _ ∙ append_nil (ledger db),
  )

  -- The rows that an id and the profile hit are adjustments.
  abbrev pub HitsAdjustments : ℕ → List Transaction → Type 0
  HitsAdjustments id rows =
      all (λ r. not (is_transaction c id r) || is_adjustment r.values.type_of) rows ≡ true

  unhit :
      (id : ℕ) (rows : List Transaction)
      → any (λ q. q.id == id) rows ≡ false
      → HitsAdjustments id rows
  unhit id [] e = refl
  unhit id (r ∷ rows) e = ground (arith, unhit id rows)

  HitsAdjustments-Found :
      (p : Transaction → Bool) (rows : List Transaction) (adj : Transaction)
      → Found p rows adj
      → is_adjustment adj.values.type_of ≡ true
      → Distinct rows
      → HitsAdjustments adj.id rows
  HitsAdjustments-Found p rows adj f e d =
      let around = Distinct-around f.before f.after adj (subst Distinct f.split d) in
      let hits =
        λ (r : Transaction). not (is_transaction c adj.id r) || is_adjustment r.values.type_of in
      ap (all hits) f.split
      ∙ all-append hits f.before (adj ∷ f.after)
      ∙ ground (arith, unhit adj.id f.before around.0, unhit adj.id f.after around.1, e)

  real-map :
      (amount : ℤ) (note : Note) (id : ℕ) (rows : List Transaction)
      → HitsAdjustments id rows
      → select is_real
          (map (λ r. if is_transaction c id r then with_amount amount note r else r) rows)
        ≡ select is_real rows
  real-map amount note id [] h = refl
  real-map amount note id (r ∷ rows) h = ground (arith, real-map amount note id rows)

  real-delete :
      (id : ℕ) (rows : List Transaction)
      → HitsAdjustments id rows
      → select is_real (select (λ r. not (is_transaction c id r)) rows) ≡ select is_real rows
  real-delete id [] h = refl
  real-delete id (r ∷ rows) h = ground (arith, real-delete id rows)

  pub update_adjustment-Keeps :
      (p : Transaction → Bool) (adj : Transaction) (amount : ℤ) (note : Note) (db : Db)
      → Found p db.transactions adj
      → is_adjustment adj.values.type_of ≡ true
      → Keeps db (update_adjustment_transaction c adj.id amount note db)
  unfolding update_adjustment_transaction
  update_adjustment-Keeps p adj amount note db f e k =
      let g =
        λ (r : Transaction). if is_transaction c adj.id r then with_amount amount note r else r in
      let same = λ (r : Transaction). keeps_id (is_transaction c adj.id r) r in
      (
        (
          Distinct-map g same db.transactions k.0,
          all-known-map g same db.last_transaction db.transactions ∙ k.1,
        ),
        real-map amount note adj.id db.transactions
            (HitsAdjustments-Found p db.transactions adj f e k.0),
      )
    where
      keeps_id :
          (b : Bool) (r : Transaction) → (if b then with_amount amount note r else r).id ≡ r.id
      keeps_id true r = refl
      keeps_id false r = refl

  pub delete_adjustment-Keeps :
      (p : Transaction → Bool) (adj : Transaction) (db : Db)
      → Found p db.transactions adj
      → is_adjustment adj.values.type_of ≡ true
      → Keeps db (delete_transaction c adj.id db)
  unfolding delete_transaction
  delete_adjustment-Keeps p adj db f e k = (
    (
      Distinct-select _ db.transactions k.0,
      all-known-select _ db.last_transaction db.transactions k.1,
    ),
    real-delete adj.id db.transactions (HitsAdjustments-Found p db.transactions adj f e k.0),
  )
