-- ===== src/FiscalPeriods/Service/Lookup.antt =====
-- What the operations of backend/services/fiscal_period_svc.py do to the answers of
-- `resolve_fiscal_rule` (backend/db/queries.py).
use mathlib.Core.List.{Memᴰ}
use mathlib.Core.Bool.{true≢false}
use personal_fin_hub.Base.{
  ℕ, ◌+◌, ◌≤◌, ◌≡◌, refl, sym, ◌∙◌, ap, Bool, true, false, ◌&&◌, Option, none, some, List, [], ◌∷◌,
  leb, if◌then◌else◌, any, select, arith, Bool-cases, inl, inr, any-false_mono, or-eq-false,
}
use personal_fin_hub.FiscalPeriods.Table.{
  FiscalPeriod, FiscalPeriodCreate, Table, in_profile, new_row, create_fiscal_period, not_after,
  contains, latest_start, rule_of, get_fiscal_period_at, resolve_fiscal_rule,
}
use personal_fin_hub.FiscalPeriods.Service.{
  Result, ok, err, date_max, overlaps_existing, create, update, delete,
}
use personal_fin_hub.FiscalPeriods.Service.Disjoint.{
  clashes, IsDisjoint, IsConsistent, blocks, overlaps_existing-eq-any, create-IsConsistent,
  update-IsConsistent, delete-IsConsistent,
}

-- A call of one of the operations that change the table, under an active profile.
pub data Call : Type 0 where
  create_call : FiscalPeriodCreate → Call
  update_call : ℕ → FiscalPeriodCreate → Call
  delete_call : ℕ → Call

abbrev pub perform : Option ℕ → Call → Table → Table
perform pid (create_call body) t = (create pid body t).1
perform pid (update_call id body) t = (update pid id body t).1
perform pid (delete_call id) t = (delete pid id t).1

pub perform_all : List (Option ℕ × Call) → Table → Table
perform_all [] t = t
perform_all ((pid, c) ∷ cs) t = perform_all cs (perform pid c t)

perform-IsConsistent :
    (pid : Option ℕ) (c : Call) (t : Table) → IsConsistent t → IsConsistent (perform pid c t)
perform-IsConsistent pid (create_call body) t v = create-IsConsistent pid body t v
perform-IsConsistent pid (update_call id body) t v = update-IsConsistent pid id body t v
perform-IsConsistent pid (delete_call id) t v = delete-IsConsistent pid id t v

-- After any calls of create, update and delete, by any profiles and whether or not they are
-- refused, no two periods of one profile overlap, ids are unique, and no id is above the last one
-- given.
pub perform_all-IsConsistent :
    (cs : List (Option ℕ × Call)) (t : Table) → IsConsistent t → IsConsistent (perform_all cs t)
unfolding perform_all
perform_all-IsConsistent [] t v = v
perform_all-IsConsistent ((pid, c) ∷ cs) t v =
    perform_all-IsConsistent cs (perform pid c t) (perform-IsConsistent pid c t v)

abbrev pub is_ok : {A : Type 0} → Result A → Bool
is_ok (ok a) = true
is_ok (err e) = false

module _ (pid day : ℕ) where
  -- the rows that `get_fiscal_period_at` selects
  abbrev hit : FiscalPeriod → Bool
  hit r = contains day r && in_profile (some pid) r.profile_id

  hit-clashes :
      (r q : FiscalPeriod) → day ≤ date_max → hit r ≡ true → clashes r q ≡ false → hit q ≡ false
  hit-clashes r q le h c = ground arith

  select-none : (rs : List FiscalPeriod) → any hit rs ≡ false → select hit rs ≡ []
  select-none [] h = refl
  select-none (r ∷ rs) h = ground (arith, select-none rs)

  any-mem :
      (p : FiscalPeriod → Bool) {r : FiscalPeriod} {rs : List FiscalPeriod}
      → Memᴰ r rs
      → any p rs ≡ false
      → p r ≡ false
  any-mem p {rs = []} m h = elim m [ ]
  any-mem p {rs = x ∷ xs} (Memᴰ.head e) h = ap p e ∙ (or-eq-false (p x) _ h).0
  any-mem p {rs = x ∷ xs} (Memᴰ.tail m) h = any-mem p m (or-eq-false (p x) _ h).1

  -- Only `r` is hit.
  select-hit :
      (r : FiscalPeriod) (rs : List FiscalPeriod)
      → day ≤ date_max
      → IsDisjoint rs
      → Memᴰ r rs
      → hit r ≡ true
      → select hit rs ≡ r ∷ []
  select-hit r [] le d m h = elim m [ ]
  select-hit r (x ∷ xs) le d (Memᴰ.head e) h =
      let hx : hit x ≡ true = ap hit (sym e) ∙ h in
      rw hx (
        rw (select-none xs (any-false_mono (clashes x) hit xs (λ q c. hit-clashes x q le hx c) d.0))
          (ap (λ y. y ∷ []) (sym e)))
  select-hit r (x ∷ xs) le d (Memᴰ.tail m) h = elim (Bool-cases (hit x)) [
    | inl hx ↦ absurd (true≢false (sym h ∙ hit-clashes x r le hx (any-mem (clashes x) m d.0)))
    | inr no_hit ↦ rw no_hit (select-hit r xs le d.2 m h)
  ]

-- In a consistent table the period of a profile that contains a date is the one that
-- `get_fiscal_period_at` finds, wherever it stands in the table, so ORDER BY and LIMIT choose nothing.
pub get_at_unique :
    (pid day : ℕ) (r : FiscalPeriod) (t : Table)
    → IsConsistent t
    → day ≤ date_max
    → Memᴰ r t.rows
    → r.profile_id ≡ some pid
    → contains day r ≡ true
    → (get_fiscal_period_at (some pid) day t ≡ some r)
      × (resolve_fiscal_rule (some pid) day t ≡ some r.rule_key)
unfolding get_fiscal_period_at resolve_fiscal_rule
get_at_unique pid day r t v le m owner inside =
    let found =
      ap latest_start
        (select-hit pid day r t.rows le v.disjoint m (rw (inside, owner) (ground arith))) in
    (found, ap rule_of found)

-- the dates of a request
abbrev pub covers : ℕ → FiscalPeriodCreate → Bool
covers day body = leb body.start_date day && not_after day body.end_date

if-cons :
    {A : Type 0} (b : Bool) (x : A) (xs : List A)
    → (b ≡ true → xs ≡ [])
    → (if b then x ∷ xs else xs) ≡ (if b then x ∷ [] else xs)
if-cons true x xs h = ap (λ ys. x ∷ ys) (h refl)
if-cons false x xs h = refl

if-refused : {A : Type 0} (b : Bool) (x y : A) → y ≡ (if b && false then x else y)
if-refused true x y = refl
if-refused false x y = refl

if-accepted :
    (b : Bool) (r : FiscalPeriod) (rs : List FiscalPeriod)
    → rule_of (latest_start (if b then r ∷ [] else rs))
      ≡ (if b && true then some r.rule_key else rule_of (latest_start rs))
if-accepted true r rs = refl
if-accepted false r rs = refl

module _ (pid day : ℕ) (body : FiscalPeriodCreate) (le : day ≤ date_max) where
  blocks-hit :
      (q : FiscalPeriod)
      → covers day body ≡ true
      → blocks (some pid) body.start_date body.end_date none q ≡ false
      → hit pid day q ≡ false
  blocks-hit q c b = ground arith

  hit-new : (id : ℕ) → hit pid day (new_row (some pid) id body) ≡ covers day body
  hit-new id = ground arith

  -- the rows that are hit once the new row is there
  select-new :
      (id : ℕ) (rs : List FiscalPeriod)
      → any (blocks (some pid) body.start_date body.end_date none) rs ≡ false
      → let row = new_row (some pid) id body in
        select (hit pid day) (row ∷ rs)
        ≡ (if covers day body then row ∷ [] else select (hit pid day) rs)
  select-new id rs free =
      ap
        (λ b.
          if b
          then new_row (some pid) id body ∷ select (hit pid day) rs
          else select (hit pid day) rs)
        (hit-new id)
      ∙ if-cons (covers day body) (new_row (some pid) id body) (select (hit pid day) rs)
          (λ c. select-none pid day rs (any-false_mono _ _ rs (λ q. blocks-hit q c) free))

  -- An accepted period is in force on each of its dates, and the rule of no other date changes; a
  -- refused one changes no rule.
  pub resolve-create :
      (t : Table)
      → let (r, t') = create (some pid) body t in
        resolve_fiscal_rule (some pid) day t' ≡ (
          if covers day body && is_ok r
          then some body.rule_key
          else resolve_fiscal_rule (some pid) day t)
  unfolding create create_fiscal_period resolve_fiscal_rule get_fiscal_period_at
  resolve-create t =
      elim (Bool-cases (overlaps_existing (some pid) body.start_date body.end_date none t)) [
        | inl taken ↦ rw taken (if-refused (covers day body) _ _)
        | inr free ↦ rw free (
            ap (λ (rs : List FiscalPeriod). rule_of (latest_start rs))
              (select-new (t.last_id + 1) t.rows (
                sym (overlaps_existing-eq-any (some pid) body.start_date body.end_date none t)
                ∙ free))
            ∙ if-accepted (covers day body) (new_row (some pid) (t.last_id + 1) body) _)
      ]
