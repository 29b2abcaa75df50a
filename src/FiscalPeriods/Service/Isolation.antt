-- ===== src/FiscalPeriods/Service/Isolation.antt =====
-- Profiles do not see one another's fiscal periods (backend/services/fiscal_period_svc.py and the
-- profile clause of backend/db/queries.py).
use personal_fin_hub.Base.{
  ℕ, ◌+◌, ◌≡◌, refl, ◌≢◌, Bool, true, false, not, ◌&&◌, none, some, List, [], ◌∷◌, if◌then◌else◌,
  select, map, arith,
}
use personal_fin_hub.FiscalPeriods.Table.{
  FiscalPeriod, FiscalPeriodCreate, Table, in_profile, is_row, rewritten, new_row, contains,
  create_fiscal_period, update_fiscal_period, delete_fiscal_period, get_all_fiscal_periods,
  get_fiscal_period, get_fiscal_period_at, resolve_fiscal_rule,
}
use personal_fin_hub.FiscalPeriods.Service.{
  create, update, delete, list_all, overlaps_existing, is_missing,
}
use personal_fin_hub.FiscalPeriods.Service.Lookup.{
  Call, create_call, update_call, delete_call, perform,
}

-- A test on rows that only rows of profile `q` pass.
module _ (p q : ℕ) (ne : p ≢ q) (g : FiscalPeriod → Bool)
    (own : (r : FiscalPeriod) → in_profile (some q) r.profile_id ≡ false → g r ≡ false) where
  foreign : (r : FiscalPeriod) → in_profile (some p) r.profile_id ≡ true → g r ≡ false
  foreign r h = own r (ground arith)

  select-create :
      (body : FiscalPeriodCreate) (t : Table)
      → select g (create_fiscal_period (some p) body t).0.rows ≡ select g t.rows
  unfolding create_fiscal_period
  select-create body t = rw (foreign (new_row (some p) (t.last_id + 1) body) (ground arith))

  select-update :
      (id : ℕ) (body : FiscalPeriodCreate) (rs : List FiscalPeriod)
      → select g (map (λ r. if is_row (some p) id r then rewritten body r else r) rs) ≡ select g rs
  select-update id body [] = refl
  select-update id body (r ∷ rs) =
      ground (arith, foreign r, foreign (rewritten body r), select-update id body rs)

  select-delete :
      (id : ℕ) (rs : List FiscalPeriod)
      → select g (select (λ r. not (is_row (some p) id r)) rs) ≡ select g rs
  select-delete id [] = refl
  select-delete id (r ∷ rs) = ground (arith, foreign r, select-delete id rs)

  -- A call that raises leaves the table alone.
  select-guarded :
      {A : Type 0} (b : Bool) (e : A) (t : Table) (next : A × Table)
      → select g next.1.rows ≡ select g t.rows
      → select g (if◌then◌else◌ {A = A × Table} b (e, t) next).1.rows ≡ select g t.rows
  select-guarded true e t next h = refl
  select-guarded false e t next h = h

  select-perform : (c : Call) (t : Table) → select g (perform (some p) c t).rows ≡ select g t.rows
  unfolding create update delete update_fiscal_period delete_fiscal_period
  select-perform (create_call body) t =
      select-guarded (overlaps_existing (some p) body.start_date body.end_date none t) _ t _
        (select-create body t)
  select-perform (update_call id body) t =
      select-guarded (is_missing (get_fiscal_period (some p) id t)) _ t _ (
        select-guarded (overlaps_existing (some p) body.start_date body.end_date (some id) t) _ t _
          (select-update id body t.rows))
  select-perform (delete_call id) t =
      select-guarded (is_missing (get_fiscal_period (some p) id t)) _ t _ (select-delete id t.rows)

-- A call of create, update or delete under one profile changes neither the periods that another
-- profile lists nor the rule that it resolves on any date.
pub perform-isolated :
    (p q day : ℕ) (c : Call) (t : Table)
    → p ≢ q
    → let t' = perform (some p) c t in
      (list_all (some q) t' ≡ list_all (some q) t)
      × (resolve_fiscal_rule (some q) day t' ≡ resolve_fiscal_rule (some q) day t)
unfolding list_all get_all_fiscal_periods resolve_fiscal_rule get_fiscal_period_at
perform-isolated p q day c t ne = (
  rw (select-perform p q ne (λ r. in_profile (some q) r.profile_id) (λ r h. h) c t),
  rw (
      select-perform p q ne (λ r. contains day r && in_profile (some q) r.profile_id)
        (λ r h. ground arith) c t),
)
