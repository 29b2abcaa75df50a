-- ===== src/FiscalPeriods/Table.antt =====
-- The table fiscal_periods and its queries in backend/db/queries.py. A date is its ordinal. Rows
-- are listed newest first; ids are AUTOINCREMENT, so the largest id ever given is part of the
-- state. A connection's active profile is an argument, `none` where the connection is unscoped.
use personal_fin_hub.Base.{
  ℕ, ◌+◌, Bool, true, false, not, ◌&&◌, Option, none, some, List, [], ◌∷◌, ltb, leb, ◌==◌,
  if◌then◌else◌, select, map, sort_by,
}

pub data RuleKey : Type 0 where
  spain japan default latest no_rule : RuleKey

pub record FiscalPeriod : Type 0 where
  pub id : ℕ
  pub profile_id : Option ℕ
  pub rule_key : RuleKey
  pub start_date : ℕ
  pub end_date : Option ℕ

-- `FiscalPeriodCreate` of backend/models/models.py
pub record FiscalPeriodCreate : Type 0 where
  pub rule_key : RuleKey
  pub start_date : ℕ
  pub end_date : Option ℕ

pub record Table : Type 0 where
  pub rows : List FiscalPeriod
  pub last_id : ℕ

-- `_profile_clause`, whose parameter is the active profile: `AND profile_id = ?`, or nothing
abbrev pub in_profile : Option ℕ → Option ℕ → Bool
in_profile none owner = true
in_profile (some pid) none = false
in_profile (some pid) (some owner) = owner == pid

-- The first row of a result, as `fetchone` gives it.
abbrev pub fetchone {ℓ} : {A : Type ℓ} → List A → Option A
fetchone [] = none
fetchone (x ∷ xs) = some x

abbrev pub new_row : Option ℕ → ℕ → FiscalPeriodCreate → FiscalPeriod
new_row pid id body = record {
  id = id;
  profile_id = pid;
  rule_key = body.rule_key;
  start_date = body.start_date;
  end_date = body.end_date;
}

unfoldable pub create_fiscal_period : Option ℕ → FiscalPeriodCreate → Table → Table × ℕ
create_fiscal_period pid body t =
    let id = t.last_id + 1 in (record { rows = new_row pid id body ∷ t.rows; last_id = id }, id)

abbrev pub is_row : Option ℕ → ℕ → FiscalPeriod → Bool
is_row pid id r = r.id == id && in_profile pid r.profile_id

unfoldable pub get_fiscal_period : Option ℕ → ℕ → Table → Option FiscalPeriod
get_fiscal_period pid id t = fetchone (select (is_row pid id) t.rows)

unfoldable pub get_all_fiscal_periods : Option ℕ → Table → List FiscalPeriod
get_all_fiscal_periods pid t =
    sort_by (λ r. r.start_date) (select (λ r. in_profile pid r.profile_id) t.rows)

abbrev pub rewritten : FiscalPeriodCreate → FiscalPeriod → FiscalPeriod
rewritten body r = record r {
  rule_key = body.rule_key;
  start_date = body.start_date;
  end_date = body.end_date;
}

unfoldable pub update_fiscal_period : Option ℕ → ℕ → FiscalPeriodCreate → Table → Table
update_fiscal_period pid id body t = record t {
  rows = map (λ r. if is_row pid id r then rewritten body r else r) t.rows;
}

unfoldable pub delete_fiscal_period : Option ℕ → ℕ → Table → Table
delete_fiscal_period pid id t = record t { rows = select (λ r. not (is_row pid id r)) t.rows }

-- `end_date IS NULL OR ? <= end_date`
abbrev pub not_after : ℕ → Option ℕ → Bool
not_after day none = true
not_after day (some end_date) = leb day end_date

abbrev pub contains : ℕ → FiscalPeriod → Bool
contains day r = leb r.start_date day && not_after day r.end_date

-- `ORDER BY start_date DESC LIMIT 1`
abbrev pub latest_start : List FiscalPeriod → Option FiscalPeriod
latest_start [] = none
latest_start (r ∷ rs) = elim (latest_start rs) [
  | none ↦ some r
  | some q ↦ if ltb r.start_date q.start_date then some q else some r
]

-- `local_date` is the sell date in the profile's time zone, which the caller's database converts.
unfoldable pub get_fiscal_period_at : Option ℕ → ℕ → Table → Option FiscalPeriod
get_fiscal_period_at pid local_date t =
    latest_start (select (λ r. contains local_date r && in_profile pid r.profile_id) t.rows)

-- `period["rule_key"] if period else None`
abbrev pub rule_of : Option FiscalPeriod → Option RuleKey
rule_of none = none
rule_of (some r) = some r.rule_key

unfoldable pub resolve_fiscal_rule : Option ℕ → ℕ → Table → Option RuleKey
resolve_fiscal_rule pid local_date t = rule_of (get_fiscal_period_at pid local_date t)
