-- ===== src/FiscalPeriods/Service.antt =====
-- backend/services/fiscal_period_svc.py, operation by operation. An exception is a value, and the
-- table comes back with it.
pub mod Disjoint
pub mod Lookup
pub mod Isolation
use personal_fin_hub.Base.{
  ℕ, ◌≡◌, Bool, true, false, not, ◌&&◌, Option, none, some, List, [], ◌∷◌, leb, ◌==◌, if◌then◌else◌,
  any, map,
}
use personal_fin_hub.FiscalPeriods.Table.{
  RuleKey, FiscalPeriod, FiscalPeriodCreate, Table, create_fiscal_period, get_fiscal_period,
  get_all_fiscal_periods, update_fiscal_period, delete_fiscal_period,
}

pub data FiscalPeriodError : Type 0 where
  not_found overlap : FiscalPeriodError

pub data Result (A : Type 0) : Type 0 where
  ok : A → Result A
  err : FiscalPeriodError → Result A

-- FiscalPeriodResponse
pub record FiscalPeriodResponse : Type 0 where
  pub id : ℕ
  pub rule_key : RuleKey
  pub start_date : ℕ
  pub end_date : Option ℕ

-- `date.max`, as an ordinal
abbrev pub date_max : ℕ
date_max = 3652059

-- `_to_date` on an end date
abbrev pub to_date : Option ℕ → ℕ
to_date none = date_max
to_date (some day) = day

-- the test in the loop of `_overlaps_existing`
abbrev pub meets : ℕ → Option ℕ → FiscalPeriod → Bool
meets start_date end_date r =
    leb start_date (to_date r.end_date) && leb r.start_date (to_date end_date)

-- `exclude_id is not None and period["id"] == exclude_id`
abbrev pub excluded : Option ℕ → FiscalPeriod → Bool
excluded none r = false
excluded (some id) r = r.id == id

unfoldable pub overlaps_existing : Option ℕ → ℕ → Option ℕ → Option ℕ → Table → Bool
overlaps_existing pid start_date end_date exclude_id t =
    any (λ r. not (excluded exclude_id r) && meets start_date end_date r)
      (get_all_fiscal_periods pid t)

response_of : FiscalPeriod → FiscalPeriodResponse
response_of r = record {
  id = r.id;
  rule_key = r.rule_key;
  start_date = r.start_date;
  end_date = r.end_date;
}

answer : ℕ → FiscalPeriodCreate → FiscalPeriodResponse
answer id body = record {
  id = id;
  rule_key = body.rule_key;
  start_date = body.start_date;
  end_date = body.end_date;
}

unfoldable pub create : Option ℕ → FiscalPeriodCreate → Table → Result FiscalPeriodResponse × Table
unfolding answer
create pid body t =
    if overlaps_existing pid body.start_date body.end_date none t
    then (err overlap, t)
    else let (t', id) = create_fiscal_period pid body t in (ok (answer id body), t')

found_or_raise : Option FiscalPeriod → Result FiscalPeriodResponse
unfolding response_of
found_or_raise none = err not_found
found_or_raise (some r) = ok (response_of r)

unfoldable pub get : Option ℕ → ℕ → Table → Result FiscalPeriodResponse
unfolding found_or_raise
get pid id t = found_or_raise (get_fiscal_period pid id t)

unfoldable pub list_all : Option ℕ → Table → List FiscalPeriodResponse
unfolding response_of
list_all pid t = map response_of (get_all_fiscal_periods pid t)

abbrev is_missing : Option FiscalPeriod → Bool
is_missing none = true
is_missing (some r) = false

unfoldable pub update :
    Option ℕ → ℕ → FiscalPeriodCreate → Table → Result FiscalPeriodResponse × Table
unfolding answer
update pid id body t =
    if is_missing (get_fiscal_period pid id t)
    then (err not_found, t)
    else if overlaps_existing pid body.start_date body.end_date (some id) t
    then (err overlap, t)
    else (ok (answer id body), update_fiscal_period pid id body t)

unfoldable pub delete : Option ℕ → ℕ → Table → Result (Unit {0}) × Table
delete pid id t =
    if is_missing (get_fiscal_period pid id t)
    then (err not_found, t)
    else (ok tt, delete_fiscal_period pid id t)
