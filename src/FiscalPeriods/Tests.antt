-- ===== src/FiscalPeriods/Tests.antt =====
-- Runs of the fiscal period operations, and the theorems at concrete inputs.
use mathlib.Core.List.{Memᴰ}
use personal_fin_hub.Base.{◌≡◌, refl, none, some, [], ◌∷◌, arith}
use personal_fin_hub.FiscalPeriods.Table.{
  spain, japan, FiscalPeriodCreate, Table, new_row, create_fiscal_period, get_fiscal_period,
  get_all_fiscal_periods, delete_fiscal_period, get_fiscal_period_at, resolve_fiscal_rule,
}
use personal_fin_hub.FiscalPeriods.Service.{
  err, overlap, not_found, create, update, delete, get, list_all, overlaps_existing,
}
use personal_fin_hub.FiscalPeriods.Service.Disjoint.{IsConsistent}
use personal_fin_hub.FiscalPeriods.Service.Lookup.{
  create_call, update_call, delete_call, perform, perform_all, perform_all-IsConsistent,
  get_at_unique, resolve-create,
}
use personal_fin_hub.FiscalPeriods.Service.Isolation.{perform-isolated}

abbrev spain_2024 : FiscalPeriodCreate
spain_2024 = record { rule_key = spain; start_date = 738886; end_date = some 739251 }

abbrev japan_onwards : FiscalPeriodCreate
japan_onwards = record { rule_key = japan; start_date = 739252; end_date = none }

abbrev table : Table
table = record { rows = new_row (some 1) 1 spain_2024 ∷ []; last_id = 1 }

create_runs :
    (create (some 1) japan_onwards table).1
    ≡ record { rows = new_row (some 1) 2 japan_onwards ∷ table.rows; last_id = 2 }
unfolding create create_fiscal_period overlaps_existing get_all_fiscal_periods
create_runs = refl

create_refused : create (some 1) spain_2024 table ≡ (err overlap, table)
unfolding create overlaps_existing get_all_fiscal_periods
create_refused = refl

update_missing : update (some 2) 1 spain_2024 table ≡ (err not_found, table)
unfolding update get_fiscal_period
update_missing = refl

delete_runs : (delete (some 1) 1 table).1 ≡ record { rows = []; last_id = 1 }
unfolding delete get_fiscal_period delete_fiscal_period
delete_runs = refl

get_runs : get (some 2) 1 table ≡ err not_found
unfolding get get_fiscal_period
get_runs = refl

table-IsConsistent : IsConsistent table
table-IsConsistent = ground arith

perform_all-IsConsistent_example : IsConsistent (
    perform_all
      ((some 1, create_call japan_onwards)
        ∷ (some 1, update_call 1 japan_onwards)
        ∷ (some 2, delete_call 1)
        ∷ [])
      table)
perform_all-IsConsistent_example =
    perform_all-IsConsistent
      ((some 1, create_call japan_onwards)
        ∷ (some 1, update_call 1 japan_onwards)
        ∷ (some 2, delete_call 1)
        ∷ [])
      table table-IsConsistent

get_at_unique_example :
    (get_fiscal_period_at (some 1) 739000 table ≡ some (new_row (some 1) 1 spain_2024))
    × (resolve_fiscal_rule (some 1) 739000 table ≡ some spain)
get_at_unique_example =
    get_at_unique 1 739000 (new_row (some 1) 1 spain_2024) table table-IsConsistent (omega arith)
      (Memᴰ.head refl) refl refl

resolve-create_example :
    resolve_fiscal_rule (some 1) 740000 (create (some 1) japan_onwards table).1 ≡ some japan
unfolding create overlaps_existing get_all_fiscal_periods
resolve-create_example = resolve-create 1 740000 japan_onwards (omega arith) table

perform-isolated_example :
    (list_all (some 2) (perform (some 1) (create_call japan_onwards) table)
      ≡ list_all (some 2) table)
    × (resolve_fiscal_rule (some 2) 740000 (perform (some 1) (create_call japan_onwards) table)
        ≡ resolve_fiscal_rule (some 2) 740000 table)
perform-isolated_example =
    perform-isolated 1 2 740000 (create_call japan_onwards) table (omega arith)
