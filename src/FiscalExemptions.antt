-- ===== src/FiscalExemptions.antt =====
-- Fiscal exemptions: the table and its queries in backend/db/queries.py, and the service
-- backend/services/fiscal_exemption_svc.py. Of the transactions only the exemption that each refers to
-- and its owner are kept. Texts are numbers; a connection's profile is an argument.
pub mod References
mod Tests
use personal_fin_hub.Base.{
  ℕ, ◌+◌, Bool, true, false, not, ◌&&◌, Option, none, some, List, [], ◌∷◌, ◌==◌, if◌then◌else◌, any,
  select, map, sort_by, ℤ,
}
use personal_fin_hub.FiscalPeriods.Table.{in_profile, fetchone}

pub record FiscalExemptionCreate : Type 0 where
  pub exemption_type : ℕ
  pub description : Option ℕ
  pub exemption_amount : ℤ
  pub exemption_rate : ℤ
  pub exemption_rate_limit : Option ℤ

pub record FiscalExemption : Type 0 where
  pub id : ℕ
  pub profile_id : Option ℕ
  pub values : FiscalExemptionCreate

pub record FiscalExemptionResponse : Type 0 where
  pub id : ℕ
  pub values : FiscalExemptionCreate

-- a transaction's fiscal_exemption_id and profile_id
pub record Reference : Type 0 where
  pub fiscal_exemption_id : Option ℕ
  pub profile_id : Option ℕ

pub record Store : Type 0 where
  pub exemptions : List FiscalExemption
  pub last_id : ℕ
  pub transactions : List Reference

pub data FiscalExemptionError : Type 0 where
  not_found has_dependents : FiscalExemptionError

pub data Result (A : Type 0) : Type 0 where
  ok : A → Result A
  err : FiscalExemptionError → Result A

abbrev pub is_exemption : Option ℕ → ℕ → FiscalExemption → Bool
is_exemption pid id r = r.id == id && in_profile pid r.profile_id

unfoldable pub create_fiscal_exemption : Option ℕ → FiscalExemptionCreate → Store → Store × ℕ
create_fiscal_exemption pid body s =
    let id = s.last_id + 1 in
    let row : FiscalExemption = record { id = id; profile_id = pid; values = body } in
    (record s { exemptions = row ∷ s.exemptions; last_id = id }, id)

unfoldable pub get_fiscal_exemption : Option ℕ → ℕ → Store → Option FiscalExemption
get_fiscal_exemption pid id s = fetchone (select (is_exemption pid id) s.exemptions)

unfoldable pub get_all_fiscal_exemptions : Option ℕ → Store → List FiscalExemption
get_all_fiscal_exemptions pid s =
    sort_by (λ r. r.id) (select (λ r. in_profile pid r.profile_id) s.exemptions)

unfoldable pub update_fiscal_exemption : Option ℕ → ℕ → FiscalExemptionCreate → Store → Store
update_fiscal_exemption pid id body s = record s {
  exemptions =
      map (λ r. if is_exemption pid id r then record r { values = body } else r) s.exemptions;
}

unfoldable pub delete_fiscal_exemption : Option ℕ → ℕ → Store → Store
delete_fiscal_exemption pid id s = record s {
  exemptions = select (λ r. not (is_exemption pid id r)) s.exemptions;
}

-- `fiscal_exemption_id = ?`, which no NULL satisfies
abbrev pub refers_to : ℕ → Option ℕ → Bool
refers_to id none = false
refers_to id (some e) = e == id

unfoldable pub fiscal_exemption_has_dependents : Option ℕ → ℕ → Store → Bool
fiscal_exemption_has_dependents pid id s =
    any (λ t. refers_to id t.fiscal_exemption_id && in_profile pid t.profile_id) s.transactions

abbrev pub exemption_response : FiscalExemption → FiscalExemptionResponse
exemption_response r = record { id = r.id; values = r.values }

abbrev pub is_absent : Option FiscalExemption → Bool
is_absent none = true
is_absent (some r) = false

unfoldable pub create_exemption :
    Option ℕ → FiscalExemptionCreate → Store → FiscalExemptionResponse × Store
create_exemption pid body s =
    let (s', id) = create_fiscal_exemption pid body s in (record { id = id; values = body }, s')

abbrev pub exemption_or_raise : Option FiscalExemption → Result FiscalExemptionResponse
exemption_or_raise none = err not_found
exemption_or_raise (some r) = ok (exemption_response r)

unfoldable pub get_exemption : Option ℕ → ℕ → Store → Result FiscalExemptionResponse
get_exemption pid id s = exemption_or_raise (get_fiscal_exemption pid id s)

unfoldable pub list_exemptions : Option ℕ → Store → List FiscalExemptionResponse
list_exemptions pid s = map exemption_response (get_all_fiscal_exemptions pid s)

unfoldable pub update_exemption :
    Option ℕ → ℕ → FiscalExemptionCreate → Store → Result FiscalExemptionResponse × Store
update_exemption pid id body s =
    if is_absent (get_fiscal_exemption pid id s)
    then (err not_found, s)
    else (ok (record { id = id; values = body }), update_fiscal_exemption pid id body s)

unfoldable pub delete_exemption : Option ℕ → ℕ → Store → Result (Unit {0}) × Store
delete_exemption pid id s =
    if is_absent (get_fiscal_exemption pid id s)
    then (err not_found, s)
    else if fiscal_exemption_has_dependents pid id s
    then (err has_dependents, s)
    else (ok tt, delete_fiscal_exemption pid id s)
