-- ===== src/FiscalExemptions/Tests.antt =====
-- A store with two exemptions and one transaction, and the theorem at a deletion.
use personal_fin_hub.Base.{ℕ, ◌≡◌, refl, none, some, [], ◌∷◌, pos}
use personal_fin_hub.FiscalExemptions.{
  FiscalExemptionCreate, FiscalExemption, Store, err, has_dependents, delete_exemption,
  delete_fiscal_exemption, get_fiscal_exemption, fiscal_exemption_has_dependents,
}
use personal_fin_hub.FiscalExemptions.References.{
  HasReferences, delete_call, perform, perform-HasReferences,
}

abbrev half : FiscalExemptionCreate
half = record {
  exemption_type = 1;
  description = none;
  exemption_amount = pos 0;
  exemption_rate = pos 50;
  exemption_rate_limit = none;
}

abbrev row : ℕ → FiscalExemption
row id = record { id = id; profile_id = some 1; values = half }

abbrev store : Store
store = record {
  exemptions = row 2 ∷ row 1 ∷ [];
  last_id = 2;
  transactions = record { fiscal_exemption_id = some 1; profile_id = some 1 } ∷ [];
}

delete_used : (delete_exemption (some 1) 1 store).0 ≡ err has_dependents
unfolding delete_exemption get_fiscal_exemption fiscal_exemption_has_dependents
delete_used = refl

delete_unused : (delete_exemption (some 1) 2 store).1 ≡ record {
  exemptions = row 1 ∷ [];
  last_id = 2;
  transactions = record { fiscal_exemption_id = some 1; profile_id = some 1 } ∷ [];
}
unfolding delete_exemption get_fiscal_exemption fiscal_exemption_has_dependents
    delete_fiscal_exemption
delete_unused = refl

perform-HasReferences_example : HasReferences (perform (some 1) (delete_call 2) store)
perform-HasReferences_example = perform-HasReferences (some 1) (delete_call 2) store refl
