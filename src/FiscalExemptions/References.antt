-- ===== src/FiscalExemptions/References.antt =====
-- No call of backend/services/fiscal_exemption_svc.py leaves a transaction that refers to an exemption
-- its owner does not have.
use personal_fin_hub.Base.{
  ℕ, ◌≡◌, refl, ◌∙◌, Bool, true, false, not, ◌&&◌, ◌||◌, Option, none, some, List, [], ◌∷◌, ◌==◌,
  if◌then◌else◌, any, select, map, arith, Bool-cases, inl, inr, or-eq-false, or_false,
}
use personal_fin_hub.FiscalPeriods.Table.{in_profile}
use personal_fin_hub.FiscalExemptions.{
  FiscalExemption, FiscalExemptionCreate, Reference, Store, is_exemption, refers_to, is_absent,
  get_fiscal_exemption, create_fiscal_exemption, update_fiscal_exemption, delete_fiscal_exemption,
  fiscal_exemption_has_dependents, create_exemption, update_exemption, delete_exemption,
}

abbrev pub same_owner : Option ℕ → Option ℕ → Bool
same_owner none none = true
same_owner none (some b) = false
same_owner (some a) none = false
same_owner (some a) (some b) = a == b

-- A transaction's exemption is among some rows, with the transaction's owner.
abbrev pub finds : Reference → FiscalExemption → Bool
finds t r = refers_to r.id t.fiscal_exemption_id && same_owner r.profile_id t.profile_id

abbrev pub has_none : Option ℕ → Bool
has_none none = true
has_none (some e) = false

abbrev pub dangles : List FiscalExemption → Reference → Bool
dangles rows t = not (has_none t.fiscal_exemption_id || any (finds t) rows)

abbrev pub HasReferences : Store → Type 0
HasReferences s = any (dangles s.exemptions) s.transactions ≡ false

module _ (p q : FiscalExemption → Bool) where
  -- A row that is found stays, where what is found is kept.
  any-kept :
      (rows : List FiscalExemption)
      → ((r : FiscalExemption) → p r ≡ true → q r ≡ true)
      → any p rows ≡ true
      → any p (select q rows) ≡ true
  any-kept [] h e = e
  any-kept (r ∷ rows) h e = ground (arith, h r, any-kept rows h)

dangles-map :
    (before after : List FiscalExemption) (ts : List Reference)
    → ((t : Reference) → any (finds t) before ≡ true → any (finds t) after ≡ true)
    → any (dangles before) ts ≡ false
    → any (dangles after) ts ≡ false
dangles-map before after [] h e = refl
dangles-map before after (t ∷ ts) h e = ground (arith, h t, dangles-map before after ts h)

create-HasReferences :
    (pid : Option ℕ) (body : FiscalExemptionCreate) (s : Store)
    → HasReferences s
    → HasReferences (create_exemption pid body s).1
unfolding create_exemption create_fiscal_exemption
create-HasReferences pid body s v =
    dangles-map s.exemptions (create_exemption pid body s).1.exemptions s.transactions
      (λ t h. ground (arith, h)) v

any-finds-update :
    (pid : Option ℕ) (id : ℕ) (body : FiscalExemptionCreate) (t : Reference)
    (rows : List FiscalExemption)
    → any (finds t) (
        map
          (λ (r : FiscalExemption). if is_exemption pid id r then record r { values = body } else r)
          rows)
      ≡ any (finds t) rows
any-finds-update pid id body t [] = refl
any-finds-update pid id body t (r ∷ rows) = ground (arith, any-finds-update pid id body t rows)

update-HasReferences :
    (pid : Option ℕ) (id : ℕ) (body : FiscalExemptionCreate) (s : Store)
    → HasReferences s
    → HasReferences (update_exemption pid id body s).1
unfolding update_exemption update_fiscal_exemption
update-HasReferences pid id body s v =
    elim (Bool-cases (is_absent (get_fiscal_exemption pid id s))) [
      | inl absent ↦ rw absent v
      | inr present ↦ rw present (
          dangles-map s.exemptions _ s.transactions
            (λ t h. any-finds-update pid id body t s.exemptions ∙ h) v)
    ]

found-kept :
    (pid : Option ℕ) (id : ℕ) (e owner : Option ℕ) (r : FiscalExemption)
    → refers_to id e && in_profile pid owner ≡ false
    → refers_to r.id e && same_owner r.profile_id owner ≡ true
    → not (is_exemption pid id r) ≡ true
found-kept none id e owner r free found = ground arith
found-kept (some p) id e owner r free found = ground arith

-- Transactions that do not depend on the deleted exemption keep theirs.
dangles-delete :
    (pid : Option ℕ) (id : ℕ) (rows : List FiscalExemption) (ts : List Reference)
    → any (λ (t : Reference). refers_to id t.fiscal_exemption_id && in_profile pid t.profile_id) ts
      ≡ false
    → any (dangles rows) ts ≡ false
    → any (dangles (select (λ r. not (is_exemption pid id r)) rows)) ts ≡ false
dangles-delete pid id rows [] free v = refl
dangles-delete pid id rows (t ∷ ts) free v =
    let frees =
      or-eq-false (refers_to id t.fiscal_exemption_id && in_profile pid t.profile_id) _ free in
    let vs = or-eq-false (dangles rows t) _ v in
    or_false _ _ (one frees.0 vs.0) (dangles-delete pid id rows ts frees.1 vs.1)
  where
    one :
        refers_to id t.fiscal_exemption_id && in_profile pid t.profile_id ≡ false
        → dangles rows t ≡ false
        → dangles (select (λ r. not (is_exemption pid id r)) rows) t ≡ false
    one free v = ground (
      arith,
      any-kept (finds t) (λ r. not (is_exemption pid id r)) rows
          (λ r. found-kept pid id t.fiscal_exemption_id t.profile_id r free),
    )

no_dependents :
    (pid : Option ℕ) (id : ℕ) (s : Store)
    → fiscal_exemption_has_dependents pid id s ≡ false
    → any
        (λ (t : Reference). refers_to id t.fiscal_exemption_id && in_profile pid t.profile_id)
        s.transactions
      ≡ false
unfolding fiscal_exemption_has_dependents
no_dependents pid id s e = e

delete-HasReferences :
    (pid : Option ℕ) (id : ℕ) (s : Store)
    → HasReferences s
    → HasReferences (delete_exemption pid id s).1
unfolding delete_exemption delete_fiscal_exemption
delete-HasReferences pid id s v = elim (Bool-cases (is_absent (get_fiscal_exemption pid id s))) [
  | inl absent ↦ rw absent v
  | inr present ↦ elim (Bool-cases (fiscal_exemption_has_dependents pid id s)) [
    | inl used ↦ rw (present, used) v
    | inr free ↦
        rw (present, free)
          (dangles-delete pid id s.exemptions s.transactions (no_dependents pid id s free) v)
  ]
]

-- The calls on exemptions.
pub data Call : Type 0 where
  create_call : FiscalExemptionCreate → Call
  update_call : ℕ → FiscalExemptionCreate → Call
  delete_call : ℕ → Call

abbrev pub perform : Option ℕ → Call → Store → Store
perform pid (create_call body) s = (create_exemption pid body s).1
perform pid (update_call id body) s = (update_exemption pid id body s).1
perform pid (delete_call id) s = (delete_exemption pid id s).1

-- If every transaction that refers to an exemption finds it among its owner's, so it is after any call of
-- create, update or delete by any profile, refused or not.
pub perform-HasReferences :
    (pid : Option ℕ) (c : Call) (s : Store) → HasReferences s → HasReferences (perform pid c s)
perform-HasReferences pid (create_call body) s v = create-HasReferences pid body s v
perform-HasReferences pid (update_call id body) s v = update-HasReferences pid id body s v
perform-HasReferences pid (delete_call id) s v = delete-HasReferences pid id s v
