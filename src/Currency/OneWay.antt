-- ===== src/Currency/OneWay.antt =====
-- The directions in which a pair of codes is stored, and the calls of backend/services/currency_svc.py that a
-- user edits rates by: register_code, create_rate, update_rates, delete_pair and delete_code.
-- sync_rates, which does not look at the other direction of a pair, is not one of them.
use personal_fin_hub.Base.{
  ℕ, ◌≡◌, refl, sym, ap₂, ◌∙◌, Bool, true, false, not, ◌||◌, List, [], ◌∷◌, ◌++◌, ◌==◌, any, select,
  ℤ, inl, inr, Bool-cases, Option-cases, ==_iff, arith,
}
use personal_fin_hub.Currency.Rates.{
  Rate, is_pair, is_key, has_code, new_rate, pair_exists, code_exists, insert_rate, inserted,
  upsert_rate, delete_pair_rows, delete_code_rows, resolve_direction, register_code, create_rate,
  upsert_all, update_rates, delete_pair, delete_code,
}

abbrev pub IsOneWay : List Rate → Type 0
IsOneWay rates =
    (a b : ℕ) → (a == b) ≡ false → pair_exists a b rates ≡ true → pair_exists b a rates ≡ false

any-append : (p : Rate → Bool) (xs ys : List Rate) → any p (xs ++ ys) ≡ (any p xs || any p ys)
any-append p [] ys = refl
any-append p (x ∷ xs) ys = ground (arith, any-append p xs ys)

any-kept : (p q : Rate → Bool) (xs : List Rate) → any p (select q xs) ≡ true → any p xs ≡ true
any-kept p q [] e = e
any-kept p q (x ∷ xs) e = ground (arith, any-kept p q xs)

-- Rows that are removed do not make a second direction.
select-IsOneWay : (q : Rate → Bool) (rates : List Rate) → IsOneWay rates → IsOneWay (select q rates)
unfolding pair_exists
select-IsOneWay q rates one a b apart e =
    ground (arith, one a b apart (any-kept (is_pair a b) q rates e), any-kept (is_pair b a) q rates)

-- A pair of one code, or one whose reverse is not stored.
abbrev Free : ℕ → ℕ → List Rate → Type 0
Free code base rates = (code == base || not (pair_exists base code rates)) ≡ true

pair_cong :
    (a b x y : ℕ) (rates : List Rate)
    → (a == x) ≡ true
    → (b == y) ≡ true
    → pair_exists a b rates ≡ pair_exists x y rates
pair_cong a b x y rates e h =
    ap₂ (λ m n. pair_exists m n rates) ((==_iff a x).0 e) ((==_iff b y).0 h)

select-Free :
    (code base : ℕ) (q : Rate → Bool) (rates : List Rate)
    → Free code base rates
    → Free code base (select q rates)
unfolding pair_exists
select-Free code base q rates e = ground (arith, any-kept (is_pair base code) q rates, e)

-- Nor does a row of a pair whose reverse is not stored.
append-IsOneWay :
    (code base : ℕ) (value : ℤ) (at : ℕ) (rates : List Rate)
    → Free code base rates
    → IsOneWay rates
    → IsOneWay (rates ++ new_rate code base value at ∷ [])
unfolding pair_exists
append-IsOneWay code base value at rates free one a b apart e =
    let new = new_rate code base value at in
    let here = sym (any-append (is_pair a b) rates (new ∷ [])) ∙ e in
    any-append (is_pair b a) rates (new ∷ [])
    ∙ ground (
      arith,
      here,
      free,
      apart,
      one a b apart,
      pair_cong code base a b rates,
      pair_cong code base b a rates,
      pair_cong base code a b rates,
      pair_cong base code b a rates,
    )

upsert-IsOneWay :
    (code base : ℕ) (value : ℤ) (at : ℕ) (rates : List Rate)
    → Free code base rates
    → IsOneWay rates
    → IsOneWay (upsert_rate code base value at rates)
unfolding upsert_rate
upsert-IsOneWay code base value at rates free one =
    append-IsOneWay code base value at (select (λ r. not (is_key code base at r)) rates)
      (select-Free code base (λ r. not (is_key code base at r)) rates free)
      (select-IsOneWay (λ r. not (is_key code base at r)) rates one)

-- The pair stays free while its rows are written.
upsert-Free :
    (code base : ℕ) (value : ℤ) (at : ℕ) (rates : List Rate)
    → Free code base rates
    → Free code base (upsert_rate code base value at rates)
unfolding upsert_rate pair_exists
upsert-Free code base value at rates free = ground (
  arith,
  any-append (is_pair base code) (select (λ r. not (is_key code base at r)) rates)
      (new_rate code base value at ∷ []),
  any-kept (is_pair base code) (λ r. not (is_key code base at r)) rates,
  free,
)

upsert_all-IsOneWay :
    (code base : ℕ) (ats : List ℕ) (values : List ℤ) (rates : List Rate)
    → Free code base rates
    → IsOneWay rates
    → IsOneWay (upsert_all code base ats values rates)
unfolding upsert_all
upsert_all-IsOneWay code base [] values rates free one = one
upsert_all-IsOneWay code base (at ∷ ats) [] rates free one = one
upsert_all-IsOneWay code base (at ∷ ats) (value ∷ values) rates free one =
    upsert_all-IsOneWay code base ats values (upsert_rate code base value at rates)
      (upsert-Free code base value at rates free)
      (upsert-IsOneWay code base value at rates free one)

inserted-IsOneWay :
    (code base : ℕ) (value : ℤ) (at : ℕ) (rates : List Rate)
    → Free code base rates
    → IsOneWay rates
    → IsOneWay (inserted (insert_rate code base value at rates) rates).1
unfolding insert_rate
inserted-IsOneWay code base value at rates free one =
    elim (Bool-cases (any (is_key code base at) rates)) [
      | inl taken ↦ rw taken one
      | inr new ↦ rw new (append-IsOneWay code base value at rates free one)
    ]

-- The calls that a user edits rates by, without sync_rates.
pub data Call : Type 0 where
  register_call : ℕ → ℕ → Call
  create_call : ℕ → ℕ → ℤ → ℕ → Call
  update_call : ℕ → ℕ → List ℕ → List ℤ → Call
  delete_pair_call : ℕ → ℕ → Call
  delete_code_call : Bool → ℕ → Call

module _ (one : ℤ) where
  abbrev pub perform : Call → List Rate → List Rate
  perform (register_call now code) rates = (register_code one now code rates).1
  perform (create_call code base value at) rates = (create_rate code base value at rates).1
  perform (update_call code base ats values) rates = (update_rates code base ats values rates).1
  perform (delete_pair_call code base) rates = (delete_pair code base rates).1
  perform (delete_code_call has code) rates = (delete_code has code rates).1

  register-IsOneWay :
      (now code : ℕ) (rates : List Rate)
      → IsOneWay rates
      → IsOneWay (register_code one now code rates).1
  unfolding register_code
  register-IsOneWay now code rates h = elim (Bool-cases (code_exists code rates)) [
    | inl taken ↦ rw taken h
    | inr new ↦ rw new (inserted-IsOneWay code code one now rates (ground arith) h)
  ]

  -- If of no two codes both directions are stored, the same holds after a call of register_code, create_rate,
  -- update_rates, delete_pair or delete_code, whatever it answers. (It is not claimed of sync_rates.)
  pub perform-IsOneWay :
      (call : Call) (rates : List Rate) → IsOneWay rates → IsOneWay (perform call rates)
  unfolding create_rate update_rates delete_pair delete_code delete_pair_rows delete_code_rows
  perform-IsOneWay (register_call now code) rates h = register-IsOneWay now code rates h
  perform-IsOneWay (create_call code base value at) rates h =
      elim (Bool-cases (pair_exists base code rates)) [
        | inl back ↦ rw (back, perform) h
        | inr free ↦
            rw (free, perform) (inserted-IsOneWay code base value at rates (ground (arith, free)) h)
      ]
  perform-IsOneWay (update_call code base ats values) rates h =
      elim (Bool-cases (pair_exists base code rates)) [
        | inl back ↦ rw (back, perform) h
        | inr free ↦
            rw (free, perform)
              (upsert_all-IsOneWay code base ats values rates (ground (arith, free)) h)
      ]
  perform-IsOneWay (delete_pair_call code base) rates h =
      elim (Option-cases (resolve_direction code base rates)) [
        | inl missing ↦ rw (missing, perform) h
        | inr ((stored, stored_base, invert), found) ↦
            rw (found, perform) (select-IsOneWay (λ r. not (is_pair stored stored_base r)) rates h)
      ]
  perform-IsOneWay (delete_code_call has code) rates h =
      elim (Bool-cases (code_exists code rates)) [
        | inl here ↦ elim (Bool-cases has) [
          | inl used ↦ rw (here, used, perform) h
          | inr unused ↦
              rw (here, unused, perform) (select-IsOneWay (λ r. not (has_code code r)) rates h)
        ]
        | inr missing ↦ rw (missing, perform) h
      ]
