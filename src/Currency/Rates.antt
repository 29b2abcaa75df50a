-- ===== src/Currency/Rates.antt =====
-- The table currencies and its queries in backend/db/queries.py, and the look-up and the edits of rates
-- in backend/services/currency_svc.py. Codes and instants are numbers. `1.0` and `1.0 / rate` are the
-- parameters `one` and `inverse`, since no stored rate is zero.
use personal_fin_hub.Base.{
  ℕ, Bool, true, false, not, ◌&&◌, ◌||◌, Option, none, some, List, [], ◌∷◌, ◌++◌, leb, ◌==◌,
  if◌then◌else◌, any, select, map, sort_with, sort_by, ℤ,
}
use personal_fin_hub.FiscalPeriods.Table.{fetchone}

-- a row of currencies
pub record Rate : Type 0 where
  pub code : ℕ
  pub base_code : ℕ
  pub rate : ℤ
  pub timestamp : ℕ

pub data CurrencyError : Type 0 where
  code_taken code_not_found has_dependents reverse_pair_exists pair_not_found integrity :
      CurrencyError

pub data Result (A : Type 0) : Type 0 where
  ok : A → Result A
  err : CurrencyError → Result A

-- the columns of a response besides the two codes that were asked for
pub record CurrencyRate : Type 0 where
  pub rate : ℤ
  pub timestamp : ℕ
  pub inverted : Bool

abbrev pub is_pair : ℕ → ℕ → Rate → Bool
is_pair code base r = r.code == code && r.base_code == base

abbrev pub has_code : ℕ → Rate → Bool
has_code code r = r.code == code || r.base_code == code

unfoldable pub code_exists : ℕ → List Rate → Bool
code_exists code rates = any (has_code code) rates

unfoldable pub pair_exists : ℕ → ℕ → List Rate → Bool
pair_exists code base rates = any (is_pair code base) rates

-- PRIMARY KEY (code, base_code, timestamp)
abbrev pub is_key : ℕ → ℕ → ℕ → Rate → Bool
is_key code base at r = is_pair code base r && r.timestamp == at

abbrev pub new_rate : ℕ → ℕ → ℤ → ℕ → Rate
new_rate code base value at = record { code = code; base_code = base; rate = value; timestamp = at }

-- `none` stands for the IntegrityError of a key that is taken.
unfoldable pub insert_rate : ℕ → ℕ → ℤ → ℕ → List Rate → Option (List Rate)
insert_rate code base value at rates =
    if any (is_key code base at) rates
    then none
    else some (rates ++ new_rate code base value at ∷ [])

-- INSERT OR REPLACE
unfoldable pub upsert_rate : ℕ → ℕ → ℤ → ℕ → List Rate → List Rate
upsert_rate code base value at rates =
    select (λ r. not (is_key code base at r)) rates ++ new_rate code base value at ∷ []

abbrev pub is_later : Rate → Rate → Bool
is_later a b = leb b.timestamp a.timestamp

unfoldable pub get_latest_rate : ℕ → ℕ → List Rate → Option Rate
get_latest_rate code base rates = fetchone (sort_with is_later (select (is_pair code base) rates))

unfoldable pub get_rate_at : ℕ → ℕ → ℕ → List Rate → Option Rate
get_rate_at code base at rates =
    fetchone (sort_with is_later (select (λ r. is_pair code base r && leb r.timestamp at) rates))

unfoldable pub get_rate_history : ℕ → ℕ → List Rate → List Rate
get_rate_history code base rates = sort_by (λ r. r.timestamp) (select (is_pair code base) rates)

unfoldable pub delete_pair_rows : ℕ → ℕ → List Rate → List Rate
delete_pair_rows code base rates = select (λ r. not (is_pair code base r)) rates

unfoldable pub delete_code_rows : ℕ → List Rate → List Rate
delete_code_rows code rates = select (λ r. not (has_code code r)) rates

-- the direction that is stored, and whether it is the other one
unfoldable pub resolve_direction : ℕ → ℕ → List Rate → Option (ℕ × ℕ × Bool)
resolve_direction code base rates =
    if pair_exists code base rates
    then some (code, base, false)
    else if pair_exists base code rates
    then some (base, code, true)
    else none

-- `if at`
abbrev pub stored_rate : Option ℕ → ℕ → ℕ → List Rate → Option Rate
stored_rate none code base rates = get_latest_rate code base rates
stored_rate (some at) code base rates = get_rate_at code base at rates

abbrev pub inserted : Option (List Rate) → List Rate → Result (Unit {0}) × List Rate
inserted none rates = (err integrity, rates)
inserted (some rates') rates = (ok tt, rates')

unfoldable pub create_rate : ℕ → ℕ → ℤ → ℕ → List Rate → Result (Unit {0}) × List Rate
create_rate code base value at rates =
    if pair_exists base code rates
    then (err reverse_pair_exists, rates)
    else inserted (insert_rate code base value at rates) rates

unfoldable pub register_code : ℤ → ℕ → ℕ → List Rate → Result (Unit {0}) × List Rate
register_code one now code rates =
    if code_exists code rates
    then (err code_taken, rates)
    else inserted (insert_rate code code one now rates) rates

module _ (one : ℤ) (inverse : ℤ → ℤ) where
  abbrev pub oriented : Bool → Rate → CurrencyRate
  oriented invert r = record {
    rate = if invert then inverse r.rate else r.rate;
    timestamp = r.timestamp;
    inverted = invert;
  }

  rate_or_raise : Bool → Option Rate → Result CurrencyRate
  rate_or_raise invert none = err pair_not_found
  rate_or_raise invert (some r) = ok (oriented invert r)

  rate_in : Option (ℕ × ℕ × Bool) → Option ℕ → List Rate → Result CurrencyRate
  unfolding rate_or_raise
  rate_in none at rates = err pair_not_found
  rate_in (some (code, base, invert)) at rates =
      rate_or_raise invert (stored_rate at code base rates)

  unfoldable pub get_rate : ℕ → ℕ → Option ℕ → List Rate → Result CurrencyRate
  unfolding rate_in
  get_rate code base at rates = rate_in (resolve_direction code base rates) at rates

  history_or_raise : Bool → List Rate → Result (List CurrencyRate)
  history_or_raise invert [] = err pair_not_found
  history_or_raise invert (r ∷ rows) = ok (map (oriented invert) (r ∷ rows))

  history_in : Option (ℕ × ℕ × Bool) → List Rate → Result (List CurrencyRate)
  unfolding history_or_raise
  history_in none rates = err pair_not_found
  history_in (some (code, base, invert)) rates =
      history_or_raise invert (get_rate_history code base rates)

  unfoldable pub get_history : ℕ → ℕ → List Rate → Result (List CurrencyRate)
  unfolding history_in
  get_history code base rates = history_in (resolve_direction code base rates) rates

-- the loop over `zip(timestamps, rates)`
unfoldable pub upsert_all : ℕ → ℕ → List ℕ → List ℤ → List Rate → List Rate
upsert_all code base (at ∷ ats) (value ∷ values) rates =
    upsert_all code base ats values (upsert_rate code base value at rates)
upsert_all code base _ _ rates = rates

unfoldable pub update_rates : ℕ → ℕ → List ℕ → List ℤ → List Rate → Result (Unit {0}) × List Rate
update_rates code base ats values rates =
    if pair_exists base code rates
    then (err reverse_pair_exists, rates)
    else (ok tt, upsert_all code base ats values rates)

abbrev pub pair_deleted : Option (ℕ × ℕ × Bool) → List Rate → Result (Unit {0}) × List Rate
pair_deleted none rates = (err pair_not_found, rates)
pair_deleted (some (code, base, invert)) rates = (ok tt, delete_pair_rows code base rates)

unfoldable pub delete_pair : ℕ → ℕ → List Rate → Result (Unit {0}) × List Rate
delete_pair code base rates = pair_deleted (resolve_direction code base rates) rates

-- `has` is the answer of `currency_code_has_dependents`.
unfoldable pub delete_code : (has : Bool) → ℕ → List Rate → Result (Unit {0}) × List Rate
delete_code has code rates =
    if not (code_exists code rates)
    then (err code_not_found, rates)
    else if has
    then (err has_dependents, rates)
    else (ok tt, delete_code_rows code rates)
