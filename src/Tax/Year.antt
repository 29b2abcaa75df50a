-- ===== src/Tax/Year.antt =====
-- `compute_fiscal_year` of backend/services/tax_engine.py, put together.
pub mod Sums
pub mod Brackets
pub mod Totals
use personal_fin_hub.Base.{
  ℕ, Bool, true, false, ◌&&◌, Option, none, some, List, [], ◌∷◌, ◌==◌, if◌then◌else◌, any, select,
  map, sort_by, ℤ, pos, ◌+ℤ◌, ◌-ℤ◌, min_ℤ, max_ℤ,
}
use personal_fin_hub.FiscalPeriods.Table.{RuleKey}
use personal_fin_hub.Tax.Bands.{TaxBand, Rounding}
use personal_fin_hub.Tax.Data.{
  Category, same_category, same_rule, Item, Computation, progressive, flat, TaxBase, TaxDefinition,
  ConfirmedTax, ItemTaxResult, FiscalYearTaxResult,
}
use personal_fin_hub.Tax.Items.{
  dict_get, same_ids, values_from, accumulate, Confirmed, PerItem, sum_amounts, resolve_items,
  attribute, owe_flat,
}

-- `per_item.get(tid, ItemTaxResult(tid, category, 0.0))`
abbrev pub entry_or : Item → Option ItemTaxResult → ItemTaxResult
entry_or item (some entry) = entry
entry_or item none = record {
  transaction_id = item.transaction_id;
  category = item.category;
  tax_owed = pos 0;
  taxes = [];
}

-- `d.get("ruleset_key") is not None`
abbrev pub is_specific : Option RuleKey → Bool
is_specific none = false
is_specific (some key) = true

abbrev pub by_time : List Item → List Item
by_time items = sort_by (λ item. item.timestamp) items

abbrev pub in_base : List Category → List Item → List Item
in_base categories items = select (λ item. any (same_category item.category) categories) items

pub entry_of : PerItem → Item → ItemTaxResult
unfolding dict_get
entry_of per_item item = entry_or item (dict_get (λ a b. a == b) item.transaction_id per_item)

module _ (rounding : Rounding) where
  -- `tax_owed`, from the entries of the items of the base
  pub owed_by_category : PerItem → List Item → List (Category × ℤ) → List (Category × ℤ)
  unfolding accumulate entry_of
  owed_by_category per_item [] owed = owed
  owed_by_category per_item (item ∷ items) owed =
      let entry = entry_of per_item item in
      owed_by_category per_item items (accumulate rounding entry.category entry.tax_owed owed)

  -- `round(sum(d.values()), 4)`
  pub total_of : List (Category × ℤ) → ℤ
  total_of d = rounding.round_tax (values_from (pos 0) d)

module _ (confirmed : Confirmed) (convert : ℤ → ℕ → ℕ → ℤ) where
  -- what one row adds to `generic_confirmed`
  abbrev pub converted : Item → Option ConfirmedTax → ℤ → ℤ
  converted item none acc = acc
  converted item (some row) acc = acc +ℤ convert row.tax_amount row.currency item.timestamp

  -- the loop over the definitions, for one item
  pub generic_of : Item → List TaxDefinition → ℤ → ℤ
  unfolding dict_get
  generic_of item [] acc = acc
  generic_of item (d ∷ ds) acc =
      let row = dict_get same_ids (item.transaction_id, d.id) confirmed in
      generic_of item ds (if is_specific d.ruleset_key then acc else converted item row acc)

  -- the loop over the items
  pub generic_confirmed : RuleKey → List TaxDefinition → List Item → ℤ → ℤ
  unfolding generic_of
  generic_confirmed rule definitions [] acc = acc
  generic_confirmed rule definitions (item ∷ items) acc =
      generic_confirmed rule definitions items
        (if same_rule item.fiscal_rule rule then generic_of item definitions acc else acc)

module _ (rounding : Rounding) (categories : List Category) (bands : List TaxBand)
    (definitions : List TaxDefinition) (confirmed : Confirmed) (convert : ℤ → ℕ → ℕ → ℤ) where
  no_base : List Item → PerItem × List (Category × ℤ) → FiscalYearTaxResult
  unfolding total_of entry_of
  no_base items (per_item, by_cat) = record {
    tax_owed = [];
    base = pos 0;
    total_tax = pos 0;
    withholding = pos 0;
    total_tax_owed = pos 0;
    combined_base = none;
    confirmed = by_cat;
    total_confirmed = total_of rounding by_cat;
    per_item = map (entry_of per_item) items;
  }

  progressive_year : RuleKey → List Item → PerItem × List (Category × ℤ) → FiscalYearTaxResult
  unfolding attribute owed_by_category total_of generic_confirmed entry_of
  progressive_year rule items (per_item, by_cat) =
      let taxed = in_base categories items in
      let base_total = rounding.round_amount (sum_amounts (pos 0) taxed) in
      let attributed = attribute rounding bands (pos 0) (by_time taxed) per_item in
      let owed = owed_by_category rounding attributed taxed [] in
      let total_tax = total_of rounding owed in
      let generic = generic_confirmed confirmed convert rule definitions taxed (pos 0) in
      let withholding = rounding.round_tax (min_ℤ generic total_tax) in
      record {
        tax_owed = owed;
        base = base_total;
        total_tax = total_tax;
        withholding = withholding;
        total_tax_owed = rounding.round_tax (max_ℤ (pos 0) (total_tax -ℤ withholding));
        combined_base = some base_total;
        confirmed = by_cat;
        total_confirmed = total_of rounding by_cat;
        per_item = map (entry_of attributed) items;
      }

  flat_year : Option ℤ → List Item → PerItem × List (Category × ℤ) → FiscalYearTaxResult
  unfolding owe_flat owed_by_category total_of entry_of
  flat_year flat_rate items (per_item, by_cat) =
      let taxed = in_base categories items in
      let taxed_per_item = owe_flat rounding flat_rate taxed per_item in
      let owed = owed_by_category rounding taxed_per_item taxed [] in
      record {
        tax_owed = owed;
        base = rounding.round_amount (sum_amounts (pos 0) taxed);
        total_tax = total_of rounding owed;
        withholding = pos 0;
        total_tax_owed = total_of rounding owed;
        combined_base = none;
        confirmed = by_cat;
        total_confirmed = total_of rounding by_cat;
        per_item = map (entry_of taxed_per_item) items;
      }

  year_of : Option TaxBase → List Item → PerItem × List (Category × ℤ) → FiscalYearTaxResult
  unfolding no_base progressive_year flat_year
  year_of none items resolved = no_base items resolved
  year_of (some base) items resolved = elim base.computation [
    | progressive ↦ progressive_year base.ruleset_key items resolved
    | flat ↦ flat_year base.flat_rate items resolved
  ]

  unfoldable pub compute_fiscal_year : Option TaxBase → List Item → FiscalYearTaxResult
  unfolding year_of resolve_items
  compute_fiscal_year base items =
      year_of base items (resolve_items rounding definitions confirmed convert items ([], []))
