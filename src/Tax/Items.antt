-- ===== src/Tax/Items.antt =====
-- What `compute_fiscal_year` of backend/services/tax_engine.py does with each item: the taxes of its
-- definitions, and its share of the brackets or its flat tax. Dicts are association lists, in the order
-- of insertion. `convert`, which the code takes as an argument, is an argument here.
use personal_fin_hub.Base.{
  ℕ, Bool, true, ◌&&◌, Option, none, some, List, [], ◌∷◌, ◌++◌, ◌==◌, if◌then◌else◌, ℤ, pos, ◌+ℤ◌,
  ◌*ℤ◌, ltb_ℤ, leb_ℤ,
}
use personal_fin_hub.FiscalPeriods.Table.{RuleKey}
use personal_fin_hub.Tax.Bands.{TaxBand, Rounding, apply_progressive}
use personal_fin_hub.Tax.Data.{
  Category, same_category, same_rule, Item, TaxDefinition, ConfirmedTax, TaxDefinitionResult,
  ItemTaxResult,
}

-- `d.get(key)` and `d[key] = value`
module _ {K V : Type 0} (same : K → K → Bool) where
  unfoldable pub dict_get : K → List (K × V) → Option V
  dict_get k [] = none
  dict_get k ((j, v) ∷ d) = if same j k then some v else dict_get k d

  unfoldable pub dict_set : K → V → List (K × V) → List (K × V)
  dict_set k v [] = (k, v) ∷ []
  dict_set k v ((j, w) ∷ d) = if same j k then (j, v) ∷ d else (j, w) ∷ dict_set k v d

abbrev pub same_ids : ℕ × ℕ → ℕ × ℕ → Bool
same_ids a b = a.0 == b.0 && a.1 == b.1

-- `sum(d.values())`, from the left
abbrev pub values_from : ℤ → List (Category × ℤ) → ℤ
values_from acc [] = acc
values_from acc ((c, v) ∷ d) = values_from (acc +ℤ v) d

-- `d.get(category, 0.0)`
abbrev pub or_zero : Option ℤ → ℤ
or_zero none = pos 0
or_zero (some v) = v

module _ (rounding : Rounding) where
  -- `d[category] = round(d.get(category, 0.0) + amount, 4)`
  unfoldable pub accumulate : Category → ℤ → List (Category × ℤ) → List (Category × ℤ)
  unfolding dict_get dict_set
  accumulate c amount d =
      dict_set same_category c (rounding.round_tax (or_zero (dict_get same_category c d) +ℤ amount))
        d

abbrev pub Confirmed : Type 0
Confirmed = List ((ℕ × ℕ) × ConfirmedTax)

abbrev pub PerItem : Type 0
PerItem = List (ℕ × ItemTaxResult)

-- the ruleset of a definition: `d.get("ruleset_key") is None or ...`
abbrev pub rule_fits : Option RuleKey → RuleKey → Bool
rule_fits none rule = true
rule_fits (some key) rule = same_rule key rule

-- The rate of a definition that `applies` to an item.
abbrev pub rate_if_positive : Option ℤ → Option ℤ
rate_if_positive none = none
rate_if_positive (some rate) = if ltb_ℤ (pos 0) rate then some rate else none

abbrev pub applied_rate : TaxDefinition → Item → Option ℤ
applied_rate d item =
    if rule_fits d.ruleset_key item.fiscal_rule then rate_if_positive d.rate else none

abbrev pub tax_amount_of : Option ConfirmedTax → Option ℤ
tax_amount_of none = none
tax_amount_of (some row) = some row.tax_amount

-- `crate["currency"] if crate else item["currency"]`
abbrev pub currency_of : Option ConfirmedTax → Item → ℕ
currency_of none item = item.currency
currency_of (some row) item = row.currency

-- `per_item[tid].taxes`; every item has an entry by then
abbrev pub taxes_of : Option ItemTaxResult → List TaxDefinitionResult
taxes_of none = []
taxes_of (some entry) = entry.taxes

abbrev pub sum_amounts : ℤ → List Item → ℤ
sum_amounts acc [] = acc
sum_amounts acc (item ∷ items) = sum_amounts (acc +ℤ item.taxable_amount) items

module _ (rounding : Rounding) (definitions : List TaxDefinition) (confirmed : Confirmed)
    (convert : ℤ → ℕ → ℕ → ℤ) where
  confirmed_at : Item → TaxDefinition → Option ConfirmedTax
  unfolding dict_get
  confirmed_at item d = dict_get same_ids (item.transaction_id, d.id) confirmed

  definition_result : Item → TaxDefinition → ℤ → Option ℤ → TaxDefinitionResult
  definition_result item d computed amount = record {
    tax_definition_id = d.id;
    slug = d.slug;
    name = d.name;
    computed = computed;
    confirmed = amount;
  }

  resolve_definition : Item → TaxDefinition → Option ℤ → Option ℤ → List TaxDefinitionResult
  unfolding definition_result
  resolve_definition item d none none = []
  resolve_definition item d none (some amount) = definition_result item d (pos 0) (some amount) ∷ []
  resolve_definition item d (some rate) amount =
      definition_result item d (rounding.round_tax (rate *ℤ item.native_amount)) amount ∷ []

  -- `_resolve_item_taxes`, for the definitions from one on
  pub resolve_item_taxes : Item → List TaxDefinition → List TaxDefinitionResult
  unfolding resolve_definition confirmed_at
  resolve_item_taxes item [] = []
  resolve_item_taxes item (d ∷ ds) =
      resolve_definition item d (applied_rate d item) (tax_amount_of (confirmed_at item d))
      ++ resolve_item_taxes item ds

  -- the inner loop over an item's results
  confirm_item : Item → List TaxDefinitionResult → List (Category × ℤ) → List (Category × ℤ)
  unfolding dict_get accumulate
  confirm_item item [] by_cat = by_cat
  confirm_item item (t ∷ ts) by_cat =
      let row = dict_get same_ids (item.transaction_id, t.tax_definition_id) confirmed in
      confirm_item item ts (elim t.confirmed [
        | none ↦ by_cat
        | some amount ↦
            accumulate rounding item.category (convert amount (currency_of row item) item.timestamp)
              by_cat
      ])

  -- the first loop over the items
  unfoldable pub resolve_items :
      List Item → PerItem × List (Category × ℤ) → PerItem × List (Category × ℤ)
  unfolding dict_set resolve_item_taxes confirm_item
  resolve_items [] s = s
  resolve_items (item ∷ items) (per_item, by_cat) =
      let taxes = resolve_item_taxes item definitions in
      let entry : ItemTaxResult = record {
        transaction_id = item.transaction_id;
        category = item.category;
        tax_owed = pos 0;
        taxes = taxes;
      } in
      resolve_items items (
        dict_set (λ a b. a == b) item.transaction_id entry per_item,
        confirm_item item taxes by_cat,
      )

module _ (rounding : Rounding) where
  -- `per_item[tid] = ItemTaxResult(..., tax_owed, taxes=per_item[tid].taxes)`
  unfoldable pub owe : Item → ℤ → PerItem → PerItem
  unfolding dict_get dict_set
  owe item tax per_item =
      dict_set (λ a b. a == b) item.transaction_id
        (record {
          transaction_id = item.transaction_id;
          category = item.category;
          tax_owed = tax;
          taxes = taxes_of (dict_get (λ a b. a == b) item.transaction_id per_item);
        })
        per_item

  -- The loop that attributes the brackets, over items in the order of their timestamps.
  unfoldable pub attribute : List TaxBand → ℤ → List Item → PerItem → PerItem
  unfolding owe
  attribute bands running_total [] per_item = per_item
  attribute bands running_total (item ∷ items) per_item =
      let upto = running_total +ℤ item.taxable_amount in
      attribute bands upto items
        (owe item (apply_progressive rounding running_total upto bands) per_item)

  -- `if flat_rate`: a rate of zero and no rate are alike
  abbrev flat_tax : Option ℤ → Item → ℤ
  flat_tax none item = pos 0
  flat_tax (some rate) item =
      if leb_ℤ rate (pos 0) && leb_ℤ (pos 0) rate
      then pos 0
      else rounding.round_tax (item.taxable_amount *ℤ rate)

  unfoldable pub owe_flat : Option ℤ → List Item → PerItem → PerItem
  unfolding owe
  owe_flat flat_rate [] per_item = per_item
  owe_flat flat_rate (item ∷ items) per_item =
      owe_flat flat_rate items (owe item (flat_tax flat_rate item) per_item)
