-- ===== src/Tax/Tests.antt =====
-- The Spanish savings brackets, a year of three items, and the theorems at concrete inputs. Amounts are
-- whole units and rates are whole percent, so a tax is in hundredths and nothing is left to round.
use personal_fin_hub.Base.{
  ◌≡◌, refl, none, some, List, [], ◌∷◌, arith, ℤ, ℕ, pos, negsuc, ◌+ℤ◌, ◌-ℤ◌, ◌*ℤ◌,
}
use personal_fin_hub.FiscalPeriods.Table.{spain}
use personal_fin_hub.Tax.Bands.{TaxBand, Rounding, band_tax, apply_progressive}
use personal_fin_hub.Tax.Bands.Ranges.{apply_progressive-add}
use personal_fin_hub.Tax.Catalogue.{
  BaseVersion, applicable, IsNewest, resolve_tax_base, resolve_tax_base-IsNewest,
}
use personal_fin_hub.Tax.Data.{
  Category, capital_gains, dividends, Item, progressive, TaxBase, TaxDefinition,
}
use personal_fin_hub.Tax.Items.{
  Confirmed, sum_amounts, accumulate, resolve_items, attribute, dict_get, dict_set, owe,
}
use personal_fin_hub.Tax.Year.{compute_fiscal_year, in_base}
use personal_fin_hub.Tax.Year.Brackets.{compute_fiscal_year-brackets}
use personal_fin_hub.Tax.Year.Totals.{compute_fiscal_year-split}

abbrev exactly : Rounding
exactly = record { round_amount = λ a. a; round_tax = λ a. a }

abbrev low_band : TaxBand
low_band = record { from_amount = pos 0; to_amount = some (pos 6000); rate = pos 19 }

abbrev high_band : TaxBand
high_band = record { from_amount = pos 6000; to_amount = none; rate = pos 21 }

abbrev bands : List TaxBand
bands = low_band ∷ high_band ∷ []

apply_progressive_7000 : apply_progressive exactly (pos 0) (pos 7000) bands ≡ pos 135000
unfolding apply_progressive band_tax ◌+ℤ◌ ◌-ℤ◌ ◌*ℤ◌
apply_progressive_7000 = refl

abbrev item : ℕ → Category → ℕ → ℤ → Item
item id category day amount = record {
  transaction_id = id;
  category = category;
  timestamp = day;
  taxable_amount = amount;
  native_amount = amount;
  fiscal_rule = spain;
  currency = 1;
}

abbrev items : List Item
items =
    item 1 capital_gains 30 (pos 4000)
    ∷ item 2 dividends 10 (pos 1000)
    ∷ item 3 capital_gains 20 (pos 2000)
    ∷ []

abbrev base : TaxBase
base = record { ruleset_key = spain; computation = progressive; flat_rate = none }

abbrev foreign_withholding : TaxDefinition
foreign_withholding = record { id = 1; slug = 1; ruleset_key = none; name = 1; rate = none }

abbrev withheld : Confirmed
withheld = ((2, 1), record { tax_amount = pos 15000; currency = 1 }) ∷ []

abbrev categories : List Category
categories = capital_gains ∷ dividends ∷ []

abbrev same_currency : ℤ → ℕ → ℕ → ℤ
same_currency amount currency at = amount

apply_progressive-add_example :
    apply_progressive exactly (pos 0) (pos 5000) bands
      +ℤ apply_progressive exactly (pos 5000) (pos 7000) bands
    ≡ apply_progressive exactly (pos 0) (pos 7000) bands
apply_progressive-add_example =
    apply_progressive-add exactly (λ x. refl) (pos 0) (pos 5000) (pos 7000) bands (omega arith)
      (omega arith)

compute_fiscal_year-brackets_example :
    (compute_fiscal_year exactly categories bands
      (foreign_withholding ∷ [])
      withheld
      same_currency
      (some base)
      items).total_tax
    ≡ apply_progressive exactly (pos 0) (sum_amounts (pos 0) (in_base categories items)) bands
compute_fiscal_year-brackets_example =
    compute_fiscal_year-brackets exactly categories bands (foreign_withholding ∷ []) withheld
      same_currency (λ x. refl) base items refl (refl, (refl, (refl, tt))) refl

compute_fiscal_year-split_example :
    let r =
      compute_fiscal_year exactly categories bands
        (foreign_withholding ∷ [])
        withheld
        same_currency
        (some base)
        items in
    r.withholding +ℤ r.total_tax_owed ≡ r.total_tax
compute_fiscal_year-split_example =
    compute_fiscal_year-split exactly categories bands (foreign_withholding ∷ []) withheld
      same_currency (λ x. refl) (some base) items

-- A gain of 1000, a loss of 500 and a gain of 500: the base is 1000, but 1500 are taxed.
loss_between_gains :
    (compute_fiscal_year exactly categories bands [] [] same_currency (some base) (
      item 1 capital_gains 10 (pos 1000)
      ∷ item 2 capital_gains 20 (negsuc 499)
      ∷ item 3 capital_gains 30 (pos 500)
      ∷ [])).total_tax
    ≡ pos 28500
unfolding compute_fiscal_year apply_progressive band_tax ◌+ℤ◌ ◌-ℤ◌ ◌*ℤ◌ resolve_items attribute
    accumulate dict_get dict_set owe
loss_between_gains = refl

abbrev versions : List BaseVersion
versions =
    record { base = base; year_start = some 2021 }
    ∷ record { base = base; year_start = none }
    ∷ record { base = base; year_start = some 2025 }
    ∷ []

resolve_tax_base-IsNewest_example :
    IsNewest
      (applicable spain (some 2023))
      versions
      (some (record { base = base; year_start = some 2021 }))
unfolding resolve_tax_base
resolve_tax_base-IsNewest_example = resolve_tax_base-IsNewest spain (some 2023) versions
