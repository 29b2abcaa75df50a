-- ===== src/Tax/Data.antt =====
-- The rows that backend/services/tax_engine.py reads and the results that it returns. Currencies,
-- slugs and names are numbers, since they are only compared and passed on.
use personal_fin_hub.Base.{ℕ, Bool, true, false, Option, List, ℤ}
use personal_fin_hub.FiscalPeriods.Table.{RuleKey, spain, japan, default, latest, no_rule}

pub data Category : Type 0 where
  capital_gains dividends interest : Category

abbrev pub same_category : Category → Category → Bool
same_category capital_gains capital_gains = true
same_category dividends dividends = true
same_category interest interest = true
same_category _ _ = false

abbrev pub same_rule : RuleKey → RuleKey → Bool
same_rule spain spain = true
same_rule japan japan = true
same_rule default default = true
same_rule latest latest = true
same_rule no_rule no_rule = true
same_rule _ _ = false

-- `items`' dicts
pub record Item : Type 0 where
  pub transaction_id : ℕ
  pub category : Category
  pub timestamp : ℕ
  pub taxable_amount : ℤ
  pub native_amount : ℤ
  pub fiscal_rule : RuleKey
  pub currency : ℕ

pub data Computation : Type 0 where
  progressive flat : Computation

-- the row of tax_bases
pub record TaxBase : Type 0 where
  pub ruleset_key : RuleKey
  pub computation : Computation
  pub flat_rate : Option ℤ

-- a row of tax_definitions
pub record TaxDefinition : Type 0 where
  pub id : ℕ
  pub slug : ℕ
  pub ruleset_key : Option RuleKey
  pub name : ℕ
  pub rate : Option ℤ

-- a row of transaction_taxes
pub record ConfirmedTax : Type 0 where
  pub tax_amount : ℤ
  pub currency : ℕ

pub record TaxDefinitionResult : Type 0 where
  pub tax_definition_id : ℕ
  pub slug : ℕ
  pub name : ℕ
  pub computed : ℤ
  pub confirmed : Option ℤ

pub record ItemTaxResult : Type 0 where
  pub transaction_id : ℕ
  pub category : Category
  pub tax_owed : ℤ
  pub taxes : List TaxDefinitionResult

pub record FiscalYearTaxResult : Type 0 where
  pub tax_owed : List (Category × ℤ)
  pub base : ℤ
  pub total_tax : ℤ
  pub withholding : ℤ
  pub total_tax_owed : ℤ
  pub combined_base : Option ℤ
  pub confirmed : List (Category × ℤ)
  pub total_confirmed : ℤ
  pub per_item : List ItemTaxResult
