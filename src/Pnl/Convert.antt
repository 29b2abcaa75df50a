-- ===== src/Pnl/Convert.antt =====
-- The conversion of sales and dividends to the display currency in backend/services/pnl_rules.py. The
-- rate provider is a parameter, as it is in the code; `none` stands for its NoRateError. Currency
-- codes are numbers, an empty code is no code, and the unit rate 1.0 is the parameter `one`.
pub mod Rates
use personal_fin_hub.Base.{
  ℕ, Bool, true, false, not, ◌&&◌, Option, none, some, List, [], ◌∷◌, ◌++◌, ◌==◌, if◌then◌else◌, ℤ,
  pos, ◌+ℤ◌, ◌-ℤ◌,
}
use personal_fin_hub.FiscalPeriods.Table.{RuleKey, spain, japan, default, latest, no_rule}
use personal_fin_hub.Pnl.Lots.{Floats, PnlLot}
use personal_fin_hub.Pnl.Fifo.{NativeSale}

pub record RateLookup : Type 0 where
  pub rate : ℤ
  pub timestamp : ℕ
  pub fallback : Bool

pub data Scope : Type 0 where
  realized_pl dividends tax_withholding : Scope

pub data Reason : Type 0 where
  no_rate closest_in_time : Reason

pub record RateFallbackInfo : Type 0 where
  pub currency : ℕ
  pub scope : Scope
  pub reason : Reason
  pub requested_date : Option ℕ
  pub used_timestamp : Option ℕ

pub record RateProvider : Type 0 where
  pub historical : (code base_code at : ℕ) → Option RateLookup
  pub latest_rate : (code base_code : ℕ) → Option RateLookup

pub record ConvertedSale : Type 0 where
  pub value : ℤ
  pub fallbacks : List RateFallbackInfo
  pub cost_basis_display : ℤ

-- `payment_currency and payment_currency != currency and fx_rate is not None`
abbrev pub paid_in_other : Option ℕ → ℕ → Option ℤ → Option (ℕ × ℤ)
paid_in_other none currency fx = none
paid_in_other (some payment) currency none = none
paid_in_other (some payment) currency (some fx) =
    if payment == currency then none else some (payment, fx)

module _ (f : Floats) (one : ℤ) (provider : RateProvider) (display_currency : ℕ) where
  -- `source` and `proceeds`
  source_proceeds : NativeSale → Option (ℕ × ℤ) → ℕ × ℤ
  source_proceeds sale none = (sale.currency, sale.sell_total)
  source_proceeds sale (some (payment, fx)) = (payment, f.mul sale.sell_total fx)

  unfoldable pub source_of : NativeSale → ℕ × ℤ
  unfolding source_proceeds
  source_of sale =
      source_proceeds sale (paid_in_other sale.payment_currency sale.currency sale.fx_rate)

  -- what a look-up reports, if it fell back
  abbrev pub closest : ℕ → Scope → ℕ → RateLookup → List RateFallbackInfo
  closest source scope at lookup =
      if lookup.fallback
      then record {
        currency = source;
        scope = scope;
        reason = closest_in_time;
        requested_date = some at;
        used_timestamp = some lookup.timestamp;
      }
        ∷ []
      else []

  abbrev pub missing : ℕ → Scope → Option ℕ → List RateFallbackInfo
  missing source scope at =
      record {
        currency = source;
        scope = scope;
        reason = no_rate;
        requested_date = at;
        used_timestamp = none;
      }
      ∷ []

  rate_or_one : ℕ → Scope → ℕ → Option RateLookup → ℤ × List RateFallbackInfo
  rate_or_one source scope at none = (one, missing source scope (some at))
  rate_or_one source scope at (some lookup) = (lookup.rate, closest source scope at lookup)

  -- `_lookup_rate`, with what it appends to `fallbacks`
  unfoldable pub lookup_rate : ℕ → ℕ → Scope → ℤ × List RateFallbackInfo
  unfolding rate_or_one
  lookup_rate source at scope =
      if source == display_currency
      then (one, [])
      else rate_or_one source scope at (provider.historical source display_currency at)

  unfoldable pub convert_dividend : ℤ → ℕ → ℕ → ℤ × List RateFallbackInfo
  convert_dividend amount currency at =
      let (rate, fallbacks) = lookup_rate currency at dividends in (f.mul amount rate, fallbacks)

  proceeds_at : ℕ → ℤ → ℕ → Option RateLookup → ℤ × List RateFallbackInfo
  proceeds_at source proceeds at none = (proceeds, missing source realized_pl (some at))
  proceeds_at source proceeds at (some lookup) =
      (f.mul proceeds lookup.rate, closest source realized_pl at lookup)

  -- `_proceeds_in_display`
  unfoldable pub proceeds_in_display : NativeSale → ℕ → ℤ × List RateFallbackInfo
  unfolding proceeds_at
  proceeds_in_display sale at =
      let (source, proceeds) = source_of sale in
      if source == display_currency
      then (proceeds, [])
      else proceeds_at source proceeds at (provider.historical source display_currency at)

  -- The loop over the lots of the rule of Japan: each at the rate of the day it was bought.
  unfoldable pub lots_cost : NativeSale → ℤ → List PnlLot → ℤ × List RateFallbackInfo
  lots_cost sale cost [] = (cost, [])
  lots_cost sale cost (lot ∷ lots) =
      let (rate, fallbacks) = lookup_rate sale.currency lot.buy_date realized_pl in
      let (total, more) =
        lots_cost sale (cost +ℤ f.mul (f.mul (pos lot.quantity) lot.unit_cost) rate) lots in
      (total, fallbacks ++ more)

  latest_or_same : ℕ → ℤ → Option RateLookup → ℤ × List RateFallbackInfo
  latest_or_same source amount none = (amount, missing source realized_pl none)
  latest_or_same source amount (some lookup) = (f.mul amount lookup.rate, [])

  -- An amount at the latest rate, in the rule "latest".
  pub at_latest : ℕ → ℤ → ℤ × List RateFallbackInfo
  unfolding latest_or_same
  at_latest source amount =
      if source == display_currency
      then (amount, [])
      else latest_or_same source amount (provider.latest_rate source display_currency)

  converted_sale : ℤ × List RateFallbackInfo → ℤ × List RateFallbackInfo → ConvertedSale
  converted_sale (proceeds, first) (cost, second) = record {
    value = proceeds -ℤ cost;
    fallbacks = first ++ second;
    cost_basis_display = f.round4 cost;
  }

  -- the cost at the rate of the day of the sale
  sale_day_cost : NativeSale → ℤ × List RateFallbackInfo
  sale_day_cost sale =
      let (rate, fallbacks) = lookup_rate sale.currency sale.sell_date realized_pl in
      (f.mul sale.cost_basis rate, fallbacks)

  unfoldable pub convert_sale : NativeSale → RuleKey → ConvertedSale
  unfolding converted_sale sale_day_cost lots_cost at_latest
  convert_sale sale japan =
      converted_sale (proceeds_in_display sale sale.sell_date) (lots_cost sale (pos 0) sale.lots)
  convert_sale sale latest =
      let (source, proceeds) = source_of sale in
      converted_sale (at_latest source proceeds) (at_latest sale.currency sale.cost_basis)
  convert_sale sale _ =
      converted_sale (proceeds_in_display sale sale.sell_date) (sale_day_cost sale)
