-- ===== src/Pnl/Convert/Rates.antt =====
-- What the conversion of a sale in backend/services/pnl_rules.py does with rates: where it needs none, and where
-- the provider has none.
use personal_fin_hub.Base.{
  ℕ, ◌≡◌, refl, true, Option, none, some, List, [], ◌∷◌, map, ◌==◌, ℤ, pos, ◌+ℤ◌, ◌-ℤ◌,
}
use personal_fin_hub.FiscalPeriods.Table.{RuleKey, spain, japan, default, latest, no_rule}
use personal_fin_hub.Pnl.Lots.{Floats, PnlLot}
use personal_fin_hub.Pnl.Fifo.{NativeSale, cost_from}
use personal_fin_hub.Pnl.Convert.{
  RateProvider, RateFallbackInfo, realized_pl, no_rate, convert_sale, source_of, lookup_rate,
  lots_cost, proceeds_in_display, paid_in_other, at_latest, converted_sale, sale_day_cost,
}

-- The native cost of a sale under a rule: of the lots themselves under the rule of Japan, and the rounded cost basis
-- otherwise.
abbrev pub native_cost : Floats → NativeSale → RuleKey → ℤ
native_cost f sale japan = cost_from f (pos 0) sale.lots
native_cost f sale _ = sale.cost_basis

-- The report of a rate that is missing for the gains, at a date or for today.
abbrev pub unanswered : ℕ → Option ℕ → RateFallbackInfo
unanswered code at = record {
  currency = code;
  scope = realized_pl;
  reason = no_rate;
  requested_date = at;
  used_timestamp = none;
}

-- The rates that a sale under a rule needs, with its proceeds in the currency `source`: for the proceeds, and
-- for each lot on the day it was bought under the rule of Japan, and for the cost basis otherwise.
abbrev pub unanswered_for : ℕ → NativeSale → RuleKey → List RateFallbackInfo
unanswered_for source sale japan =
    unanswered source (some sale.sell_date)
    ∷ map (λ lot. unanswered sale.currency (some lot.buy_date)) sale.lots
unanswered_for source sale latest = unanswered source none ∷ unanswered sale.currency none ∷ []
unanswered_for source sale _ =
    unanswered source (some sale.sell_date) ∷ unanswered sale.currency (some sale.sell_date) ∷ []

module _ (f : Floats) (one : ℤ) (provider : RateProvider) (display_currency : ℕ)
    (unit : (x : ℤ) → f.mul x one ≡ x) where
  lots_cost-home :
      (sale : NativeSale) (cost : ℤ) (lots : List PnlLot)
      → (sale.currency == display_currency) ≡ true
      → lots_cost f one provider display_currency sale cost lots ≡ (cost_from f cost lots, [])
  unfolding lots_cost cost_from lookup_rate
  lots_cost-home sale cost [] home = refl
  lots_cost-home sale cost (lot ∷ lots) home =
      rw (home, unit (f.mul (pos lot.quantity) lot.unit_cost))
        (lots_cost-home sale (cost +ℤ f.mul (pos lot.quantity) lot.unit_cost) lots home)

  sale_day-home :
      (sale : NativeSale)
      → (sale.currency == display_currency) ≡ true
      → paid_in_other sale.payment_currency sale.currency sale.fx_rate ≡ none
      → let c = convert_sale f one provider display_currency sale spain in
        (c.value ≡ sale.sell_total -ℤ sale.cost_basis)
        × (c.fallbacks ≡ [])
        × (c.cost_basis_display ≡ f.round4 sale.cost_basis)
  unfolding convert_sale source_of proceeds_in_display converted_sale sale_day_cost lookup_rate
  sale_day-home sale home paid = rw (paid, home, unit sale.cost_basis) (refl, refl, refl)

  -- A sale in the display currency that was paid in no other one needs no rate: under every rule its value is
  -- its total less its native cost, and nothing is reported, whatever the provider answers.
  pub convert_sale-home :
      (sale : NativeSale) (rule : RuleKey)
      → (sale.currency == display_currency) ≡ true
      → paid_in_other sale.payment_currency sale.currency sale.fx_rate ≡ none
      → let c = convert_sale f one provider display_currency sale rule in
        (c.value ≡ sale.sell_total -ℤ native_cost f sale rule)
        × (c.fallbacks ≡ [])
        × (c.cost_basis_display ≡ f.round4 (native_cost f sale rule))
  unfolding convert_sale source_of proceeds_in_display converted_sale sale_day_cost lookup_rate
      at_latest
  convert_sale-home sale japan home paid =
      rw (paid, home, lots_cost-home sale (pos 0) sale.lots home) (refl, refl, refl)
  convert_sale-home sale latest home paid = rw (paid, home) (refl, refl, refl)
  convert_sale-home sale spain home paid = sale_day-home sale home paid
  convert_sale-home sale default home paid = sale_day-home sale home paid
  convert_sale-home sale no_rule home paid = sale_day-home sale home paid
