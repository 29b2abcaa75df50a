-- ===== src/Tax/Bands.antt =====
-- `apply_progressive` of backend/services/tax_engine.py. Amounts and rates are signed fixed-point
-- numbers and a tax is counted in the product of their units, so products, sums and comparisons are
-- exact; what `round(x, 4)` does in either unit is a parameter.
pub mod Ranges
use personal_fin_hub.Base.{
  Bool, true, false, ◌||◌, Option, none, some, List, [], ◌∷◌, if◌then◌else◌, ℤ, pos, ◌+ℤ◌, ◌-ℤ◌,
  ◌*ℤ◌, ltb_ℤ, leb_ℤ, min_ℤ, max_ℤ, sort_with,
}

pub record TaxBand : Type 0 where
  pub from_amount : ℤ
  pub to_amount : Option ℤ
  pub rate : ℤ

-- `round(x, 4)` on an amount and on a tax
pub record Rounding : Type 0 where
  pub round_amount : ℤ → ℤ
  pub round_tax : ℤ → ℤ

-- `sorted(bands, key=lambda b: b.from_amount)`
abbrev pub sorted_bands : List TaxBand → List TaxBand
sorted_bands bands = sort_with (λ a b. leb_ℤ a.from_amount b.from_amount) bands

-- `min(range_end, hi)`, where an open band's `hi` is infinite
abbrev pub upper_end : ℤ → Option ℤ → ℤ
upper_end range_end none = range_end
upper_end range_end (some to) = min_ℤ range_end to

module _ (range_start range_end : ℤ) where
  -- what one band adds to `tax`
  unfoldable pub band_tax : TaxBand → ℤ
  band_tax band =
      let lo = max_ℤ range_start band.from_amount in
      let hi = upper_end range_end band.to_amount in
      if ltb_ℤ lo hi then (hi -ℤ lo) *ℤ band.rate else pos 0

  -- the loop over the bands, with `tax` so far
  pub walk_bands : ℤ → List TaxBand → ℤ
  walk_bands tax [] = tax
  walk_bands tax (band ∷ bands) = walk_bands (tax +ℤ band_tax band) bands

abbrev pub no_bands : List TaxBand → Bool
no_bands [] = true
no_bands (band ∷ bands) = false

unfoldable pub apply_progressive : Rounding → ℤ → ℤ → List TaxBand → ℤ
unfolding walk_bands
apply_progressive rounding range_start range_end bands =
    if leb_ℤ range_end range_start || no_bands bands
    then pos 0
    else rounding.round_tax (walk_bands range_start range_end (pos 0) (sorted_bands bands))

-- `_withholding`
unfoldable pub withholding : ℤ → ℤ → ℤ
withholding confirmed_generic total_tax =
    max_ℤ (pos 0) (total_tax -ℤ min_ℤ confirmed_generic total_tax)
