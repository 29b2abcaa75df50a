-- ===== src/Tax/Year/Totals.antt =====
-- What the totals of backend/services/tax_engine.py's `compute_fiscal_year` have to do with each other.
use personal_fin_hub.Base.{
  ◌≡◌, Option, none, some, List, ℕ, ℤ, pos, ◌+ℤ◌, ◌-ℤ◌, min_ℤ, max_ℤ, int_laws, zero_+ℤ, ap, ap₂,
  ◌∙◌,
}
use personal_fin_hub.Tax.Bands.{TaxBand, Rounding}
use personal_fin_hub.Tax.Data.{Category, Item, progressive, flat, TaxBase, TaxDefinition}
use personal_fin_hub.Tax.Items.{Confirmed}
use personal_fin_hub.Tax.Year.{compute_fiscal_year, year_of, progressive_year, flat_year, no_base}

split_total :
    (generic total : ℤ)
    → min_ℤ generic total +ℤ max_ℤ (pos 0) (total -ℤ min_ℤ generic total) ≡ total
split_total generic total = grind int_laws

module _ (rounding : Rounding) (categories : List Category) (bands : List TaxBand)
    (definitions : List TaxDefinition) (confirmed : Confirmed) (convert : ℤ → ℕ → ℕ → ℤ)
    (exact : (x : ℤ) → rounding.round_tax x ≡ x) where
  owed_rounded :
      (generic total : ℤ)
      → rounding.round_tax (max_ℤ (pos 0) (total -ℤ rounding.round_tax (min_ℤ generic total)))
        ≡ max_ℤ (pos 0) (total -ℤ min_ℤ generic total)
  owed_rounded generic total =
      exact _ ∙ ap (λ w. max_ℤ (pos 0) (total -ℤ w)) (exact (min_ℤ generic total))

  split_rounded :
      (generic total : ℤ)
      → let held_back = rounding.round_tax (min_ℤ generic total) in
        held_back +ℤ rounding.round_tax (max_ℤ (pos 0) (total -ℤ held_back)) ≡ total
  split_rounded generic total =
      ap₂ (λ w o. w +ℤ o) (exact (min_ℤ generic total)) (owed_rounded generic total)
      ∙ split_total generic total

  -- Where rounding loses nothing, in a year of any kind what is withheld and what is still owed add up to the
  -- tax.
  pub compute_fiscal_year-split :
      (base : Option TaxBase) (items : List Item)
      → let r =
          compute_fiscal_year rounding categories bands definitions confirmed convert base items in
        r.withholding +ℤ r.total_tax_owed ≡ r.total_tax
  unfolding compute_fiscal_year year_of progressive_year flat_year no_base
  compute_fiscal_year-split none items = zero_+ℤ (pos 0)
  compute_fiscal_year-split (some base) items =
      elim base.computation
        as (λ c.
          let r =
            compute_fiscal_year rounding categories bands definitions confirmed convert
              (some (record base { computation = c })) items in
          r.withholding +ℤ r.total_tax_owed ≡ r.total_tax) [
            | progressive ↦ split_rounded _ _
            | flat ↦ zero_+ℤ _
          ]
