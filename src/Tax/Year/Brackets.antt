-- ===== src/Tax/Year/Brackets.antt =====
-- Chronological bracket attribution in backend/services/tax_engine.py's `compute_fiscal_year`: the items' taxes
-- add up to the tax of the base.
use personal_fin_hub.Base.{
  ℕ, ◌≡◌, refl, sym, ap, ap₂, ◌∙◌, Bool, false, some, List, [], ◌∷◌, ◌==◌, any, ℤ, pos, ◌+ℤ◌, ◌≤ℤ◌,
  ltb_ℤ, arith, zero_+ℤ, +ℤ_zero, +ℤ_assoc, +ℤ_parts, any-sort_by, or-eq-false, leb,
}
use personal_fin_hub.Tax.Bands.{TaxBand, Rounding, apply_progressive}
use personal_fin_hub.Tax.Bands.Ranges.{apply_progressive-add}
use personal_fin_hub.Tax.Data.{Category, same_category, Item, progressive, TaxBase, TaxDefinition}
use personal_fin_hub.Tax.Items.{
  Confirmed, PerItem, dict_set, accumulate, sum_amounts, attribute, owe,
}
use personal_fin_hub.Tax.Year.{
  compute_fiscal_year, year_of, progressive_year, entry_or, entry_of, owed_by_category, total_of,
  by_time, in_base,
}
use personal_fin_hub.Tax.Year.Sums.{
  sum_over, sum_over-sort, sum_amounts-sum_over, IsDistinct, sort-IsDistinct, dict_get-set,
  dict_get-set_other, sum_values, values_from-sum, sum_values-add,
}

-- The tax that an item's entry says.
abbrev tax_in : PerItem → Item → ℤ
tax_in per_item item = (entry_of per_item item).tax_owed

-- Some item of a list has a negative amount.
abbrev pub has_loss : List Item → Bool
has_loss items = any (λ i. ltb_ℤ i.taxable_amount (pos 0)) items

module _ (rounding : Rounding) (bands : List TaxBand) where
  tax_in-owe : (i : Item) (t : ℤ) (per_item : PerItem) → tax_in (owe rounding i t per_item) i ≡ t
  unfolding entry_of owe
  tax_in-owe i t per_item =
      ap (λ o. (entry_or i o).tax_owed) (dict_get-set i.transaction_id _ per_item)

  tax_in-owe_other :
      (i j : Item) (t : ℤ) (per_item : PerItem)
      → (i.transaction_id == j.transaction_id) ≡ false
      → tax_in (owe rounding i t per_item) j ≡ tax_in per_item j
  unfolding entry_of owe
  tax_in-owe_other i j t per_item ne =
      ap (λ o. (entry_or j o).tax_owed)
        (dict_get-set_other i.transaction_id j.transaction_id _ per_item ne)

  tax_in-attribute :
      (i : Item) (items : List Item) (running : ℤ) (per_item : PerItem)
      → any (λ j. j.transaction_id == i.transaction_id) items ≡ false
      → tax_in (attribute rounding bands running items per_item) i ≡ tax_in per_item i
  unfolding attribute
  tax_in-attribute i [] running per_item ne = refl
  tax_in-attribute i (x ∷ items) running per_item ne =
      let nes = or-eq-false (x.transaction_id == i.transaction_id) _ ne in
      tax_in-attribute i items (running +ℤ x.taxable_amount) _ nes.1
      ∙ tax_in-owe_other x i _ per_item nes.0

  module _ (exact : (x : ℤ) → rounding.round_tax x ≡ x) where
    apply_progressive-nothing : (a : ℤ) → apply_progressive rounding a (a +ℤ pos 0) bands ≡ pos 0
    unfolding apply_progressive
    apply_progressive-nothing a = rw (+ℤ_zero a) (ground arith)

    amounts-gain :
        (items : List Item)
        → has_loss items ≡ false
        → pos 0 ≤ℤ sum_over (λ i. i.taxable_amount) items
    amounts-gain [] h = omega arith
    amounts-gain (x ∷ items) h =
        let hs = or-eq-false (ltb_ℤ x.taxable_amount (pos 0)) _ h in
        gain x.taxable_amount _ (amounts-gain items hs.1) hs.0
      where
        gain : (a b : ℤ) → pos 0 ≤ℤ b → ltb_ℤ a (pos 0) ≡ false → pos 0 ≤ℤ (a +ℤ b)
        gain a b p q = ground (arith, +ℤ_parts a b)

    -- The taxes that the loop attributes to items in the order of time make up the tax of their sum.
    attribute-sum :
        (items : List Item) (running : ℤ) (per_item : PerItem)
        → IsDistinct items
        → has_loss items ≡ false
        → sum_over (tax_in (attribute rounding bands running items per_item)) items
          ≡ apply_progressive rounding running
              (running +ℤ sum_over (λ i. i.taxable_amount) items)
              bands
    unfolding attribute
    attribute-sum [] running per_item d h = sym (apply_progressive-nothing running)
    attribute-sum (x ∷ items) running per_item d h =
        let hs = or-eq-false (ltb_ℤ x.taxable_amount (pos 0)) _ h in
        let upto = running +ℤ x.taxable_amount in
        ap₂ (λ t s. t +ℤ s) (tax_in-attribute x items upto _ d.0 ∙ tax_in-owe x _ per_item)
          (attribute-sum items upto _ d.1 hs.1)
        ∙ apply_progressive-add rounding exact running upto _ bands
            (ground (arith, +ℤ_parts running x.taxable_amount))
            (step upto _ (amounts-gain items hs.1))
        ∙ ap (λ b. apply_progressive rounding running b bands) (+ℤ_assoc running x.taxable_amount _)
      where
        step : (a b : ℤ) → pos 0 ≤ℤ b → a ≤ℤ (a +ℤ b)
        step a b p = ground (arith, +ℤ_parts a b)

module _ (rounding : Rounding) (exact : (x : ℤ) → rounding.round_tax x ≡ x) where
  owed-sum :
      (per_item : PerItem) (items : List Item) (owed : List (Category × ℤ))
      → sum_values (owed_by_category rounding per_item items owed)
        ≡ sum_values owed +ℤ sum_over (tax_in per_item) items
  unfolding owed_by_category accumulate
  owed-sum per_item [] owed = sym (+ℤ_zero _)
  owed-sum per_item (x ∷ items) owed =
      owed-sum per_item items
        (accumulate rounding (entry_of per_item x).category (tax_in per_item x) owed)
      ∙ ap (λ s. s +ℤ sum_over (tax_in per_item) items)
          (ap (λ v. sum_values (dict_set same_category (entry_of per_item x).category v owed))
              (exact _)
            ∙ sum_values-add (entry_of per_item x).category (tax_in per_item x) owed)
      ∙ +ℤ_assoc _ _ _

  total_of-sum : (d : List (Category × ℤ)) → total_of rounding d ≡ sum_values d
  unfolding total_of
  total_of-sum d = exact _ ∙ values_from-sum (pos 0) d ∙ zero_+ℤ _

module _ (rounding : Rounding) (categories : List Category) (bands : List TaxBand)
    (definitions : List TaxDefinition) (confirmed : Confirmed) (convert : ℤ → ℕ → ℕ → ℤ)
    (exact : (x : ℤ) → rounding.round_tax x ≡ x) where
  attributed-total :
      (taxed : List Item) (per_item : PerItem)
      → IsDistinct taxed
      → has_loss taxed ≡ false
      → total_of rounding (
          owed_by_category rounding
            (attribute rounding bands (pos 0) (by_time taxed) per_item)
            taxed
            [])
        ≡ apply_progressive rounding (pos 0) (sum_amounts (pos 0) taxed) bands
  attributed-total taxed per_item d h =
      let later : Item → Item → Bool = λ x y. leb x.timestamp y.timestamp in
      let attributed = attribute rounding bands (pos 0) (by_time taxed) per_item in
      total_of-sum rounding exact _
      ∙ owed-sum rounding exact attributed taxed []
      ∙ zero_+ℤ _
      ∙ sym (sum_over-sort (tax_in attributed) later taxed)
      ∙ attribute-sum rounding bands exact (by_time taxed) (pos 0) per_item
          (sort-IsDistinct later taxed d)
          (any-sort_by (λ i. i.timestamp) (λ i. ltb_ℤ i.taxable_amount (pos 0)) taxed ∙ h)
      ∙ ap (λ b. apply_progressive rounding (pos 0) b bands)
          (ap (λ s. pos 0 +ℤ s) (sum_over-sort (λ i. i.taxable_amount) later taxed)
            ∙ sym (sum_amounts-sum_over (pos 0) taxed))

  -- A progressive year whose taxed items are different transactions and have no negative amount: where rounding
  -- loses nothing, the year's tax, summed over the categories from the items' own taxes in the order of
  -- time, is the tax that the bands put on the whole base.
  pub compute_fiscal_year-brackets :
      (base : TaxBase) (items : List Item)
      → base.computation ≡ progressive
      → IsDistinct (in_base categories items)
      → has_loss (in_base categories items) ≡ false
      → (compute_fiscal_year rounding categories bands definitions confirmed convert
          (some base)
          items).total_tax
        ≡ apply_progressive rounding (pos 0) (sum_amounts (pos 0) (in_base categories items)) bands
  unfolding compute_fiscal_year year_of progressive_year
  compute_fiscal_year-brackets base items kind d h =
      ap
        (λ c.
          (compute_fiscal_year rounding categories bands definitions confirmed convert
            (some (record base { computation = c })) items).total_tax)
        kind
      ∙ attributed-total (in_base categories items) _ d h
