-- ===== src/Tax/Bands/Ranges.antt =====
-- How the tax of `apply_progressive` splits over ranges and bands.
use personal_fin_hub.Base.{
  Bool-cases, ◌⊎◌, inl, inr, ◌+◌, ◌≡◌, refl, sym, ap, ap₂, ◌∙◌, Bool, Option, none, some, List, [],
  ◌∷◌, if◌then◌else◌, ℤ, pos, ◌+ℤ◌, ◌-ℤ◌, ◌*ℤ◌, ◌≤ℤ◌, ltb_ℤ, leb_ℤ, min_ℤ, max_ℤ, sort_with,
  insert_with, arith, +ℤ_zero, zero_+ℤ, +ℤ_assoc, +ℤ_swap, +ℤ_exchange, *ℤ_add, zero_*ℤ, -ℤ_parts,
  +ℤ_parts, eq_of_parts, pos_part, neg_part,
}
use personal_fin_hub.Tax.Bands.{
  TaxBand, Rounding, sorted_bands, upper_end, band_tax, walk_bands, apply_progressive,
}

max_right : (a b : ℤ) → a ≤ℤ b → max_ℤ a b ≡ b
max_right a b le = ground (arith, eq_of_parts a b)

max_left : (a b : ℤ) → b ≤ℤ a → max_ℤ a b ≡ a
max_left a b le = ground (arith, eq_of_parts a b)

min_right : (a b : ℤ) → b ≤ℤ a → min_ℤ a b ≡ b
min_right a b le = ground (arith, eq_of_parts a b)

min_left : (a b : ℤ) → a ≤ℤ b → min_ℤ a b ≡ a
min_left a b le = ground (arith, eq_of_parts a b)

≤ℤ_max : (a b : ℤ) → (a ≤ℤ max_ℤ a b) × (b ≤ℤ max_ℤ a b)
≤ℤ_max a b = ground arith

min_≤ℤ : (a b : ℤ) → (min_ℤ a b ≤ℤ a) × (min_ℤ a b ≤ℤ b)
min_≤ℤ a b = ground arith

≤ℤ_total : (a b : ℤ) → (a ≤ℤ b) ⊎ (b ≤ℤ a)
≤ℤ_total a b = omega arith

-- How much lies between two bounds.
abbrev span : ℤ → ℤ → ℤ
span lo hi = if ltb_ℤ lo hi then hi -ℤ lo else pos 0

span-empty : (lo hi : ℤ) → hi ≤ℤ lo → span lo hi ≡ pos 0
span-empty lo hi le = ground arith

span-parts :
    (lo hi : ℤ)
    → lo ≤ℤ hi
    → pos_part (span lo hi) + (pos_part lo + neg_part hi)
      ≡ neg_part (span lo hi) + (pos_part hi + neg_part lo)
span-parts lo hi le = ground (arith, -ℤ_parts hi lo)

span-add : (lo m hi : ℤ) → lo ≤ℤ m → m ≤ℤ hi → span lo m +ℤ span m hi ≡ span lo hi
span-add lo m hi p q = eq_of_parts _ _ (
    omega (
      arith,
      span-parts lo m p,
      span-parts m hi q,
      span-parts lo hi (omega arith),
      +ℤ_parts (span lo m) (span m hi),
    ))

-- How much of a range lies in a band.
abbrev pub width : ℤ → ℤ → TaxBand → ℤ
width a b band = span (max_ℤ a band.from_amount) (upper_end b band.to_amount)

band_tax-width : (a b : ℤ) (band : TaxBand) → band_tax a b band ≡ width a b band *ℤ band.rate
unfolding band_tax
band_tax-width a b band = ground (arith, zero_*ℤ band.rate)

-- The cut `m` of a range whose upper end is `hi`, within a band that starts at `from`.
cut-add :
    (a m hi from : ℤ)
    → a ≤ℤ m
    → m ≤ℤ hi
    → span (max_ℤ a from) m +ℤ span (max_ℤ m from) hi ≡ span (max_ℤ a from) hi
cut-add a m hi from p q = elim (≤ℤ_total m from) [
  | inl below ↦
      rw (max_right m from below, max_right a from (omega arith), span-empty from m below)
        (zero_+ℤ (span from hi))
  | inr above ↦ rw (max_left m from above) (span-add (max_ℤ a from) m hi (ground arith) q)
]

end-add :
    (a b c from : ℤ) (to : Option ℤ)
    → a ≤ℤ b
    → b ≤ℤ c
    → span (max_ℤ a from) (upper_end b to) +ℤ span (max_ℤ b from) (upper_end c to)
      ≡ span (max_ℤ a from) (upper_end c to)
end-add a b c from none p q = cut-add a b c from p q
end-add a b c from (some to) p q = elim (≤ℤ_total b to) [
  | inl below ↦ rw (min_left b to below) (cut-add a b (min_ℤ c to) from p (ground arith))
  | inr above ↦
      rw
        (
          min_right b to above,
          min_right c to (omega arith),
          span-empty (max_ℤ b from) to (ground arith),
        )
        (+ℤ_zero (span (max_ℤ a from) to))
]

band_tax-add :
    (a b c : ℤ) (band : TaxBand)
    → a ≤ℤ b
    → b ≤ℤ c
    → band_tax a b band +ℤ band_tax b c band ≡ band_tax a c band
band_tax-add a b c band p q =
    ap₂ (λ x y. x +ℤ y) (band_tax-width a b band) (band_tax-width b c band)
    ∙ sym (*ℤ_add (width a b band) (width b c band) band.rate)
    ∙ ap (λ w. w *ℤ band.rate) (end-add a b c band.from_amount band.to_amount p q)
    ∙ sym (band_tax-width a c band)

-- The tax that a list of bands puts on a range, in any order.
abbrev band_sum : ℤ → ℤ → List TaxBand → ℤ
band_sum a b [] = pos 0
band_sum a b (band ∷ bands) = band_tax a b band +ℤ band_sum a b bands

walk_bands-sum :
    (a b tax : ℤ) (bands : List TaxBand) → walk_bands a b tax bands ≡ tax +ℤ band_sum a b bands
unfolding walk_bands
walk_bands-sum a b tax [] = sym (+ℤ_zero tax)
walk_bands-sum a b tax (band ∷ bands) =
    walk_bands-sum a b (tax +ℤ band_tax a b band) bands ∙ +ℤ_assoc tax _ _

band_sum-insert :
    (a b : ℤ) (le : TaxBand → TaxBand → Bool) (band : TaxBand) (bands : List TaxBand)
    → band_sum a b (insert_with le band bands) ≡ band_sum a b (band ∷ bands)
band_sum-insert a b le band [] = refl
band_sum-insert a b le band (x ∷ bands) = elim (Bool-cases (le band x)) [
  | inl first ↦ rw first refl
  | inr later ↦
      rw later (ap (λ s. band_tax a b x +ℤ s) (band_sum-insert a b le band bands) ∙ +ℤ_swap _ _ _)
]

band_sum-sort :
    (a b : ℤ) (le : TaxBand → TaxBand → Bool) (bands : List TaxBand)
    → band_sum a b (sort_with le bands) ≡ band_sum a b bands
band_sum-sort a b le [] = refl
band_sum-sort a b le (band ∷ bands) =
    band_sum-insert a b le band (sort_with le bands)
    ∙ ap (λ s. band_tax a b band +ℤ s) (band_sum-sort a b le bands)

band_sum-add :
    (a b c : ℤ) (bands : List TaxBand)
    → a ≤ℤ b
    → b ≤ℤ c
    → band_sum a b bands +ℤ band_sum b c bands ≡ band_sum a c bands
band_sum-add a b c [] p q = +ℤ_zero (pos 0)
band_sum-add a b c (band ∷ bands) p q =
    +ℤ_exchange _ _ _ _
    ∙ ap₂ (λ x y. x +ℤ y) (band_tax-add a b c band p q) (band_sum-add a b c bands p q)

band_sum-empty : (a b : ℤ) (bands : List TaxBand) → b ≤ℤ a → band_sum a b bands ≡ pos 0
band_sum-empty a b [] le = refl
band_sum-empty a b (band ∷ bands) le =
    ap₂ (λ x y. x +ℤ y)
      (band_tax-width a b band
        ∙ ap (λ w. w *ℤ band.rate)
            (span-empty (max_ℤ a band.from_amount) (upper_end b band.to_amount)
              (upper_end-le a b band.from_amount band.to_amount le))
        ∙ zero_*ℤ band.rate)
      (band_sum-empty a b bands le)
    ∙ +ℤ_zero (pos 0)
  where
    upper_end-le : (a b from : ℤ) (to : Option ℤ) → b ≤ℤ a → upper_end b to ≤ℤ max_ℤ a from
    upper_end-le a b from none le = ground arith
    upper_end-le a b from (some to) le = ground arith

module _ (rounding : Rounding) (exact : (x : ℤ) → rounding.round_tax x ≡ x) where
  pub apply_progressive-sum :
      (a b : ℤ) (bands : List TaxBand) → apply_progressive rounding a b bands ≡ band_sum a b bands
  unfolding apply_progressive
  apply_progressive-sum a b [] = ground arith
  apply_progressive-sum a b (band ∷ bands) = elim (Bool-cases (leb_ℤ b a)) [
    | inl empty ↦ rw empty (sym (band_sum-empty a b (band ∷ bands) (ground arith)))
    | inr range ↦ rw range (
        exact _
        ∙ walk_bands-sum a b (pos 0) (sorted_bands (band ∷ bands))
        ∙ zero_+ℤ _
        ∙ band_sum-sort a b _ (band ∷ bands))
  ]

  -- Where rounding loses nothing, the taxes of a range's two parts add up to the tax of the range,
  -- wherever it is cut and whatever the bands.
  pub apply_progressive-add :
      (a b c : ℤ) (bands : List TaxBand)
      → a ≤ℤ b
      → b ≤ℤ c
      → apply_progressive rounding a b bands +ℤ apply_progressive rounding b c bands
        ≡ apply_progressive rounding a c bands
  apply_progressive-add a b c bands p q =
      ap₂ (λ x y. x +ℤ y) (apply_progressive-sum a b bands) (apply_progressive-sum b c bands)
      ∙ band_sum-add a b c bands p q
      ∙ sym (apply_progressive-sum a c bands)
