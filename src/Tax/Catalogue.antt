-- ===== src/Tax/Catalogue.antt =====
-- `resolve_tax_base` of backend/services/tax_engine.py: the version of a ruleset's base that a year uses.
use mathlib.Core.List.{Memᴰ}
use personal_fin_hub.Base.{
  ℕ, suc, ◌≡◌, refl, Bool, true, false, ◌&&◌, Option, none, some, List, [], ◌∷◌, ltb, leb, any,
  select, sort_with, insert_with, arith, Bool-cases, inl, inr, or_false, any-false_mono,
}
use personal_fin_hub.FiscalPeriods.Table.{RuleKey, fetchone}
use personal_fin_hub.Tax.Data.{TaxBase, same_rule}

-- a row of tax_bases
pub record BaseVersion : Type 0 where
  pub base : TaxBase
  pub year_start : Option ℕ

-- the WHERE clause; a call without a year asks for the year 10**9
abbrev pub asked_year : Option ℕ → ℕ
asked_year none = 1000000000
asked_year (some year) = year

abbrev pub started : Option ℕ → ℕ → Bool
started none year = true
started (some start) year = leb start year

abbrev pub applicable : RuleKey → Option ℕ → BaseVersion → Bool
applicable rule year row =
    same_rule row.base.ruleset_key rule && started row.year_start (asked_year year)

-- `ORDER BY year_start IS NOT NULL DESC, year_start DESC`: the default row comes last.
abbrev pub recency : Option ℕ → ℕ
recency none = 0
recency (some start) = suc start

abbrev pub before : BaseVersion → BaseVersion → Bool
before r q = leb (recency q.year_start) (recency r.year_start)

unfoldable pub resolve_tax_base : RuleKey → Option ℕ → List BaseVersion → Option BaseVersion
resolve_tax_base rule year rows =
    fetchone (sort_with before (select (λ row. applicable rule year row) rows))

-- A row of the list that passes the test and that no other such row of it is more recent than, or nothing
-- where none passes.
abbrev pub IsNewest : (BaseVersion → Bool) → List BaseVersion → Option BaseVersion → Type 0
IsNewest p rows none = any p rows ≡ false
IsNewest p rows (some r) =
    Memᴰ r rows
    × (p r ≡ true)
    × (any (λ q. p q && ltb (recency r.year_start) (recency q.year_start)) rows ≡ false)

module _ (p : BaseVersion → Bool) where
  insert-IsNewest :
      (x : BaseVersion) (rows sorted : List BaseVersion)
      → p x ≡ true
      → IsNewest p rows (fetchone sorted)
      → IsNewest p (x ∷ rows) (fetchone (insert_with before x sorted))
  insert-IsNewest x rows [] px n = (
    Memᴰ.head refl,
    px,
    or_false _ _ (ground arith) (any-false_mono p _ rows (λ q h. ground arith) n),
  )
  insert-IsNewest x rows (y ∷ ys) px n = elim (Bool-cases (before x y)) [
    | inl first ↦ rw first (
      Memᴰ.head refl,
      px,
      or_false _ _ (ground arith) (any-false_mono _ _ rows (λ q h. ground arith) n.2),
    )
    | inr later ↦ rw later (Memᴰ.tail n.0, n.1, or_false _ _ (ground arith) n.2)
  ]

  skip-IsNewest :
      (x : BaseVersion) (rows : List BaseVersion) (o : Option BaseVersion)
      → p x ≡ false
      → IsNewest p rows o
      → IsNewest p (x ∷ rows) o
  skip-IsNewest x rows none px n = or_false _ _ px n
  skip-IsNewest x rows (some r) px n = (Memᴰ.tail n.0, n.1, or_false _ _ (ground arith) n.2)

  sort-IsNewest :
      (rows : List BaseVersion) → IsNewest p rows (fetchone (sort_with before (select p rows)))
  sort-IsNewest [] = refl
  sort-IsNewest (x ∷ rows) = elim (Bool-cases (p x)) [
    | inl taken ↦
        rw taken
          (insert-IsNewest x rows (sort_with before (select p rows)) taken (sort-IsNewest rows))
    | inr left ↦ rw left (skip-IsNewest x rows _ left (sort-IsNewest rows))
  ]

-- A year uses one of the stored versions, as it is stored: of its ruleset, started by then, and with no other
-- such version that started later (a default version, which has no start, counts as the earliest); it
-- uses none only if no version of the ruleset applies.
pub resolve_tax_base-IsNewest :
    (rule : RuleKey) (year : Option ℕ) (rows : List BaseVersion)
    → IsNewest (applicable rule year) rows (resolve_tax_base rule year rows)
unfolding resolve_tax_base
resolve_tax_base-IsNewest rule year rows = sort-IsNewest (applicable rule year) rows
