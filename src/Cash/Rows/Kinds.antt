-- ===== src/Cash/Rows/Kinds.antt =====
-- Rows of type BALANCE_ADJUSTMENT, the latest of some snapshots, and a profile's own rows.
use personal_fin_hub.Base.{
  ℕ, ◌≡◌, refl, Bool, true, not, ◌&&◌, ◌||◌, Option, none, some, List, [], ◌∷◌, all, select, arith,
}
use personal_fin_hub.FiscalPeriods.Table.{in_profile}
use personal_fin_hub.Pnl.Lots.{
  TransactionType, income, money_out, investment_buy, investment_sell, transfer, transfer_in,
  transfer_out, balance_adjustment,
}
use personal_fin_hub.Cash.Data.{TransactionCreate, BalanceSnapshot}
use personal_fin_hub.Cash.Store.{is_adjustment, later_of, latest_snapshot}
use personal_fin_hub.Cash.Balance.{sql_amount, or_zero}
use personal_fin_hub.Cash.Sums.{bookable}

pub later_of-all :
    (p : BalanceSnapshot → Bool) (x s : BalanceSnapshot) (o : Option BalanceSnapshot)
    → p x ≡ true
    → ((r : BalanceSnapshot) → o ≡ some r → p r ≡ true)
    → later_of x o ≡ some s
    → p s ≡ true
later_of-all p x s none h k e = ground (arith, e)
later_of-all p x s (some r) h k e = ground (arith, e, k r refl)

pub latest_snapshot-all :
    (p : BalanceSnapshot → Bool) (ss : List BalanceSnapshot) (s : BalanceSnapshot)
    → all p ss ≡ true
    → latest_snapshot ss ≡ some s
    → p s ≡ true
unfolding latest_snapshot
latest_snapshot-all p [] s h e = ground (arith, e)
latest_snapshot-all p (x ∷ ss) s h e =
    let hs = all-parts (p x) (all p ss) h in
    later_of-all p x s (latest_snapshot ss) hs.0 (λ r k. latest_snapshot-all p ss r hs.1 k) e
  where
    all-parts : (a b : Bool) → (a && b) ≡ true → (a ≡ true) × (b ≡ true)
    all-parts a b k = ground arith

pub all-select :
    (p q : BalanceSnapshot → Bool) (xs : List BalanceSnapshot)
    → all (λ s. not (p s) || q s) xs ≡ true
    → all q (select p xs) ≡ true
all-select p q [] h = refl
all-select p q (x ∷ xs) h = ground (arith, all-select p q xs)

pub in_profile_self : (p : Option ℕ) → in_profile p p ≡ true
in_profile_self none = refl
in_profile_self (some n) = ground arith

pub adjustment_can_book :
    (t : TransactionType) (v : TransactionCreate) → is_adjustment t ≡ true → bookable t v ≡ true
adjustment_can_book balance_adjustment v e = refl
adjustment_can_book transfer v e = refl
adjustment_can_book income v e = ground (arith, e)
adjustment_can_book investment_sell v e = ground (arith, e)
adjustment_can_book transfer_in v e = ground (arith, e)
adjustment_can_book money_out v e = ground (arith, e)
adjustment_can_book investment_buy v e = ground (arith, e)
adjustment_can_book transfer_out v e = ground (arith, e)

pub adjustment_amount :
    (t : TransactionType) (v : TransactionCreate)
    → is_adjustment t ≡ true
    → sql_amount t v ≡ or_zero v.total_value
adjustment_amount balance_adjustment v e = refl
adjustment_amount transfer v e = absurd (ground (arith, e))
adjustment_amount income v e = absurd (ground (arith, e))
adjustment_amount investment_sell v e = absurd (ground (arith, e))
adjustment_amount transfer_in v e = absurd (ground (arith, e))
adjustment_amount money_out v e = absurd (ground (arith, e))
adjustment_amount investment_buy v e = absurd (ground (arith, e))
adjustment_amount transfer_out v e = absurd (ground (arith, e))
