-- ===== src/Pnl/Lots/Shares.antt =====
-- The lot loop of `compute_fifo` (backend/services/pnl_rules.py) against lists of single shares: a lot
-- stands for as many equal shares as its quantity, and a sale takes the first shares of the queue.
use mathlib.Core.List.{append_assoc}
use personal_fin_hub.Base.{
  ℕ, zero, suc, ◌+◌, ◌-◌, ◌≤◌, ◌<◌, ◌≡◌, refl, sym, ap, ap₂, ◌∙◌, ◌⊎◌, inl, inr, min, List, [], ◌∷◌,
  ◌++◌, arith, length, length-append, ltb, leb, ℤ, Bool-cases, leb→le,
}
use personal_fin_hub.Pnl.Lots.{PnlLot, consume}

module _ {A : Type 0} where
  abbrev pub replicate : ℕ → A → List A
  replicate zero a = []
  replicate (suc n) a = a ∷ replicate n a

  pub length-replicate : (n : ℕ) (a : A) → length (replicate n a) ≡ n
  length-replicate zero a = refl
  length-replicate (suc n) a = ap suc (length-replicate n a)

  pub replicate-append :
      (m n k : ℕ) (a : A) → k ≡ m + n → replicate m a ++ replicate n a ≡ replicate k a
  replicate-append zero n k a e = let e' : n ≡ k = omega arith in ap (λ i. replicate i a) e'
  replicate-append (suc m) n zero a e = absurd (omega arith)
  replicate-append (suc m) n (suc k) a e = ap (λ l. a ∷ l) (replicate-append m n k a (omega arith))

-- A share is known by its cost and its date.
abbrev pub Share : Type 0
Share = ℤ × ℕ

abbrev pub shares_of : PnlLot → List Share
shares_of lot = replicate lot.quantity (lot.unit_cost, lot.buy_date)

abbrev pub shares : List PnlLot → List Share
shares [] = []
shares (lot ∷ lots) = shares_of lot ++ shares lots

pub shares-append : (xs ys : List PnlLot) → shares (xs ++ ys) ≡ shares xs ++ shares ys
shares-append [] ys = refl
shares-append (x ∷ xs) ys = rw (shares-append xs ys) (sym (append_assoc (shares_of x) _ _))

-- Whatever the fuel, no share is lost and none changes its place.
pub consume-shares :
    (fuel : ℕ) (queue : List PnlLot) (remaining : ℕ)
    → let c = consume fuel queue remaining in shares c.lots ++ shares c.queue ≡ shares queue
unfolding consume
consume-shares zero queue remaining = refl
consume-shares (suc fuel) [] remaining = refl
consume-shares (suc fuel) (lot ∷ rest) remaining =
    let take = min lot.quantity remaining in
    let share : Share = (lot.unit_cost, lot.buy_date) in
    elim (Bool-cases (ltb 0 remaining)) [
      | inr done ↦ rw done refl
      | inl more ↦ elim (Bool-cases (leb lot.quantity take)) [
        | inl whole ↦
            let same : take ≡ lot.quantity = omega (arith, leb→le _ _ whole) in
            rw (more, whole)
              (append_assoc (replicate take share) _ _
                ∙ ap₂ (λ n l. replicate n share ++ l) same
                    (consume-shares fuel rest (remaining - take)))
        | inr split ↦
            rw (more, split)
              (append_assoc (replicate take share) _ _
                ∙ ap (λ l. replicate take share ++ l)
                    (consume-shares fuel (record lot { quantity = lot.quantity - take } ∷ rest)
                      (remaining - take))
                ∙ sym (append_assoc (replicate take share) _ _)
                ∙ ap (λ l. l ++ shares rest)
                    (replicate-append take (lot.quantity - take) lot.quantity share (omega arith)))
      ]
    ]

-- What is taken and what is left to take add up to what was asked for.
pub consume-count :
    (fuel : ℕ) (queue : List PnlLot) (remaining : ℕ)
    → let c = consume fuel queue remaining in
      length (shares c.lots) + c.remaining_to_consume ≡ remaining
unfolding consume
consume-count zero queue remaining = omega arith
consume-count (suc fuel) [] remaining = omega arith
consume-count (suc fuel) (lot ∷ rest) remaining =
    let take = min lot.quantity remaining in
    let shrunk = record lot { quantity = lot.quantity - take } ∷ rest in
    elim (Bool-cases (ltb 0 remaining)) [
      | inr done ↦ rw done (omega arith)
      | inl more ↦ elim (Bool-cases (leb lot.quantity take)) [
        | inl whole ↦
            rw (more, whole)
              (counted take _ _ (consume-count fuel rest (remaining - take)) (omega arith))
        | inr split ↦
            rw (more, split)
              (counted take _ _ (consume-count fuel shrunk (remaining - take)) (omega arith))
      ]
    ]
  where
    counted :
        (take : ℕ) (taken : List Share) (left : ℕ)
        → length taken + left ≡ remaining - take
        → take ≤ remaining
        → length (replicate take (lot.unit_cost, lot.buy_date) ++ taken) + left ≡ remaining
    counted take taken left e le =
        let share : Share = (lot.unit_cost, lot.buy_date) in
        omega (arith, length-append (replicate take share) taken, length-replicate take share)

-- With more fuel than lots the loop ends by its test: nothing is left to consume, or nothing to
-- consume from.
pub consume-done :
    (fuel : ℕ) (queue : List PnlLot) (remaining : ℕ)
    → length queue < fuel
    → let c = consume fuel queue remaining in (c.remaining_to_consume ≡ 0) ⊎ (c.queue ≡ [])
unfolding consume
consume-done zero queue remaining lt = absurd (omega arith)
consume-done (suc fuel) [] remaining lt = inr refl
consume-done (suc fuel) (lot ∷ rest) remaining lt =
    let take = min lot.quantity remaining in
    let shrunk = record lot { quantity = lot.quantity - take } ∷ rest in
    elim (Bool-cases (ltb 0 remaining)) [
      | inr done ↦ rw done (inl (ground arith))
      | inl more ↦ elim (Bool-cases (leb lot.quantity take)) [
        | inl whole ↦ rw (more, whole) (consume-done fuel rest (remaining - take) (omega arith))
        | inr split ↦
            rw (more, split)
              (let none_left : remaining - take ≡ 0 = ground arith in
                inl (omega (arith, none_left, consume-count fuel shrunk (remaining - take))))
      ]
    ]
