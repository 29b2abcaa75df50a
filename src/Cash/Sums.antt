-- ===== src/Cash/Sums.antt =====
-- Sums of movements: over lists that are joined, sorted and filtered, and the loop of get_balance_at_date.
pub mod Shift
use personal_fin_hub.Base.{
  ℕ, ◌≡◌, refl, sym, ap, ◌∙◌, Bool, true, false, ◌&&◌, ◌||◌, Option, none, some, List, [], ◌∷◌,
  ◌++◌, leb, if◌then◌else◌, all, select, sort_by, sort_with, insert_with, ℤ, pos, ◌+ℤ◌, ◌-ℤ◌,
  int_laws, arith, +ℤ_assoc, +ℤ_zero, +ℤ_swap, zero_+ℤ, Option-cases, Bool-cases, inl, inr,
  or_false,
}
use personal_fin_hub.Pnl.Lots.{
  TransactionType, income, money_out, investment_buy, investment_sell, transfer, transfer_in,
  transfer_out, balance_adjustment,
}
use personal_fin_hub.Cash.Data.{TransactionCreate, Transaction}
use personal_fin_hub.Cash.Store.{is_none}
use personal_fin_hub.Cash.Balance.{
  sum_movements, movement, book, book_all, cash_of, or_zero, sql_amount,
}

abbrev is_known : Option ℤ → Bool
is_known none = false
is_known (some x) = true

-- Whether the loop can book a row: its amount is known where the loop needs it.
abbrev pub bookable : TransactionType → TransactionCreate → Bool
bookable balance_adjustment v = true
bookable transfer v = true
bookable t v = is_known (cash_of v)

abbrev pub can_book : Transaction → Bool
can_book r = bookable r.values.type_of r.values

pub select-append {ℓ} :
    {A : Type ℓ} (p : A → Bool) (xs ys : List A) → select p (xs ++ ys) ≡ select p xs ++ select p ys
select-append p [] ys = refl
select-append p (x ∷ xs) ys = ground (arith, select-append p xs ys)

pub all-append {ℓ} :
    {A : Type ℓ} (p : A → Bool) (xs ys : List A) → all p (xs ++ ys) ≡ (all p xs && all p ys)
all-append p [] ys = refl
all-append p (x ∷ xs) ys = ground (arith, all-append p xs ys)

pub select_cong {ℓ} :
    {A : Type ℓ} (p q : A → Bool) (xs : List A)
    → all (λ x. if p x then q x else if q x then false else true) xs ≡ true
    → select p xs ≡ select q xs
select_cong p q [] h = refl
select_cong p q (x ∷ xs) h = ground (arith, select_cong p q xs)

pub sum_movements-append :
    (xs ys : List Transaction) → sum_movements (xs ++ ys) ≡ sum_movements xs +ℤ sum_movements ys
unfolding sum_movements
sum_movements-append [] ys = sym (zero_+ℤ (sum_movements ys))
sum_movements-append (x ∷ xs) ys =
    ap (λ s. movement x +ℤ s) (sum_movements-append xs ys)
    ∙ sym (+ℤ_assoc (movement x) (sum_movements xs) (sum_movements ys))

module _ (key : Transaction → ℕ) where
  sum-insert :
      (x : Transaction) (xs : List Transaction)
      → sum_movements (insert_with (λ a b. leb (key a) (key b)) x xs)
        ≡ movement x +ℤ sum_movements xs
  unfolding sum_movements
  sum-insert x [] = refl
  sum-insert x (y ∷ ys) = elim (Bool-cases (leb (key x) (key y))) [
    | inl le ↦ rw le refl
    | inr gt ↦ rw gt (
        ap (λ s. movement y +ℤ s) (sum-insert x ys)
        ∙ +ℤ_swap (movement y) (movement x) (sum_movements ys))
  ]

  pub sum-sort : (xs : List Transaction) → sum_movements (sort_by key xs) ≡ sum_movements xs
  unfolding sum_movements
  sum-sort [] = refl
  sum-sort (x ∷ xs) = sum-insert x (sort_by key xs) ∙ ap (λ s. movement x +ℤ s) (sum-sort xs)

  all-insert :
      (p : Transaction → Bool) (x : Transaction) (xs : List Transaction)
      → all p (insert_with (λ a b. leb (key a) (key b)) x xs) ≡ (p x && all p xs)
  all-insert p x [] = refl
  all-insert p x (y ∷ ys) = ground (arith, all-insert p x ys)

  pub all-sort :
      (p : Transaction → Bool) (xs : List Transaction) → all p (sort_by key xs) ≡ all p xs
  all-sort p [] = refl
  all-sort p (x ∷ xs) = all-insert p x (sort_by key xs) ∙ ap (λ b. p x && b) (all-sort p xs)

add_minus : (b x : ℤ) → b -ℤ x ≡ b +ℤ (pos 0 -ℤ x)
add_minus b x = grind int_laws

book_eq :
    (t : TransactionType) (v : TransactionCreate) (b : ℤ)
    → book t v b ≡ (if bookable t v then some (b +ℤ sql_amount t v) else none)
book_eq balance_adjustment v b = refl
book_eq transfer v b = ap some (sym (+ℤ_zero b))
book_eq income v b = elim (Option-cases (cash_of v)) [ inl e ↦ rw e refl | inr (x, e) ↦ rw e refl ]
book_eq investment_sell v b = elim (Option-cases (cash_of v)) [
  | inl e ↦ rw e refl
  | inr (x, e) ↦ rw e refl
]
book_eq transfer_in v b = elim (Option-cases (cash_of v)) [
  | inl e ↦ rw e refl
  | inr (x, e) ↦ rw e refl
]
book_eq money_out v b = elim (Option-cases (cash_of v)) [
  | inl e ↦ rw e refl
  | inr (x, e) ↦ rw e (ap some (add_minus b x))
]
book_eq investment_buy v b = elim (Option-cases (cash_of v)) [
  | inl e ↦ rw e refl
  | inr (x, e) ↦ rw e (ap some (add_minus b x))
]
book_eq transfer_out v b = elim (Option-cases (cash_of v)) [
  | inl e ↦ rw e refl
  | inr (x, e) ↦ rw e (ap some (add_minus b x))
]

-- The loop adds up the movements, or meets an amount that is missing.
pub book_all_eq :
    (rs : List Transaction) (b : ℤ)
    → book_all rs b ≡ (if all can_book rs then some (b +ℤ sum_movements rs) else none)
unfolding book_all sum_movements
book_all_eq [] b = ap some (sym (+ℤ_zero b))
book_all_eq (r ∷ rs) b = elim (Bool-cases (can_book r)) [
  | inl can ↦
      rw (book_eq r.values.type_of r.values b, can)
        (book_all_eq rs (b +ℤ movement r)
          ∙ ap (λ s. if all can_book rs then some s else none)
              (+ℤ_assoc b (movement r) (sum_movements rs)))
  | inr cannot ↦ rw (book_eq r.values.type_of r.values b, cannot) refl
]
