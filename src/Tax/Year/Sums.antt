-- ===== src/Tax/Year/Sums.antt =====
-- Sums over the items and the dicts of backend/services/tax_engine.py.
use personal_fin_hub.Base.{
  ℕ, ◌≡◌, refl, sym, ap, ◌∙◌, Bool, false, ◌||◌, some, List, [], ◌∷◌, ◌==◌, any, ℤ, pos, ◌+ℤ◌,
  arith, int_laws, +ℤ_zero, +ℤ_assoc, +ℤ_swap, insert_with, sort_with, Bool-cases, inl, inr,
}
use personal_fin_hub.Tax.Data.{Category, same_category, Item}
use personal_fin_hub.Tax.Items.{dict_get, dict_set, values_from, or_zero, sum_amounts}

-- The sum of a number over items.
abbrev pub sum_over : (Item → ℤ) → List Item → ℤ
sum_over f [] = pos 0
sum_over f (item ∷ items) = f item +ℤ sum_over f items

sum_over-insert :
    (f : Item → ℤ) (le : Item → Item → Bool) (x : Item) (items : List Item)
    → sum_over f (insert_with le x items) ≡ sum_over f (x ∷ items)
sum_over-insert f le x [] = refl
sum_over-insert f le x (y ∷ items) = elim (Bool-cases (le x y)) [
  | inl first ↦ rw first refl
  | inr later ↦ rw later (ap (λ s. f y +ℤ s) (sum_over-insert f le x items) ∙ +ℤ_swap (f y) (f x) _)
]

pub sum_over-sort :
    (f : Item → ℤ) (le : Item → Item → Bool) (items : List Item)
    → sum_over f (sort_with le items) ≡ sum_over f items
sum_over-sort f le [] = refl
sum_over-sort f le (x ∷ items) =
    sum_over-insert f le x (sort_with le items) ∙ ap (λ s. f x +ℤ s) (sum_over-sort f le items)

pub sum_amounts-sum_over :
    (acc : ℤ) (items : List Item)
    → sum_amounts acc items ≡ acc +ℤ sum_over (λ i. i.taxable_amount) items
sum_amounts-sum_over acc [] = sym (+ℤ_zero acc)
sum_amounts-sum_over acc (x ∷ items) =
    sum_amounts-sum_over (acc +ℤ x.taxable_amount) items ∙ +ℤ_assoc acc _ _

-- Transaction ids occur once.
abbrev pub IsDistinct : List Item → Type 0
IsDistinct [] = Unit
IsDistinct (item ∷ items) =
    (any (λ j. j.transaction_id == item.transaction_id) items ≡ false) × IsDistinct items

any-insert :
    (p : Item → Bool) (le : Item → Item → Bool) (x : Item) (items : List Item)
    → any p (insert_with le x items) ≡ any p (x ∷ items)
any-insert p le x [] = refl
any-insert p le x (y ∷ items) = ground (arith, any-insert p le x items)

insert-IsDistinct :
    (le : Item → Item → Bool) (x : Item) (items : List Item)
    → IsDistinct (x ∷ items)
    → IsDistinct (insert_with le x items)
insert-IsDistinct le x [] d = d
insert-IsDistinct le x (y ∷ items) d = elim (Bool-cases (le x y)) [
  | inl first ↦ rw first d
  | inr later ↦ rw later (
    any-insert (λ j. j.transaction_id == y.transaction_id) le x items ∙ ground arith,
    insert-IsDistinct le x items (ground arith),
  )
]

pub sort-IsDistinct :
    (le : Item → Item → Bool) (items : List Item)
    → IsDistinct items
    → IsDistinct (sort_with le items)
sort-IsDistinct le [] d = tt
sort-IsDistinct le (x ∷ items) d = insert-IsDistinct le x (sort_with le items) (
  any-sort le (λ j. j.transaction_id == x.transaction_id) items ∙ d.0,
  sort-IsDistinct le items d.1,
)
  where
    any-sort :
        (le : Item → Item → Bool) (p : Item → Bool) (items : List Item)
        → any p (sort_with le items) ≡ any p items
    any-sort le p [] = refl
    any-sort le p (y ∷ items) =
        any-insert p le y (sort_with le items) ∙ ap (λ b. p y || b) (any-sort le p items)

-- Reading a dict that was written.
abbrev pub same_id : ℕ → ℕ → Bool
same_id a b = a == b

pub dict_get-set :
    {V : Type 0} (k : ℕ) (v : V) (d : List (ℕ × V))
    → dict_get same_id k (dict_set same_id k v d) ≡ some v
unfolding dict_get dict_set
dict_get-set k v [] = ground arith
dict_get-set k v ((j, w) ∷ d) = ground (arith, dict_get-set k v d)

pub dict_get-set_other :
    {V : Type 0} (k j : ℕ) (v : V) (d : List (ℕ × V))
    → (k == j) ≡ false
    → dict_get same_id j (dict_set same_id k v d) ≡ dict_get same_id j d
unfolding dict_get dict_set
dict_get-set_other k j v [] ne = ground arith
dict_get-set_other k j v ((i, w) ∷ d) ne = ground (arith, dict_get-set_other k j v d)

-- The sum of a dict's values.
abbrev pub sum_values : List (Category × ℤ) → ℤ
sum_values [] = pos 0
sum_values ((c, v) ∷ d) = v +ℤ sum_values d

pub values_from-sum : (acc : ℤ) (d : List (Category × ℤ)) → values_from acc d ≡ acc +ℤ sum_values d
values_from-sum acc [] = sym (+ℤ_zero acc)
values_from-sum acc ((c, v) ∷ d) = values_from-sum (acc +ℤ v) d ∙ +ℤ_assoc acc v _

rotate : (v s w : ℤ) → (v +ℤ s) +ℤ w ≡ (w +ℤ s) +ℤ v
rotate v s w = grind int_laws

-- A value that is written takes the place of the one that was there.
sum_values-set :
    (c : Category) (v : ℤ) (d : List (Category × ℤ))
    → sum_values (dict_set same_category c v d) +ℤ or_zero (dict_get same_category c d)
      ≡ sum_values d +ℤ v
unfolding dict_get dict_set
sum_values-set c v [] = rotate v (pos 0) (pos 0) ∙ ap (λ z. z +ℤ v) (+ℤ_zero (pos 0))
sum_values-set c v ((j, w) ∷ d) = elim (Bool-cases (same_category j c)) [
  | inl here ↦ rw here (rotate v (sum_values d) w)
  | inr there ↦
      rw there (+ℤ_assoc w _ _ ∙ ap (λ s. w +ℤ s) (sum_values-set c v d) ∙ sym (+ℤ_assoc w _ v))
]

pub sum_values-add :
    (c : Category) (amount : ℤ) (d : List (Category × ℤ))
    → sum_values (dict_set same_category c (or_zero (dict_get same_category c d) +ℤ amount) d)
      ≡ sum_values d +ℤ amount
sum_values-add c amount d = cancel _ _ _ amount (sum_values-set c _ d)
  where
    cancel : (new g old amount : ℤ) → new +ℤ g ≡ old +ℤ (g +ℤ amount) → new ≡ old +ℤ amount
    cancel new g old amount h = grind int_laws
