-- ===== src/Cash/Rows/Selections.antt =====
-- Tests on lists of rows: at most one that passes, tests that agree, and lists around a member.
use personal_fin_hub.Base.{
  ◌≡◌, refl, ap, Bool, true, false, not, ◌||◌, List, [], ◌∷◌, ◌++◌, any, all, select, arith,
}
use personal_fin_hub.Cash.Data.{Transaction}

-- At most one member passes.
abbrev pub Single : (Transaction → Bool) → List Transaction → Type 0
Single p [] = Unit
Single p (r ∷ rs) = (p r ≡ true → any p rs ≡ false) × Single p rs

pub Single-after :
    (p : Transaction → Bool) (xs ys : List Transaction) (r : Transaction)
    → Single p (xs ++ r ∷ ys)
    → p r ≡ true
    → any p ys ≡ false
Single-after p [] ys r s e = s.0 e
Single-after p (x ∷ xs) ys r s e = Single-after p xs ys r s.1 e

-- Two tests that agree where a third fails select alike.
pub select_same :
    (bad p q : Transaction → Bool) (xs : List Transaction)
    → ((r : Transaction) → bad r ≡ false → p r ≡ q r)
    → any bad xs ≡ false
    → select p xs ≡ select q xs
select_same bad p q [] h e = refl
select_same bad p q (x ∷ xs) h e = ground (arith, h x, select_same bad p q xs h)

pub any_weaker :
    (p q : Transaction → Bool) (xs : List Transaction)
    → all (λ r. not (p r) || q r) xs ≡ true
    → any q xs ≡ false
    → any p xs ≡ false
any_weaker p q [] h e = refl
any_weaker p q (x ∷ xs) h e = ground (arith, any_weaker p q xs)

pub all-left :
    (p : Transaction → Bool) (xs ys : List Transaction) → all p (xs ++ ys) ≡ true → all p xs ≡ true
all-left p [] ys h = refl
all-left p (x ∷ xs) ys h = ground (arith, all-left p xs ys)

pub all-at :
    (p : Transaction → Bool) (xs ys : List Transaction) (r : Transaction)
    → all p (xs ++ r ∷ ys) ≡ true
    → p r ≡ true
all-at p [] ys r h = ground arith
all-at p (x ∷ xs) ys r h = ground (arith, all-at p xs ys r)

pub append_nil : (xs : List Transaction) → xs ++ [] ≡ xs
append_nil [] = refl
append_nil (x ∷ xs) = ap (λ ys. x ∷ ys) (append_nil xs)
