-- ===== src/Base/Sort.antt =====
-- A stable sort by a numeric key, as Python's `sorted(xs, key=f)` and SQL's ORDER BY give it, and
-- the searches that do not see the order.
use Prim.Native.Nat.{ℕ}
use mathlib.Core.Path.{◌≡◌, refl}
use mathlib.Core.Bool.{Bool, false, ◌&&◌}
use mathlib.Core.List.{List, [], ◌∷◌}
use native.Mathlib.Omega.{arith}
use personal_fin_hub.Base.Tests.{leb, if◌then◌else◌}
use personal_fin_hub.Base.Lists.{any, select}

module _ {ℓ} {A : Type ℓ} (le : A → A → Bool) where
  abbrev pub insert_with : A → List A → List A
  insert_with x [] = x ∷ []
  insert_with x (y ∷ ys) = if le x y then x ∷ y ∷ ys else y ∷ insert_with x ys

  abbrev pub sort_with : List A → List A
  sort_with [] = []
  sort_with (x ∷ xs) = insert_with x (sort_with xs)

  any-insert_with : (p : A → Bool) (x : A) (xs : List A) → any p (insert_with x xs) ≡ any p (x ∷ xs)
  any-insert_with p x [] = refl
  any-insert_with p x (y ∷ ys) = ground (arith, any-insert_with p x ys)

  any-sort_with : (p : A → Bool) (xs : List A) → any p (sort_with xs) ≡ any p xs
  any-sort_with p [] = refl
  any-sort_with p (x ∷ xs) = ground (arith, any-insert_with p x (sort_with xs), any-sort_with p xs)

module _ {ℓ} {A : Type ℓ} (key : A → ℕ) where
  abbrev pub sort_by : List A → List A
  sort_by xs = sort_with (λ x y. leb (key x) (key y)) xs

  pub any-sort_by : (p : A → Bool) (xs : List A) → any p (sort_by xs) ≡ any p xs
  any-sort_by p xs = any-sort_with (λ x y. leb (key x) (key y)) p xs

module _ {ℓ} {A : Type ℓ} where
  pub any-select : (p q : A → Bool) (xs : List A) → any p (select q xs) ≡ any (λ x. q x && p x) xs
  any-select p q [] = refl
  any-select p q (x ∷ xs) = ground (arith, any-select p q xs)

  -- A test that is stronger finds no more.
  pub any-false_mono :
      (p q : A → Bool) (xs : List A)
      → ((x : A) → p x ≡ false → q x ≡ false)
      → any p xs ≡ false
      → any q xs ≡ false
  any-false_mono p q [] h e = refl
  any-false_mono p q (x ∷ xs) h e = ground (arith, h x, any-false_mono p q xs h)
