-- ===== src/Base/Products.antt =====
-- Sums and products of signed integers.
use Prim.Native.Nat.{◌+◌, ◌*◌}
use mathlib.Core.Path.{◌≡◌, ap}
use native.Mathlib.Omega.{arith}
use personal_fin_hub.Base.Int.{
  ℤ, pos, pos_part, neg_part, ◌+ℤ◌, ◌*ℤ◌, eq_of_parts, int_laws, +ℤ_parts,
}

pub +ℤ_comm : (a b : ℤ) → a +ℤ b ≡ b +ℤ a
+ℤ_comm a b = grind int_laws

pub +ℤ_assoc : (a b c : ℤ) → a +ℤ b +ℤ c ≡ a +ℤ (b +ℤ c)
+ℤ_assoc a b c = grind int_laws

pub +ℤ_swap : (a b c : ℤ) → a +ℤ (b +ℤ c) ≡ b +ℤ (a +ℤ c)
+ℤ_swap a b c = grind int_laws

pub +ℤ_zero : (a : ℤ) → a +ℤ pos 0 ≡ a
+ℤ_zero a = grind int_laws

pub zero_+ℤ : (a : ℤ) → pos 0 +ℤ a ≡ a
zero_+ℤ a = grind int_laws

-- Two sums of two, added up.
pub +ℤ_exchange : (a b c d : ℤ) → (a +ℤ b) +ℤ (c +ℤ d) ≡ (a +ℤ c) +ℤ (b +ℤ d)
+ℤ_exchange a b c d = grind int_laws

pub *ℤ_parts :
    (a b : ℤ)
    → pos_part (a *ℤ b) + (pos_part a * neg_part b + neg_part a * pos_part b)
      ≡ neg_part (a *ℤ b) + (pos_part a * pos_part b + neg_part a * neg_part b)
unfolding ◌*ℤ◌
*ℤ_parts a b = ground arith

pub *ℤ_add : (a b r : ℤ) → (a +ℤ b) *ℤ r ≡ a *ℤ r +ℤ b *ℤ r
*ℤ_add a b r =
    let p = ap (λ x. x * pos_part r) (+ℤ_parts a b) in
    let n = ap (λ x. x * neg_part r) (+ℤ_parts a b) in
    eq_of_parts _ _ (
      omega
        (arith, p, n, *ℤ_parts (a +ℤ b) r, *ℤ_parts a r, *ℤ_parts b r, +ℤ_parts (a *ℤ r) (b *ℤ r)))

pub zero_*ℤ : (r : ℤ) → pos 0 *ℤ r ≡ pos 0
zero_*ℤ r = eq_of_parts _ _ (omega (arith, *ℤ_parts (pos 0) r))

pub *ℤ_one : (a : ℤ) → a *ℤ pos 1 ≡ a
*ℤ_one a = eq_of_parts _ _ (omega (arith, *ℤ_parts a (pos 1)))
