-- ===== src/Cash/Rows.antt =====
-- Rows of transactions by their ids: what a search finds, where an UPDATE hits, and the rows that stay.
pub mod Selections
pub mod Kinds
use personal_fin_hub.Base.{
  ℕ, ◌+◌, ◌≡◌, refl, sym, subst, ap, ap₂, ◌∙◌, Bool, true, false, not, ◌&&◌, ◌||◌, Option, none,
  some, List, [], ◌∷◌, ◌++◌, ◌==◌, if◌then◌else◌, any, any-false_mono, all, select, map, ◌⊎◌, inl,
  inr, Bool-cases, or_false, arith,
}
use personal_fin_hub.FiscalPeriods.Table.{fetchone}
use personal_fin_hub.Cash.Data.{Context, Transaction}
use personal_fin_hub.Cash.Store.{owned, is_transaction}
use personal_fin_hub.Cash.Sums.{select-append}

-- No two rows have one id.
abbrev pub Distinct : List Transaction → Type 0
Distinct [] = Unit
Distinct (r ∷ rs) = (any (λ q. q.id == r.id) rs ≡ false) × Distinct rs

module _ {A : Type 0} where
  -- A list around a member that a search finds first.
  pub record Found (p : A → Bool) (xs : List A) (x : A) : Type 0 where
    pub before : List A
    pub after : List A
    pub split : xs ≡ before ++ x ∷ after
    pub passes : p x ≡ true
    pub skipped : any p before ≡ false

  pub found : (p : A → Bool) (xs : List A) (x : A) → fetchone (select p xs) ≡ some x → Found p xs x
  found p [] x e = absurd (ground (arith, e))
  found p (y ∷ ys) x e = elim (Bool-cases (p y)) [
    | inl hit ↦
        let same : y ≡ x = first hit in
        record {
          before = [];
          after = ys;
          split = ap (λ z. z ∷ ys) same;
          passes = sym (ap p same) ∙ hit;
          skipped = refl;
        }
    | inr miss ↦
        let rest = found p ys x (later miss) in
        record {
          before = y ∷ rest.before;
          after = rest.after;
          split = ap (λ z. y ∷ z) rest.split;
          passes = rest.passes;
          skipped = or_false (p y) (any p rest.before) miss rest.skipped;
        }
  ]
    where
      first : p y ≡ true → y ≡ x
      first hit = ground (arith, e)

      later : p y ≡ false → fetchone (select p ys) ≡ some x
      later miss = ground (arith, e)

  pub select_none : (p : A → Bool) (xs : List A) → any p xs ≡ false → select p xs ≡ []
  select_none p [] e = refl
  select_none p (x ∷ xs) e = ground (arith, select_none p xs)

  pub none_found : (p : A → Bool) (xs : List A) → fetchone (select p xs) ≡ none → any p xs ≡ false
  none_found p [] e = refl
  none_found p (x ∷ xs) e = ground (arith, none_found p xs)

  pub any-append : (p : A → Bool) (xs ys : List A) → any p (xs ++ ys) ≡ (any p xs || any p ys)
  any-append p [] ys = refl
  any-append p (x ∷ xs) ys = ground (arith, any-append p xs ys)

  -- A member that is not selected.
  pub select_skip :
      (p : A → Bool) (xs ys : List A) (x : A)
      → p x ≡ false
      → select p (xs ++ x ∷ ys) ≡ select p (xs ++ ys)
  select_skip p [] ys x e = ground arith
  select_skip p (y ∷ xs) ys x e = ground (arith, select_skip p xs ys x e)

  pub select_take :
      (p : A → Bool) (xs ys : List A) (x : A)
      → p x ≡ true
      → select p (xs ++ x ∷ ys) ≡ select p xs ++ x ∷ select p ys
  select_take p [] ys x e = ground arith
  select_take p (y ∷ xs) ys x e = ground (arith, select_take p xs ys x e)

  pub map_unhit :
      (p : A → Bool) (f : A → A) (xs : List A)
      → any p xs ≡ false
      → map (λ x. if p x then f x else x) xs ≡ xs
  map_unhit p f [] e = refl
  map_unhit p f (x ∷ xs) e = ground (arith, map_unhit p f xs)

  -- A map that changes one member.
  pub map_hit :
      (p : A → Bool) (f : A → A) (xs ys : List A) (x : A)
      → any p xs ≡ false
      → any p ys ≡ false
      → p x ≡ true
      → map (λ z. if p z then f z else z) (xs ++ x ∷ ys) ≡ xs ++ f x ∷ ys
  map_hit p f [] ys x e h k = ground (arith, map_unhit p f ys h)
  map_hit p f (z ∷ xs) ys x e h k = ground (arith, map_hit p f xs ys x)

-- In a list without two rows of one id, the rows around one have another.
pub Distinct-around :
    (xs ys : List Transaction) (r : Transaction)
    → Distinct (xs ++ r ∷ ys)
    → (any (λ q. q.id == r.id) xs ≡ false) × (any (λ q. q.id == r.id) ys ≡ false)
Distinct-around [] ys r d = (refl, d.0)
Distinct-around (x ∷ xs) ys r d =
    let around = Distinct-around xs ys r d.1 in
    let apart = any-append (λ q. q.id == x.id) xs (r ∷ ys) in
    (ground (arith, around.0, apart, d.0), around.1)

-- An UPDATE by id, where no two rows have one.
pub update_rows :
    (c : Context) (f : Transaction → Transaction) (B A : List Transaction) (r : Transaction)
    (rows : List Transaction)
    → rows ≡ B ++ r ∷ A
    → Distinct rows
    → owned c r.profile_id ≡ true
    → map (λ q. if is_transaction c r.id q then f q else q) rows ≡ B ++ f r ∷ A
update_rows c f B A r rows split d own =
    let around = Distinct-around B A r (subst Distinct split d) in
    ap (map (λ q. if is_transaction c r.id q then f q else q)) split
    ∙ map_hit (is_transaction c r.id) f B A r (unhit B around.0) (unhit A around.1)
        (ground (arith, own))
  where
    unhit :
        (xs : List Transaction)
        → any (λ q. q.id == r.id) xs ≡ false
        → any (is_transaction c r.id) xs ≡ false
    unhit xs e =
        any-false_mono (λ q. q.id == r.id) (is_transaction c r.id) xs (λ q k. ground (arith, k)) e
