-- ===== src/FiscalPeriods/Service/Disjoint.antt =====
-- The fiscal periods of a profile never overlap, whatever operations of
-- backend/services/fiscal_period_svc.py are called.
use personal_fin_hub.Base.{
  ℕ, min, max, ◌+◌, ◌≡◌, refl, sym, ◌∙◌, Bool, true, false, not, ◌&&◌, Option, none, some, List, [],
  ◌∷◌, leb, ◌==◌, if◌then◌else◌, any, select, map, any-sort_by, any-select, any-false_mono, arith,
  or-eq-false, or_false, Bool-cases, inl, inr,
}
use personal_fin_hub.FiscalPeriods.Table.{
  FiscalPeriod, FiscalPeriodCreate, Table, in_profile, is_row, rewritten, create_fiscal_period,
  get_fiscal_period, get_all_fiscal_periods, update_fiscal_period, delete_fiscal_period, new_row,
}
use personal_fin_hub.FiscalPeriods.Service.{
  date_max, meets, excluded, overlaps_existing, create, update, delete, is_missing,
}

abbrev pub same_profile : Option ℕ → Option ℕ → Bool
same_profile none none = true
same_profile none (some b) = false
same_profile (some a) none = false
same_profile (some a) (some b) = a == b

-- The last day of a period; one without an end goes on to the last date there is.
abbrev pub last_day : FiscalPeriod → ℕ
last_day r = elim r.end_date [ none ↦ date_max | some day ↦ day ]

-- Two rows of one profile that have a day in common: the later start is not after the earlier end.
abbrev pub clashes : FiscalPeriod → FiscalPeriod → Bool
clashes r q =
    same_profile r.profile_id q.profile_id
    && leb (max r.start_date q.start_date) (min (last_day r) (last_day q))

abbrev pub IsDisjoint : List FiscalPeriod → Type 0
IsDisjoint [] = Unit
IsDisjoint (r ∷ rs) =
    (any (clashes r) rs ≡ false) × (any (λ q. q.id == r.id) rs ≡ false) × IsDisjoint rs

pub record IsConsistent (t : Table) : Type 0 where
  pub disjoint : IsDisjoint t.rows
  pub ids_given : any (λ r. not (leb r.id t.last_id)) t.rows ≡ false

-- What `_overlaps_existing` looks for, on the table as it is stored.
abbrev pub blocks : Option ℕ → ℕ → Option ℕ → Option ℕ → FiscalPeriod → Bool
blocks pid start_date end_date exclude_id r =
    in_profile pid r.profile_id && (not (excluded exclude_id r) && meets start_date end_date r)

pub overlaps_existing-eq-any :
    (pid : Option ℕ) (s : ℕ) (e exclude_id : Option ℕ) (t : Table)
    → overlaps_existing pid s e exclude_id t ≡ any (blocks pid s e exclude_id) t.rows
unfolding overlaps_existing get_all_fiscal_periods
overlaps_existing-eq-any pid s e exclude_id t =
    any-sort_by (λ (r : FiscalPeriod). r.start_date) _
      (select (λ (r : FiscalPeriod). in_profile pid r.profile_id) t.rows)
    ∙ any-select _ _ t.rows

meets-clashes :
    (r q : FiscalPeriod)
    → same_profile r.profile_id q.profile_id && meets r.start_date r.end_date q ≡ false
    → clashes r q ≡ false
meets-clashes r q h = ground arith

blocks-clashes :
    (pid : Option ℕ) (n q : FiscalPeriod)
    → n.profile_id ≡ pid
    → blocks pid n.start_date n.end_date none q ≡ false
    → clashes n q ≡ false
blocks-clashes none n q p h = ground arith
blocks-clashes (some a) n q p h = ground arith

create_fiscal_period-IsConsistent :
    (pid : Option ℕ) (body : FiscalPeriodCreate) (t : Table)
    → IsConsistent t
    → any (blocks pid body.start_date body.end_date none) t.rows ≡ false
    → IsConsistent (create_fiscal_period pid body t).0
unfolding create_fiscal_period
create_fiscal_period-IsConsistent pid body t c free = record {
  disjoint = (
    any-false_mono _ _ t.rows (λ q. blocks-clashes pid (new_row pid (t.last_id + 1) body) q refl)
        free,
    any-false_mono _ _ t.rows (λ q h. ground arith) c.ids_given,
    c.disjoint,
  );
  ids_given =
      let older : any (λ (r : FiscalPeriod). not (leb r.id (t.last_id + 1))) t.rows ≡ false =
        any-false_mono _ _ t.rows (λ q h. ground arith) c.ids_given in
      ground arith;
}

-- Creating a period, or being refused, keeps the table consistent: no two rows of one profile
-- overlap, ids are unique, and none is above the last one given.
pub create-IsConsistent :
    (pid : Option ℕ) (body : FiscalPeriodCreate) (t : Table)
    → IsConsistent t
    → IsConsistent (create pid body t).1
unfolding create
create-IsConsistent pid body t c =
    elim (Bool-cases (overlaps_existing pid body.start_date body.end_date none t)) [
      | inl taken ↦ rw taken c
      | inr free ↦ rw free (
          create_fiscal_period-IsConsistent pid body t c
            (sym (overlaps_existing-eq-any pid body.start_date body.end_date none t) ∙ free))
    ]

-- Removing rows.
any-select_le :
    (p k : FiscalPeriod → Bool) (rs : List FiscalPeriod)
    → any p rs ≡ false
    → any p (select k rs) ≡ false
any-select_le p k [] h = refl
any-select_le p k (r ∷ rs) h = ground (arith, any-select_le p k rs)

select-IsDisjoint :
    (k : FiscalPeriod → Bool) (rs : List FiscalPeriod) → IsDisjoint rs → IsDisjoint (select k rs)
select-IsDisjoint k [] d = tt
select-IsDisjoint k (r ∷ rs) d = ground (
  arith,
  any-select_le (clashes r) k rs,
  any-select_le (λ q. q.id == r.id) k rs,
  select-IsDisjoint k rs d.2,
)

delete_fiscal_period-IsConsistent :
    (pid : Option ℕ) (id : ℕ) (t : Table)
    → IsConsistent t
    → IsConsistent (delete_fiscal_period pid id t)
unfolding delete_fiscal_period
delete_fiscal_period-IsConsistent pid id t c = record {
  disjoint = select-IsDisjoint _ t.rows c.disjoint;
  ids_given = any-select_le _ _ t.rows c.ids_given;
}

-- Deleting a period, or being refused, keeps the table consistent.
pub delete-IsConsistent :
    (pid : Option ℕ) (id : ℕ) (t : Table) → IsConsistent t → IsConsistent (delete pid id t).1
unfolding delete
delete-IsConsistent pid id t c = elim (Bool-cases (is_missing (get_fiscal_period pid id t))) [
  | inl missing ↦ rw missing c
  | inr present ↦ rw present (delete_fiscal_period-IsConsistent pid id t c)
]

-- Rewriting one row.
module _ (pid : Option ℕ) (id : ℕ) (body : FiscalPeriodCreate) where
  abbrev rewrite_row : FiscalPeriod → FiscalPeriod
  rewrite_row r = if is_row pid id r then rewritten body r else r

  id-rewrite : (r : FiscalPeriod) → (rewrite_row r).id ≡ r.id
  id-rewrite r = ground arith

  any-id-rewrite :
      (k : ℕ) (rs : List FiscalPeriod)
      → any (λ q. q.id == k) (map rewrite_row rs) ≡ any (λ q. q.id == k) rs
  any-id-rewrite k [] = refl
  any-id-rewrite k (r ∷ rs) = ground (arith, any-id-rewrite k rs)

  -- A row that is rewritten does not meet the rows that were checked.
  clashes-rewrite :
      (r q : FiscalPeriod)
      → clashes r q ≡ false
      → (q.id == r.id) ≡ false
      → blocks pid body.start_date body.end_date (some id) r ≡ false
      → blocks pid body.start_date body.end_date (some id) q ≡ false
      → clashes (rewrite_row r) (rewrite_row q) ≡ false
  clashes-rewrite r q h ne br bq = elim (Bool-cases (is_row pid id r)) [
    | inl at_r ↦ elim (Bool-cases (is_row pid id q)) [
      | inl at_q ↦ absurd (ground arith)
      | inr not_q ↦ rw (at_r, not_q) (meets-clashes (rewritten body r) q (ground arith))
    ]
    | inr not_r ↦ elim (Bool-cases (is_row pid id q)) [
      | inl at_q ↦ rw (not_r, at_q) (meets-clashes r (rewritten body q) (ground arith))
      | inr not_q ↦ rw (not_r, not_q) h
    ]
  ]

  any-clashes-rewrite :
      (r : FiscalPeriod) (rs : List FiscalPeriod)
      → any (clashes r) rs ≡ false
      → any (λ q. q.id == r.id) rs ≡ false
      → blocks pid body.start_date body.end_date (some id) r ≡ false
      → any (blocks pid body.start_date body.end_date (some id)) rs ≡ false
      → any (clashes (rewrite_row r)) (map rewrite_row rs) ≡ false
  any-clashes-rewrite r [] h ne br bq = refl
  any-clashes-rewrite r (q ∷ rs) h ne br bq =
      let hs = or-eq-false (clashes r q) _ h in
      let nes = or-eq-false (q.id == r.id) _ ne in
      let bqs = or-eq-false (blocks pid body.start_date body.end_date (some id) q) _ bq in
      or_false _ _ (clashes-rewrite r q hs.0 nes.0 br bqs.0)
        (any-clashes-rewrite r rs hs.1 nes.1 br bqs.1)

  map-rewrite-IsDisjoint :
      (rs : List FiscalPeriod)
      → IsDisjoint rs
      → any (blocks pid body.start_date body.end_date (some id)) rs ≡ false
      → IsDisjoint (map rewrite_row rs)
  map-rewrite-IsDisjoint [] d b = tt
  map-rewrite-IsDisjoint (r ∷ rs) d b =
      let bs = or-eq-false (blocks pid body.start_date body.end_date (some id) r) _ b in
      (
        any-clashes-rewrite r rs d.0 d.1 bs.0 bs.1,
        rw (id-rewrite r) (any-id-rewrite r.id rs ∙ d.1),
        map-rewrite-IsDisjoint rs d.2 bs.1,
      )

  ids-rewrite :
      (n : ℕ) (rs : List FiscalPeriod)
      → any (λ (r : FiscalPeriod). not (leb r.id n)) (map rewrite_row rs)
        ≡ any (λ (r : FiscalPeriod). not (leb r.id n)) rs
  ids-rewrite n [] = refl
  ids-rewrite n (r ∷ rs) = ground (arith, ids-rewrite n rs)

  update_fiscal_period-IsConsistent :
      (t : Table)
      → IsConsistent t
      → any (blocks pid body.start_date body.end_date (some id)) t.rows ≡ false
      → IsConsistent (update_fiscal_period pid id body t)
  unfolding update_fiscal_period
  update_fiscal_period-IsConsistent t c free = record {
    disjoint = map-rewrite-IsDisjoint t.rows c.disjoint free;
    ids_given = ids-rewrite t.last_id t.rows ∙ c.ids_given;
  }

  -- Updating a period, or being refused, keeps the table consistent.
  pub update-IsConsistent : (t : Table) → IsConsistent t → IsConsistent (update pid id body t).1
  unfolding update
  update-IsConsistent t c = elim (Bool-cases (is_missing (get_fiscal_period pid id t))) [
    | inl missing ↦ rw missing c
    | inr present ↦
        elim (Bool-cases (overlaps_existing pid body.start_date body.end_date (some id) t)) [
          | inl taken ↦ rw (present, taken) c
          | inr free ↦
              rw (present, free)
                (update_fiscal_period-IsConsistent t c (
                  sym (overlaps_existing-eq-any pid body.start_date body.end_date (some id) t)
                  ∙ free))
        ]
  ]
