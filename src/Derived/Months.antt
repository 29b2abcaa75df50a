-- ===== src/Derived/Months.antt =====
-- The grid of `to_monthly` (backend/services/derived_kpi_calc.py): one point for each month.
use personal_fin_hub.Base.{
  ℕ, zero, suc, ◌+◌, ◌-◌, ◌≤◌, ◌≡◌, refl, ap, ap₂, subst, ◌∙◌, ◌≢◌, true, Option, none, some, List,
  [], ◌∷◌, ◌==◌, if◌then◌else◌, ltb, leb, map, inl, inr, Bool-cases, arith,
}
use personal_fin_hub.Derived.Trends.{
  Resolution, monthly, daily, event, Date, DatedPoint, days_in_month, month_le, date_le,
  last_day_of_month, month_key, min_date, latest_from, latest_at_or_before, put_point, next_month,
  resample, month_index, turns, or_today, to_monthly,
}
use personal_fin_hub.MarketCycle.Signals.{MonthKey}

-- A date of the calendar.
pub record IsDate (d : Date) : Type 0 where
  pub from_january : 1 ≤ d.month
  pub to_december : d.month ≤ 12
  pub in_month : d.day ≤ days_in_month d.year d.month

abbrev pub months_from : ℕ → ℕ → List ℕ
months_from first zero = []
months_from first (suc n) = first ∷ months_from (first + 1) n

abbrev december_end : ℕ → Date
december_end y = record { year = y; month = 12; day = 31 }

december :
    (y m : ℕ) → m ≡ 12 → december_end y ≡ record { year = y; month = m; day = days_in_month y m }
unfolding days_in_month
december y m e = rw e refl

last_day :
    (y m : ℕ) → last_day_of_month y m ≡ record { year = y; month = m; day = days_in_month y m }
unfolding last_day_of_month
last_day y m = elim (Bool-cases (m == 12)) [
  | inl e ↦ rw e (december y m (ground arith))
  | inr e ↦ rw e (
      let back : m + 1 - 1 ≡ m = omega arith in
      ap (λ k. record { year = y; month = k; day = days_in_month y k }) back)
]

next_index : (at : MonthKey) → month_index (next_month at) ≡ month_index at + 1
next_index (y, m) = ground arith

latest_some :
    {A : Type 0}
    → (v : A) (points : List (DatedPoint A)) (when : Date)
    → (w : A) × (latest_from (some v) points when ≡ some w)
unfolding latest_from
latest_some v [] when = (v, refl)
latest_some v (p ∷ points) when = elim (Bool-cases (date_le p.obs_date when)) [
  | inl e ↦ rw e (latest_some p.value points when)
  | inr e ↦ rw e (v, refl)
]

-- A first point that is not after the date gives a value.
found :
    {A : Type 0}
    → (p : DatedPoint A) (points : List (DatedPoint A)) (when : Date)
    → date_le p.obs_date when ≡ true
    → (w : A) × (latest_at_or_before (p ∷ points) when ≡ some w)
unfolding latest_at_or_before latest_from
found p points when e = rw e (latest_some p.value points when)

grid_index :
    (y m : ℕ) (as_of : Date)
    → IsDate as_of
    → 1 ≤ m
    → m ≤ 12
    → month_index (y, m) ≤ month_index (month_key as_of)
    → month_index (month_key (min_date (last_day_of_month y m) as_of)) ≡ month_index (y, m)
unfolding min_date
grid_index y m as_of v p q h =
    rw (last_day y m) (capped (days_in_month y m) v.from_january v.to_december v.in_month)
  where
    capped :
        (d : ℕ)
        → 1 ≤ as_of.month
        → as_of.month ≤ 12
        → as_of.day ≤ days_in_month as_of.year as_of.month
        → month_index (
            month_key (
              if date_le (record { year = y; month = m; day = d }) as_of
              then record { year = y; month = m; day = d }
              else as_of))
          ≡ month_index (y, m)
    capped d a b e = ground arith

min_date-le :
    (p a b : Date) → date_le p a ≡ true → date_le p b ≡ true → date_le p (min_date a b) ≡ true
unfolding min_date
min_date-le p a b e h = elim (Bool-cases (date_le a b)) [ inl x ↦ rw x e | inr x ↦ rw x h ]

in_same_month :
    (p : Date) (y m : ℕ) → IsDate p → p.year ≡ y → p.month ≡ m → p.day ≤ days_in_month y m
in_same_month p y m v e h =
    subst (λ k. p.day ≤ days_in_month k m) e
      (subst (λ k. p.day ≤ days_in_month p.year k) h v.in_month)

before_end :
    (p : Date) (y m : ℕ)
    → IsDate p
    → 1 ≤ m
    → m ≤ 12
    → month_index (month_key p) ≤ month_index (y, m)
    → date_le p (last_day_of_month y m) ≡ true
before_end p y m v q r h = rw (last_day y m) (
    by_fields p.year p.month p.day (days_in_month y m) v.from_january v.to_december h
      (λ e e'. in_same_month p y m v e e'))
  where
    by_fields :
        (py pm pd d : ℕ)
        → 1 ≤ pm
        → pm ≤ 12
        → month_index (py, pm) ≤ month_index (y, m)
        → (py ≡ y → pm ≡ m → pd ≤ d)
        → (if py == y then if pm == m then leb pd d else ltb pm m else ltb py y) ≡ true
    by_fields py pm pd d a b l same = grind arith

not_before :
    (p : Date) (y m : ℕ) (as_of : Date)
    → IsDate p
    → 1 ≤ m
    → m ≤ 12
    → month_index (month_key p) ≤ month_index (y, m)
    → date_le p as_of ≡ true
    → date_le p (min_date (last_day_of_month y m) as_of) ≡ true
not_before p y m as_of v q r h e =
    min_date-le p (last_day_of_month y m) as_of (before_end p y m v q r h) e

-- The months that the loop's points are in.
abbrev pub months_of : {A : Type 0} → List (DatedPoint A) → List ℕ
months_of points = map (λ p. month_index (month_key p.obs_date)) points

put_month :
    {A : Type 0}
    → (at : Date) (o : Option A) (rest : List (DatedPoint A)) (w : A) → o ≡ some w
    → months_of (put_point at o rest) ≡ month_index (month_key at) ∷ months_of rest
put_month at o rest w e = rw e refl

within :
    (y m : ℕ) (d : Date)
    → IsDate d
    → 1 ≤ m
    → m ≤ 12
    → month_index (y, m) ≤ month_index (month_key d)
    → month_le (y, m) (month_key d) ≡ true
within y m d u q r h = by_fields u.from_january u.to_december
  where
    by_fields : 1 ≤ d.month → d.month ≤ 12 → month_le (y, m) (month_key d) ≡ true
    by_fields a b = ground arith

min_date-before : (a b : Date) → date_le b b ≡ true → date_le (min_date a b) b ≡ true
unfolding min_date
min_date-before a b e = elim (Bool-cases (date_le a b)) [ inl x ↦ rw x x | inr x ↦ rw x e ]

itself : (d : Date) → date_le d d ≡ true
itself d = ground arith

-- Points not after a date, each with the latest value that the series has at the point's date.
abbrev pub AreLatest : {A : Type 0} → List (DatedPoint A) → Date → List (DatedPoint A) → Type 0
AreLatest series as_of [] = Unit
AreLatest series as_of (q ∷ rest) =
    (date_le q.obs_date as_of ≡ true)
    × (latest_at_or_before series q.obs_date ≡ some q.value)
    × AreLatest series as_of rest

put-AreLatest :
    {A : Type 0}
    → (series : List (DatedPoint A)) (as_of at : Date) (o : Option A) (rest : List (DatedPoint A))
    → date_le at as_of ≡ true
    → latest_at_or_before series at ≡ o
    → AreLatest series as_of rest
    → AreLatest series as_of (put_point at o rest)
put-AreLatest series as_of at none rest e h r = r
put-AreLatest series as_of at (some v) rest e h r = (e, h, r)

resample-AreLatest :
    {A : Type 0}
    → (fuel : ℕ) (at : MonthKey) (as_of : Date) (series : List (DatedPoint A))
    → AreLatest series as_of (resample fuel at as_of series)
unfolding resample
resample-AreLatest zero at as_of series = tt
resample-AreLatest (suc fuel) at as_of series =
    let day = min_date (last_day_of_month at.0 at.1) as_of in
    let rest = resample fuel (next_month at) as_of series in
    elim (Bool-cases (month_le at (month_key as_of))) [
      | inr e ↦ rw e tt
      | inl e ↦ rw e (
          put-AreLatest series as_of day (latest_at_or_before series day) rest
            (min_date-before (last_day_of_month at.0 at.1) as_of (itself as_of)) refl
            (resample-AreLatest fuel (next_month at) as_of series))
    ]

earlier :
    (a b : Date)
    → IsDate a
    → IsDate b
    → date_le a b ≡ true
    → month_index (month_key a) ≤ month_index (month_key b)
earlier a b v u e = by_fields v.to_december u.from_january
  where
    by_fields : a.month ≤ 12 → 1 ≤ b.month → month_index (month_key a) ≤ month_index (month_key b)
    by_fields p q = ground arith

module _ {A : Type 0} (p : DatedPoint A) (points : List (DatedPoint A)) (as_of : Date)
    (v : IsDate p.obs_date) (u : IsDate as_of) (e : date_le p.obs_date as_of ≡ true) where
  resample-months :
      (fuel : ℕ) (at : MonthKey)
      → 1 ≤ at.1
      → at.1 ≤ 12
      → month_index (month_key p.obs_date) ≤ month_index at
      → fuel + month_index at ≡ suc (month_index (month_key as_of))
      → months_of (resample fuel at as_of (p ∷ points)) ≡ months_from (month_index at) fuel
  unfolding resample
  resample-months zero at q r h k = refl
  resample-months (suc fuel) (y, m) q r h k =
      let day = min_date (last_day_of_month y m) as_of in
      let rest = resample fuel (next_month (y, m)) as_of (p ∷ points) in
      let (w, is) = found p points day (not_before p.obs_date y m as_of v q r h e) in
      let later =
        resample-months fuel (next_month (y, m)) (ground arith) (ground arith)
          (rw (next_index (y, m)) (omega arith)) (rw (next_index (y, m)) (omega arith)) in
      rw (within y m as_of u q r (omega arith)) (
        put_month day (latest_at_or_before (p ∷ points) day) rest w is
        ∙ ap₂ (λ i is. i ∷ is) (grid_index y m as_of u q r (omega arith))
            (later ∙ ap (λ i. months_from i fuel) (next_index (y, m))))

  -- What the loop over months returns.
  grid :
      let rows = resample (turns p.obs_date as_of) (month_key p.obs_date) as_of (p ∷ points) in
      (months_of rows ≡ months_from (month_index (month_key p.obs_date)) (turns p.obs_date as_of))
      × AreLatest (p ∷ points) as_of rows
  grid = (
    resample-months (turns p.obs_date as_of) (month_key p.obs_date) v.from_january v.to_december
        (omega arith) (omega (arith, earlier p.obs_date as_of v u e)),
    resample-AreLatest (turns p.obs_date as_of) (month_key p.obs_date) as_of (p ∷ points),
  )

-- A daily or event series whose first observation is not after `as_of` (today, if none is given), both dates of the
-- calendar, becomes a monthly one with exactly one point for each month from that observation's to that
-- of `as_of`, in order; no point is after `as_of`, and each has the value that the series has latest at its date.
pub to_monthly-Grid :
    {A : Type 0}
    → (r : Resolution) (p : DatedPoint A) (points : List (DatedPoint A)) (as_of : Option Date)
      (today : Date)
    → r ≢ monthly
    → IsDate p.obs_date
    → IsDate (or_today as_of today)
    → date_le p.obs_date (or_today as_of today) ≡ true
    → let s = to_monthly (record { resolution = r; points = p ∷ points }) as_of today in
      (s.resolution ≡ monthly)
      × (months_of s.points
          ≡ months_from
              (month_index (month_key p.obs_date))
              (turns p.obs_date (or_today as_of today)))
      × AreLatest (p ∷ points) (or_today as_of today) s.points
unfolding to_monthly
to_monthly-Grid monthly p points as_of today n v u e = elim (n refl) [ ]
to_monthly-Grid daily p points as_of today n v u e =
    let (months, latest) = grid p points (or_today as_of today) v u e in (refl, months, latest)
to_monthly-Grid event p points as_of today n v u e =
    let (months, latest) = grid p points (or_today as_of today) v u e in (refl, months, latest)
