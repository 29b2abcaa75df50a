-- ===== src/Derived/Trends.antt =====
-- `DatedSeries` and its operations (backend/services/derived_kpi_calc.py): resampling to months, the direction of
-- each step, the difference by month. A date is its year, month and day, in the order of Python's
-- dates and tuples; values are fixed-point numbers.
use personal_fin_hub.Base.{
  ℕ, zero, suc, ◌+◌, ◌-◌, ◌*◌, ◌%◌, Bool, not, ◌&&◌, ◌||◌, Option, none, some, List, [], ◌∷◌, ◌==◌,
  ltb, leb, if◌then◌else◌, ℤ, pos, ◌-ℤ◌, pos_part, neg_part, ltb_ℤ,
}
use personal_fin_hub.MarketCycle.Signals.{TrendDirection, increasing, stable, decreasing, MonthKey}

pub data Resolution : Type 0 where
  monthly daily event : Resolution

pub record Date : Type 0 where
  pub year : ℕ
  pub month : ℕ
  pub day : ℕ

pub record DatedPoint {ℓ} (A : Type ℓ) : Type ℓ where
  pub obs_date : Date
  pub value : A

pub record DatedSeries {ℓ} (A : Type ℓ) : Type ℓ where
  pub resolution : Resolution
  pub points : List (DatedPoint A)

-- The calendar of Python's `date`.
abbrev pub is_leap : ℕ → Bool
is_leap year = (year % 4 == 0) && (not (year % 100 == 0) || (year % 400 == 0))

unfoldable pub days_in_month : ℕ → ℕ → ℕ
days_in_month year month =
    if month == 2
    then if is_leap year then 29 else 28
    else if month == 4 || month == 6 || month == 9 || month == 11
    then 30
    else 31

-- `(year, month) <= (year, month)`
abbrev pub month_le : MonthKey → MonthKey → Bool
month_le (y, m) (y', m') = if y == y' then leb m m' else ltb y y'

-- `<=` on dates
abbrev pub date_le : Date → Date → Bool
date_le a b =
    if a.year == b.year
    then if a.month == b.month then leb a.day b.day else ltb a.month b.month
    else ltb a.year b.year

-- `date(year, month, 1) - timedelta(days=1)`, for a month after the first
abbrev pub before_first : ℕ → ℕ → Date
before_first year month = record {
  year = year;
  month = month - 1;
  day = days_in_month year (month - 1);
}

unfoldable pub last_day_of_month : ℕ → ℕ → Date
last_day_of_month year month =
    if month == 12
    then record { year = year; month = 12; day = 31 }
    else before_first year (month + 1)

abbrev pub month_key : Date → MonthKey
month_key d = (d.year, d.month)

-- `min(a, b)`, which keeps `a` on a tie
unfoldable pub min_date : Date → Date → Date
min_date a b = if date_le a b then a else b

-- The loop with the latest value so far.
unfoldable pub latest_from {ℓ} : {A : Type ℓ} → Option A → List (DatedPoint A) → Date → Option A
latest_from latest [] when = latest
latest_from latest (p ∷ points) when =
    let rest = latest_from (some p.value) points when in
    if date_le p.obs_date when then rest else latest

unfoldable pub latest_at_or_before {ℓ} : {A : Type ℓ} → List (DatedPoint A) → Date → Option A
latest_at_or_before points when = latest_from none points when

abbrev pub put_point {ℓ} :
    {A : Type ℓ} → Date → Option A → List (DatedPoint A) → List (DatedPoint A)
put_point at none rest = rest
put_point at (some v) rest = record { obs_date = at; value = v } ∷ rest

abbrev pub next_month : MonthKey → MonthKey
next_month (year, month) = if month == 12 then (year + 1, 1) else (year, month + 1)

-- `while (year, month) <= end`
unfoldable pub resample {ℓ} :
    {A : Type ℓ} → ℕ → MonthKey → Date → List (DatedPoint A) → List (DatedPoint A)
resample zero at as_of points = []
resample (suc fuel) at as_of points =
    let as_of_date = min_date (last_day_of_month at.0 at.1) as_of in
    let rest = resample fuel (next_month at) as_of points in
    if month_le at (month_key as_of)
    then put_point as_of_date (latest_at_or_before points as_of_date) rest
    else []

-- Months are counted from the year 0.
abbrev pub month_index : MonthKey → ℕ
month_index (year, month) = 12 * year + month

-- As many turns as there are months from the first observation to `as_of`.
abbrev pub turns : Date → Date → ℕ
turns start as_of = suc (month_index (month_key as_of)) - month_index (month_key start)

abbrev pub or_today : Option Date → Date → Date
or_today none today = today
or_today (some as_of) today = as_of

abbrev pub resampled {ℓ} : {A : Type ℓ} → DatedSeries A → Date → DatedSeries A
resampled s as_of = elim s.points [
  | [] ↦ s
  | p ∷ points ↦ record {
    resolution = monthly;
    points = resample (turns p.obs_date as_of) (month_key p.obs_date) as_of (p ∷ points);
  }
]

unfoldable pub to_monthly {ℓ} : {A : Type ℓ} → DatedSeries A → Option Date → Date → DatedSeries A
to_monthly s as_of today = elim s.resolution [
  | monthly ↦ s
  | daily ↦ resampled s (or_today as_of today)
  | event ↦ resampled s (or_today as_of today)
]

-- `abs(delta) <= threshold`, which math.isclose with these tolerances tests too
abbrev pub is_small : ℤ → ℕ → Bool
is_small delta threshold = leb (pos_part delta + neg_part delta) threshold

unfoldable pub direction : ℤ → ℕ → TrendDirection
direction delta threshold =
    if is_small delta threshold
    then stable
    else if ltb_ℤ (pos 0) delta
    then increasing
    else decreasing

-- `for point in series.points`, after the point `previous`
unfoldable pub steps_from :
    ℕ → DatedPoint ℤ → List (DatedPoint ℤ) → List (DatedPoint TrendDirection)
steps_from threshold previous [] = []
steps_from threshold previous (p ∷ points) =
    record { obs_date = p.obs_date; value = direction (p.value -ℤ previous.value) threshold }
    ∷ steps_from threshold p points

abbrev pub steps : ℕ → List (DatedPoint ℤ) → List (DatedPoint TrendDirection)
steps threshold [] = []
steps threshold (p ∷ points) = steps_from threshold p points

-- The threshold is `deadband + _EPSILON`.
unfoldable pub slope_step : ℕ → DatedSeries ℤ → DatedSeries TrendDirection
slope_step threshold s = record { resolution = s.resolution; points = steps threshold s.points }

-- `right_by_month.get(month)`: the last point of a month is the one that the dict keeps.
unfoldable pub by_month {ℓ} : {A : Type ℓ} → Option A → List (DatedPoint A) → MonthKey → Option A
by_month found [] month = found
by_month found (p ∷ points) (y, m) =
    by_month (if p.obs_date.year == y && p.obs_date.month == m then some p.value else found) points
      (y, m)

abbrev pub put_difference : DatedPoint ℤ → Option ℤ → List (DatedPoint ℤ) → List (DatedPoint ℤ)
put_difference p none rest = rest
put_difference p (some v) rest = record { obs_date = p.obs_date; value = p.value -ℤ v } ∷ rest

unfoldable pub differences : List (DatedPoint ℤ) → List (DatedPoint ℤ) → List (DatedPoint ℤ)
differences [] right = []
differences (p ∷ left) right =
    put_difference p (by_month none right (month_key p.obs_date)) (differences left right)

unfoldable pub difference : DatedSeries ℤ → DatedSeries ℤ → DatedSeries ℤ
difference left right = record {
  resolution = monthly;
  points = differences left.points right.points;
}

unfoldable pub real_rate : DatedSeries ℤ → DatedSeries ℤ → DatedSeries ℤ
real_rate policy inflation = difference policy inflation
