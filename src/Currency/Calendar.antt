-- ===== src/Currency/Calendar.antt =====
-- Business days, staleness and the windows of a synchronisation (backend/services/currency_svc.py). A date is
-- its ordinal, as date.toordinal gives it, and an instant counts seconds. Loops run on fuel: one turn for
-- each day, or for each second that is left, and the theorems hold of what the loop has left then.
use personal_fin_hub.Base.{
  ℕ, zero, suc, ◌+◌, ◌-◌, ◌*◌, ◌/◌, ◌%◌, ◌≤◌, ◌<◌, min, ◌≡◌, refl, ap, Bool, List, [], ◌∷◌, ◌++◌,
  map, ltb, leb, if◌then◌else◌, inl, inr, Bool-cases, arith,
}

-- `date.weekday()`: Monday is 0
abbrev pub weekday : ℕ → ℕ
weekday day = (day + 6) % 7

-- `while cursor < end`
unfoldable pub count_days : ℕ → ℕ → ℕ → ℕ → ℕ
count_days zero cursor end days = days
count_days (suc fuel) cursor end days =
    let next = cursor + 1 in
    let rest = count_days fuel next end (if ltb (weekday next) 5 then days + 1 else days) in
    if ltb cursor end then rest else days

unfoldable pub business_days_between : ℕ → ℕ → ℕ
unfolding count_days
business_days_between start end = if leb end start then 0 else count_days (end - start) start end 0

-- `_STALE_BUSINESS_DAYS`
abbrev pub stale_business_days : ℕ
stale_business_days = 2

unfoldable pub is_stale_rate : ℕ → ℕ → Bool
is_stale_rate rate_date reference_date =
    leb stale_business_days (business_days_between rate_date reference_date)

-- `_MAX_WINDOW_DAYS` of seconds, and a day
abbrev pub max_window : ℕ
max_window = 365 * 86400

abbrev pub one_day : ℕ
one_day = 86400

-- `while current < end`
unfoldable pub split_windows : ℕ → ℕ → ℕ → List (ℕ × ℕ)
split_windows zero current end = []
split_windows (suc fuel) current end =
    let window_end = min (current + max_window) end in
    let rest = split_windows fuel (window_end + one_day) end in
    if ltb current end then (current, window_end) ∷ rest else []

unfoldable pub sync_windows : ℕ → ℕ → List (ℕ × ℕ)
unfolding split_windows
sync_windows start end = split_windows (end - start) start end

-- the pairs of the codes, each once; the symbol is built from the two
unfoldable pub get_fx_pairs : List ℕ → List (ℕ × ℕ)
get_fx_pairs [] = []
get_fx_pairs (a ∷ codes) = map (λ b. (a, b)) codes ++ get_fx_pairs codes

-- The business days among the ordinals from 1 to a day, counted by whole weeks: ordinal 1 is a Monday.
abbrev pub business_days_up_to : ℕ → ℕ
business_days_up_to day = 5 * (day / 7) + min (day % 7) 5

up_to_next :
    (day : ℕ)
    → business_days_up_to (day + 1)
      ≡ business_days_up_to day + (if ltb (weekday (day + 1)) 5 then 1 else 0)
up_to_next day = ground arith

count_days_eq :
    (fuel cursor end days : ℕ)
    → fuel + cursor ≡ end
    → count_days fuel cursor end days + business_days_up_to cursor ≡ days + business_days_up_to end
unfolding count_days
count_days_eq zero cursor end days e = ap (λ x. days + business_days_up_to x) (omega (arith, e))
count_days_eq (suc fuel) cursor end days e = ground (
  arith,
  e,
  up_to_next cursor,
  count_days_eq fuel (cursor + 1) end (if ltb (weekday (cursor + 1)) 5 then days + 1 else days),
)

-- The loop over the days counts what the weeks give: from the earlier date to the later one it is the
-- difference of the business days up to each, and nothing the other way round.
pub business_days_between_eq :
    (start end : ℕ)
    → business_days_between start end
      ≡ (if leb end start then 0 else business_days_up_to end - business_days_up_to start)
unfolding business_days_between
business_days_between_eq start end = elim (Bool-cases (leb end start)) [
  | inl early ↦ rw early refl
  | inr late ↦
      rw late (omega (arith, count_days_eq (end - start) start end 0 (ground (arith, late))))
]

-- Windows that begin at `start`, none longer than a year, each a day after the one before, up to at most a
-- day before `end`.
abbrev pub Covers : ℕ → ℕ → List (ℕ × ℕ) → Type 0
Covers start end [] = end ≤ start
Covers start end ((a, b) ∷ windows) =
    (a ≡ start) × (a < b) × (b ≤ a + max_window) × (b ≤ end) × Covers (b + one_day) end windows

split_windows-Covers :
    (fuel current end : ℕ)
    → end ≤ fuel + current
    → Covers current end (split_windows fuel current end)
unfolding split_windows
split_windows-Covers zero current end h = omega (arith, h)
split_windows-Covers (suc fuel) current end h = elim (Bool-cases (ltb current end)) [
  | inl more ↦ rw more (
    refl,
    ground (arith, more),
    omega arith,
    omega arith,
    split_windows-Covers fuel (min (current + max_window) end + one_day) end
        (ground (arith, h, more)),
  )
  | inr done ↦ rw done (ground (arith, done))
]

-- The windows of a synchronisation begin at its start, are not empty and at most 365 days long, each begins a
-- day after the end of the one before, none passes the end, and the last stops at most a day before it: the
-- fuel is enough.
pub sync_windows-Covers : (start end : ℕ) → Covers start end (sync_windows start end)
unfolding sync_windows
sync_windows-Covers start end = split_windows-Covers (end - start) start end (omega arith)
