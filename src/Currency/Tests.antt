-- ===== src/Currency/Tests.antt =====
-- Runs of the calendar and of the edits of rates, and the theorems at small inputs.
use personal_fin_hub.Base.{◌-◌, ◌*◌, ◌≡◌, refl, true, false, none, some, List, [], ◌∷◌, pos, arith}
use personal_fin_hub.Currency.Calendar.{
  business_days_between, business_days_up_to, business_days_between_eq, sync_windows, split_windows,
  Covers, sync_windows-Covers, get_fx_pairs, is_stale_rate, count_days,
}
use personal_fin_hub.Currency.Rates.{Rate, pair_exists, upsert_rate}
use personal_fin_hub.Currency.Sync.{
  get_distinct_codes, windows_of, fetch, store_history, store_all, sync_pairs, sync_rates,
}
use personal_fin_hub.Currency.OneWay.{IsOneWay, create_call, perform, perform-IsOneWay}

-- Friday 2026-01-02 to Monday 2026-01-05 is one business day, and to Tuesday two.
friday_to_monday : is_stale_rate 739618 739621 ≡ false
unfolding is_stale_rate business_days_between count_days
friday_to_monday = refl

friday_to_tuesday : is_stale_rate 739618 739622 ≡ true
unfolding is_stale_rate business_days_between count_days
friday_to_tuesday = refl

business_days_between_eq_example :
    business_days_between 739618 739625 ≡ business_days_up_to 739625 - business_days_up_to 739618
business_days_between_eq_example = business_days_between_eq 739618 739625

-- From an instant to 366 days later there is one window, which leaves the last day out.
one_window : sync_windows 0 (366 * 86400) ≡ (0, 365 * 86400) ∷ []
unfolding sync_windows split_windows
one_window = refl

sync_windows-Covers_example : Covers 100000 90000000 (sync_windows 100000 90000000)
sync_windows-Covers_example = sync_windows-Covers 100000 90000000

abbrev one_rate : List Rate
one_rate = record { code = 1; base_code = 2; rate = pos 3; timestamp = 0 } ∷ []

one_rate-IsOneWay : IsOneWay one_rate
unfolding pair_exists
one_rate-IsOneWay a b apart e = ground (arith, apart, e)

perform-IsOneWay_example : IsOneWay (perform (pos 1) (create_call 2 1 (pos 4) 5) one_rate)
perform-IsOneWay_example =
    perform-IsOneWay (pos 1) (create_call 2 1 (pos 4) 5) one_rate one_rate-IsOneWay

-- A synchronisation stores the pair of two codes in the order of the codes, whatever direction there is.
both_directions :
    (sync_rates
      (λ code base w. some ((7, some (pos 9)) ∷ []))
      true
      none
      10
      (record { code = 2; base_code = 1; rate = pos 3; timestamp = 0 } ∷ [])).1
    ≡ record { code = 2; base_code = 1; rate = pos 3; timestamp = 0 }
      ∷ record { code = 1; base_code = 2; rate = pos 9; timestamp = 7 }
      ∷ []
unfolding sync_rates get_distinct_codes windows_of fetch store_history store_all sync_pairs
    upsert_rate get_fx_pairs
both_directions = refl
