-- ===== src/Currency/Sync.antt =====
-- sync_rates of backend/services/currency_svc.py: the rates of every pair of codes, fetched window by window.
-- The market client is a parameter: what it answers for a pair and a window, a history of closes by date, or
-- an exception. So are the breaker's answer, the earliest transaction (its seconds, where it parses) and
-- the midnight of today. Pacing and logging are left out.
use personal_fin_hub.Base.{
  ℕ, ◌+◌, Bool, true, false, not, Option, none, some, List, [], ◌∷◌, ltb, ◌==◌, if◌then◌else◌,
  length, map, ℤ,
}
use personal_fin_hub.Currency.Rates.{Rate, upsert_rate}
use personal_fin_hub.Currency.Calendar.{sync_windows, get_fx_pairs}

abbrev pub History : Type 0
History = List (ℕ × Option ℤ)

-- `none` is the provider's default window.
abbrev pub Client : Type 0
Client = ℕ → ℕ → Option (ℕ × ℕ) → Option History

pub record PairResult : Type 0 where
  pub code : ℕ
  pub base_code : ℕ
  pub rates_added : ℕ
  pub has_failed : Bool
  pub windows : Option ℕ

pub record SyncResult : Type 0 where
  pub pairs : List PairResult
  pub total_rates : ℕ
  pub circuit_open : Bool
  pub has_warning : Bool
  pub skipped : List (ℕ × ℕ)

-- a set of codes in order
abbrev insert_code : ℕ → List ℕ → List ℕ
insert_code a [] = a ∷ []
insert_code a (b ∷ codes) =
    if a == b then b ∷ codes else if ltb a b then a ∷ b ∷ codes else b ∷ insert_code a codes

unfoldable pub get_distinct_codes : List Rate → List ℕ
get_distinct_codes [] = []
get_distinct_codes (r ∷ rates) =
    insert_code r.code (insert_code r.base_code (get_distinct_codes rates))

unfoldable pub windows_of : Option ℕ → ℕ → List (Option (ℕ × ℕ))
windows_of none end = none ∷ []
windows_of (some start) end = map some (sync_windows start end)

-- The histories of all windows, or an exception in one of them.
unfoldable pub fetch : Client → ℕ → ℕ → List (Option (ℕ × ℕ)) → Option (List History)
fetch client code base [] = some []
fetch client code base (w ∷ windows) = elim (client code base w) [
  | none ↦ none
  | some history ↦ elim (fetch client code base windows) [
    | none ↦ none
    | some rest ↦ some (history ∷ rest)
  ]
]

-- the rows of a history, and how many were stored
unfoldable pub store_history : ℕ → ℕ → History → List Rate → List Rate × ℕ
store_history code base [] rates = (rates, 0)
store_history code base ((at, none) ∷ rest) rates = store_history code base rest rates
store_history code base ((at, some close) ∷ rest) rates =
    let (rates', n) = store_history code base rest (upsert_rate code base close at rates) in
    (rates', n + 1)

unfoldable pub store_all : ℕ → ℕ → List History → List Rate → List Rate × ℕ
store_all code base [] rates = (rates, 0)
store_all code base (h ∷ histories) rates =
    let (rates', n) = store_history code base h rates in
    let (rates'', m) = store_all code base histories rates' in (rates'', n + m)

-- An exception of the client is the pair's error; nothing of the pair is stored.
abbrev pub sync_pair : ℕ → ℕ → Option ℕ → Option (List History) → List Rate → List Rate × PairResult
sync_pair code base windows none rates = (
  rates,
  record { code = code; base_code = base; rates_added = 0; has_failed = true; windows = none },
)
sync_pair code base windows (some histories) rates =
    let (rates', n) = store_all code base histories rates in
    (
      rates',
      record {
        code = code;
        base_code = base;
        rates_added = n;
        has_failed = false;
        windows = windows;
      },
    )

unfoldable pub sync_pairs :
    Client
    → Option ℕ
    → List (Option (ℕ × ℕ))
    → List (ℕ × ℕ)
    → List Rate
    → List Rate × List PairResult
sync_pairs client count windows [] rates = (rates, [])
sync_pairs client count windows ((code, base) ∷ pairs) rates =
    let (rates', r) = sync_pair code base count (fetch client code base windows) rates in
    let (rates'', rs) = sync_pairs client count windows pairs rates' in (rates'', r ∷ rs)

unfoldable pub total_added : List PairResult → ℕ
total_added [] = 0
total_added (r ∷ rs) = r.rates_added + total_added rs

unfoldable pub any_failed : List PairResult → Bool
any_failed [] = false
any_failed (r ∷ rs) = if r.has_failed then true else any_failed rs

abbrev pub count_of : Option ℕ → List (Option (ℕ × ℕ)) → Option ℕ
count_of none windows = none
count_of (some start) windows = some (length windows)

-- `none` stands for the CurrencyError where there is no code. `start` is a week before the earliest
-- transaction.
unfoldable pub sync_rates :
    Client → (can_proceed : Bool) → Option ℕ → ℕ → List Rate → Option SyncResult × List Rate
sync_rates client can_proceed start end rates = elim (get_distinct_codes rates) [
  | [] ↦ (none, rates)
  | code ∷ codes ↦
      let pairs = get_fx_pairs (code ∷ codes) in
      let windows = windows_of start end in
      let (rates', results) = sync_pairs client (count_of start windows) windows pairs rates in
      if not can_proceed
      then (
        some (record {
          pairs = [];
          total_rates = 0;
          circuit_open = true;
          has_warning = false;
          skipped = pairs;
        }),
        rates,
      )
      else (
        some (record {
          pairs = results;
          total_rates = total_added results;
          circuit_open = false;
          has_warning = any_failed results;
          skipped = [];
        }),
        rates',
      )
]
