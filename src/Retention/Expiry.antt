-- ===== src/Retention/Expiry.antt =====
-- `_calculate_expiration_date` of masu/processor/expired_data_remover.py, and the constructor and
-- `remove` that use it. A date less a number of days is that many steps to the day before; before
-- the first of January of the year 1 Python raises an OverflowError, which is `none`.
pub mod Months
use mathlib.Core.Option
use mathlib.Core.Option.{some-injective}
use mathlib.Core.Path.{subst}
use native.Mathlib.Numerals.{unary_clauses}
use masu.Prelude.{
  ℕ, zero, suc, ◌+◌, ◌-◌, ◌*◌, ◌/◌, ◌≤◌, ◌<◌, ◌≡◌, refl, ap, ◌∙◌, arith, Bool, true, false, Option,
  none, some, ◌==◌, nat_eq, ◌||◌, if◌then◌else◌, String, leb, map, select,
}
use masu.Prelude.Options.{and_then, and_then-and_then, and_then-eq, and_then-eq-some}
use masu.Payload.Files.{Month}
use masu.Provider.{is_aws}
use masu.Retention.{Result, ok}
use masu.Retention.Aws.{removed_bill, bill_selected, without_bills}
use masu.Retention.Remover.{
  Schema, Removed, removed_bills, remove_expired_data, remove_expired_data-aws,
}
use masu.Summary.{Date, last_day_of_month}

-- The month before; of January of the year 1, none.
unfoldable pub month_before : Month → Option Month
month_before m =
    if m.month == 1
    then (if m.year == 1 then none else some (record { year = m.year - 1; month = 12 }))
    else some (record { year = m.year; month = m.month - 1 })

abbrev pub last_date : Month → Date
last_date m = record { year = m.year; month = m.month; day = last_day_of_month m.year m.month }

abbrev pub month_of : Date → Month
month_of d = record { year = d.year; month = d.month }

unfoldable pub day_before : Date → Option Date
unfolding month_before
day_before d =
    if d.day == 1
    then Option.map last_date (month_before (month_of d))
    else some (record d { day = d.day - 1 })

-- `d - timedelta(days=n)`
unfoldable pub minus_days : ℕ → Date → Option Date
minus_days zero d = some d
minus_days (suc n) d = and_then (day_before d) (minus_days n)

abbrev pub middle_of_month : Month → Date
middle_of_month m = record { year = m.year; month = m.month; day = 15 }

-- The month on whose first day the data expires.
unfoldable pub calculate_expiration_date : ℕ → Date → Option Month
calculate_expiration_date months_to_keep today =
    Option.map month_of (minus_days (months_to_keep * 30) (middle_of_month (month_of today)))

-- The month a number of months before.
unfoldable pub months_before : ℕ → Month → Option Month
months_before zero m = some m
months_before (suc n) m = and_then (months_before n m) month_before

-- `date.toordinal` of the first day of a month: the number of days that the tables' dates are.
abbrev years_before : ℕ → ℕ
years_before n = n * 365 + n / 4 - n / 100 + n / 400

unfoldable pub days_of_months : ℕ → ℕ → ℕ
days_of_months zero year = 0
days_of_months (suc n) year = days_of_months n year + last_day_of_month year (suc n)

abbrev pub first_ordinal : Month → ℕ
first_ordinal m = years_before (m.year - 1) + days_of_months (m.month - 1) m.year + 1

-- `remove` once the remover is built: it computes the date again if no provider is given, and has no
-- use for one otherwise.
abbrev remove_with :
    (provider : String)
    → Bool
    → Option ℕ
    → Schema
    → Option Month
    → Option (Result (Removed × Schema))
remove_with provider simulate none schema expired =
    and_then expired
      (λ e. some (remove_expired_data provider (first_ordinal e) simulate none schema))
remove_with provider simulate (some id) schema expired =
    some (remove_expired_data provider 0 simulate (some id) schema)

abbrev default_to : ℕ → Option ℕ → ℕ
default_to retain_num_months none = retain_num_months
default_to retain_num_months (some n) = n

-- `ExpiredDataRemover(schema, provider, num_of_months_to_keep)` on one day and its `remove` on
-- another; `none` is an OverflowError.
unfoldable pub remover_remove :
    (retain_num_months : ℕ)
    → (provider : String) → (num_of_months_to_keep : Option ℕ) → (built today : Date) → Bool
    → Option ℕ
    → Schema
    → Option (Result (Removed × Schema))
remover_remove retain_num_months provider num built today simulate provider_id schema =
    let months_to_keep = default_to retain_num_months num in
    and_then (calculate_expiration_date months_to_keep built) (λ _.
      remove_with provider simulate provider_id schema
        (calculate_expiration_date months_to_keep today))
