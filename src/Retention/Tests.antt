-- ===== src/Retention/Tests.antt =====
-- Runs of the cleaners.
use masu.Prelude.{arith, ℕ, ◌≡◌, refl, false, none, some, [], ◌∷◌, leb}
use masu.Retention.{ok, Request, selects}
use masu.Retention.Aws.{
  Bill, BillRow, AwsDb, removed_bill, without_bills, purge_aws, purge_aws_exact,
}
use masu.Retention.Ocp.{
  UsagePeriod, PeriodRow, ClusterRow, OcpDb, removed_period, without_rows, purge_periods, purge_ocp,
  purge_ocp_exact,
}
use masu.Retention.Remover.{Schema, removed_bills}
use masu.Summary.{Date, last_day_of_month}
use masu.Retention.Expiry.{
  day_before, minus_days, month_before, months_before, calculate_expiration_date, first_ordinal,
  days_of_months, remover_remove,
}
use masu.Retention.Expiry.Months.{calculate_expiration_date-months_before, remover_remove-exact}

abbrev old_bill : Bill
old_bill = record { id = 1; payer_account_id = "10"; billing_period_start = 50; provider_id = 4 }

abbrev new_bill : Bill
new_bill = record { id = 2; payer_account_id = "10"; billing_period_start = 90; provider_id = 4 }

abbrev row : ℕ → ℕ → BillRow
row id bill = record { id = id; cost_entry_bill_id = bill }

abbrev two_bills : AwsDb
two_bills = record {
  bills = old_bill ∷ new_bill ∷ [];
  ocp_aws_summary = row 1 1 ∷ [];
  ocp_aws_project_summary = [];
  line_items = row 1 2 ∷ row 2 1 ∷ row 3 2 ∷ [];
  daily = row 1 1 ∷ row 2 2 ∷ [];
  summary = [];
  cost_entries = row 1 1 ∷ [];
}

abbrev old_period : UsagePeriod
old_period = record { id = 1; cluster_id = "c"; report_period_start = 50; provider_id = 4 }

abbrev new_period : UsagePeriod
new_period = record { id = 2; cluster_id = "c"; report_period_start = 90; provider_id = 4 }

abbrev period_row : ℕ → ℕ → PeriodRow
period_row id period = record { id = id; report_period_id = period }

abbrev cluster_row : ℕ → ℕ → ClusterRow
cluster_row id day = record { id = id; cluster_id = "c"; usage_start = day }

abbrev two_periods : OcpDb
two_periods = record {
  usage_periods = old_period ∷ new_period ∷ [];
  line_items = period_row 1 1 ∷ period_row 2 2 ∷ [];
  daily_usage = cluster_row 1 55 ∷ cluster_row 2 95 ∷ [];
  summary_usage = cluster_row 1 55 ∷ [];
  cost_summary = [];
  storage_items = period_row 1 2 ∷ [];
  daily_storage_items = [];
  storage_summary = [];
  reports = period_row 1 1 ∷ [];
  ocp_aws_summary = [];
  ocp_aws_project_summary = [];
}

abbrev by_date : Request
by_date = record { expired_date = some 60; provider_id = none; simulate = false }

-- The row of a day that has not expired goes with its cluster.
purge_ocp_test :
    purge_ocp by_date two_periods
    ≡ ok (
      removed_period old_period ∷ [],
      record two_periods {
        usage_periods = new_period ∷ [];
        line_items = period_row 2 2 ∷ [];
        daily_usage = [];
        summary_usage = [];
        reports = [];
      },
    )
unfolding purge_ocp selects purge_periods
purge_ocp_test = refl

purge_aws_exact_example :
    purge_aws by_date two_bills
    ≡ ok (removed_bill old_bill ∷ [], without_bills (λ start provider. leb start 60) two_bills)
unfolding selects
purge_aws_exact_example = purge_aws_exact by_date two_bills (λ start provider. leb start 60) refl

purge_ocp_exact_example :
    purge_ocp by_date two_periods
    ≡ ok (
      removed_period old_period ∷ [],
      without_rows (new_period ∷ []) (old_period ∷ []) two_periods,
    )
unfolding selects
purge_ocp_exact_example = purge_ocp_exact by_date two_periods (λ start provider. leb start 60) refl

abbrev schema : Schema
schema = record { aws = two_bills; ocp = two_periods }

abbrev may : Date
may = record { year = 2019; month = 5; day = 31 }

expired_february :
    calculate_expiration_date 32 (record { year = 2018; month = 2; day = 3 })
    ≡ some (record { year = 2015; month = 7 })
unfolding calculate_expiration_date minus_days day_before month_before last_day_of_month
expired_february = refl

calculate_expiration_date-months_before_example :
    calculate_expiration_date 3 may ≡ some (record { year = 2019; month = 2 })
unfolding months_before month_before
calculate_expiration_date-months_before_example =
    calculate_expiration_date-months_before 3 may (record { year = 2019; month = 2 }) (omega arith)
      (omega arith, omega arith) refl

abbrev winter : AwsDb
winter = record two_bills {
  bills =
      record old_bill { billing_period_start = 737091 }
      ∷ record new_bill { billing_period_start = 737119 }
      ∷ [];
}

abbrev winter_schema : Schema
winter_schema = record { aws = winter; ocp = two_periods }

removed_february : first_ordinal (record { year = 2019; month = 2 }) ≡ 737091
unfolding days_of_months last_day_of_month
removed_february = refl

remover_remove-exact_example :
    let starts = λ (start provider_id : ℕ). leb start 737091 in
    remover_remove 3 "AWS" (some 3) may may false none winter_schema
    ≡ some (
        ok (
          removed_bills (removed_bill (record old_bill { billing_period_start = 737091 }) ∷ []),
          record winter_schema { aws = without_bills starts winter },
        ))
unfolding months_before month_before days_of_months last_day_of_month
remover_remove-exact_example =
    remover_remove-exact 3 "AWS" 3 may may winter_schema (record { year = 2019; month = 2 })
      (record { year = 2019; month = 2 }) refl (omega arith) (omega arith, omega arith)
      (omega arith, omega arith) refl refl
