-- ===== src/Summary/Aws.antt =====
-- `AWSReportSummaryUpdater` (masu/processor/aws/aws_report_summary_updater.py). The exception on a
-- manifest without a bill is `none`.
use mathlib.Core.Option
use masu.Prelude.{
  Bool, false, ◌&&◌, ◌||◌, not, Option, none, some, List, [], ◌∷◌, is_some, ◌==◌, nat_eq, select,
  if◌then◌else◌,
}
use masu.Summary.{
  Manifest, Moment, Period, Range, Db, Provider, same_date, month_range, starts_on, ids, run,
  aws_daily, aws_daily_summary, aws_tags, get_bills_from_provider, stamp_month,
}

abbrev pub newly_finalized : Moment → Option Moment → Bool
newly_finalized now none = false
newly_finalized now (some t) = same_date t.date now.date

unfoldable pub determine_if_full_summary_update_needed : Manifest → Moment → Period → Bool
determine_if_full_summary_update_needed manifest now bill =
    let is_done_processing = manifest.num_processed_files == manifest.num_total_files in
    let is_newly_finalized = newly_finalized now bill.finalized_datetime in
    let is_new_bill = not (is_some bill.summary_data_creation_datetime) in
    is_done_processing && is_newly_finalized || is_done_processing && is_new_bill

-- `bills[0]`
abbrev pub full_update : Manifest → Moment → List Period → Option Bool
full_update manifest now [] = none
full_update manifest now (bill ∷ bills) =
    some (determine_if_full_summary_update_needed manifest now bill)

unfoldable pub get_sql_inputs : Provider → Option Manifest → Moment → Db → Range → Option Range
get_sql_inputs provider none now db range = some range
get_sql_inputs provider (some manifest) now db range =
    let bill_date = manifest.billing_period_start_datetime.date in
    Option.map
      (λ (do_month_update : Bool). if do_month_update then month_range bill_date else range)
      (full_update manifest now (select (starts_on provider.id bill_date) db.bills))

unfoldable pub update_daily_tables :
    Provider → Option Manifest → Moment → Db → Range → Option (Range × Db)
update_daily_tables provider manifest now db range =
    Option.map
      (λ (r : Range). (r, run (aws_daily r (ids (get_bills_from_provider provider r db)) ∷ []) db))
      (get_sql_inputs provider manifest now db range)

unfoldable pub update_summary_tables :
    Provider → Option Manifest → Moment → Db → Range → Option (Range × Db)
update_summary_tables provider manifest now db range =
    Option.map
      (λ (r : Range). (
        r,
        record (run
            (aws_daily_summary r (ids (get_bills_from_provider provider r db)) ∷ aws_tags ∷ [])
            db) { bills = stamp_month now provider.id r.start_date db.bills },
      ))
      (get_sql_inputs provider manifest now db range)
