-- ===== src/Summary/Task.antt =====
-- `ReportSummaryUpdater` and the tasks that use it (masu/processor/report_summary_updater.py,
-- masu/processor/tasks.py): the dates and the choice of an updater.
use masu.Prelude.{Option, none, some, if◌then◌else◌}
use masu.Provider.{is_aws, is_ocp}
use masu.Summary.{Manifest, Moment, Range, Date, Db, Provider, update_cloud_tables}
use masu.Summary.Aws
use masu.Summary.Ocp

-- The times at which a run of the task looks at the clock.
pub record Clock : Type 0 where
  pub today : Moment
  pub daily : Moment
  pub summary : Moment

-- `_format_dates`, which `update_daily_tables` and `update_summary_tables` apply to their arguments.
unfoldable pub format_dates : Date → Option Date → Moment → Range
format_dates start_date none today = record { start_date = start_date; end_date = today.date }
format_dates start_date (some end_date) today = record {
  start_date = start_date;
  end_date = end_date;
}

-- What the task leaves: the tables and the dates of the `update_charge_info` that it queues.
pub record Done : Type 0 where
  pub db : Db
  pub charge_start : Date
  pub charge_end : Option Date

abbrev after_summary : Provider → Range → Option (Range × Db) → Option Done
after_summary provider daily none = none
after_summary provider daily (some (r, db)) = some (record {
  db = update_cloud_tables provider r db;
  charge_start = daily.start_date;
  charge_end = some daily.end_date;
})

abbrev aws_run : Provider → Option Manifest → Clock → Option (Range × Db) → Option Done
aws_run provider manifest clock none = none
aws_run provider manifest clock (some (r, db)) =
    after_summary provider r (Aws.update_summary_tables provider manifest clock.summary db r)

abbrev ocp_run : Provider → Option Manifest → Clock → Range × Db → Option Done
ocp_run provider manifest clock (r, db) =
    after_summary provider r (some (Ocp.update_summary_tables provider manifest clock.summary db r))

-- The two updates of the task, by the type of the provider.
unfoldable pub update_tables : Provider → Option Manifest → Clock → Db → Range → Option Done
unfolding update_cloud_tables
update_tables provider manifest clock db range =
    if is_aws provider.provider_type
    then aws_run provider manifest clock
        (Aws.update_daily_tables provider manifest clock.daily db range)
    else if is_ocp provider.provider_type
    then ocp_run provider manifest clock (Ocp.update_daily_tables provider manifest db range)
    else none

-- The task `update_summary_tables` on a provider with a uuid, whatever the counts of the manifest:
-- `manifest_is_ready` only logs an error where they differ, and returns True. The constructor of the
-- updater fails on another provider type.
unfoldable pub update_summary_tables :
    Provider → Option Manifest → Clock → Db → Date → Option Date → Option Done
unfolding format_dates
update_summary_tables provider manifest clock db start_date end_date =
    update_tables provider manifest clock db (format_dates start_date end_date clock.today)
