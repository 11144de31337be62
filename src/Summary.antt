-- ===== src/Summary.antt =====
-- The tables that are computed from processed reports: the updaters of each provider type
-- (masu/processor/report_summary_updater.py, masu/processor/aws/aws_report_summary_updater.py,
-- masu/processor/ocp/ocp_report_summary_updater.py, masu/processor/ocp/ocp_cloud_summary_updater.py).
-- A date in the format '%Y-%m-%d' is the date itself. The SQL scripts that fill the tables are not
-- modelled: a run of one is an entry of a log, with the arguments that it is given.
pub mod Aws
pub mod Ocp
pub mod Task
pub mod Stamps
pub mod Months
pub mod Periods
mod Tests
use masu.Prelude.{
  ℕ, ◌%◌, String, Bool, true, false, ◌&&◌, ◌||◌, not, Option, none, some, List, [], ◌∷◌, ◌++◌, map,
  select, ltb, leb, contains, ◌==◌, nat_eq, if◌then◌else◌,
}
use masu.Provider.{is_aws, is_ocp}

pub record Date : Type 0 where
  pub year : ℕ
  pub month : ℕ
  pub day : ℕ

abbrev pub same_date : Date → Date → Bool
same_date a b = a.year == b.year && a.month == b.month && a.day == b.day

abbrev pub date_leb : Date → Date → Bool
date_leb a b =
    if a.year == b.year
    then (if a.month == b.month then leb a.day b.day else ltb a.month b.month)
    else ltb a.year b.year

-- `calendar.monthrange(year, month)[1]`
unfoldable pub last_day_of_month : ℕ → ℕ → ℕ
last_day_of_month year month =
    if month == 2
    then (if year % 4 == 0 && (not (year % 100 == 0) || year % 400 == 0) then 29 else 28)
    else if contains (4 ∷ 6 ∷ 9 ∷ 11 ∷ []) month
    then 30
    else 31

abbrev pub first_day : Date → Date
first_day d = record d { day = 1 }

pub record Range : Type 0 where
  pub start_date : Date
  pub end_date : Date

pub record Moment : Type 0 where
  pub date : Date
  pub microsecond : ℕ

-- A row of the bills, or of the report periods, which have no `finalized_datetime`.
pub record Period : Type 0 where
  pub id : ℕ
  pub provider_id : ℕ
  pub period_start : Date
  pub summary_data_creation_datetime : Option Moment
  pub summary_data_updated_datetime : Option Moment
  pub finalized_datetime : Option Moment

-- `ProviderDBAccessor.get_provider`, with the resource name of its authentication, which is the
-- cluster of an OpenShift provider.
pub record Provider : Type 0 where
  pub id : ℕ
  pub uuid : String
  pub provider_type : String
  pub resource_name : String

pub record Manifest : Type 0 where
  pub billing_period_start_datetime : Moment
  pub num_processed_files : ℕ
  pub num_total_files : ℕ

-- The scripts and the arguments of each run.
pub data Script : Type 0 where
  aws_daily aws_daily_summary : Range → List ℕ → Script
  aws_tags : Script
  ocp_daily ocp_storage_daily : Range → Option String → Script
  ocp_daily_summary ocp_storage_daily_summary : Range → Option String → Script
  ocp_pod_labels ocp_volume_claim_labels ocp_volume_labels : Script
  ocp_on_aws : Range → Option String → List ℕ → Script
  ocp_cost : Range → String → Script

pub record Db : Type 0 where
  pub bills : List Period
  pub report_periods : List Period
  pub log : List Script

abbrev pub run : List Script → Db → Db
run scripts db = record db { log = db.log ++ scripts }

-- `filter_by(provider_id=...)` and `filter_by(billing_period_start=...)`, which both tables have.
unfoldable pub starts_on : ℕ → Date → Period → Bool
starts_on provider_id date p = p.provider_id == provider_id && same_date p.period_start date

-- `bills_for_provider_id(provider_id, start_date)`: the bills of the month of the date.
abbrev pub of_month : ℕ → Date → Period → Bool
of_month provider_id date = starts_on provider_id (first_day date)

abbrev pub month_range : Date → Range
month_range bill_date = record {
  start_date = bill_date;
  end_date = record bill_date { day = last_day_of_month bill_date.year bill_date.month };
}

abbrev pub creation : Moment → Option Moment → Option Moment
creation now none = some now
creation now (some t) = some t

-- The two dates that a run writes on a row.
unfoldable pub stamp : Moment → Period → Period
stamp now p = record p {
  summary_data_creation_datetime = creation now p.summary_data_creation_datetime;
  summary_data_updated_datetime = some now;
}

-- The loop over the rows of the month.
unfoldable pub stamp_month : Moment → ℕ → Date → List Period → List Period
unfolding stamp
stamp_month now provider_id date rows =
    map (λ p. if of_month provider_id date p then stamp now p else p) rows

-- `get_bills_from_provider`: nothing for a provider that is not AWS.
unfoldable pub get_bills_from_provider : Provider → Range → Db → List Period
get_bills_from_provider provider range db =
    if is_aws provider.provider_type
    then select
        (λ p.
          p.provider_id == provider.id
          && date_leb (first_day range.start_date) p.period_start
          && date_leb p.period_start range.end_date)
        db.bills
    else []

unfoldable pub get_cluster_id_from_provider : Provider → Option String
get_cluster_id_from_provider provider =
    if is_ocp provider.provider_type then some provider.resource_name else none

abbrev pub ids : List Period → List ℕ
ids rows = map (λ p. p.id) rows

abbrev cost_script : Range → Option String → List Script
cost_script range none = []
cost_script range (some cluster_id) = ocp_cost range cluster_id ∷ []

-- `OCPCloudReportSummaryUpdater.update_summary_tables`
unfoldable pub update_cloud_tables : Provider → Range → Db → Db
unfolding get_cluster_id_from_provider get_bills_from_provider
update_cloud_tables provider range db =
    let cluster_id = get_cluster_id_from_provider provider in
    run
      (ocp_on_aws range cluster_id (ids (get_bills_from_provider provider range db))
        ∷ cost_script range cluster_id)
      db
