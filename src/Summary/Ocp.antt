-- ===== src/Summary/Ocp.antt =====
-- `OCPReportSummaryUpdater` (masu/processor/ocp/ocp_report_summary_updater.py).
use masu.Prelude.{
  Bool, true, ◌&&◌, not, Option, none, some, List, [], ◌∷◌, is_some, ◌==◌, nat_eq, select,
  if◌then◌else◌,
}
use masu.Summary.{
  Manifest, Moment, Period, Range, Db, Provider, month_range, starts_on, run, ocp_daily,
  ocp_storage_daily, ocp_daily_summary, ocp_storage_daily_summary, ocp_pod_labels,
  ocp_volume_claim_labels, ocp_volume_labels, get_cluster_id_from_provider, stamp_month,
}

unfoldable pub determine_if_full_summary_update_needed : Manifest → Period → Bool
determine_if_full_summary_update_needed manifest report_period =
    let is_done_processing = manifest.num_processed_files == manifest.num_total_files in
    let is_new_period = not (is_some report_period.summary_data_creation_datetime) in
    is_done_processing && is_new_period

abbrev pub full_update : Manifest → List Period → Bool
full_update manifest [] = true
full_update manifest (period ∷ periods) = determine_if_full_summary_update_needed manifest period

unfoldable pub get_sql_inputs : Provider → Option Manifest → Db → Range → Range
get_sql_inputs provider none db range = range
get_sql_inputs provider (some manifest) db range =
    let bill_date = manifest.billing_period_start_datetime.date in
    let rows = select (starts_on provider.id bill_date) db.report_periods in
    if full_update manifest rows then month_range bill_date else range

unfoldable pub update_daily_tables : Provider → Option Manifest → Db → Range → Range × Db
update_daily_tables provider manifest db range =
    let r = get_sql_inputs provider manifest db range in
    let cluster_id = get_cluster_id_from_provider provider in
    (r, run (ocp_daily r cluster_id ∷ ocp_storage_daily r cluster_id ∷ []) db)

unfoldable pub update_summary_tables : Provider → Option Manifest → Moment → Db → Range → Range × Db
update_summary_tables provider manifest now db range =
    let r = get_sql_inputs provider manifest db range in
    let cluster_id = get_cluster_id_from_provider provider in
    let scripts =
      ocp_daily_summary r cluster_id
      ∷ ocp_pod_labels
      ∷ ocp_storage_daily_summary r cluster_id
      ∷ ocp_volume_claim_labels
      ∷ ocp_volume_labels
      ∷ [] in
    (
      r,
      record (run scripts db) {
        report_periods = stamp_month now provider.id r.start_date db.report_periods;
      },
    )
