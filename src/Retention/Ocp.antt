-- ===== src/Retention/Ocp.antt =====
-- `OCPReportDBCleaner.purge_expired_report_data`.
use masu.Prelude.{
  ℕ, ◌≡◌, refl, ap, String, Bool, true, false, not, none, some, List, [], ◌∷◌, map, select, any,
  ◌==◌, nat_eq, string_eq, if◌then◌else◌,
}
use masu.Retention.{Result, ok, cleaner_error, Request, selects}
use masu.Retention.Loops.{delete_each, delete_each-select}

pub record UsagePeriod : Type 0 where
  pub id : ℕ
  pub cluster_id : String
  pub report_period_start : ℕ
  pub provider_id : ℕ

-- A row of a table that belongs to a usage period.
pub record PeriodRow : Type 0 where
  pub id : ℕ
  pub report_period_id : ℕ

-- A row of a table that names its cluster and the day of its usage.
pub record ClusterRow : Type 0 where
  pub id : ℕ
  pub cluster_id : String
  pub usage_start : ℕ

pub record OcpDb : Type 0 where
  pub usage_periods : List UsagePeriod
  pub line_items : List PeriodRow
  pub daily_usage : List ClusterRow
  pub summary_usage : List ClusterRow
  pub cost_summary : List ClusterRow
  pub storage_items : List PeriodRow
  pub daily_storage_items : List ClusterRow
  pub storage_summary : List ClusterRow
  pub reports : List PeriodRow
  pub ocp_aws_summary : List ClusterRow
  pub ocp_aws_project_summary : List ClusterRow

pub record RemovedPeriod : Type 0 where
  pub usage_period_id : ℕ
  pub interval_start : ℕ

abbrev pub of_period : UsagePeriod → PeriodRow → Bool
of_period p r = p.id == r.report_period_id

abbrev pub of_cluster : UsagePeriod → ClusterRow → Bool
of_cluster p r = r.cluster_id == p.cluster_id

abbrev delete_of_period : UsagePeriod → List PeriodRow → List PeriodRow
delete_of_period p rows = select (λ r. not (of_period p r)) rows

abbrev delete_of_cluster : UsagePeriod → List ClusterRow → List ClusterRow
delete_of_cluster p rows = select (λ r. not (of_cluster p r)) rows

-- The ten deletions of one round of the loop.
unfoldable pub delete_period_rows : UsagePeriod → OcpDb → OcpDb
delete_period_rows p db = record db {
  line_items = delete_of_period p db.line_items;
  daily_usage = delete_of_cluster p db.daily_usage;
  summary_usage = delete_of_cluster p db.summary_usage;
  cost_summary = delete_of_cluster p db.cost_summary;
  storage_items = delete_of_period p db.storage_items;
  daily_storage_items = delete_of_cluster p db.daily_storage_items;
  storage_summary = delete_of_cluster p db.storage_summary;
  reports = delete_of_period p db.reports;
  ocp_aws_summary = delete_of_cluster p db.ocp_aws_summary;
  ocp_aws_project_summary = delete_of_cluster p db.ocp_aws_project_summary;
}

abbrev pub removed_period : UsagePeriod → RemovedPeriod
removed_period p = record { usage_period_id = p.id; interval_start = p.report_period_start }

unfoldable pub purge_periods : Bool → List UsagePeriod → OcpDb → List RemovedPeriod × OcpDb
unfolding delete_period_rows
purge_periods simulate [] db = ([], db)
purge_periods simulate (p ∷ periods) db =
    let (removed, db') =
      purge_periods simulate periods (if not simulate then delete_period_rows p db else db) in
    (removed_period p ∷ removed, db')

abbrev pub period_selected : (ℕ → ℕ → Bool) → UsagePeriod → Bool
period_selected query p = query p.report_period_start p.provider_id

abbrev delete_periods : (ℕ → ℕ → Bool) → OcpDb → OcpDb
delete_periods query db = record db {
  usage_periods = select (λ p. not (period_selected query p)) db.usage_periods;
}

abbrev purge_selected : (ℕ → ℕ → Bool) → Bool → OcpDb → List RemovedPeriod × OcpDb
purge_selected query simulate db =
    let (removed, db') =
      purge_periods simulate (select (period_selected query) db.usage_periods) db in
    (removed, (if not simulate then delete_periods query db' else db'))

unfoldable pub purge_ocp : Request → OcpDb → Result (List RemovedPeriod × OcpDb)
purge_ocp request db = elim (selects request) [
  | none ↦ cleaner_error
  | some query ↦ ok (purge_selected query request.simulate db)
]

-- The rows of the periods are left.
abbrev pub without_periods : List UsagePeriod → List PeriodRow → List PeriodRow
without_periods ps rows = select (λ r. not (any (λ p. of_period p r) ps)) rows

abbrev pub without_clusters : List UsagePeriod → List ClusterRow → List ClusterRow
without_clusters ps rows = select (λ r. not (any (λ p. of_cluster p r) ps)) rows

purge_periods-loop :
    (ps : List UsagePeriod) (db : OcpDb)
    → purge_periods false ps db ≡ (
      map removed_period ps,
      record db {
        line_items = delete_each of_period ps db.line_items;
        daily_usage = delete_each of_cluster ps db.daily_usage;
        summary_usage = delete_each of_cluster ps db.summary_usage;
        cost_summary = delete_each of_cluster ps db.cost_summary;
        storage_items = delete_each of_period ps db.storage_items;
        daily_storage_items = delete_each of_cluster ps db.daily_storage_items;
        storage_summary = delete_each of_cluster ps db.storage_summary;
        reports = delete_each of_period ps db.reports;
        ocp_aws_summary = delete_each of_cluster ps db.ocp_aws_summary;
        ocp_aws_project_summary = delete_each of_cluster ps db.ocp_aws_project_summary;
      },
    )
unfolding purge_periods delete_each
purge_periods-loop [] db = refl
purge_periods-loop (p ∷ ps) db = rw (purge_periods-loop ps)

purge_periods-simulate :
    (ps : List UsagePeriod) (db : OcpDb) → purge_periods true ps db ≡ (map removed_period ps, db)
unfolding purge_periods
purge_periods-simulate [] db = refl
purge_periods-simulate (p ∷ ps) db = rw (purge_periods-simulate ps)

-- The database that a real purge of the periods `ps` leaves beside the table of periods.
abbrev pub without_rows : List UsagePeriod → List UsagePeriod → OcpDb → OcpDb
without_rows kept ps db = record {
  usage_periods = kept;
  line_items = without_periods ps db.line_items;
  daily_usage = without_clusters ps db.daily_usage;
  summary_usage = without_clusters ps db.summary_usage;
  cost_summary = without_clusters ps db.cost_summary;
  storage_items = without_periods ps db.storage_items;
  daily_storage_items = without_clusters ps db.daily_storage_items;
  storage_summary = without_clusters ps db.storage_summary;
  reports = without_periods ps db.reports;
  ocp_aws_summary = without_clusters ps db.ocp_aws_summary;
  ocp_aws_project_summary = without_clusters ps db.ocp_aws_project_summary;
}

purge_selected-exact :
    (query : ℕ → ℕ → Bool) (simulate : Bool) (db : OcpDb)
    → purge_selected query simulate db ≡ (
      map removed_period (select (period_selected query) db.usage_periods),
      (if simulate
          then db
          else without_rows
              (select (λ p. not (period_selected query p)) db.usage_periods)
              (select (period_selected query) db.usage_periods)
              db),
    )
purge_selected-exact query true db =
    rw (purge_periods-simulate (select (period_selected query) db.usage_periods) db)
purge_selected-exact query false db =
    rw (purge_periods-loop (select (period_selected query) db.usage_periods) db)
      (simp delete_each-select)

-- With exactly one of the two arguments, a purge reports the selected periods; a simulated one
-- changes nothing, and a real one removes exactly the selected periods, the rows that name one of
-- them, and from the tables by cluster every row of a cluster that has a selected period, whatever
-- the day of its usage.
pub purge_ocp_exact :
    (request : Request) (db : OcpDb) (query : ℕ → ℕ → Bool)
    → selects request ≡ some query
    → purge_ocp request db
      ≡ ok (
        map removed_period (select (period_selected query) db.usage_periods),
        (if request.simulate
            then db
            else without_rows
                (select (λ p. not (period_selected query p)) db.usage_periods)
                (select (period_selected query) db.usage_periods)
                db),
      )
unfolding purge_ocp
purge_ocp_exact request db query h =
    rw (h, purge_ocp) (ap (λ r. ok r) (purge_selected-exact query request.simulate db))
