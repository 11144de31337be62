-- ===== src/Ingest.antt =====
-- The task that processes downloaded report files (masu/processor/tasks.py,
-- masu/processor/_tasks/process.py), the status row of each file
-- (masu/database/report_stats_db_accessor.py) and the manifest that counts the files
-- (masu/database/report_manifest_db_accessor.py). A time is a number of microseconds.
pub mod Once
pub mod Summaries
pub mod Manifests
pub mod Chain
mod Tests
use masu.Prelude.{
  ℕ, ◌+◌, ◌*◌, String, Bool, true, false, ◌&&◌, not, Option, none, some, List, [], ◌∷◌, ◌++◌, map,
  ltb, is_some, any, lookup, insert, ◌==◌, nat_eq, string_eq, if◌then◌else◌,
}
use masu.Provider.Status.{hour}

-- A row of `reporting_common_costusagereportstatus`; the accessor finds it by the report name alone.
pub record ReportStats : Type 0 where
  pub manifest_id : ℕ
  pub last_started_datetime : Option ℕ
  pub last_completed_datetime : Option ℕ

pub record Manifest : Type 0 where
  pub num_total_files : ℕ
  pub num_processed_files : ℕ
  pub manifest_updated_datetime : ℕ

pub record Db : Type 0 where
  pub stats : List (String × ReportStats)
  pub manifests : List (ℕ × Manifest)
  pub setup_complete : Bool

-- A report of the task's list, the times at which its steps look at the clock, and whether the
-- processor succeeds on it.
pub record Report : Type 0 where
  pub file_name : String
  pub manifest_id : ℕ
  pub start_date : String
  pub checked : ℕ
  pub started : ℕ
  pub completed : ℕ
  pub succeeds : Bool

-- `ReportStatsDBAccessor.__init__`: the row of the name, made if there is none.
unfoldable pub open_stats : Report → Db → ReportStats
open_stats report db = elim (lookup report.file_name db.stats) [
  | none ↦ record {
    manifest_id = report.manifest_id;
    last_started_datetime = none;
    last_completed_datetime = none;
  }
  | some stats ↦ stats
]

abbrev pub put_stats : Report → ReportStats → Db → Db
put_stats report stats db = record db { stats = insert report.file_name stats db.stats }

abbrev before_expiry : ℕ → Option ℕ → Bool
before_expiry now none = false
before_expiry now (some started) = ltb now (started + 2 * hour)

-- The two tests that skip a file: in progress for less than two hours, or complete.
unfoldable pub skips : ReportStats → ℕ → Bool
skips stats now =
    if is_some stats.last_started_datetime && not (is_some stats.last_completed_datetime)
    then before_expiry now stats.last_started_datetime
    else is_some stats.last_started_datetime && is_some stats.last_completed_datetime

abbrev pub count_file : ℕ → Option Manifest → ℕ → Db → Db
count_file manifest_id none now db = db
count_file manifest_id (some m) now db = record db {
  manifests =
      insert manifest_id
        (record m {
          num_processed_files = m.num_processed_files + 1;
          manifest_updated_datetime = now;
        })
        db.manifests;
}

-- `_process_report_file`: the start is committed before the processor runs. An exception of the
-- processor leaves it at that.
unfoldable pub process_report_file : Report → Db → Db
unfolding open_stats
process_report_file report db =
    let stats = open_stats report db in
    let begun = record stats { last_started_datetime = some report.started } in
    let db' = put_stats report begun db in
    if report.succeeds
    then (let done = record begun { last_completed_datetime = some report.completed } in
        let db'' = put_stats report done db' in
        let counted =
          count_file report.manifest_id (lookup report.manifest_id db''.manifests) report.completed
            db'' in
        record counted { setup_complete = true })
    else db'

-- An entry of `reports_to_summarize`.
pub record ReportMeta : Type 0 where
  pub start_date : String
  pub manifest_id : ℕ

abbrev pub known_manifest : ℕ → List ReportMeta → Bool
known_manifest manifest_id metas = any (λ m. m.manifest_id == manifest_id) metas

unfoldable pub summarize_once : Report → List ReportMeta → List ReportMeta
summarize_once report metas =
    if known_manifest report.manifest_id metas
    then metas
    else metas ++ record { start_date = report.start_date; manifest_id = report.manifest_id } ∷ []

-- What the task has done: the database, the names of the files that it gave to the processor, and
-- the reports to summarize.
pub record Progress : Type 0 where
  pub db : Db
  pub processed : List String
  pub reports_to_summarize : List ReportMeta

-- The row that the first block of the loop leaves.
abbrev pub looked_at : Report → Progress → Progress
looked_at report p = record p { db = put_stats report (open_stats report p.db) p.db }

abbrev pub processed_file : Report → Progress → Progress
processed_file report p = record p {
  db = process_report_file report p.db;
  processed = p.processed ++ report.file_name ∷ [];
}

-- The loop of `get_report_files`. A `ReportProcessorError` ends it.
unfoldable pub get_report_files : List Report → Progress → Progress
get_report_files [] p = p
get_report_files (report ∷ reports) p =
    let p' = looked_at report p in
    let done = processed_file report p' in
    let skipped = get_report_files reports p' in
    let went_on =
      get_report_files reports
        (record done { reports_to_summarize = summarize_once report p.reports_to_summarize }) in
    if skips (open_stats report p.db) report.checked
    then skipped
    else if report.succeeds
    then went_on
    else done
