-- ===== src/Ingest/Tests.antt =====
-- Runs of the task on report files.
use masu.Orchestrator.{Account}
use masu.Prelude.{none, some}
use mathlib.Core.Option
use masu.Ingest.Chain.{UpdatedOnce, summarize_reports, summarize_reports-get_report_files}
use masu.Prelude.{
  ℕ, ◌≡◌, refl, String, Bool, true, false, List, [], ◌∷◌, contains, ◌+◌, string_eq, nat_eq,
}
use masu.Ingest.{Db, Manifest, Report, Progress, process_report_file, get_report_files}
use masu.Ingest.Once.{IsComplete, process_report_file_once}

abbrev report : String → ℕ → Bool → Report
report name now succeeds = record {
  file_name = name;
  manifest_id = 1;
  start_date = "2018-09-01";
  checked = now;
  started = now + 1;
  completed = now + 2;
  succeeds = succeeds;
}

abbrev one_of_two : Manifest
one_of_two = record { num_total_files = 2; num_processed_files = 1; manifest_updated_datetime = 0 }

abbrev db_with : Manifest → Db
db_with m = record { stats = []; manifests = (1, m) ∷ []; setup_complete = false }

abbrev start_from : Db → Progress
start_from db = record { db = db; processed = []; reports_to_summarize = [] }

abbrev reports : List Report
reports = report "a" 10 true ∷ report "b" 20 true ∷ report "a" 30 false ∷ []

process_report_file_once_example :
    let later = get_report_files reports (record {
      db = process_report_file (report "a" 1 true) (db_with one_of_two);
      processed = [];
      reports_to_summarize = [];
    }) in
    (contains later.processed "a" ≡ false) × IsComplete "a" later.db
process_report_file_once_example =
    process_report_file_once (report "a" 1 true) (db_with one_of_two) reports [] refl

abbrev account : Account
account = record {
  authentication = b'a' ∷ [];
  customer_name = "s";
  billing_source = none;
  provider_type = "AWS";
  schema_name = "s";
  provider_uuid = "u";
}

summarize_reports-get_report_files_example :
    UpdatedOnce
      (summarize_reports some account "2018-09-20"
        (get_report_files reports (start_from (db_with one_of_two))).reports_to_summarize).updates
summarize_reports-get_report_files_example =
    summarize_reports-get_report_files some account "2018-09-20" reports
      (start_from (db_with one_of_two)) refl
