-- ===== src/Ingest/Once.antt =====
-- Which files `get_report_files` gives to the processor after one was finished.
use masu.Prelude.{
  ℕ, ◌≡◌, refl, ◌∙◌, String, Bool, true, false, ◌&&◌, Option, none, some, List, [], ◌∷◌, ◌++◌,
  arith, is_some, contains, lookup, lookup-insert, ◌==◌, ==-refl, nat_eq, string_eq, Bool-cases,
  inl, inr,
}
use masu.Ingest.{
  summarize_once, ReportMeta, Manifest, count_file, ReportStats, Db, Report, Progress, open_stats,
  skips, process_report_file, get_report_files, put_stats, looked_at, processed_file,
}

abbrev pub both_dates : Option ReportStats → Bool
both_dates none = false
both_dates (some s) = is_some s.last_started_datetime && is_some s.last_completed_datetime

-- The row of the file has a start and a completion.
abbrev pub IsComplete : String → Db → Type 0
IsComplete name db = both_dates (lookup name db.stats) ≡ true

put_stats-IsComplete :
    (name : String) (report : Report) (db : Db)
    → IsComplete name db
    → IsComplete name (put_stats report (open_stats report db) db)
unfolding open_stats
put_stats-IsComplete name report db h = ground (
  arith,
  lookup-insert name report.file_name (open_stats report db) db.stats,
  string_eq.beq_iff name report.file_name,
)

IsComplete-skips :
    (report : Report) (db : Db)
    → IsComplete report.file_name db
    → skips (open_stats report db) report.checked ≡ true
unfolding open_stats skips
IsComplete-skips report db h = ground arith

count_file-stats :
    (manifest_id : ℕ) (m : Option Manifest) (now : ℕ) (db : Db)
    → (count_file manifest_id m now db).stats ≡ db.stats
count_file-stats manifest_id none now db = refl
count_file-stats manifest_id (some m) now db = refl

-- Processing a file leaves the rows of the others.
process_report_file-stats :
    (report : Report) (db : Db) (name : String)
    → (name == report.file_name) ≡ false
    → lookup name (process_report_file report db).stats ≡ lookup name db.stats
unfolding process_report_file
process_report_file-stats report db name h = elim (Bool-cases report.succeeds) [
  | inl e ↦ rw e (rw count_file-stats (rw (lookup-insert, h, lookup-insert, h)))
  | inr e ↦ rw e (rw (lookup-insert, h))
]

process_report_file-IsComplete :
    (report : Report) (db : Db)
    → report.succeeds ≡ true
    → IsComplete report.file_name (process_report_file report db)
unfolding process_report_file
process_report_file-IsComplete report db h =
    rw h (rw count_file-stats (rw (lookup-insert, ==-refl)))

contains-snoc :
    (l : List String) (a b : String) → (a == b) ≡ false → contains (l ++ b ∷ []) a ≡ contains l a
contains-snoc [] a b h = rw h
contains-snoc (x ∷ l) a b h = rw (contains-snoc l a b h)

-- A complete file that a report does not skip has another name.
other_name :
    (name : String) (report : Report) (db : Db)
    → IsComplete name db
    → skips (open_stats report db) report.checked ≡ false
    → (name == report.file_name) ≡ false
other_name name report db h k = elim (Bool-cases (name == report.file_name)) [
  | inl e ↦
      let same = (string_eq.beq_iff name report.file_name).0 e in
      cc (IsComplete-skips report db (rw same at h))
  | inr e ↦ e
]

abbrev Untouched : String → Progress → Progress → Type 0
Untouched name p q = IsComplete name q.db × (contains q.processed name ≡ contains p.processed name)

processed_file-Untouched :
    (name : String) (report : Report) (p : Progress)
    → IsComplete name p.db
    → (name == report.file_name) ≡ false
    → Untouched name p (processed_file report p)
processed_file-Untouched name report p h k = (
  rw (process_report_file-stats report p.db name k) h,
  contains-snoc p.processed name report.file_name k,
)

get_report_files-Untouched :
    (name : String) (reports : List Report) (p : Progress)
    → IsComplete name p.db
    → Untouched name p (get_report_files reports p)
unfolding get_report_files
get_report_files-Untouched name [] p h = (h, refl)
get_report_files-Untouched name (report ∷ reports) p h =
    let p' = looked_at report p in
    let h' = put_stats-IsComplete name report p.db h in
    elim (Bool-cases (skips (open_stats report p.db) report.checked)) [
      | inl skip ↦ rw skip (get_report_files-Untouched name reports p' h')
      | inr go ↦
          let done =
            processed_file-Untouched name report p' h' (other_name name report p.db h go) in
          elim (Bool-cases report.succeeds) [
            | inl e ↦
                let after : Progress = record (processed_file report p') {
                  reports_to_summarize = summarize_once report p.reports_to_summarize;
                } in
                let (kept, same) = get_report_files-Untouched name reports after (done.0) in
                simp (go, e) (kept, same ∙ done.1)
            | inr e ↦ simp (go, e) done
          ]
    ]

-- A file that the processor has finished is never given to it again by a later task, whatever reports
-- that task has and at whatever times, and its row still has both dates after that task.
pub process_report_file_once :
    (report : Report) (db : Db) (reports : List Report) (metas : List ReportMeta)
    → report.succeeds ≡ true
    → let later = get_report_files reports (record {
      db = process_report_file report db;
      processed = [];
      reports_to_summarize = metas;
    }) in
      (contains later.processed report.file_name ≡ false) × IsComplete report.file_name later.db
process_report_file_once report db reports metas h =
    let (kept, none_new) =
      get_report_files-Untouched report.file_name reports _
        (process_report_file-IsComplete report db h) in
    (none_new, kept)
