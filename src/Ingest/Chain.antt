-- ===== src/Ingest/Chain.antt =====
-- The task `summarize_reports` (masu/processor/tasks.py), which runs after `get_report_files` on what
-- that returns, and `update_all_summary_tables`.
use masu.Prelude.{
  ℕ, String, ◌≡◌, refl, Bool, true, false, Option, none, some, List, [], ◌∷◌, map, any, ◌==◌,
  nat_eq, option_eq, Option-cases, arith, inl, inr,
}
use masu.Orchestrator.{Account}
use masu.Ingest.{ReportMeta, Report, Progress, known_manifest, get_report_files}
use masu.Ingest.Summaries.{NoRepeat, get_report_files-NoRepeat}

-- An `update_summary_tables` in the queue; the manifest is none where all accounts are updated.
pub record Update : Type 0 where
  pub account : Account
  pub start_date : String
  pub end_date : Option String
  pub manifest_id : Option ℕ

-- What a task queues, and whether it returns.
pub record Queued : Type 0 where
  pub updates : List Update
  pub is_done : Bool

abbrev pub queue_first : Update → Queued → Queued
queue_first update q = record q { updates = update ∷ q.updates }

abbrev pub update_of : Account → (today : String) → ReportMeta → String → Update
update_of account today report start_date = record {
  account = account;
  start_date = start_date;
  end_date = some today;
  manifest_id = some report.manifest_id;
}

-- The loop of `summarize_reports`. `parse` reads a date and prints its day, with `none` for the
-- exception that ends the task.
abbrev pub queue_or_end : Account → String → ReportMeta → Option String → Queued → Queued
queue_or_end account today report none rest = record { updates = []; is_done = false }
queue_or_end account today report (some start_date) rest =
    queue_first (update_of account today report start_date) rest

unfoldable pub summarize_reports :
    (parse : String → Option String) → Account → (today : String) → List ReportMeta → Queued
summarize_reports parse account today [] = record { updates = []; is_done = true }
summarize_reports parse account today (report ∷ reports) =
    queue_or_end account today report (parse report.start_date)
      (summarize_reports parse account today reports)

-- `update_all_summary_tables`; an error of the accounts is logged.
unfoldable pub update_all_summary_tables :
    (found : Option (List Account)) → String → Option String → List Update
update_all_summary_tables none start_date end_date = []
update_all_summary_tables (some accounts) start_date end_date =
    map
      (λ account. record {
        account = account;
        start_date = start_date;
        end_date = end_date;
        manifest_id = none;
      })
      accounts

-- Updates for a manifest.
abbrev pub has_update : ℕ → List Update → Bool
has_update id updates = any (λ u. u.manifest_id == some id) updates

-- No manifest has two updates.
abbrev pub UpdatedOnce : List Update → Type 0
UpdatedOnce [] = Unit
UpdatedOnce (u ∷ updates) =
    (any (λ v. v.manifest_id == u.manifest_id) updates ≡ false) × UpdatedOnce updates

summarize_reports-known :
    (parse : String → Option String) (account : Account) (today : String) (id : ℕ)
    (reports : List ReportMeta)
    → known_manifest id reports ≡ false
    → has_update id (summarize_reports parse account today reports).updates ≡ false
unfolding summarize_reports
summarize_reports-known parse account today id [] h = refl
summarize_reports-known parse account today id (report ∷ reports) h =
    elim (Option-cases (parse report.start_date)) [
      | inl e ↦ rw e refl
      | inr (start_date, e) ↦
          rw e (ground (arith, h, summarize_reports-known parse account today id reports))
    ]

summarize_reports-UpdatedOnce :
    (parse : String → Option String) (account : Account) (today : String)
    (reports : List ReportMeta)
    → NoRepeat reports
    → UpdatedOnce (summarize_reports parse account today reports).updates
unfolding summarize_reports
summarize_reports-UpdatedOnce parse account today [] h = tt
summarize_reports-UpdatedOnce parse account today (report ∷ reports) (h, hs) =
    elim (Option-cases (parse report.start_date)) [
      | inl e ↦ rw e tt
      | inr (start_date, e) ↦ rw e (
        summarize_reports-known parse account today report.manifest_id reports h,
        summarize_reports-UpdatedOnce parse account today reports hs,
      )
    ]

-- Whatever files the first task skips, processes or fails on, the task after it queues at most one
-- summary update for each manifest, if the first one starts with no reports to summarize.
pub summarize_reports-get_report_files :
    (parse : String → Option String) (account : Account) (today : String) (reports : List Report)
    (p : Progress)
    → p.reports_to_summarize ≡ []
    → UpdatedOnce
        (summarize_reports parse account today
          (get_report_files reports p).reports_to_summarize).updates
summarize_reports-get_report_files parse account today reports p h =
    summarize_reports-UpdatedOnce parse account today
      (get_report_files reports p).reports_to_summarize
      (get_report_files-NoRepeat reports p (rw h tt))
