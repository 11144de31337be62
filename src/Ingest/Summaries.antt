-- ===== src/Ingest/Summaries.antt =====
-- The reports that a task hands on to be summarized.
use masu.Prelude.{
  ℕ, ◌≡◌, refl, false, ◌||◌, List, [], ◌∷◌, ◌++◌, arith, ◌==◌, nat_eq, Bool-cases, inl, inr,
}
use masu.Ingest.{
  ReportMeta, Report, Progress, known_manifest, summarize_once, open_stats, skips, looked_at,
  processed_file, get_report_files,
}

-- No manifest is named twice.
abbrev pub NoRepeat : List ReportMeta → Type 0
NoRepeat [] = Unit
NoRepeat (m ∷ metas) = (known_manifest m.manifest_id metas ≡ false) × NoRepeat metas

known-snoc :
    (k : ℕ) (metas : List ReportMeta) (m : ReportMeta)
    → known_manifest k (metas ++ m ∷ []) ≡ (known_manifest k metas || m.manifest_id == k)
known-snoc k [] m = ground arith
known-snoc k (x ∷ metas) m = rw (known-snoc k metas m) (ground arith)

NoRepeat-snoc :
    (metas : List ReportMeta) (m : ReportMeta)
    → NoRepeat metas
    → known_manifest m.manifest_id metas ≡ false
    → NoRepeat (metas ++ m ∷ [])
NoRepeat-snoc [] m h k = (refl, tt)
NoRepeat-snoc (x ∷ metas) m (h, hs) k =
    (rw known-snoc (ground arith), NoRepeat-snoc metas m hs (ground arith))

summarize_once-NoRepeat :
    (report : Report) (metas : List ReportMeta)
    → NoRepeat metas
    → NoRepeat (summarize_once report metas)
unfolding summarize_once
summarize_once-NoRepeat report metas h =
    elim (Bool-cases (known_manifest report.manifest_id metas)) [
      | inl e ↦ rw e h
      | inr e ↦ simp e (NoRepeat-snoc metas _ h e)
    ]

-- Whatever files the task skips, processes or fails on, the reports to summarize name no manifest
-- twice, if they did not before.
pub get_report_files-NoRepeat :
    (reports : List Report) (p : Progress)
    → NoRepeat p.reports_to_summarize
    → NoRepeat (get_report_files reports p).reports_to_summarize
unfolding get_report_files
get_report_files-NoRepeat [] p h = h
get_report_files-NoRepeat (report ∷ reports) p h =
    let p' = looked_at report p in
    let after : Progress = record (processed_file report p') {
      reports_to_summarize = summarize_once report p.reports_to_summarize;
    } in
    elim (Bool-cases (skips (open_stats report p.db) report.checked)) [
      | inl skip ↦ simp skip (get_report_files-NoRepeat reports p' h)
      | inr go ↦ elim (Bool-cases report.succeeds) [
        | inl e ↦
            simp (go, e)
              (get_report_files-NoRepeat reports after (summarize_once-NoRepeat report _ h))
        | inr e ↦ simp (go, e) h
      ]
    ]
