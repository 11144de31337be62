-- ===== src/Summary/Periods.antt =====
-- How often a whole month is computed again, in `OCPReportSummaryUpdater`.
use masu.Prelude.{nat_eq}
