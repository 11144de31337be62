-- ===== src/OcpReport/Sheet.antt =====
-- The work of a report file row by row: a processor without caches to move and without batches.
use masu.Prelude.{
  ℕ, Option, none, some, List, [], ◌∷◌, Eq, ◌==◌, nat_eq, string_eq, option_eq, pair_eq, list_eq,
  contains, if◌then◌else◌,
}
use masu.Tables.{Table, known}
use masu.OcpReport.Items.{TimedRow, Kind, ItemKey, item_key, line_item}
use masu.Tables.Clean.{scalar_eq}
use masu.OcpReport.{
  ReportPeriod, UsageReport, stamp_eq, PeriodKey, ReportKey, period_key, report_key, OcpTables,
  Setup, Processor, period_of, report_of, insert_period, insert_report, upsert, merge_temp_table,
}

-- What is known of the keys, as functions, and the tables with every line item in its place.
pub record Sheet : Type 0 where
  pub periods : PeriodKey → Option ℕ
  pub reports : ReportKey → Option ℕ
  pub seen : List ItemKey
  pub tables : OcpTables

module _ {K R : Type 0} ⦃e : Eq K⦄ where
  -- Look the key up, or create its row and remember the id.
  abbrev pub found_or :
      Option ℕ
      → K
      → (Table R → ℕ × Table R)
      → (K → Option ℕ)
      → Table R
      → ℕ × (K → Option ℕ) × Table R
  found_or (some id) key create ids t = (id, ids, t)
  found_or none key create ids t =
      let (id, t') = create t in (id, (λ k. if k == key then some id else ids k), t')

abbrev with_period : Sheet → ℕ × (PeriodKey → Option ℕ) × Table ReportPeriod → ℕ × Sheet
with_period s (id, ids, t) =
    (id, record s { periods = ids; tables = record s.tables { report_periods = t } })

abbrev with_report : Sheet → ℕ × (ReportKey → Option ℕ) × Table UsageReport → ℕ × Sheet
with_report s (id, ids, t) =
    (id, record s { reports = ids; tables = record s.tables { reports = t } })

unfoldable pub put_period : Setup → TimedRow → Sheet → ℕ × Sheet
put_period setup row s =
    let r = period_of setup row in
    with_period s (
      found_or (s.periods (period_key r)) (period_key r) (insert_period r) s.periods
        s.tables.report_periods)

unfoldable pub put_report : TimedRow → ℕ → Sheet → ℕ × Sheet
put_report row report_period_id s =
    let r = report_of row report_period_id in
    with_report s (
      found_or (s.reports (report_key r)) (report_key r) (insert_report r) s.reports
        s.tables.reports)

unfoldable pub put_item : Setup → TimedRow → (report_period_id report_id : ℕ) → Sheet → Sheet
put_item setup row report_period_id report_id s =
    let item = line_item setup.python setup.kind row report_period_id report_id in
    let key = item_key setup.kind item in
    if contains s.seen key then s else record s {
      seen = key ∷ s.seen;
      tables = record s.tables { line_items = upsert setup.kind item s.tables.line_items };
    }

-- One row: its period and its report are found or created, and its line item, if it is the first of
-- its key, is put into the table.
unfoldable pub put_row : Setup → TimedRow → Sheet → Sheet
unfolding put_period put_report put_item
put_row setup row s =
    let (report_period_id, s') = put_period setup row s in
    let (report_id, s'') = put_report row report_period_id s' in
    put_item setup row report_period_id report_id s''

unfoldable pub put_rows : Setup → List TimedRow → Sheet → Sheet
unfolding put_row
put_rows setup [] s = s
put_rows setup (row ∷ rows) s = put_rows setup rows (put_row setup row s)

-- The sheet that a processor stands for.
unfoldable pub sheet_of : Kind → Processor → Sheet
sheet_of kind p = record {
  periods = known p.periods;
  reports = known p.reports;
  seen = p.line_item_keys;
  tables = record p.tables { line_items = merge_temp_table kind p.line_items p.tables.line_items };
}
