-- ===== src/OcpReport/Links.antt =====
-- What the line items refer to.
use masu.Prelude.{
  ℕ, ◌<◌, ◌≡◌, refl, ap, sym, ◌∙◌, some, List, [], ◌∷◌, length, leb, All, All-append, All-map,
  nat_eq, string_eq, option_eq, pair_eq, list_eq, contains, Bool-cases, inl, inr,
}
use mathlib.Core.Option.{some-injective}
use masu.Prelude.Options.{and_then-eq-some}
use masu.Tables.Caches.{row_id, IsCoherent, get_or_create-Created, known-update_mappings}
use masu.OcpReport.Items.{CsvRow, TimedRow, read_times, Kind, LineItem, item_key, line_item}
use masu.Tables.Clean.{scalar_eq}
use masu.OcpReport.Sheet.{put_rows, sheet_of}
use masu.OcpReport.Rows.{process-put_rows}
use masu.OcpReport.Filed.{Filed, IsSound, put_rows-Filed}
use masu.OcpReport.{
  ReportPeriod, UsageReport, stamp_eq, period_key, report_key, OcpTables, Setup, Processor,
  period_of, report_of, create_report_period, create_report, create_line_item, in_conflict, upsert,
  merge_temp_table, save_and_merge, after_batch, process_row, process_batch, last_batch, process,
  read_rows,
}

-- The item's report is a row of the reports, which has the item's period, and this is a row of the
-- periods.
pub record RefersTo (t : OcpTables) (item : LineItem) : Type 0 where
  pub report : UsageReport
  pub report_found : row_id report_key (report_key report) t.reports ≡ some item.report_id
  pub same_period : report.report_period_id ≡ item.report_period_id
  pub period : ReportPeriod
  pub period_found :
      row_id period_key (period_key period) t.report_periods ≡ some item.report_period_id

-- The caches are right, and every line item refers to rows of its tables.
pub record IsIntact (p : Processor) : Type 0 where
  pub periods : IsCoherent period_key p.periods p.tables.report_periods
  pub reports : IsCoherent report_key p.reports p.tables.reports
  pub batch : All (RefersTo p.tables) p.line_items
  pub stored : All (RefersTo p.tables) p.tables.line_items

create_report_period-IsIntact :
    (setup : Setup) (row : TimedRow) (p : Processor)
    → IsIntact p
    → let out = create_report_period setup row p in
      IsIntact out.1
      × (row_id period_key (period_key (period_of setup row)) out.1.tables.report_periods
          ≡ some out.0)
unfolding create_report_period
create_report_period-IsIntact setup row p v =
    let c =
      get_or_create-Created period_key (period_of setup row) p.periods p.tables.report_periods
        v.periods in
    let step : (item : LineItem)
        → RefersTo p.tables item
        → RefersTo (create_report_period setup row p).1.tables item =
      λ item r. record {
        report = r.report;
        report_found = r.report_found;
        same_period = r.same_period;
        period = r.period;
        period_found = c.keeps _ _ r.period_found;
      } in
    (
      record {
        periods = c.coherent;
        reports = v.reports;
        batch = All-map (RefersTo p.tables) _ p.line_items step v.batch;
        stored = All-map (RefersTo p.tables) _ p.tables.line_items step v.stored;
      },
      c.found,
    )

create_report-IsIntact :
    (row : TimedRow) (i : ℕ) (p : Processor)
    → IsIntact p
    → let out = create_report row i p in
      IsIntact out.1
      × (row_id report_key (report_key (report_of row i)) out.1.tables.reports ≡ some out.0)
      × (out.1.tables.report_periods ≡ p.tables.report_periods)
unfolding create_report
create_report-IsIntact row i p v =
    let c =
      get_or_create-Created report_key (report_of row i) p.reports p.tables.reports v.reports in
    let step : (item : LineItem)
        → RefersTo p.tables item
        → RefersTo (create_report row i p).1.tables item =
      λ item r. record {
        report = r.report;
        report_found = c.keeps _ _ r.report_found;
        same_period = r.same_period;
        period = r.period;
        period_found = r.period_found;
      } in
    (
      record {
        periods = v.periods;
        reports = c.coherent;
        batch = All-map (RefersTo p.tables) _ p.line_items step v.batch;
        stored = All-map (RefersTo p.tables) _ p.tables.line_items step v.stored;
      },
      c.found,
      refl,
    )

create_line_item-IsIntact :
    (setup : Setup) (row : TimedRow) (i j : ℕ) (p : Processor)
    → row_id period_key (period_key (period_of setup row)) p.tables.report_periods ≡ some i
    → row_id report_key (report_key (report_of row i)) p.tables.reports ≡ some j
    → IsIntact p
    → IsIntact (create_line_item setup row i j p)
unfolding create_line_item line_item
create_line_item-IsIntact setup row i j p hi hj v =
    let item = line_item setup.python setup.kind row i j in
    let refers : RefersTo p.tables item = record {
      report = report_of row i;
      report_found = hj;
      same_period = refl;
      period = period_of setup row;
      period_found = hi;
    } in
    elim (Bool-cases (contains p.line_item_keys (item_key setup.kind item))) [
      | inl old ↦ rw old v
      | inr new ↦ rw new (record {
        periods = v.periods;
        reports = v.reports;
        batch = All-append (RefersTo p.tables) p.line_items (item ∷ []) v.batch (refers, tt);
        stored = v.stored;
      })
    ]

process_row-IsIntact :
    (setup : Setup) (row : TimedRow) (p : Processor)
    → IsIntact p
    → IsIntact (process_row setup row p)
unfolding process_row
process_row-IsIntact setup row p v =
    let (v', hi) = create_report_period-IsIntact setup row p v in
    let (v'', hj, same) =
      create_report-IsIntact row (create_report_period setup row p).0
        (create_report_period setup row p).1 v' in
    create_line_item-IsIntact setup row _ _ _
      (ap (row_id period_key (period_key (period_of setup row))) same ∙ hi) hj v''

upsert-All :
    (P : LineItem → Type 0) (kind : Kind) (item : LineItem) (items : List LineItem)
    → P item
    → All P items
    → All P (upsert kind item items)
unfolding upsert
upsert-All P kind item [] h hs = (h, tt)
upsert-All P kind item (other ∷ items) h (k, hs) = elim (Bool-cases (in_conflict kind item other)) [
  | inl e ↦ rw e (h, hs)
  | inr e ↦ rw e (k, upsert-All P kind item items h hs)
]

merge_temp_table-All :
    (P : LineItem → Type 0) (kind : Kind) (batch items : List LineItem)
    → All P batch
    → All P items
    → All P (merge_temp_table kind batch items)
unfolding merge_temp_table
merge_temp_table-All P kind [] items h hs = hs
merge_temp_table-All P kind (item ∷ batch) items (h, h') hs =
    merge_temp_table-All P kind batch (upsert kind item items) h'
      (upsert-All P kind item items h hs)

-- A batch that is merged changes neither the periods nor the reports.
merged :
    (kind : Kind) (t : OcpTables) (batch : List LineItem)
    → All (RefersTo t) batch
    → All (RefersTo t) t.line_items
    → let t' : OcpTables = record t { line_items = merge_temp_table kind batch t.line_items } in
      All (RefersTo t') t'.line_items
merged kind t batch h hs =
    let t' : OcpTables = record t { line_items = merge_temp_table kind batch t.line_items } in
    All-map (RefersTo t) (RefersTo t') t'.line_items
      (λ item r. record {
        report = r.report;
        report_found = r.report_found;
        same_period = r.same_period;
        period = r.period;
        period_found = r.period_found;
      })
      (merge_temp_table-All (RefersTo t) kind batch t.line_items h hs)

after_batch-IsIntact :
    (kind : Kind) (p p' : Processor) (batch : List LineItem)
    → p.line_items ≡ batch
    → IsIntact p
    → after_batch p (save_and_merge kind batch p.tables) ≡ some p'
    → IsIntact p'
after_batch-IsIntact kind p p' [] e v h = cc
after_batch-IsIntact kind p p' (item ∷ batch) e v h = rw (sym (some-injective _ _ h)) (record {
  periods = λ r id k. v.periods r id (sym (known-update_mappings p.periods (period_key r)) ∙ k);
  reports = λ r id k. v.reports r id (sym (known-update_mappings p.reports (report_key r)) ∙ k);
  batch = tt;
  stored = merged kind p.tables (item ∷ batch) (rw e at v.batch) v.stored;
})

process_batch-IsIntact :
    (setup : Setup) (p p' : Processor) → IsIntact p → process_batch setup p ≡ some p' → IsIntact p'
unfolding process_batch
process_batch-IsIntact setup p p' v h =
    elim (Bool-cases (leb setup.batch_size (length p.line_items))) [
      | inl full ↦ after_batch-IsIntact setup.kind p p' p.line_items refl v (rw full at h)
      | inr small ↦ rw (sym (some-injective _ _ (rw small at h))) v
    ]

last_batch-refers :
    (kind : Kind) (t : OcpTables) (batch : List LineItem)
    → All (RefersTo t) batch
    → All (RefersTo t) t.line_items
    → All (RefersTo (last_batch kind batch t)) (last_batch kind batch t).line_items
last_batch-refers kind t [] h hs = hs
last_batch-refers kind t (item ∷ batch) h hs = merged kind t (item ∷ batch) h hs

-- The tables that a run gives.
returned-RefersTo :
    (setup : Setup) (rows : List CsvRow) (p : Processor) (t : OcpTables)
    → IsIntact p
    → process setup rows p ≡ some t
    → All (RefersTo t) t.line_items
unfolding process
returned-RefersTo setup [] p t v h =
    rw (sym (some-injective _ _ h))
      (last_batch-refers setup.kind p.tables p.line_items v.batch v.stored)
returned-RefersTo setup (row ∷ rows) p t v h =
    let (timed, read, h') = and_then-eq-some (read_times setup.datetime_strptime row) _ h in
    let (p', e, h'') = and_then-eq-some (process_batch setup (process_row setup timed p)) _ h' in
    returned-RefersTo setup rows p' t
      (process_batch-IsIntact setup _ p' (process_row-IsIntact setup timed p v) e) h''

-- A processor that has met no line item yet.
sheet_of-IsSound :
    (kind : Kind) (p : Processor)
    → IsIntact p
    → p.line_item_keys ≡ []
    → IsSound kind (sheet_of kind p)
unfolding sheet_of
sheet_of-IsSound kind p v new = record {
  periods = v.periods;
  reports = v.reports;
  seen = λ key h. cc (rw new at h);
}

-- Whatever the batches, if their size is not 0, from a processor whose caches are right, whose line
-- items all refer to a row of the reports and its period, and which has met no line item yet,
-- `process` ends without an exception on rows whose times can be read. In the tables that it leaves
-- every line item refers to a row of the reports, and the period that this report and the line item
-- name is a row of the periods; and every row of the file has its own period and report there, found
-- under its own times, and a line item with the id of this report and the row's own values in the
-- conflict columns.
pub process-RefersTo :
    (setup : Setup) (rows : List CsvRow) (timed : List TimedRow) (p : Processor)
    → 0 < setup.batch_size
    → IsIntact p
    → p.line_item_keys ≡ []
    → read_rows setup.datetime_strptime rows ≡ some timed
    → (t : OcpTables) × (process setup rows p ≡ some t)
      × All (RefersTo t) t.line_items
      × All (Filed setup t) timed
process-RefersTo setup rows timed p b v new h =
    let s = sheet_of setup.kind p in
    let e = process-put_rows setup rows p b ∙ rw h refl in
    (
      (put_rows setup timed s).tables,
      e,
      returned-RefersTo setup rows p _ v e,
      (put_rows-Filed setup timed s (sheet_of-IsSound setup.kind p v new)).0,
    )
