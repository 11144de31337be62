-- ===== src/OcpReport/Rows.antt =====
-- `process` against a processor without caches to move and without batches.
use masu.Prelude.{
  ℕ, ◌<◌, ◌≡◌, refl, ap, sym, ◌∙◌, true, Option, none, some, List, [], ◌∷◌, ◌++◌, length, leb, Eq,
  ◌==◌, nat_eq, string_eq, option_eq, pair_eq, list_eq, contains, insert, lookup-insert, arith,
  if◌then◌else◌, Bool-cases, Option-cases, inl, inr,
}
use masu.Tables.{Table, Cache, known, get_or_create, cached_or}
use masu.Tables.Caches.{known-update_mappings}
use mathlib.Core.Option
use masu.Prelude.Options.{and_then}
use masu.OcpReport.Items.{CsvRow, TimedRow, read_times, Kind, LineItem, item_key, line_item}
use masu.Tables.Clean.{scalar_eq}
use masu.OcpReport.{
  stamp_eq, PeriodKey, ReportKey, period_key, report_key, OcpTables, Setup, Processor, period_of,
  report_of, insert_period, insert_report, create_report_period, create_report, create_line_item,
  upsert, merge_temp_table, save_and_merge, after_batch, process_row, process_batch, last_batch,
  process, read_rows,
}
use masu.OcpReport.Sheet.{
  Sheet, found_or, put_period, put_report, put_item, put_row, put_rows, sheet_of,
}

known-insert :
    {K : Type 0} ⦃e : Eq K⦄ (cache : Cache K) (key k : K) (id : ℕ)
    → known (record cache { processed = insert key id cache.processed }) k
      ≡ (if k == key then some id else known cache k)
unfolding known
known-insert cache key k id =
    rw lookup-insert (elim (Bool-cases (k == key)) [ inl same ↦ rw same | inr other ↦ rw other ])

module _ {K R : Type 0} ⦃e : Eq K⦄ where
  -- A cached creation gives the same id and the same table, and knows the same afterwards.
  record SameCreation (out : ℕ × Cache K × Table R) (ref : ℕ × (K → Option ℕ) × Table R)
      : Type 0 where
    pub id : out.0 ≡ ref.0
    pub ids : (k : K) → known out.1 k ≡ ref.1 k
    pub table : out.2 ≡ ref.2

  cached_or-found_or :
      (key : K) (create : Table R → ℕ × Table R) (cache : Cache K) (ids : K → Option ℕ)
      (t : Table R) (found : Option ℕ)
      → ((k : K) → known cache k ≡ ids k)
      → SameCreation (cached_or found key create cache t) (found_or found key create ids t)
  cached_or-found_or key create cache ids t (some id) h = record {
    id = refl;
    ids = h;
    table = refl;
  }
  cached_or-found_or key create cache ids t none h = record {
    id = refl;
    ids = λ k. known-insert cache key k (create t).0 ∙ rw (h k);
    table = refl;
  }

  get_or_create-found_or :
      (key : K) (create : Table R → ℕ × Table R) (cache : Cache K) (ids : K → Option ℕ)
      (t : Table R)
      → ((k : K) → known cache k ≡ ids k)
      → SameCreation (get_or_create key create cache t) (found_or (ids key) key create ids t)
  unfolding get_or_create
  get_or_create-found_or key create cache ids t h =
      rw (sym (h key)) (cached_or-found_or key create cache ids t (known cache key) h)

record Represents (kind : Kind) (p : Processor) (s : Sheet) : Type 0 where
  pub periods : (k : PeriodKey) → known p.periods k ≡ s.periods k
  pub reports : (k : ReportKey) → known p.reports k ≡ s.reports k
  pub seen : p.line_item_keys ≡ s.seen
  pub period_table : p.tables.report_periods ≡ s.tables.report_periods
  pub report_table : p.tables.reports ≡ s.tables.reports
  pub line_items : merge_temp_table kind p.line_items p.tables.line_items ≡ s.tables.line_items

same_tables :
    (t u : OcpTables)
    → t.report_periods ≡ u.report_periods
    → t.reports ≡ u.reports
    → t.line_items ≡ u.line_items
    → t ≡ u
same_tables t u a b c = λ i. record { report_periods = a i; reports = b i; line_items = c i }

merge_temp_table-nil :
    (kind : Kind) (items : List LineItem) → merge_temp_table kind [] items ≡ items
unfolding merge_temp_table
merge_temp_table-nil kind items = refl

merge_temp_table-snoc :
    (kind : Kind) (batch : List LineItem) (item : LineItem) (items : List LineItem)
    → merge_temp_table kind (batch ++ item ∷ []) items
      ≡ upsert kind item (merge_temp_table kind batch items)
unfolding merge_temp_table
merge_temp_table-snoc kind [] item items = refl
merge_temp_table-snoc kind (other ∷ batch) item items =
    merge_temp_table-snoc kind batch item (upsert kind other items)

create_report_period-Represents :
    (setup : Setup) (row : TimedRow) (p : Processor) (s : Sheet)
    → Represents setup.kind p s
    → ((create_report_period setup row p).0 ≡ (put_period setup row s).0)
      × Represents setup.kind (create_report_period setup row p).1 (put_period setup row s).1
unfolding create_report_period put_period
create_report_period-Represents setup row p s r =
    let period = period_of setup row in
    let c =
      get_or_create-found_or (period_key period) (insert_period period) p.periods s.periods
        p.tables.report_periods r.periods in
    rw (sym r.period_table) (
      c.id,
      record {
        periods = c.ids;
        reports = r.reports;
        seen = r.seen;
        period_table = c.table;
        report_table = r.report_table;
        line_items = r.line_items;
      },
    )

create_report-Represents :
    (kind : Kind) (row : TimedRow) (report_period_id : ℕ) (p : Processor) (s : Sheet)
    → Represents kind p s
    → ((create_report row report_period_id p).0 ≡ (put_report row report_period_id s).0)
      × Represents kind
          (create_report row report_period_id p).1
          (put_report row report_period_id s).1
unfolding create_report put_report
create_report-Represents kind row report_period_id p s r =
    let report = report_of row report_period_id in
    let c =
      get_or_create-found_or (report_key report) (insert_report report) p.reports s.reports
        p.tables.reports r.reports in
    rw (sym r.report_table) (
      c.id,
      record {
        periods = r.periods;
        reports = c.ids;
        seen = r.seen;
        period_table = r.period_table;
        report_table = c.table;
        line_items = r.line_items;
      },
    )

create_line_item-Represents :
    (setup : Setup) (row : TimedRow) (i j : ℕ) (p : Processor) (s : Sheet)
    → Represents setup.kind p s
    → Represents setup.kind (create_line_item setup row i j p) (put_item setup row i j s)
unfolding create_line_item put_item
create_line_item-Represents setup row i j p s r =
    let item = line_item setup.python setup.kind row i j in
    let key = item_key setup.kind item in
    let same = ap (λ seen. contains seen key) (sym r.seen) in
    elim (Bool-cases (contains p.line_item_keys key)) [
      | inl old ↦ rw (old, same ∙ old) r
      | inr new ↦
          rw (new, same ∙ new)
            (record {
              periods = r.periods;
              reports = r.reports;
              seen = ap (λ seen. key ∷ seen) r.seen;
              period_table = r.period_table;
              report_table = r.report_table;
              line_items =
                  merge_temp_table-snoc setup.kind p.line_items item p.tables.line_items
                  ∙ ap (upsert setup.kind item) r.line_items;
            })
    ]

process_row-Represents :
    (setup : Setup) (row : TimedRow) (p : Processor) (s : Sheet)
    → Represents setup.kind p s
    → Represents setup.kind (process_row setup row p) (put_row setup row s)
unfolding process_row put_row
process_row-Represents setup row p s r =
    let (same_id, r') = create_report_period-Represents setup row p s r in
    let (same_id', r'') =
      create_report-Represents setup.kind row (create_report_period setup row p).0
        (create_report_period setup row p).1 (put_period setup row s).1 r' in
    rw (sym same_id, sym same_id') (create_line_item-Represents setup row _ _ _ _ r'')

process_batch-Represents :
    (setup : Setup) (p : Processor) (s : Sheet)
    → 0 < setup.batch_size
    → Represents setup.kind p s
    → (p' : Processor) × (process_batch setup p ≡ some p') × Represents setup.kind p' s
unfolding process_batch
process_batch-Represents setup p s b r =
    elim (Bool-cases (leb setup.batch_size (length p.line_items))) [
      | inr small ↦ (p, rw small, r)
      | inl full ↦ rw full (saved p.line_items refl full)
    ]
  where
    saved :
        (batch : List LineItem)
        → p.line_items ≡ batch
        → leb setup.batch_size (length p.line_items) ≡ true
        → (p' : Processor) × (after_batch p (save_and_merge setup.kind batch p.tables) ≡ some p')
          × Represents setup.kind p' s
    saved [] e full = let too_small = (rw (ap length e) at full) in ground arith
    saved (item ∷ batch) e full = (
      _,
      refl,
      record {
        periods = λ k. known-update_mappings p.periods k ∙ r.periods k;
        reports = λ k. known-update_mappings p.reports k ∙ r.reports k;
        seen = r.seen;
        period_table = r.period_table;
        report_table = r.report_table;
        line_items =
            merge_temp_table-nil setup.kind _
            ∙ ap (λ l. merge_temp_table setup.kind l p.tables.line_items) (sym e)
            ∙ r.line_items;
      },
    )

last_batch-Represents :
    (kind : Kind) (p : Processor) (s : Sheet)
    → Represents kind p s
    → (batch : List LineItem) → p.line_items ≡ batch
    → some (last_batch kind batch p.tables) ≡ some s.tables
last_batch-Represents kind p s r [] e =
    let items =
      sym (merge_temp_table-nil kind p.tables.line_items)
      ∙ ap (λ l. merge_temp_table kind l p.tables.line_items) (sym e)
      ∙ r.line_items in
    ap some (same_tables p.tables s.tables r.period_table r.report_table items)
last_batch-Represents kind p s r (item ∷ batch) e =
    let items = ap (λ l. merge_temp_table kind l p.tables.line_items) (sym e) ∙ r.line_items in
    ap some (same_tables _ s.tables r.period_table r.report_table items)

put_rows-nil : (setup : Setup) (s : Sheet) → put_rows setup [] s ≡ s
unfolding put_rows
put_rows-nil setup s = refl

put_rows-cons :
    (setup : Setup) (row : TimedRow) (s : Sheet) (rows : Option (List TimedRow))
    → Option.map (λ timed. (put_rows setup timed (put_row setup row s)).tables) rows
      ≡ Option.map
          (λ timed. (put_rows setup timed s).tables)
          (and_then rows (λ rest. some (row ∷ rest)))
unfolding put_rows
put_rows-cons setup row s none = refl
put_rows-cons setup row s (some rows) = refl

process-Represents :
    (setup : Setup) (rows : List CsvRow) (p : Processor) (s : Sheet)
    → 0 < setup.batch_size
    → Represents setup.kind p s
    → process setup rows p
      ≡ Option.map
          (λ timed. (put_rows setup timed s).tables)
          (read_rows setup.datetime_strptime rows)
unfolding process read_rows
process-Represents setup [] p s b r =
    last_batch-Represents setup.kind p s r p.line_items refl ∙ rw (put_rows-nil setup s) refl
process-Represents setup (row ∷ rows) p s b r =
    elim (Option-cases (read_times setup.datetime_strptime row)) [
      | inl unread ↦ rw unread refl
      | inr (timed, e) ↦
          let (p', saved, r') =
            process_batch-Represents setup (process_row setup timed p) (put_row setup timed s) b
              (process_row-Represents setup timed p s r) in
          rw (e, saved)
            (process-Represents setup rows p' (put_row setup timed s) b r'
              ∙ put_rows-cons setup timed s (read_rows setup.datetime_strptime rows))
    ]

-- Whatever the size of a batch, if it is not 0, `process` raises exactly if a row of the file has a
-- time that is missing or cannot be read; else it leaves the tables that one gets row by row: each
-- row's period and report are looked up or created, and its line item is put into its table at once if
-- it is the first of its key in the file.
pub process-put_rows :
    (setup : Setup) (rows : List CsvRow) (p : Processor)
    → 0 < setup.batch_size
    → process setup rows p
      ≡ Option.map
          (λ timed. (put_rows setup timed (sheet_of setup.kind p)).tables)
          (read_rows setup.datetime_strptime rows)
unfolding sheet_of
process-put_rows setup rows p b = process-Represents setup rows p _ b (record {
  periods = λ k. refl;
  reports = λ k. refl;
  seen = refl;
  period_table = refl;
  report_table = refl;
  line_items = refl;
})
