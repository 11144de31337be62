-- ===== src/OcpReport.antt =====
-- The processing of an OpenShift report file (`OCPReportProcessorBase` of
-- masu/processor/ocp/ocp_report_processor.py) into the tables of
-- masu/database/ocp_report_db_accessor.py: the caches of ids, the batches and the upsert.
pub mod Items
pub mod Sheet
pub mod Rows
pub mod Filed
pub mod Links
mod Tests
use masu.Prelude.{
  ℕ, String, Bool, true, false, ◌&&◌, ◌||◌, not, ◌≡◌, ◌↔◌, Option, none, some, List, [], ◌∷◌, ◌++◌,
  any, length, leb, Eq, ◌==◌, nat_eq, string_eq, option_eq, pair_eq, list_eq, contains, arith,
  if◌then◌else◌,
}
use masu.Prelude.Options.{and_then}
use masu.Tables.{Table, Cache, insert_on_conflict_do_nothing, get_or_create, update_mappings}
use masu.OcpReport.Items.{
  CsvRow, TimedRow, read_times, Kind, LineItem, ItemKey, item_key, line_item,
}
use masu.Tables.Clean.{Conversions, Text, ColumnType, Scalar, scalar_eq, is_null}

pub record ReportPeriod : Type 0 where
  pub cluster_id : String
  pub report_period_start : ℕ
  pub report_period_end : ℕ
  pub provider_id : ℕ

pub record UsageReport : Type 0 where
  pub report_period_id : ℕ
  pub interval_start : ℕ
  pub interval_end : ℕ

-- A start in a key of the cache: a datetime, or the text that `get_reports` makes of one. The two are
-- never equal in Python.
pub data Stamp : Type 0 where
  moment text_of : ℕ → Stamp

abbrev pub stamp_beq : Stamp → Stamp → Bool
stamp_beq (moment s) (moment t) = s == t
stamp_beq (text_of s) (text_of t) = s == t
stamp_beq _ _ = false

pub stamp_beq_iff : (s t : Stamp) → (stamp_beq s t ≡ true) ↔ (s ≡ t)
stamp_beq_iff (moment s) (moment t) = ground arith
stamp_beq_iff (moment s) (text_of t) = (λ h. cc, λ h. cc)
stamp_beq_iff (text_of s) (moment t) = (λ h. cc, λ h. cc)
stamp_beq_iff (text_of s) (text_of t) = ground arith

instance abbrev pub stamp_eq : Eq Stamp
stamp_eq = record { beq = stamp_beq; beq_iff = stamp_beq_iff }

abbrev pub PeriodKey : Type 0
PeriodKey = String × (ℕ × ℕ)

abbrev pub ReportKey : Type 0
ReportKey = ℕ × Stamp

unfoldable pub period_key : ReportPeriod → PeriodKey
period_key p = (p.cluster_id, (p.report_period_start, p.provider_id))

unfoldable pub report_key : UsageReport → ReportKey
report_key r = (r.report_period_id, moment r.interval_start)

pub record OcpTables : Type 0 where
  pub report_periods : Table ReportPeriod
  pub reports : Table UsageReport
  pub line_items : List LineItem

-- What a processor has from its construction.
pub record Setup : Type 0 where
  pub kind : Kind
  pub cluster_id : String
  pub provider_id : ℕ
  pub batch_size : ℕ
  pub python : Conversions
  pub datetime_strptime : Text → Option ℕ

-- A processor between two rows of its file, with the tables. `line_item_keys` is not emptied with the
-- batch. The temporary table is empty between two rows.
pub record Processor : Type 0 where
  pub periods : Cache PeriodKey
  pub reports : Cache ReportKey
  pub line_items : List LineItem
  pub line_item_keys : List ItemKey
  pub tables : OcpTables

abbrev pub period_of : Setup → TimedRow → ReportPeriod
period_of setup row = record {
  cluster_id = setup.cluster_id;
  report_period_start = row.report_period_start;
  report_period_end = row.report_period_end;
  provider_id = setup.provider_id;
}

abbrev pub report_of : TimedRow → ℕ → UsageReport
report_of row report_period_id = record {
  report_period_id = report_period_id;
  interval_start = row.interval_start;
  interval_end = row.interval_end;
}

abbrev pub insert_period : ReportPeriod → Table ReportPeriod → ℕ × Table ReportPeriod
insert_period r t = insert_on_conflict_do_nothing (λ other. period_key other == period_key r) r t

abbrev pub insert_report : UsageReport → Table UsageReport → ℕ × Table UsageReport
insert_report r t = insert_on_conflict_do_nothing (λ other. report_key other == report_key r) r t

abbrev pub keep_period : Processor → ℕ × Cache PeriodKey × Table ReportPeriod → ℕ × Processor
keep_period p (id, cache, t) =
    (id, record p { periods = cache; tables = record p.tables { report_periods = t } })

abbrev pub keep_report : Processor → ℕ × Cache ReportKey × Table UsageReport → ℕ × Processor
keep_report p (id, cache, t) =
    (id, record p { reports = cache; tables = record p.tables { reports = t } })

-- `_create_report_period`
unfoldable pub create_report_period : Setup → TimedRow → Processor → ℕ × Processor
create_report_period setup row p =
    let r = period_of setup row in
    keep_period p (get_or_create (period_key r) (insert_period r) p.periods p.tables.report_periods)

-- `_create_report`
unfoldable pub create_report : TimedRow → ℕ → Processor → ℕ × Processor
create_report row report_period_id p =
    let r = report_of row report_period_id in
    keep_report p (get_or_create (report_key r) (insert_report r) p.reports p.tables.reports)

-- `_create_usage_report_line_item`: the first row of a key is the one that counts.
unfoldable pub create_line_item :
    Setup → TimedRow → (report_period_id report_id : ℕ) → Processor → Processor
create_line_item setup row report_period_id report_id p =
    let item = line_item setup.python setup.kind row report_period_id report_id in
    let key = item_key setup.kind item in
    if contains p.line_item_keys key then p else record p {
      line_items = p.line_items ++ item ∷ [];
      line_item_keys = key ∷ p.line_item_keys;
    }

-- The unique constraint of the conflict columns: a null is not equal to any value.
unfoldable pub in_conflict : Kind → LineItem → LineItem → Bool
in_conflict kind item other =
    let key = item_key kind item in not (any is_null key.1) && item_key kind other == key

unfoldable pub upsert : Kind → LineItem → List LineItem → List LineItem
upsert kind item [] = item ∷ []
upsert kind item (other ∷ items) =
    let rest = other ∷ upsert kind item items in
    if in_conflict kind item other then item ∷ items else rest

-- `merge_temp_table`: the rows of the temporary table in their order.
unfoldable pub merge_temp_table : Kind → (temp : List LineItem) → List LineItem → List LineItem
unfolding upsert
merge_temp_table kind [] items = items
merge_temp_table kind (item ∷ temp) items = merge_temp_table kind temp (upsert kind item items)

-- `_save_to_db` and `merge_temp_table`; `line_items[0]` of an empty batch raises an IndexError.
abbrev pub save_and_merge : Kind → List LineItem → OcpTables → Option OcpTables
save_and_merge kind [] t = none
save_and_merge kind (item ∷ batch) t =
    some (record t { line_items = merge_temp_table kind (item ∷ batch) t.line_items })

abbrev pub after_batch : Processor → Option OcpTables → Option Processor
after_batch p none = none
after_batch p (some t) = some (record {
  periods = update_mappings p.periods;
  reports = update_mappings p.reports;
  line_items = [];
  line_item_keys = p.line_item_keys;
  tables = t;
})

unfoldable pub process_row : Setup → TimedRow → Processor → Processor
unfolding create_report_period create_report create_line_item
process_row setup row p =
    let (report_period_id, p') = create_report_period setup row p in
    let (report_id, p'') = create_report row report_period_id p' in
    create_line_item setup row report_period_id report_id p''

-- One round of the loop, with its batch.
unfoldable pub process_batch : Setup → Processor → Option Processor
process_batch setup p =
    if leb setup.batch_size (length p.line_items)
    then after_batch p (save_and_merge setup.kind p.line_items p.tables)
    else some p

abbrev pub last_batch : Kind → List LineItem → OcpTables → OcpTables
last_batch kind [] t = t
last_batch kind (item ∷ batch) t = record t {
  line_items = merge_temp_table kind (item ∷ batch) t.line_items;
}

-- The loop of `process` over the rows of the file, and what follows it. A time that cannot be read
-- raises; what the run has put into the tables by then is left out.
unfoldable pub process : Setup → List CsvRow → Processor → Option OcpTables
unfolding process_row process_batch read_times
process setup [] p = some (last_batch setup.kind p.line_items p.tables)
process setup (row ∷ rows) p = and_then (read_times setup.datetime_strptime row) (λ timed.
    and_then (process_batch setup (process_row setup timed p)) (λ p'. process setup rows p'))

-- The times of all rows, or none if one of them cannot be read.
unfoldable pub read_rows : (Text → Option ℕ) → List CsvRow → Option (List TimedRow)
unfolding read_times
read_rows datetime_strptime [] = some []
read_rows datetime_strptime (row ∷ rows) =
    and_then (read_times datetime_strptime row)
      (λ timed. and_then (read_rows datetime_strptime rows) (λ rest. some (timed ∷ rest)))
