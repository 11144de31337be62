-- ===== src/OcpReport/Items.antt =====
-- A row of a report file and the line item that is made of it: `_get_data_for_table`, `clean_data` and
-- the two `_create_usage_report_line_item` (masu/processor/ocp/ocp_report_processor.py,
-- masu/database/report_db_accessor_base.py).
use masu.Prelude.{
  ℕ, String, Option, none, some, List, [], ◌∷◌, map, nat_eq, string_eq, option_eq, pair_eq, list_eq,
  lookup, contains, if◌then◌else◌,
}
use masu.Prelude.Options.{◌>>=◌}
use masu.Labels.{Text, process_pod_labels}
use masu.Tables.Clean.{Conversions, ColumnType, Scalar, scalar_eq, clean_data, get_column}

-- A row of the file: its four times as texts, none where it has no such column, and its other columns.
pub record CsvRow : Type 0 where
  pub report_period_start : Option Text
  pub report_period_end : Option Text
  pub interval_start : Option Text
  pub interval_end : Option Text
  pub values : List (String × Text)

-- A row whose times have been read.
pub record TimedRow : Type 0 where
  pub report_period_start : ℕ
  pub report_period_end : ℕ
  pub interval_start : ℕ
  pub interval_end : ℕ
  pub values : List (String × Text)

-- `datetime.strptime` on a column: a missing one is a TypeError, another text a ValueError.
abbrev pub read_time : (Text → Option ℕ) → Option Text → Option ℕ
read_time datetime_strptime none = none
read_time datetime_strptime (some text) = datetime_strptime text

-- The times of `_create_report_period` and of `_create_report`, in the order of their calls.
unfoldable pub read_times : (Text → Option ℕ) → CsvRow → Option TimedRow
read_times datetime_strptime row = do
  report_period_start ← read_time datetime_strptime row.report_period_start
  report_period_end ← read_time datetime_strptime row.report_period_end
  interval_start ← read_time datetime_strptime row.interval_start
  interval_end ← read_time datetime_strptime row.interval_end
  some (record {
    report_period_start = report_period_start;
    report_period_end = report_period_end;
    interval_start = interval_start;
    interval_end = interval_end;
    values = row.values;
  })

-- What the two subclasses differ in, and what the database says of their table.
pub record Kind : Type 0 where
  pub column_map : List (String × String)
  pub column_types : List (String × ColumnType)
  pub label_columns : List String
  pub conflict_columns : List String

pub record LineItem : Type 0 where
  pub report_period_id : ℕ
  pub report_id : ℕ
  pub columns : List (String × Option Scalar)
  pub labels : List (String × List (Text × Text))

abbrev put_column : Option String → Text → List (String × Text) → List (String × Text)
put_column none value rest = rest
put_column (some column) value rest = (column, value) ∷ rest

-- `_get_data_for_table`; two columns of the file are not mapped to one.
unfoldable pub get_data_for_table :
    List (String × String) → List (String × Text) → List (String × Text)
get_data_for_table column_map [] = []
get_data_for_table column_map ((key, value) ∷ row) =
    put_column (lookup key column_map) value (get_data_for_table column_map row)

-- `data.pop(column)` after `column in data`, and '' where it is not.
abbrev pub pop_text : String → List (String × Text) → Text
pop_text column row = elim (lookup column row) [ none ↦ [] | some value ↦ value ]

abbrev pub labels_of : List String → List (String × Text) → List (String × List (Text × Text))
labels_of [] row = []
labels_of (column ∷ columns) row =
    (column, process_pod_labels (pop_text column row)) ∷ labels_of columns row

abbrev without_columns : List String → List (String × Text) → List (String × Text)
without_columns columns [] = []
without_columns columns ((key, value) ∷ row) =
    let rest = without_columns columns row in
    if contains columns key then rest else (key, value) ∷ rest

abbrev pub ItemKey : Type 0
ItemKey = ℕ × List (Option Scalar)

-- The key of the conflict columns; the first of them is `report_id`.
unfoldable pub item_key : Kind → LineItem → ItemKey
item_key kind item =
    (item.report_id, map (λ column. get_column column item.columns) kind.conflict_columns)

module _ (python : Conversions) where
  -- The data of `_create_usage_report_line_item`, in both classes.
  unfoldable pub line_item : Kind → TimedRow → (report_period_id report_id : ℕ) → LineItem
  unfolding get_data_for_table clean_data
  line_item kind row report_period_id report_id =
      let mapped = get_data_for_table kind.column_map row.values in
      record {
        report_period_id = report_period_id;
        report_id = report_id;
        columns =
            clean_data python kind.column_types
              (map (λ entry. (entry.0, some entry.1)) (without_columns kind.label_columns mapped));
        labels = labels_of kind.label_columns mapped;
      }

-- `OCPCpuMemReportProcessor` and `OCPStorageProcessor`; the column map and the types are read from the
-- database.
abbrev pub cpu_mem_kind : List (String × String) → List (String × ColumnType) → Kind
cpu_mem_kind column_map column_types = record {
  column_map = column_map;
  column_types = column_types;
  label_columns = "pod_labels" ∷ [];
  conflict_columns = "namespace" ∷ "pod" ∷ "node" ∷ [];
}

abbrev pub storage_kind : List (String × String) → List (String × ColumnType) → Kind
storage_kind column_map column_types = record {
  column_map = column_map;
  column_types = column_types;
  label_columns = "persistentvolume_labels" ∷ "persistentvolumeclaim_labels" ∷ [];
  conflict_columns = "namespace" ∷ "persistentvolumeclaim" ∷ [];
}
