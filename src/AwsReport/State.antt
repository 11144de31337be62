-- ===== src/AwsReport/State.antt =====
-- The keys, the rows and the tables of an AWS report, and the state of its processor
-- (`ProcessedReport` and `AWSReportProcessor` of masu/processor/aws/aws_report_processor.py).
use masu.Prelude.{
  ℕ, String, Bool, false, ◌&&◌, Option, none, some, List, [], ◌∷◌, ◌==◌, nat_eq, string_eq,
  option_eq, pair_eq, list_eq, if◌then◌else◌,
}
use masu.Tables.{Table, Cache, insert_on_conflict_do_nothing}
use masu.Tables.Clean.{
  Conversions, Text, ColumnType, Scalar, scalar_eq, Columns, same_columns, clean_data,
}
use masu.AwsReport.Row.{CsvRow}

pub data TableName : Type 0 where
  bill cost_entry product pricing reservation line_item : TableName

-- A key of a bill: the text of the file's start, or the datetime of a stored bill, which no text equals.
pub data BillStart : Type 0 where
  read : Option Text → BillStart
  stored : ℕ → BillStart

abbrev pub start_beq : BillStart → BillStart → Bool
start_beq (read a) (read b) = a == b
start_beq (stored a) (stored b) = a == b
start_beq _ _ = false

pub record BillKey : Type 0 where
  pub bill_type : Option Text
  pub payer_account_id : Option Text
  pub start : BillStart
  pub provider_id : ℕ

abbrev same_key : BillKey → BillKey → Bool
same_key a b =
    a.bill_type == b.bill_type
    && (a.payer_account_id == b.payer_account_id
        && (start_beq a.start b.start && a.provider_id == b.provider_id))

abbrev pub lookup_bill : BillKey → List (BillKey × ℕ) → Option ℕ
lookup_bill key [] = none
lookup_bill key ((other, id) ∷ bills) =
    if same_key key other then some id else lookup_bill key bills

pub record CostEntry : Type 0 where
  pub bill_id : ℕ
  pub interval_start : Text
  pub interval_end : Text

pub record LineItem : Type 0 where
  pub columns : Columns
  pub tags : List (Text × Text)
  pub cost_entry_id : ℕ
  pub cost_entry_bill_id : ℕ
  pub cost_entry_product_id : Option ℕ
  pub cost_entry_pricing_id : Option ℕ
  pub cost_entry_reservation_id : Option ℕ

pub record AwsTables : Type 0 where
  pub bills : Table Columns
  pub cost_entries : Table CostEntry
  pub products : Table Columns
  pub pricing : Table Columns
  pub reservations : Table Columns
  pub line_items : List LineItem

abbrev pub ProductKey : Type 0
ProductKey = Option Text × (Option Text × Option Text)

pub record Processor : Type 0 where
  pub bills : List (BillKey × ℕ)
  pub cost_entries : Cache (ℕ × Text)
  pub products : Cache ProductKey
  pub pricing : Cache Text
  pub reservations : Cache (Option Text)
  pub line_items : List LineItem
  pub tables : AwsTables

-- What a processor has from its construction. `columns_of_key` are the columns of a table's unique
-- constraint, and `number` writes a number into a cell.
pub record Setup : Type 0 where
  pub provider_id : ℕ
  pub batch_size : ℕ
  pub existing_bills : List (BillKey × ℕ)
  pub column_map : TableName → List (String × String)
  pub column_types : TableName → List (String × ColumnType)
  pub pricing_columns : List String
  pub number : ℕ → Scalar
  pub python : Conversions

abbrev pub cleaned : Setup → TableName → CsvRow → Columns
cleaned setup table row = clean_data setup.python (setup.column_types table) row

abbrev pub insert_columns : List String → Columns → Table Columns → ℕ × Table Columns
insert_columns columns row t = insert_on_conflict_do_nothing (same_columns columns row) row t
