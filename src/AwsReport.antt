-- ===== src/AwsReport.antt =====
-- The processing of an AWS cost and usage report (masu/processor/aws/aws_report_processor.py) into the
-- tables of masu/database/aws_report_db_accessor.py. An exception is `none`.
pub mod Row
pub mod State
pub mod Bills
pub mod Objects
pub mod Entries
pub mod LineItems
pub mod Batches
pub mod Errors
pub mod Readable
pub mod Returns
pub mod Unique
pub mod Runs
mod Tests
use masu.Prelude.{
  map, string_eq, ℕ, String, Bool, true, false, ◌&&◌, not, Option, none, some, List, [], ◌∷◌, ◌++◌,
  length, leb, any, select, ◌==◌, nat_eq, pair_eq, list_eq, option_eq, contains, lookup, insert,
  is_some, if◌then◌else◌,
}
use masu.Prelude.Options.{and_then, ◌>>=◌}
use masu.AwsReport.Row.{CsvRow, column_value}
use masu.AwsReport.State.{Setup, Processor, AwsTables, LineItem}
use masu.AwsReport.Entries.{create_cost_entry_objects}
use masu.Tables.Clean.{Scalar, scalar_eq, Columns, get_column}
use masu.Tables.{Cache, update_mappings}

-- The manifest that `_delete_line_items` looks at; its provider and its month as they stand in the cells
-- of a bill.
pub record Manifest : Type 0 where
  pub num_processed_files : ℕ
  pub provider_id : Scalar
  pub bill_date : Scalar

abbrev is_bill_of : Manifest → Columns → Bool
is_bill_of m columns =
    get_column "provider_id" columns == some m.provider_id
    && get_column "billing_period_start" columns == some m.bill_date

-- The ids of the bills of the manifest's provider and month.
abbrev bill_ids : Manifest → AwsTables → List ℕ
bill_ids m t = map (λ row. row.0) (select (λ row. is_bill_of m row.1) t.bills.rows)

abbrev pub of_bills : List ℕ → LineItem → Bool
of_bills bill_ids item = contains bill_ids item.cost_entry_bill_id

abbrev delete_of_bills : List ℕ → AwsTables → AwsTables
delete_of_bills bill_ids t = record t {
  line_items = select (λ item. not (of_bills bill_ids item)) t.line_items;
}

-- `_delete_line_items`: before the first file of a manifest.
unfoldable pub delete_line_items : Option Manifest → AwsTables → AwsTables
delete_line_items none t = t
delete_line_items (some m) t =
    if m.num_processed_files == 0 then delete_of_bills (bill_ids m t) t else t

-- `_save_to_db`: the rows of the batch are copied behind the table's; `line_items[0]` of an empty batch
-- raises an IndexError.
abbrev pub save_to_db : List LineItem → AwsTables → Option AwsTables
save_to_db [] t = none
save_to_db (item ∷ batch) t = some (record t { line_items = t.line_items ++ item ∷ batch })

-- `_update_mappings`: the bills of the batch are forgotten.
abbrev pub after_batch : Processor → AwsTables → Processor
after_batch p t = record {
  bills = [];
  cost_entries = update_mappings p.cost_entries;
  products = update_mappings p.products;
  pricing = update_mappings p.pricing;
  reservations = update_mappings p.reservations;
  line_items = [];
  tables = t;
}

unfoldable pub process_batch : ℕ → Processor → Option Processor
process_batch batch_size p =
    if leb batch_size (length p.line_items)
    then and_then (save_to_db p.line_items p.tables) (λ t. some (after_batch p t))
    else some p

abbrev pub last_batch : List LineItem → AwsTables → Option AwsTables
last_batch [] t = some t
last_batch (item ∷ batch) t = save_to_db (item ∷ batch) t

-- The loop over the rows of the file, and the batch that is left: the last row's bill, if there is a
-- row, and the tables.
unfoldable pub process_rows :
    Setup → List CsvRow → Option ℕ → Processor → Option (Option ℕ × AwsTables)
unfolding process_batch
process_rows setup [] bill_id p =
    and_then (last_batch p.line_items p.tables) (λ t. some (bill_id, t))
process_rows setup (row ∷ rows) bill_id p = and_then (create_cost_entry_objects setup row p) (λ out.
    and_then (process_batch setup.batch_size out.1) (λ p'. process_rows setup rows (some out.0) p'))

-- `_check_for_finalized_bill`; a file without rows raises a StopIteration.
unfoldable pub check_for_finalized_bill : List CsvRow → Option Bool
check_for_finalized_bill [] = none
check_for_finalized_bill (row ∷ rows) = some (elim (column_value "bill/InvoiceId" row) [
  | none ↦ false
  | some [] ↦ false
  | some (c ∷ invoice_id) ↦ true
])

abbrev mark_bill : Bool → Option ℕ → ℕ → List (ℕ × ℕ) → List (ℕ × ℕ)
mark_bill true (some bill_id) now finalized =
    if is_some (lookup bill_id finalized) then finalized else insert bill_id now finalized
mark_bill _ _ now finalized = finalized

-- `process`: the tables and the `finalized_datetime` of each bill that has one, after the run.
unfoldable pub process :
    Setup
    → Option Manifest
    → List CsvRow
    → (now : ℕ) → Processor
    → List (ℕ × ℕ)
    → Option (AwsTables × List (ℕ × ℕ))
unfolding delete_line_items check_for_finalized_bill process_rows
process setup manifest rows now p finalized = do
  let p' : Processor = record p { tables = delete_line_items manifest p.tables }
  is_finalized_data ← check_for_finalized_bill rows
  (bill_id, t) ← process_rows setup rows none p'
  some (t, mark_bill is_finalized_data bill_id now finalized)
