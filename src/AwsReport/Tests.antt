-- ===== src/AwsReport/Tests.antt =====
-- A file of two rows of an AWS report, in batches of one.
use masu.Prelude.{
  ℕ, arith, ◌≡◌, refl, String, Option, none, some, List, [], ◌∷◌, ◌++◌, length, nat_eq, string_eq,
  pair_eq, option_eq, list_eq, lookup, insert,
}
use masu.Labels.{split}
use masu.Tables.Clean.{Conversions, Text, Scalar, text, number, same_columns, clean_data}
use masu.Prelude.Int.{pos}
use masu.AwsReport.Row.{
  CsvRow, column_value, get_cost_entry_time_interval, mapped, get_data_for_table, split_memory,
  pricing_key,
}
use masu.AwsReport.Row.Memory.{put_memory, get_data_for_table-get_data_for_table}
use masu.AwsReport.State.{TableName, pricing, AwsTables, Processor, Setup}
use masu.AwsReport.{
  Manifest, delete_line_items, check_for_finalized_bill, process_batch, process_rows, process,
}
use masu.AwsReport.Bills.{create_bill, create_cost_entry}
use masu.AwsReport.Objects.{create_product, create_pricing, create_reservation}
use masu.AwsReport.Entries.{process_tags, create_line_item, create_cost_entry_objects}
use masu.Tables.{known, find_id, update_mappings, update, insert_on_conflict_do_nothing}
use masu.AwsReport.Batches.{Adds}
use masu.AwsReport.Unique.{KeyIsRow}
use masu.AwsReport.Readable.{Readable}
use masu.AwsReport.Runs.{process-Adds}
use masu.AwsReport.Errors.{process-none}

abbrev as_text : Text → Option Scalar
as_text value = some (text value)

abbrev python : Conversions
python = record { int = as_text; float = as_text; quantized = as_text }

abbrev memory_map : List (String × String)
memory_map = ("product/memory", "memory") ∷ ("product/memory_unit", "memory_unit") ∷ []

abbrev pricing_map : List (String × String)
pricing_map = ("pricing/term", "term") ∷ ("pricing/unit", "unit") ∷ []

abbrev maps : TableName → List (String × String)
maps pricing = pricing_map
maps _ = memory_map

abbrev setup : Setup
setup = record {
  provider_id = 1;
  batch_size = 1;
  existing_bills = [];
  column_map = maps;
  column_types = λ table. [];
  pricing_columns = "term" ∷ "unit" ∷ [];
  number = λ n. number (pos n);
  python = python;
}

-- '4 G'
abbrev four_gib : Text
four_gib = b'4' ∷ b' ' ∷ b'G' ∷ []

abbrev row : Text → CsvRow
row interval =
    ("identity/TimeInterval", some interval)
    ∷ ("product/memory", some four_gib)
    ∷ ("lineItem/LineItemType", some (b'U' ∷ []))
    ∷ ("pricing/term", some (b'O' ∷ []))
    ∷ ("pricing/unit", some (b'H' ∷ []))
    ∷ []

abbrev good : CsvRow
good = row (b'1' ∷ b'/' ∷ b'2' ∷ [])

abbrev bad : CsvRow
bad = row (b'1' ∷ [])

abbrev empty : Processor
empty = record {
  bills = [];
  cost_entries = record { processed = []; existing = [] };
  products = record { processed = []; existing = [] };
  pricing = record { processed = []; existing = [] };
  reservations = record { processed = []; existing = [] };
  line_items = [];
  tables = record {
    bills = record { rows = []; next_id = 1 };
    cost_entries = record { rows = []; next_id = 1 };
    products = record { rows = []; next_id = 1 };
    pricing = record { rows = []; next_id = 1 };
    reservations = record { rows = []; next_id = 1 };
    line_items = [];
  };
}

abbrev first_file : Option Manifest
first_file =
    some (record { num_processed_files = 0; provider_id = number (pos 1); bill_date = text [] })

get_data_for_table-get_data_for_table_example :
    let left : CsvRow = put_memory (b'4' ∷ []) (some (b'G' ∷ [])) good in
    let last : CsvRow = put_memory (b'4' ∷ []) none left in
    (get_data_for_table memory_map good ≡ some (mapped memory_map left, left))
    × (get_data_for_table [] left ≡ some (mapped [] last, last))
    × (column_value "product/memory_unit" left ≡ some (b'G' ∷ []))
    × (column_value "product/memory_unit" last ≡ none)
unfolding lookup split
get_data_for_table-get_data_for_table_example =
    get_data_for_table-get_data_for_table memory_map [] good four_gib (b'4' ∷ []) (b'G' ∷ []) refl
      refl

process-none_example : process setup first_file (good ∷ bad ∷ []) 5 empty [] ≡ none
unfolding lookup get_cost_entry_time_interval
process-none_example = process-none setup first_file (good ∷ []) bad [] 5 empty [] refl

-- What a run on two rows leaves.
abbrev after : AwsTables × List (ℕ × ℕ)
after = elim (process setup first_file (good ∷ good ∷ []) 5 empty []) [
  | none ↦ (empty.tables, [])
  | some out ↦ out
]

abbrev counts : AwsTables → ℕ × ℕ × ℕ
counts t = (length t.cost_entries.rows, length t.products.rows, length t.line_items)

-- A bill without a start is not in conflict with another, so that each row has its own.
process-counts : counts after.0 ≡ (2, 1, 2)
unfolding process lookup insert create_cost_entry_objects create_bill get_data_for_table split
    create_cost_entry get_cost_entry_time_interval known find_id create_product create_pricing
    create_reservation update_mappings update insert_on_conflict_do_nothing same_columns clean_data
    pricing_key create_line_item process_tags mapped split_memory check_for_finalized_bill
    delete_line_items process_batch process_rows
process-counts = refl

setup-KeyIsRow : KeyIsRow setup
setup-KeyIsRow = (refl, (refl, tt))

-- Every interval ends with '2'.
abbrev ends : Text → Text
ends start = b'2' ∷ []

good-Readable : Readable ends good
unfolding lookup split get_cost_entry_time_interval
good-Readable = record {
  start = b'1' ∷ [];
  interval = refl;
  memory = omega arith;
  item_type = b'u' ∷ [];
  has_type = refl;
}

process-Adds_example :
    (out : AwsTables × List (ℕ × ℕ)) × (process setup first_file (good ∷ good ∷ []) 5 empty []
      ≡ some out)
    × Adds 2
        ((delete_line_items first_file empty.tables).line_items ++ empty.line_items)
        out.0.line_items
process-Adds_example =
    process-Adds ends setup first_file good (good ∷ []) 5 empty [] setup-KeyIsRow (omega arith)
      (good-Readable, (good-Readable, tt)) tt
