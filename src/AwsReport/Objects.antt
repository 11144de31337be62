-- ===== src/AwsReport/Objects.antt =====
-- `_create_cost_entry_product`, `_create_cost_entry_pricing` and `_create_cost_entry_reservation`.
use masu.Prelude.{
  ℕ, ◌+◌, Bool, true, false, ◌&&◌, Option, none, some, List, [], ◌∷◌, ◌++◌, map, leb, ◌==◌, nat_eq,
  string_eq, option_eq, pair_eq, list_eq, lookup, insert, if◌then◌else◌,
}
use masu.Prelude.Options.{and_then}
use masu.Tables.{Table, known, find_id}
use masu.Tables.Clean.{Text, scalar_eq, Columns, same_columns, get_column}
use masu.AwsReport.Row.{CsvRow, column_value, get_data_for_table, only_empty, pricing_key}
use masu.AwsReport.State.{
  product, pricing, reservation, ProductKey, Processor, Setup, cleaned, insert_columns,
}

abbrev pub product_key : CsvRow → ProductKey
product_key row = (
  column_value "product/sku" row,
  (column_value "product/ProductName" row, column_value "product/region" row),
)

-- The outcome of a method that may return None: the id, the row and the processor.
abbrev pub Created : Type 0
Created = Option ℕ × CsvRow × Processor

abbrev keep_product : ProductKey → CsvRow → Processor → ℕ × Table Columns → Created
keep_product key row p (id, t) = (
  some id,
  row,
  record p {
    products = record p.products { processed = insert key id p.products.processed };
    tables = record p.tables { products = t };
  },
)

abbrev pub new_product : Setup → ProductKey → CsvRow → Processor → Option Created
new_product setup key row p = and_then (get_data_for_table (setup.column_map product) row) (λ out.
    some (
      if only_empty out.0
      then (none, out.1, p)
      else keep_product key out.1 p (
          insert_columns ("sku" ∷ "product_name" ∷ "region" ∷ []) (cleaned setup product out.0)
            p.tables.products)))

abbrev pub or_new_product : Setup → ProductKey → Option ℕ → CsvRow → Processor → Option Created
or_new_product setup key (some id) row p = some (some id, row, p)
or_new_product setup key none row p = new_product setup key row p

-- `_create_cost_entry_product`
unfoldable pub create_product : Setup → CsvRow → Processor → Option Created
create_product setup row p =
    let key = product_key row in or_new_product setup key (known p.products key) row p

-- `filter_by` over the columns of a row, each with the value that the row has of it.
abbrev pub matches_on : (columns row other : Columns) → Bool
matches_on [] row other = true
matches_on ((column, value) ∷ columns) row other =
    get_column column row == get_column column other && matches_on columns row other

abbrev pub matches : Columns → Columns → Bool
matches row other = matches_on row row other

abbrev pub insert_pricing_unless : Option ℕ → Columns → Table Columns → Option (ℕ × Table Columns)
insert_pricing_unless none row t =
    some (t.next_id, record { rows = t.rows ++ (t.next_id, row) ∷ []; next_id = t.next_id + 1 })
insert_pricing_unless (some other) row t =
    and_then (find_id (matches row) t.rows) (λ id. some (id, record t { next_id = t.next_id + 1 }))

abbrev keep_pricing : Text → CsvRow → Processor → ℕ × Table Columns → Created
keep_pricing key row p (id, t) = (
  some id,
  row,
  record p {
    pricing = record p.pricing { processed = insert key id p.pricing.processed };
    tables = record p.tables { pricing = t };
  },
)

abbrev pub insert_pricing : Setup → CsvRow → Processor → Option (ℕ × Table Columns)
insert_pricing setup columns p =
    let row = cleaned setup pricing columns in
    insert_pricing_unless (find_id (same_columns setup.pricing_columns row) p.tables.pricing.rows)
      row p.tables.pricing

abbrev pub new_pricing : Setup → Text → CsvRow → Processor → Option Created
new_pricing setup key row p = and_then (get_data_for_table (setup.column_map pricing) row) (λ out.
    if only_empty out.0
    then some (none, out.1, p)
    else and_then (insert_pricing setup out.0 p)
        (λ created. some (keep_pricing key out.1 p created)))

abbrev pub or_new_pricing : Setup → Text → Option ℕ → CsvRow → Processor → Option Created
or_new_pricing setup key (some id) row p = some (some id, row, p)
or_new_pricing setup key none row p = new_pricing setup key row p

-- `_create_cost_entry_pricing`
unfoldable pub create_pricing : Setup → CsvRow → Processor → Option Created
create_pricing setup row p =
    let key = pricing_key row in or_new_pricing setup key (known p.pricing key) row p

abbrev pub rifee : Text
rifee = b'r' ∷ b'i' ∷ b'f' ∷ b'e' ∷ b'e' ∷ []

abbrev lower_case : Text → Text
lower_case text = map (λ c. if leb b'A' c && leb c b'Z' then c + 32 else c) text

abbrev pub line_item_type : Option (Option Text) → Option Text
line_item_type none = some []
line_item_type (some none) = none
line_item_type (some (some text)) = some (lower_case text)

-- The set columns of `insert_on_conflict_do_update` are all columns of the new row.
abbrev overlay : Columns → Columns → Columns
overlay [] old = old
overlay ((column, value) ∷ new) old = overlay new (insert column value old)

abbrev update_row : ℕ → Columns → List (ℕ × Columns) → List (ℕ × Columns)
update_row id new rows =
    map (λ entry. if entry.0 == id then (id, overlay new entry.1) else entry) rows

abbrev update_unless : Option ℕ → Columns → Table Columns → ℕ × Table Columns
update_unless none row t =
    (t.next_id, record { rows = t.rows ++ (t.next_id, row) ∷ []; next_id = t.next_id + 1 })
update_unless (some id) row t =
    (id, record { rows = update_row id row t.rows; next_id = t.next_id + 1 })

abbrev insert_reservation : Bool → Columns → Table Columns → ℕ × Table Columns
insert_reservation true row t =
    update_unless (find_id (same_columns ("reservation_arn" ∷ []) row) t.rows) row t
insert_reservation false row t = insert_columns ("reservation_arn" ∷ []) row t

abbrev keep_reservation : Option Text → CsvRow → Processor → ℕ × Table Columns → Created
keep_reservation arn row p (id, t) = (
  some id,
  row,
  record p {
    reservations = record p.reservations { processed = insert arn id p.reservations.processed };
    tables = record p.tables { reservations = t };
  },
)

abbrev pub new_reservation : Setup → Option Text → Bool → CsvRow → Processor → Option Created
new_reservation setup arn is_fee row p =
    and_then (get_data_for_table (setup.column_map reservation) row) (λ out. some (
      if only_empty out.0
      then (none, out.1, p)
      else keep_reservation arn out.1 p
          (insert_reservation is_fee (cleaned setup reservation out.0) p.tables.reservations)))

abbrev pub or_new_reservation :
    Setup → Option Text → Bool → Option ℕ → CsvRow → Processor → Option Created
or_new_reservation setup arn true found row p = new_reservation setup arn true row p
or_new_reservation setup arn false (some id) row p = some (some id, row, p)
or_new_reservation setup arn false none row p = new_reservation setup arn false row p

-- `_create_cost_entry_reservation`: a fee updates the row that is there.
unfoldable pub create_reservation : Setup → CsvRow → Processor → Option Created
create_reservation setup row p =
    let arn = column_value "reservation/ReservationARN" row in
    and_then (line_item_type (lookup "lineItem/LineItemType" row)) (λ item_type.
      or_new_reservation setup arn (item_type == rifee) (known p.reservations arn) row p)
