-- ===== src/AwsReport/Bills.antt =====
-- `_create_cost_entry_bill` and `_create_cost_entry`.
use masu.Prelude.{
  ℕ, ◌+◌, Bool, ◌&&◌, Option, none, some, [], ◌∷◌, ◌++◌, ◌==◌, nat_eq, string_eq, option_eq,
  pair_eq, list_eq, insert,
}
use masu.Prelude.Options.{and_then}
use masu.Tables.{Table, known, find_id}
use masu.Tables.Clean.{scalar_eq}
use masu.AwsReport.Row.{CsvRow, column_value, get_data_for_table, get_cost_entry_time_interval}
use masu.AwsReport.State.{
  bill, read, BillKey, lookup_bill, CostEntry, Processor, Setup, cleaned, insert_columns,
}

abbrev pub bill_key : Setup → CsvRow → BillKey
bill_key setup row = record {
  bill_type = column_value "bill/BillType" row;
  payer_account_id = column_value "bill/PayerAccountId" row;
  start = read (column_value "bill/BillingPeriodStartDate" row);
  provider_id = setup.provider_id;
}

abbrev insert_bill : Setup → CsvRow → Processor → ℕ × Processor
insert_bill setup columns p =
    let row =
      insert "provider_id" (some (setup.number setup.provider_id)) (cleaned setup bill columns) in
    let conflict_columns =
      "bill_type" ∷ "payer_account_id" ∷ "billing_period_start" ∷ "provider_id" ∷ [] in
    let (id, t) = insert_columns conflict_columns row p.tables.bills in
    (id, record p { tables = record p.tables { bills = t } })

abbrev pub fresh_bill : Setup → BillKey → CsvRow → Processor → Option (ℕ × CsvRow × Processor)
fresh_bill setup key row p = and_then (get_data_for_table (setup.column_map bill) row) (λ out.
    let (id, p') = insert_bill setup out.0 p in
    some (id, out.1, record p' { bills = (key, id) ∷ p'.bills }))

abbrev pub or_new_bill :
    Setup → BillKey → Option ℕ → Option ℕ → CsvRow → Processor → Option (ℕ × CsvRow × Processor)
or_new_bill setup key (some id) other row p = some (id, row, p)
or_new_bill setup key none (some id) row p = some (id, row, p)
or_new_bill setup key none none row p = fresh_bill setup key row p

-- `_create_cost_entry_bill`: the id, the row as the call leaves it, and the processor.
unfoldable pub create_bill : Setup → CsvRow → Processor → Option (ℕ × CsvRow × Processor)
create_bill setup row p =
    let key = bill_key setup row in
    or_new_bill setup key (lookup_bill key p.bills) (lookup_bill key setup.existing_bills) row p

-- `insert_on_conflict_do_nothing` without conflict columns: the row in the way is looked up by all
-- columns, and where the end differs no row is found, which raises an AttributeError.
abbrev pub same_start : CostEntry → CostEntry → Bool
same_start a b = a.bill_id == b.bill_id && a.interval_start == b.interval_start

abbrev pub same_entry : CostEntry → CostEntry → Bool
same_entry a b = same_start a b && a.interval_end == b.interval_end

abbrev pub insert_entry_unless :
    Option ℕ → CostEntry → Table CostEntry → Option (ℕ × Table CostEntry)
insert_entry_unless none entry t =
    some (t.next_id, record { rows = t.rows ++ (t.next_id, entry) ∷ []; next_id = t.next_id + 1 })
insert_entry_unless (some other) entry t =
    and_then (find_id (same_entry entry) t.rows)
      (λ id. some (id, record t { next_id = t.next_id + 1 }))

abbrev pub new_cost_entry : CostEntry → Processor → Option (ℕ × Processor)
new_cost_entry entry p =
    and_then
      (insert_entry_unless (find_id (same_start entry) p.tables.cost_entries.rows) entry
        p.tables.cost_entries)
      (λ out. some (
        out.0,
        record p {
          cost_entries = record p.cost_entries {
            processed = insert (entry.bill_id, entry.interval_start) out.0 p.cost_entries.processed;
          };
          tables = record p.tables { cost_entries = out.1 };
        },
      ))

abbrev pub or_new_entry : Option ℕ → CostEntry → Processor → Option (ℕ × Processor)
or_new_entry (some id) entry p = some (id, p)
or_new_entry none entry p = new_cost_entry entry p

-- `_create_cost_entry`
unfoldable pub create_cost_entry : CsvRow → ℕ → Processor → Option (ℕ × Processor)
create_cost_entry row bill_id p =
    and_then (get_cost_entry_time_interval (column_value "identity/TimeInterval" row)) (λ interval.
      let entry : CostEntry = record {
        bill_id = bill_id;
        interval_start = interval.0;
        interval_end = interval.1;
      } in
      or_new_entry (known p.cost_entries (bill_id, interval.0)) entry p)
