-- ===== src/AwsReport/Errors.antt =====
-- The files on which `process` raises an exception.
use masu.Prelude.{
  ℕ, ◌≡◌, refl, ap, ◌∙◌, lookup-insert, String, Option, none, some, List, [], ◌∷◌, ◌++◌, nat_eq,
  pair_eq, list_eq, option_eq, string_eq,
}
use masu.Prelude.Options.{and_then, Gives, Gives-and_then, Gives-all}
use masu.Labels.{split}
use masu.Tables.Clean.{Text}
use masu.AwsReport.Row.Memory.{put_memory}
use masu.AwsReport.Row.{
  split_words, split_memory_value, split_memory, get_data_for_table, CsvRow, column_value,
  get_cost_entry_time_interval,
}
use masu.AwsReport.State.{Setup, Processor, BillKey, bill, lookup_bill}
use masu.AwsReport.Bills.{create_bill, create_cost_entry, or_new_bill, bill_key}
use masu.AwsReport.Entries.{create_cost_entry_objects}
use masu.AwsReport.{
  Manifest, delete_line_items, process_batch, process_rows, check_for_finalized_bill, process,
}

-- A row whose interval is missing or is not two times.
abbrev pub BadInterval : CsvRow → Type 0
BadInterval row = get_cost_entry_time_interval (column_value "identity/TimeInterval" row) ≡ none

create_cost_entry-none :
    (row : CsvRow) (bill_id : ℕ) (p : Processor)
    → BadInterval row
    → create_cost_entry row bill_id p ≡ none
unfolding create_cost_entry
create_cost_entry-none row bill_id p bad = rw bad refl

abbrev Raises : {A : Type 0} → Option A → Type 0
Raises m = Gives (λ a. ⊥) m

Raises-none : {A : Type 0} (m : Option A) → Raises m → m ≡ none
Raises-none none h = refl
Raises-none (some a) h = absurd h

none-Raises : {A : Type 0} (m : Option A) → m ≡ none → Raises m
none-Raises none h = tt
none-Raises (some a) h = cc

-- A call that raises whatever the call before it gives.
and_then-Raises :
    {A B : Type 0} (m : Option A) (f : A → Option B)
    → ((a : A) → Raises (f a))
    → Raises (and_then m f)
and_then-Raises m f h = Gives-and_then (λ a. Unit) (λ b. ⊥) m f (Gives-all m) (λ a u. h a)

-- The interval of a row is that of another.
abbrev SameInterval : CsvRow → CsvRow → Type 0
SameInterval row row' =
    column_value "identity/TimeInterval" row' ≡ column_value "identity/TimeInterval" row

put_memory-SameInterval :
    (memory : Text) (unit : Option Text) (row : CsvRow)
    → SameInterval row (put_memory memory unit row)
put_memory-SameInterval memory unit row = rw (lookup-insert, lookup-insert) refl

split_words-SameInterval :
    (words : List Text) (row : CsvRow) → Gives (SameInterval row) (split_words words row)
split_words-SameInterval [] row = tt
split_words-SameInterval (memory ∷ []) row = put_memory-SameInterval memory none row
split_words-SameInterval (memory ∷ unit ∷ []) row = put_memory-SameInterval memory (some unit) row
split_words-SameInterval (memory ∷ unit ∷ word ∷ words) row = tt

split_memory_value-SameInterval :
    (value : Option Text) (row : CsvRow) → Gives (SameInterval row) (split_memory_value value row)
split_memory_value-SameInterval none row = refl
split_memory_value-SameInterval (some text) row = split_words-SameInterval (split b' ' text) row

get_data_for_table-SameInterval :
    (column_map : List (String × String)) (row : CsvRow)
    → Gives (λ out. SameInterval row out.1) (get_data_for_table column_map row)
unfolding get_data_for_table split_memory
get_data_for_table-SameInterval column_map row =
    let value = column_value "product/memory" row in
    Gives-and_then (SameInterval row) _ (split_memory_value value row) _
      (split_memory_value-SameInterval value row) (λ row' e. e)

or_new_bill-SameInterval :
    (setup : Setup) (key : BillKey) (found other : Option ℕ) (row : CsvRow) (p : Processor)
    → Gives (λ out. SameInterval row out.1) (or_new_bill setup key found other row p)
or_new_bill-SameInterval setup key (some id) other row p = refl
or_new_bill-SameInterval setup key none (some id) row p = refl
or_new_bill-SameInterval setup key none none row p =
    let m = get_data_for_table (setup.column_map bill) row in
    Gives-and_then (λ out. SameInterval row out.1) _ m _
      (get_data_for_table-SameInterval (setup.column_map bill) row) (λ out e. e)

create_bill-SameInterval :
    (setup : Setup) (row : CsvRow) (p : Processor)
    → Gives (λ out. SameInterval row out.1) (create_bill setup row p)
unfolding create_bill
create_bill-SameInterval setup row p =
    let key = bill_key setup row in
    or_new_bill-SameInterval setup key (lookup_bill key p.bills)
      (lookup_bill key setup.existing_bills) row p

create_cost_entry_objects-Raises :
    (setup : Setup) (row : CsvRow) (p : Processor)
    → BadInterval row
    → Raises (create_cost_entry_objects setup row p)
unfolding create_cost_entry_objects
create_cost_entry_objects-Raises setup row p bad =
    Gives-and_then (λ out. SameInterval row out.1) _ (create_bill setup row p) _
      (create_bill-SameInterval setup row p)
      (λ (id, r, q) same.
        Gives-and_then (λ a. ⊥) _ (create_cost_entry r id q) _
          (none-Raises _
            (create_cost_entry-none r id q (ap get_cost_entry_time_interval same ∙ bad)))
          (λ a e. absurd e))

process_rows-Raises :
    (setup : Setup) (rows : List CsvRow) (row : CsvRow) (others : List CsvRow) (bill_id : Option ℕ)
    (p : Processor)
    → BadInterval row
    → Raises (process_rows setup (rows ++ row ∷ others) bill_id p)
unfolding process_rows
process_rows-Raises setup [] row others bill_id p bad =
    Gives-and_then (λ a. ⊥) _ (create_cost_entry_objects setup row p) _
      (create_cost_entry_objects-Raises setup row p bad) (λ a e. absurd e)
process_rows-Raises setup (first ∷ rows) row others bill_id p bad =
    and_then-Raises (create_cost_entry_objects setup first p) _ (λ (id, q).
      and_then-Raises (process_batch setup.batch_size q) _
        (λ q'. process_rows-Raises setup rows row others (some id) q' bad))

-- A file with a row, wherever it stands, whose time interval is missing or is not two times makes
-- `process` raise, whatever the manifest, the batches and the rows before.
pub process-none :
    (setup : Setup) (manifest : Option Manifest) (rows : List CsvRow) (row : CsvRow)
    (others : List CsvRow) (now : ℕ) (p : Processor) (finalized : List (ℕ × ℕ))
    → BadInterval row
    → process setup manifest (rows ++ row ∷ others) now p finalized ≡ none
unfolding process
process-none setup manifest rows row others now p finalized bad =
    let p' : Processor = record p { tables = delete_line_items manifest p.tables } in
    let file = rows ++ row ∷ others in
    Raises-none _ (
      and_then-Raises (check_for_finalized_bill file) _ (λ is_finalized.
        Gives-and_then (λ a. ⊥) _ (process_rows setup file none p') _
          (process_rows-Raises setup rows row others none p' bad) (λ a e. absurd e)))
