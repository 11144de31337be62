-- ===== src/AwsReport/Runs.antt =====
-- `process` on a file of which every row can be read.
use masu.Prelude.{
  ℕ, ◌<◌, ◌≡◌, true, Option, none, some, List, [], ◌∷◌, ◌++◌, length, leb, leb→le, All, ◌==◌,
  nat_eq, pair_eq, list_eq, option_eq, string_eq, Bool-cases, inl, inr, arith,
}
use masu.Prelude.Options.{and_then, Sure, Sure-and_then, Sure-eq}
use masu.Tables.Clean.{Text}
use masu.AwsReport.Row.{CsvRow}
use masu.AwsReport.State.{Setup, Processor, AwsTables, LineItem}
use masu.AwsReport.Entries.{create_cost_entry_objects}
use masu.AwsReport.Readable.{Readable}
use masu.AwsReport.Returns.{SameEnds}
use masu.AwsReport.Unique.{KeyIsRow, create_cost_entry_objects-Sure}
use masu.AwsReport.Batches.{Adds, returned-Adds}
use masu.AwsReport.{
  Manifest, delete_line_items, save_to_db, after_batch, process_batch, last_batch, process_rows,
  check_for_finalized_bill, process,
}

module _ (ends : Text → Text) where
  after_save-Sure :
      (batch_size : ℕ) (p : Processor) (batch : List LineItem)
      → 0 < batch_size
      → leb batch_size (length batch) ≡ true
      → SameEnds ends p
      → Sure (SameEnds ends) (and_then (save_to_db batch p.tables) (λ t. some (after_batch p t)))
  after_save-Sure batch_size p [] b full h = omega (arith, b, leb→le batch_size 0 full)
  after_save-Sure batch_size p (item ∷ batch) b full h = h

  process_batch-Sure :
      (batch_size : ℕ) (p : Processor)
      → 0 < batch_size
      → SameEnds ends p
      → Sure (SameEnds ends) (process_batch batch_size p)
  unfolding process_batch
  process_batch-Sure batch_size p b h = elim (Bool-cases (leb batch_size (length p.line_items))) [
    | inl full ↦ rw full (after_save-Sure batch_size p p.line_items b full h)
    | inr small ↦ rw small h
  ]

  last_batch-Sure : (batch : List LineItem) (t : AwsTables) → Sure (λ u. Unit) (last_batch batch t)
  last_batch-Sure [] t = tt
  last_batch-Sure (item ∷ batch) t = tt

  process_rows-Sure :
      (setup : Setup) (rows : List CsvRow) (bill_id : Option ℕ) (p : Processor)
      → KeyIsRow setup
      → 0 < setup.batch_size
      → All (Readable ends) rows
      → SameEnds ends p
      → Sure (λ out. Unit) (process_rows setup rows bill_id p)
  unfolding process_rows
  process_rows-Sure setup [] bill_id p k b rs h =
      Sure-and_then (λ u. Unit) (λ out. Unit) (last_batch p.line_items p.tables) _
        (last_batch-Sure p.line_items p.tables) (λ t u. tt)
  process_rows-Sure setup (row ∷ rows) bill_id p k b (r, rs) h =
      Sure-and_then (λ out. SameEnds ends out.1) (λ out. Unit)
        (create_cost_entry_objects setup row p) _
        (create_cost_entry_objects-Sure ends setup k row p r h)
        (λ (id, p₁) h₁.
          Sure-and_then (SameEnds ends) (λ out. Unit) (process_batch setup.batch_size p₁) _
            (process_batch-Sure setup.batch_size p₁ b h₁)
            (λ p₂ h₂. process_rows-Sure setup rows (some id) p₂ k b rs h₂))

delete_line_items-SameEnds :
    (ends : Text → Text) (manifest : Option Manifest) (p : Processor)
    → SameEnds ends p
    → SameEnds ends (record p { tables = delete_line_items manifest p.tables })
unfolding delete_line_items
delete_line_items-SameEnds ends none p h = h
delete_line_items-SameEnds ends (some m) p h = elim (Bool-cases (m.num_processed_files == 0)) [
  | inl first ↦ rw first h
  | inr later ↦ rw later h
]

process-Sure :
    (ends : Text → Text) (setup : Setup) (manifest : Option Manifest) (row : CsvRow)
    (rows : List CsvRow) (now : ℕ) (p : Processor) (finalized : List (ℕ × ℕ))
    → KeyIsRow setup
    → 0 < setup.batch_size
    → All (Readable ends) (row ∷ rows)
    → SameEnds ends p
    → Sure (λ out. Unit) (process setup manifest (row ∷ rows) now p finalized)
unfolding process check_for_finalized_bill
process-Sure ends setup manifest row rows now p finalized k b rs h =
    let p' : Processor = record p { tables = delete_line_items manifest p.tables } in
    Sure-and_then (λ out. Unit) (λ out. Unit) (process_rows setup (row ∷ rows) none p') _
      (process_rows-Sure ends setup (row ∷ rows) none p' k b rs
        (delete_line_items-SameEnds ends manifest p h))
      (λ out u. tt)

-- Whatever the batches, if their size is not 0, `process` returns on a file that has a row and of which
-- every row has an interval of two times, a memory of at most two words, if any, and a type that is not
-- null, where one start has one end in the rows and in the stored cost entries, and where every column
-- that a file can have of the pricing table is one of its unique columns. It leaves the line items that the deletion for the
-- manifest's first file kept, those that waited in the batch, and one line item for each row of the file.
pub process-Adds :
    (ends : Text → Text) (setup : Setup) (manifest : Option Manifest) (row : CsvRow)
    (rows : List CsvRow) (now : ℕ) (p : Processor) (finalized : List (ℕ × ℕ))
    → KeyIsRow setup
    → 0 < setup.batch_size
    → All (Readable ends) (row ∷ rows)
    → SameEnds ends p
    → (out : AwsTables × List (ℕ × ℕ)) × (process setup manifest (row ∷ rows) now p finalized
        ≡ some out)
      × Adds
          (length (row ∷ rows))
          ((delete_line_items manifest p.tables).line_items ++ p.line_items)
          out.0.line_items
process-Adds ends setup manifest row rows now p finalized k b rs h =
    let (out, e, u) =
      Sure-eq (λ out. Unit) (process setup manifest (row ∷ rows) now p finalized)
        (process-Sure ends setup manifest row rows now p finalized k b rs h) in
    (out, e, returned-Adds setup manifest (row ∷ rows) now p finalized out.0 out.1 e)
