-- ===== src/AwsReport/Returns.antt =====
-- The methods that create the objects of a row return on one that can be read.
use masu.Prelude.{
  ℕ, ◌≡◌, refl, ap, sym, ◌∙◌, Bool, true, false, ◌&&◌, Option, none, some, List, [], ◌∷◌, All,
  All-append, ◌==◌, nat_eq, pair_eq, list_eq, option_eq, string_eq, Bool-cases, inl, inr,
}
use masu.Prelude.Options.{Sure, Sure-and_then}
use masu.Tables.{Table, find_id, known}
use masu.Tables.Clean.{Text}
use masu.AwsReport.Readable.{Readable, get_data_for_table-Readable}
use masu.AwsReport.Row.{CsvRow, get_data_for_table, only_empty}
use masu.AwsReport.State.{
  Setup, Processor, BillKey, CostEntry, ProductKey, bill, product, reservation, lookup_bill,
}
use masu.AwsReport.Bills.{
  create_bill, create_cost_entry, or_new_bill, or_new_entry, insert_entry_unless, bill_key,
  same_start, same_entry,
}
use masu.AwsReport.Objects.{
  create_product, create_reservation, or_new_product, or_new_reservation, new_reservation,
  product_key, rifee,
}

-- Where every row that passes the first test passes the second, the second finds one too.
pub find_id-weaker :
    {R : Type 0} (p q : R → Bool) (rows : List (ℕ × R)) (id : ℕ)
    → All (λ row. p row.1 ≡ true → q row.1 ≡ true) rows
    → find_id p rows ≡ some id
    → Sure (λ i. Unit) (find_id q rows)
unfolding find_id
find_id-weaker p q [] id h e = cc
find_id-weaker p q ((i, r) ∷ rows) id h e = elim (Bool-cases (q r)) [
  | inl yes_q ↦ rw yes_q tt
  | inr no_q ↦ elim (Bool-cases (p r)) [
    | inl yes_p ↦ cc (h.0 yes_p, no_q)
    | inr no_p ↦ rw no_q (find_id-weaker p q rows id h.1 (rw no_p at e))
  ]
]

and-second : (a b : Bool) → (a && b) ≡ true → b ≡ true
and-second true b e = e
and-second false b e = cc

both-true : (a b : Bool) → a ≡ true → b ≡ true → (a && b) ≡ true
both-true true b e f = f
both-true false b e f = cc

module _ (ends : Text → Text) where
  -- The intervals of the stored cost entries have the same ends.
  abbrev pub SameEnds : Processor → Type 0
  SameEnds p =
      All (λ (row : ℕ × CostEntry). row.1.interval_end ≡ ends row.1.interval_start)
        p.tables.cost_entries.rows

  or_new_bill-Sure :
      (setup : Setup) (key : BillKey) (found other : Option ℕ) (row : CsvRow) (p : Processor)
      → Readable ends row
      → SameEnds p
      → Sure (λ out. Readable ends out.1 × SameEnds out.2) (or_new_bill setup key found other row p)
  or_new_bill-Sure setup key (some id) other row p r h = (r, h)
  or_new_bill-Sure setup key none (some id) row p r h = (r, h)
  or_new_bill-Sure setup key none none row p r h =
      Sure-and_then _ (λ out. Readable ends out.1 × SameEnds out.2)
        (get_data_for_table (setup.column_map bill) row) _
        (get_data_for_table-Readable ends (setup.column_map bill) row r) (λ out (r', more). (r', h))

  pub create_bill-Sure :
      (setup : Setup) (row : CsvRow) (p : Processor)
      → Readable ends row
      → SameEnds p
      → Sure (λ out. Readable ends out.1 × SameEnds out.2) (create_bill setup row p)
  unfolding create_bill
  create_bill-Sure setup row p r h =
      let key = bill_key setup row in
      or_new_bill-Sure setup key (lookup_bill key p.bills) (lookup_bill key setup.existing_bills)
        row p r h

  same_start-entry :
      (entry : CostEntry) (rows : List (ℕ × CostEntry))
      → entry.interval_end ≡ ends entry.interval_start
      → All (λ (row : ℕ × CostEntry). row.1.interval_end ≡ ends row.1.interval_start) rows
      → All
          (λ (row : ℕ × CostEntry). same_start entry row.1 ≡ true → same_entry entry row.1 ≡ true)
          rows
  same_start-entry entry [] e h = tt
  same_start-entry entry ((i, other) ∷ rows) e h = (
    λ same.
        let start =
          (list_eq.beq_iff entry.interval_start other.interval_start).0
            (and-second (entry.bill_id == other.bill_id) _ same) in
        let end = e ∙ (ap ends start ∙ sym h.0) in
        both-true _ _ same ((list_eq.beq_iff entry.interval_end other.interval_end).1 end),
    same_start-entry entry rows e h.1,
  )

  insert_entry_unless-Sure :
      (found : Option ℕ) (entry : CostEntry) (p : Processor)
      → find_id (same_start entry) p.tables.cost_entries.rows ≡ found
      → entry.interval_end ≡ ends entry.interval_start
      → SameEnds p
      → Sure
          (λ out.
            All
              (λ (row : ℕ × CostEntry). row.1.interval_end ≡ ends row.1.interval_start)
              out.1.rows)
          (insert_entry_unless found entry p.tables.cost_entries)
  insert_entry_unless-Sure none entry p f e h = All-append _ p.tables.cost_entries.rows _ h (e, tt)
  insert_entry_unless-Sure (some id) entry p f e h =
      Sure-and_then _ _ (find_id (same_entry entry) p.tables.cost_entries.rows) _
        (find_id-weaker (same_start entry) (same_entry entry) p.tables.cost_entries.rows id
          (same_start-entry entry p.tables.cost_entries.rows e h) f)
        (λ i u. h)

  or_new_entry-Sure :
      (found : Option ℕ) (entry : CostEntry) (p : Processor)
      → entry.interval_end ≡ ends entry.interval_start
      → SameEnds p
      → Sure (λ out. SameEnds out.1) (or_new_entry found entry p)
  or_new_entry-Sure (some id) entry p e h = h
  or_new_entry-Sure none entry p e h =
      Sure-and_then {A = ℕ × Table CostEntry} {B = ℕ × Processor} _ (λ out. SameEnds out.1)
        (insert_entry_unless (find_id (same_start entry) p.tables.cost_entries.rows) entry
          p.tables.cost_entries)
        _
        (insert_entry_unless-Sure (find_id (same_start entry) p.tables.cost_entries.rows) entry p
          refl e h)
        (λ out k. k)

  pub create_cost_entry-Sure :
      (row : CsvRow) (bill_id : ℕ) (p : Processor)
      → Readable ends row
      → SameEnds p
      → Sure (λ out. SameEnds out.1) (create_cost_entry row bill_id p)
  unfolding create_cost_entry
  create_cost_entry-Sure row bill_id p r h =
      rw r.interval (or_new_entry-Sure (known p.cost_entries (bill_id, r.start)) _ p refl h)

  or_new_product-Sure :
      (setup : Setup) (key : ProductKey) (found : Option ℕ) (row : CsvRow) (p : Processor)
      → Readable ends row
      → SameEnds p
      → Sure (λ out. Readable ends out.1 × SameEnds out.2) (or_new_product setup key found row p)
  or_new_product-Sure setup key (some id) row p r h = (r, h)
  or_new_product-Sure setup key none row p r h =
      Sure-and_then _ (λ out. Readable ends out.1 × SameEnds out.2)
        (get_data_for_table (setup.column_map product) row) _
        (get_data_for_table-Readable ends (setup.column_map product) row r)
        (λ out (r', more). elim (Bool-cases (only_empty out.0)) [
          | inl e ↦ rw e (r', h)
          | inr e ↦ rw e (r', h)
        ])

  pub create_product-Sure :
      (setup : Setup) (row : CsvRow) (p : Processor)
      → Readable ends row
      → SameEnds p
      → Sure (λ out. Readable ends out.1 × SameEnds out.2) (create_product setup row p)
  unfolding create_product
  create_product-Sure setup row p r h =
      let key = product_key row in or_new_product-Sure setup key (known p.products key) row p r h

  new_reservation-Sure :
      (setup : Setup) (arn : Option Text) (is_fee : Bool) (row : CsvRow) (p : Processor)
      → Readable ends row
      → SameEnds p
      → Sure (λ out. Readable ends out.1 × SameEnds out.2) (new_reservation setup arn is_fee row p)
  new_reservation-Sure setup arn is_fee row p r h =
      Sure-and_then _ (λ out. Readable ends out.1 × SameEnds out.2)
        (get_data_for_table (setup.column_map reservation) row) _
        (get_data_for_table-Readable ends (setup.column_map reservation) row r)
        (λ out (r', more). elim (Bool-cases (only_empty out.0)) [
          | inl e ↦ rw e (r', h)
          | inr e ↦ rw e (r', h)
        ])

  or_new_reservation-Sure :
      (setup : Setup) (arn : Option Text) (is_fee : Bool) (found : Option ℕ) (row : CsvRow)
      (p : Processor)
      → Readable ends row
      → SameEnds p
      → Sure
          (λ out. Readable ends out.1 × SameEnds out.2)
          (or_new_reservation setup arn is_fee found row p)
  or_new_reservation-Sure setup arn true found row p r h =
      new_reservation-Sure setup arn true row p r h
  or_new_reservation-Sure setup arn false (some id) row p r h = (r, h)
  or_new_reservation-Sure setup arn false none row p r h =
      new_reservation-Sure setup arn false row p r h

  pub create_reservation-Sure :
      (setup : Setup) (row : CsvRow) (p : Processor)
      → Readable ends row
      → SameEnds p
      → Sure (λ out. Readable ends out.1 × SameEnds out.2) (create_reservation setup row p)
  unfolding create_reservation
  create_reservation-Sure setup row p r h =
      rw r.has_type (or_new_reservation-Sure setup _ (r.item_type == rifee) _ row p r h)
