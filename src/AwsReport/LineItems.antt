-- ===== src/AwsReport/LineItems.antt =====
-- The line items that a report leaves behind.
use masu.Prelude.{
  lookup, ℕ, ◌≡◌, refl, ap, ◌∙◌, Bool, true, false, Option, none, some, [], ◌∷◌, ◌++◌, nat_eq,
  pair_eq, list_eq, option_eq, string_eq, Bool-cases, inl, inr,
}
use masu.Prelude.Options.{Gives, Gives-and_then, Gives-all}
use masu.AwsReport.Row.{
  CsvRow, column_value, get_data_for_table, only_empty, get_cost_entry_time_interval, pricing_key,
}
use masu.AwsReport.State.{
  Setup, Processor, LineItem, BillKey, CostEntry, ProductKey, bill, product, pricing, reservation,
  line_item, lookup_bill,
}
use masu.Tables.{find_id, known}
use masu.Tables.Clean.{Text}
use masu.AwsReport.Bills.{
  create_bill, create_cost_entry, or_new_bill, or_new_entry, insert_entry_unless, bill_key,
  same_start,
}
use masu.AwsReport.Objects.{
  create_product, create_pricing, create_reservation, or_new_product, or_new_pricing,
  or_new_reservation, new_reservation, product_key, insert_pricing, line_item_type,
}
use masu.AwsReport.Entries.{Ids, create_line_item, create_cost_entry_objects}

-- The line items of the batch and of the table.
record SameItems (p p' : Processor) : Type 0 where
  pub batch : p'.line_items ≡ p.line_items
  pub table : p'.tables.line_items ≡ p.tables.line_items

same : (p : Processor) → SameItems p p
same p = record { batch = refl; table = refl }

or_new_bill-SameItems :
    (setup : Setup) (key : BillKey) (found other : Option ℕ) (row : CsvRow) (p : Processor)
    → Gives (λ out. SameItems p out.2) (or_new_bill setup key found other row p)
or_new_bill-SameItems setup key (some id) other row p = same p
or_new_bill-SameItems setup key none (some id) row p = same p
or_new_bill-SameItems setup key none none row p =
    Gives-and_then (λ a. Unit) (λ out. SameItems p out.2)
      (get_data_for_table (setup.column_map bill) row) _
      (Gives-all (get_data_for_table (setup.column_map bill) row))
      (λ a u. record { batch = refl; table = refl })

create_bill-SameItems :
    (setup : Setup) (row : CsvRow) (p : Processor)
    → Gives (λ out. SameItems p out.2) (create_bill setup row p)
unfolding create_bill
create_bill-SameItems setup row p =
    let key = bill_key setup row in
    or_new_bill-SameItems setup key (lookup_bill key p.bills) (lookup_bill key setup.existing_bills)
      row p

or_new_entry-SameItems :
    (found : Option ℕ) (entry : CostEntry) (p : Processor)
    → Gives (λ out. SameItems p out.1) (or_new_entry found entry p)
or_new_entry-SameItems (some id) entry p = same p
or_new_entry-SameItems none entry p =
    let m =
      insert_entry_unless (find_id (same_start entry) p.tables.cost_entries.rows) entry
        p.tables.cost_entries in
    Gives-and_then (λ a. Unit) (λ out. SameItems p out.1) m _ (Gives-all m)
      (λ a u. record { batch = refl; table = refl })

create_cost_entry-SameItems :
    (row : CsvRow) (bill_id : ℕ) (p : Processor)
    → Gives (λ out. SameItems p out.1) (create_cost_entry row bill_id p)
unfolding create_cost_entry
create_cost_entry-SameItems row bill_id p =
    let m = get_cost_entry_time_interval (column_value "identity/TimeInterval" row) in
    Gives-and_then (λ a. Unit) (λ out. SameItems p out.1) m _ (Gives-all m)
      (λ a u. or_new_entry-SameItems _ _ p)

or_new_product-SameItems :
    (setup : Setup) (key : ProductKey) (found : Option ℕ) (row : CsvRow) (p : Processor)
    → Gives (λ out. SameItems p out.2) (or_new_product setup key found row p)
or_new_product-SameItems setup key (some id) row p = same p
or_new_product-SameItems setup key none row p =
    let m = get_data_for_table (setup.column_map product) row in
    Gives-and_then (λ a. Unit) (λ out. SameItems p out.2) m _ (Gives-all m)
      (λ a u. elim (Bool-cases (only_empty a.0)) [
        | inl e ↦ rw e (same p)
        | inr e ↦ rw e (record { batch = refl; table = refl })
      ])

create_product-SameItems :
    (setup : Setup) (row : CsvRow) (p : Processor)
    → Gives (λ out. SameItems p out.2) (create_product setup row p)
unfolding create_product
create_product-SameItems setup row p =
    let key = product_key row in or_new_product-SameItems setup key (known p.products key) row p

or_new_pricing-SameItems :
    (setup : Setup) (key : Text) (found : Option ℕ) (row : CsvRow) (p : Processor)
    → Gives (λ out. SameItems p out.2) (or_new_pricing setup key found row p)
or_new_pricing-SameItems setup key (some id) row p = same p
or_new_pricing-SameItems setup key none row p =
    let m = get_data_for_table (setup.column_map pricing) row in
    Gives-and_then (λ a. Unit) (λ out. SameItems p out.2) m _ (Gives-all m)
      (λ a u. elim (Bool-cases (only_empty a.0)) [
        | inl e ↦ rw e (same p)
        | inr e ↦ rw e (
            Gives-and_then (λ b. Unit) (λ out. SameItems p out.2) (insert_pricing setup a.0 p) _
              (Gives-all (insert_pricing setup a.0 p))
              (λ b v. record { batch = refl; table = refl }))
      ])

create_pricing-SameItems :
    (setup : Setup) (row : CsvRow) (p : Processor)
    → Gives (λ out. SameItems p out.2) (create_pricing setup row p)
unfolding create_pricing
create_pricing-SameItems setup row p =
    let key = pricing_key row in or_new_pricing-SameItems setup key (known p.pricing key) row p

new_reservation-SameItems :
    (setup : Setup) (arn : Option Text) (is_fee : Bool) (row : CsvRow) (p : Processor)
    → Gives (λ out. SameItems p out.2) (new_reservation setup arn is_fee row p)
new_reservation-SameItems setup arn is_fee row p =
    let m = get_data_for_table (setup.column_map reservation) row in
    Gives-and_then (λ a. Unit) (λ out. SameItems p out.2) m _ (Gives-all m)
      (λ a u. elim (Bool-cases (only_empty a.0)) [
        | inl e ↦ rw e (same p)
        | inr e ↦ rw e (record { batch = refl; table = refl })
      ])

or_new_reservation-SameItems :
    (setup : Setup) (arn : Option Text) (is_fee : Bool) (found : Option ℕ) (row : CsvRow)
    (p : Processor)
    → Gives (λ out. SameItems p out.2) (or_new_reservation setup arn is_fee found row p)
or_new_reservation-SameItems setup arn true found row p =
    new_reservation-SameItems setup arn true row p
or_new_reservation-SameItems setup arn false (some id) row p = same p
or_new_reservation-SameItems setup arn false none row p =
    new_reservation-SameItems setup arn false row p

create_reservation-SameItems :
    (setup : Setup) (row : CsvRow) (p : Processor)
    → Gives (λ out. SameItems p out.2) (create_reservation setup row p)
unfolding create_reservation
create_reservation-SameItems setup row p =
    let m = line_item_type (lookup "lineItem/LineItemType" row) in
    Gives-and_then (λ a. Unit) (λ out. SameItems p out.2) m _ (Gives-all m)
      (λ a u. or_new_reservation-SameItems setup _ _ _ row p)

-- One more line item in the batch.
pub record OneMore (p p' : Processor) : Type 0 where
  pub item : LineItem
  pub batch : p'.line_items ≡ p.line_items ++ item ∷ []
  pub table : p'.tables.line_items ≡ p.tables.line_items

create_line_item-OneMore :
    (setup : Setup) (row : CsvRow) (ids : Ids) (p : Processor)
    → Gives (OneMore p) (create_line_item setup row ids p)
unfolding create_line_item
create_line_item-OneMore setup row ids p =
    let m = get_data_for_table (setup.column_map line_item) row in
    Gives-and_then (λ a. Unit) (OneMore p) m _ (Gives-all m)
      (λ a u. record { item = _; batch = refl; table = refl })

and_same : {p q r : Processor} → SameItems p q → SameItems q r → SameItems p r
and_same a b = record { batch = b.batch ∙ a.batch; table = b.table ∙ a.table }

and_more : {p q r : Processor} → SameItems p q → OneMore q r → OneMore p r
and_more a b = record {
  item = b.item;
  batch = b.batch ∙ ap (λ items. items ++ b.item ∷ []) a.batch;
  table = b.table ∙ a.table;
}

pub create_cost_entry_objects-OneMore :
    (setup : Setup) (row : CsvRow) (p : Processor)
    → Gives (λ out. OneMore p out.1) (create_cost_entry_objects setup row p)
unfolding create_cost_entry_objects
create_cost_entry_objects-OneMore setup row p =
    Gives-and_then (λ o. SameItems p o.2) (λ out. OneMore p out.1) (create_bill setup row p) _
      (create_bill-SameItems setup row p)
      (λ (i₁, r₁, p₁) s₁.
        Gives-and_then (λ o. SameItems p₁ o.1) (λ out. OneMore p out.1) (create_cost_entry r₁ i₁ p₁)
          _ (create_cost_entry-SameItems r₁ i₁ p₁)
          (λ (i₂, p₂) s₂.
            Gives-and_then (λ o. SameItems p₂ o.2) (λ out. OneMore p out.1)
              (create_product setup r₁ p₂) _ (create_product-SameItems setup r₁ p₂)
              (λ (i₃, r₃, p₃) s₃.
                Gives-and_then (λ o. SameItems p₃ o.2) (λ out. OneMore p out.1)
                  (create_pricing setup r₃ p₃) _ (create_pricing-SameItems setup r₃ p₃)
                  (λ (i₄, r₄, p₄) s₄.
                    Gives-and_then (λ o. SameItems p₄ o.2) (λ out. OneMore p out.1)
                      (create_reservation setup r₄ p₄) _ (create_reservation-SameItems setup r₄ p₄)
                      (λ (i₅, r₅, p₅) s₅.
                        Gives-and_then (OneMore p₅) (λ out. OneMore p out.1)
                          (create_line_item setup r₅ _ p₅) _
                          (create_line_item-OneMore setup r₅ _ p₅)
                          (λ p₆ more.
                            and_more (and_same (and_same (and_same (and_same s₁ s₂) s₃) s₄) s₅)
                              more))))))
