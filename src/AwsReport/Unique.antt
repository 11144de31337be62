-- ===== src/AwsReport/Unique.antt =====
-- `create_cost_entry_objects` returns on a row that can be read.
use mathlib.Core.Option.{some-injective}
use mathlib.Core.Path.{subst}
use masu.Prelude.{
  ℕ, ◌≡◌, refl, sym, true, Option, none, some, List, [], ◌∷◌, All, nat_eq, pair_eq, list_eq,
  option_eq, string_eq, Bool-cases, Option-cases, inl, inr, String, contains, lookup, ◌==◌,
}
use masu.Prelude.Options.{Sure, Sure-and_then}
use masu.Tables.{find_id, known}
use masu.Tables.Clean.{
  Text, Columns, same_columns, get_column, clean_data, equal_cells, Scalar, scalar_eq,
}
use masu.AwsReport.Readable.{Readable, get_data_for_table-Readable}
use masu.AwsReport.Row.{CsvRow, mapped, get_data_for_table, only_empty, pricing_key}
use masu.AwsReport.State.{Setup, Processor, pricing, line_item, cleaned}
use masu.AwsReport.Bills.{create_bill, create_cost_entry}
use masu.AwsReport.Objects.{
  create_product, create_pricing, create_reservation, or_new_pricing, new_pricing, insert_pricing,
  insert_pricing_unless, matches, matches_on,
}
use masu.AwsReport.Entries.{Ids, create_line_item, create_cost_entry_objects}
use masu.AwsReport.Returns.{
  find_id-weaker, SameEnds, create_bill-Sure, create_cost_entry-Sure, create_product-Sure,
  create_reservation-Sure,
}

-- Every column that a file can have of the pricing table is one of its unique columns.
abbrev pub KeyIsRow : Setup → Type 0
KeyIsRow setup =
    All (λ entry. contains setup.pricing_columns entry.1 ≡ true) (setup.column_map pricing)

equal_cells-eq : (x y : Option Scalar) → equal_cells x y ≡ true → (x == y) ≡ true
equal_cells-eq none y h = cc
equal_cells-eq (some a) y h = h

-- Rows that agree on unique columns agree on each of these.
same_columns-get_column :
    (columns : List String) (a b : Columns) (column : String)
    → contains columns column ≡ true
    → same_columns columns a b ≡ true
    → (get_column column a == get_column column b) ≡ true
unfolding same_columns
same_columns-get_column [] a b column h k = cc
same_columns-get_column (c ∷ columns) a b column h k =
    elim (Bool-cases (equal_cells (get_column c a) (get_column c b))) [
      | inr differ ↦ cc (rw differ at k)
      | inl agree ↦ elim (Bool-cases (column == c)) [
        | inl same ↦
            subst (λ x. (get_column x a == get_column x b) ≡ true)
              (sym ((string_eq.beq_iff column c).0 same))
              (equal_cells-eq (get_column c a) (get_column c b) agree)
        | inr other ↦ same_columns-get_column columns a b column (rw other at h) (rw agree at k)
      ]
    ]

same_columns-matches_on :
    (unique : List String) (a b columns : Columns)
    → same_columns unique a b ≡ true
    → All (λ entry. contains unique entry.0 ≡ true) columns
    → matches_on columns a b ≡ true
same_columns-matches_on unique a b [] k h = refl
same_columns-matches_on unique a b ((column, value) ∷ columns) k (h, hs) =
    rw
      (
        same_columns-get_column unique a b column h k,
        same_columns-matches_on unique a b columns k hs,
      )
      refl

lookup-All :
    (P : String → Type 0) (column_map : List (String × String)) (key column : String)
    → All (λ entry. P entry.1) column_map
    → lookup key column_map ≡ some column
    → P column
unfolding lookup
lookup-All P [] key column h e = cc
lookup-All P ((k, c) ∷ column_map) key column (h, hs) e = elim (Bool-cases (key == k)) [
  | inl same ↦ subst P (some-injective c column (rw same at e)) h
  | inr other ↦ lookup-All P column_map key column hs (rw other at e)
]

mapped-All :
    (P : String → Type 0) (column_map : List (String × String)) (row : CsvRow)
    → All (λ entry. P entry.1) column_map
    → All (λ entry. P entry.0) (mapped column_map row)
unfolding mapped
mapped-All P column_map [] h = tt
mapped-All P column_map ((key, value) ∷ row) h = elim (Option-cases (lookup key column_map)) [
  | inl absent ↦ rw absent (mapped-All P column_map row h)
  | inr (column, e) ↦ rw e (lookup-All P column_map key column h e, mapped-All P column_map row h)
]

cleaned-All :
    (P : String → Type 0) (setup : Setup) (row : CsvRow)
    → All (λ entry. P entry.0) row
    → All (λ entry. P entry.0) (cleaned setup pricing row)
unfolding clean_data
cleaned-All P setup [] h = tt
cleaned-All P setup (entry ∷ row) (h, hs) = (h, cleaned-All P setup row hs)

-- A row with the same unique columns has the same columns.
KeyIsRow-matches :
    (setup : Setup)
    → KeyIsRow setup
    → (row : CsvRow) (other : Columns)
    → same_columns setup.pricing_columns
        (cleaned setup pricing (mapped (setup.column_map pricing) row))
        other
      ≡ true
    → matches (cleaned setup pricing (mapped (setup.column_map pricing) row)) other ≡ true
KeyIsRow-matches setup k row other h =
    let in_key = λ (column : String). contains setup.pricing_columns column ≡ true in
    same_columns-matches_on setup.pricing_columns _ other _ h
      (cleaned-All in_key setup _ (mapped-All in_key (setup.column_map pricing) row k))

All-every : {A : Type 0} (P : A → Type 0) → ((a : A) → P a) → (xs : List A) → All P xs
All-every P h [] = tt
All-every P h (x ∷ xs) = (h x, All-every P h xs)

insert_pricing_unless-Sure :
    (setup : Setup) (columns : CsvRow) (p : Processor) (found : Option ℕ)
    → let row = cleaned setup pricing columns in
      ((other : Columns)
        → same_columns setup.pricing_columns row other ≡ true
        → matches row other ≡ true)
      → find_id (same_columns setup.pricing_columns row) p.tables.pricing.rows ≡ found
      → Sure (λ out. Unit) (insert_pricing_unless found row p.tables.pricing)
insert_pricing_unless-Sure setup columns p none k f = tt
insert_pricing_unless-Sure setup columns p (some id) k f =
    let row = cleaned setup pricing columns in
    let test = same_columns setup.pricing_columns row in
    Sure-and_then (λ i. Unit) (λ out. Unit) (find_id (matches row) p.tables.pricing.rows) _
      (find_id-weaker test (matches row) p.tables.pricing.rows id
        (All-every (λ (r : ℕ × Columns). test r.1 ≡ true → matches row r.1 ≡ true) (λ r. k r.1)
          p.tables.pricing.rows)
        f)
      (λ i u. tt)

module _ (ends : Text → Text) (setup : Setup) (key_is_row : KeyIsRow setup) where
  new_pricing-Sure :
      (key : Text) (row : CsvRow) (p : Processor)
      → Readable ends row
      → SameEnds ends p
      → Sure (λ out. Readable ends out.1 × SameEnds ends out.2) (new_pricing setup key row p)
  new_pricing-Sure key row p r h =
      Sure-and_then _ (λ out. Readable ends out.1 × SameEnds ends out.2)
        (get_data_for_table (setup.column_map pricing) row) _
        (get_data_for_table-Readable ends (setup.column_map pricing) row r)
        (λ out (r', (read, is_read)). elim (Bool-cases (only_empty out.0)) [
          | inl e ↦ rw e (r', h)
          | inr e ↦ rw e (
              Sure-and_then (λ u. Unit) (λ out. Readable ends out.1 × SameEnds ends out.2)
                (insert_pricing setup out.0 p) _
                (insert_pricing_unless-Sure setup out.0 p _
                  (subst
                    (λ columns.
                      (other : Columns)
                      → same_columns setup.pricing_columns (cleaned setup pricing columns) other
                        ≡ true
                      → matches (cleaned setup pricing columns) other ≡ true)
                    (sym is_read) (KeyIsRow-matches setup key_is_row read))
                  refl)
                (λ created u. (r', h)))
        ])

  or_new_pricing-Sure :
      (key : Text) (found : Option ℕ) (row : CsvRow) (p : Processor)
      → Readable ends row
      → SameEnds ends p
      → Sure
          (λ out. Readable ends out.1 × SameEnds ends out.2)
          (or_new_pricing setup key found row p)
  or_new_pricing-Sure key (some id) row p r h = (r, h)
  or_new_pricing-Sure key none row p r h = new_pricing-Sure key row p r h

  create_pricing-Sure :
      (row : CsvRow) (p : Processor)
      → Readable ends row
      → SameEnds ends p
      → Sure (λ out. Readable ends out.1 × SameEnds ends out.2) (create_pricing setup row p)
  unfolding create_pricing
  create_pricing-Sure row p r h =
      let key = pricing_key row in or_new_pricing-Sure key (known p.pricing key) row p r h

  create_line_item-Sure :
      (row : CsvRow) (ids : Ids) (p : Processor)
      → Readable ends row
      → SameEnds ends p
      → Sure (SameEnds ends) (create_line_item setup row ids p)
  unfolding create_line_item
  create_line_item-Sure row ids p r h =
      Sure-and_then _ (SameEnds ends) (get_data_for_table (setup.column_map line_item) row) _
        (get_data_for_table-Readable ends (setup.column_map line_item) row r) (λ out more. h)

  pub create_cost_entry_objects-Sure :
      (row : CsvRow) (p : Processor)
      → Readable ends row
      → SameEnds ends p
      → Sure (λ out. SameEnds ends out.1) (create_cost_entry_objects setup row p)
  unfolding create_cost_entry_objects
  create_cost_entry_objects-Sure row p r h =
      Sure-and_then _ _ (create_bill setup row p) _ (create_bill-Sure ends setup row p r h)
        (λ (i₁, r₁, p₁) (g₁, h₁).
          Sure-and_then _ _ (create_cost_entry r₁ i₁ p₁) _
            (create_cost_entry-Sure ends r₁ i₁ p₁ g₁ h₁)
            (λ (i₂, p₂) h₂.
              Sure-and_then _ _ (create_product setup r₁ p₂) _
                (create_product-Sure ends setup r₁ p₂ g₁ h₂)
                (λ (i₃, r₃, p₃) (g₃, h₃).
                  Sure-and_then _ _ (create_pricing setup r₃ p₃) _ (create_pricing-Sure r₃ p₃ g₃ h₃)
                    (λ (i₄, r₄, p₄) (g₄, h₄).
                      Sure-and_then _ _ (create_reservation setup r₄ p₄) _
                        (create_reservation-Sure ends setup r₄ p₄ g₄ h₄)
                        (λ (i₅, r₅, p₅) (g₅, h₅).
                          Sure-and_then (SameEnds ends) (λ out. SameEnds ends out.1)
                            (create_line_item setup r₅ _ p₅) _ (create_line_item-Sure r₅ _ p₅ g₅ h₅)
                            (λ p₆ h₆. h₆))))))
