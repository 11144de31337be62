-- ===== src/AwsReport/Row/Memory.antt =====
-- The memory of a product in a row that several tables are read off: `_get_data_for_table` splits the
-- value in the row itself.
use masu.Prelude.{
  ℕ, ◌≡◌, refl, ap, sym, String, false, Option, none, some, List, [], ◌∷◌, ◌==◌, nat_eq, string_eq,
  insert, lookup-insert, Bool-cases, inl, inr,
}
use masu.Labels.{split, into_first}
use masu.Tables.Clean.{Text}
use masu.AwsReport.Row.{CsvRow, column_value, split_memory, mapped, get_data_for_table}

abbrev first_part : List Text → Text
first_part [] = []
first_part (part ∷ parts) = part

-- The first part of a text has no separator, and is one part itself.
split-into_first :
    (sep c : ℕ) (parts : List Text) (part : Text) (others : List Text)
    → (c == sep) ≡ false
    → ((p : Text) (ps : List Text) → parts ≡ p ∷ ps → split sep p ≡ p ∷ [])
    → into_first c parts ≡ part ∷ others
    → split sep part ≡ part ∷ []
unfolding split
split-into_first sep c [] part others other h e = rw (sym (ap first_part e), other) refl
split-into_first sep c (p ∷ ps) part others other h e =
    rw (sym (ap first_part e), other, h p ps refl) refl

pub split-first :
    (sep : ℕ) (text part : Text) (others : List Text)
    → split sep text ≡ part ∷ others
    → split sep part ≡ part ∷ []
unfolding split
split-first sep [] part others e = rw (sym (ap first_part e)) refl
split-first sep (c ∷ text) part others e = elim (Bool-cases (c == sep)) [
  | inl same ↦ rw (sym (ap first_part (rw same at e))) refl
  | inr other ↦
      split-into_first sep c (split sep text) part others other (split-first sep text)
        (rw other at e)
]

-- The row after the first call, and after the second.
abbrev pub put_memory : Text → Option Text → CsvRow → CsvRow
put_memory memory unit row =
    insert "product/memory_unit" unit (insert "product/memory" (some memory) row)

column_value-memory :
    (memory : Text) (unit : Option Text) (row : CsvRow)
    → column_value "product/memory" (put_memory memory unit row) ≡ some memory
column_value-memory memory unit row = rw (lookup-insert, lookup-insert) refl

column_value-memory_unit :
    (memory : Text) (unit : Option Text) (row : CsvRow)
    → column_value "product/memory_unit" (put_memory memory unit row) ≡ unit
column_value-memory_unit memory unit row = rw lookup-insert refl

-- Where the memory of a row is two words, the first call of `_get_data_for_table` leaves the second
-- word as the unit, and the next call on the same row leaves no unit, whatever the tables.
pub get_data_for_table-get_data_for_table :
    (first_map next_map : List (String × String)) (row : CsvRow) (text memory unit : Text)
    → column_value "product/memory" row ≡ some text
    → split b' ' text ≡ memory ∷ unit ∷ []
    → let left : CsvRow = put_memory memory (some unit) row in
      let last : CsvRow = put_memory memory none left in
      (get_data_for_table first_map row ≡ some (mapped first_map left, left))
      × (get_data_for_table next_map left ≡ some (mapped next_map last, last))
      × (column_value "product/memory_unit" left ≡ some unit)
      × (column_value "product/memory_unit" last ≡ none)
unfolding get_data_for_table split_memory
get_data_for_table-get_data_for_table first_map next_map row text memory unit e words =
    let left : CsvRow = put_memory memory (some unit) row in
    (
      rw (e, words) refl,
      rw
          (
            column_value-memory memory (some unit) row,
            split-first b' ' text memory (unit ∷ []) words,
          )
          refl,
      column_value-memory_unit memory (some unit) row,
      column_value-memory_unit memory none left,
    )
