-- ===== src/AwsReport/Row.antt =====
-- A row of an AWS report, as `csv.DictReader` gives it, and what is read off it.
pub mod Memory
use masu.Prelude.{
  ℕ, String, Bool, true, false, ◌&&◌, ◌||◌, not, Option, none, some, List, [], ◌∷◌, ◌++◌, map, ◌==◌,
  nat_eq, string_eq, lookup, insert, if◌then◌else◌,
}
use masu.Prelude.Options.{and_then}
use masu.Labels.{split, starts_with}
use masu.Tables.Clean.{Text}

-- A value is None where the row of the file is too short.
abbrev pub CsvRow : Type 0
CsvRow = List (String × Option Text)

abbrev pub or_none : Option (Option Text) → Option Text
or_none none = none
or_none (some value) = value

-- `row.get(column)`
abbrev pub column_value : String → CsvRow → Option Text
column_value column row = or_none (lookup column row)

-- The memory of a product and its unit; `memory, unit = ...` raises a ValueError on more than two
-- words.
abbrev pub split_words : List Text → CsvRow → Option CsvRow
split_words [] row = none
split_words (memory ∷ []) row =
    some (insert "product/memory_unit" none (insert "product/memory" (some memory) row))
split_words (memory ∷ unit ∷ []) row =
    some (insert "product/memory_unit" (some unit) (insert "product/memory" (some memory) row))
split_words (memory ∷ unit ∷ word ∷ words) row = none

abbrev pub split_memory_value : Option Text → CsvRow → Option CsvRow
split_memory_value none row = some row
split_memory_value (some memory) row = split_words (split b' ' memory) row

-- The first half of `_get_data_for_table`, which writes to the row that it is given.
unfoldable pub split_memory : CsvRow → Option CsvRow
split_memory row = split_memory_value (column_value "product/memory" row) row

abbrev put_column : Option String → Option Text → CsvRow → CsvRow
put_column none value rest = rest
put_column (some column) value rest = (column, value) ∷ rest

-- The columns of the row that the table has, under their names there.
unfoldable pub mapped : List (String × String) → CsvRow → CsvRow
mapped column_map [] = []
mapped column_map ((key, value) ∷ row) =
    put_column (lookup key column_map) value (mapped column_map row)

-- `_get_data_for_table`: the data, and the row as the call leaves it.
unfoldable pub get_data_for_table : List (String × String) → CsvRow → Option (CsvRow × CsvRow)
unfolding split_memory mapped
get_data_for_table column_map row =
    and_then (split_memory row) (λ row'. some (mapped column_map row', row'))

abbrev is_empty : Option Text → Bool
is_empty none = false
is_empty (some []) = true
is_empty (some (c ∷ text)) = false

abbrev all_empty : CsvRow → Bool
all_empty [] = true
all_empty ((column, value) ∷ row) = is_empty value && all_empty row

-- `set(data.values()) == {''}`
abbrev pub only_empty : CsvRow → Bool
only_empty [] = false
only_empty ((column, value) ∷ row) = is_empty value && all_empty row

abbrev pub pair_of : List Text → Option (Text × Text)
pair_of (start ∷ end ∷ []) = some (start, end)
pair_of _ = none

-- `_get_cost_entry_time_interval`; None has no `split`, and another number of parts does not unpack.
unfoldable pub get_cost_entry_time_interval : Option Text → Option (Text × Text)
unfolding split
get_cost_entry_time_interval none = none
get_cost_entry_time_interval (some interval) = pair_of (split b'/' interval)

-- 'None' for a value that is missing or empty.
abbrev pub or_none_text : Option Text → Text
or_none_text none = b'N' ∷ b'o' ∷ b'n' ∷ b'e' ∷ []
or_none_text (some []) = b'N' ∷ b'o' ∷ b'n' ∷ b'e' ∷ []
or_none_text (some (c ∷ text)) = c ∷ text

-- '{term}-{unit}'
unfoldable pub pricing_key : CsvRow → Text
pricing_key row =
    or_none_text (column_value "pricing/term" row)
    ++ b'-' ∷ or_none_text (column_value "pricing/unit" row)
