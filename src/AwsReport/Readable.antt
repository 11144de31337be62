-- ===== src/AwsReport/Readable.antt =====
-- The rows that `create_cost_entry_objects` can read, whatever `_get_data_for_table` does to them.
use masu.Prelude.{
  lookup, ℕ, ◌≤◌, ◌≡◌, refl, String, Option, none, some, List, [], ◌∷◌, length, ◌==◌, nat_eq,
  pair_eq, list_eq, option_eq, string_eq, Bool-cases, inl, inr, arith, lookup-insert,
}
use masu.Prelude.Options.{Sure, Sure-and_then}
use masu.Labels.{split, into_first}
use masu.Tables.Clean.{Text}
use masu.AwsReport.Row.{
  CsvRow, column_value, split_words, split_memory_value, split_memory, mapped, get_data_for_table,
  get_cost_entry_time_interval,
}
use masu.AwsReport.Row.Memory.{put_memory, split-first}
use masu.AwsReport.Objects.{line_item_type}

into_first-cons : (c : ℕ) (parts : List Text) → into_first c parts ≡ [] → ⊥
into_first-cons c [] e = cc
into_first-cons c (part ∷ parts) e = cc

-- A text has a part at least.
split-cons : (sep : ℕ) (text : Text) → split sep text ≡ [] → ⊥
unfolding split
split-cons sep [] e = cc
split-cons sep (c ∷ text) e = elim (Bool-cases (c == sep)) [
  | inl same ↦ cc (rw same at e)
  | inr other ↦ into_first-cons c (split sep text) (rw other at e)
]

-- One or two words.
abbrev HasMemory : Option Text → Type 0
HasMemory none = Unit
HasMemory (some memory) = length (split b' ' memory) ≤ 2

-- `ends` gives the end of each interval.
module _ (ends : Text → Text) where
  -- A row of which everything can be read.
  pub record Readable (row : CsvRow) : Type 0 where
    pub start : Text
    pub interval :
        get_cost_entry_time_interval (column_value "identity/TimeInterval" row)
        ≡ some (start, ends start)
    pub memory : HasMemory (column_value "product/memory" row)
    pub item_type : Text
    pub has_type : line_item_type (lookup "lineItem/LineItemType" row) ≡ some item_type

  put_memory-Readable :
      (memory : Text) (unit : Option Text) (row : CsvRow)
      → split b' ' memory ≡ memory ∷ []
      → Readable row
      → Readable (put_memory memory unit row)
  put_memory-Readable memory unit row one r = record {
    start = r.start;
    interval = rw (lookup-insert, lookup-insert) r.interval;
    memory = rw (lookup-insert, lookup-insert) (rw one (omega arith));
    item_type = r.item_type;
    has_type = rw (lookup-insert, lookup-insert) r.has_type;
  }

  split_words-Readable :
      (text : Text) (words : List Text) (row : CsvRow)
      → split b' ' text ≡ words
      → length words ≤ 2
      → Readable row
      → Sure Readable (split_words words row)
  split_words-Readable text [] row e n r = split-cons b' ' text e
  split_words-Readable text (memory ∷ []) row e n r =
      put_memory-Readable memory none row (split-first b' ' text memory [] e) r
  split_words-Readable text (memory ∷ unit ∷ []) row e n r =
      put_memory-Readable memory (some unit) row (split-first b' ' text memory (unit ∷ []) e) r
  split_words-Readable text (memory ∷ unit ∷ word ∷ words) row e n r = omega (arith, n)

  split_memory_value-Readable :
      (value : Option Text) (row : CsvRow)
      → HasMemory value
      → Readable row
      → Sure Readable (split_memory_value value row)
  split_memory_value-Readable none row m r = r
  split_memory_value-Readable (some text) row m r =
      split_words-Readable text (split b' ' text) row refl m r

  pub get_data_for_table-Readable :
      (column_map : List (String × String)) (row : CsvRow)
      → Readable row
      → Sure
          (λ out. Readable out.1 × ((r : CsvRow) × (out.0 ≡ mapped column_map r)))
          (get_data_for_table column_map row)
  unfolding get_data_for_table split_memory
  get_data_for_table-Readable column_map row r =
      let value = column_value "product/memory" row in
      Sure-and_then Readable _ (split_memory_value value row) _
        (split_memory_value-Readable value row r.memory r) (λ row' r'. (r', (row', refl)))
