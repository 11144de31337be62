-- ===== src/OcpReport/Tests.antt =====
-- A report file of three rows, in batches of two.
use mathlib.Core.Option
use masu.Prelude.{
  ℕ, ◌+◌, ◌≡◌, refl, Option, none, some, List, [], ◌∷◌, All, arith, nat_eq, string_eq, pair_eq,
  option_eq, list_eq, lookup, insert, length,
}
use masu.Tables.{known, get_or_create, insert_on_conflict_do_nothing, find_id, update_mappings}
use masu.Tables.Clean.{Conversions, Text, Scalar, text}
use masu.OcpReport.Items.{item_key, line_item, CsvRow, TimedRow, read_times, cpu_mem_kind}
use masu.OcpReport.{
  stamp_eq, OcpTables, Setup, Processor, period_key, report_key, process, read_rows,
  merge_temp_table, in_conflict,
}
use masu.OcpReport.Sheet.{put_rows, sheet_of}
use masu.OcpReport.Rows.{process-put_rows}
use masu.OcpReport.Filed.{Filed}
use masu.OcpReport.Links.{RefersTo, IsIntact, process-RefersTo}

abbrev as_text : Text → Option Scalar
as_text value = some (text value)

abbrev python : Conversions
python = record { int = as_text; float = as_text; quantized = as_text }

-- An hour is one letter.
abbrev datetime_strptime : Text → Option ℕ
datetime_strptime [] = none
datetime_strptime (c ∷ []) = some c
datetime_strptime (c ∷ d ∷ more) = none

abbrev setup : Setup
setup = record {
  kind = cpu_mem_kind (("namespace", "namespace") ∷ ("pod", "pod") ∷ ("node", "node") ∷ []) [];
  cluster_id = "c";
  provider_id = 1;
  batch_size = 2;
  python = python;
  datetime_strptime = datetime_strptime;
}

abbrev row : ℕ → Text → CsvRow
row hour pod = record {
  report_period_start = some (0 ∷ []);
  report_period_end = some (720 ∷ []);
  interval_start = some (hour ∷ []);
  interval_end = some ((hour + 1) ∷ []);
  values = ("namespace", b'n' ∷ []) ∷ ("pod", pod) ∷ ("node", b'm' ∷ []) ∷ [];
}

abbrev rows : List CsvRow
rows = row 1 (b'p' ∷ []) ∷ row 1 (b'q' ∷ []) ∷ row 2 (b'p' ∷ []) ∷ row 2 (b'p' ∷ []) ∷ []

abbrev empty : Processor
empty = record {
  periods = record { processed = []; existing = [] };
  reports = record { processed = []; existing = [] };
  line_items = [];
  line_item_keys = [];
  tables = record {
    report_periods = record { rows = []; next_id = 1 };
    reports = record { rows = []; next_id = 1 };
    line_items = [];
  };
}

empty-IsIntact : IsIntact empty
unfolding known lookup
empty-IsIntact = record { periods = λ r id h. cc; reports = λ r id h. cc; batch = tt; stored = tt }

abbrev counts : OcpTables → ℕ × ℕ × ℕ
counts t = (length t.report_periods.rows, length t.reports.rows, length t.line_items)

-- One period, two reports, and a line item for each of three keys.
process-counts : Option.map counts (process setup rows empty) ≡ some (1, 2, 3)
unfolding process read_times lookup insert item_key line_item get_or_create report_key period_key
    insert_on_conflict_do_nothing find_id update_mappings merge_temp_table in_conflict
process-counts = refl

process-put_rows_example :
    process setup rows empty
    ≡ Option.map
        (λ timed. (put_rows setup timed (sheet_of setup.kind empty)).tables)
        (read_rows datetime_strptime rows)
process-put_rows_example = process-put_rows setup rows empty (omega arith)

-- A row without an end of its interval makes the run raise.
process_unreadable :
    process setup (record (row 1 (b'p' ∷ [])) { interval_end = none } ∷ rows) empty ≡ none
unfolding process read_times
process_unreadable = refl

abbrev timed_rows : List TimedRow
timed_rows = elim (read_rows datetime_strptime rows) [ none ↦ [] | some timed ↦ timed ]

process-RefersTo_example :
    (t : OcpTables) × (process setup rows empty ≡ some t)
    × All (RefersTo t) t.line_items
    × All (Filed setup t) timed_rows
unfolding read_rows read_times
process-RefersTo_example =
    process-RefersTo setup rows timed_rows empty (omega arith) empty-IsIntact refl refl
