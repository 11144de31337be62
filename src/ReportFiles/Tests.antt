-- ===== src/ReportFiles/Tests.antt =====
-- Runs on a directory with two reports, and the columns of a usage report.
use mathlib.Core.List.{Perm, reverse, reverse_perm}
use masu.Prelude.{
  ℕ, zero, suc, ◌≡◌, ◌↔◌, refl, none, some, List, [], ◌∷◌, ◌++◌, nat_eq, list_eq, pair_eq, lookup,
  insert,
}
use masu.Ingest.{ReportStats}
use masu.Tables.Clean.{Text}
use masu.Payload.Files.{FileSystem, listdir}
use masu.CurDownload.Names.{findall}
use masu.ReportFiles.{
  StatsByName, open_row, Reader, scan_manifest, scan_report, scan_files, remove, remove_victims,
  remove_temp_cur_files,
}
use masu.ReportFiles.Leftovers.{Cleans, remove_temp_cur_files-Cleans}
use masu.ReportFiles.Columns.{
  storage_columns, cpu_mem_usage_columns, processor, ocp_cpu_mem_processor, ocp_storage_processor,
  set_processor, set_processor-Perm, points,
}

abbrev ones : ℕ → Text → Text
ones zero text = text
ones (suc n) text = b'1' ∷ ones n text

-- A UUID of ones that ends in the given digit.
abbrev uuid : ℕ → Text
uuid digit =
    ones 8 (b'-' ∷ ones 4 (b'-' ∷ ones 4 (b'-' ∷ b'9' ∷ ones 3 (b'-' ∷ ones 11 (digit ∷ [])))))

abbrev old_report : Text
old_report = uuid b'2' ++ points "-r.csv"

abbrev new_report : Text
new_report = uuid b'3' ++ points "-r.csv"

abbrev waiting_report : Text
waiting_report = uuid b'2' ++ points "-w.csv"

abbrev manifest_file : Text
manifest_file = points "manifest.json"

abbrev directory : List Text
directory = points "tmp" ∷ []

-- A manifest is its id here.
abbrev reader : Reader
reader = record { suffix = manifest_file; parse = λ text. some (some text) }

abbrev files : FileSystem
files =
    ((directory, old_report), [])
    ∷ ((directory, new_report), [])
    ∷ ((directory, waiting_report), [])
    ∷ ((directory, manifest_file), uuid b'3')
    ∷ (([], old_report), [])
    ∷ []

abbrev done : ReportStats
done = record {
  manifest_id = 1;
  last_started_datetime = some 10;
  last_completed_datetime = some 20;
}

abbrev stats : StatsByName
stats = (old_report, done) ∷ (new_report, done) ∷ []

removed_one :
    remove_temp_cur_files reader 2 directory files stats
    ≡ some (
      old_report ∷ [],
      ((directory, new_report), [])
          ∷ ((directory, waiting_report), [])
          ∷ ((directory, manifest_file), uuid b'3')
          ∷ (([], old_report), [])
          ∷ [],
      stats
          ++ (
            waiting_report,
            record {
              manifest_id = 2;
              last_started_datetime = none;
              last_completed_datetime = none;
            },
          )
            ∷ [],
    )
unfolding remove_temp_cur_files scan_files scan_manifest scan_report open_row remove_victims remove
    listdir findall lookup insert
removed_one = refl

remove_temp_cur_files-Cleans_example :
    Cleans reader 2 directory files stats old_report ([], old_report)
unfolding listdir findall lookup
remove_temp_cur_files-Cleans_example =
    remove_temp_cur_files-Cleans reader 2 directory files stats old_report ([], old_report)
      (refl, (refl, (refl, (refl, tt)))) refl

abbrev unnamed : Text
unnamed = points "r.csv"

set_processor-Perm_example :
    ((set_processor "OCP" (some (reverse storage_columns)) ≡ processor ocp_storage_processor)
      ↔ Perm (reverse storage_columns) storage_columns)
    × ((set_processor "OCP" (some (reverse storage_columns)) ≡ processor ocp_cpu_mem_processor)
        ↔ Perm (reverse storage_columns) cpu_mem_usage_columns)
set_processor-Perm_example = set_processor-Perm "OCP" (reverse storage_columns) refl refl

storage_reversed :
    set_processor "OCP" (some (reverse storage_columns)) ≡ processor ocp_storage_processor
storage_reversed =
    (set_processor-Perm "OCP" (reverse storage_columns) refl refl).0.1
      (reverse_perm storage_columns)
