-- ===== src/ReportFiles.antt =====
-- The processor of a report file by provider type (masu/processor/report_processor.py, the constructor
-- in masu/processor/ocp/ocp_report_processor.py) and the removal of files of older reports, which is
-- the method `remove_temp_cur_files` of both processors (masu/processor/aws/aws_report_processor.py,
-- masu/processor/ocp/ocp_report_processor.py). An exception is `none`.
mod Removal
pub mod Scanning
pub mod Leftovers
pub mod Columns
mod Tests
use masu.Prelude.{
  ℕ, String, Bool, true, false, ◌&&◌, ◌||◌, not, Option, none, some, List, [], ◌∷◌, ◌++◌, is_some,
  ◌==◌, nat_eq, list_eq, pair_eq, option_eq, lookup, insert, if◌then◌else◌,
}
use masu.Prelude.Options.{and_then}
use masu.Ingest.{ReportStats}
use masu.Tables.Clean.{Text}
use masu.Notification.{ends_with}
use masu.Payload.Files.{FilePath, FileSystem, listdir}
use masu.CurDownload.Names.{extract_uuids_from_string, pop}

-- The rows of the report statistics, by file name.
abbrev pub StatsByName : Type 0
StatsByName = List (Text × ReportStats)

abbrev pub is_completed : Option ReportStats → Bool
is_completed none = false
is_completed (some stats) = is_some stats.last_completed_datetime

-- `ReportStatsDBAccessor(file, manifest_id)`: the row is made if there is none.
unfoldable pub open_row : ℕ → Text → StatsByName → StatsByName
open_row manifest_id file stats =
    if is_some (lookup file stats)
    then stats
    else insert file
        (record {
          manifest_id = manifest_id;
          last_started_datetime = none;
          last_completed_datetime = none;
        })
        stats

-- An entry of `victim_list`, without the date, which is not read.
pub record Victim : Type 0 where
  pub file : Text
  pub uuid : Text

-- `current_assembly_id` and `victim_list` after some of the files.
pub record Scan : Type 0 where
  pub current : Option Text
  pub victims : List Victim
  pub stats : StatsByName

-- The last UUID of a file's name; `pop` raises an IndexError if there is none.
abbrev pub last_uuid : Text → Option Text
last_uuid file = pop (extract_uuids_from_string file)

-- What differs between the processors: the end of a manifest's name, and its key that `parse` reads.
pub record Reader : Type 0 where
  pub suffix : Text
  pub parse : Text → Option (Option Text)

unfoldable pub scan_manifest : Reader → List Text → FileSystem → Text → Scan → Option Scan
scan_manifest r directory fs file scan =
    and_then (and_then (lookup (directory, file) fs) r.parse)
      (λ uuid. some (record scan { current = uuid }))

abbrev pub scan_completed : Bool → Text → Scan → Option Scan
scan_completed false file scan = some scan
scan_completed true file scan = and_then (last_uuid file) (λ uuid.
    some (record scan { victims = scan.victims ++ record { file = file; uuid = uuid } ∷ [] }))

unfoldable pub scan_report : ℕ → Text → Scan → Option Scan
unfolding open_row
scan_report manifest_id file scan =
    scan_completed (is_completed (lookup file scan.stats)) file
      (record scan { stats = open_row manifest_id file scan.stats })

abbrev pub scan_file : Reader → ℕ → List Text → FileSystem → Bool → Text → Scan → Option Scan
scan_file r manifest_id directory fs true file scan = scan_manifest r directory fs file scan
scan_file r manifest_id directory fs false file scan = scan_report manifest_id file scan

unfoldable pub scan_files : Reader → ℕ → List Text → FileSystem → List Text → Scan → Option Scan
scan_files r manifest_id directory fs [] scan = some scan
scan_files r manifest_id directory fs (file ∷ files) scan =
    and_then (scan_file r manifest_id directory fs (ends_with r.suffix file) file scan)
      (scan_files r manifest_id directory fs files)

-- `os.remove`
unfoldable pub remove : FilePath → FileSystem → FileSystem
remove path [] = []
remove path ((other, content) ∷ fs) =
    let rest = remove path fs in if path == other then rest else (other, content) ∷ rest

abbrev pub is_old : Option Text → Victim → Bool
is_old current victim = not (some victim.uuid == current)

-- The second loop: the names of the files that it has removed, and the files. A file that is gone
-- already raises a FileNotFoundError, which is caught.
unfoldable pub remove_victims :
    List Text → Option Text → List Victim → FileSystem → List Text × FileSystem
unfolding remove
remove_victims directory current [] fs = ([], fs)
remove_victims directory current (victim ∷ victims) fs =
    let path : FilePath = (directory, victim.file) in
    let removed = remove_victims directory current victims (remove path fs) in
    let kept = remove_victims directory current victims fs in
    if is_old current victim && is_some (lookup path fs)
    then (victim.file ∷ removed.0, removed.1)
    else kept

unfoldable pub remove_temp_cur_files :
    Reader
    → (manifest_id : ℕ) → (report_path : List Text) → FileSystem
    → StatsByName
    → Option (List Text × FileSystem × StatsByName)
unfolding scan_files remove_victims
remove_temp_cur_files r manifest_id directory fs stats =
    and_then
      (scan_files r manifest_id directory fs (listdir directory fs)
        (record { current = none; victims = []; stats = stats }))
      (λ scan.
        let (removed, fs') = remove_victims directory scan.current scan.victims fs in
        some (removed, fs', scan.stats))
