-- ===== src/Downloads.antt =====
-- The downloader of any provider type (masu/external/report_downloader.py) over the interface of
-- masu/external/downloader/downloader_interface.py, with the etags in the report statistics
-- (masu/database/report_stats_db_accessor.py). An exception is `none`.
pub mod Again
mod Present
pub mod Aws
pub mod AwsLocal
pub mod Ocp
pub mod Task
pub mod Promises
mod Tests
use masu.Prelude.{
  ℕ, zero, suc, ◌-◌, Bool, true, false, Option, none, some, List, [], ◌∷◌, ◌++◌, ◌==◌, nat_eq,
  list_eq, lookup, insert, map, if◌then◌else◌,
}
use masu.Prelude.Options.{and_then, ◌>>=◌}
use masu.Tables.{Table}
use masu.Tables.Clean.{Text}
use masu.Payload.Files.{FilePath, FileSystem, Month}
use masu.Payload.Download.{ManifestEntry}
use masu.Retention.Expiry.{months_before}

-- The files of the host and the manifests of the database.
pub record DownloadWorld : Type 0 where
  pub files : FileSystem
  pub manifests : Table ManifestEntry

-- What `get_report_context_for_date` returns.
pub record ReportContext : Type 0 where
  pub manifest_id : Option ℕ
  pub assembly_id : Option Text
  pub compression : Text
  pub files : List FilePath

-- `DownloaderInterface`, with the method of the same purpose that all downloaders have.
pub record DownloaderInterface : Type 0 where
  pub get_report_context_for_date : Month → DownloadWorld → Option (ReportContext × DownloadWorld)
  pub get_local_file_for_report : FilePath → Option Text
  pub download_file : FilePath → Option Text → FileSystem → Option (FilePath × Text × FileSystem)

-- A row of the report statistics, by the name of the local file.
pub record EtagRow : Type 0 where
  pub manifest_id : Option ℕ
  pub etag : Option Text

abbrev pub EtagRows : Type 0
EtagRows = List (Text × EtagRow)

-- `ReportStatsDBAccessor(local_file_name, manifest_id)`
abbrev pub row_or_new : Option ℕ → Option EtagRow → EtagRow
row_or_new manifest_id none = record { manifest_id = manifest_id; etag = none }
row_or_new manifest_id (some row) = row

-- `update(etag=etag)`: an empty text is no news.
abbrev pub set_etag : Text → EtagRow → EtagRow
set_etag [] row = row
set_etag (c ∷ etag) row = record row { etag = some (c ∷ etag) }

-- The dictionary of a report, without the provider id, which is the downloader's.
pub record ReportDictionary : Type 0 where
  pub file : FilePath
  pub compression : Text
  pub start_date : Month
  pub assembly_id : Option Text
  pub manifest_id : Option ℕ

pub record Local : Type 0 where
  pub files : FileSystem
  pub rows : EtagRows

abbrev pub dictionary : ReportContext → Month → FilePath → ReportDictionary
dictionary context date_time file_name = record {
  file = file_name;
  compression = context.compression;
  start_date = date_time;
  assembly_id = context.assembly_id;
  manifest_id = context.manifest_id;
}

module _ (downloader : DownloaderInterface) where
  -- The body of the loop of `download_report`: the path of the file.
  unfoldable pub fetch : Option ℕ → FilePath → Local → Option (FilePath × Local)
  fetch manifest_id report l = do
    local_file_name ← downloader.get_local_file_for_report report
    let row : EtagRow = row_or_new manifest_id (lookup local_file_name l.rows)
    (file_name, etag, files) ← downloader.download_file report row.etag l.files
    some (
      file_name,
      record { files = files; rows = insert local_file_name (set_etag etag row) l.rows },
    )

  unfoldable pub fetch_all : Option ℕ → List FilePath → Local → Option (List FilePath × Local)
  unfolding fetch
  fetch_all manifest_id [] l = some ([], l)
  fetch_all manifest_id (report ∷ reports) l = and_then (fetch manifest_id report l) (λ first.
      and_then (fetch_all manifest_id reports first.1) (λ rest. some (first.0 ∷ rest.0, rest.1)))

  unfoldable pub download_report :
      Month → DownloadWorld → EtagRows → Option (List ReportDictionary × DownloadWorld × EtagRows)
  unfolding fetch_all
  download_report date_time w rows = do
    (context, w') ← downloader.get_report_context_for_date date_time w
    (names, l) ←
        fetch_all context.manifest_id context.files (record { files = w'.files; rows = rows })
    some (map (dictionary context date_time) names, record w' { files = l.files }, l.rows)

  -- `get_reports(number_of_months)`: the oldest month first, the current one last.
  unfoldable pub get_reports :
      ℕ
      → Month
      → DownloadWorld
      → EtagRows
      → Option (List ReportDictionary × DownloadWorld × EtagRows)
  unfolding download_report
  get_reports zero current_month w rows = some ([], w, rows)
  get_reports (suc month) current_month w rows =
      and_then (months_before month current_month) (λ calculated_month.
        and_then (download_report calculated_month w rows) (λ first.
          and_then (get_reports month current_month first.1 first.2)
            (λ rest. some (first.0 ++ rest.0, rest.1, rest.2))))
