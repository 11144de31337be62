-- ===== src/Downloads/Aws.antt =====
-- The choice of a report, its manifest and its files (masu/external/downloader/aws/aws_report_downloader.py,
-- masu/util/aws/common.py). The download of one object is in CurDownload.
pub mod Promised
use mathlib.Core.Option.{some-injective}
use mathlib.Core.Path.{subst}
use masu.Prelude.{
  ℕ, ◌≡◌, refl, ap, Bool, true, false, ◌||◌, not, Option, none, some, List, [], ◌∷◌, ◌++◌, map,
  select, length, is_some, ◌==◌, ==-refl, nat_eq, list_eq, pair_eq, option_eq, lookup,
  if◌then◌else◌, Bool-cases, inl, inr,
}
use masu.Prelude.Options.{and_then, ◌>>=◌}
use masu.Tables.{Table}
use masu.Tables.Clean.{Text}
use masu.ReportFiles.Columns.{points}
use masu.Payload.Files.{FilePath, FileSystem, Month, month_date_range, strptime, first_of}
use masu.Payload.Download.{ManifestEntry, process_manifest_db_record}
use masu.CurDownload.Names.{get_local_file_name}
use masu.CurDownload.{
  Answer, object, no_such_key, client_error, S3Object, Downloader, Download, done, no_file, failed,
  check_size, full_file_path, is_outdated, store, sized, with_answer, download_file,
}
use masu.Downloads.{DownloadWorld, ReportContext, DownloaderInterface}
use masu.Downloads.Again.{DownloaderLaws}
use masu.Downloads.Present.{IsPresent, insert-IsPresent_other, insert-IsPresent}

-- A report definition of the account.
pub record ReportDefinition : Type 0 where
  pub report_name : Text
  pub s3_bucket : Text
  pub s3_prefix : List Text
  pub compression : Text

abbrev pub names_in_bucket : Text → List ReportDefinition → List Text
names_in_bucket bucket defs = map (λ r. r.report_name) (select (λ r. bucket == r.s3_bucket) defs)

-- The name that is given, or that of the first report of the bucket.
unfoldable pub choose_name : Option Text → Text → List ReportDefinition → Option Text
choose_name none bucket defs = first_of (names_in_bucket bucket defs)
choose_name (some []) bucket defs = first_of (names_in_bucket bucket defs)
choose_name (some (c ∷ name)) bucket defs = some (c ∷ name)

abbrev pub pop_report : List ReportDefinition → Option ReportDefinition
pop_report [] = none
pop_report (r ∷ []) = some r
pop_report (r ∷ s ∷ rest) = pop_report (s ∷ rest)

-- The report of `AWSReportDownloader(...)`; a MasuProviderError if there is none.
unfoldable pub choose_report : Option Text → Text → List ReportDefinition → Option ReportDefinition
unfolding choose_name
choose_report report_name bucket defs =
    let name = choose_name report_name bucket defs in
    pop_report (select (λ r. some r.report_name == name) defs)

-- A manifest of AWS; a key that it does not have is `none`.
pub record CurManifest : Type 0 where
  pub assembly_id : Option Text
  pub billing_period : Option Text
  pub report_keys : Option (List FilePath)

-- `_get_report_path` and the name of the manifest.
unfoldable pub manifest_key : ReportDefinition → Month → FilePath
manifest_key report date_time = (
  report.s3_prefix ++ report.report_name ∷ month_date_range date_time ∷ [],
  report.report_name ++ points "-Manifest.json",
)

-- The empty manifest is `none`, and so is a file that says the same.
abbrev pub read_manifest :
    (Text → Option (Option CurManifest))
    → FileSystem
    → Download (FilePath × Text × FileSystem)
    → Option (Option CurManifest × FileSystem)
read_manifest parse fs (done (path, etag, fs')) =
    and_then (and_then (lookup path fs') parse) (λ manifest. some (manifest, fs'))
read_manifest parse fs no_file = some (none, fs)
read_manifest parse fs failed = none

-- `strptime(text, '%Y%m%dT000000.000Z')`
unfoldable pub billing_month : Text → Option Month
billing_month (a ∷ b ∷ c ∷ d ∷ e ∷ f ∷ g ∷ h ∷ time) =
    if time == points "T000000.000Z" then strptime (a ∷ b ∷ c ∷ d ∷ e ∷ f ∷ g ∷ h ∷ []) else none
billing_month _ = none

abbrev pub num_of_keys : Option (List FilePath) → ℕ
num_of_keys none = 0
num_of_keys (some files) = length files

-- `_prepare_db_manifest_record`; a manifest without a billing period raises.
unfoldable pub prepare_cur_manifest :
    (provider_id now : ℕ) → CurManifest → Table ManifestEntry → Option (ℕ × Table ManifestEntry)
unfolding billing_month
prepare_cur_manifest provider_id now manifest t = do
  billing_str ← manifest.billing_period
  start ← billing_month billing_str
  some (
      process_manifest_db_record now
        (record {
          assembly_id = manifest.assembly_id;
          billing_period_start = start;
          num_processed_files = 0;
          num_total_files = num_of_keys manifest.report_keys;
          provider_id = provider_id;
          manifest_updated = now;
        })
        t)

-- The context of a manifest, with the path of each key; a manifest without keys makes the loop over
-- them raise.
unfoldable pub context_of_manifest :
    (provider_id now : ℕ)
    → (compression : Text) → (FilePath → FilePath)
    → Option CurManifest
    → DownloadWorld
    → Option (ReportContext × DownloadWorld)
unfolding prepare_cur_manifest
context_of_manifest provider_id now compression path_of none w =
    some
      (record { manifest_id = none; assembly_id = none; compression = compression; files = [] }, w)
context_of_manifest provider_id now compression path_of (some manifest) w = do
  (id, t) ← prepare_cur_manifest provider_id now manifest w.manifests
  files ← manifest.report_keys
  some (
    record {
      manifest_id = some id;
      assembly_id = manifest.assembly_id;
      compression = compression;
      files = map path_of files;
    },
    record w { manifests = t },
  )

-- Any exception of a download.
abbrev pub or_raise :
    Download (FilePath × Text × FileSystem) → Option (FilePath × Text × FileSystem)
or_raise (done out) = some out
or_raise no_file = none
or_raise failed = none

module _ (d : Downloader) (report : ReportDefinition) (parse : Text → Option (Option CurManifest))
    (provider_id now : ℕ) where
  -- `get_report_context_for_date`, with `_get_manifest`
  unfoldable pub get_cur_context : Month → DownloadWorld → Option (ReportContext × DownloadWorld)
  unfolding context_of_manifest manifest_key
  get_cur_context date_time w = do
    (manifest, files) ←
        read_manifest parse w.files (download_file d (manifest_key report date_time) none w.files)
    context_of_manifest provider_id now report.compression (λ key. key) manifest
        (record w { files = files })

  -- `AWSReportDownloader`
  abbrev pub aws_downloader : DownloaderInterface
  aws_downloader = record {
    get_report_context_for_date = get_cur_context;
    get_local_file_for_report = λ report. some (get_local_file_name report);
    download_file = λ key stored_etag fs. or_raise (download_file d key stored_etag fs);
  }
