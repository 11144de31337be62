-- ===== src/Downloads/AwsLocal.antt =====
-- The downloader of reports from a local directory
-- (masu/external/downloader/aws_local/aws_local_report_downloader.py).
pub mod Copies
use mathlib.Core.Option.{some-injective}
use mathlib.Core.Path.{subst}
use masu.Prelude.{
  ℕ, zero, suc, ◌≡◌, refl, ap, Bool, true, false, ◌&&◌, ◌||◌, Option, none, some, List, [], ◌∷◌,
  ◌++◌, map, any, leb, is_some, ◌==◌, ==-refl, nat_eq, list_eq, pair_eq, option_eq, lookup, insert,
  if◌then◌else◌, Bool-cases, Option-cases, lookup-insert, inl, inr,
}
use masu.Prelude.Options.{◌>>=◌}
use masu.Tables.Clean.{Text}
use masu.ReportFiles.Columns.{points}
use masu.Payload.Files.{FilePath, FileSystem, Month, month_date_range, formatted, last_of}
use masu.CurDownload.Names.{get_local_file_name, match_at, is_dash}
use masu.CurDownload.{Download, done, no_file}
use masu.Downloads.{DownloadWorld, ReportContext, DownloaderInterface}
use masu.Downloads.Again.{DownloaderLaws}
use masu.Downloads.Present.{IsPresent, insert-IsPresent_other, insert-IsPresent}
use masu.Downloads.Aws.{CurManifest, read_manifest, context_of_manifest, or_raise}

-- A directory of `os.walk`, by its parts below the bucket, with its directories and its files.
pub record Walked : Type 0 where
  pub path : List Text
  pub directories : List Text
  pub files : List Text

abbrev is_date_digit : ℕ → Bool
is_date_digit c = leb b'0' c && leb c b'9'

abbrev digits : ℕ → List (ℕ → Bool) → List (ℕ → Bool)
digits zero classes = classes
digits (suc n) classes = is_date_digit ∷ digits n classes

-- `re.findall('\d{8}-\d{8}', text)` is not empty.
unfoldable pub has_daterange : Text → Bool
has_daterange [] = false
has_daterange (c ∷ text) =
    is_some (match_at (digits 8 (is_dash ∷ digits 8 [])) (c ∷ text)) || has_daterange text

abbrev no_files : List Text → Bool
no_files [] = true
no_files (file ∷ files) = false

-- The first directory that has no files, and a directory of a month.
unfoldable pub first_report_directory : List Walked → List Text
unfolding has_daterange
first_report_directory [] = []
first_report_directory (w ∷ walked) =
    let rest = first_report_directory walked in
    if no_files w.files && any has_daterange w.directories then w.path else rest

abbrev pub without_last : List Text → List Text
without_last [] = []
without_last (part ∷ []) = []
without_last (part ∷ next ∷ parts) = part ∷ without_last (next ∷ parts)

-- `_extract_names`: the prefix, which is the last directory but one, and the name of the report.
unfoldable pub extract_names : List Walked → Option Text × Option Text
unfolding first_report_directory
extract_names walked =
    let parts = first_report_directory walked in (last_of (without_last parts), last_of parts)

-- `text.replace(old, new)` for one character each.
abbrev pub replace : ℕ → ℕ → Text → Text
replace old new text = map (λ c. if c == old then new else c) text

abbrev joined_by : ℕ → List Text → Text
joined_by c [] = []
joined_by c (part ∷ []) = part
joined_by c (part ∷ next ∷ parts) = part ++ c ∷ joined_by c (next ∷ parts)

pub record LocalDownloader : Type 0 where
  pub customer_name : Text
  pub bucket_path : List Text
  pub base_path : List Text
  pub report_name : Option Text

abbrev given_or : Option Text → Option Text → Option Text
given_or none name = name
given_or (some []) name = name
given_or (some (c ∷ given)) name = some (c ∷ given)

abbrev under : List Text → Option Text → List Text
under bucket none = bucket
under bucket (some []) = bucket
under bucket (some (c ∷ prefix)) = bucket ++ (c ∷ prefix) ∷ []

-- `AWSLocalReportDownloader(customer_name, ..., bucket, report_name)`
unfoldable pub new_downloader :
    (customer_name : Text) → (bucket : List Text) → Option Text → List Walked → LocalDownloader
unfolding extract_names
new_downloader customer_name bucket report_name walked =
    let (prefix, name) = extract_names walked in
    record {
      customer_name = replace b' ' b'_' customer_name;
      bucket_path = bucket;
      base_path = under bucket prefix;
      report_name = given_or report_name name;
    }

abbrev local_directory : LocalDownloader → List Text
local_directory d =
    points "tmp" ∷ d.customer_name ∷ points "aws-local" ∷ joined_by b'_' d.bucket_path ∷ []

abbrev pub local_path : LocalDownloader → FilePath → FilePath
local_path d key = (local_directory d, get_local_file_name key)

-- `shutil.copy2` of a file that is there.
abbrev pub copy_unless : Bool → FilePath → Text → FileSystem → FileSystem
copy_unless false path content fs = insert path content fs
copy_unless true path content fs = fs

abbrev pub with_source :
    (ripemd160 : Text → Text)
    → LocalDownloader
    → FilePath
    → Option Text
    → FileSystem
    → Option Text
    → Download (FilePath × Text × FileSystem)
with_source ripemd160 d key stored_etag fs none = no_file
with_source ripemd160 d key stored_etag fs (some content) =
    let etag = ripemd160 (get_local_file_name key) in
    let path : FilePath = local_path d key in
    done (
      path,
      etag,
      copy_unless (some etag == stored_etag && is_some (lookup path fs)) path content fs,
    )

-- `download_file`: the etag is a hash of the file's name.
unfoldable pub download_local_file :
    (ripemd160 : Text → Text)
    → LocalDownloader
    → FilePath
    → Option Text
    → FileSystem
    → Download (FilePath × Text × FileSystem)
download_local_file ripemd160 d key stored_etag fs =
    with_source ripemd160 d key stored_etag fs (lookup key fs)

-- `_get_report_path` and the name of the manifest.
unfoldable pub local_manifest_key : LocalDownloader → Month → FilePath
local_manifest_key d date_time = (
  d.base_path ++ formatted d.report_name ∷ month_date_range date_time ∷ [],
  formatted d.report_name ++ points "-Manifest.json",
)

abbrev key_below : List Text → FilePath → FilePath
key_below bucket key = (bucket ++ key.0, key.1)

module _ (ripemd160 : Text → Text) (d : LocalDownloader)
    (parse : Text → Option (Option CurManifest)) (provider_id now : ℕ) where
  -- `get_report_context_for_date`, with `_get_manifest`
  unfoldable pub get_local_context : Month → DownloadWorld → Option (ReportContext × DownloadWorld)
  unfolding local_manifest_key download_local_file
  get_local_context date_time w = do
    (manifest, files) ←
        read_manifest parse w.files
          (download_local_file ripemd160 d (local_manifest_key d date_time) none w.files)
    context_of_manifest provider_id now (points "GZIP") (key_below d.bucket_path) manifest
        (record w { files = files })

  -- `AWSLocalReportDownloader`
  abbrev pub aws_local_downloader : DownloaderInterface
  aws_local_downloader = record {
    get_report_context_for_date = get_local_context;
    get_local_file_for_report = λ report. some (get_local_file_name report);
    download_file =
        λ key stored_etag fs. or_raise (download_local_file ripemd160 d key stored_etag fs);
  }
