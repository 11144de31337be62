-- ===== src/Payload/Download.antt =====
-- The downloader of OpenShift reports (masu/external/downloader/ocp/ocp_report_downloader.py) and its
-- base class.
use masu.Prelude.{
  ℕ, ◌+◌, Bool, true, false, ◌&&◌, ◌||◌, not, Option, none, some, List, [], ◌∷◌, ◌++◌, map, select,
  length, is_some, ◌==◌, nat_eq, pair_eq, list_eq, option_eq, lookup, insert, if◌then◌else◌,
}
use masu.Prelude.Options.{and_then, ◌>>=◌}
use masu.Labels.{starts_with}
use masu.Tables.Clean.{Text}
use masu.Tables.{Table, find_id}
use masu.Payload.Files.{
  FilePath, FileSystem, Month, month_date_range, billing_start, get_local_file_name, Details,
  get_report_details, listdir, manifest_name, report_directory,
}

abbrev pub with_prefix : Text → List Text → FileSystem → List FilePath
with_prefix latest_uuid directory fs =
    map (λ file. (directory, file)) (select (starts_with latest_uuid) (listdir directory fs))

abbrev pub reports_of : Option Text → List Text → FileSystem → List FilePath
reports_of none directory fs = []
reports_of (some []) directory fs = []
reports_of (some (c ∷ uuid)) directory fs = with_prefix (c ∷ uuid) directory fs

abbrev pub uuid_of : Option Details → Option Text
uuid_of none = none
uuid_of (some details) = details.uuid

unfoldable pub get_manifest :
    (Text → Option Details) → Text → Month → FileSystem → Option (Option Details)
get_manifest parse cluster_id date fs =
    get_report_details parse (lookup (report_directory cluster_id date, manifest_name) fs)

-- `get_report_for`
unfoldable pub get_report_for :
    (Text → Option Details) → Text → Month → FileSystem → Option (List FilePath)
unfolding get_manifest listdir
get_report_for parse cluster_id date fs =
    and_then (get_manifest parse cluster_id date fs)
      (λ manifest. some (reports_of (uuid_of manifest) (report_directory cluster_id date) fs))

abbrev pub downloads_dir : Text
downloads_dir = b't' ∷ b'm' ∷ b'p' ∷ []

abbrev pub copy : FilePath → FilePath → FileSystem → Option FileSystem
copy source target fs = and_then (lookup source fs) (λ content. some (insert target content fs))

-- The two copies, of the report and of the manifest beside it.
abbrev pub copy_if : Bool → FilePath → FilePath → FileSystem → Option FileSystem
copy_if false key target fs = some fs
copy_if true key target fs =
    and_then (copy key target fs) (copy (key.0, manifest_name) (target.0, manifest_name))

-- `download_file`: the path, the etag, which is a hash of the file's name, and the files. A source that
-- is not there raises a FileNotFoundError.
unfoldable pub download_file :
    (ripemd160 : Text → Text)
    → (customer_name cluster_id : Text) → FilePath
    → (stored_etag : Option Text) → FileSystem
    → Option (FilePath × Text × FileSystem)
download_file ripemd160 customer_name cluster_id key stored_etag fs = do
  local_filename ← get_local_file_name key
  let directory_path : List Text =
      downloads_dir ∷ customer_name ∷ (b'o' ∷ b'c' ∷ b'p' ∷ []) ∷ cluster_id ∷ []
  let full_file_path : FilePath = (directory_path, local_filename)
  let etag : Text = ripemd160 local_filename
  let is_new : Bool = not (stored_etag == some etag) || not (is_some (lookup full_file_path fs))
  fs' ← copy_if is_new key full_file_path fs
  some (full_file_path, etag, fs')

-- A row of the report manifests (masu/database/report_manifest_db_accessor.py).
pub record ManifestEntry : Type 0 where
  pub assembly_id : Option Text
  pub billing_period_start : Month
  pub num_total_files : ℕ
  pub num_processed_files : ℕ
  pub provider_id : ℕ
  pub manifest_updated : ℕ

abbrev pub same_manifest : Option Text → ℕ → ManifestEntry → Bool
same_manifest assembly_id provider_id entry =
    entry.assembly_id == assembly_id && entry.provider_id == provider_id

abbrev pub mark_manifest_as_updated : ℕ → ℕ → Table ManifestEntry → Table ManifestEntry
mark_manifest_as_updated id now t = record t {
  rows =
      map (λ row. if row.0 == id then (id, record row.1 { manifest_updated = now }) else row)
        t.rows;
}

abbrev pub add_unless : Option ℕ → ManifestEntry → Table ManifestEntry → ℕ × Table ManifestEntry
add_unless (some id) entry t = (id, t)
add_unless none entry t =
    (t.next_id, record { rows = t.rows ++ (t.next_id, entry) ∷ []; next_id = t.next_id + 1 })

-- `_process_manifest_db_record`
unfoldable pub process_manifest_db_record :
    (now : ℕ) → ManifestEntry → Table ManifestEntry → ℕ × Table ManifestEntry
process_manifest_db_record now entry t =
    let (id, t') =
      add_unless (find_id (same_manifest entry.assembly_id entry.provider_id) t.rows) entry t in
    (id, mark_manifest_as_updated id now t')

pub record Context : Type 0 where
  pub manifest_id : Option ℕ
  pub assembly_id : Option Text
  pub files : List FilePath

abbrev num_of_files : Option (List Text) → ℕ
num_of_files none = 0
num_of_files (some files) = length files

-- `_prepare_db_manifest_record`; a manifest without a date raises an AttributeError.
unfoldable pub prepare_db_manifest_record :
    (provider_id now : ℕ) → Details → Table ManifestEntry → Option (ℕ × Table ManifestEntry)
unfolding process_manifest_db_record
prepare_db_manifest_record provider_id now details t = do
  date ← details.date
  start ← billing_start (month_date_range date)
  some (
      process_manifest_db_record now
        (record {
          assembly_id = details.uuid;
          billing_period_start = start;
          num_processed_files = 0;
          num_total_files = num_of_files details.files;
          provider_id = provider_id;
          manifest_updated = now;
        })
        t)

abbrev prepare_if :
    ℕ → ℕ → Option Details → Table ManifestEntry → Option (Option ℕ × Table ManifestEntry)
prepare_if provider_id now none t = some (none, t)
prepare_if provider_id now (some details) t =
    and_then (prepare_db_manifest_record provider_id now details t)
      (λ out. some (some out.0, out.1))

-- `get_report_context_for_date`, without the compression, which is always UNCOMPRESSED.
unfoldable pub get_report_context_for_date :
    (Text → Option Details)
    → Text
    → (provider_id now : ℕ) → Month
    → FileSystem
    → Table ManifestEntry
    → Option (Context × Table ManifestEntry)
unfolding get_report_for get_manifest prepare_db_manifest_record
get_report_context_for_date parse cluster_id provider_id now date fs t = do
  manifest ← get_manifest parse cluster_id date fs
  (manifest_id, t') ← prepare_if provider_id now manifest t
  files ← get_report_for parse cluster_id date fs
  some (record { manifest_id = manifest_id; assembly_id = uuid_of manifest; files = files }, t')
