-- ===== src/Payload.antt =====
-- The arrival of OpenShift payloads (masu/external/kafka_msg_handler.py): each message of the upload
-- service names an archive, which is fetched, unpacked and laid where the downloader of
-- masu/external/downloader/ocp/ocp_report_downloader.py looks for it.
pub mod Files
pub mod Months
pub mod Copies
pub mod Arrival
pub mod Found
pub mod Queue
pub mod Confirmed
pub mod Stuck
pub mod Report
mod Tests
pub mod Download
use masu.Prelude.{
  ℕ, ◌+◌, Bool, true, false, ◌&&◌, ◌||◌, not, Option, none, some, List, [], ◌∷◌, ◌++◌, any, select,
  ◌==◌, nat_eq, pair_eq, list_eq, lookup, insert, if◌then◌else◌,
}
use masu.Labels.{is_within}
use masu.Tables.Clean.{Text}
use masu.Payload.Files.{
  FilePath, FileSystem, Month, month_date_range, Details, get_report_details, manifest_name,
  formatted, report_directory,
}

-- What `requests.get` gives: the content, an HTTP error, or another exception.
pub data Fetched : Type 0 where
  received : Text → Fetched
  http_error no_connection : Fetched

-- The names of an archive in order, and the files that `extractall` leaves.
pub record Archive : Type 0 where
  pub names : List FilePath
  pub files : List (FilePath × Text)

-- What the listener calls outside. `can_write` is for the temporary file, and `untar` gives nothing of
-- what is not an archive. `sends n` is whether the confirmation after `n` others is sent.
pub record Services : Type 0 where
  pub get : Text → Fetched
  pub can_write : Bool
  pub untar : Text → Option Archive
  pub parse : Text → Option Details
  pub sends : ℕ → Bool

-- `failed` is a KafkaMsgHandlerError, `raised` is any other exception.
pub data Extraction (A : Type 0) : Type 0 where
  returned : A → Extraction A
  failed raised : Extraction A

pub record Disk : Type 0 where
  pub files : FileSystem
  pub temp_dirs : List ℕ
  pub next_temp : ℕ

abbrev pub mkdtemp : Disk → ℕ × Disk
mkdtemp d = (
  d.next_temp,
  record { files = d.files; temp_dirs = d.next_temp ∷ d.temp_dirs; next_temp = d.next_temp + 1 },
)

abbrev pub rmtree : ℕ → Disk → Disk
rmtree temp d = record d { temp_dirs = select (λ other. not (other == temp)) d.temp_dirs }

-- `[manifest for manifest in files if 'manifest.json' in manifest]`
abbrev pub is_manifest : FilePath → Bool
is_manifest (directory, name) =
    any (is_within manifest_name) directory || is_within manifest_name name

unfoldable pub manifest_paths : List FilePath → List FilePath
manifest_paths names = select is_manifest names

-- A file that is not there raises a FileNotFoundError.
abbrev copy_next : Option Text → (Text → Bool × FileSystem) → FileSystem → Bool × FileSystem
copy_next none next fs = (false, fs)
copy_next (some text) next fs = next text

-- The copies of the report files, up to one that is not in the payload.
unfoldable pub copy_files :
    (payload : FileSystem) (subdirectory destination : List Text)
    → List Text
    → FileSystem
    → Bool × FileSystem
copy_files payload subdirectory destination [] fs = (true, fs)
copy_files payload subdirectory destination (report_file ∷ files) fs =
    copy_next (lookup (subdirectory, report_file) payload)
      (λ text.
        copy_files payload subdirectory destination files
          (insert (destination, report_file) text fs))
      fs

abbrev with_files : FileSystem → Disk → Disk
with_files fs d = record d { files = fs }

abbrev pub copied : ℕ → Details → Disk → Bool × FileSystem → Extraction Details × Disk
copied temp details d (true, fs) = (returned details, rmtree temp (with_files fs d))
copied temp details d (false, fs) = (failed, with_files fs d)

abbrev pub copy_report :
    ℕ
    → FileSystem
    → List Text
    → List Text
    → Details
    → Option (List Text)
    → Disk
    → Extraction Details × Disk
copy_report temp payload subdirectory destination details none d = (raised, d)
copy_report temp payload subdirectory destination details (some files) d =
    copied temp details d (copy_files payload subdirectory destination files d.files)

abbrev pub copy_manifest : List Text → Option Text → Disk → Disk
copy_manifest destination none d = d
copy_manifest destination (some text) d =
    with_files (insert (destination, manifest_name) text d.files) d

-- From the details on: a manifest without a date has no month, and one without files no copies.
abbrev pub place :
    ℕ → FileSystem → List Text → Details → Option Month → Disk → Extraction Details × Disk
place temp payload subdirectory details none d = (raised, d)
place temp payload subdirectory details (some date) d =
    let destination = report_directory (formatted details.cluster_id) date in
    let d' = copy_manifest destination (lookup (subdirectory, manifest_name) payload) d in
    copy_report temp payload subdirectory destination details details.files d'

abbrev pub read :
    ℕ → FileSystem → List Text → Option (Option Details) → Disk → Extraction Details × Disk
read temp payload subdirectory none d = (raised, d)
read temp payload subdirectory (some none) d = (raised, d)
read temp payload subdirectory (some (some details)) d =
    place temp payload subdirectory details details.date d

-- `manifest_path[0]` of no manifests raises an IndexError.
abbrev pub open_manifest :
    (Text → Option Details) → ℕ → FileSystem → List FilePath → Disk → Extraction Details × Disk
open_manifest parse temp payload [] d = (raised, d)
open_manifest parse temp payload ((subdirectory, name) ∷ paths) d =
    read temp payload subdirectory
      (get_report_details parse (lookup (subdirectory, manifest_name) payload)) d

abbrev pub archive_name : Text
archive_name =
    b'u' ∷ b's' ∷ b'a' ∷ b'g' ∷ b'e' ∷ b'.' ∷ b't' ∷ b'a' ∷ b'r' ∷ b'.' ∷ b'g' ∷ b'z' ∷ []

-- The archive lies among its own files.
abbrev pub unpack : Services → ℕ → Text → Option Archive → Disk → Extraction Details × Disk
unpack s temp text none d = (failed, rmtree temp d)
unpack s temp text (some archive) d =
    open_manifest s.parse temp (archive.files ++ (([], archive_name), text) ∷ [])
      (manifest_paths archive.names) d

abbrev pub fetched : Services → ℕ → Fetched → Disk → Extraction Details × Disk
fetched s temp http_error d = (failed, rmtree temp d)
fetched s temp no_connection d = (raised, d)
fetched s temp (received text) d =
    if s.can_write then unpack s temp text (s.untar text) d else (failed, rmtree temp d)

-- `extract_payload`
unfoldable pub extract_payload : Services → (url : Text) → Disk → Extraction Details × Disk
unfolding manifest_paths copy_files
extract_payload s url d = let (temp, d') = mkdtemp d in fetched s temp (s.get url) d'
