-- ===== src/CurDownload.antt =====
-- The download of cost and usage reports from S3
-- (masu/external/downloader/aws/aws_report_downloader.py).
pub mod Names
pub mod Current
mod Tests
use masu.Prelude.{
  ℕ, ◌+◌, Bool, true, false, ◌&&◌, ◌||◌, not, Option, none, some, List, [], ◌∷◌, ◌++◌, leb, ltb,
  is_some, ◌==◌, nat_eq, pair_eq, list_eq, option_eq, lookup, insert, if◌then◌else◌,
}
use masu.Tables.Clean.{Text}
use masu.Payload.Files.{FilePath, FileSystem}
use masu.CurDownload.Names.{get_local_file_name, is_compressed}

-- An object of the bucket: `size` is 0 where the answer has no length, and `isize` is the number in its
-- last four bytes.
pub record S3Object : Type 0 where
  pub etag : Text
  pub size : ℕ
  pub isize : ℕ
  pub content : Text

-- The answers of `get_object`.
pub data Answer : Type 0 where
  object : S3Object → Answer
  no_such_key client_error : Answer

-- What a downloader has from its construction, and the disk of its download path.
pub record Downloader : Type 0 where
  pub customer_name : Text
  pub bucket : Text
  pub free_space : ℕ
  pub get_object : FilePath → Answer

-- `no_file` is an AWSReportDownloaderNoFileError, `failed` an AWSReportDownloaderError.
pub data Download (A : Type 0) : Type 0 where
  done : A → Download A
  no_file failed : Download A

abbrev pub fits_inflated : Bool → S3Object → ℕ → Bool
fits_inflated true o free_space = leb o.isize free_space
fits_inflated false o free_space = true

-- `_check_size` with `check_inflate`; an object of no size raises.
unfoldable pub check_size : Downloader → FilePath → S3Object → Download Bool
check_size d key o =
    if ltb o.size 1
    then failed
    else done (ltb o.size d.free_space && fits_inflated (is_compressed key.1) o d.free_space)

abbrev data_dir : Text
data_dir = b't' ∷ b'm' ∷ b'p' ∷ []

abbrev aws_dir : Text
aws_dir = b'a' ∷ b'w' ∷ b's' ∷ []

unfoldable pub full_file_path : Downloader → FilePath → FilePath
full_file_path d key =
    (data_dir ∷ d.customer_name ∷ aws_dir ∷ d.bucket ∷ [], get_local_file_name key)

abbrev pub is_outdated : Option Text → Text → Option Text → Bool
is_outdated stored_etag etag file = not (some etag == stored_etag) || not (is_some file)

abbrev pub store : Bool → FilePath → S3Object → FileSystem → FileSystem
store true path o fs = insert path o.content fs
store false path o fs = fs

abbrev pub sized :
    Downloader
    → FilePath
    → S3Object
    → Option Text
    → FileSystem
    → Download Bool
    → Download (FilePath × Text × FileSystem)
sized d path o stored_etag fs (done true) =
    done (path, o.etag, store (is_outdated stored_etag o.etag (lookup path fs)) path o fs)
sized d path o stored_etag fs (done false) = failed
sized d path o stored_etag fs no_file = no_file
sized d path o stored_etag fs failed = failed

abbrev pub with_answer :
    Downloader
    → FilePath
    → Option Text
    → FileSystem
    → Answer
    → Download (FilePath × Text × FileSystem)
with_answer d key stored_etag fs no_such_key = no_file
with_answer d key stored_etag fs client_error = failed
with_answer d key stored_etag fs (object o) =
    sized d (full_file_path d key) o stored_etag fs (check_size d key o)

-- `download_file`: the path, the etag and the files.
unfoldable pub download_file :
    Downloader
    → FilePath
    → (stored_etag : Option Text) → FileSystem
    → Download (FilePath × Text × FileSystem)
unfolding check_size full_file_path
download_file d key stored_etag fs = with_answer d key stored_etag fs (d.get_object key)
