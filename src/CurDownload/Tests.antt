-- ===== src/CurDownload/Tests.antt =====
-- The download of one compressed file.
use masu.Prelude.{
  zero, suc, ℕ, ◌≡◌, refl, inr, some, [], ◌∷◌, ◌++◌, nat_eq, pair_eq, list_eq, option_eq, lookup,
}
use masu.Tables.Clean.{Text}
use masu.Payload.Files.{FilePath, FileSystem}
use masu.CurDownload.Names.{findall, get_local_file_name}
use masu.CurDownload.{S3Object, object, Downloader, full_file_path}
use masu.CurDownload.Current.{Fits, IsCurrent, download_file-IsCurrent}

-- '11111111-1111-1111-9111-111111111111'
abbrev ones : ℕ → Text → Text
ones zero text = text
ones (suc n) text = b'1' ∷ ones n text

abbrev uuid : Text
uuid = ones 8 (b'-' ∷ ones 4 (b'-' ∷ ones 4 (b'-' ∷ b'9' ∷ ones 3 (b'-' ∷ ones 12 []))))

-- 'r.gz'
abbrev report_name : Text
report_name = b'r' ∷ b'.' ∷ b'g' ∷ b'z' ∷ []

abbrev key : FilePath
key = ((b'p' ∷ []) ∷ uuid ∷ [], report_name)

local_name_of_key : get_local_file_name key ≡ uuid ++ b'-' ∷ report_name
unfolding get_local_file_name findall
local_name_of_key = refl

abbrev report : S3Object
report = record { etag = b'e' ∷ []; size = 5; isize = 20; content = b'x' ∷ [] }

abbrev downloader : Downloader
downloader = record {
  customer_name = b'c' ∷ [];
  bucket = b'b' ∷ [];
  free_space = 100;
  get_object = λ k. object report;
}

report-Fits : Fits downloader key report
report-Fits = record { is_sized = refl; has_room = refl; has_inflated_room = inr refl }

abbrev other : FilePath
other = ([], b'o' ∷ [])

-- The file is not there yet.
abbrev files : FileSystem
files = (other, b'y' ∷ []) ∷ []

download_file-IsCurrent_example : IsCurrent downloader key report (some report.etag) files other
unfolding lookup full_file_path get_local_file_name findall
download_file-IsCurrent_example =
    download_file-IsCurrent downloader key report (some report.etag) files other refl report-Fits tt
      refl
