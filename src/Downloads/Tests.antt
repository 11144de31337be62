-- ===== src/Downloads/Tests.antt =====
-- Downloads of a report that lies on the disk.
use masu.Prelude.{
  ◌≡◌, refl, none, some, List, [], ◌∷◌, ◌++◌, nat_eq, list_eq, pair_eq, string_eq, option_eq,
  lookup, insert, true, false,
}
use masu.Provider.Status.{ProviderStatus, ready}
use masu.Tables.Clean.{Text}
use masu.ReportFiles.Columns.{points}
use masu.Payload.Files.{FilePath, FileSystem, Month, get_local_file_name, manifest_name}
use masu.Payload.Download.{download_file}
use masu.CurDownload.{no_such_key}
use masu.Downloads.{DownloadWorld, Local, DownloaderInterface, fetch, fetch_all}
use masu.Downloads.Aws.{ReportDefinition, choose_name, choose_report}
use masu.Downloads.AwsLocal.{
  Walked, LocalDownloader, extract_names, first_report_directory, has_daterange,
}
use masu.Downloads.AwsLocal.Copies.{Stale, download_local_file-Stale}
use masu.Downloads.Ocp.{ocp_downloader, directory_path}
use masu.Downloads.Task.{
  Services, DownloadRequest, set_downloader, new_report_downloader, TaskOutcome, number_of_months,
  download_files, download_files-TaskOutcome,
}
use masu.Downloads.Present.{Remains, insert-IsPresent_other}
use masu.Downloads.Promises.{HasEtags, new_report_downloader-again}

abbrev january : Month
january = record { year = 2019; month = 1 }

abbrev source : List Text
source = points "local" ∷ points "c1" ∷ points "20190101-20190201" ∷ []

abbrev report : FilePath
report = (source, points "u.csv")

abbrev files : FileSystem
files = (report, points "rows") ∷ ((source, manifest_name), points "{}") ∷ []

-- No AWS, and a manifest whose text does not matter; the hash puts a letter before its text.
abbrev services : Services
services = record {
  definitions = [];
  get_object = λ bucket key. no_such_key;
  free_space = 100;
  walked = [];
  parse_cur = λ text. none;
  parse_details = λ text. some (record {
    date = some january;
    uuid = some (points "u");
    cluster_id = some (points "c1");
    files = some (points "u.csv" ∷ []);
  });
  ripemd160 = λ text. b'h' ∷ text;
}

abbrev request : DownloadRequest
request = record {
  customer_name = points "a b";
  access_credential = points "c1";
  report_source = [];
  report_name = none;
  provider_id = 7;
  now = 50;
}

abbrev copy_name : Text
copy_name = points "20190101-20190201_u.csv"

abbrev directory : List Text
directory = directory_path (points "a_b") (points "c1")

abbrev fetched_once : Local
fetched_once = record {
  files =
      files
      ++ ((directory, copy_name), points "rows") ∷ ((directory, manifest_name), points "{}") ∷ [];
  rows = (copy_name, record { manifest_id = some 3; etag = some (b'h' ∷ copy_name) }) ∷ [];
}

abbrev downloader : DownloaderInterface
downloader =
    ocp_downloader services.ripemd160 (points "a_b") (points "c1") services.parse_details 7 50

first_download :
    fetch_all downloader (some 3) (report ∷ []) (record { files = files; rows = [] })
    ≡ some ((directory, copy_name) ∷ [], fetched_once)
unfolding fetch_all fetch download_file get_local_file_name lookup insert
first_download = refl

services-HasEtags : HasEtags services
services-HasEtags = record { hashed = λ text h. cc; tagged = λ bucket key o h k. cc }

-- The copy is changed by hand after the first download.
abbrev edited : FileSystem
edited = insert (directory, copy_name) (points "edited") fetched_once.files

edited-Remains : Remains fetched_once.files edited
edited-Remains path h =
    insert-IsPresent_other path (directory, copy_name) (points "edited") fetched_once.files h

new_report_downloader-again_example :
    fetch_all downloader (some 3) (report ∷ []) (record fetched_once { files = edited })
    ≡ some ((directory, copy_name) ∷ [], record fetched_once { files = edited })
unfolding new_report_downloader set_downloader
new_report_downloader-again_example =
    new_report_downloader-again services request "OCP" downloader (some 3) (report ∷ [])
      ((directory, copy_name) ∷ []) (record { files = files; rows = [] }) fetched_once edited
      services-HasEtags refl (tt, tt) first_download edited-Remains

abbrev failing : ProviderStatus
failing = record { status = ready; timestamp = 0; retries = 0; last_message = "none" }

abbrev world : DownloadWorld
world = record { files = files; manifests = record { rows = []; next_id = 3 } }

download_files-TaskOutcome_example :
    TaskOutcome 1 january "error" 60 failing
      (download_files services request "OCP" january 1 "error" 60 world [] failing)
unfolding number_of_months
download_files-TaskOutcome_example =
    download_files-TaskOutcome services request "OCP" january false true 2 "error" 60 world []
      failing

-- A directory of months under two directories.
abbrev walked : List Walked
walked =
    record { path = []; directories = points "p" ∷ []; files = [] }
    ∷ record { path = points "p" ∷ []; directories = points "n" ∷ []; files = [] }
    ∷ record {
      path = points "p" ∷ points "n" ∷ [];
      directories = points "20190101-20190201" ∷ [];
      files = [];
    }
    ∷ []

names : extract_names walked ≡ (some (points "p"), some (points "n"))
unfolding extract_names first_report_directory has_daterange
names = refl

abbrev local : LocalDownloader
local = record {
  customer_name = points "a";
  bucket_path = points "b" ∷ [];
  base_path = points "b" ∷ points "p" ∷ [];
  report_name = some (points "n");
}

download_local_file-Stale_example :
    Stale services.ripemd160 local
      (points "b" ∷ [], points "r.csv")
      (points "old")
      (points "new")
      (((points "b" ∷ [], points "r.csv"), points "old") ∷ [])
unfolding lookup
download_local_file-Stale_example =
    download_local_file-Stale services.ripemd160 local (points "b" ∷ [], points "r.csv")
      (points "old") (points "new") (((points "b" ∷ [], points "r.csv"), points "old") ∷ []) refl
      refl

abbrev definition : Text → Text → ReportDefinition
definition name bucket = record {
  report_name = name;
  s3_bucket = bucket;
  s3_prefix = [];
  compression = points "GZIP";
}

chosen :
    choose_report none
      (points "b")
      (definition (points "x") (points "a") ∷ definition (points "y") (points "b") ∷ [])
    ≡ some (definition (points "y") (points "b"))
unfolding choose_report choose_name
chosen = refl
