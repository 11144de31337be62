-- ===== src/Downloads/Promises.antt =====
-- What all downloaders of masu/external/report_downloader.py promise, and a repeated download by any
-- of them.
use masu.Prelude.{ℕ, String, ◌≡◌, Option, some, List, []}
use masu.Prelude.Options.{Gives, Gives-and_then, Gives-all, Gives-some}
use masu.Tables.Clean.{Text}
use masu.Payload.Files.{FilePath, FileSystem}
use masu.Downloads.Present.{Remains}
use masu.CurDownload.{S3Object, object}
use masu.Downloads.{DownloaderInterface, Local, fetch_all}
use masu.Downloads.Again.{Distinct, DownloaderLaws, fetch_all-again}
use masu.Downloads.Aws.{choose_report}
use masu.Downloads.Aws.Promised.{aws_downloader-laws}
use masu.Downloads.AwsLocal.Copies.{aws_local_downloader-laws}
use masu.Downloads.Ocp.{ocp_downloader-laws}
use masu.Downloads.Task.{
  DownloaderKind, aws, aws_local, ocp, set_downloader, Services, DownloadRequest, build,
  new_report_downloader,
}

-- No hash and no etag is the empty text.
pub record HasEtags (s : Services) : Type 0 where
  pub hashed : (text : Text) → s.ripemd160 text ≡ [] → ⊥
  pub tagged :
      (bucket : Text) (key : FilePath) (o : S3Object)
      → s.get_object bucket key ≡ object o
      → o.etag ≡ []
      → ⊥

module _ (manifest_id : Option ℕ) (reports paths : List FilePath) (l l' : Local)
    (later : FileSystem) where
  Again : DownloaderInterface → Type 0
  Again d =
      Distinct d reports
      → fetch_all d manifest_id reports l ≡ some (paths, l')
      → Remains l'.files later
      → fetch_all d manifest_id reports (record l' { files = later })
        ≡ some (paths, record l' { files = later })

  laws-Again : (d : DownloaderInterface) → DownloaderLaws d → Again d
  unfolding Again
  laws-Again d laws h e r = fetch_all-again d laws manifest_id reports paths l l' later h e r

  build-Again :
      (s : Services) (r : DownloadRequest) (kind : DownloaderKind)
      → HasEtags s
      → Gives Again (build s r kind)
  build-Again s r aws h =
      Gives-and_then (λ _. Unit) Again (choose_report r.report_name r.report_source s.definitions) _
        (Gives-all _)
        (λ report _. laws-Again _ (
          aws_downloader-laws _ report s.parse_cur r.provider_id r.now
            (λ key o e. h.tagged report.s3_bucket key o e)))
  build-Again s r aws_local h =
      laws-Again _
        (aws_local_downloader-laws s.ripemd160 _ s.parse_cur r.provider_id r.now h.hashed)
  build-Again s r ocp h = laws-Again _ (
      ocp_downloader-laws s.ripemd160 _ r.access_credential s.parse_details r.provider_id r.now
        h.hashed)

-- Of the downloader of any provider type: once `download_report` has fetched the files of a report,
-- all with distinct local names, nothing is transferred again while no file is removed: whatever the
-- files hold by then, the next run returns the same paths and writes over neither a file nor a row, if
-- no hash and no etag of an object is the empty text.
pub new_report_downloader-again :
    (s : Services) (r : DownloadRequest) (provider_type : String) (d : DownloaderInterface)
    (manifest_id : Option ℕ) (reports paths : List FilePath) (l l' : Local) (later : FileSystem)
    → HasEtags s
    → new_report_downloader s r provider_type ≡ some d
    → Distinct d reports
    → fetch_all d manifest_id reports l ≡ some (paths, l')
    → Remains l'.files later
    → fetch_all d manifest_id reports (record l' { files = later })
      ≡ some (paths, record l' { files = later })
unfolding new_report_downloader Again
new_report_downloader-again s r provider_type d manifest_id reports paths l l' later h e =
    Gives-some (Again manifest_id reports paths l l' later)
      (new_report_downloader s r provider_type) e
      (Gives-and_then (λ _. Unit) (Again manifest_id reports paths l l' later)
        (set_downloader provider_type) (build s r) (Gives-all _)
        (λ kind _. build-Again manifest_id reports paths l l' later s r kind h))
