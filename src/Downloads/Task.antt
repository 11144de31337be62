-- ===== src/Downloads/Task.antt =====
-- The choice of the downloader (masu/external/report_downloader.py) and the task that downloads the
-- reports of a provider (masu/processor/_tasks/download.py).
use masu.Prelude.{
  ℕ, zero, suc, ◌<◌, String, ◌≡◌, refl, ap, sym, ◌∙◌, arith, Bool, true, false, ◌||◌, ◌&&◌, not,
  Option, none, some, List, [], ◌∷◌, map, All, All-append, All-map, ◌==◌, string_eq, if◌then◌else◌,
  inl, inr, Option-cases,
}
use masu.Prelude.Options.{and_then, Gives, Gives-and_then, Gives-all, Gives-some}
use masu.Provider.{amazon_web_services, aws_local_service_provider, is_ocp}
use masu.Provider.Status.{ProviderStatus, ready, set_status, set_error}
use masu.Labels.{split}
use masu.Tables.Clean.{Text}
use masu.Payload.Files.{FilePath, Month, Details}
use masu.CurDownload.{Answer, Downloader}
use masu.Retention.Expiry.{months_before}
use masu.Downloads.{
  DownloadWorld, EtagRows, DownloaderInterface, ReportDictionary, dictionary, fetch_all,
  download_report, get_reports, ReportContext,
}
use masu.Downloads.Aws.{ReportDefinition, CurManifest, choose_report, aws_downloader}
use masu.Downloads.AwsLocal.{Walked, new_downloader, replace, aws_local_downloader}
use masu.Downloads.Ocp.{ocp_downloader}

pub data DownloaderKind : Type 0 where
  aws aws_local ocp : DownloaderKind

-- `_set_downloader`
unfoldable pub set_downloader : String → Option DownloaderKind
set_downloader provider_type =
    if provider_type == amazon_web_services
    then some aws
    else if provider_type == aws_local_service_provider
    then some aws_local
    else if is_ocp provider_type
    then some ocp
    else none

-- What is outside: AWS with the definitions of the account and the objects of a bucket, the local
-- directories, the parsers of the two kinds of manifests, and the hash.
pub record Services : Type 0 where
  pub definitions : List ReportDefinition
  pub get_object : Text → FilePath → Answer
  pub free_space : ℕ
  pub walked : List Walked
  pub parse_cur : Text → Option (Option CurManifest)
  pub parse_details : Text → Option Details
  pub ripemd160 : Text → Text

pub record DownloadRequest : Type 0 where
  pub customer_name : Text
  pub access_credential : Text
  pub report_source : Text
  pub report_name : Option Text
  pub provider_id : ℕ
  pub now : ℕ

module _ (s : Services) (r : DownloadRequest) where
  abbrev pub customer : Text
  customer = replace b' ' b'_' r.customer_name

  abbrev pub aws_files : ReportDefinition → Downloader
  aws_files report = record {
    customer_name = customer;
    bucket = r.report_source;
    free_space = s.free_space;
    get_object = s.get_object report.s3_bucket;
  }

  abbrev pub build : DownloaderKind → Option DownloaderInterface
  build aws =
      and_then (choose_report r.report_name r.report_source s.definitions)
        (λ report. some (aws_downloader (aws_files report) report s.parse_cur r.provider_id r.now))
  build aws_local = some (
      aws_local_downloader s.ripemd160
        (new_downloader r.customer_name (split b'/' r.report_source) r.report_name s.walked)
        s.parse_cur r.provider_id r.now)
  build ocp =
      some (
        ocp_downloader s.ripemd160 customer r.access_credential s.parse_details r.provider_id r.now)

  -- `ReportDownloader(...)`
  unfoldable pub new_report_downloader : String → Option DownloaderInterface
  unfolding set_downloader
  new_report_downloader provider_type = and_then (set_downloader provider_type) build

unfoldable pub number_of_months : (ingest_override reports_processed : Bool) → ℕ → ℕ
number_of_months ingest_override reports_processed initial_ingest_num_months =
    if ingest_override || not reports_processed then initial_ingest_num_months else 1

pub record Downloaded : Type 0 where
  pub reports : List ReportDictionary
  pub world : DownloadWorld
  pub rows : EtagRows

abbrev downloaded : List ReportDictionary × DownloadWorld × EtagRows → Downloaded
downloaded (reports, world, rows) = record { reports = reports; world = world; rows = rows }

-- The status that is written, and what the task returns; an error is raised again.
abbrev finished :
    (error : String)
    → ℕ
    → ProviderStatus
    → Option (List ReportDictionary × DownloadWorld × EtagRows)
    → Option Downloaded × ProviderStatus
finished error now status none = (none, set_error (some error) now status)
finished error now status (some out) = (some (downloaded out), set_status ready none now status)

-- `_get_report_files`, with the current month, the number of months, the text of an error if there is
-- one, and the time at which the status is written.
unfoldable pub download_files :
    Services
    → DownloadRequest
    → (provider_type : String) → Month
    → (months : ℕ) → String
    → ℕ
    → DownloadWorld
    → EtagRows
    → ProviderStatus
    → Option Downloaded × ProviderStatus
unfolding new_report_downloader
download_files s r provider_type current_month months error now w rows status =
    finished error now status (
      and_then (new_report_downloader s r provider_type)
        (λ d. get_reports d months current_month w rows))

-- A report of one of the last months.
pub record IsRecent (months : ℕ) (current_month : Month) (report : ReportDictionary) : Type 0 where
  pub back : ℕ
  pub is_before : back < months
  pub is_start : months_before back current_month ≡ some report.start_date

dictionaries :
    (context : ReportContext) (date_time : Month) (names : List FilePath)
    → All (λ report. report.start_date ≡ date_time) (map (dictionary context date_time) names)
dictionaries context date_time [] = tt
dictionaries context date_time (name ∷ names) = (refl, dictionaries context date_time names)

download_report-start_date :
    (d : DownloaderInterface) (date_time : Month) (w : DownloadWorld) (rows : EtagRows)
    → Gives
        (λ out. All (λ report. report.start_date ≡ date_time) out.0)
        (download_report d date_time w rows)
unfolding download_report
download_report-start_date d date_time w rows =
    Gives-and_then (λ _. Unit) (λ out. All (λ report. report.start_date ≡ date_time) out.0)
      (d.get_report_context_for_date date_time w) _ (Gives-all _)
      (λ (context, w') _.
        Gives-and_then (λ _. Unit) (λ out. All (λ report. report.start_date ≡ date_time) out.0)
          (fetch_all d context.manifest_id context.files (record { files = w'.files; rows = rows }))
          _ (Gives-all _) (λ (names, l) _. dictionaries context date_time names))

get_reports-IsRecent :
    (d : DownloaderInterface) (months : ℕ) (current_month : Month) (w : DownloadWorld)
    (rows : EtagRows)
    → Gives
        (λ out. All (IsRecent months current_month) out.0)
        (get_reports d months current_month w rows)
unfolding get_reports
get_reports-IsRecent d zero current_month w rows = tt
get_reports-IsRecent d (suc month) current_month w rows =
    let Recent : List ReportDictionary × DownloadWorld × EtagRows → Type 0 =
      λ out. All (IsRecent (suc month) current_month) out.0 in
    elim (Option-cases (months_before month current_month)) [
      | inl before ↦ rw before tt
      | inr (date_time, e) ↦ rw e (
          Gives-and_then (λ out. All (λ report. report.start_date ≡ date_time) out.0) Recent
            (download_report d date_time w rows) _ (download_report-start_date d date_time w rows)
            (λ first h.
              Gives-and_then (λ out. All (IsRecent month current_month) out.0) Recent
                (get_reports d month current_month first.1 first.2) _
                (get_reports-IsRecent d month current_month first.1 first.2)
                (λ rest k.
                  All-append _ first.0 rest.0
                    (All-map _ _ first.0
                      (λ report same. record {
                        back = month;
                        is_before = omega arith;
                        is_start = e ∙ ap some (sym same);
                      })
                      h)
                    (All-map _ _ rest.0
                      (λ report k. record {
                        back = k.back;
                        is_before = ground (arith, k.is_before);
                        is_start = k.is_start;
                      })
                      k))))
    ]

-- What a download task comes to: the status that it writes, and the months of its reports.
pub data TaskOutcome (months : ℕ) (current_month : Month) (error : String) (now : ℕ)
    (status : ProviderStatus) : Option Downloaded × ProviderStatus → Type 0 where
  succeeds :
      (out : Downloaded)
      → All (IsRecent months current_month) out.reports
      → TaskOutcome months current_month error now status
          (some out, set_status ready none now status)
  fails :
      TaskOutcome months current_month error now status (none, set_error (some error) now status)

outcome :
    (d : Option DownloaderInterface) (months : ℕ) (current_month : Month) (error : String) (now : ℕ)
    (w : DownloadWorld) (rows : EtagRows) (status : ProviderStatus)
    → TaskOutcome months current_month error now status
        (finished error now status (and_then d (λ d. get_reports d months current_month w rows)))
outcome none months current_month error now w rows status = fails
outcome (some d) months current_month error now w rows status =
    elim (Option-cases (get_reports d months current_month w rows)) [
      | inl e ↦ rw e fails
      | inr (out, e) ↦ rw e (
          succeeds (downloaded out) (
            Gives-some (λ out. All (IsRecent months current_month) out.0) _ e
              (get_reports-IsRecent d months current_month w rows)))
    ]

months_are :
    (ingest_override reports_processed : Bool) (initial : ℕ)
    → number_of_months ingest_override reports_processed initial
      ≡ (if not ingest_override && reports_processed then 1 else initial)
unfolding number_of_months
months_are true reports_processed initial = refl
months_are false true initial = refl
months_are false false initial = refl

-- The download task either returns reports, each of one of the last months that it was asked for, and
-- leaves the provider READY, or it raises and counts an error on the provider; a provider that is set
-- up is asked for the current month alone, unless the override is on.
pub download_files-TaskOutcome :
    (s : Services) (r : DownloadRequest) (provider_type : String) (current_month : Month)
    (ingest_override reports_processed : Bool) (initial : ℕ) (error : String) (now : ℕ)
    (w : DownloadWorld) (rows : EtagRows) (status : ProviderStatus)
    → TaskOutcome
        (if not ingest_override && reports_processed then 1 else initial)
        current_month
        error
        now
        status
        (download_files s r provider_type current_month
          (number_of_months ingest_override reports_processed initial)
          error
          now
          w
          rows
          status)
unfolding download_files
download_files-TaskOutcome s r provider_type current_month override set_up initial error now w rows
      status =
    rw (sym (months_are override set_up initial)) (
      outcome (new_report_downloader s r provider_type) (number_of_months override set_up initial)
        current_month error now w rows status)
