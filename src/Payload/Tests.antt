-- ===== src/Payload/Tests.antt =====
-- Two messages of the listener: a payload with one report, and one without a manifest.
use mathlib.Core.Option.{none}
use masu.Orchestrator.{Provider, Account, account_of, get_accounts_from_source}
use masu.Payload.Report.{
  AuthRow, ProviderRow, found, named_auth, provider_by_auth, auth_of,
  get_provider_uuid_from_cluster_id, get_account, process_report, BelongsTo, IsKnown,
  process_report-BelongsTo, process_report-unnamed,
}
use masu.Prelude.{
  ◌≡◌, refl, true, some, [], ◌∷◌, nat_eq, pair_eq, list_eq, ◌==◌, lookup, insert, if◌then◌else◌,
}
use masu.Tables.Clean.{Text}
use masu.Payload.Files.{Month, month_date_range, Details, get_report_details, manifest_name}
use masu.Payload.{
  Services, Archive, received, returned, Disk, mkdtemp, manifest_paths, copy_files, extract_payload,
}
use masu.Payload.Found.{Downloads, extract_payload-get_report_for}
use masu.Payload.Queue.{Message, Listener, stopped, process_messages}
use masu.Payload.Confirmed.{asked, Confirms, process_messages-Confirms}
use masu.Payload.Stuck.{NoManifest, process_messages-stopped}

abbrev december : Month
december = record { year = 2018; month = 12 }

-- 'u_r'
abbrev report_name : Text
report_name = b'u' ∷ b'_' ∷ b'r' ∷ []

abbrev details : Details
details = record {
  date = some december;
  uuid = some (b'u' ∷ []);
  cluster_id = some (b'c' ∷ []);
  files = some (report_name ∷ []);
}

abbrev good_archive : Archive
good_archive = record {
  names = ([], manifest_name) ∷ ([], report_name) ∷ [];
  files = (([], manifest_name), b'm' ∷ []) ∷ (([], report_name), b'x' ∷ []) ∷ [];
}

abbrev bad_archive : Archive
bad_archive = record { names = ([], report_name) ∷ []; files = (([], report_name), b'x' ∷ []) ∷ [] }

abbrev good : Text
good = b'1' ∷ []

abbrev bad : Text
bad = b'2' ∷ []

-- What a url names is the archive of the same name.
abbrev services : Services
services = record {
  get = λ url. received url;
  can_write = true;
  untar = λ text. if text == good then some good_archive else some bad_archive;
  parse = λ text. some details;
  sends = λ n. true;
}

abbrev empty : Disk
empty = record { files = []; temp_dirs = []; next_temp = 0 }

abbrev laid : Disk
laid = (extract_payload services good empty).1

extract_good : extract_payload services good empty ≡ (returned details, laid)
unfolding extract_payload manifest_paths copy_files get_report_details lookup insert
    month_date_range
extract_good = refl

extract_payload-get_report_for_example : Downloads services good details laid.files report_name
extract_payload-get_report_for_example =
    extract_payload-get_report_for services good empty laid details b'u' [] (report_name ∷ [])
      report_name extract_good refl refl refl refl

abbrev message : Text → Message
message url = record { is_hccm = true; url = some url; request_id = some url }

abbrev listener : Listener
listener = record { disk = empty; confirmed = []; reports = []; is_running = true }

process_messages-Confirms_example :
    Confirms
      (asked (message good ∷ message bad ∷ message good ∷ []))
      listener
      (process_messages services (message good ∷ message bad ∷ message good ∷ []) listener)
process_messages-Confirms_example =
    process_messages-Confirms services (message good ∷ message bad ∷ message good ∷ []) listener
      refl

bad-NoManifest : NoManifest services bad
unfolding manifest_paths
bad-NoManifest = record {
  text = bad;
  is_fetched = refl;
  is_written = refl;
  archive = bad_archive;
  is_unpacked = refl;
  is_missing = refl;
}

process_messages-stopped_example :
    process_messages services (message bad ∷ message good ∷ []) listener
    ≡ stopped (mkdtemp empty).1 listener
process_messages-stopped_example =
    process_messages-stopped services (message bad) (message good ∷ []) bad listener refl refl refl
      bad-NoManifest

abbrev cluster_auth : AuthRow
cluster_auth = record { id = 5; resource_name = b'c' ∷ b'1' ∷ [] }

abbrev cluster_row : ProviderRow
cluster_row = record { uuid = "u"; authentication_id = 5 }

abbrev cluster_provider : Provider
cluster_provider = record {
  uuid = "u";
  type = "OCP";
  provider_resource_name = b'c' ∷ b'1' ∷ [];
  schema_name = "s";
  bucket = none;
}

cluster-IsKnown :
    IsKnown (b'c' ∷ b'1' ∷ []) (cluster_auth ∷ []) (cluster_row ∷ []) (cluster_provider ∷ [])
unfolding named_auth provider_by_auth
cluster-IsKnown = record {
  auth = cluster_auth;
  provider = cluster_row;
  is_named = refl;
  has_id = refl;
  has_provider = refl;
  has_uuid = refl;
  has_account = refl;
}

process_report-BelongsTo_example :
    (account : Account) × (process_report
        (some (b'c' ∷ b'1' ∷ []))
        (cluster_auth ∷ [])
        (cluster_row ∷ [])
        (cluster_provider ∷ [])
      ≡ found account)
    × BelongsTo
        (b'c' ∷ b'1' ∷ [])
        (cluster_auth ∷ [])
        (cluster_row ∷ [])
        (cluster_provider ∷ [])
        account
process_report-BelongsTo_example =
    process_report-BelongsTo b'c' (b'1' ∷ []) (cluster_auth ∷ []) (cluster_row ∷ [])
      (cluster_provider ∷ []) cluster-IsKnown

-- A report without a cluster reaches the account of the only cluster that there is.
unnamed_report :
    process_report none (cluster_auth ∷ []) (cluster_row ∷ []) (cluster_provider ∷ [])
    ≡ found (account_of cluster_provider)
unfolding process_report get_provider_uuid_from_cluster_id auth_of provider_by_auth get_account
    get_accounts_from_source
unnamed_report = refl

process_report-unnamed_example :
    process_report none (cluster_auth ∷ []) (cluster_row ∷ []) (cluster_provider ∷ [])
    ≡ process_report
        (some (b'c' ∷ b'1' ∷ []))
        (cluster_auth ∷ [])
        (cluster_row ∷ [])
        (cluster_provider ∷ [])
process_report-unnamed_example =
    process_report-unnamed b'c' (b'1' ∷ []) 5 [] (cluster_row ∷ []) (cluster_provider ∷ [])
