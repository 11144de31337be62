-- ===== src/Payload/Found.antt =====
-- The downloader, after a payload has arrived.
use mathlib.Core.Option.{some-injective}
use masu.Prelude.{
  ℕ, ◌≡◌, refl, ap, sym, ◌∙◌, Bool, true, Option, some, List, [], ◌∷◌, ◌++◌, map, select, Eq, ◌==◌,
  ==-refl, nat_eq, pair_eq, list_eq, contains, lookup, Bool-cases, inl, inr,
}
use masu.Labels.{starts_with}
use masu.Tables.Clean.{Text}
use masu.Payload.Files.{
  FilePath, FileSystem, listdir, Month, Details, get_report_details, formatted, report_directory,
}
use masu.Payload.{Services, Archive, received, returned, Disk, archive_name, extract_payload}
use masu.Payload.Copies.{IsCopied}
use masu.Payload.Arrival.{Laid, extract_payload-Arrived}
use masu.Payload.Download.{get_manifest, get_report_for, reports_of}

-- A file that is there is listed.
pub listdir-contains :
    (directory : List Text) (name text : Text) (fs : FileSystem)
    → lookup (directory, name) fs ≡ some text
    → contains (listdir directory fs) name ≡ true
unfolding listdir lookup
listdir-contains directory name text [] h = cc
listdir-contains directory name text (((other, file), content) ∷ fs) h =
    elim (Bool-cases (directory == other)) [
      | inl same ↦ rw same (elim (Bool-cases (name == file)) [
        | inl is_file ↦ rw is_file refl
        | inr another ↦
            rw another (listdir-contains directory name text fs (rw (same, another) at h))
      ])
      | inr elsewhere ↦ rw elsewhere (listdir-contains directory name text fs (rw elsewhere at h))
    ]

select-contains :
    {A : Type 0} ⦃e : Eq A⦄ (test : A → Bool) (xs : List A) (a : A)
    → contains xs a ≡ true
    → test a ≡ true
    → contains (select test xs) a ≡ true
select-contains ⦃e⦄ test [] a h t = cc
select-contains ⦃e⦄ test (x ∷ xs) a h t = elim (Bool-cases (a == x)) [
  | inl same ↦ rw (rw ((e.beq_iff a x).0 same) at t, same) refl
  | inr other ↦
      let rest = select-contains test xs a (rw other at h) t in
      elim (Bool-cases (test x)) [ inl keep ↦ rw (keep, other) rest | inr drop ↦ rw drop rest ]
]

map-contains :
    (directory : List Text) (names : List Text) (name : Text)
    → contains names name ≡ true
    → contains {A = FilePath} (map (λ file. (directory, file)) names) (directory, name) ≡ true
map-contains directory [] name h = cc
map-contains directory (other ∷ names) name h =
    rw (==-refl directory) (elim (Bool-cases (name == other)) [
      | inl same ↦ rw same refl
      | inr another ↦ rw another (map-contains directory names name (rw another at h))
    ])

reports_of-contains :
    (uuid : Option Text) (c : ℕ) (rest name text : Text) (directory : List Text) (fs : FileSystem)
    → uuid ≡ some (c ∷ rest)
    → starts_with (c ∷ rest) name ≡ true
    → lookup (directory, name) fs ≡ some text
    → contains {A = FilePath} (reports_of uuid directory fs) (directory, name) ≡ true
reports_of-contains uuid c rest name text directory fs e prefix found = rw e (
    map-contains directory (select (starts_with (c ∷ rest)) (listdir directory fs)) name (
      select-contains (starts_with (c ∷ rest)) (listdir directory fs) name
        (listdir-contains directory name text fs found) prefix))

-- What the downloader finds of a report: the paths, and a file among them with the payload's content.
pub record Downloads (s : Services) (url : Text) (details : Details) (fs : FileSystem) (name : Text)
    : Type 0 where
  pub date : Month
  pub is_dated : details.date ≡ some date
  pub reports : List FilePath
  pub is_found : get_report_for s.parse (formatted details.cluster_id) date fs ≡ some reports
  pub is_listed :
      contains reports (report_directory (formatted details.cluster_id) date, name) ≡ true
  pub text : Text
  pub is_fetched : s.get url ≡ received text
  pub archive : Archive
  pub is_unpacked : s.untar text ≡ some archive
  pub subdirectory : List Text
  pub copy :
      IsCopied
        (archive.files ++ (([], archive_name), text) ∷ [])
        fs
        subdirectory
        (report_directory (formatted details.cluster_id) date)
        name

Laid-get_manifest :
    (parse : Text → Option Details) (payload : FileSystem) (details : Details) (fs : FileSystem)
    (l : Laid parse payload details fs)
    → get_manifest parse (formatted details.cluster_id) l.date fs ≡ some (some details)
unfolding get_manifest get_report_details
Laid-get_manifest parse payload details fs l =
    let same =
      some-injective l.manifest.text l.manifest_text (sym l.manifest.sent ∙ l.manifest_sent) in
    rw (l.manifest.laid, same, l.is_read) refl

-- Once `extract_payload` has returned the details of a report, the downloader of its cluster finds for
-- its month every file that the manifest lists and whose name starts with the report's uuid, and the
-- file is as it was in the payload.
pub extract_payload-get_report_for :
    (s : Services) (url : Text) (d d' : Disk) (details : Details) (c : ℕ) (rest : Text)
    (files : List Text) (name : Text)
    → extract_payload s url d ≡ (returned details, d')
    → details.uuid ≡ some (c ∷ rest)
    → details.files ≡ some files
    → contains files name ≡ true
    → starts_with (c ∷ rest) name ≡ true
    → Downloads s url details d'.files name
unfolding get_report_for
extract_payload-get_report_for s url d d' details c rest files name e uuid listed has prefix =
    let a = extract_payload-Arrived s url d d' details e in
    let l = a.laid in
    let directory = report_directory (formatted details.cluster_id) l.date in
    let same = some-injective l.files files (sym l.lists_files ∙ listed) in
    let copy = l.copies name (ap (λ names. contains names name) same ∙ has) in
    record {
      date = l.date;
      is_dated = l.is_dated;
      reports = reports_of details.uuid directory d'.files;
      is_found = rw (Laid-get_manifest s.parse _ details d'.files l) refl;
      is_listed =
          reports_of-contains details.uuid c rest name copy.text directory d'.files uuid prefix
            copy.laid;
      text = a.text;
      is_fetched = a.is_fetched;
      archive = a.archive;
      is_unpacked = a.is_unpacked;
      subdirectory = l.subdirectory;
      copy = copy;
    }
