-- ===== src/Downloads/Again.antt =====
-- A repeated download (the loop of `download_report` in masu/external/report_downloader.py), over any
-- downloader that keeps what it promises.
use mathlib.Core.Option.{some-injective}
use mathlib.Core.Path.{subst}
use masu.Prelude.{
  ℕ, ◌≡◌, refl, ap, sym, ◌∙◌, false, Option, some, List, [], ◌∷◌, All, ◌==◌, ==-refl, nat_eq,
  list_eq, option_eq, lookup, insert, lookup-insert, Bool-cases, inl, inr,
}
use masu.Prelude.Options.{and_then-eq-some}
use masu.Tables.Clean.{Text}
use masu.Payload.Files.{FilePath, FileSystem}
use masu.Downloads.Present.{Remains}
use masu.Downloads.{
  DownloaderInterface, EtagRow, EtagRows, Local, row_or_new, set_etag, fetch, fetch_all,
}

-- What a downloader promises: `has` says that the local file of a report is there.
pub record DownloaderLaws (d : DownloaderInterface) : Type 1 where
  pub has : FilePath → FileSystem → Type 0
  pub leaves :
      (report : FilePath) (etag : Option Text) (fs fs' : FileSystem) (path : FilePath) (new : Text)
      → d.download_file report etag fs ≡ some (path, new, fs')
      → has report fs'
  pub keeps :
      (report other : FilePath) (etag : Option Text) (fs fs' : FileSystem) (path : FilePath)
      (new : Text)
      → d.download_file report etag fs ≡ some (path, new, fs')
      → has other fs
      → has other fs'
  pub lasts :
      (report : FilePath) (fs later : FileSystem)
      → Remains fs later
      → has report fs
      → has report later
  -- With the etag that a download gave, and while the file is there, nothing is transferred.
  pub settles :
      (report : FilePath) (etag : Option Text) (fs fs' later : FileSystem) (path : FilePath)
      (new : Text)
      → d.download_file report etag fs ≡ some (path, new, fs')
      → has report later
      → d.download_file report (some new) later ≡ some (path, new, later)
  pub named :
      (report : FilePath) (etag : Option Text) (fs fs' : FileSystem) (path : FilePath)
      → d.download_file report etag fs ≡ some (path, [], fs')
      → ⊥

-- A report whose row has the etag of its local file.
record IsFetched (d : DownloaderInterface) (laws : DownloaderLaws d) (report path : FilePath)
    (l : Local) : Type 0 where
  pub name : Text
  pub is_named : d.get_local_file_for_report report ≡ some name
  pub row : EtagRow
  pub has_row : lookup name l.rows ≡ some row
  pub etag : Text
  pub has_etag : row.etag ≡ some etag
  pub is_set : set_etag etag row ≡ row
  pub is_there : laws.has report l.files
  pub settled :
      (fs : FileSystem)
      → laws.has report fs
      → d.download_file report (some etag) fs ≡ some (path, etag, fs)

insert-same :
    (name : Text) (row : EtagRow) (rows : EtagRows)
    → lookup name rows ≡ some row
    → insert name row rows ≡ rows
unfolding lookup insert
insert-same name row [] h = cc
insert-same name row ((other, r) ∷ rows) h = elim (Bool-cases (name == other)) [
  | inl e ↦ rw e (ap (λ r. (other, r) ∷ rows) (sym (some-injective r row (rw e at h))))
  | inr e ↦ rw e (ap (λ rest. (other, r) ∷ rest) (insert-same name row rows (rw e at h)))
]

-- What a fetch does, with the name of the local file.
record Fetch (d : DownloaderInterface) (manifest_id : Option ℕ) (report path : FilePath)
    (l l' : Local) : Type 0 where
  pub name : Text
  pub is_named : d.get_local_file_for_report report ≡ some name
  pub etag : Text
  pub downloads :
      d.download_file report (row_or_new manifest_id (lookup name l.rows)).etag l.files
      ≡ some (path, etag, l'.files)
  pub rows_are :
      l'.rows ≡ insert name (set_etag etag (row_or_new manifest_id (lookup name l.rows))) l.rows

fetch-Fetch :
    (d : DownloaderInterface) (manifest_id : Option ℕ) (report path : FilePath) (l l' : Local)
    → fetch d manifest_id report l ≡ some (path, l')
    → Fetch d manifest_id report path l l'
unfolding fetch
fetch-Fetch d manifest_id report path l l' h =
    let (name, n, h1) = and_then-eq-some (d.get_local_file_for_report report) _ h in
    let row = row_or_new manifest_id (lookup name l.rows) in
    let ((file, etag, files), got, h2) =
      and_then-eq-some (d.download_file report row.etag l.files) _ h1 in
    let out = some-injective _ _ h2 in
    record {
      name = name;
      is_named = n;
      etag = etag;
      downloads = got ∙ ap (λ (x : FilePath × Local). some (x.0, etag, (x.1).files)) out;
      rows_are = sym (ap (λ (x : FilePath × Local). (x.1).rows) out);
    }

set_etag_idem :
    (etag : Text) (row : EtagRow) → set_etag etag (set_etag etag row) ≡ set_etag etag row
set_etag_idem [] row = refl
set_etag_idem (c ∷ etag) row = refl

set_etag-etag :
    (etag : Text) (row : EtagRow) → (etag ≡ [] → ⊥) → (set_etag etag row).etag ≡ some etag
set_etag-etag [] row h = absurd (h refl)
set_etag-etag (c ∷ etag) row h = refl

-- No two reports of a list have the same local name.
abbrev pub Distinct : DownloaderInterface → List FilePath → Type 0
Distinct d [] = Unit
Distinct d (report ∷ reports) =
    All (λ other. (d.get_local_file_for_report report == d.get_local_file_for_report other) ≡ false)
      reports
    × Distinct d reports

module _ (d : DownloaderInterface) (laws : DownloaderLaws d) (manifest_id : Option ℕ) where
  Fetch-IsFetched :
      (report path : FilePath) (l l' : Local)
      → Fetch d manifest_id report path l l'
      → IsFetched d laws report path l'
  Fetch-IsFetched report path l l' f =
      let row = row_or_new manifest_id (lookup f.name l.rows) in
      record {
        name = f.name;
        is_named = f.is_named;
        row = set_etag f.etag row;
        has_row =
            ap (lookup f.name) f.rows_are
            ∙ lookup-insert f.name f.name (set_etag f.etag row) l.rows
            ∙ rw (==-refl f.name) refl;
        etag = f.etag;
        has_etag = set_etag-etag f.etag row (λ e.
            laws.named report row.etag l.files l'.files path
              (f.downloads ∙ ap (λ t. some (path, t, l'.files)) e));
        is_set = set_etag_idem f.etag row;
        is_there = laws.leaves report row.etag l.files l'.files path f.etag f.downloads;
        settled =
            λ fs h. laws.settles report row.etag l.files l'.files fs path f.etag f.downloads h;
      }

  IsFetched-keeps :
      (report path other file : FilePath) (l l' : Local)
      → (d.get_local_file_for_report report == d.get_local_file_for_report other) ≡ false
      → Fetch d manifest_id other file l l'
      → IsFetched d laws report path l
      → IsFetched d laws report path l'
  IsFetched-keeps report path other file l l' distinct f k =
      let row = row_or_new manifest_id (lookup f.name l.rows) in
      record {
        name = k.name;
        is_named = k.is_named;
        row = k.row;
        has_row =
            ap (lookup k.name) f.rows_are
            ∙ lookup-insert k.name f.name (set_etag f.etag row) l.rows
            ∙ rw (rw (k.is_named, f.is_named) at distinct) k.has_row;
        etag = k.etag;
        has_etag = k.has_etag;
        is_set = k.is_set;
        is_there =
            laws.keeps other report row.etag l.files l'.files file f.etag f.downloads k.is_there;
        settled = k.settled;
      }

  fetch-again :
      (report path : FilePath) (l : Local) (later : FileSystem)
      → IsFetched d laws report path l
      → laws.has report later
      → fetch d manifest_id report (record l { files = later })
        ≡ some (path, record l { files = later })
  unfolding fetch
  fetch-again report path l later k there =
      let same =
        ap (λ etag. d.download_file report etag later) k.has_etag ∙ k.settled later there in
      rw (k.is_named, k.has_row, same)
        (ap (λ rows. some (path, record { files = later; rows = rows }))
          (ap (λ row. insert k.name row l.rows) k.is_set
            ∙ insert-same k.name k.row l.rows k.has_row))

  -- Every report of a list is fetched.
  abbrev AllFetched : List FilePath → List FilePath → Local → Type 0
  AllFetched [] [] l = Unit
  AllFetched (report ∷ reports) (path ∷ paths) l =
      IsFetched d laws report path l × AllFetched reports paths l
  AllFetched _ _ l = ⊥

  fetch_all-keeps :
      (report path : FilePath) (reports paths : List FilePath) (l l' : Local)
      → All
          (λ other.
            (d.get_local_file_for_report report == d.get_local_file_for_report other) ≡ false)
          reports
      → fetch_all d manifest_id reports l ≡ some (paths, l')
      → IsFetched d laws report path l
      → IsFetched d laws report path l'
  unfolding fetch_all
  fetch_all-keeps report path [] paths l l' h e k =
      subst (IsFetched d laws report path)
        (ap (λ (x : List FilePath × Local). x.1) (some-injective _ _ e)) k
  fetch_all-keeps report path (other ∷ reports) paths l l' (h, hs) e k =
      let ((file, mid), first, e1) = and_then-eq-some (fetch d manifest_id other l) _ e in
      let ((files, out), rest, e2) = and_then-eq-some (fetch_all d manifest_id reports mid) _ e1 in
      subst (IsFetched d laws report path)
        (ap (λ (x : List FilePath × Local). x.1) (some-injective _ _ e2))
        (fetch_all-keeps report path reports files mid out hs rest (
          IsFetched-keeps report path other file l mid h
            (fetch-Fetch d manifest_id other file l mid first) k))

  fetch_all-AllFetched :
      (reports paths : List FilePath) (l l' : Local)
      → Distinct d reports
      → fetch_all d manifest_id reports l ≡ some (paths, l')
      → AllFetched reports paths l'
  unfolding fetch_all
  fetch_all-AllFetched [] paths l l' h e =
      subst (λ (x : List FilePath × Local). AllFetched [] x.0 x.1) (some-injective _ _ e) tt
  fetch_all-AllFetched (report ∷ reports) paths l l' (h, hs) e =
      let ((file, mid), first, e1) = and_then-eq-some (fetch d manifest_id report l) _ e in
      let ((files, out), rest, e2) = and_then-eq-some (fetch_all d manifest_id reports mid) _ e1 in
      subst (λ (x : List FilePath × Local). AllFetched (report ∷ reports) x.0 x.1)
        (some-injective _ _ e2)
        (
          fetch_all-keeps report file reports files mid out h rest (
              Fetch-IsFetched report file l mid
                (fetch-Fetch d manifest_id report file l mid first)),
          fetch_all-AllFetched reports files mid out hs rest,
        )

  AllFetched-again :
      (reports paths : List FilePath) (l : Local) (later : FileSystem)
      → Remains l.files later
      → AllFetched reports paths l
      → fetch_all d manifest_id reports (record l { files = later })
        ≡ some (paths, record l { files = later })
  unfolding fetch_all
  AllFetched-again [] [] l later r h = refl
  AllFetched-again [] (path ∷ paths) l later r h = absurd h
  AllFetched-again (report ∷ reports) [] l later r h = absurd h
  AllFetched-again (report ∷ reports) (path ∷ paths) l later r (h, hs) =
      rw
        (
          fetch-again report path l later h (laws.lasts report l.files later r h.is_there),
          AllFetched-again reports paths l later r hs,
        )
        refl

-- Of any downloader that keeps its promises: once `download_report` has fetched the files of a
-- report, all with distinct local names, fetching them again, with whatever the files hold by then,
-- returns the same paths and writes neither a file nor a row.
pub fetch_all-again :
    (d : DownloaderInterface) (laws : DownloaderLaws d) (manifest_id : Option ℕ)
    (reports paths : List FilePath) (l l' : Local) (later : FileSystem)
    → Distinct d reports
    → fetch_all d manifest_id reports l ≡ some (paths, l')
    → Remains l'.files later
    → fetch_all d manifest_id reports (record l' { files = later })
      ≡ some (paths, record l' { files = later })
fetch_all-again d laws manifest_id reports paths l l' later h e r =
    AllFetched-again d laws manifest_id reports paths l' later r
      (fetch_all-AllFetched d laws manifest_id reports paths l l' h e)
