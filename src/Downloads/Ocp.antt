-- ===== src/Downloads/Ocp.antt =====
-- The downloader of OpenShift reports as one of those that masu/external/report_downloader.py runs
-- (masu/external/downloader/ocp/ocp_report_downloader.py).
use mathlib.Core.Option.{some-injective}
use mathlib.Core.Path.{subst}
use masu.Prelude.{
  ℕ, ◌≡◌, refl, ap, sym, ◌∙◌, Bool, true, false, ◌||◌, not, Option, none, some, List, [], ◌∷◌,
  is_some, ◌==◌, ==-refl, nat_eq, list_eq, pair_eq, option_eq, lookup, Bool-cases, inl, inr,
}
use masu.Prelude.Options.{and_then, and_then-eq-some}
use masu.Tables.Clean.{Text}
use masu.ReportFiles.Columns.{points}
use masu.Payload.Files.{FilePath, FileSystem, Details, get_local_file_name, manifest_name}
use masu.Payload.Download.{
  Context, downloads_dir, copy, copy_if, download_file, get_report_context_for_date,
}
use masu.Downloads.{ReportContext, DownloaderInterface}
use masu.Downloads.Again.{DownloaderLaws}
use masu.Downloads.Present.{IsPresent, insert-IsPresent_other, insert-IsPresent}

abbrev context_of : Context → ReportContext
context_of context = record {
  manifest_id = context.manifest_id;
  assembly_id = context.assembly_id;
  compression = points "PLAIN";
  files = context.files;
}

-- The directory of a downloader's files.
abbrev pub directory_path : (customer_name cluster_id : Text) → List Text
directory_path customer_name cluster_id =
    downloads_dir ∷ customer_name ∷ (b'o' ∷ b'c' ∷ b'p' ∷ []) ∷ cluster_id ∷ []

copy-keeps :
    (source target path : FilePath) (fs fs' : FileSystem)
    → copy source target fs ≡ some fs'
    → IsPresent path fs
    → IsPresent path fs'
copy-keeps source target path fs fs' e h =
    let (content, found, done) = and_then-eq-some (lookup source fs) _ e in
    subst (IsPresent path) (some-injective _ _ done)
      (insert-IsPresent_other path target content fs h)

copy-leaves :
    (source target : FilePath) (fs fs' : FileSystem)
    → copy source target fs ≡ some fs'
    → IsPresent target fs'
copy-leaves source target fs fs' e =
    let (content, found, done) = and_then-eq-some (lookup source fs) _ e in
    subst (IsPresent target) (some-injective _ _ done) (insert-IsPresent target content fs)

copy_if-keeps :
    (is_new : Bool) (key target path : FilePath) (fs fs' : FileSystem)
    → copy_if is_new key target fs ≡ some fs'
    → IsPresent path fs
    → IsPresent path fs'
copy_if-keeps false key target path fs fs' e h = subst (IsPresent path) (some-injective _ _ e) h
copy_if-keeps true key target path fs fs' e h =
    let (mid, first, then_manifest) = and_then-eq-some (copy key target fs) _ e in
    copy-keeps (key.0, manifest_name) (target.0, manifest_name) path mid fs' then_manifest
      (copy-keeps key target path fs mid first h)

copy_if-leaves :
    (stored : Bool) (key target : FilePath) (fs fs' : FileSystem)
    → copy_if (not stored || not (is_some (lookup target fs))) key target fs ≡ some fs'
    → IsPresent target fs'
copy_if-leaves false key target fs fs' e =
    let (mid, first, then_manifest) = and_then-eq-some (copy key target fs) _ e in
    copy-keeps (key.0, manifest_name) (target.0, manifest_name) target mid fs' then_manifest
      (copy-leaves key target fs mid first)
copy_if-leaves true key target fs fs' e = elim (Bool-cases (is_some (lookup target fs))) [
  | inl there ↦ copy_if-keeps _ key target target fs fs' e there
  | inr gone ↦
      let (mid, first, then_manifest) = and_then-eq-some (copy key target fs) _ (rw gone at e) in
      copy-keeps (key.0, manifest_name) (target.0, manifest_name) target mid fs' then_manifest
        (copy-leaves key target fs mid first)
]

module _ (ripemd160 : Text → Text) (customer_name cluster_id : Text) where
  abbrev Present : Option Text → FileSystem → Type 0
  Present none fs = ⊥
  Present (some name) fs = IsPresent (directory_path customer_name cluster_id, name) fs

  abbrev Has : FilePath → FileSystem → Type 0
  Has report fs = Present (get_local_file_name report) fs

  kept :
      (name : Option Text) (fs fs' : FileSystem)
      → ((text : Text)
          → IsPresent (directory_path customer_name cluster_id, text) fs
          → IsPresent (directory_path customer_name cluster_id, text) fs')
      → Present name fs
      → Present name fs'
  kept none fs fs' k h = h
  kept (some name) fs fs' k h = k name h

  -- What a download that succeeds has done.
  record Delivered (report path : FilePath) (etag : Option Text) (new : Text) (fs fs' : FileSystem)
      : Type 0 where
    pub name : Text
    pub is_named : get_local_file_name report ≡ some name
    pub path_is : (directory_path customer_name cluster_id, name) ≡ path
    pub etag_is : ripemd160 name ≡ new
    pub copied :
        copy_if
          (not (etag == some (ripemd160 name))
            || not (is_some (lookup (directory_path customer_name cluster_id, name) fs)))
          report
          (directory_path customer_name cluster_id, name)
          fs
        ≡ some fs'

  download_file-Delivered :
      (report path : FilePath) (etag : Option Text) (new : Text) (fs fs' : FileSystem)
      → download_file ripemd160 customer_name cluster_id report etag fs ≡ some (path, new, fs')
      → Delivered report path etag new fs fs'
  unfolding download_file
  download_file-Delivered report path etag new fs fs' h =
      let (name, n, h1) = and_then-eq-some (get_local_file_name report) _ h in
      let (files, c, h2) = and_then-eq-some (copy_if _ report _ fs) _ h1 in
      let out = some-injective _ _ h2 in
      record {
        name = name;
        is_named = n;
        path_is = ap (λ (x : FilePath × Text × FileSystem). x.0) out;
        etag_is = ap (λ (x : FilePath × Text × FileSystem). x.1) out;
        copied = c ∙ ap (λ (x : FilePath × Text × FileSystem). some x.2) out;
      }

  download_file-settled :
      (report : FilePath) (name : Text) (later : FileSystem)
      → get_local_file_name report ≡ some name
      → IsPresent (directory_path customer_name cluster_id, name) later
      → download_file ripemd160 customer_name cluster_id report (some (ripemd160 name)) later
        ≡ some ((directory_path customer_name cluster_id, name), ripemd160 name, later)
  unfolding download_file
  download_file-settled report name later n h = rw (n, ==-refl (ripemd160 name), h) refl

  module _ (parse : Text → Option Details) (provider_id now : ℕ) where
    -- `OCPReportDownloader`
    abbrev pub ocp_downloader : DownloaderInterface
    ocp_downloader = record {
      get_report_context_for_date = λ date w.
          and_then
            (get_report_context_for_date parse cluster_id provider_id now date w.files w.manifests)
            (λ out. some (context_of out.0, record w { manifests = out.1 }));
      get_local_file_for_report = get_local_file_name;
      download_file = download_file ripemd160 customer_name cluster_id;
    }

    -- If no hash is the empty text, the downloader keeps the promises.
    pub ocp_downloader-laws :
        ((text : Text) → ripemd160 text ≡ [] → ⊥) → DownloaderLaws ocp_downloader
    ocp_downloader-laws hashed = record {
      has = Has;
      leaves = λ report etag fs fs' path new h.
          let f = download_file-Delivered report path etag new fs fs' h in
          subst (λ name. Present name fs') (sym f.is_named)
            (copy_if-leaves (etag == some (ripemd160 f.name)) report _ fs fs' f.copied);
      keeps = λ report other etag fs fs' path new h there.
          let f = download_file-Delivered report path etag new fs fs' h in
          kept (get_local_file_name other) fs fs'
            (λ name.
              copy_if-keeps _ report _ (directory_path customer_name cluster_id, name) fs fs'
                f.copied)
            there;
      lasts = λ report fs later r there.
          kept (get_local_file_name report) fs later
            (λ name. r (directory_path customer_name cluster_id, name)) there;
      settles = λ report etag fs fs' later path new h there.
          let f = download_file-Delivered report path etag new fs fs' h in
          subst
            (λ (x : FilePath × Text).
              download_file ripemd160 customer_name cluster_id report (some x.1) later
              ≡ some (x.0, x.1, later))
            (λ i. (f.path_is i, f.etag_is i))
            (download_file-settled report f.name later f.is_named
              (subst (λ name. Present name later) f.is_named there));
      named = λ report etag fs fs' path h.
          let f = download_file-Delivered report path etag [] fs fs' h in hashed f.name f.etag_is;
    }
