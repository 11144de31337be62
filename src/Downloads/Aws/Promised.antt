-- ===== src/Downloads/Aws/Promised.antt =====
-- What the downloads of one object promise (`download_file` of
-- masu/external/downloader/aws/aws_report_downloader.py).
use mathlib.Core.Option.{some-injective}
use mathlib.Core.Path.{subst}
use masu.Prelude.{
  ℕ, ◌≡◌, refl, ap, Bool, true, false, ◌||◌, not, Option, some, [], is_some, ◌==◌, ==-refl, nat_eq,
  list_eq, pair_eq, option_eq, lookup, Bool-cases, inl, inr,
}
use masu.Tables.Clean.{Text}
use masu.Payload.Files.{FilePath, FileSystem}
use masu.CurDownload.{
  Answer, object, no_such_key, client_error, S3Object, Downloader, Download, done, no_file, failed,
  check_size, full_file_path, is_outdated, store, sized, with_answer, download_file,
}
use masu.Downloads.Again.{DownloaderLaws}
use masu.Downloads.Present.{IsPresent, insert-IsPresent_other, insert-IsPresent}
use masu.Downloads.Aws.{CurManifest, ReportDefinition, aws_downloader, or_raise}

-- A download that succeeds.
record Got (d : Downloader) (key path : FilePath) (etag : Option Text) (new : Text)
    (fs fs' : FileSystem) : Type 0 where
  pub o : S3Object
  pub is_object : d.get_object key ≡ object o
  pub fits : check_size d key o ≡ done true
  pub path_is : full_file_path d key ≡ path
  pub etag_is : o.etag ≡ new
  pub stored :
      store (is_outdated etag o.etag (lookup (full_file_path d key) fs)) (full_file_path d key) o fs
      ≡ fs'

sized-Got :
    (d : Downloader) (key path : FilePath) (o : S3Object) (etag : Option Text) (new : Text)
    (fs fs' : FileSystem) (size : Download Bool)
    → check_size d key o ≡ size
    → d.get_object key ≡ object o
    → or_raise (sized d (full_file_path d key) o etag fs size) ≡ some (path, new, fs')
    → Got d key path etag new fs fs'
sized-Got d key path o etag new fs fs' (done true) fits e h =
    let out = some-injective _ _ h in
    record {
      o = o;
      is_object = e;
      fits = fits;
      path_is = ap (λ (x : FilePath × Text × FileSystem). x.0) out;
      etag_is = ap (λ (x : FilePath × Text × FileSystem). x.1) out;
      stored = ap (λ (x : FilePath × Text × FileSystem). x.2) out;
    }
sized-Got d key path o etag new fs fs' (done false) fits e h = cc
sized-Got d key path o etag new fs fs' no_file fits e h = cc
sized-Got d key path o etag new fs fs' failed fits e h = cc

answer-Got :
    (d : Downloader) (key path : FilePath) (etag : Option Text) (new : Text) (fs fs' : FileSystem)
    (answer : Answer)
    → d.get_object key ≡ answer
    → or_raise (with_answer d key etag fs answer) ≡ some (path, new, fs')
    → Got d key path etag new fs fs'
answer-Got d key path etag new fs fs' no_such_key e h = cc
answer-Got d key path etag new fs fs' client_error e h = cc
answer-Got d key path etag new fs fs' (object o) e h =
    sized-Got d key path o etag new fs fs' (check_size d key o) refl e h

download_file-Got :
    (d : Downloader) (key path : FilePath) (etag : Option Text) (new : Text) (fs fs' : FileSystem)
    → or_raise (download_file d key etag fs) ≡ some (path, new, fs')
    → Got d key path etag new fs fs'
unfolding download_file
download_file-Got d key path etag new fs fs' h =
    answer-Got d key path etag new fs fs' (d.get_object key) refl h

store-keeps :
    (is_new : Bool) (path other : FilePath) (o : S3Object) (fs : FileSystem)
    → IsPresent other fs
    → IsPresent other (store is_new path o fs)
store-keeps true path other o fs h = insert-IsPresent_other other path o.content fs h
store-keeps false path other o fs h = h

store-leaves :
    (stored : Bool) (path : FilePath) (o : S3Object) (fs : FileSystem)
    → IsPresent path (store (not stored || not (is_some (lookup path fs))) path o fs)
store-leaves false path o fs = insert-IsPresent path o.content fs
store-leaves true path o fs = elim (Bool-cases (is_some (lookup path fs))) [
  | inl there ↦ rw there there
  | inr gone ↦ rw gone (insert-IsPresent path o.content fs)
]

-- With the etag of the object nothing is stored.
download_file-settled :
    (d : Downloader) (key : FilePath) (o : S3Object) (later : FileSystem)
    → d.get_object key ≡ object o
    → check_size d key o ≡ done true
    → IsPresent (full_file_path d key) later
    → or_raise (download_file d key (some o.etag) later)
      ≡ some (full_file_path d key, o.etag, later)
unfolding download_file
download_file-settled d key o later found fits h = rw (found, fits, ==-refl o.etag, h) refl

-- If no object has the empty text as its etag, the downloader keeps the promises.
pub aws_downloader-laws :
    (d : Downloader) (report : ReportDefinition) (parse : Text → Option (Option CurManifest))
    (provider_id now : ℕ)
    → ((key : FilePath) (o : S3Object) → d.get_object key ≡ object o → o.etag ≡ [] → ⊥)
    → DownloaderLaws (aws_downloader d report parse provider_id now)
aws_downloader-laws d report parse provider_id now tagged = record {
  has = λ key fs. IsPresent (full_file_path d key) fs;
  leaves = λ key etag fs fs' path new h.
      let g = download_file-Got d key path etag new fs fs' h in
      subst (IsPresent (full_file_path d key)) g.stored
        (store-leaves (some g.o.etag == etag) (full_file_path d key) g.o fs);
  keeps = λ key other etag fs fs' path new h there.
      let g = download_file-Got d key path etag new fs fs' h in
      subst (IsPresent (full_file_path d other)) g.stored
        (store-keeps _ (full_file_path d key) (full_file_path d other) g.o fs there);
  lasts = λ key fs later r there. r (full_file_path d key) there;
  settles = λ key etag fs fs' later path new h there.
      let g = download_file-Got d key path etag new fs fs' h in
      subst
        (λ (x : FilePath × Text).
          or_raise (download_file d key (some x.1) later) ≡ some (x.0, x.1, later))
        (λ i. (g.path_is i, g.etag_is i))
        (download_file-settled d key g.o later g.is_object g.fits there);
  named = λ key etag fs fs' path h.
      let g = download_file-Got d key path etag [] fs fs' h in tagged key g.o g.is_object g.etag_is;
}
