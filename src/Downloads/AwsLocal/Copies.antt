-- ===== src/Downloads/AwsLocal/Copies.antt =====
-- What the downloads from a local directory promise, and what they miss
-- (masu/external/downloader/aws_local/aws_local_report_downloader.py).
use mathlib.Core.Option.{some-injective}
use mathlib.Core.Path.{subst}
use masu.Prelude.{
  ℕ, ◌≡◌, refl, ap, Bool, true, false, ◌&&◌, Option, none, some, [], is_some, ◌==◌, ==-refl, nat_eq,
  list_eq, pair_eq, option_eq, lookup, insert, Bool-cases, Option-cases, lookup-insert, inl, inr,
}
use masu.Tables.Clean.{Text}
use masu.Payload.Files.{FilePath, FileSystem}
use masu.CurDownload.Names.{get_local_file_name}
use masu.CurDownload.{done}
use masu.Downloads.Again.{DownloaderLaws}
use masu.Downloads.Present.{IsPresent, insert-IsPresent_other, insert-IsPresent}
use masu.Downloads.Aws.{CurManifest, or_raise}
use masu.Downloads.AwsLocal.{
  LocalDownloader, aws_local_downloader, copy_unless, download_local_file, local_path, with_source,
}

copy_unless-keeps :
    (stored : Bool) (path other : FilePath) (content : Text) (fs : FileSystem)
    → IsPresent other fs
    → IsPresent other (copy_unless stored path content fs)
copy_unless-keeps false path other content fs h = insert-IsPresent_other other path content fs h
copy_unless-keeps true path other content fs h = h

copy_unless-leaves :
    (stored : Bool) (path : FilePath) (content : Text) (fs : FileSystem)
    → IsPresent path (copy_unless (stored && is_some (lookup path fs)) path content fs)
copy_unless-leaves false path content fs = insert-IsPresent path content fs
copy_unless-leaves true path content fs = elim (Bool-cases (is_some (lookup path fs))) [
  | inl there ↦ rw there there
  | inr gone ↦ rw gone (insert-IsPresent path content fs)
]

-- A download that succeeds.
record Copied (ripemd160 : Text → Text) (d : LocalDownloader) (key path : FilePath)
    (etag : Option Text) (new : Text) (fs fs' : FileSystem) : Type 0 where
  pub content : Text
  pub is_source : lookup key fs ≡ some content
  pub path_is : local_path d key ≡ path
  pub etag_is : ripemd160 (get_local_file_name key) ≡ new
  pub stored :
      copy_unless
        (some (ripemd160 (get_local_file_name key)) == etag
          && is_some (lookup (local_path d key) fs))
        (local_path d key)
        content
        fs
      ≡ fs'

source-Copied :
    (ripemd160 : Text → Text) (d : LocalDownloader) (key path : FilePath) (etag : Option Text)
    (new : Text) (fs fs' : FileSystem) (source : Option Text)
    → lookup key fs ≡ source
    → or_raise (with_source ripemd160 d key etag fs source) ≡ some (path, new, fs')
    → Copied ripemd160 d key path etag new fs fs'
source-Copied ripemd160 d key path etag new fs fs' none e h = cc
source-Copied ripemd160 d key path etag new fs fs' (some content) e h =
    let out = some-injective _ _ h in
    record {
      content = content;
      is_source = e;
      path_is = ap (λ (x : FilePath × Text × FileSystem). x.0) out;
      etag_is = ap (λ (x : FilePath × Text × FileSystem). x.1) out;
      stored = ap (λ (x : FilePath × Text × FileSystem). x.2) out;
    }

download_local_file-Copied :
    (ripemd160 : Text → Text) (d : LocalDownloader) (key path : FilePath) (etag : Option Text)
    (new : Text) (fs fs' : FileSystem)
    → or_raise (download_local_file ripemd160 d key etag fs) ≡ some (path, new, fs')
    → Copied ripemd160 d key path etag new fs fs'
unfolding download_local_file
download_local_file-Copied ripemd160 d key path etag new fs fs' h =
    source-Copied ripemd160 d key path etag new fs fs' (lookup key fs) refl h

-- With the hash of the name and the file there, nothing is copied.
download_local_file-settled :
    (ripemd160 : Text → Text) (d : LocalDownloader) (key : FilePath) (later : FileSystem)
    → IsPresent key later
    → IsPresent (local_path d key) later
    → download_local_file ripemd160 d key (some (ripemd160 (get_local_file_name key))) later
      ≡ done (local_path d key, ripemd160 (get_local_file_name key), later)
unfolding download_local_file
download_local_file-settled ripemd160 d key later source there =
    elim (Option-cases (lookup key later)) [
      | inl gone ↦ cc (rw gone at source)
      | inr (content, e) ↦ rw (e, ==-refl (ripemd160 (get_local_file_name key)), there) refl
    ]

-- If no hash is the empty text, the downloader keeps the promises.
pub aws_local_downloader-laws :
    (ripemd160 : Text → Text) (d : LocalDownloader) (parse : Text → Option (Option CurManifest))
    (provider_id now : ℕ)
    → ((text : Text) → ripemd160 text ≡ [] → ⊥)
    → DownloaderLaws (aws_local_downloader ripemd160 d parse provider_id now)
aws_local_downloader-laws ripemd160 d parse provider_id now hashed = record {
  has = λ key fs. IsPresent key fs × IsPresent (local_path d key) fs;
  leaves = λ key etag fs fs' path new h.
      let c = download_local_file-Copied ripemd160 d key path etag new fs fs' h in
      let stored = some (ripemd160 (get_local_file_name key)) == etag in
      (
        subst (IsPresent key) c.stored
            (copy_unless-keeps _ (local_path d key) key c.content fs (rw c.is_source refl)),
        subst (IsPresent (local_path d key)) c.stored
            (copy_unless-leaves stored (local_path d key) c.content fs),
      );
  keeps = λ key other etag fs fs' path new h (source, there).
      let c = download_local_file-Copied ripemd160 d key path etag new fs fs' h in
      (
        subst (IsPresent other) c.stored
            (copy_unless-keeps _ (local_path d key) other c.content fs source),
        subst (IsPresent (local_path d other)) c.stored
            (copy_unless-keeps _ (local_path d key) (local_path d other) c.content fs there),
      );
  lasts = λ key fs later r (source, there). (r key source, r (local_path d key) there);
  settles = λ key etag fs fs' later path new h (source, there).
      let c = download_local_file-Copied ripemd160 d key path etag new fs fs' h in
      subst
        (λ (x : FilePath × Text).
          or_raise (download_local_file ripemd160 d key (some x.1) later) ≡ some (x.0, x.1, later))
        (λ i. (c.path_is i, c.etag_is i))
        (ap or_raise (download_local_file-settled ripemd160 d key later source there));
  named = λ key etag fs fs' path h.
      hashed (get_local_file_name key)
        (download_local_file-Copied ripemd160 d key path etag [] fs fs' h).etag_is;
}

-- Two downloads of a key whose file changes in between.
pub record Stale (ripemd160 : Text → Text) (d : LocalDownloader) (key : FilePath)
    (content changed : Text) (fs : FileSystem) : Type 0 where
  pub etag : Text
  pub files : FileSystem
  pub first : download_local_file ripemd160 d key none fs ≡ done (local_path d key, etag, files)
  pub second :
      download_local_file ripemd160 d key (some etag) (insert key changed files)
      ≡ done (local_path d key, etag, insert key changed files)
  pub has_old : lookup (local_path d key) (insert key changed files) ≡ some content

-- A report of a local directory that changes after it was downloaded is not copied again: the next
-- download, with the etag that the first one gave, returns the same path and etag, and the file there
-- keeps the old content.
pub download_local_file-Stale :
    (ripemd160 : Text → Text) (d : LocalDownloader) (key : FilePath) (content changed : Text)
    (fs : FileSystem)
    → lookup key fs ≡ some content
    → (local_path d key == key) ≡ false
    → Stale ripemd160 d key content changed fs
unfolding download_local_file
download_local_file-Stale ripemd160 d key content changed fs e apart =
    let path : FilePath = local_path d key in
    let files = insert path content fs in
    let has_old : lookup path (insert key changed files) ≡ some content =
      rw
        (
          lookup-insert path key changed files,
          apart,
          lookup-insert path path content fs,
          ==-refl path,
        )
        refl in
    let source : lookup key (insert key changed files) ≡ some changed =
      rw (lookup-insert key key changed files, ==-refl key) refl in
    record {
      etag = ripemd160 (get_local_file_name key);
      files = files;
      first = rw e refl;
      second =
          download_local_file-settled ripemd160 d key (insert key changed files) (rw source refl)
            (rw has_old refl);
      has_old = has_old;
    }
