-- ===== src/CurDownload/Current.antt =====
-- What `download_file` leaves on the disk.
use masu.Prelude.{
  ℕ, ◌≡◌, ◌⊎◌, refl, ap, ◌∙◌, Bool, true, false, ◌||◌, not, Option, none, some, leb, ltb, is_some,
  ◌==◌, ==-refl, nat_eq, pair_eq, list_eq, option_eq, lookup, insert, lookup-insert, inl, inr,
}
use masu.Tables.Clean.{Text}
use masu.Payload.Files.{FilePath, FileSystem}
use masu.CurDownload.Names.{is_compressed}
use masu.CurDownload.{
  S3Object, object, Downloader, done, fits_inflated, check_size, full_file_path, is_outdated, store,
  sized, with_answer, download_file,
}

-- A file that is there was stored under another etag, or it has the object's content.
abbrev pub IsFaithful : Option Text → S3Object → Option Text → Type 0
IsFaithful stored_etag o none = Unit
IsFaithful stored_etag o (some content) =
    ((some o.etag == stored_etag) ≡ false) ⊎ (content ≡ o.content)

-- There is room for the object and for what it inflates to.
pub record Fits (d : Downloader) (key : FilePath) (o : S3Object) : Type 0 where
  pub is_sized : ltb o.size 1 ≡ false
  pub has_room : ltb o.size d.free_space ≡ true
  pub has_inflated_room : (is_compressed key.1 ≡ false) ⊎ (leb o.isize d.free_space ≡ true)

lookup-stored :
    (path : FilePath) (content : Text) (fs : FileSystem)
    → lookup path (insert path content fs) ≡ some content
lookup-stored path content fs = lookup-insert path path content fs ∙ rw (==-refl path) refl

store-lookup :
    (path : FilePath) (o : S3Object) (stored_etag : Option Text) (fs : FileSystem)
    (file : Option Text) (is_stored : Bool)
    → (some o.etag == stored_etag) ≡ is_stored
    → lookup path fs ≡ file
    → IsFaithful stored_etag o file
    → lookup path (store (not is_stored || not (is_some file)) path o fs) ≡ some o.content
store-lookup path o stored_etag fs file false same e h = lookup-stored path o.content fs
store-lookup path o stored_etag fs none true same e h = lookup-stored path o.content fs
store-lookup path o stored_etag fs (some content) true same e (inl other) = cc
store-lookup path o stored_etag fs (some content) true same e (inr is_content) =
    e ∙ ap some is_content

store-others :
    (path other : FilePath) (o : S3Object) (fs : FileSystem) (is_new : Bool)
    → (other == path) ≡ false
    → lookup other (store is_new path o fs) ≡ lookup other fs
store-others path other o fs true e = lookup-insert other path o.content fs ∙ rw e refl
store-others path other o fs false e = refl

fits_inflated-true :
    (compressed : Bool) (o : S3Object) (free_space : ℕ)
    → (compressed ≡ false) ⊎ (leb o.isize free_space ≡ true)
    → fits_inflated compressed o free_space ≡ true
fits_inflated-true false o free_space h = refl
fits_inflated-true true o free_space (inl e) = cc
fits_inflated-true true o free_space (inr e) = e

check_size-done :
    (d : Downloader) (key : FilePath) (o : S3Object) → Fits d key o → check_size d key o ≡ done true
unfolding check_size
check_size-done d key o f =
    rw
      (
        f.is_sized,
        f.has_room,
        fits_inflated-true (is_compressed key.1) o d.free_space f.has_inflated_room,
      )
      refl

-- The outcome of a download that succeeds.
pub record IsCurrent (d : Downloader) (key : FilePath) (o : S3Object) (stored_etag : Option Text)
    (fs : FileSystem) (other : FilePath) : Type 0 where
  pub files : FileSystem
  pub is_done : download_file d key stored_etag fs ≡ done (full_file_path d key, o.etag, files)
  pub has_content : lookup (full_file_path d key) files ≡ some o.content
  pub keeps : lookup other files ≡ lookup other fs

-- Where the bucket has the object and there is room for it, and where the local file, if there is one,
-- was stored under another etag than the object's or has its content, `download_file` returns the
-- file's path and the object's etag, the file then has the object's content, and no other file has
-- changed.
pub download_file-IsCurrent :
    (d : Downloader) (key : FilePath) (o : S3Object) (stored_etag : Option Text) (fs : FileSystem)
    (other : FilePath)
    → d.get_object key ≡ object o
    → Fits d key o
    → IsFaithful stored_etag o (lookup (full_file_path d key) fs)
    → (other == full_file_path d key) ≡ false
    → IsCurrent d key o stored_etag fs other
unfolding download_file
download_file-IsCurrent d key o stored_etag fs other found f h is_other =
    let path = full_file_path d key in
    let is_new = is_outdated stored_etag o.etag (lookup path fs) in
    record {
      files = store is_new path o fs;
      is_done =
          ap (with_answer d key stored_etag fs) found
          ∙ ap (sized d path o stored_etag fs) (check_size-done d key o f);
      has_content =
          store-lookup path o stored_etag fs (lookup path fs) (some o.etag == stored_etag) refl refl
            h;
      keeps = store-others path other o fs is_new is_other;
    }
