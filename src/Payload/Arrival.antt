-- ===== src/Payload/Arrival.antt =====
-- What `extract_payload` lays on the disk, and what the downloader finds there.
use mathlib.Core.Path.{subst}
use masu.Prelude.{
  ℕ, ◌≡◌, refl, Bool, true, false, Option, none, some, List, [], ◌∷◌, ◌++◌, nat_eq, pair_eq,
  list_eq, contains, lookup, if◌then◌else◌,
}
use masu.Prelude.Options.{and_then}
use masu.Tables.Clean.{Text}
use masu.Payload.Files.{
  FilePath, FileSystem, Month, Details, get_report_details, manifest_name, formatted,
  report_directory,
}
use masu.Payload.{
  Services, Archive, Extraction, returned, failed, raised, Disk, Fetched, received, http_error,
  no_connection, copy_files, extract_payload, manifest_paths, copied, copy_report, copy_manifest,
  place, read, open_manifest, unpack, fetched, mkdtemp, rmtree, archive_name,
}
use masu.Payload.Copies.{IsCopied, put-IsCopied, copy_files-keeps, copy_files-IsCopied}

-- The report that a payload holds, as it lies in its directory.
pub record Laid (parse : Text → Option Details) (payload : FileSystem) (details : Details)
    (fs : FileSystem) : Type 0 where
  pub subdirectory : List Text
  pub date : Month
  pub is_dated : details.date ≡ some date
  pub files : List Text
  pub lists_files : details.files ≡ some files
  pub manifest :
      IsCopied payload fs subdirectory
        (report_directory (formatted details.cluster_id) date)
        manifest_name
  pub manifest_text : Text
  pub manifest_sent : lookup (subdirectory, manifest_name) payload ≡ some manifest_text
  pub is_read : parse manifest_text ≡ some details
  pub copies :
      (name : Text)
      → contains files name ≡ true
      → IsCopied payload fs subdirectory (report_directory (formatted details.cluster_id) date) name

abbrev IfReturned : (Details → FileSystem → Type 0) → Extraction Details × Disk → Type 0
IfReturned P (returned details, d) = P details d.files
IfReturned P (failed, d) = Unit
IfReturned P (raised, d) = Unit

IfReturned-eq :
    (P : Details → FileSystem → Type 0) (out : Extraction Details × Disk) (details : Details)
    (d : Disk)
    → out ≡ (returned details, d)
    → IfReturned P out
    → P details d.files
IfReturned-eq P out details d e h = subst (IfReturned P) e h

copied-Laid :
    (parse : Text → Option Details) (payload : FileSystem) (temp : ℕ) (details : Details) (d : Disk)
    (result : Bool × FileSystem)
    → (result.0 ≡ true → Laid parse payload details result.1)
    → IfReturned (Laid parse payload) (copied temp details d result)
copied-Laid parse payload temp details d (true, fs) h = h refl
copied-Laid parse payload temp details d (false, fs) h = tt

copy_report-Laid :
    (parse : Text → Option Details) (temp : ℕ) (payload : FileSystem) (subdirectory : List Text)
    (details : Details) (date : Month) (files : Option (List Text)) (d : Disk)
    → details.date ≡ some date
    → details.files ≡ files
    → IsCopied payload d.files subdirectory
        (report_directory (formatted details.cluster_id) date)
        manifest_name
    → (text : Text) → lookup (subdirectory, manifest_name) payload ≡ some text
    → parse text ≡ some details
    → IfReturned (Laid parse payload) (
        copy_report temp payload subdirectory
          (report_directory (formatted details.cluster_id) date)
          details
          files
          d)
copy_report-Laid parse temp payload subdirectory details date none d dated listed m text sent e = tt
copy_report-Laid parse temp payload subdirectory details date (some files) d dated listed m text
      sent e =
    let destination = report_directory (formatted details.cluster_id) date in
    copied-Laid parse payload temp details d
      (copy_files payload subdirectory destination files d.files)
      (λ ok. record {
        subdirectory = subdirectory;
        date = date;
        is_dated = dated;
        files = files;
        lists_files = listed;
        manifest = copy_files-keeps payload subdirectory destination files d.files manifest_name m;
        manifest_text = text;
        manifest_sent = sent;
        is_read = e;
        copies = λ name. copy_files-IsCopied payload subdirectory destination files d.files name ok;
      })

place-Laid :
    (parse : Text → Option Details) (temp : ℕ) (payload : FileSystem) (subdirectory : List Text)
    (details : Details) (date : Option Month) (d : Disk) (text : Text)
    → details.date ≡ date
    → lookup (subdirectory, manifest_name) payload ≡ some text
    → parse text ≡ some details
    → IfReturned (Laid parse payload) (place temp payload subdirectory details date d)
place-Laid parse temp payload subdirectory details none d text dated e read = tt
place-Laid parse temp payload subdirectory details (some date) d text dated e read =
    let destination = report_directory (formatted details.cluster_id) date in
    rw e (
      copy_report-Laid parse temp payload subdirectory details date details.files
        (copy_manifest destination (some text) d) dated refl
        (put-IsCopied payload subdirectory destination d.files manifest_name text e) text e read)

read-Laid :
    (parse : Text → Option Details) (temp : ℕ) (payload : FileSystem) (subdirectory : List Text)
    (d : Disk) (text : Text) (parsed : Option Details)
    → parse text ≡ parsed
    → lookup (subdirectory, manifest_name) payload ≡ some text
    → IfReturned
        (Laid parse payload)
        (read temp payload subdirectory (and_then parsed (λ details. some (some details))) d)
read-Laid parse temp payload subdirectory d text none e h = tt
read-Laid parse temp payload subdirectory d text (some details) e h =
    place-Laid parse temp payload subdirectory details details.date d text refl h e

get_report_details-Laid :
    (parse : Text → Option Details) (temp : ℕ) (payload : FileSystem) (subdirectory : List Text)
    (d : Disk) (found : Option Text)
    → lookup (subdirectory, manifest_name) payload ≡ found
    → IfReturned
        (Laid parse payload)
        (read temp payload subdirectory (get_report_details parse found) d)
unfolding get_report_details
get_report_details-Laid parse temp payload subdirectory d none e = tt
get_report_details-Laid parse temp payload subdirectory d (some text) e =
    read-Laid parse temp payload subdirectory d text (parse text) refl e

open_manifest-Laid :
    (parse : Text → Option Details) (temp : ℕ) (payload : FileSystem) (paths : List FilePath)
    (d : Disk)
    → IfReturned (Laid parse payload) (open_manifest parse temp payload paths d)
open_manifest-Laid parse temp payload [] d = tt
open_manifest-Laid parse temp payload ((subdirectory, name) ∷ paths) d =
    get_report_details-Laid parse temp payload subdirectory d
      (lookup (subdirectory, manifest_name) payload) refl

-- The report of an archive that was fetched and unpacked; the archive lies among its files.
pub record Arrived (s : Services) (url : Text) (details : Details) (fs : FileSystem) : Type 0 where
  pub text : Text
  pub is_fetched : s.get url ≡ received text
  pub archive : Archive
  pub is_unpacked : s.untar text ≡ some archive
  pub laid : Laid s.parse (archive.files ++ (([], archive_name), text) ∷ []) details fs

IfReturned-map :
    (P Q : Details → FileSystem → Type 0) (out : Extraction Details × Disk)
    → ((details : Details) (fs : FileSystem) → P details fs → Q details fs)
    → IfReturned P out
    → IfReturned Q out
IfReturned-map P Q (returned details, d) k h = k details d.files h
IfReturned-map P Q (failed, d) k h = tt
IfReturned-map P Q (raised, d) k h = tt

unpack-Arrived :
    (s : Services) (url : Text) (temp : ℕ) (text : Text) (archive : Option Archive) (d : Disk)
    → s.get url ≡ received text
    → s.untar text ≡ archive
    → IfReturned (Arrived s url) (unpack s temp text archive d)
unpack-Arrived s url temp text none d got opened = tt
unpack-Arrived s url temp text (some archive) d got opened =
    let payload = archive.files ++ (([], archive_name), text) ∷ [] in
    let out = open_manifest s.parse temp payload (manifest_paths archive.names) d in
    IfReturned-map (Laid s.parse payload) (Arrived s url) out
      (λ details fs l. record {
        text = text;
        is_fetched = got;
        archive = archive;
        is_unpacked = opened;
        laid = l;
      })
      (open_manifest-Laid s.parse temp payload (manifest_paths archive.names) d)

written-Arrived :
    (s : Services) (url : Text) (temp : ℕ) (text : Text) (d d' : Disk) (can_write : Bool)
    → s.get url ≡ received text
    → IfReturned
        (Arrived s url)
        (if can_write then unpack s temp text (s.untar text) d else (failed, d'))
written-Arrived s url temp text d d' true got =
    unpack-Arrived s url temp text (s.untar text) d got refl
written-Arrived s url temp text d d' false got = tt

fetched-Arrived :
    (s : Services) (url : Text) (temp : ℕ) (response : Fetched) (d : Disk)
    → s.get url ≡ response
    → IfReturned (Arrived s url) (fetched s temp response d)
fetched-Arrived s url temp http_error d got = tt
fetched-Arrived s url temp no_connection d got = tt
fetched-Arrived s url temp (received text) d got =
    written-Arrived s url temp text d (rmtree temp d) s.can_write got

pub extract_payload-Arrived :
    (s : Services) (url : Text) (d d' : Disk) (details : Details)
    → extract_payload s url d ≡ (returned details, d')
    → Arrived s url details d'.files
unfolding extract_payload
extract_payload-Arrived s url d d' details e =
    let (temp, d₁) = mkdtemp d in
    IfReturned-eq (Arrived s url) (fetched s temp (s.get url) d₁) details d' e
      (fetched-Arrived s url temp (s.get url) d₁ refl)
