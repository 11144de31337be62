-- ===== src/ReportFiles/Leftovers.antt =====
-- What the removal of old report files leaves (`remove_temp_cur_files` of
-- masu/processor/aws/aws_report_processor.py and masu/processor/ocp/ocp_report_processor.py).
use masu.Prelude.{
  ℕ, Bool, true, false, ◌&&◌, ◌≡◌, refl, ap, ◌∙◌, arith, Option, none, some, List, [], All,
  contains, ◌==◌, nat_eq, list_eq, pair_eq, option_eq, lookup, if◌then◌else◌, Option-cases, inl,
  inr,
}
use masu.Prelude.Options.{and_then, Sure-eq}
use masu.Tables.Clean.{Text}
use masu.Payload.Files.{FilePath, FileSystem, listdir}
use masu.Payload.Found.{listdir-contains}
use masu.ReportFiles.{
  StatsByName, is_completed, Scan, Reader, scan_files, remove_victims, remove_temp_cur_files,
}
use masu.ReportFiles.Removal.{remove_victims-lookup, remove_victims-elsewhere}
use masu.ReportFiles.Scanning.{
  last_manifest, is_readable, is_leftover, Scans, scan_files-Scans, scan_files-none,
}

-- What a removal leaves of a file of the directory and of a file elsewhere.
pub record Cleans (r : Reader) (manifest_id : ℕ) (directory : List Text) (fs : FileSystem)
    (stats : StatsByName) (name : Text) (other : FilePath) : Type 0 where
  pub removed : List Text
  pub files : FileSystem
  pub rows : StatsByName
  pub is_done : remove_temp_cur_files r manifest_id directory fs stats ≡ some (removed, files, rows)
  pub clears : lookup (directory, name) files ≡ (
      if is_leftover r stats (last_manifest r directory fs (listdir directory fs) none) name
      then none
      else lookup (directory, name) fs)
  pub keeps : lookup other files ≡ lookup other fs
  pub statuses : is_completed (lookup name rows) ≡ is_completed (lookup name stats)

cleared :
    (directory : List Text) (name : Text) (fs : FileSystem) (old : Bool)
    → (if contains (listdir directory fs) name && old then none else lookup (directory, name) fs)
      ≡ (if old then none else lookup (directory, name) fs)
cleared directory name fs old = elim (Option-cases (lookup (directory, name) fs)) [
  | inl absent ↦ rw absent (ground arith)
  | inr (text, found) ↦ rw (listdir-contains directory name text fs found) refl
]

-- Where every manifest of the directory can be read and the name of every completed file has a UUID,
-- the removal of old report files returns; of the files of the directory exactly those are gone that
-- are completed, are no manifests and have a last UUID other than the id that the last manifest
-- gives, a file elsewhere is as it was, and no row changes whether its file is completed.
pub remove_temp_cur_files-Cleans :
    (r : Reader) (manifest_id : ℕ) (directory : List Text) (fs : FileSystem) (stats : StatsByName)
    (name : Text) (other : FilePath)
    → All (λ file. is_readable r directory fs stats file ≡ true) (listdir directory fs)
    → (other.0 == directory) ≡ false
    → Cleans r manifest_id directory fs stats name other
unfolding remove_temp_cur_files
remove_temp_cur_files-Cleans r manifest_id directory fs stats name other h elsewhere =
    let from : Scan = record { current = none; victims = []; stats = stats } in
    let files = listdir directory fs in
    let (out, e, scans) =
      Sure-eq (Scans r directory fs files stats from)
        (scan_files r manifest_id directory fs files from)
        (scan_files-Scans r manifest_id directory fs files stats from (λ n. refl) h) in
    let current = last_manifest r directory fs files none in
    let done = remove_victims directory out.current out.victims fs in
    record {
      removed = done.0;
      files = done.1;
      rows = out.stats;
      is_done =
          ap
            (λ (m : Option Scan). and_then m (λ scan.
              let (gone, fs') = remove_victims directory scan.current scan.victims fs in
              some (gone, fs', scan.stats)))
            e;
      clears =
          remove_victims-lookup directory name out.current out.victims fs
          ∙ ap (λ b. if b then none else lookup (directory, name) fs)
              (scans.victims_are name out.current
                ∙ ap (λ c. contains files name && is_leftover r stats c name) scans.current_is)
          ∙ cleared directory name fs (is_leftover r stats current name);
      keeps = remove_victims-elsewhere directory other out.current out.victims fs elsewhere;
      statuses = scans.statuses name;
    }

-- A manifest that cannot be read or a completed file whose name has no UUID, wherever it is in the
-- directory, makes the removal raise before it removes a file.
pub remove_temp_cur_files-none :
    (r : Reader) (manifest_id : ℕ) (directory : List Text) (fs : FileSystem) (stats : StatsByName)
    (file text : Text)
    → lookup (directory, file) fs ≡ some text
    → is_readable r directory fs stats file ≡ false
    → remove_temp_cur_files r manifest_id directory fs stats ≡ none
unfolding remove_temp_cur_files
remove_temp_cur_files-none r manifest_id directory fs stats file text found bad =
    let from : Scan = record { current = none; victims = []; stats = stats } in
    rw
      (scan_files-none r manifest_id directory fs (listdir directory fs) stats from file (λ n. refl)
        (listdir-contains directory file text fs found) bad)
      refl
