-- ===== src/ReportFiles/Scanning.antt =====
-- The first loop of `remove_temp_cur_files`, which collects the victims
-- (masu/processor/aws/aws_report_processor.py, masu/processor/ocp/ocp_report_processor.py).
use masu.Prelude.{
  ℕ, Bool, true, false, ◌&&◌, ◌||◌, not, ◌≡◌, refl, ap, sym, ◌∙◌, arith, Option, none, some, List,
  [], ◌∷◌, ◌++◌, is_some, any, All, contains, ◌==◌, ==-refl, nat_eq, list_eq, pair_eq, option_eq,
  lookup, lookup-insert, if◌then◌else◌, Bool-cases, Option-cases, inl, inr,
}
use masu.Prelude.Options.{and_then, Sure, Sure-and_then, Sure-map, Sure-eq}
use masu.Tables.Clean.{Text}
use masu.Notification.{ends_with}
use masu.Payload.Files.{FileSystem}
use masu.ReportFiles.{
  StatsByName, is_completed, open_row, Victim, Scan, last_uuid, Reader, scan_manifest, scan_report,
  scan_file, scan_files,
}
use masu.ReportFiles.Removal.{names_old}

-- What a manifest of the directory says, if it can be read.
abbrev pub manifest_says : Reader → List Text → FileSystem → Text → Option (Option Text)
manifest_says r directory fs file = and_then (lookup (directory, file) fs) r.parse

abbrev pub id_or : Option Text → Option (Option Text) → Option Text
id_or current none = current
id_or current (some id) = id

-- The id that the last manifest of the directory gives.
unfoldable pub last_manifest :
    Reader → List Text → FileSystem → List Text → Option Text → Option Text
last_manifest r directory fs [] current = current
last_manifest r directory fs (file ∷ files) current =
    last_manifest r directory fs files (
      if ends_with r.suffix file
      then id_or current (manifest_says r directory fs file)
      else current)

-- A manifest is JSON, and the name of a completed file has a UUID.
abbrev readable : Bool → Option (Option Text) → Bool → Option Text → Bool
readable true manifest is_completed uuid = is_some manifest
readable false manifest is_completed uuid = not is_completed || is_some uuid

abbrev pub is_readable : Reader → List Text → FileSystem → StatsByName → Text → Bool
is_readable r directory fs stats file =
    readable (ends_with r.suffix file) (manifest_says r directory fs file)
      (is_completed (lookup file stats)) (last_uuid file)

-- A completed file of another report than the given one.
unfoldable pub is_leftover : Reader → StatsByName → Option Text → Text → Bool
is_leftover r stats current file =
    not (ends_with r.suffix file)
    && is_completed (lookup file stats)
    && not (last_uuid file == current)

open_row-is_completed :
    (manifest_id : ℕ) (file name : Text) (stats : StatsByName)
    → is_completed (lookup name (open_row manifest_id file stats))
      ≡ is_completed (lookup name stats)
unfolding open_row
open_row-is_completed manifest_id file name stats = elim (Option-cases (lookup file stats)) [
  | inl absent ↦
      rw (absent, lookup-insert name file)
        (elim (Bool-cases (name == file)) [
          | inl e ↦ rw (((list_eq {A = ℕ}).beq_iff name file).0 e, absent, ==-refl file) refl
          | inr e ↦ rw e refl
        ])
  | inr (row, found) ↦ rw found refl
]

any-last :
    (test : Victim → Bool) (vs : List Victim) (v : Victim)
    → any test (vs ++ v ∷ []) ≡ any test vs || test v
any-last test [] v = ground arith
any-last test (w ∷ vs) v = rw (any-last test vs v) (ground arith)

-- What one file does to the scan: whether an old victim of a name is there, for any id.
pub record Scans (r : Reader) (directory : List Text) (fs : FileSystem) (files : List Text)
    (stats : StatsByName) (from : Scan) (out : Scan) : Type 0 where
  pub current_is : out.current ≡ last_manifest r directory fs files from.current
  pub statuses :
      (name : Text) → is_completed (lookup name out.stats) ≡ is_completed (lookup name stats)
  pub victims_are :
      (name : Text) (current : Option Text)
      → any (names_old name current) out.victims
        ≡ any (names_old name current) from.victims
          || contains files name && is_leftover r stats current name

leftover-at :
    (r : Reader) (stats : StatsByName) (current : Option Text) (file name : Text)
    → (contains (file ∷ []) name && is_leftover r stats current name)
      ≡ (name == file && is_leftover r stats current file)
leftover-at r stats current file name = elim (Bool-cases (name == file)) [
  | inl e ↦ rw (((list_eq {A = ℕ}).beq_iff name file).0 e, ==-refl file) refl
  | inr e ↦ rw e refl
]

scan_manifest-Scans :
    (r : Reader) (directory : List Text) (fs : FileSystem) (file : Text) (stats : StatsByName)
    (from : Scan) (id : Option Text)
    → ((name : Text) → is_completed (lookup name from.stats) ≡ is_completed (lookup name stats))
    → ends_with r.suffix file ≡ true
    → manifest_says r directory fs file ≡ some id
    → Scans r directory fs (file ∷ []) stats from (record from { current = id })
unfolding last_manifest is_leftover
scan_manifest-Scans r directory fs file stats from id same e read = record {
  current_is = rw (e, read) refl;
  statuses = same;
  victims_are = λ name current. rw (leftover-at r stats current file name, e) (ground arith);
}

skipped-Scans :
    (r : Reader) (manifest_id : ℕ) (directory : List Text) (fs : FileSystem) (file : Text)
    (stats : StatsByName) (from : Scan)
    → ((name : Text) → is_completed (lookup name from.stats) ≡ is_completed (lookup name stats))
    → ends_with r.suffix file ≡ false
    → is_completed (lookup file stats) ≡ false
    → Scans r directory fs
        (file ∷ [])
        stats
        from
        (record from { stats = open_row manifest_id file from.stats })
unfolding last_manifest is_leftover
skipped-Scans r manifest_id directory fs file stats from same e c = record {
  current_is = rw e refl;
  statuses = λ name. open_row-is_completed manifest_id file name from.stats ∙ same name;
  victims_are = λ name current. rw (leftover-at r stats current file name, c) (ground arith);
}

listed-Scans :
    (r : Reader) (manifest_id : ℕ) (directory : List Text) (fs : FileSystem) (file uuid : Text)
    (stats : StatsByName) (from : Scan)
    → ((name : Text) → is_completed (lookup name from.stats) ≡ is_completed (lookup name stats))
    → ends_with r.suffix file ≡ false
    → is_completed (lookup file stats) ≡ true
    → last_uuid file ≡ some uuid
    → Scans r directory fs (file ∷ []) stats from (record from {
      victims = from.victims ++ record { file = file; uuid = uuid } ∷ [];
      stats = open_row manifest_id file from.stats;
    })
unfolding last_manifest is_leftover
listed-Scans r manifest_id directory fs file uuid stats from same e c u = record {
  current_is = rw e refl;
  statuses = λ name. open_row-is_completed manifest_id file name from.stats ∙ same name;
  victims_are = λ name current.
      any-last (names_old name current) from.victims (record { file = file; uuid = uuid })
      ∙ sym (rw (leftover-at r stats current file name, e, c, u) refl);
}

scan_file-Scans :
    (r : Reader) (manifest_id : ℕ) (directory : List Text) (fs : FileSystem) (file : Text)
    (stats : StatsByName) (from : Scan)
    → ((name : Text) → is_completed (lookup name from.stats) ≡ is_completed (lookup name stats))
    → is_readable r directory fs stats file ≡ true
    → Sure
        (Scans r directory fs (file ∷ []) stats from)
        (scan_file r manifest_id directory fs (ends_with r.suffix file) file from)
unfolding scan_manifest scan_report
scan_file-Scans r manifest_id directory fs file stats from same h =
    elim (Bool-cases (ends_with r.suffix file)) [
      | inl e ↦ elim (Option-cases (manifest_says r directory fs file)) [
        | inl unread ↦ cc (rw (e, unread) at h)
        | inr (id, read) ↦
            rw (e, read) (scan_manifest-Scans r directory fs file stats from id same e read)
      ]
      | inr e ↦ elim (Bool-cases (is_completed (lookup file stats))) [
        | inr c ↦
            rw (e, same file, c) (skipped-Scans r manifest_id directory fs file stats from same e c)
        | inl c ↦ elim (Option-cases (last_uuid file)) [
          | inl unnamed ↦ cc (rw (e, c, unnamed) at h)
          | inr (uuid, u) ↦
              rw (e, same file, c, u)
                (listed-Scans r manifest_id directory fs file uuid stats from same e c u)
        ]
      ]
    ]

Scans-then :
    (r : Reader) (directory : List Text) (fs : FileSystem) (file : Text) (files : List Text)
    (stats : StatsByName) (from mid out : Scan)
    → Scans r directory fs (file ∷ []) stats from mid
    → Scans r directory fs files stats mid out
    → Scans r directory fs (file ∷ files) stats from out
unfolding last_manifest
Scans-then r directory fs file files stats from mid out a b = record {
  current_is = b.current_is ∙ ap (last_manifest r directory fs files) a.current_is;
  statuses = b.statuses;
  victims_are = λ name current.
      b.victims_are name current
      ∙ ap (λ x. x || contains files name && is_leftover r stats current name)
          (a.victims_are name current)
      ∙ ground arith;
}

pub scan_files-Scans :
    (r : Reader) (manifest_id : ℕ) (directory : List Text) (fs : FileSystem) (files : List Text)
    (stats : StatsByName) (from : Scan)
    → ((name : Text) → is_completed (lookup name from.stats) ≡ is_completed (lookup name stats))
    → All (λ file. is_readable r directory fs stats file ≡ true) files
    → Sure
        (Scans r directory fs files stats from)
        (scan_files r manifest_id directory fs files from)
unfolding scan_files last_manifest
scan_files-Scans r manifest_id directory fs [] stats from same h = record {
  current_is = refl;
  statuses = same;
  victims_are = λ name current. ground arith;
}
scan_files-Scans r manifest_id directory fs (file ∷ files) stats from same (h, hs) =
    Sure-and_then (Scans r directory fs (file ∷ []) stats from)
      (Scans r directory fs (file ∷ files) stats from)
      (scan_file r manifest_id directory fs (ends_with r.suffix file) file from)
      (scan_files r manifest_id directory fs files)
      (scan_file-Scans r manifest_id directory fs file stats from same h)
      (λ mid a.
        Sure-map (Scans r directory fs files stats mid)
          (Scans r directory fs (file ∷ files) stats from)
          (scan_files r manifest_id directory fs files mid)
          (λ out. Scans-then r directory fs file files stats from mid out a)
          (scan_files-Scans r manifest_id directory fs files stats mid a.statuses hs))

scan_file-none :
    (r : Reader) (manifest_id : ℕ) (directory : List Text) (fs : FileSystem) (file : Text)
    (stats : StatsByName) (from : Scan)
    → ((name : Text) → is_completed (lookup name from.stats) ≡ is_completed (lookup name stats))
    → is_readable r directory fs stats file ≡ false
    → scan_file r manifest_id directory fs (ends_with r.suffix file) file from ≡ none
unfolding scan_manifest scan_report
scan_file-none r manifest_id directory fs file stats from same h =
    elim (Bool-cases (ends_with r.suffix file)) [
      | inl e ↦ elim (Option-cases (manifest_says r directory fs file)) [
        | inl unread ↦ rw (e, unread) refl
        | inr (id, read) ↦ cc (rw (e, read) at h)
      ]
      | inr e ↦ elim (Bool-cases (is_completed (lookup file stats))) [
        | inr c ↦ cc (rw (e, c) at h)
        | inl c ↦ elim (Option-cases (last_uuid file)) [
          | inl unnamed ↦ rw (e, same file, c, unnamed) refl
          | inr (uuid, u) ↦ cc (rw (e, c, u) at h)
        ]
      ]
    ]

pub scan_files-none :
    (r : Reader) (manifest_id : ℕ) (directory : List Text) (fs : FileSystem) (files : List Text)
    (stats : StatsByName) (from : Scan) (file : Text)
    → ((name : Text) → is_completed (lookup name from.stats) ≡ is_completed (lookup name stats))
    → contains files file ≡ true
    → is_readable r directory fs stats file ≡ false
    → scan_files r manifest_id directory fs files from ≡ none
unfolding scan_files
scan_files-none r manifest_id directory fs [] stats from file same h k = cc
scan_files-none r manifest_id directory fs (other ∷ files) stats from file same h k =
    let step = scan_file r manifest_id directory fs (ends_with r.suffix other) other from in
    elim (Bool-cases (is_readable r directory fs stats other)) [
      | inr bad ↦
          ap (λ m. and_then m (scan_files r manifest_id directory fs files))
            (scan_file-none r manifest_id directory fs other stats from same bad)
      | inl good ↦ elim (Bool-cases (file == other)) [
        | inl is_it ↦ cc (good, rw (((list_eq {A = ℕ}).beq_iff file other).0 is_it) at k)
        | inr another ↦
            let (mid, e, scans) =
              Sure-eq (Scans r directory fs (other ∷ []) stats from) step
                (scan_file-Scans r manifest_id directory fs other stats from same good) in
            ap (λ m. and_then m (scan_files r manifest_id directory fs files)) e
            ∙ scan_files-none r manifest_id directory fs files stats mid file scans.statuses
                (rw another at h) k
      ]
    ]
