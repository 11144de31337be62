-- ===== src/ReportFiles/Removal.antt =====
-- The second loop of `remove_temp_cur_files`, which removes the victims
-- (masu/processor/aws/aws_report_processor.py, masu/processor/ocp/ocp_report_processor.py).
use masu.Prelude.{
  ℕ, Bool, true, false, ◌&&◌, ◌≡◌, refl, arith, Option, none, List, [], ◌∷◌, any, ◌==◌, ==-refl,
  nat_eq, list_eq, pair_eq, option_eq, lookup, if◌then◌else◌, Option-cases, inl, inr,
}
use masu.Tables.Clean.{Text}
use masu.Payload.Files.{FilePath, FileSystem}
use masu.ReportFiles.{Victim, remove, is_old, remove_victims}

lookup-remove :
    (p q : FilePath) (fs : FileSystem)
    → lookup q (remove p fs) ≡ (if q == p then none else lookup q fs)
unfolding remove lookup
lookup-remove p q [] = ground arith
lookup-remove p q ((r, content) ∷ fs) =
    let same = (pair_eq {A = List Text} {B = Text}).beq_iff in
    ground (arith, same p r, same q p, same q r, lookup-remove p q fs)

-- A file of the directory is gone if an old entry names it.
abbrev pub names_old : Text → Option Text → Victim → Bool
names_old name current v = name == v.file && is_old current v

gone :
    (directory : List Text) (file name : Text) (fs : FileSystem)
    → lookup (directory, file) fs ≡ none
    → (name == file) ≡ true
    → lookup (directory, name) fs ≡ none
gone directory file name fs h e = rw (((list_eq {A = ℕ}).beq_iff name file).0 e) h

pub remove_victims-lookup :
    (directory : List Text) (name : Text) (current : Option Text) (victims : List Victim)
    (fs : FileSystem)
    → lookup (directory, name) (remove_victims directory current victims fs).1
      ≡ (if any (names_old name current) victims then none else lookup (directory, name) fs)
unfolding remove_victims
remove_victims-lookup directory name current [] fs = refl
remove_victims-lookup directory name current (v ∷ victims) fs =
    let path : FilePath = (directory, v.file) in
    elim (Option-cases (lookup path fs)) [
      | inl absent ↦ rw absent (
          ground (
            arith,
            remove_victims-lookup directory name current victims fs,
            gone directory v.file name fs absent,
          ))
      | inr (content, found) ↦
          let later = remove_victims-lookup directory name current victims (remove path fs) in
          let removed = lookup-remove path (directory, name) fs in
          rw found (
            ground (
              arith,
              rw (removed, ==-refl directory) at later,
              remove_victims-lookup directory name current victims fs,
            ))
    ]

pub remove_victims-elsewhere :
    (directory : List Text) (other : FilePath) (current : Option Text) (victims : List Victim)
    (fs : FileSystem)
    → (other.0 == directory) ≡ false
    → lookup other (remove_victims directory current victims fs).1 ≡ lookup other fs
unfolding remove_victims
remove_victims-elsewhere directory other current [] fs h = refl
remove_victims-elsewhere directory other current (v ∷ victims) fs h =
    let path : FilePath = (directory, v.file) in
    let later = remove_victims-elsewhere directory other current victims (remove path fs) h in
    ground (
      arith,
      rw (lookup-remove path other fs, h) at later,
      remove_victims-elsewhere directory other current victims fs h,
    )
