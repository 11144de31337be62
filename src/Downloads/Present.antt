-- ===== src/Downloads/Present.antt =====
-- Files that a downloader of masu/external/downloader has left on the disk.
use masu.Prelude.{
  ◌≡◌, refl, true, is_some, ◌==◌, ==-refl, nat_eq, list_eq, pair_eq, lookup, insert, lookup-insert,
  Bool-cases, inl, inr,
}
use masu.Tables.Clean.{Text}
use masu.Payload.Files.{FilePath, FileSystem}

abbrev pub IsPresent : FilePath → FileSystem → Type 0
IsPresent path fs = is_some (lookup path fs) ≡ true

-- No file of the first is gone in the second; what a file holds may be another.
abbrev pub Remains : FileSystem → FileSystem → Type 0
Remains fs later = (path : FilePath) → IsPresent path fs → IsPresent path later

pub insert-IsPresent_other :
    (path other : FilePath) (content : Text) (fs : FileSystem)
    → IsPresent path fs
    → IsPresent path (insert other content fs)
insert-IsPresent_other path other content fs h =
    rw (lookup-insert path other content fs)
      (elim (Bool-cases (path == other)) [ inl e ↦ rw e refl | inr e ↦ rw e h ])

pub insert-IsPresent :
    (path : FilePath) (content : Text) (fs : FileSystem) → IsPresent path (insert path content fs)
insert-IsPresent path content fs = rw (lookup-insert path path content fs, ==-refl path) refl
