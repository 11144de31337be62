-- ===== src/Payload/Copies.antt =====
-- The copies of `extract_payload`, from a payload to a directory.
use masu.Prelude.{
  ◌≡◌, refl, ap, ◌∙◌, true, some, List, [], ◌∷◌, ◌==◌, ==-refl, nat_eq, pair_eq, list_eq, contains,
  lookup, insert, lookup-insert, Bool-cases, Option-cases, inl, inr,
}
use masu.Tables.Clean.{Text}
use masu.Payload.Files.{FilePath, FileSystem}
use masu.Payload.{copy_files}

-- A name has at the destination what it has in the payload.
pub record IsCopied (payload fs : FileSystem) (subdirectory destination : List Text) (name : Text)
    : Type 0 where
  pub text : Text
  pub sent : lookup (subdirectory, name) payload ≡ some text
  pub laid : lookup (destination, name) fs ≡ some text

module _ (payload : FileSystem) (subdirectory destination : List Text) where
  -- Another copy from the payload does not undo one.
  insert-IsCopied :
      (fs : FileSystem) (name other text : Text)
      → lookup (subdirectory, other) payload ≡ some text
      → IsCopied payload fs subdirectory destination name
      → IsCopied payload (insert (destination, other) text fs) subdirectory destination name
  insert-IsCopied fs name other text e c =
      let key : FilePath = (destination, name) in
      let changed : FilePath = (destination, other) in
      elim (Bool-cases (key == changed)) [
        | inl same ↦
            let is_other : name ≡ other =
              ap (λ path. path.1) ((pair_eq.beq_iff key changed).0 same) in
            record {
              text = text;
              sent = ap (λ n. lookup (subdirectory, n) payload) is_other ∙ e;
              laid = lookup-insert key changed text fs ∙ rw same refl;
            }
        | inr another ↦ record {
          text = c.text;
          sent = c.sent;
          laid = lookup-insert key changed text fs ∙ rw another c.laid;
        }
      ]

  pub put-IsCopied :
      (fs : FileSystem) (name text : Text)
      → lookup (subdirectory, name) payload ≡ some text
      → IsCopied payload (insert (destination, name) text fs) subdirectory destination name
  put-IsCopied fs name text e =
      let key : FilePath = (destination, name) in
      record { text = text; sent = e; laid = lookup-insert key key text fs ∙ rw (==-refl key) refl }

  pub copy_files-keeps :
      (files : List Text) (fs : FileSystem) (name : Text)
      → IsCopied payload fs subdirectory destination name
      → IsCopied payload
          (copy_files payload subdirectory destination files fs).1
          subdirectory
          destination
          name
  unfolding copy_files
  copy_files-keeps [] fs name c = c
  copy_files-keeps (file ∷ files) fs name c =
      elim (Option-cases (lookup (subdirectory, file) payload)) [
        | inl e ↦ rw e c
        | inr (text, e) ↦ rw e (
            copy_files-keeps files (insert (destination, file) text fs) name
              (insert-IsCopied fs name file text e c))
      ]

  pub copy_files-IsCopied :
      (files : List Text) (fs : FileSystem) (name : Text)
      → (copy_files payload subdirectory destination files fs).0 ≡ true
      → contains files name ≡ true
      → IsCopied payload
          (copy_files payload subdirectory destination files fs).1
          subdirectory
          destination
          name
  unfolding copy_files
  copy_files-IsCopied [] fs name ok h = cc
  copy_files-IsCopied (file ∷ files) fs name ok h =
      elim (Option-cases (lookup (subdirectory, file) payload)) [
        | inl e ↦ cc (rw e at ok)
        | inr (text, e) ↦ rw e (elim (Bool-cases (name == file)) [
          | inl same ↦
              copy_files-keeps files (insert (destination, file) text fs) name
                (rw ((list_eq.beq_iff name file).0 same) (put-IsCopied fs file text e))
          | inr other ↦
              copy_files-IsCopied files (insert (destination, file) text fs) name (rw e at ok)
                (rw other at h)
        ])
      ]
