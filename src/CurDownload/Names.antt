-- ===== src/CurDownload/Names.antt =====
-- The names of local files: masu/util/aws/common.py and `extract_uuids_from_string` of
-- masu/util/common.py.
use masu.Prelude.{
  ℕ, zero, suc, Bool, true, false, ◌&&◌, ◌||◌, Option, none, some, List, [], ◌∷◌, ◌++◌, leb, ◌==◌,
  nat_eq, list_eq,
}
use masu.Labels.{split}
use masu.Tables.Clean.{Text}
use masu.Payload.Files.{FilePath}

-- The regular expression for a UUID, one class of characters after the other, in either case.
abbrev is_hex : ℕ → Bool
is_hex c = leb b'0' c && leb c b'9' || leb b'a' c && leb c b'f' || leb b'A' c && leb c b'F'

abbrev is_version : ℕ → Bool
is_version c = leb b'1' c && leb c b'5'

abbrev is_variant : ℕ → Bool
is_variant c = c == b'8' || c == b'9' || c == b'a' || c == b'b' || c == b'A' || c == b'B'

abbrev pub is_dash : ℕ → Bool
is_dash c = c == b'-'

abbrev hex_digits : ℕ → List (ℕ → Bool) → List (ℕ → Bool)
hex_digits zero classes = classes
hex_digits (suc n) classes = is_hex ∷ hex_digits n classes

abbrev uuid_regex : List (ℕ → Bool)
uuid_regex = hex_digits 8 (
    is_dash
    ∷ hex_digits 4 (
        is_dash
        ∷ is_version
        ∷ hex_digits 3 (is_dash ∷ is_variant ∷ hex_digits 3 (is_dash ∷ hex_digits 12 []))))

-- The match at the start of a text.
abbrev pub match_at : List (ℕ → Bool) → Text → Option Text
match_at [] text = some []
match_at (test ∷ tests) [] = none
match_at (test ∷ tests) (c ∷ text) = elim (test c) [
  | true ↦ elim (match_at tests text) [ none ↦ none | some found ↦ some (c ∷ found) ]
  | false ↦ none
]

-- `re.findall`: the matches from the left, which do not overlap; `skip` characters belong to the last.
unfoldable pub findall : (skip : ℕ) → Text → List Text
findall skip [] = []
findall (suc skip) (c ∷ text) = findall skip text
findall zero (c ∷ text) = elim (match_at uuid_regex (c ∷ text)) [
  | none ↦ findall zero text
  | some uuid ↦ uuid ∷ findall 35 text
]

abbrev pub extract_uuids_from_string : Text → List Text
extract_uuids_from_string text = findall 0 text

abbrev pub pop : List Text → Option Text
pop [] = none
pop (uuid ∷ []) = some uuid
pop (uuid ∷ next ∷ uuids) = pop (next ∷ uuids)

-- The text of a key, with its slashes.
abbrev key_text : List Text → Text → Text
key_text [] name = name
key_text (part ∷ parts) name = part ++ b'/' ∷ key_text parts name

unfoldable pub get_assembly_id_from_cur_key : FilePath → Option Text
get_assembly_id_from_cur_key (directory, name) =
    pop (extract_uuids_from_string (key_text directory name))

abbrev local_name : Option Text → Text → Text
local_name none s3_filename = s3_filename
local_name (some assembly_id) s3_filename = assembly_id ++ b'-' ∷ s3_filename

-- `get_local_file_name`
unfoldable pub get_local_file_name : FilePath → Text
unfolding get_assembly_id_from_cur_key
get_local_file_name (directory, s3_filename) =
    local_name (get_assembly_id_from_cur_key (directory, s3_filename)) s3_filename

abbrev has_text : Text → Bool
has_text [] = false
has_text (c ∷ text) = true

-- Whether the last of the parts between dots is 'gz', and one before it is not empty.
abbrev ends_in_gz : Bool → List Text → Bool
ends_in_gz named [] = false
ends_in_gz named (part ∷ []) = named && part == (b'g' ∷ b'z' ∷ [])
ends_in_gz named (part ∷ next ∷ parts) = ends_in_gz (named || has_text part) (next ∷ parts)

-- `os.path.splitext(key)[1] == '.gz'`
unfoldable pub is_compressed : Text → Bool
is_compressed name = ends_in_gz false (split b'.' name)
