-- ===== src/Payload/Files.antt =====
-- Files and the names that masu/util/ocp/common.py gives them.
use masu.Prelude.{
  ℕ, ◌+◌, ◌*◌, ◌-◌, ◌/◌, ◌%◌, Option, none, some, List, [], ◌∷◌, ◌++◌, ◌==◌, nat_eq, pair_eq,
  list_eq, if◌then◌else◌,
}
use masu.Prelude.Options.{and_then}
use masu.Labels.{split}
use masu.Tables.Clean.{Text}

-- The directories on the way to a file, which no name with a slash is, and its name.
abbrev pub FilePath : Type 0
FilePath = List Text × Text

abbrev pub FileSystem : Type 0
FileSystem = List (FilePath × Text)

-- `os.listdir`; a directory that is not there has no names.
unfoldable pub listdir : List Text → FileSystem → List Text
listdir directory [] = []
listdir directory (((other, name), content) ∷ fs) =
    let names = listdir directory fs in if directory == other then name ∷ names else names

pub record Month : Type 0 where
  pub year : ℕ
  pub month : ℕ

-- '%Y%m%d' of the first day of a month, for the years that have four digits.
abbrev pub digit : ℕ → ℕ
digit n = 48 + n % 10

abbrev two_digits : ℕ → Text → Text
two_digits n text = digit (n / 10) ∷ digit n ∷ text

abbrev pub day_text : Month → Text → Text
day_text d text =
    two_digits (d.year / 100) (two_digits d.year (two_digits d.month (b'0' ∷ b'1' ∷ text)))

abbrev pub next_month : Month → Month
next_month d =
    if d.month == 12
    then record { year = d.year + 1; month = 1 }
    else record { year = d.year; month = d.month + 1 }

-- `month_date_range`
unfoldable pub month_date_range : Month → Text
month_date_range d = day_text d (b'-' ∷ day_text (next_month d) [])

abbrev pub value : ℕ → ℕ → ℕ
value a b = (a - 48) * 10 + (b - 48)

-- `strptime(text, '%Y%m%d')` on eight digits.
abbrev pub strptime : Text → Option Month
strptime (a ∷ b ∷ c ∷ d ∷ e ∷ f ∷ g ∷ h ∷ []) =
    some (record { year = value a b * 100 + value c d; month = value e f })
strptime _ = none

abbrev pub first_of : List Text → Option Text
first_of [] = none
first_of (part ∷ parts) = some part

-- The start of the billing period that `_prepare_db_manifest_record` of the OpenShift downloader reads
-- off the name of a directory.
unfoldable pub billing_start : Text → Option Month
billing_start date_range = and_then (first_of (split b'-' date_range)) strptime

abbrev pub last_of : List Text → Option Text
last_of [] = none
last_of (part ∷ []) = some part
last_of (part ∷ next ∷ parts) = last_of (next ∷ parts)

-- `get_local_file_name`; a path without a directory has no last but one part.
unfoldable pub get_local_file_name : FilePath → Option Text
get_local_file_name (directory, filename) =
    and_then (last_of directory) (λ date_range. some (date_range ++ b'_' ∷ filename))

-- What a manifest.json says; a key that it does not have is `none`.
pub record Details : Type 0 where
  pub date : Option Month
  pub uuid : Option Text
  pub cluster_id : Option Text
  pub files : Option (List Text)

-- `get_report_details`: of no file, {}. A file that is no JSON, or whose date is none, raises a
-- ValueError; one without a date is read as far as it goes.
unfoldable pub get_report_details :
    (parse : Text → Option Details) → Option Text → Option (Option Details)
get_report_details parse none = some none
get_report_details parse (some content) = and_then (parse content) (λ details. some (some details))

abbrev pub manifest_name : Text
manifest_name =
    b'm' ∷ b'a' ∷ b'n' ∷ b'i' ∷ b'f' ∷ b'e' ∷ b's' ∷ b't' ∷ b'.' ∷ b'j' ∷ b's' ∷ b'o' ∷ b'n' ∷ []

-- '{INSIGHTS_LOCAL_REPORT_DIR}/{cluster_id}/{month}'
abbrev pub reports_dir : Text
reports_dir = b'l' ∷ b'o' ∷ b'c' ∷ b'a' ∷ b'l' ∷ []

abbrev pub formatted : Option Text → Text
formatted none = b'N' ∷ b'o' ∷ b'n' ∷ b'e' ∷ []
formatted (some text) = text

abbrev pub report_directory : Text → Month → List Text
report_directory cluster_id d = reports_dir ∷ cluster_id ∷ month_date_range d ∷ []
