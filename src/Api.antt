-- ===== src/Api.antt =====
-- The handlers of `/report_data/` (masu/api/report_data.py): the checks on the parameters of a
-- request and the task that is queued.
pub mod Checks
pub mod Others
pub mod Simulated
pub mod CeleryStatus
mod Tests
use masu.Prelude.{
  ℕ, ◌+◌, String, Bool, true, false, ◌&&◌, ◌||◌, not, Option, none, some, List, [], ◌∷◌, map, leb,
  contains, ◌==◌, nat_eq, string_eq, if◌then◌else◌,
}

-- The query of a GET request.
pub record Params : Type 0 where
  pub provider_uuid : Option String
  pub provider_type : Option String
  pub schema : Option String
  pub start_date : Option String
  pub end_date : Option String

pub data Task : Type 0 where
  update_summary_tables :
      (schema provider : String) (uuid : Option String) → String → Option String → Task
  update_all_summary_tables : String → Option String → Task
  remove_expired_data : (schema provider : String) (simulate : Bool) (provider_id : String) → Task

pub data Response : Type 0 where
  error_400 : String → Response
  queued : Task → Response

-- The type that the first branches find; the accessor is asked for a uuid that is not empty.
abbrev pub provider_of : (String → Option String) → Option String → Option String → Option String
provider_of get_type none provider_type = provider_type
provider_of get_type (some uuid) provider_type = if uuid == "" then provider_type else get_type uuid

-- `provider_type and provider_type != provider`
abbrev pub mismatched : Option String → String → Bool
mismatched none provider = false
mismatched (some t) provider = not (t == "") && not (t == provider)

abbrev pub checked_type : Params → String → String → Option String → Response
checked_type params start_date schema none = error_400 "Unable to determine provider type."
checked_type params start_date schema (some provider) =
    if mismatched params.provider_type provider
    then error_400 "provider_uuid and provider_type have mismatched provider types."
    else queued
        (update_summary_tables schema provider params.provider_uuid start_date params.end_date)

abbrev pub checked_schema : Params → String → Option String → Option String → Response
checked_schema params start_date none provider = error_400 "schema is a required parameter."
checked_schema params start_date (some schema) provider =
    checked_type params start_date schema provider

abbrev pub all_providers : Option String → Bool
all_providers none = false
all_providers (some uuid) = uuid == "*"

abbrev pub checked_start : (String → Option String) → Params → Option String → Response
checked_start get_type params none = error_400 "start_date is a required parameter."
checked_start get_type params (some start_date) =
    if all_providers params.provider_uuid
    then queued (update_all_summary_tables start_date params.end_date)
    else checked_schema params start_date params.schema
        (provider_of get_type params.provider_uuid params.provider_type)

abbrev pub is_none : Option String → Bool
is_none none = true
is_none (some a) = false

-- `report_data` by GET; `get_type` is `ProviderDBAccessor.get_type` on the stored providers.
unfoldable pub report_data : (String → Option String) → Params → Response
report_data get_type params =
    if is_none params.provider_uuid && is_none params.provider_type
    then error_400 "provider_uuid or provider_type must be supplied as a parameter."
    else checked_start get_type params params.start_date

-- The query of a DELETE request; `simulate` by code points.
pub record RemoveParams : Type 0 where
  pub schema : Option String
  pub provider : Option String
  pub provider_id : Option String
  pub simulate : Option (List ℕ)

-- `str.lower` on the letters of ASCII. No other character has a letter of 'true' or 'false' as its
-- lower case.
abbrev pub lower : List ℕ → List ℕ
lower text = map (λ c. if leb b'A' c && leb c b'Z' then c + 32 else c) text

abbrev pub spells : List ℕ → List ℕ → Bool
spells [] [] = true
spells (a ∷ text) (b ∷ word) = a == b && spells text word
spells _ _ = false

abbrev pub true_text : List ℕ
true_text = b't' ∷ b'r' ∷ b'u' ∷ b'e' ∷ []

abbrev pub false_text : List ℕ
false_text = b'f' ∷ b'a' ∷ b'l' ∷ b's' ∷ b'e' ∷ []

abbrev pub is_boolean : Option (List ℕ) → Bool
is_boolean none = true
is_boolean (some text) = spells (lower text) true_text || spells (lower text) false_text

abbrev pub is_true : Option (List ℕ) → Bool
is_true none = false
is_true (some text) = spells (lower text) true_text

abbrev pub checked_simulate : RemoveParams → String → String → Option String → Response
checked_simulate params schema provider none = error_400 "provider_id is a required parameter."
checked_simulate params schema provider (some provider_id) =
    if is_boolean params.simulate
    then queued (remove_expired_data schema provider (is_true params.simulate) provider_id)
    else error_400 "simulate must be a boolean."

abbrev pub checked_provider : RemoveParams → String → Option String → Response
checked_provider params schema none = error_400 "provider is a required parameter."
checked_provider params schema (some provider) =
    checked_simulate params schema provider params.provider_id

abbrev pub checked_customer : RemoveParams → Option String → Response
checked_customer params none = error_400 "schema is a required parameter."
checked_customer params (some schema) = checked_provider params schema params.provider

-- `remove_report_data`
unfoldable pub remove_report_data : RemoveParams → Response
remove_report_data params = checked_customer params params.schema
