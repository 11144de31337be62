-- ===== src/Provider/Status.antt =====
-- The status of a provider (masu/providers/status.py, masu/database/provider_status_accessor.py):
-- the row of `api_providerstatus` that a `ProviderStatus` object holds, and its operations.
-- A time is a number of microseconds.
pub mod Lifecycle
pub mod Backoff
mod Tests
use masu.Prelude.{
  ℕ, ◌+◌, ◌*◌, ◌^◌, min, String, Bool, true, false, ◌&&◌, not, Option, none, some, leb,
  if◌then◌else◌,
}

-- The members of the `IntEnum`; the values of the column that no member has do not occur.
pub data StatusCode : Type 0 where
  new ready warning disabled_error disabled_admin : StatusCode

-- The values of the members, mirrored from the Koku models.
unfoldable pub code_value : StatusCode → ℕ
code_value new = 0
code_value ready = 1
code_value warning = 33
code_value disabled_error = 98
code_value disabled_admin = 99

abbrev pub max_retries : ℕ
max_retries = 10

-- A row of `api_providerstatus`.
pub record ProviderStatus : Type 0 where
  pub status : StatusCode
  pub timestamp : ℕ
  pub retries : ℕ
  pub last_message : String

pub data OpenResult : Type 0 where
  opened : ProviderStatus → OpenResult
  unknown_provider : OpenResult

-- `ProviderStatusAccessor.__init__` at time `now`: whether the provider exists, and its row if it
-- has one. A provider with no row gets a READY row.
unfoldable pub open_status : Bool → Option ProviderStatus → ℕ → OpenResult
open_status false row now = unknown_provider
open_status true (some row) now = opened row
open_status true none now =
    opened (record { status = ready; timestamp = now; retries = 0; last_message = "none" })

abbrev is_ready : StatusCode → Bool
is_ready ready = true
is_ready _ = false

abbrev is_warning : StatusCode → Bool
is_warning warning = true
is_warning _ = false

abbrev pub is_disabled : StatusCode → Bool
is_disabled disabled_error = true
is_disabled disabled_admin = true
is_disabled _ = false

-- One hour, and a thousandth of it.
abbrev pub hour : ℕ
hour = 3600000000

abbrev pub millihour : ℕ
millihour = 3600000

-- `backoff` as a `timedelta`: `jitter` is the result of `random.randint(0, 1000)`.
unfoldable pub backoff : ℕ → ℕ → ℕ → ℕ
backoff interval maximum jitter = min maximum (2 ^ interval) * hour + jitter * millihour

unfoldable pub is_backing_off : ProviderStatus → (today jitter : ℕ) → Bool
unfolding backoff
is_backing_off s today jitter =
    is_warning s.status
    && (leb s.retries max_retries && leb today (s.timestamp + backoff s.retries 24 jitter))

unfoldable pub is_valid : ProviderStatus → Bool
is_valid s =
    if is_ready s.status
    then true
    else if is_warning s.status && leb s.retries max_retries
    then true
    else false

-- The counter is reset on success, counts warnings, and is left alone by every other status.
abbrev retries_after : StatusCode → ℕ → ℕ
retries_after ready retries = 0
retries_after warning retries = retries + 1
retries_after _ retries = retries

abbrev message_of : Option String → String
message_of none = "none"
message_of (some error) = error

-- `set_status` at time `now`; `error` is `str(error)`.
unfoldable pub set_status : StatusCode → Option String → ℕ → ProviderStatus → ProviderStatus
set_status status error now s = record {
  status = status;
  timestamp = now;
  retries = retries_after status s.retries;
  last_message = message_of error;
}

-- The first test of `set_error`.
abbrev exhaust : Option String → ℕ → ProviderStatus → ProviderStatus
exhaust error now s = if leb max_retries s.retries then set_status disabled_error error now s else s

-- `set_error`: the second test reads the status that the first has written.
unfoldable pub set_error : Option String → ℕ → ProviderStatus → ProviderStatus
unfolding set_status
set_error error now s =
    let s' = exhaust error now s in
    if not (is_disabled s'.status) then set_status warning error now s' else s'
