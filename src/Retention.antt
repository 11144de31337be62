-- ===== src/Retention.antt =====
-- The removal of expired report data (masu/processor/expired_data_remover.py,
-- masu/processor/aws/aws_report_db_cleaner.py, masu/processor/ocp/ocp_report_db_cleaner.py).
-- A date is a number of days. The queries that the cleaners delete by are those of
-- masu/database/aws_report_db_accessor.py and masu/database/ocp_report_db_accessor.py.
pub mod Aws
pub mod Ocp
pub mod Remover
pub mod Loops
pub mod Expiry
mod Tests
use masu.Prelude.{ℕ, Bool, Option, none, some, List, leb, ◌==◌, nat_eq, false, String}

pub data Result {ℓ} (A : Type ℓ) : Type ℓ where
  ok : A → Result A
  cleaner_error : Result A
  remover_error : String → Result A

-- What a purge is asked for: `none` stands for `None`.
pub record Request : Type 0 where
  pub expired_date : Option ℕ
  pub provider_id : Option ℕ
  pub simulate : Bool

-- The start and the provider of a bill or of a usage period: the query for those to remove, or
-- `none` where both or neither of the two arguments is given.
unfoldable pub selects : Request → Option (ℕ → ℕ → Bool)
selects request = elim request.expired_date [
  | some date ↦ elim request.provider_id [
    | some provider ↦ none
    | none ↦ some (λ start provider_id. leb start date)
  ]
  | none ↦ elim request.provider_id [
    | some provider ↦ some (λ start provider_id. provider_id == provider)
    | none ↦ none
  ]
]
