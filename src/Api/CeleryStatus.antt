-- ===== src/Api/CeleryStatus.antt =====
-- The status of Celery and the commit that `/status/` reports (masu/api/status.py). What the broker,
-- the environment and git answer is given.
use masu.Prelude.{String, Bool, true, false, Option, none, some, ◌==◌, string_eq, if◌then◌else◌}

-- The answers of one `inspector.stats()`: statistics, nothing, or a ConnectionResetError or a
-- TimeoutError with its text.
pub data Inspected : Type 0 where
  workers : String → Inspected
  no_workers : Inspected
  failed : String → Inspected

pub data CeleryStatus : Type 0 where
  stats : String → CeleryStatus
  error : String → CeleryStatus

abbrev pub broker_connection_error : String
broker_connection_error = "Unable to establish connection with broker."

abbrev pub celery_worker_not_found : String
celery_worker_not_found = "No running Celery workers were found."

-- `_check_celery_status`
unfoldable pub check_celery_status : Inspected → CeleryStatus
check_celery_status (workers text) = stats text
check_celery_status no_workers = error celery_worker_not_found
check_celery_status (failed text) = error text

abbrev pub again_if : CeleryStatus → CeleryStatus → CeleryStatus
again_if (stats text) again = stats text
again_if (error text) again = if text == celery_worker_not_found then error text else again

-- `celery_status`: whether the broker is reached, and what a first and a second inspection find.
unfoldable pub celery_status : Bool → (first second : Inspected) → CeleryStatus
unfolding check_celery_status
celery_status false first second = error broker_connection_error
celery_status true first second = again_if (check_celery_status first) (check_celery_status second)

-- `commit`: the environment's, or what git prints, if it prints something.
unfoldable pub commit : (build_commit : Option String) → (described : String) → Option String
commit none described = if described == "" then none else some described
commit (some build_commit) described =
    let from_git = if described == "" then none else some described in
    if build_commit == "" then from_git else some build_commit
