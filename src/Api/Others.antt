-- ===== src/Api/Others.antt =====
-- The handlers of `/expired_data/` and `/update_charge/` (masu/api/expired_data.py,
-- masu/api/update_charge.py), the removals that the orchestrator queues
-- (`remove_expired_report_data` of masu/processor/orchestrator.py), and a run of such a task
-- (masu/processor/tasks.py, masu/processor/_tasks/remove_expired.py).
use masu.Prelude.{
  ℕ, String, Bool, true, false, ◌&&◌, Option, none, some, List, [], ◌∷◌, map, string_eq, lookup,
  insert, if◌then◌else◌,
}
use masu.Orchestrator.{Account}
use masu.Summary.{Date}
use masu.Retention.{Result, ok, cleaner_error, remover_error}
use masu.Retention.Remover.{Schema, Removed}
use masu.Retention.Expiry.{remover_remove}

-- The methods of the route.
pub data Method : Type 0 where
  get delete : Method

-- A `remove_expired_data` in the queue, without a provider id.
pub record Removal : Type 0 where
  pub schema_name : String
  pub provider : String
  pub simulate : Bool

-- `Orchestrator.remove_expired_report_data`
unfoldable pub remove_expired_report_data : Bool → List Account → List Removal
remove_expired_report_data simulate accounts =
    map
      (λ account. record {
        schema_name = account.schema_name;
        provider = account.provider_type;
        simulate = simulate;
      })
      accounts

abbrev pub is_delete : Method → Bool
is_delete get = false
is_delete delete = true

-- `expired_data`
unfoldable pub expired_data : Method → (debug : Bool) → List Account → List Removal
unfolding remove_expired_report_data
expired_data method debug accounts =
    let simulate = if is_delete method && debug then false else true in
    remove_expired_report_data simulate accounts

-- What `update_charge` answers: an error, or the task `update_charge_info` with a schema and a uuid.
pub data ChargeResponse : Type 0 where
  charge_error : String → ChargeResponse
  charge_queued : (schema_name provider_uuid : String) → ChargeResponse

unfoldable pub update_charge : (provider_uuid schema_name : Option String) → ChargeResponse
update_charge none schema_name =
    charge_error "provider_uuid and schema_name are required parameters."
update_charge (some uuid) none =
    charge_error "provider_uuid and schema_name are required parameters."
update_charge (some uuid) (some schema_name) = charge_queued schema_name uuid

abbrev pub Schemas : Type 0
Schemas = List (String × Schema)

-- An exception leaves the tables alone.
abbrev pub after_removal : String → Schemas → Option (Result (Removed × Schema)) → Schemas
after_removal name schemas none = schemas
after_removal name schemas (some (ok (removed, schema))) = insert name schema schemas
after_removal name schemas (some cleaner_error) = schemas
after_removal name schemas (some (remover_error message)) = schemas

abbrev pub on_schema : ℕ → Date → Removal → Schemas → Option Schema → Schemas
on_schema retain_num_months today task schemas none = schemas
on_schema retain_num_months today task schemas (some schema) =
    after_removal task.schema_name schemas
      (remover_remove retain_num_months task.provider none today today task.simulate none schema)

-- The task `remove_expired_data` on the schema that it names.
unfoldable pub run_removal : ℕ → Date → Removal → Schemas → Schemas
run_removal retain_num_months today task schemas =
    on_schema retain_num_months today task schemas (lookup task.schema_name schemas)

unfoldable pub run_removals : ℕ → Date → List Removal → Schemas → Schemas
unfolding run_removal
run_removals retain_num_months today [] schemas = schemas
run_removals retain_num_months today (task ∷ tasks) schemas =
    run_removals retain_num_months today tasks (run_removal retain_num_months today task schemas)
