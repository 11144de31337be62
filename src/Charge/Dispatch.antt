-- ===== src/Charge/Dispatch.antt =====
-- The charge update of a provider of any type: `update_charge_info` of masu/processor/tasks.py,
-- masu/processor/report_charge_updater.py, masu/processor/aws/aws_report_charge_updater.py and
-- `update_summary_charge_info` of masu/processor/ocp/ocp_report_charge_updater.py. The SQL of the cost
-- summary is an entry of a log, with its arguments.
use masu.Prelude.{
  ℕ, String, Bool, true, ◌&&◌, Option, none, some, List, [], ◌∷◌, ◌++◌, map, ◌==◌, nat_eq,
  if◌then◌else◌,
}
use masu.Prelude.Int.{ℤ, ◌+ℤ◌}
use masu.Provider.{is_aws, is_ocp}
use masu.Summary.{Date, Moment, Provider, same_date, first_day, get_cluster_id_from_provider}
use masu.Charge.{Result, ok, ◌>>=◌}
use masu.Charge.Updater.{
  Db, PodRow, StorageRow, get_rates, update_pod_charge, update_storage_charge,
}
use masu.Charge.Updater.Totals.{ChargedBy}

-- A bill of AWS or a report period of OpenShift.
pub record CostPeriod : Type 0 where
  pub id : ℕ
  pub provider_id : ℕ
  pub start : Date
  pub derived_cost_datetime : Option Moment

pub record CostDb : Type 0 where
  pub bills : List CostPeriod
  pub report_periods : List CostPeriod
  pub usage : Db
  pub cost_summaries : List (Option String × Option Date × Option Date)

abbrev pub in_month_of : Option Date → CostPeriod → Bool
in_month_of none p = true
in_month_of (some start_date) p = same_date p.start (first_day start_date)

-- `bills_for_provider_id` and `report_periods_for_provider_id`
unfoldable pub for_provider : ℕ → Option Date → CostPeriod → Bool
for_provider provider_id start_date p = p.provider_id == provider_id && in_month_of start_date p

-- The loop that stamps the rows.
unfoldable pub stamp_costs : Moment → ℕ → Option Date → List CostPeriod → List CostPeriod
unfolding for_provider
stamp_costs now provider_id start_date rows =
    map
      (λ p.
        if for_provider provider_id start_date p
        then record p { derived_cost_datetime = some now }
        else p)
      rows

-- `AWSReportChargeUpdater.update_summary_charge_info`
unfoldable pub update_aws_charge_info : Moment → Provider → Option Date → CostDb → CostDb
unfolding stamp_costs
update_aws_charge_info now provider start_date db = record db {
  bills = stamp_costs now provider.id start_date db.bills;
}

module _ (stored : ℤ → ℤ) where
  -- `OCPReportChargeUpdater.update_summary_charge_info`
  unfoldable pub update_ocp_charge_info :
      Moment → Provider → (start_date end_date : Option Date) → CostDb → Result CostDb
  update_ocp_charge_info now provider start_date end_date db = do
    let cluster_id : Option String = get_cluster_id_from_provider provider
    usage ← update_pod_charge stored provider.uuid cluster_id db.usage
    usage' ← update_storage_charge stored provider.uuid cluster_id usage
    ok (record {
      bills = db.bills;
      report_periods = stamp_costs now provider.id start_date db.report_periods;
      usage = usage';
      cost_summaries = db.cost_summaries ++ (cluster_id, start_date, end_date) ∷ [];
    })

  -- The task `update_charge_info`: another provider type has no updater, and nothing happens.
  unfoldable pub update_charge_info :
      Moment → Provider → (start_date end_date : Option Date) → CostDb → Result CostDb
  unfolding update_aws_charge_info update_ocp_charge_info
  update_charge_info now provider start_date end_date db =
      let ocp = update_ocp_charge_info now provider start_date end_date db in
      if is_aws provider.provider_type
      then ok (update_aws_charge_info now provider start_date db)
      else if is_ocp provider.provider_type
      then ocp
      else ok db

-- The rates of the six metrics of a provider charge every usage by these functions.
pub record HasCharges (provider_uuid : String) (db : Db) : Type 0 where
  pub cpu_usage : ℤ → ℤ
  pub cpu_request : ℤ → ℤ
  pub memory_usage : ℤ → ℤ
  pub memory_request : ℤ → ℤ
  pub storage_usage : ℤ → ℤ
  pub storage_request : ℤ → ℤ
  pub has_cpu_usage : ChargedBy (get_rates db provider_uuid "cpu_core_usage_per_hour") cpu_usage
  pub has_cpu_request :
      ChargedBy (get_rates db provider_uuid "cpu_core_request_per_hour") cpu_request
  pub has_memory_usage :
      ChargedBy (get_rates db provider_uuid "memory_gb_usage_per_hour") memory_usage
  pub has_memory_request :
      ChargedBy (get_rates db provider_uuid "memory_gb_request_per_hour") memory_request
  pub has_storage_usage :
      ChargedBy (get_rates db provider_uuid "storage_gb_usage_per_month") storage_usage
  pub has_storage_request :
      ChargedBy (get_rates db provider_uuid "storage_gb_request_per_month") storage_request

module _ (stored : ℤ → ℤ) (provider_uuid : String) (db : Db) (c : HasCharges provider_uuid db) where
  -- A pod row and a storage row of the cluster, with the sums of their charges.
  abbrev pub charged_pod : PodRow → PodRow
  charged_pod r = record r {
    pod_charge_cpu_core_hours = some (
        stored
          (c.cpu_usage r.pod_usage_cpu_core_hours +ℤ c.cpu_request r.pod_request_cpu_core_hours));
    pod_charge_memory_gigabyte_hours = some (
        stored (
          c.memory_usage r.pod_usage_memory_gigabyte_hours
          +ℤ c.memory_request r.pod_request_memory_gigabyte_hours));
  }

  abbrev pub charged_storage : StorageRow → StorageRow
  charged_storage r = record r {
    persistentvolumeclaim_charge_gb_month = some (
        stored (
          c.storage_usage r.persistentvolumeclaim_usage_gigabyte_months
          +ℤ c.storage_request r.volume_request_storage_gigabyte_months));
  }
