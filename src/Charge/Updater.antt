-- ===== src/Charge/Updater.antt =====
-- The rate accessor (masu/database/ocp_rate_db_accessor.py), the tables that the updater reads and
-- writes, and the methods of `OCPReportChargeUpdater` down to the SQL of
-- masu/database/sql/reporting_ocpusagelineitem_daily_pod_charge.sql and
-- masu/database/sql/reporting_ocp_storage_charge.sql.
pub mod Keys
pub mod Rows
pub mod Totals
use masu.Prelude.{
  ℕ, String, Bool, true, false, ◌&&◌, Option, none, some, List, [], ◌∷◌, ◌++◌, map, select, any,
  ◌==◌, nat_eq, string_eq, lookup, if◌then◌else◌,
}
use masu.Prelude.Int.{ℤ, ◌+ℤ◌}
use masu.Charge.{
  Tier, Error, mismatched, key_error, Result, ok, err, is_updater_error, ◌>>=◌, ◌>>◌, require,
}
use masu.Charge.Variable.{calculate_variable_charge}

pub record Rate : Type 0 where
  pub id : ℕ
  pub metric : String
  pub tiered_rate : List Tier

pub record RateMap : Type 0 where
  pub rate_id : ℕ
  pub provider_uuid : String

-- A row of `reporting_ocpusagelineitem_daily_summary`.
pub record PodRow : Type 0 where
  pub id : ℕ
  pub cluster_id : String
  pub pod_usage_cpu_core_hours : ℤ
  pub pod_request_cpu_core_hours : ℤ
  pub pod_usage_memory_gigabyte_hours : ℤ
  pub pod_request_memory_gigabyte_hours : ℤ
  pub pod_charge_cpu_core_hours : Option ℤ
  pub pod_charge_memory_gigabyte_hours : Option ℤ

-- A row of `reporting_ocpstoragelineitem_daily_summary`.
pub record StorageRow : Type 0 where
  pub id : ℕ
  pub cluster_id : String
  pub persistentvolumeclaim_usage_gigabyte_months : ℤ
  pub volume_request_storage_gigabyte_months : ℤ
  pub persistentvolumeclaim_charge_gb_month : Option ℤ

pub record Db : Type 0 where
  pub rates : List Rate
  pub rate_maps : List RateMap
  pub pods : List PodRow
  pub storage : List StorageRow

-- The join of `_get_base_entry` for one rate.
abbrev joined : String → String → Rate → List RateMap → List (List Tier)
joined provider_uuid metric_value rate [] = []
joined provider_uuid metric_value rate (m ∷ ms) =
    let rest = joined provider_uuid metric_value rate ms in
    if rate.id == m.rate_id && (m.provider_uuid == provider_uuid && rate.metric == metric_value)
    then rate.tiered_rate ∷ rest
    else rest

abbrev join : String → String → List Rate → List RateMap → List (List Tier)
join provider_uuid metric_value [] maps = []
join provider_uuid metric_value (r ∷ rs) maps =
    joined provider_uuid metric_value r maps ++ join provider_uuid metric_value rs maps

abbrev only : List (List Tier) → Option (List Tier)
only [] = none
only (r ∷ []) = some r
only (r ∷ s ∷ rs) = none

-- `get_rates`, which the six `get_..._rates` methods call with the name of their metric.
unfoldable pub get_rates : Db → String → String → Option (List Tier)
get_rates db provider_uuid value = only (join provider_uuid value db.rates db.rate_maps)

-- `if cluster_id:` of `_get_reports`.
unfoldable pub in_cluster : Option String → String → Bool
in_cluster none cluster_id = true
in_cluster (some wanted) cluster_id = if wanted == "" then true else cluster_id == wanted

-- `{entry.id: entry.<column> for entry in _get_reports(...)}`. The ids are primary keys.
unfoldable pub pod_column : (PodRow → ℤ) → Option String → List PodRow → List (ℕ × ℤ)
unfolding in_cluster
pod_column column cluster_id rows =
    map (λ r. (r.id, column r)) (select (λ r. in_cluster cluster_id r.cluster_id) rows)

unfoldable pub storage_column : (StorageRow → ℤ) → Option String → List StorageRow → List (ℕ × ℤ)
unfolding in_cluster
storage_column column cluster_id rows =
    map (λ r. (r.id, column r)) (select (λ r. in_cluster cluster_id r.cluster_id) rows)

-- `_calculate_charge`: usage and charge for each key.
unfoldable pub calculate_charge : Option (List Tier) → List (ℕ × ℤ) → Result (List (ℕ × (ℤ × ℤ)))
unfolding calculate_variable_charge
calculate_charge rates [] = ok []
calculate_charge rates ((key, value) ∷ usage) = calculate_variable_charge value rates >>= λ charge.
    calculate_charge rates usage >>= λ rest. ok ((key, (value, charge)) ∷ rest)

-- `usage_charge.keys() != request_charge.keys()`, as sets.
abbrev has_key {ℓ} : {V : Type ℓ} → List (ℕ × V) → ℕ → Bool
has_key d k = any (λ entry. k == entry.0) d

abbrev keys_within {ℓ} : {V : Type ℓ} → List (ℕ × V) → List (ℕ × V) → Bool
keys_within [] e = true
keys_within ((k, v) ∷ d) e = has_key e k && keys_within d e

unfoldable pub charge_at : ℕ → List (ℕ × (ℤ × ℤ)) → Result ℤ
charge_at key d = elim (lookup key d) [ none ↦ err key_error | some (usage, charge) ↦ ok charge ]

pub record Charges : Type 0 where
  pub usage_charge : ℤ
  pub request_charge : ℤ
  pub charge : ℤ

unfoldable pub aggregate_each :
    List (ℕ × (ℤ × ℤ)) → List (ℕ × (ℤ × ℤ)) → Result (List (ℕ × Charges))
unfolding charge_at ◌+ℤ◌
aggregate_each [] request_charge = ok []
aggregate_each ((key, (usage, charge)) ∷ rest) request_charge =
    charge_at key request_charge >>= λ requested. aggregate_each rest request_charge >>= λ others.
    ok (
      (
        key,
        record { usage_charge = charge; request_charge = requested; charge = charge +ℤ requested },
      )
      ∷ others)

unfoldable pub aggregate_charges :
    (usage_charge request_charge : List (ℕ × (ℤ × ℤ))) → Result (List (ℕ × Charges))
unfolding aggregate_each
aggregate_charges usage_charge request_charge = do
  require (keys_within usage_charge request_charge && keys_within request_charge usage_charge)
      mismatched
  aggregate_each usage_charge request_charge

-- The charge dictionary of one metric pair, from its rates and its two columns.
unfoldable pub total_charge :
    Option (List Tier)
    → Option (List Tier)
    → (usage request : List (ℕ × ℤ)) → Result (List (ℕ × Charges))
unfolding calculate_charge aggregate_charges
total_charge usage_rates request_rates usage request = do
  usage_charge ← calculate_charge usage_rates usage
  request_charge ← calculate_charge request_rates request
  aggregate_charges usage_charge request_charge

-- The first `try` of `_update_pod_charge`, its second, and the body of `_update_storage_charge`.
unfoldable pub total_cpu_charge : String → Option String → Db → Result (List (ℕ × Charges))
unfolding get_rates pod_column total_charge
total_cpu_charge provider_uuid cluster_id db =
    total_charge (get_rates db provider_uuid "cpu_core_usage_per_hour")
      (get_rates db provider_uuid "cpu_core_request_per_hour")
      (pod_column (λ r. r.pod_usage_cpu_core_hours) cluster_id db.pods)
      (pod_column (λ r. r.pod_request_cpu_core_hours) cluster_id db.pods)

unfoldable pub total_memory_charge : String → Option String → Db → Result (List (ℕ × Charges))
unfolding get_rates pod_column total_charge
total_memory_charge provider_uuid cluster_id db =
    total_charge (get_rates db provider_uuid "memory_gb_usage_per_hour")
      (get_rates db provider_uuid "memory_gb_request_per_hour")
      (pod_column (λ r. r.pod_usage_memory_gigabyte_hours) cluster_id db.pods)
      (pod_column (λ r. r.pod_request_memory_gigabyte_hours) cluster_id db.pods)

unfoldable pub total_storage_charge : String → Option String → Db → Result (List (ℕ × Charges))
unfolding get_rates storage_column total_charge
total_storage_charge provider_uuid cluster_id db =
    total_charge (get_rates db provider_uuid "storage_gb_usage_per_month")
      (get_rates db provider_uuid "storage_gb_request_per_month")
      (storage_column (λ r. r.persistentvolumeclaim_usage_gigabyte_months) cluster_id db.storage)
      (storage_column (λ r. r.volume_request_storage_gigabyte_months) cluster_id db.storage)

-- `except OCPReportChargeUpdaterError` with an empty dictionary for the result.
abbrev or_empty : Result (List (ℕ × Charges)) → Result (List (ℕ × Charges))
or_empty (ok d) = ok d
or_empty (err e) = if is_updater_error e then ok [] else err e

-- `stored` is what the column `numeric(24,6)` of PostgreSQL keeps of a charge.
module _ (stored : ℤ → ℤ) where
  -- `_write_to_temp_table`: the rows that the database then holds.
  unfoldable pub write_to_temp_table : List (ℕ × Charges) → List (ℕ × ℤ)
  write_to_temp_table charge_data = map (λ entry. (entry.0, stored (entry.1).charge)) charge_data

  abbrev set_pod_charge : Option ℤ → Option ℤ → PodRow → PodRow
  set_pod_charge (some cpu) (some mem) r = record r {
    pod_charge_cpu_core_hours = some cpu;
    pod_charge_memory_gigabyte_hours = some mem;
  }
  set_pod_charge _ _ r = r

  -- The UPDATE from the join of both temporary tables.
  unfoldable pub populate_pod_charge :
      (cpu_temp mem_temp : List (ℕ × ℤ)) → List PodRow → List PodRow
  populate_pod_charge cpu_temp mem_temp rows =
      map (λ r. set_pod_charge (lookup r.id cpu_temp) (lookup r.id mem_temp) r) rows

  abbrev set_storage_charge : Option ℤ → StorageRow → StorageRow
  set_storage_charge (some charge) r = record r {
    persistentvolumeclaim_charge_gb_month = some charge;
  }
  set_storage_charge none r = r

  unfoldable pub populate_storage_charge : List (ℕ × ℤ) → List StorageRow → List StorageRow
  populate_storage_charge temp rows = map (λ r. set_storage_charge (lookup r.id temp) r) rows

  -- `_update_pod_charge`; an exception that it lets through leaves the rows as they were.
  unfoldable pub update_pod_charge : String → Option String → Db → Result Db
  unfolding total_cpu_charge total_memory_charge write_to_temp_table populate_pod_charge
  update_pod_charge provider_uuid cluster_id db = do
    cpu ← or_empty (total_cpu_charge provider_uuid cluster_id db)
    mem ← or_empty (total_memory_charge provider_uuid cluster_id db)
    ok (record db {
      pods = populate_pod_charge (write_to_temp_table cpu) (write_to_temp_table mem) db.pods;
    })

  -- The outer `except` of `_update_storage_charge`: nothing is written.
  abbrev or_unchanged : Db → Result Db → Result Db
  or_unchanged db (ok db') = ok db'
  or_unchanged db (err e) = if is_updater_error e then ok db else err e

  unfoldable pub update_storage_charge : String → Option String → Db → Result Db
  unfolding total_storage_charge write_to_temp_table populate_storage_charge
  update_storage_charge provider_uuid cluster_id db = or_unchanged db (
      total_storage_charge provider_uuid cluster_id db >>= λ charges.
      ok (record db { storage = populate_storage_charge (write_to_temp_table charges) db.storage }))
