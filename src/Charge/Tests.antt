-- ===== src/Charge/Tests.antt =====
-- Runs of the charge updater.
use Prim.Native.Char.{code}
use Prim.Native.String.{String}
use masu.Prelude.{
  ◌≡◌, refl, ℕ, Option, none, some, List, [], ◌∷◌, arith, lookup, suc, ◌+◌, ◌*◌, ◌/◌,
}
use masu.Prelude.Int.{ℤ, pos, negsuc, ◌+ℤ◌, ◌-ℤ◌, ◌*ℤ◌}
use masu.Charge.{Text, Tier, ok, err, two_starting_tiers}
use masu.Charge.Numeral.{decimal, text_leb}
use masu.Charge.Tiers.{normalize_tier, sorted, insert_tier}
use masu.Charge.Tiers.Order.{IsNormalized, normalize_tier-IsNormalized}
use masu.Charge.Variable.{
  Bucket, read_bucket, charge_tiers, usage_applied, calculate_variable_charge,
}
use masu.Charge.Variable.Price.{
  read_buckets, Contiguous, last, more, price, calculate_variable_charge-price,
}
use masu.Charge.Variable.Misorder.{calculate_variable_charge-misordered}
use masu.Summary.{Date, Moment, Provider}
use masu.Charge.Dispatch.{CostPeriod, CostDb, HasCharges, charged_pod, charged_storage}
use masu.Charge.Updater.{
  PodRow, StorageRow, Db, get_rates, in_cluster, pod_column, calculate_charge, total_charge,
  total_cpu_charge, total_memory_charge, update_pod_charge,
}
use masu.Charge.Updater.Totals.{ChargedBy}
use masu.Charge.Updater.Rows.{update_pod_charge-cpu_error}

abbrev codes : String → List ℕ
codes String.[] = []
codes (String.◌∷◌ c s) = code c ∷ codes s

abbrev tier : Option Text → Option Text → Text → Tier
tier start end value = record { usage_start = start; usage_end = end; value = some value }

abbrev three_tiers : List Tier
three_tiers =
    tier (some (codes "20")) (some (codes "30")) (codes "0.30")
    ∷ tier (some (codes "30")) none (codes "0.40")
    ∷ tier none (some (codes "20")) (codes "0.20")
    ∷ []

decimal_test : decimal (codes "-12.345") ≡ decimal (codes "-12.3450")
unfolding decimal
decimal_test = refl

charge_test :
    calculate_variable_charge (pos 35000000000) (some three_tiers) ≡ ok (pos 9000000000000000000)
unfolding calculate_variable_charge text_leb
charge_test = refl

abbrev units : ℕ → ℤ
units n = pos (n * 1000000000)

abbrev in_order : List Tier
in_order =
    tier none (some (codes "20")) (codes "0.20")
    ∷ tier (some (codes "20")) (some (codes "30")) (codes "0.30")
    ∷ tier (some (codes "30")) none (codes "0.40")
    ∷ []

abbrev three_buckets : List Bucket
three_buckets =
    record { usage_start = pos 0; usage_end = some (units 20); rate = pos 200000000 }
    ∷ record { usage_start = units 20; usage_end = some (units 30); rate = pos 300000000 }
    ∷ record { usage_start = units 30; usage_end = none; rate = pos 400000000 }
    ∷ []

normalize_tier-three_tiers : normalize_tier three_tiers ≡ ok in_order
unfolding normalize_tier sorted insert_tier
normalize_tier-three_tiers = refl

in_order_read : read_buckets in_order ≡ ok three_buckets
unfolding read_buckets read_bucket
in_order_read = refl

three_buckets-Contiguous : Contiguous (pos 0) three_buckets
three_buckets-Contiguous =
    more (pos 0) (units 20) (pos 200000000) (omega arith)
      (more (units 20) (units 30) (pos 300000000) (omega arith) (last (units 30) (pos 400000000)))

calculate_variable_charge-price_example :
    calculate_variable_charge (units 35) (some three_tiers) ≡ ok (price (units 35) three_buckets)
calculate_variable_charge-price_example =
    calculate_variable_charge-price three_tiers in_order three_buckets (units 35)
      normalize_tier-three_tiers in_order_read three_buckets-Contiguous (omega arith)

normalize_tier-IsNormalized_example : IsNormalized three_tiers in_order
normalize_tier-IsNormalized_example =
    normalize_tier-IsNormalized three_tiers in_order (refl, (refl, (refl, tt)))
      normalize_tier-three_tiers

abbrev to_five : Tier
to_five = tier none (some (codes "5")) (codes "1")

abbrev to_nine : Tier
to_nine = tier (some (codes "5")) (some (codes "9")) (codes "2")

abbrev to_thirteen : Tier
to_thirteen = tier (some (codes "9")) (some (codes "13")) (codes "7")

abbrev above : Tier
above = tier (some (codes "13")) none (codes "8")

calculate_variable_charge-misordered_example :
    calculate_variable_charge (units 9) (some (to_five ∷ to_nine ∷ to_thirteen ∷ above ∷ []))
    ≡ ok (units 5 *ℤ units 1 +ℤ (units 9 -ℤ units 5) *ℤ units 7)
unfolding read_bucket text_leb ◌-ℤ◌
calculate_variable_charge-misordered_example =
    calculate_variable_charge-misordered to_five to_nine to_thirteen above refl refl refl refl refl
      refl refl (units 5) (units 9) (units 13) (units 1) (units 2) (units 7) (units 8) refl refl
      refl refl (omega arith) (omega arith) (omega arith)

-- One rate for all usage: a single tier, which stands first and last.
abbrev flat : List Tier
flat = tier none none (codes "2") ∷ []

abbrev flat_charge : ℤ → ℤ
flat_charge usage = pos 0 +ℤ usage *ℤ units 2 +ℤ (usage -ℤ usage) *ℤ units 2

abbrev nothing : ℤ → ℤ
nothing usage = pos 0

flat-ChargedBy : ChargedBy (some flat) flat_charge
unfolding calculate_variable_charge normalize_tier sorted charge_tiers read_bucket usage_applied
flat-ChargedBy usage = refl

none-ChargedBy : ChargedBy none nothing
unfolding calculate_variable_charge
none-ChargedBy usage = refl

abbrev pod : ℕ → String → PodRow
pod id cluster_id = record {
  id = id;
  cluster_id = cluster_id;
  pod_usage_cpu_core_hours = units 3;
  pod_request_cpu_core_hours = units 4;
  pod_usage_memory_gigabyte_hours = units 5;
  pod_request_memory_gigabyte_hours = units 6;
  pod_charge_cpu_core_hours = none;
  pod_charge_memory_gigabyte_hours = none;
}

abbrev storage_row : StorageRow
storage_row = record {
  id = 1;
  cluster_id = "c";
  persistentvolumeclaim_usage_gigabyte_months = units 3;
  volume_request_storage_gigabyte_months = units 4;
  persistentvolumeclaim_charge_gb_month = none;
}

-- The database in which the first rate is that of a metric.
abbrev db_with : String → List Tier → Db
db_with metric tiers = record {
  rates = record { id = 1; metric = metric; tiered_rate = tiers } ∷ [];
  rate_maps = record { rate_id = 1; provider_uuid = "u" } ∷ [];
  pods = pod 1 "c" ∷ pod 2 "d" ∷ [];
  storage = storage_row ∷ [];
}

-- The column rounds to six decimal places, halves away from zero.
abbrev six_places : ℤ → ℤ
six_places (pos n) = pos ((n + 500000000000) / 1000000000000 * 1000000000000)
six_places (negsuc n) = pos 0 -ℤ pos ((suc n + 500000000000) / 1000000000000 * 1000000000000)

abbrev two_rows : List PodRow
two_rows = pod 1 "c" ∷ pod 2 "d" ∷ []

abbrev cpu_db : Db
cpu_db = db_with "cpu_core_usage_per_hour" flat

abbrev storage_db : Db
storage_db = db_with "storage_gb_request_per_month" flat

abbrev openshift : Provider
openshift = record { id = 4; uuid = "u"; provider_type = "OCP"; resource_name = "c" }

abbrev june : Date
june = record { year = 2019; month = 6; day = 1 }

abbrev noon : Moment
noon = record { date = june; microsecond = 7 }

abbrev cost_period_of : ℕ → CostPeriod
cost_period_of provider_id = record {
  id = 1;
  provider_id = provider_id;
  start = june;
  derived_cost_datetime = none;
}

abbrev costs : CostDb
costs = record {
  bills = cost_period_of 4 ∷ [];
  report_periods = cost_period_of 4 ∷ cost_period_of 5 ∷ [];
  usage = storage_db;
  cost_summaries = [];
}

storage_charges : HasCharges "u" storage_db
unfolding get_rates
storage_charges = record {
  cpu_usage = nothing;
  cpu_request = nothing;
  memory_usage = nothing;
  memory_request = nothing;
  storage_usage = nothing;
  storage_request = flat_charge;
  has_cpu_usage = none-ChargedBy;
  has_cpu_request = none-ChargedBy;
  has_memory_usage = none-ChargedBy;
  has_memory_request = none-ChargedBy;
  has_storage_usage = none-ChargedBy;
  has_storage_request = flat-ChargedBy;
}

-- The rows that the charge task leaves.
abbrev charged_db : Db
charged_db = record storage_db {
  pods = charged_pod six_places "u" storage_db storage_charges (pod 1 "c") ∷ pod 2 "d" ∷ [];
  storage = charged_storage six_places "u" storage_db storage_charges storage_row ∷ [];
}

-- Two tiers without a start.
abbrev bad_db : Db
bad_db = db_with "cpu_core_usage_per_hour" (to_five ∷ to_five ∷ above ∷ [])

bad_cpu : total_cpu_charge "u" (some "c") bad_db ≡ err two_starting_tiers
unfolding total_cpu_charge total_charge calculate_charge calculate_variable_charge normalize_tier
    get_rates pod_column in_cluster
bad_cpu = refl

update_pod_charge-cpu_error_example : update_pod_charge six_places "u" (some "c") bad_db ≡ ok bad_db
unfolding total_memory_charge total_charge calculate_charge calculate_variable_charge normalize_tier
    get_rates pod_column in_cluster lookup
update_pod_charge-cpu_error_example =
    update_pod_charge-cpu_error six_places "u" (some "c") bad_db two_starting_tiers _ bad_cpu refl
      refl
