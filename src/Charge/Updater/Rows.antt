-- ===== src/Charge/Updater/Rows.antt =====
-- What a run of the updater writes to each row.
use masu.Prelude.{
  ℕ, ◌≡◌, refl, ap, String, Bool, true, Option, some, List, [], ◌∷◌, arith, map, All-map, All-zip,
  map-eq, lookup, nat_eq, select, if◌then◌else◌,
}
use masu.Prelude.Int.{ℤ, ◌+ℤ◌}
use masu.Charge.{Error, ok, err, is_updater_error}
use masu.Charge.Updater.{
  PodRow, StorageRow, Db, Charges, get_rates, in_cluster, pod_column, storage_column,
  total_cpu_charge, total_memory_charge, total_storage_charge, write_to_temp_table,
  populate_pod_charge, populate_storage_charge, update_pod_charge, update_storage_charge,
}
use masu.Charge.Updater.Keys.{Finds, Distinct, Distinct-select, dict, lookup-selected}
use masu.Charge.Updater.Totals.{ChargedBy, total_charge-dict}

write_to_temp_table-dict :
    {R : Type 0} (stored : ℤ → ℤ) (key : R → ℕ) (charges : R → Charges) (rows : List R)
    → write_to_temp_table stored (dict key charges rows)
      ≡ dict key (λ r. stored (charges r).charge) rows
unfolding write_to_temp_table
write_to_temp_table-dict stored key charges [] = refl
write_to_temp_table-dict stored key charges (r ∷ rows) =
    rw (write_to_temp_table-dict stored key charges rows)

populate_pod_charge-dict :
    (stored : ℤ → ℤ) (keep : PodRow → Bool) (cpu mem : PodRow → ℤ) (rows : List PodRow)
    → Distinct (λ (r : PodRow). r.id) rows
    → populate_pod_charge stored
        (dict (λ r. r.id) cpu (select keep rows))
        (dict (λ r. r.id) mem (select keep rows))
        rows
      ≡ map
          (λ r.
            if keep r
            then record r {
              pod_charge_cpu_core_hours = some (cpu r);
              pod_charge_memory_gigabyte_hours = some (mem r);
            }
            else r)
          rows
unfolding populate_pod_charge
populate_pod_charge-dict stored keep cpu mem rows d =
    let key = λ (r : PodRow). r.id in
    map-eq _ _ rows (
      All-zip (Finds key cpu keep (select keep rows)) (Finds key mem keep (select keep rows)) _ rows
        (λ r h k. ground arith) (lookup-selected key cpu keep rows d)
        (lookup-selected key mem keep rows d))

populate_storage_charge-dict :
    (stored : ℤ → ℤ) (keep : StorageRow → Bool) (charge : StorageRow → ℤ) (rows : List StorageRow)
    → Distinct (λ (r : StorageRow). r.id) rows
    → populate_storage_charge stored (dict (λ r. r.id) charge (select keep rows)) rows
      ≡ map
          (λ r.
            if keep r
            then record r { persistentvolumeclaim_charge_gb_month = some (charge r) }
            else r)
          rows
unfolding populate_storage_charge
populate_storage_charge-dict stored keep charge rows d = map-eq _ _ rows (
    All-map (Finds (λ r. r.id) charge keep (select keep rows)) _ rows (λ r h. ground arith)
      (lookup-selected (λ r. r.id) charge keep rows d))

-- With no CPU charges the UPDATE matches no row.
unwritten :
    (stored : ℤ → ℤ) (mem : List (ℕ × ℤ)) (rows : List PodRow)
    → populate_pod_charge stored (write_to_temp_table stored []) mem rows ≡ rows
unfolding populate_pod_charge write_to_temp_table lookup
unwritten stored mem [] = refl
unwritten stored mem (r ∷ rows) = rw (unwritten stored mem rows)

module _ (stored : ℤ → ℤ) (provider_uuid : String) (cluster_id : Option String) (db : Db) where
  -- Where the four metrics of a provider have charges for every usage and the rows have distinct
  -- ids, each row of the cluster gets both sums as the database stores them, and every other row
  -- and the other tables are left as they are.
  pub update_pod_charge_rows :
      (p q m n : ℤ → ℤ)
      → ChargedBy (get_rates db provider_uuid "cpu_core_usage_per_hour") p
      → ChargedBy (get_rates db provider_uuid "cpu_core_request_per_hour") q
      → ChargedBy (get_rates db provider_uuid "memory_gb_usage_per_hour") m
      → ChargedBy (get_rates db provider_uuid "memory_gb_request_per_hour") n
      → Distinct (λ (r : PodRow). r.id) db.pods
      → update_pod_charge stored provider_uuid cluster_id db
        ≡ ok (record db {
          pods =
              map
                (λ r.
                  if in_cluster cluster_id r.cluster_id
                  then record r {
                    pod_charge_cpu_core_hours =
                        some
                          (stored (p r.pod_usage_cpu_core_hours +ℤ q r.pod_request_cpu_core_hours));
                    pod_charge_memory_gigabyte_hours = some (
                        stored (
                          m r.pod_usage_memory_gigabyte_hours
                          +ℤ n r.pod_request_memory_gigabyte_hours));
                  }
                  else r)
                db.pods;
        })
  unfolding update_pod_charge total_cpu_charge total_memory_charge pod_column
  update_pod_charge_rows p q m n hp hq hm hn d =
      let key = λ (r : PodRow). r.id in
      let kept = Distinct-select key (λ r. in_cluster cluster_id r.cluster_id) db.pods d in
      let rates = get_rates db provider_uuid in
      let cpu =
        total_charge-dict key (rates "cpu_core_usage_per_hour") (rates "cpu_core_request_per_hour")
          p q (λ r. r.pod_usage_cpu_core_hours) (λ r. r.pod_request_cpu_core_hours) _ hp hq kept in
      let mem =
        total_charge-dict key (rates "memory_gb_usage_per_hour")
          (rates "memory_gb_request_per_hour") m n (λ r. r.pod_usage_memory_gigabyte_hours)
          (λ r. r.pod_request_memory_gigabyte_hours) _ hm hn kept in
      rw (cpu, mem, write_to_temp_table-dict, write_to_temp_table-dict)
        (ap (λ l. ok (record db { pods = l }))
          (populate_pod_charge-dict stored (λ r. in_cluster cluster_id r.cluster_id) _ _ db.pods d))

  -- Where the CPU charge ends in an exception of the updater and the memory charge does not, no row
  -- is written: the memory charge is lost too.
  pub update_pod_charge-cpu_error :
      (e : Error) (memory : List (ℕ × Charges))
      → total_cpu_charge provider_uuid cluster_id db ≡ err e
      → is_updater_error e ≡ true
      → total_memory_charge provider_uuid cluster_id db ≡ ok memory
      → update_pod_charge stored provider_uuid cluster_id db ≡ ok db
  unfolding update_pod_charge
  update_pod_charge-cpu_error e memory hc he hm =
      rw (hc, he, hm) (ap (λ l. ok (record db { pods = l })) (unwritten stored _ db.pods))

  -- Where the two storage metrics of a provider have charges for every usage and the rows have
  -- distinct ids, each storage row of the cluster gets the sum of its charges as the database stores
  -- it, and every other row and the other tables are left as they are.
  pub update_storage_charge_rows :
      (p q : ℤ → ℤ)
      → ChargedBy (get_rates db provider_uuid "storage_gb_usage_per_month") p
      → ChargedBy (get_rates db provider_uuid "storage_gb_request_per_month") q
      → Distinct (λ (r : StorageRow). r.id) db.storage
      → update_storage_charge stored provider_uuid cluster_id db
        ≡ ok (record db {
          storage =
              map
                (λ r.
                  if in_cluster cluster_id r.cluster_id
                  then record r {
                    persistentvolumeclaim_charge_gb_month = some (
                        stored (
                          p r.persistentvolumeclaim_usage_gigabyte_months
                          +ℤ q r.volume_request_storage_gigabyte_months));
                  }
                  else r)
                db.storage;
        })
  unfolding update_storage_charge total_storage_charge storage_column
  update_storage_charge_rows p q hp hq d =
      let key = λ (r : StorageRow). r.id in
      let kept = Distinct-select key (λ r. in_cluster cluster_id r.cluster_id) db.storage d in
      rw
        (
          total_charge-dict key (get_rates db provider_uuid "storage_gb_usage_per_month")
              (get_rates db provider_uuid "storage_gb_request_per_month") p q
              (λ r. r.persistentvolumeclaim_usage_gigabyte_months)
              (λ r. r.volume_request_storage_gigabyte_months) _ hp hq kept,
          write_to_temp_table-dict,
        )
        (ap (λ l. ok (record db { storage = l }))
          (populate_storage_charge-dict stored (λ r. in_cluster cluster_id r.cluster_id) _
            db.storage d))
