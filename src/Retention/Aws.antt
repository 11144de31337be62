-- ===== src/Retention/Aws.antt =====
-- `AWSReportDBCleaner.purge_expired_report_data`.
use masu.Prelude.{
  ℕ, ◌≡◌, refl, ap, String, Bool, true, false, not, none, some, List, [], ◌∷◌, map, select, any,
  ◌==◌, nat_eq, if◌then◌else◌,
}
use masu.Retention.{Result, ok, cleaner_error, Request, selects}
use masu.Retention.Loops.{delete_each, delete_each-select}

pub record Bill : Type 0 where
  pub id : ℕ
  pub payer_account_id : String
  pub billing_period_start : ℕ
  pub provider_id : ℕ

-- A row of a table that belongs to a bill.
pub record BillRow : Type 0 where
  pub id : ℕ
  pub cost_entry_bill_id : ℕ

pub record AwsDb : Type 0 where
  pub bills : List Bill
  pub ocp_aws_summary : List BillRow
  pub ocp_aws_project_summary : List BillRow
  pub line_items : List BillRow
  pub daily : List BillRow
  pub summary : List BillRow
  pub cost_entries : List BillRow

pub record RemovedBill : Type 0 where
  pub account_payer_id : String
  pub billing_period_start : ℕ

abbrev pub of_bill : ℕ → BillRow → Bool
of_bill bill_id r = r.cost_entry_bill_id == bill_id

abbrev delete_of : ℕ → List BillRow → List BillRow
delete_of bill_id rows = select (λ r. not (of_bill bill_id r)) rows

-- The six deletions of one round of the loop.
unfoldable pub delete_bill_rows : Bill → AwsDb → AwsDb
delete_bill_rows bill db = record db {
  ocp_aws_summary = delete_of bill.id db.ocp_aws_summary;
  ocp_aws_project_summary = delete_of bill.id db.ocp_aws_project_summary;
  line_items = delete_of bill.id db.line_items;
  daily = delete_of bill.id db.daily;
  summary = delete_of bill.id db.summary;
  cost_entries = delete_of bill.id db.cost_entries;
}

unfoldable pub purge_bills : Bool → List Bill → AwsDb → List RemovedBill × AwsDb
unfolding delete_bill_rows
purge_bills simulate [] db = ([], db)
purge_bills simulate (bill ∷ bills) db =
    let (removed, db') =
      purge_bills simulate bills (if not simulate then delete_bill_rows bill db else db) in
    (
      record {
        account_payer_id = bill.payer_account_id;
        billing_period_start = bill.billing_period_start;
      }
          ∷ removed,
      db',
    )

abbrev pub bill_selected : (ℕ → ℕ → Bool) → Bill → Bool
bill_selected query bill = query bill.billing_period_start bill.provider_id

abbrev delete_bills : (ℕ → ℕ → Bool) → AwsDb → AwsDb
delete_bills query db = record db { bills = select (λ b. not (bill_selected query b)) db.bills }

abbrev purge_selected : (ℕ → ℕ → Bool) → Bool → AwsDb → List RemovedBill × AwsDb
purge_selected query simulate db =
    let (removed, db') = purge_bills simulate (select (bill_selected query) db.bills) db in
    (removed, (if not simulate then delete_bills query db' else db'))

unfoldable pub purge_aws : Request → AwsDb → Result (List RemovedBill × AwsDb)
purge_aws request db = elim (selects request) [
  | none ↦ cleaner_error
  | some query ↦ ok (purge_selected query request.simulate db)
]

-- A bill that is selected, by the id that a row names.
abbrev pub row_selected : (ℕ → ℕ → Bool) → List Bill → BillRow → Bool
row_selected query bills r = any (λ b. of_bill b.id r) (select (bill_selected query) bills)

abbrev pub keep_rows : (ℕ → ℕ → Bool) → List Bill → List BillRow → List BillRow
keep_rows query bills rows = select (λ r. not (row_selected query bills r)) rows

abbrev pub removed_bill : Bill → RemovedBill
removed_bill bill = record {
  account_payer_id = bill.payer_account_id;
  billing_period_start = bill.billing_period_start;
}

purge_bills-loop :
    (bills : List Bill) (db : AwsDb)
    → purge_bills false bills db ≡ (
      map removed_bill bills,
      record db {
        ocp_aws_summary = delete_each (λ b. of_bill b.id) bills db.ocp_aws_summary;
        ocp_aws_project_summary = delete_each (λ b. of_bill b.id) bills db.ocp_aws_project_summary;
        line_items = delete_each (λ b. of_bill b.id) bills db.line_items;
        daily = delete_each (λ b. of_bill b.id) bills db.daily;
        summary = delete_each (λ b. of_bill b.id) bills db.summary;
        cost_entries = delete_each (λ b. of_bill b.id) bills db.cost_entries;
      },
    )
unfolding purge_bills delete_each
purge_bills-loop [] db = refl
purge_bills-loop (b ∷ bills) db = rw (purge_bills-loop bills)

purge_bills-simulate :
    (bills : List Bill) (db : AwsDb) → purge_bills true bills db ≡ (map removed_bill bills, db)
unfolding purge_bills
purge_bills-simulate [] db = refl
purge_bills-simulate (b ∷ bills) db = rw (purge_bills-simulate bills db)

-- The database that a real purge leaves: without the selected bills and, in each table, without the
-- rows that name one of them.
abbrev pub without_bills : (ℕ → ℕ → Bool) → AwsDb → AwsDb
without_bills query db = record {
  bills = select (λ b. not (bill_selected query b)) db.bills;
  ocp_aws_summary = keep_rows query db.bills db.ocp_aws_summary;
  ocp_aws_project_summary = keep_rows query db.bills db.ocp_aws_project_summary;
  line_items = keep_rows query db.bills db.line_items;
  daily = keep_rows query db.bills db.daily;
  summary = keep_rows query db.bills db.summary;
  cost_entries = keep_rows query db.bills db.cost_entries;
}

purge_selected-exact :
    (query : ℕ → ℕ → Bool) (simulate : Bool) (db : AwsDb)
    → purge_selected query simulate db ≡ (
      map removed_bill (select (bill_selected query) db.bills),
      (if simulate then db else without_bills query db),
    )
purge_selected-exact query true db =
    rw (purge_bills-simulate (select (bill_selected query) db.bills) db)
purge_selected-exact query false db =
    rw (purge_bills-loop (select (bill_selected query) db.bills) db) (simp delete_each-select)

-- With exactly one of the two arguments, a purge reports the selected bills; a simulated one changes
-- nothing, and a real one removes exactly the selected bills and, from each table, the rows that
-- name one of them.
pub purge_aws_exact :
    (request : Request) (db : AwsDb) (query : ℕ → ℕ → Bool)
    → selects request ≡ some query
    → purge_aws request db
      ≡ ok (
        map removed_bill (select (bill_selected query) db.bills),
        (if request.simulate then db else without_bills query db),
      )
unfolding purge_aws
purge_aws_exact request db query h =
    rw (h, purge_aws) (ap (λ r. ok r) (purge_selected-exact query request.simulate db))
