-- ===== src/Summary/Months.antt =====
-- How often a whole month is computed again, in `AWSReportSummaryUpdater`.
use mathlib.Core.Option
use mathlib.Core.Option.{some-injective}
use masu.Prelude.{
  ◌≡◌, refl, ap, sym, ◌∙◌, Bool, Option, none, some, List, [], ◌∷◌, map, select, nat_eq,
  if◌then◌else◌, Bool-cases, inl, inr,
}
use masu.Summary.{Manifest, Moment, Period, Range, Db, Provider, same_date, month_range, starts_on}
use masu.Summary.Aws.{
  newly_finalized, determine_if_full_summary_update_needed, full_update, get_sql_inputs,
  update_daily_tables, update_summary_tables,
}

newly_finalized-date :
    (now later : Moment) (o : Option Moment)
    → now.date ≡ later.date
    → newly_finalized now o ≡ newly_finalized later o
newly_finalized-date now later none h = refl
newly_finalized-date now later (some t) h = ap (same_date t.date) h

full_update-date :
    (m : Manifest) (now later : Moment) (rows : List Period)
    → now.date ≡ later.date
    → full_update m now rows ≡ full_update m later rows
unfolding determine_if_full_summary_update_needed
full_update-date m now later [] h = refl
full_update-date m now later (bill ∷ bills) h =
    rw (newly_finalized-date now later bill.finalized_datetime h) refl

-- What the daily step returns, by what the manifest decides.
daily_result :
    (provider : Provider) (m : Manifest) (now : Moment) (db db' : Db) (range daily : Range)
    (found : Option Bool)
    → let bill_date = m.billing_period_start_datetime.date in
      full_update m now (select (starts_on provider.id bill_date) db.bills) ≡ found
      → update_daily_tables provider (some m) now db range ≡ some (daily, db')
      → (b : Bool) × (found ≡ some b)
        × (daily ≡ (if b then month_range bill_date else range))
        × (db'.bills ≡ db.bills)
unfolding update_daily_tables get_sql_inputs
daily_result provider m now db db' range daily none h run = cc (rw h at run)
daily_result provider m now db db' range daily (some b) h run =
    let out = some-injective _ _ (sym (rw h at run)) in
    (b, refl, ap (λ (x : Range × Db). x.0) out, ap (λ (x : Range × Db). (x.1).bills) out)

-- The daily tables and the summary tables of one run are computed for the same range, if the two
-- steps look at the clock on the same day.
pub update_daily_tables-range :
    (provider : Provider) (m : Manifest) (now later : Moment) (db db' : Db) (range daily : Range)
    → now.date ≡ later.date
    → update_daily_tables provider (some m) now db range ≡ some (daily, db')
    → Option.map (λ (x : Range × Db). x.0) (update_summary_tables provider (some m) later db' daily)
      ≡ some daily
unfolding update_summary_tables get_sql_inputs
update_daily_tables-range provider m now later db db' range daily same run =
    let rows = select (starts_on provider.id m.billing_period_start_datetime.date) db.bills in
    let (b, h, is_daily, bills) = daily_result provider m now db db' range daily _ refl run in
    rw (bills, sym (full_update-date m now later rows same) ∙ h)
      (elim (Bool-cases b) [
        | inl e ↦ rw e (ap some (sym (is_daily ∙ rw e refl)))
        | inr e ↦ rw e refl
      ])
