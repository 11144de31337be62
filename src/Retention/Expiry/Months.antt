-- ===== src/Retention/Expiry/Months.antt =====
-- How far back the expiration date reaches (`_calculate_expiration_date` of
-- masu/processor/expired_data_remover.py), and what is removed by it.
use mathlib.Core.Option
use mathlib.Core.Option.{some-injective}
use mathlib.Core.Path.{subst}
use native.Mathlib.Numerals.{unary_clauses}
use masu.Prelude.{
  ℕ, zero, suc, ◌+◌, ◌-◌, ◌*◌, ◌≤◌, ◌<◌, ◌≡◌, refl, ap, ◌∙◌, arith, true, false, none, some, ◌==◌,
  nat_eq, ◌||◌, if◌then◌else◌, String, leb, map, select,
}
use masu.Prelude.Options.{and_then, and_then-and_then, and_then-eq, and_then-eq-some}
use masu.Payload.Files.{Month}
use masu.Provider.{is_aws}
use masu.Retention.{ok}
use masu.Retention.Aws.{removed_bill, bill_selected, without_bills}
use masu.Retention.Remover.{Schema, removed_bills, remove_expired_data-aws}
use masu.Summary.{Date, last_day_of_month}
use masu.Retention.Expiry.{
  calculate_expiration_date, day_before, first_ordinal, last_date, middle_of_month, minus_days,
  month_before, month_of, months_before, remover_remove,
}

minus_days-add :
    (a b : ℕ) (d : Date) → minus_days (a + b) d ≡ and_then (minus_days a d) (minus_days b)
unfolding minus_days
minus_days-add zero b d = ap (λ n. minus_days n d) (omega arith)
minus_days-add (suc a) b d =
    ap (λ n. minus_days n d) {x = suc a + b} {y = suc (a + b)} (omega arith)
    ∙ and_then-eq (day_before d) (λ e. minus_days-add a b e)
    ∙ and_then-and_then (day_before d) (minus_days a) (minus_days b)

day_before-within :
    (y m d : ℕ)
    → 1 < d
    → day_before (record { year = y; month = m; day = d })
      ≡ some (record { year = y; month = m; day = d - 1 })
unfolding day_before
day_before-within y m d h = ground arith

-- Days of the same month.
minus_days-within :
    (n y m d : ℕ)
    → n < d
    → minus_days n (record { year = y; month = m; day = d })
      ≡ some (record { year = y; month = m; day = d - n })
unfolding minus_days
minus_days-within zero y m d h = simp unary_clauses refl
minus_days-within (suc n) y m d h =
    ap (λ o. and_then o (minus_days n)) (day_before-within y m d (omega arith))
    ∙ minus_days-within n y m (d - 1) (omega arith)
    ∙ ap (λ k. some (record { year = y; month = m; day = k })) (omega arith)

-- Thirty days back from a day that is not too early or too late reach the month before.
minus_days-month :
    (y m d : ℕ) (p : Month)
    → 1 ≤ d
    → d ≤ 30
    → month_before (record { year = y; month = m }) ≡ some p
    → 31 ≤ d + last_day_of_month p.year p.month
    → minus_days 30 (record { year = y; month = m; day = d })
      ≡ some (record {
        year = p.year;
        month = p.month;
        day = d + last_day_of_month p.year p.month - 30;
      })
unfolding minus_days day_before
minus_days-month y m d p low high e reach =
    let here : Date = record { year = y; month = m; day = d } in
    let first : minus_days (d - 1) here ≡ some (record { year = y; month = m; day = 1 }) =
      minus_days-within (d - 1) y m d (omega arith)
      ∙ ap some (ap (λ n. record here { day = n }) (omega arith)) in
    let rest =
      minus_days-within (30 - d) p.year p.month (last_day_of_month p.year p.month) (omega arith) in
    ap (λ n. minus_days n here) {x = 30} (omega arith)
    ∙ minus_days-add (d - 1) (suc (30 - d)) here
    ∙ ap (λ o. and_then o (minus_days (suc (30 - d)))) first
    ∙ ap (λ o. and_then (Option.map last_date o) (minus_days (30 - d))) e
    ∙ rest
    ∙ ap some (ap (λ n. record (last_date p) { day = n }) (omega arith))

-- How far the day may have moved from the fifteenth: the least day in each month, and a bound on
-- twice the day.
abbrev least_day : ℕ → ℕ
least_day m = if m == 2 then 13 else if m == 1 then 14 else 15

abbrev slack : ℕ → ℕ
slack m =
    if m == 2
    then 0
    else if m == 1 || m == 9 || m == 11
    then 1
    else if m == 3 || m == 5 || m == 7
    then 3
    else 2

abbrev pub IsMonth : Month → Type 0
IsMonth m = (1 ≤ m.month) × (m.month ≤ 12)

month_length-slack :
    (m p : Month)
    → IsMonth m
    → month_before m ≡ some p
    → (2 * last_day_of_month p.year p.month + slack m.month ≤ 61 + slack p.month)
      × (least_day p.month + 30 ≤ least_day m.month + last_day_of_month p.year p.month)
      × IsMonth p
unfolding month_before last_day_of_month
month_length-slack m p h e = ground arith

least_day_range : (m : ℕ) → (13 ≤ least_day m) × (least_day m ≤ 15)
least_day_range m = ground arith

slack_range : (m : ℕ) → slack m ≤ 3
slack_range m = ground arith

calculate_back :
    (k : ℕ) (t p : Month)
    → k ≤ 29
    → IsMonth t
    → months_before k t ≡ some p
    → (day : ℕ) × (minus_days (k * 30) (middle_of_month t)
        ≡ some (record { year = p.year; month = p.month; day = day }))
      × (least_day p.month ≤ day)
      × (2 * day ≤ 30 + k + slack p.month)
      × IsMonth p
unfolding months_before minus_days
calculate_back zero t p h v e =
    let same = some-injective _ _ e in
    subst
      (λ (q : Month).
        (day : ℕ) × (some (middle_of_month t)
          ≡ some (record { year = q.year; month = q.month; day = day }))
        × (least_day q.month ≤ day)
        × (2 * day ≤ 30 + 0 + slack q.month)
        × IsMonth q)
      same (15, refl, ground arith, ground arith, v)
calculate_back (suc k) t p h v e =
    let (m, back, step) = and_then-eq-some (months_before k t) month_before e in
    let (day, at, low, high, vm) = calculate_back k t m (omega arith) v back in
    let (twice, least, vp) = month_length-slack m p vm step in
    let early = least_day_range m.month in
    let late = slack_range m.month in
    let last = least_day_range p.month in
    (
      day + last_day_of_month p.year p.month - 30,
      ap (λ n. minus_days n (middle_of_month t)) (omega arith)
          ∙ minus_days-add (k * 30) 30 (middle_of_month t)
          ∙ ap (λ o. and_then o (minus_days 30)) at
          ∙ minus_days-month m.year m.month day p (omega arith) (omega arith) step (omega arith),
      omega arith,
      omega arith,
      vp,
    )

-- With a policy of at most 29 months the data expires on the first of the month that is that many
-- months before the current one.
pub calculate_expiration_date-months_before :
    (months_to_keep : ℕ) (today : Date) (expired : Month)
    → months_to_keep ≤ 29
    → IsMonth (month_of today)
    → months_before months_to_keep (month_of today) ≡ some expired
    → calculate_expiration_date months_to_keep today ≡ some expired
unfolding calculate_expiration_date
calculate_expiration_date-months_before k today expired h v e =
    let (day, at, _, _, _) = calculate_back k (month_of today) expired h v e in
    ap (Option.map month_of) at

-- With a policy of at most 29 months, on any day, a removal of an AWS provider type reports and removes
-- the bills that start on or before the first of the month that is that many months before the
-- current one, and from each table the rows that name one of them, and nothing else.
pub remover_remove-exact :
    (retain_num_months : ℕ) (provider : String) (months_to_keep : ℕ) (built today : Date)
    (schema : Schema) (first expired : Month)
    → is_aws provider ≡ true
    → months_to_keep ≤ 29
    → IsMonth (month_of built)
    → IsMonth (month_of today)
    → months_before months_to_keep (month_of built) ≡ some first
    → months_before months_to_keep (month_of today) ≡ some expired
    → let starts = λ (start provider_id : ℕ). leb start (first_ordinal expired) in
      remover_remove retain_num_months provider (some months_to_keep) built today false none schema
      ≡ some (
          ok (
            removed_bills (map removed_bill (select (bill_selected starts) schema.aws.bills)),
            record schema { aws = without_bills starts schema.aws },
          ))
unfolding remover_remove
remover_remove-exact retain provider k built today schema first expired h small vb vt b t =
    rw
      (
        calculate_expiration_date-months_before k built first small vb b,
        calculate_expiration_date-months_before k today expired small vt t,
      )
      (ap some (remove_expired_data-aws provider (first_ordinal expired) schema h))
