-- ===== src/Retention/Remover.antt =====
-- `ExpiredDataRemover`, and the task `_remove_expired_data` that runs it
-- (masu/processor/_tasks/remove_expired.py). The expiration date is an argument.
use masu.Prelude.{
  map, select, leb, nat_eq, ℕ, ◌≡◌, refl, String, Bool, true, ◌||◌, Option, none, some, List, arith,
  ap, ◌==◌, string_eq, false, Bool-cases, inl, inr, if◌then◌else◌,
}
use masu.Provider.{is_aws, is_ocp}
use masu.Retention.{Result, ok, cleaner_error, remover_error, Request, selects}
use masu.Retention.Aws.{
  AwsDb, RemovedBill, without_bills, purge_aws, purge_aws_exact, removed_bill, bill_selected,
}
use masu.Retention.Ocp.{
  OcpDb, RemovedPeriod, purge_ocp, purge_ocp_exact, removed_period, period_selected,
}

pub data Cleaner : Type 0 where
  aws_cleaner ocp_cleaner : Cleaner

pub data Removed : Type 0 where
  removed_bills : List RemovedBill → Removed
  removed_periods : List RemovedPeriod → Removed

-- The report tables of a customer's schema.
pub record Schema : Type 0 where
  pub aws : AwsDb
  pub ocp : OcpDb

unfoldable pub set_cleaner : String → Option Cleaner
set_cleaner provider =
    if is_aws provider then some aws_cleaner else if is_ocp provider then some ocp_cleaner else none

-- `remove`: by provider if one is given, by date otherwise.
unfoldable pub remove_request : ℕ → Bool → Option ℕ → Request
remove_request expiration_date simulate none = record {
  expired_date = some expiration_date;
  provider_id = none;
  simulate = simulate;
}
remove_request expiration_date simulate (some provider_id) = record {
  expired_date = none;
  provider_id = some provider_id;
  simulate = simulate;
}

abbrev with_aws : Schema → Result (List RemovedBill × AwsDb) → Result (Removed × Schema)
with_aws schema (ok (removed, db)) = ok (removed_bills removed, record schema { aws = db })
with_aws schema cleaner_error = cleaner_error
with_aws schema (remover_error message) = remover_error message

abbrev with_ocp : Schema → Result (List RemovedPeriod × OcpDb) → Result (Removed × Schema)
with_ocp schema (ok (removed, db)) = ok (removed_periods removed, record schema { ocp = db })
with_ocp schema cleaner_error = cleaner_error
with_ocp schema (remover_error message) = remover_error message

abbrev purge : Option Cleaner → Request → Schema → Result (Removed × Schema)
purge none request schema = remover_error "Invalid provider type specified."
purge (some aws_cleaner) request schema = with_aws schema (purge_aws request schema.aws)
purge (some ocp_cleaner) request schema = with_ocp schema (purge_ocp request schema.ocp)

unfoldable pub remove_expired_data :
    (provider : String) (expiration_date : ℕ) (simulate : Bool) (provider_id : Option ℕ)
    → Schema
    → Result (Removed × Schema)
remove_expired_data provider expiration_date simulate provider_id schema =
    purge (set_cleaner provider) (remove_request expiration_date simulate provider_id) schema

-- The request has exactly one of the two arguments.
remove_request-selects :
    (expiration_date : ℕ) (simulate : Bool) (provider_id : Option ℕ)
    → (query : ℕ → ℕ → Bool) × (selects (remove_request expiration_date simulate provider_id)
        ≡ some query)
      × ((remove_request expiration_date simulate provider_id).simulate ≡ simulate)
unfolding remove_request selects
remove_request-selects expiration_date simulate none =
    (λ start p. leb start expiration_date, refl, refl)
remove_request-selects expiration_date simulate (some provider_id) =
    (λ start p. p == provider_id, refl, refl)

abbrev reported : Cleaner → (ℕ → ℕ → Bool) → Schema → Removed
reported aws_cleaner query schema =
    removed_bills (map removed_bill (select (bill_selected query) schema.aws.bills))
reported ocp_cleaner query schema =
    removed_periods (map removed_period (select (period_selected query) schema.ocp.usage_periods))

purge-simulate :
    (c : Cleaner) (expiration_date : ℕ) (provider_id : Option ℕ) (schema : Schema)
    → (removed : Removed) × (purge (some c) (remove_request expiration_date true provider_id) schema
        ≡ ok (removed, schema))
purge-simulate aws_cleaner expiration_date provider_id schema =
    let (query, h, s) = remove_request-selects expiration_date true provider_id in
    (reported aws_cleaner query schema, rw (purge_aws_exact _ schema.aws query h, s))
purge-simulate ocp_cleaner expiration_date provider_id schema =
    let (query, h, s) = remove_request-selects expiration_date true provider_id in
    (reported ocp_cleaner query schema, rw (purge_ocp_exact _ schema.ocp query h, s))

set_cleaner-some :
    (provider : String)
    → (is_aws provider || is_ocp provider) ≡ true
    → (c : Cleaner) × (set_cleaner provider ≡ some c)
unfolding set_cleaner
set_cleaner-some provider h = elim (Bool-cases (is_aws provider)) [
  | inl e ↦ (aws_cleaner, rw e)
  | inr e ↦ (ocp_cleaner, rw e (ground arith))
]

-- A simulated removal for an AWS or an OpenShift provider type, with a provider id or without one,
-- succeeds and leaves every table as it is.
pub remove_expired_data-simulate :
    (provider : String) (expiration_date : ℕ) (provider_id : Option ℕ) (schema : Schema)
    → (is_aws provider || is_ocp provider) ≡ true
    → (removed : Removed) × (remove_expired_data provider expiration_date true provider_id schema
        ≡ ok (removed, schema))
unfolding remove_expired_data
remove_expired_data-simulate provider expiration_date provider_id schema h =
    let (c, e) = set_cleaner-some provider h in
    let (removed, p) = purge-simulate c expiration_date provider_id schema in (removed, rw e p)

-- A real removal of an AWS provider type by date.
pub remove_expired_data-aws :
    (provider : String) (expiration_date : ℕ) (schema : Schema)
    → is_aws provider ≡ true
    → let expired = λ (start provider_id : ℕ). leb start expiration_date in
      remove_expired_data provider expiration_date false none schema
      ≡ ok (
        removed_bills (map removed_bill (select (bill_selected expired) schema.aws.bills)),
        record schema { aws = without_bills expired schema.aws },
      )
unfolding remove_expired_data set_cleaner remove_request selects
remove_expired_data-aws provider expiration_date schema h = rw h (
    ap (with_aws schema) (purge_aws_exact _ schema.aws (λ start p. leb start expiration_date) refl))

-- A provider type that is neither has no cleaner.
pub remove_expired_data-none :
    (provider : String) (expiration_date : ℕ) (simulate : Bool) (provider_id : Option ℕ)
    (schema : Schema)
    → (is_aws provider || is_ocp provider) ≡ false
    → remove_expired_data provider expiration_date simulate provider_id schema
      ≡ remover_error "Invalid provider type specified."
unfolding remove_expired_data set_cleaner
remove_expired_data-none provider expiration_date simulate provider_id schema h =
    elim (Bool-cases (is_aws provider)) [ inl e ↦ cc (rw e at h) | inr e ↦ rw (e, rw e at h) refl ]
