-- ===== src/Api/Tests.antt =====
-- Requests.
use Prim.Native.Char.{code}
use Prim.Native.String.{String}
use masu.Prelude.{lookup, string_eq}
use masu.Prelude.{◌==◌, option_eq}
use masu.Orchestrator.{Account}
use masu.Summary.{Date}
use masu.Retention.Aws.{Bill}
use masu.Retention.Remover.{Schema}
use masu.Api.Others.{get, expired_data, run_removals}
use masu.Api.Simulated.{expired_data-lookup}
use masu.Prelude.{ℕ, ◌≡◌, ◌⊎◌, refl, true, false, Option, none, some, List, [], ◌∷◌}
use masu.Api.{
  Params, RemoveParams, report_data, remove_report_data, error_400, spells, lower, false_text,
}
use masu.Api.Checks.{NamesType, AgreesWith, report_data-queued, remove_report_data-deletes}

abbrev codes : String → List ℕ
codes String.[] = []
codes (String.◌∷◌ c s) = code c ∷ codes s

abbrev known_type : String → Option String
known_type uuid = some "OCP"

abbrev request : Params
request = record {
  provider_uuid = some "u4";
  provider_type = some "OCP";
  schema = some "acct1";
  start_date = some "2019-02-13";
  end_date = none;
}

abbrev removal : RemoveParams
removal = record {
  schema = some "acct1";
  provider = some "AWS";
  provider_id = some "4";
  simulate = some (codes "False");
}

mismatch_test :
    report_data known_type (record request { provider_type = some "AWS" })
    ≡ error_400 "provider_uuid and provider_type have mismatched provider types."
unfolding report_data
mismatch_test = refl

report_data-queued_example :
    ((request.provider_uuid == some "*") ≡ false)
    × (request.schema ≡ some "acct1")
    × (request.start_date ≡ some "2019-02-13")
    × (request.end_date ≡ none)
    × (request.provider_uuid ≡ some "u4")
    × NamesType known_type request "OCP"
    × AgreesWith request "OCP"
unfolding report_data
report_data-queued_example =
    report_data-queued known_type request "acct1" "OCP" "2019-02-13" (some "u4") none refl

remove_report_data-deletes_example :
    (removal.schema ≡ some "acct1")
    × (removal.provider ≡ some "AWS")
    × (removal.provider_id ≡ some "4")
    × ((removal.simulate ≡ none)
        ⊎ ((text : List ℕ) × (removal.simulate ≡ some text)
            × (spells (lower text) false_text ≡ true)))
unfolding remove_report_data
remove_report_data-deletes_example = remove_report_data-deletes removal "acct1" "AWS" "4" refl

abbrev account : Account
account = record {
  authentication = b'a' ∷ [];
  customer_name = "s";
  billing_source = none;
  provider_type = "AWS";
  schema_name = "s";
  provider_uuid = "u";
}

abbrev bill_of_2019 : Bill
bill_of_2019 = record {
  id = 1;
  payer_account_id = "10";
  billing_period_start = 737060;
  provider_id = 4;
}

abbrev one_bill : Schema
one_bill = record {
  aws = record {
    bills = bill_of_2019 ∷ [];
    ocp_aws_summary = [];
    ocp_aws_project_summary = [];
    line_items = [];
    daily = [];
    summary = [];
    cost_entries = [];
  };
  ocp = record {
    usage_periods = [];
    line_items = [];
    daily_usage = [];
    summary_usage = [];
    cost_summary = [];
    storage_items = [];
    daily_storage_items = [];
    storage_summary = [];
    reports = [];
    ocp_aws_summary = [];
    ocp_aws_project_summary = [];
  };
}

abbrev christmas : Date
christmas = record { year = 2019; month = 12; day = 25 }

expired_data-lookup_example :
    lookup "s"
      (run_removals 3 christmas (expired_data get true (account ∷ [])) (("s", one_bill) ∷ []))
    ≡ some one_bill
unfolding lookup
expired_data-lookup_example =
    expired_data-lookup get true (account ∷ []) 3 christmas (("s", one_bill) ∷ []) "s" refl
