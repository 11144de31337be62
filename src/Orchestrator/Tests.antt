-- ===== src/Orchestrator/Tests.antt =====
-- Runs of the orchestrator.
use masu.Prelude.{◌≡◌, refl, String, Option, none, some, List, [], ◌∷◌, lookup, insert}
use masu.Provider.Status.{ProviderStatus, warning, open_status, is_backing_off, is_valid}
use masu.Tables.Clean.{Text}
use masu.Orchestrator.Labels.{
  AliasAnswer, get_label_details, update_account_alias, get_account_alias_from_role_arn,
}
use masu.Orchestrator.{
  Provider, Account, get_accounts_from_source, World, Run, raised, prepare, visit, go_on,
  opened_or_raised,
}
use masu.Orchestrator.Prepare.{Prepared, polls, prepare_queue}

abbrev account : Text → String → String → Account
account arn uuid bucket = record {
  authentication = arn;
  customer_name = "acct1";
  billing_source = some bucket;
  provider_type = "AWS";
  schema_name = "acct1";
  provider_uuid = uuid;
}

abbrev two_accounts : List Account
two_accounts =
    account (b'a' ∷ b':' ∷ b'1' ∷ b':' ∷ b'r' ∷ []) "u1" "b1" ∷ account (b'a' ∷ []) "u2" "b2" ∷ []

-- The role of an ARN of one letter is refused.
abbrev assume_role : Text → Option AliasAnswer
assume_role [] = none
assume_role (c ∷ []) = none
assume_role (c ∷ d ∷ text) = some (some [])

abbrev waiting : ProviderStatus
waiting = record { status = warning; timestamp = 5; retries = 3; last_message = "timeout" }

abbrev world : World
world = record {
  providers = "u1" ∷ "u2" ∷ [];
  today = 100;
  jitter = λ uuid. 7;
  assume_role = assume_role;
}

abbrev before : Run
before = record { statuses = ("u1", waiting) ∷ []; queued = []; aliases = [] }

abbrev stored_provider : String → Provider
stored_provider uuid = record {
  uuid = uuid;
  type = "OCP";
  provider_resource_name = b'c' ∷ [];
  schema_name = "acct1";
  bucket = none;
}

get_accounts_from_source_test :
    get_accounts_from_source (some "p2") (stored_provider "p1" ∷ stored_provider "p2" ∷ [])
    ≡ record {
      authentication = b'c' ∷ [];
      customer_name = "acct1";
      billing_source = none;
      provider_type = "OCP";
      schema_name = "acct1";
      provider_uuid = "p2";
    }
      ∷ []
unfolding get_accounts_from_source
get_accounts_from_source_test = refl

prepare_queue_example : Prepared world (polls world before.statuses) two_accounts before
prepare_queue_example = prepare_queue world two_accounts before

-- The first account is backing off; the second is queued, and then its refused role ends the loop.
prepare_refused :
    let out = prepare world two_accounts before in
    (out.0 ≡ raised) × (out.1.queued ≡ account (b'a' ∷ []) "u2" "b2" ∷ [])
unfolding prepare visit open_status go_on opened_or_raised lookup insert get_label_details
    update_account_alias get_account_alias_from_role_arn is_backing_off is_valid
prepare_refused = (refl, refl)
