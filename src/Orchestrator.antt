-- ===== src/Orchestrator.antt =====
-- The accounts and the orchestrator (masu/processor/orchestrator.py,
-- masu/external/accounts_accessor.py, masu/external/accounts/db/cur_accounts_db.py).
pub mod Accounts
pub mod Prepare
pub mod Labels
pub mod Network
mod Tests
use masu.Prelude.{
  ℕ, String, Bool, true, false, ◌&&◌, not, Option, none, some, List, [], ◌∷◌, ◌++◌, select,
  contains, lookup, insert, ◌==◌, string_eq, option_eq, if◌then◌else◌,
}
use masu.Provider.{poll_ingest, ingest_method_for_provider}
use masu.Tables.Clean.{Text}
use masu.Orchestrator.Labels.{AliasAnswer, Aliases, get_label_details}
use masu.Provider.Status.{
  ProviderStatus, OpenResult, opened, unknown_provider, open_status, is_valid, is_backing_off,
}

-- A provider with the rows that its foreign keys name.
pub record Provider : Type 0 where
  pub uuid : String
  pub type : String
  pub provider_resource_name : Text
  pub schema_name : String
  pub bucket : Option String

pub record Account : Type 0 where
  pub authentication : Text
  pub customer_name : String
  pub billing_source : Option String
  pub provider_type : String
  pub schema_name : String
  pub provider_uuid : String

abbrev pub account_of : Provider → Account
account_of provider = record {
  authentication = provider.provider_resource_name;
  customer_name = provider.schema_name;
  billing_source = provider.bucket;
  provider_type = provider.type;
  schema_name = provider.schema_name;
  provider_uuid = provider.uuid;
}

-- `if provider_uuid and provider.uuid != provider_uuid: continue`
abbrev other_provider : Option String → Provider → Bool
other_provider none provider = false
other_provider (some wanted) provider = not (wanted == "") && not (provider.uuid == wanted)

-- `CURAccountsDB.get_accounts_from_source`
unfoldable pub get_accounts_from_source : Option String → List Provider → List Account
get_accounts_from_source provider_uuid [] = []
get_accounts_from_source provider_uuid (provider ∷ providers) =
    let accounts = get_accounts_from_source provider_uuid providers in
    if other_provider provider_uuid provider then accounts else account_of provider ∷ accounts

-- `is_polling_account`; `override` is `poll_ingest_override_for_provider`, which looks for a directory
-- of the provider's cluster.
unfoldable pub is_polling_account : (String → Bool) → Account → Bool
unfolding ingest_method_for_provider
is_polling_account override account =
    if ingest_method_for_provider account.provider_type == some poll_ingest
    then true
    else if override account.provider_uuid
    then true
    else false

-- The loop over the accounts for a billing source: it goes on over the list that it started with.
unfoldable pub narrow : String → List Account → (all_accounts : List Account) → List Account
narrow billing_source [] all_accounts = all_accounts
narrow billing_source (account ∷ accounts) all_accounts =
    narrow billing_source accounts
      (if some billing_source == account.billing_source then account ∷ [] else all_accounts)

abbrev for_source : Option String → List Account → List Account
for_source none accounts = accounts
for_source (some billing_source) accounts =
    if billing_source == "" then accounts else narrow billing_source accounts accounts

abbrev or_no_accounts : Option (List Account) → List Account
or_no_accounts none = []
or_no_accounts (some accounts) = accounts

-- `Orchestrator.get_accounts`: all accounts and the polling ones. `found` is what the accessor
-- returns, `none` for an `AccountsAccessorError`.
unfoldable pub get_accounts :
    (override : String → Bool) (found : Option (List Account)) (billing_source : Option String)
    → List Account × List Account
get_accounts override found billing_source =
    let all_accounts = for_source billing_source (or_no_accounts found) in
    (all_accounts, select (is_polling_account override) all_accounts)

-- The status table, the download requests in the order in which they are queued, and the aliases of
-- the accounts in the schemas of the customers.
pub record Run : Type 0 where
  pub statuses : List (String × ProviderStatus)
  pub queued : List Account
  pub aliases : List (String × Aliases)

pub data Outcome : Type 0 where
  returned : Outcome
  raised : Outcome

-- What the orchestrator reads from outside during `prepare`: the providers that exist, the time, the
-- jitter that is drawn for a provider, and the session of a role.
pub record World : Type 0 where
  pub providers : List String
  pub today : ℕ
  pub jitter : String → ℕ
  pub assume_role : Text → Option AliasAnswer

abbrev pub aliases_of : Option Aliases → Aliases
aliases_of none = []
aliases_of (some aliases) = aliases

abbrev pub labelled : String → Run → Option (Option (Text × Option Text) × Aliases) → Outcome × Run
labelled schema_name run none = (raised, run)
labelled schema_name run (some (details, aliases)) =
    (returned, record run { aliases = insert schema_name aliases run.aliases })

-- The update of the labels, behind the request that is already queued.
abbrev pub label : World → Account → Run → Outcome × Run
label world account run = labelled account.schema_name run (
    get_label_details world.assume_role account.provider_type account.authentication
      (aliases_of (lookup account.schema_name run.aliases)))

abbrev pub ready_to_poll : World → Account → ProviderStatus → Bool
ready_to_poll world account status =
    is_valid status && not (is_backing_off status world.today (world.jitter account.provider_uuid))

-- The body of the loop, with the status of the provider.
unfoldable pub visit : World → Account → ProviderStatus → Run → Outcome × Run
visit world account status run =
    let seen = record run { statuses = insert account.provider_uuid status run.statuses } in
    if ready_to_poll world account status
    then label world account (record seen { queued = run.queued ++ account ∷ [] })
    else (returned, seen)

abbrev pub open_for : World → Account → Run → OpenResult
open_for world account run =
    open_status (contains world.providers account.provider_uuid)
      (lookup account.provider_uuid run.statuses) world.today

-- `ProviderStatus(...)` and the rest of the loop, which an unknown provider ends with an exception.
unfoldable pub opened_or_raised :
    OpenResult → (ProviderStatus → Outcome × Run) → Run → Outcome × Run
opened_or_raised unknown_provider rest run = (raised, run)
opened_or_raised (opened status) rest run = rest status

unfoldable pub go_on : Outcome × Run → (Run → Outcome × Run) → Outcome × Run
go_on (raised, run) rest = (raised, run)
go_on (returned, run) rest = rest run

-- `Orchestrator.prepare` over the polling accounts. An exception leaves the accounts that follow.
unfoldable pub prepare : World → List Account → Run → Outcome × Run
unfolding opened_or_raised go_on visit
prepare world [] run = (returned, run)
prepare world (account ∷ accounts) run =
    opened_or_raised (open_for world account run)
      (λ status. go_on (visit world account status run) (λ after. prepare world accounts after)) run
