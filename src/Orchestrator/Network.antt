-- ===== src/Orchestrator/Network.antt =====
-- The accounts of the Koku service (masu/external/accounts/network/cur_accounts_network.py), and the
-- choice of the source (masu/external/accounts_accessor.py).
use masu.Tables.Clean.{Text}
use masu.Prelude.{
  ℕ, String, Bool, false, ◌&&◌, Option, none, some, List, [], ◌∷◌, ◌==◌, nat_eq, string_eq,
  if◌then◌else◌,
}
use masu.Prelude.Options.{and_then}

-- An answer of the service: the type of its content and its status, with its JSON of one kind. The
-- JSON is `none` where it cannot be read.
pub record NetworkResponse (A : Type 0) : Type 0 where
  pub content_type : Option String
  pub status_code : ℕ
  pub json : Option A

-- A provider in the answer; a key that it does not have is `none`.
pub record ProviderJson : Type 0 where
  pub provider_resource_name : Option Text
  pub bucket : Option String
  pub customer_name : Option String
  pub provider_type : Option String
  pub schema_name : Option String

-- An account of this source, which has no uuid of the provider.
pub record NetworkAccount : Type 0 where
  pub authentication : Text
  pub billing_source : String
  pub name_of_customer : String
  pub type_of_provider : String
  pub schema_of_customer : String

-- `interface_error` is a CURAccountsInterfaceError, `other_error` any other exception.
pub data Attempted (A : Type 0) : Type 0 where
  got : A → Attempted A
  interface_error other_error : Attempted A

-- `_verify_response`
unfoldable pub verify_response : Option String → Bool
verify_response none = false
verify_response (some content_type) = content_type == "application/json"

abbrev pub read_json : {A : Type 0} → Option A → Attempted A
read_json none = other_error
read_json (some value) = got value

-- The service: the answers to the POST and, for a token, to the GET; `none` is a RequestException.
pub record Service : Type 0 where
  pub post : Option (NetworkResponse (Option String))
  pub get : Option String → Option (NetworkResponse (Option (List ProviderJson)))

abbrev token_of : Option (NetworkResponse (Option String)) → Attempted (Option String)
token_of none = interface_error
token_of (some r) =
    if verify_response r.content_type && r.status_code == 200
    then read_json r.json
    else interface_error

-- `_get_service_admin_token`
unfoldable pub get_service_admin_token : Service → Attempted (Option String)
unfolding verify_response
get_service_admin_token s = token_of s.post

-- The account of one provider; a key that is missing is an error of the interface.
unfoldable pub network_account : ProviderJson → Option NetworkAccount
network_account p = and_then p.provider_resource_name (λ authentication.
    and_then p.bucket (λ bucket. and_then p.customer_name (λ customer_name.
      and_then p.provider_type (λ provider_type. and_then p.schema_name (λ schema_name.
        some (record {
          authentication = authentication;
          billing_source = bucket;
          name_of_customer = customer_name;
          type_of_provider = provider_type;
          schema_of_customer = schema_name;
        }))))))

unfoldable pub network_accounts : List ProviderJson → Option (List NetworkAccount)
unfolding network_account
network_accounts [] = some []
network_accounts (p ∷ providers) =
    and_then (network_account p)
      (λ account. and_then (network_accounts providers) (λ accounts. some (account ∷ accounts)))

abbrev or_interface_error : Option (List NetworkAccount) → Attempted (List NetworkAccount)
or_interface_error none = interface_error
or_interface_error (some accounts) = got accounts

-- The loop over `results`, which raises a TypeError if there are none.
abbrev accounts_of_results :
    Attempted (Option (List ProviderJson)) → Attempted (List NetworkAccount)
accounts_of_results (got none) = other_error
accounts_of_results (got (some providers)) = or_interface_error (network_accounts providers)
accounts_of_results interface_error = interface_error
accounts_of_results other_error = other_error

abbrev accounts_of_response :
    Option (NetworkResponse (Option (List ProviderJson))) → Attempted (List NetworkAccount)
accounts_of_response none = interface_error
accounts_of_response (some r) =
    let read = accounts_of_results (read_json r.json) in
    if verify_response r.content_type then read else interface_error

abbrev with_token : Service → Attempted (Option String) → Attempted (List NetworkAccount)
with_token s (got token) = accounts_of_response (s.get token)
with_token s interface_error = interface_error
with_token s other_error = other_error

-- `CURAccountsNetwork.get_accounts_from_source`: the uuid of a provider is not looked at.
unfoldable pub network_accounts_from_source :
    Service → (provider_uuid : Option String) → Attempted (List NetworkAccount)
unfolding get_service_admin_token network_accounts
network_accounts_from_source s provider_uuid = with_token s (get_service_admin_token s)

pub data AccountSource : Type 0 where
  database network : AccountSource

-- `_set_source`, on the name in lower case; an AccountsAccessorError if there is none.
unfoldable pub set_source : String → Option AccountSource
set_source source_type =
    if source_type == "db"
    then some database
    else if source_type == "network"
    then some network
    else none
