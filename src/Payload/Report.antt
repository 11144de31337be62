-- ===== src/Payload/Report.antt =====
-- What follows a confirmed message: `process_report` and `get_account` of
-- masu/external/kafka_msg_handler.py, and the provider of a cluster
-- (`get_provider_uuid_from_cluster_id` of masu/util/ocp/common.py, with the queries of
-- masu/database/provider_auth_db_accessor.py and masu/database/provider_db_accessor.py).
use mathlib.Core.Option.{some-injective}
use mathlib.Core.List.{Mem, mem-cons_self, mem-cons_of_mem}
use mathlib.Core.Path.{subst}
use masu.Prelude.{
  ℕ, String, ◌≡◌, refl, ap, ◌∙◌, true, false, Option, none, some, List, [], ◌∷◌, All, All-map, any,
  ◌==◌, ==-refl, nat_eq, string_eq, list_eq, if◌then◌else◌, Bool-cases, inl, inr,
}
use masu.Tables.Clean.{Text}
use masu.Orchestrator.{Provider, Account, account_of, get_accounts_from_source}

-- A row of `api_providerauthentication`, and one of `api_provider`.
pub record AuthRow : Type 0 where
  pub id : ℕ
  pub resource_name : Text

pub record ProviderRow : Type 0 where
  pub uuid : String
  pub authentication_id : ℕ

abbrev first_auth : List AuthRow → Option AuthRow
first_auth [] = none
first_auth (auth ∷ auths) = some auth

unfoldable pub named_auth : Text → List AuthRow → Option AuthRow
named_auth name [] = none
named_auth name (auth ∷ auths) =
    let rest = named_auth name auths in if auth.resource_name == name then some auth else rest

-- The first row of `ProviderAuthDBAccessor(provider_resource_name=...)`: without a name the query has
-- no filter.
unfoldable pub auth_of : Option Text → List AuthRow → Option AuthRow
unfolding named_auth
auth_of none auths = first_auth auths
auth_of (some []) auths = first_auth auths
auth_of (some (c ∷ name)) auths = named_auth (c ∷ name) auths

unfoldable pub provider_by_auth : ℕ → List ProviderRow → Option ProviderRow
provider_by_auth id [] = none
provider_by_auth id (p ∷ providers) =
    let rest = provider_by_auth id providers in if p.authentication_id == id then some p else rest

-- A call that may raise and may return None.
pub data Sought (A : Type 0) : Type 0 where
  found : A → Sought A
  not_found raises : Sought A

abbrev uuid_of_row : Option ProviderRow → Sought String
uuid_of_row none = raises
uuid_of_row (some p) = found p.uuid

abbrev uuid_of_auth : List ProviderRow → Option AuthRow → Sought String
uuid_of_auth providers none = not_found
uuid_of_auth providers (some auth) =
    if auth.id == 0 then not_found else uuid_of_row (provider_by_auth auth.id providers)

-- `get_provider_uuid_from_cluster_id`
unfoldable pub get_provider_uuid_from_cluster_id :
    Option Text → List AuthRow → List ProviderRow → Sought String
unfolding auth_of provider_by_auth
get_provider_uuid_from_cluster_id cluster_id auths providers =
    uuid_of_auth providers (auth_of cluster_id auths)

abbrev pub pop_account : List Account → Sought Account
pop_account [] = raises
pop_account (account ∷ []) = found account
pop_account (account ∷ next ∷ accounts) = pop_account (next ∷ accounts)

-- `get_account` with the accounts of the database.
unfoldable pub get_account : String → List Provider → Sought Account
get_account provider_uuid accounts =
    pop_account (get_accounts_from_source (some provider_uuid) accounts)

-- `process_report`: the account that it gives to `get_report_files` and whose reports it then queues
-- for the summary.
abbrev account_for : List Provider → Sought String → Sought Account
account_for accounts (found uuid) = if uuid == "" then not_found else get_account uuid accounts
account_for accounts not_found = not_found
account_for accounts raises = raises

unfoldable pub process_report :
    Option Text → List AuthRow → List ProviderRow → List Provider → Sought Account
unfolding get_provider_uuid_from_cluster_id get_account
process_report cluster_id auths providers accounts =
    account_for accounts (get_provider_uuid_from_cluster_id cluster_id auths providers)

-- What led from a cluster to an account: rows of the three tables that refer to each other.
pub record BelongsTo (cluster_id : Text) (auths : List AuthRow) (providers : List ProviderRow)
    (accounts : List Provider) (account : Account) : Type 0 where
  pub auth : AuthRow
  pub in_auths : Mem auth auths
  pub is_cluster : auth.resource_name ≡ cluster_id
  pub provider : ProviderRow
  pub in_providers : Mem provider providers
  pub is_authenticated : provider.authentication_id ≡ auth.id
  pub stored : Provider
  pub in_accounts : Mem stored accounts
  pub is_provider : stored.uuid ≡ provider.uuid
  pub is_account : account ≡ account_of stored

named_auth-name :
    (name : Text) (auths : List AuthRow) (auth : AuthRow)
    → named_auth name auths ≡ some auth
    → Mem auth auths × (auth.resource_name ≡ name)
unfolding named_auth
named_auth-name name [] auth h = cc
named_auth-name name (a ∷ auths) auth h = elim (Bool-cases (a.resource_name == name)) [
  | inl e ↦
      subst (λ (x : AuthRow). Mem x (a ∷ auths) × (x.resource_name ≡ name))
        (some-injective a auth (rw e at h))
        (mem-cons_self, ((list_eq {A = ℕ}).beq_iff a.resource_name name).0 e)
  | inr e ↦ let (m, n) = named_auth-name name auths auth (rw e at h) in (mem-cons_of_mem a m, n)
]

provider_by_auth-id :
    (id : ℕ) (providers : List ProviderRow) (p : ProviderRow)
    → provider_by_auth id providers ≡ some p
    → Mem p providers × (p.authentication_id ≡ id)
unfolding provider_by_auth
provider_by_auth-id id [] p h = cc
provider_by_auth-id id (q ∷ providers) p h = elim (Bool-cases (q.authentication_id == id)) [
  | inl e ↦
      subst (λ (x : ProviderRow). Mem x (q ∷ providers) × (x.authentication_id ≡ id))
        (some-injective q p (rw e at h))
        (mem-cons_self, (nat_eq.beq_iff q.authentication_id id).0 e)
  | inr e ↦ let (m, n) = provider_by_auth-id id providers p (rw e at h) in (mem-cons_of_mem q m, n)
]

-- An account is that of a stored provider with the uuid.
record IsStored (uuid : String) (accounts : List Provider) (account : Account) : Type 0 where
  pub stored : Provider
  pub in_accounts : Mem stored accounts
  pub is_provider : stored.uuid ≡ uuid
  pub is_account : account ≡ account_of stored

IsStored-tail :
    {uuid : String} {accounts : List Provider} (p : Provider) (account : Account)
    → IsStored uuid accounts account
    → IsStored uuid (p ∷ accounts) account
IsStored-tail p account s = record {
  stored = s.stored;
  in_accounts = mem-cons_of_mem p s.in_accounts;
  is_provider = s.is_provider;
  is_account = s.is_account;
}

-- Every account that the database gives for a uuid is stored with it.
accounts-IsStored :
    (uuid : String) (accounts : List Provider)
    → (uuid == "") ≡ false
    → All (IsStored uuid accounts) (get_accounts_from_source (some uuid) accounts)
unfolding get_accounts_from_source
accounts-IsStored uuid [] h = tt
accounts-IsStored uuid (p ∷ accounts) h =
    let rest =
      All-map _ _ (get_accounts_from_source (some uuid) accounts) (IsStored-tail p)
        (accounts-IsStored uuid accounts h) in
    elim (Bool-cases (p.uuid == uuid)) [
      | inl e ↦
          rw (h, e)
            (
              record {
                stored = p;
                in_accounts = mem-cons_self;
                is_provider = (string_eq.beq_iff p.uuid uuid).0 e;
                is_account = refl;
              },
              rest,
            )
      | inr e ↦ rw (h, e) rest
    ]

abbrev found_or : Account → Sought Account → Account
found_or account (found a) = a
found_or account not_found = account
found_or account raises = account

pop_account-All :
    (P : Account → Type 0) (accounts : List Account) (account : Account)
    → All P accounts
    → pop_account accounts ≡ found account
    → P account
pop_account-All P [] account h e = cc
pop_account-All P (a ∷ []) account (h, _) e = subst P (ap (found_or a) e) h
pop_account-All P (a ∷ b ∷ accounts) account (h, hs) e =
    pop_account-All P (b ∷ accounts) account hs e

account_for-IsStored :
    (accounts : List Provider) (uuid : String) (account : Account)
    → account_for accounts (found uuid) ≡ found account
    → IsStored uuid accounts account
unfolding get_account
account_for-IsStored accounts uuid account h = elim (Bool-cases (uuid == "")) [
  | inl e ↦ cc (rw e at h)
  | inr e ↦
      pop_account-All (IsStored uuid accounts) (get_accounts_from_source (some uuid) accounts)
        account (accounts-IsStored uuid accounts e) (rw e at h)
]

row-BelongsTo :
    (name : Text) (auths : List AuthRow) (auth : AuthRow) (providers : List ProviderRow)
    (accounts : List Provider) (account : Account) (row : Option ProviderRow)
    → Mem auth auths × (auth.resource_name ≡ name)
    → provider_by_auth auth.id providers ≡ row
    → account_for accounts (uuid_of_row row) ≡ found account
    → BelongsTo name auths providers accounts account
row-BelongsTo name auths auth providers accounts account none n e h = cc
row-BelongsTo name auths auth providers accounts account (some p) (m, n) e h =
    let (q, same) = provider_by_auth-id auth.id providers p e in
    let s = account_for-IsStored accounts p.uuid account h in
    record {
      auth = auth;
      in_auths = m;
      is_cluster = n;
      provider = p;
      in_providers = q;
      is_authenticated = same;
      stored = s.stored;
      in_accounts = s.in_accounts;
      is_provider = s.is_provider;
      is_account = s.is_account;
    }

auth-BelongsTo :
    (name : Text) (auths : List AuthRow) (providers : List ProviderRow) (accounts : List Provider)
    (account : Account) (auth : Option AuthRow)
    → named_auth name auths ≡ auth
    → account_for accounts (uuid_of_auth providers auth) ≡ found account
    → BelongsTo name auths providers accounts account
auth-BelongsTo name auths providers accounts account none e h = cc
auth-BelongsTo name auths providers accounts account (some auth) e h =
    elim (Bool-cases (auth.id == 0)) [
      | inl z ↦ cc (rw z at h)
      | inr z ↦
          row-BelongsTo name auths auth providers accounts account _
            (named_auth-name name auths auth e) refl (rw z at h)
    ]

pop_account-found :
    (a : Account) (accounts : List Account) → (b : Account) × (pop_account (a ∷ accounts) ≡ found b)
pop_account-found a [] = (a, refl)
pop_account-found a (b ∷ accounts) = pop_account-found b accounts

get_account-found :
    (uuid : String) (accounts : List Provider)
    → (uuid == "") ≡ false
    → any (λ q. q.uuid == uuid) accounts ≡ true
    → (b : Account) × (get_account uuid accounts ≡ found b)
unfolding get_account get_accounts_from_source
get_account-found uuid [] h e = cc
get_account-found uuid (q ∷ accounts) h e = elim (Bool-cases (q.uuid == uuid)) [
  | inl same ↦
      rw (h, same)
        (pop_account-found (account_of q) (get_accounts_from_source (some uuid) accounts))
  | inr other ↦ rw (h, other) (get_account-found uuid accounts h (rw other at e))
]

-- A cluster whose authentication has a provider with an account.
pub record IsKnown (name : Text) (auths : List AuthRow) (providers : List ProviderRow)
    (accounts : List Provider) : Type 0 where
  pub auth : AuthRow
  pub provider : ProviderRow
  pub is_named : named_auth name auths ≡ some auth
  pub has_id : (auth.id == 0) ≡ false
  pub has_provider : provider_by_auth auth.id providers ≡ some provider
  pub has_uuid : (provider.uuid == "") ≡ false
  pub has_account : any (λ q. q.uuid == provider.uuid) accounts ≡ true

-- A report whose cluster has an authentication with a provider and an account is processed, and for
-- the account of a stored provider whose uuid is that of a provider row of an authentication with the
-- cluster's name, all three in their tables.
pub process_report-BelongsTo :
    (c : ℕ) (name : Text) (auths : List AuthRow) (providers : List ProviderRow)
    (accounts : List Provider)
    → IsKnown (c ∷ name) auths providers accounts
    → (account : Account) × (process_report (some (c ∷ name)) auths providers accounts
        ≡ found account)
      × BelongsTo (c ∷ name) auths providers accounts account
unfolding process_report get_provider_uuid_from_cluster_id auth_of
process_report-BelongsTo c name auths providers accounts k =
    let (account, e) = get_account-found k.provider.uuid accounts k.has_uuid k.has_account in
    let is_processed : account_for accounts (uuid_of_auth providers (named_auth (c ∷ name) auths))
        ≡ found account =
      ap (λ a. account_for accounts (uuid_of_auth providers a)) k.is_named
      ∙ rw (k.has_id, k.has_provider, k.has_uuid) e in
    (
      account,
      is_processed,
      auth-BelongsTo (c ∷ name) auths providers accounts account _ refl is_processed,
    )

-- A report without a cluster id is processed as one of the first cluster in the table of the
-- authentications, whatever provider that is.
pub process_report-unnamed :
    (c : ℕ) (name : Text) (id : ℕ) (auths : List AuthRow) (providers : List ProviderRow)
    (accounts : List Provider)
    → let table = record { id = id; resource_name = c ∷ name } ∷ auths in
      process_report none table providers accounts
      ≡ process_report (some (c ∷ name)) table providers accounts
unfolding process_report get_provider_uuid_from_cluster_id auth_of named_auth
process_report-unnamed c name id auths providers accounts = rw (==-refl (c ∷ name)) refl
