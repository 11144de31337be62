-- ===== src/Orchestrator/Labels.antt =====
-- The labels of accounts (masu/external/account_label.py,
-- masu/external/accounts/labels/aws/aws_account_alias.py), with `get_account_alias_from_role_arn` of
-- masu/util/aws/common.py and the table of masu/database/account_alias_accessor.py.
use masu.Prelude.{Bool, true, false, not, ◌||◌, ◌&&◌, Bool-cases, Option-cases, inl, inr, sym}
use masu.Prelude.{
  String, ◌≡◌, refl, ◌∙◌, Option, none, some, List, [], ◌∷◌, ◌==◌, ==-refl, string_eq, option_eq,
  list_eq, lookup, insert, lookup-insert, if◌then◌else◌, is_some,
}
use masu.Provider.{amazon_web_services}
use masu.Prelude.{nat_eq}
use masu.Prelude.Options.{and_then}
use masu.Tables.Clean.{Text}
use masu.Prelude.{ℕ}
use masu.Labels.{split, into_first}

-- `list_account_aliases`: a ClientError is `none`. The session of a role may be refused: then
-- `assume_role` raises, before the ARN is split.
abbrev pub AliasAnswer : Type 0
AliasAnswer = Option (List Text)

abbrev pop_alias : List Text → Option Text
pop_alias [] = none
pop_alias (alias ∷ []) = some alias
pop_alias (alias ∷ next ∷ rest) = pop_alias (next ∷ rest)

abbrev pub alias_or : Text → AliasAnswer → Option Text
alias_or account_id none = some account_id
alias_or account_id (some aliases) = pop_alias aliases

abbrev part_before_last : List Text → Option Text
part_before_last [] = none
part_before_last (part ∷ []) = none
part_before_last (part ∷ next ∷ []) = some part
part_before_last (part ∷ next ∷ third ∷ parts) = part_before_last (next ∷ third ∷ parts)

-- `get_account_alias_from_role_arn`; a refused role raises, and so does an ARN without a colon.
unfoldable pub get_account_alias_from_role_arn :
    (assume_role : Text → Option AliasAnswer) → Text → Option (Text × Option Text)
get_account_alias_from_role_arn assume_role role_arn = and_then (assume_role role_arn) (λ answer.
    and_then (part_before_last (split b':' role_arn))
      (λ account_id. some (account_id, alias_or account_id answer)))

-- The aliases of a schema by account; a row that is new has its account id for an alias.
abbrev pub Aliases : Type 0
Aliases = List (Text × Option Text)

unfoldable pub open_alias : Text → Aliases → Aliases
open_alias account_id aliases =
    if is_some (lookup account_id aliases)
    then aliases
    else insert account_id (some account_id) aliases

-- `update_account_alias`
unfoldable pub update_account_alias :
    (assume_role : Text → Option AliasAnswer)
    → Text
    → Aliases
    → Option ((Text × Option Text) × Aliases)
unfolding get_account_alias_from_role_arn open_alias
update_account_alias assume_role role_arn aliases =
    and_then (get_account_alias_from_role_arn assume_role role_arn) (λ (account_id, alias).
      some ((account_id, alias), insert account_id alias (open_alias account_id aliases)))

-- `AccountLabel(...).get_label_details`: only an AWS account has a labeler.
unfoldable pub get_label_details :
    (assume_role : Text → Option AliasAnswer)
    → (provider_type : String) → Text
    → Aliases
    → Option (Option (Text × Option Text) × Aliases)
unfolding update_account_alias
get_label_details assume_role provider_type auth aliases =
    let updated =
      and_then (update_account_alias assume_role auth aliases) (λ out. some (some out.0, out.1)) in
    if provider_type == amazon_web_services then updated else some (none, aliases)

unfoldable pub contains_char : ℕ → Text → Bool
contains_char sep [] = false
contains_char sep (c ∷ text) = c == sep || contains_char sep text

-- Whether the update of an account's labels returns.
unfoldable pub has_label : (Text → Option AliasAnswer) → (provider_type : String) → Text → Bool
unfolding contains_char
has_label assume_role provider_type auth =
    not (provider_type == amazon_web_services)
    || is_some (assume_role auth) && contains_char b':' auth

has_two : List Text → Bool
has_two [] = false
has_two (part ∷ []) = false
has_two (part ∷ next ∷ parts) = true

part_before_last-has_two : (parts : List Text) → is_some (part_before_last parts) ≡ has_two parts
unfolding has_two
part_before_last-has_two [] = refl
part_before_last-has_two (part ∷ []) = refl
part_before_last-has_two (part ∷ next ∷ []) = refl
part_before_last-has_two (part ∷ next ∷ third ∷ parts) =
    part_before_last-has_two (next ∷ third ∷ parts)

into_first-has_two : (c : ℕ) (parts : List Text) → has_two (into_first c parts) ≡ has_two parts
unfolding has_two
into_first-has_two c [] = refl
into_first-has_two c (part ∷ []) = refl
into_first-has_two c (part ∷ next ∷ parts) = refl

has_two-cons : (sep : ℕ) (text : Text) → has_two ([] ∷ split sep text) ≡ true
unfolding has_two split
has_two-cons sep [] = refl
has_two-cons sep (c ∷ text) = elim (Bool-cases (c == sep)) [
  | inl same ↦ rw same refl
  | inr other ↦ rw other (first (split sep text))
]
  where
    first : (parts : List Text) → has_two ([] ∷ into_first c parts) ≡ true
    first [] = refl
    first (part ∷ parts) = refl

split-has_two : (sep : ℕ) (text : Text) → has_two (split sep text) ≡ contains_char sep text
unfolding has_two split contains_char
split-has_two sep [] = refl
split-has_two sep (c ∷ text) = elim (Bool-cases (c == sep)) [
  | inl same ↦ rw same (has_two-cons sep text)
  | inr other ↦ rw other (into_first-has_two c (split sep text) ∙ split-has_two sep text)
]

-- The update of the labels returns exactly for the accounts that have them.
pub get_label_details-has_label :
    (assume_role : Text → Option AliasAnswer) (provider_type : String) (auth : Text)
    (aliases : Aliases)
    → is_some (get_label_details assume_role provider_type auth aliases)
      ≡ has_label assume_role provider_type auth
unfolding get_label_details update_account_alias get_account_alias_from_role_arn has_label
get_label_details-has_label assume_role provider_type auth aliases =
    let parts = part_before_last (split b':' auth) in
    let colon = part_before_last-has_two (split b':' auth) ∙ split-has_two b':' auth in
    elim (Bool-cases (provider_type == amazon_web_services)) [
      | inr other ↦ rw other refl
      | inl aws ↦ elim (Option-cases (assume_role auth)) [
        | inl refused ↦ rw (aws, refused) refl
        | inr (answer, e) ↦ elim (Option-cases parts) [
          | inl one ↦ rw (aws, e, one, sym colon) (rw one refl)
          | inr (account_id, f) ↦ rw (aws, e, f, sym colon) (rw f refl)
        ]
      ]
    ]

-- An AWS account without an alias gets none in the table, not its account id, whatever was there.
pub update_account_alias-none :
    (assume_role : Text → Option AliasAnswer) (role_arn account_id : Text) (aliases : Aliases)
    → part_before_last (split b':' role_arn) ≡ some account_id
    → assume_role role_arn ≡ some (some [])
    → (aliases' : Aliases) × (update_account_alias assume_role role_arn aliases
        ≡ some ((account_id, none), aliases'))
      × (lookup account_id aliases' ≡ some none)
unfolding update_account_alias get_account_alias_from_role_arn
update_account_alias-none assume_role role_arn account_id aliases part empty = (
  insert account_id none (open_alias account_id aliases),
  rw (empty, part) refl,
  lookup-insert account_id account_id none (open_alias account_id aliases)
      ∙ rw (==-refl account_id) refl,
)
