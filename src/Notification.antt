-- ===== src/Notification.antt =====
-- The notifications that AWS sends of new reports (masu/external/notification_handler.py,
-- masu/external/notifications/aws/aws_notification_handler.py), and the request that brings them
-- (masu/api/notification.py).
pub mod Sources
mod Tests
use masu.Prelude.{
  zero, suc, ℕ, String, Bool, true, false, ◌&&◌, not, Option, none, some, List, [], ◌∷◌, contains,
  lookup, map, ◌==◌, string_eq, list_eq, nat_eq, if◌then◌else◌,
}
use masu.Prelude.Options.{and_then, ◌>>=◌}
use masu.Labels.{split, starts_with}
use masu.Tables.Clean.{Text}
use masu.AwsReport.Entries.{text_codes}
use masu.CurDownload.Names.{extract_uuids_from_string}
use masu.Orchestrator.{Account, Run, World, Outcome, returned, get_accounts, prepare}

abbrev pub aws_sns_header_msg_type : String
aws_sns_header_msg_type = "X-Amz-Sns-Message-Type"

abbrev pub aws_sns_header_topic_arn : String
aws_sns_header_topic_arn = "X-Amz-Sns-Topic-Arn"

abbrev aws_regions : List String
aws_regions =
    "us-east-2" ∷ "us-east-1" ∷ "us-west-1" ∷ "us-west-2" ∷ "ap-south-1" ∷ "ap-northeast-2"
    ∷ "ap-northeast-3" ∷ "ap-southeast-1" ∷ "ap-southeast-2" ∷ "ap-northeast-1" ∷ "ca-central-1"
    ∷ "cn-north-1" ∷ "cn-northwest-1" ∷ "eu-central-1" ∷ "eu-west-1" ∷ "eu-west-2" ∷ "eu-west-3"
    ∷ "sa-east-1" ∷ []

-- A request.
pub record Notice : Type 0 where
  pub headers : List (String × String)
  pub body : String

-- What the message in a body says of an object of S3.
pub record S3Event : Type 0 where
  pub key : Text
  pub bucket : String

-- JSON and the SNS service: `read_event` gives nothing of a body without such a message, `read_topic`
-- nothing of one without TopicArn, and `confirms` whether the subscription is confirmed.
pub record Sns : Type 0 where
  pub read_event : String → Option S3Event
  pub read_topic : String → Option String
  pub confirms : (region : Text) → (topic_arn : String) → Bool

abbrev element : ℕ → List Text → Option Text
element n [] = none
element zero (part ∷ parts) = some part
element (suc n) (part ∷ parts) = element n parts

abbrev known_region : Text → Option Text
known_region region = if contains (map text_codes aws_regions) region then some region else none

-- `_get_region`: an empty header is like none.
unfoldable pub get_region : List (String × String) → Option Text
get_region headers = do
  topic_arn ← lookup aws_sns_header_topic_arn headers
  region ← element 3 (split b':' (text_codes topic_arn))
  known_region region

-- `_get_message_type`, of the first such header.
unfoldable pub get_message_type : List (String × String) → Option String
get_message_type headers = and_then (lookup aws_sns_header_msg_type headers) (λ msg_type.
    if contains ("SubscriptionConfirmation" ∷ "Notification" ∷ []) msg_type
    then some msg_type
    else none)

abbrev confirmed : Bool → String → Option String
confirmed true msg_type = some msg_type
confirmed false msg_type = none

-- `_confirm_subscription`
unfoldable pub confirm_subscription : Sns → Notice → String → Option String
unfolding get_region
confirm_subscription sns notice msg_type =
    if msg_type == "SubscriptionConfirmation"
    then and_then (sns.read_topic notice.body) (λ topic_arn.
      and_then (get_region notice.headers)
        (λ region. confirmed (sns.confirms region topic_arn) msg_type))
    else some msg_type

-- `NotificationHandler(...)`: the message's type, or `none` for a NotificationHandlerError.
-- `_validate_message` does nothing.
unfoldable pub notification_handler : Sns → Notice → Option String
unfolding get_message_type confirm_subscription
notification_handler sns notice =
    and_then (get_message_type notice.headers) (confirm_subscription sns notice)

-- What `billing_source` gives: a source or None, a NotificationHandlerFilter or a
-- NotificationHandlerError.
pub data Source : Type 0 where
  source : Option String → Source
  filtered refused : Source

abbrev pub manifest_suffix : Text
manifest_suffix = text_codes "Manifest.json"

-- `text.endswith(suffix)`
abbrev pub ends_with : (suffix : Text) → Text → Bool
ends_with suffix [] = suffix == []
ends_with suffix (c ∷ text) = elim (ends_with suffix text) [
  | true ↦ true
  | false ↦ suffix == c ∷ text
]

abbrev pub named_bucket : String → Option String
named_bucket bucket = if bucket == "" then none else some bucket

abbrev pub top_level : List Text → String → Source
top_level [] bucket = source (named_bucket bucket)
top_level (uuid ∷ uuids) bucket = filtered

abbrev pub of_event : Option S3Event → Source
of_event none = refused
of_event (some e) =
    if ends_with manifest_suffix e.key
    then top_level (extract_uuids_from_string e.key) e.bucket
    else filtered

-- `get_billing_source`
unfoldable pub get_billing_source : Sns → Notice → (msg_type : String) → Source
get_billing_source sns notice msg_type =
    if msg_type == "Notification" && not (notice.body == "")
    then of_event (sns.read_event notice.body)
    else source none

abbrev pub billing_source : Sns → Notice → Option String → Source
billing_source sns notice none = refused
billing_source sns notice (some msg_type) = get_billing_source sns notice msg_type

abbrev pub poll : (String → Bool) → Option (List Account) → World → Run → Source → Outcome × Run
poll override found world run (source (some bucket)) =
    prepare world (get_accounts override found (some bucket)).1 run
poll override found world run (source none) = (returned, run)
poll override found world run filtered = (returned, run)
poll override found world run refused = (returned, run)

-- `post_notification`
unfoldable pub post_notification :
    Sns
    → (override : String → Bool) → (found : Option (List Account)) → World
    → Notice
    → Run
    → Outcome × Run
unfolding notification_handler get_billing_source
post_notification sns override found world notice run =
    poll override found world run (billing_source sns notice (notification_handler sns notice))
