-- ===== src/Notification/Tests.antt =====
-- A notification of a bucket that no account has.
use masu.Prelude.{◌≡◌, refl, false, none, some, [], ◌∷◌, lookup, string_eq, nat_eq, list_eq}
use masu.CurDownload.Names.{findall}
use masu.Orchestrator.{Account, Run, World, get_accounts, prepare}
use masu.Notification.{
  Notice, S3Event, Sns, aws_sns_header_msg_type, manifest_suffix, post_notification,
}
use masu.Notification.Sources.{Notifies, post_notification-prepare}

abbrev notice : Notice
notice = record { headers = (aws_sns_header_msg_type, "Notification") ∷ []; body = "b" }

-- 'r/Manifest.json' is the key in every body.
abbrev event : S3Event
event = record { key = b'r' ∷ b'/' ∷ manifest_suffix; bucket = "other" }

abbrev sns : Sns
sns = record {
  read_event = λ body. some event;
  read_topic = λ body. none;
  confirms = λ region topic_arn. false;
}

abbrev account : Account
account = record {
  authentication = b'a' ∷ [];
  customer_name = "acct1";
  billing_source = some "b1";
  provider_type = "AWS";
  schema_name = "acct1";
  provider_uuid = "u1";
}

abbrev world : World
world = record { providers = "u1" ∷ []; today = 100; jitter = λ uuid. 7; assume_role = λ arn. none }

abbrev before : Run
before = record { statuses = []; queued = []; aliases = [] }

notice-Notifies : Notifies sns notice "other"
unfolding lookup findall
notice-Notifies = record {
  event = event;
  is_notification = refl;
  has_body = refl;
  is_read = refl;
  is_top_level = record {
    has_suffix = refl;
    has_no_uuid = refl;
    is_bucket = refl;
    is_named = refl;
  };
}

post_notification-prepare_example :
    post_notification sns (λ uuid. false) (some (account ∷ [])) world notice before
    ≡ prepare world (get_accounts (λ uuid. false) (some (account ∷ [])) none).1 before
post_notification-prepare_example =
    post_notification-prepare sns (λ uuid. false) (account ∷ []) world notice before "other"
      notice-Notifies refl
