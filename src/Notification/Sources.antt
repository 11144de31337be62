-- ===== src/Notification/Sources.antt =====
-- Which notifications make the orchestrator poll, and whom.
use masu.Prelude.{
  ◌≡◌, refl, ap, ◌∙◌, String, Bool, true, false, none, some, List, [], any, lookup, ◌==◌, string_eq,
}
use masu.CurDownload.Names.{extract_uuids_from_string}
use masu.Orchestrator.{Account, Run, World, get_accounts, prepare}
use masu.Orchestrator.Accounts.{matches, get_accounts-unmatched}
use masu.Notification.{
  Notice, S3Event, Sns, aws_sns_header_msg_type, get_message_type, confirm_subscription,
  notification_handler, source, manifest_suffix, ends_with, of_event, get_billing_source, poll,
  post_notification,
}

-- The message is about a manifest outside the directories of the single reports, in a bucket.
pub record IsTopLevel (e : S3Event) (bucket : String) : Type 0 where
  pub has_suffix : ends_with manifest_suffix e.key ≡ true
  pub has_no_uuid : extract_uuids_from_string e.key ≡ []
  pub is_bucket : e.bucket ≡ bucket
  pub is_named : (bucket == "") ≡ false

-- A notification with such a message.
pub record Notifies (sns : Sns) (notice : Notice) (bucket : String) : Type 0 where
  pub event : S3Event
  pub is_notification : lookup aws_sns_header_msg_type notice.headers ≡ some "Notification"
  pub has_body : (notice.body == "") ≡ false
  pub is_read : sns.read_event notice.body ≡ some event
  pub is_top_level : IsTopLevel event bucket

of_event-source :
    (e : S3Event) (bucket : String) → IsTopLevel e bucket → of_event (some e) ≡ source (some bucket)
of_event-source e bucket t = rw (t.has_suffix, t.has_no_uuid, t.is_bucket, t.is_named) refl

-- Where no account has the bucket that a notification of a top-level manifest names, the request makes
-- the orchestrator prepare all polling accounts, as a run without a billing source does.
pub post_notification-prepare :
    (sns : Sns) (override : String → Bool) (accounts : List Account) (world : World)
    (notice : Notice) (run : Run) (bucket : String)
    → Notifies sns notice bucket
    → any (matches bucket) accounts ≡ false
    → post_notification sns override (some accounts) world notice run
      ≡ prepare world (get_accounts override (some accounts) none).1 run
unfolding post_notification notification_handler get_billing_source get_message_type
    confirm_subscription
post_notification-prepare sns override accounts world notice run bucket n h =
    rw (n.is_notification, n.has_body, n.is_read)
      (ap (poll override (some accounts) world run) (of_event-source n.event bucket n.is_top_level)
        ∙ ap (λ all. prepare world all.1 run) (get_accounts-unmatched override accounts bucket h))
