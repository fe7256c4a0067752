-- ===== src/Notifications/Tasks.antt =====
-- `create_notifications_for_event` of backend/apps/notifications/tasks.py, with `is_email_enabled` of
-- services.py and the constraints of models.py.
pub mod Retries
use quorfix.Prelude.{
  ℕ, suc, Bool, true, false, not, Option, none, some, ◌&&◌, ◌||◌, List, [], ◌∷◌, ◌==◌,
  if◌then◌else◌, is_none, is_some,
}
use quorfix.Exec.{Exec, Result, ok, err}
use quorfix.Env.{Env}
use quorfix.Table.{Table, lookup, insert, exists_row, first}
use quorfix.Models.{
  Db, User, Bug, Comment, Organization, Notification, NotificationPreference, NotificationEventType,
  NotificationEmailStatus, Event, Job, send_email,
}
use quorfix.Bugs.Services.Duplicates.{bug_in_organization}
use quorfix.Notifications.Notify.{comment_required}
use quorfix.Notifications.Recipients.{resolve_recipients}

pub data TaskError : Type 0 where
  integrity_error : TaskError

abbrev pub same_event : NotificationEventType → NotificationEventType → Bool
same_event NotificationEventType.bug_assigned NotificationEventType.bug_assigned = true
same_event NotificationEventType.mentioned NotificationEventType.mentioned = true
same_event NotificationEventType.comment_added NotificationEventType.comment_added = true
same_event NotificationEventType.status_changed NotificationEventType.status_changed = true
same_event NotificationEventType.bug_reopened NotificationEventType.bug_reopened = true
same_event _ _ = false

abbrev pub is_preference_for : ℕ → ℕ → NotificationEventType → ℕ → NotificationPreference → Bool
is_preference_for organization user event _ p =
    p.organization == organization && p.user == user && same_event p.event_type event

abbrev pub enabled_by : Option (ℕ × NotificationPreference) → Bool
enabled_by none = true
enabled_by (some (_, p)) = p.email_enabled

unfoldable pub is_email_enabled :
    Table NotificationPreference → ℕ → ℕ → NotificationEventType → Bool
unfolding first
is_email_enabled preferences organization user event =
    enabled_by (first (is_preference_for organization user event) preferences)

-- What the task knows when it comes to the recipients: the event, the rows that it has found again
-- and `source_id`.
pub record Found : Type 0 where
  pub event : Event
  pub actor : Option ℕ
  pub comment : Option ℕ
  pub source : ℕ

-- `unique_notification_dedup`
unfoldable pub is_notification_of : Found → ℕ → ℕ → Notification → Bool
is_notification_of f recipient _ n =
    n.organization == f.event.organization_id
    && n.recipient == recipient
    && (same_event n.dedup_key.0 f.event.event_type && n.dedup_key.1 == f.source)

unfoldable pub notification_row : Table NotificationPreference → Found → ℕ → Notification
unfolding is_email_enabled
notification_row preferences f recipient = record {
  organization = f.event.organization_id;
  recipient = recipient;
  event_type = f.event.event_type;
  actor = f.actor;
  bug = f.event.bug_id;
  comment = f.comment;
  dedup_key = (f.event.event_type, f.source);
  read_at = none;
  email_status =
      if is_email_enabled preferences f.event.organization_id recipient f.event.event_type
      then NotificationEmailStatus.email_pending
      else NotificationEmailStatus.email_disabled;
  email_error = [];
  emailed_at = none;
}

-- `get_or_create` of one recipient, under the key `k`.
abbrev pub create_one : ℕ → Notification → Bool → Table Notification → Table Notification
create_one k row true notifications = notifications
create_one k row false notifications = insert k row notifications

-- The keys of the rows created: `created and ...` later keeps those that are pending.
abbrev pub note : ℕ → Bool → List ℕ → List ℕ
note k true created = created
note k false created = k ∷ created

-- The `for` loop over the recipients: the keys of the rows created, and the table.
unfoldable pub create_each :
    Env
    → Table NotificationPreference
    → Found
    → ℕ
    → List ℕ
    → Table Notification
    → List ℕ × Table Notification
unfolding exists_row insert is_notification_of notification_row
create_each env preferences f k [] notifications = ([], notifications)
create_each env preferences f k (recipient ∷ recipients) notifications =
    let there = exists_row (is_notification_of f recipient) notifications in
    let rest =
      create_each env preferences f (suc k) recipients
        (create_one (env.uuid k) (notification_row preferences f recipient) there notifications) in
    (note (env.uuid k) there rest.0, rest.1)

abbrev pub is_pending : Option Notification → Bool
is_pending none = false
is_pending (some n) = elim n.email_status [
  | NotificationEmailStatus.email_pending ↦ true
  | _ ↦ false
]

-- `send_notification_email.apply_async` for each row that is pending.
unfoldable pub dispatch_emails : List ℕ → Table Notification → List Job → List Job
unfolding lookup
dispatch_emails [] notifications jobs = jobs
dispatch_emails (k ∷ ks) notifications jobs =
    dispatch_emails ks notifications
      (if is_pending (lookup k notifications) then send_email k ∷ jobs else jobs)

abbrev pub is_empty : List ℕ → Bool
is_empty [] = true
is_empty (k ∷ ks) = false

-- The end of the task: `notification_comment_required_for_comment_events` refuses a row for a comment
-- that is gone, which takes back the whole block.
unfoldable pub commit : Found → Db → List ℕ × Table Notification → Result TaskError Unit × Db
unfolding dispatch_emails
commit f db (created, notifications) =
    if comment_required f.event.event_type && is_none f.comment && not (is_empty created)
    then (err integrity_error, db)
    else (
      ok tt,
      record db {
        notifications = notifications;
        jobs = dispatch_emails created notifications db.jobs;
      },
    )

-- `Comment.objects.filter(pk=comment_id, organization_id=organization_id).first()`
abbrev pub comment_within : ℕ → ℕ → Option Comment → Option ℕ
comment_within organization k none = none
comment_within organization k (some c) = if c.organization == organization then some k else none

unfoldable pub found_comment : Db → ℕ → Option ℕ → Option ℕ
unfolding lookup
found_comment db organization none = none
found_comment db organization (some k) = comment_within organization k (lookup k db.comments)

abbrev pub existing_key : ℕ → Option User → Option ℕ
existing_key k none = none
existing_key k (some u) = some k

unfoldable pub found_actor : Db → Option ℕ → Option ℕ
unfolding lookup
found_actor db none = none
found_actor db (some k) = existing_key k (lookup k db.users)

-- `activity_id or comment_id`; a notification without either is not dispatched
abbrev pub source_of : Event → ℕ
source_of e = elim e.activity_id [ some k ↦ k | none ↦ elim e.comment_id [ some k ↦ k | none ↦ 0 ] ]

unfoldable pub find_again : Db → Event → Found
unfolding found_comment found_actor
find_again db e = record {
  event = e;
  actor = found_actor db e.actor_id;
  comment = found_comment db e.organization_id e.comment_id;
  source = source_of e;
}

unfoldable pub recipients_of : Db → Event → List ℕ
unfolding resolve_recipients found_comment
recipients_of db e =
    resolve_recipients db e.organization_id e.bug_id e.event_type
      (found_comment db e.organization_id e.comment_id) e.actor_id e.assignee_id

abbrev pub create_found :
    Env → Event → Db → Option Organization → Option Bug → Result TaskError Unit × Db
create_found env e db (some organization) (some bug) =
    commit (find_again db e) db
      (create_each env db.preferences (find_again db e) 0 (recipients_of db e) db.notifications)
create_found env e db _ _ = (ok tt, db)

-- The task.
unfoldable pub create_notifications_for_event : Env → Event → Exec TaskError Db Unit
unfolding lookup bug_in_organization find_again recipients_of create_each commit
create_notifications_for_event env e db =
    create_found env e db (lookup e.organization_id db.organizations)
      (bug_in_organization e.organization_id e.bug_id db)
