-- ===== src/Tests/Notices.antt =====
-- The theorems on notifications, at the small database.
use quorfix.Prelude.{◌≡◌, refl, true, false, none, some, [], ◌∷◌, all, length, codes, leb, map}
use quorfix.Exec.{ok}
use quorfix.Table.{Table, lookup, count_rows}
use quorfix.Models.{
  Db, NotificationPreference, Event, Notification, NotificationEventType, NotificationEmailStatus,
}
use quorfix.Notifications.Recipients.{
  may_receive, told_elsewhere, resolve_recipients, resolve_recipients-allowed,
}
use quorfix.Notifications.Tasks.{
  create_notifications_for_event, is_preference_for, is_email_enabled,
}
use quorfix.Notifications.Tasks.Retries.{create_notifications_for_event-again}
use quorfix.Notifications.Emails.{Post, max_retries_exceeded, send_notification_email}
use quorfix.Notifications.Emails.Laws.{is_email_sound, Delivers, send_notification_email-Delivers}
use quorfix.Notifications.Inbox.{mark_read, mark_all_read, unread_count}
use quorfix.Notifications.Inbox.Laws.{Marks, mark_read-Marks, mark_all_read-unread_count}
use quorfix.Notifications.Preferences.{event_types, list_resolved_preferences, update_preference}
use quorfix.Notifications.Preferences.Laws.{list_resolved_preferences-is_email_enabled}
use quorfix.Notifications.Preferences.Updates.{update_preference-Updated}
use quorfix.Tests.Data.{env, db}

-- Both members watch the first bug.
abbrev watched_db : Db
watched_db = record db { bug_watchers = (1, 1) ∷ (1, 2) ∷ [] }

abbrev commented : Event
commented = record {
  event_type = NotificationEventType.comment_added;
  organization_id = 10;
  bug_id = 1;
  actor_id = some 2;
  activity_id = none;
  comment_id = some 50;
  assignee_id = none;
}

recipients_test :
    resolve_recipients watched_db 10 1 NotificationEventType.comment_added (some 50) (some 2) none
    ≡ 1 ∷ []
unfolding resolve_recipients
recipients_test = refl

resolve_recipients-allowed_example :
    all
      (may_receive watched_db 10
        (some 2)
        (told_elsewhere watched_db NotificationEventType.comment_added (some 50)))
      (resolve_recipients watched_db 10 1 NotificationEventType.comment_added
        (some 50)
        (some 2)
        none)
    ≡ true
resolve_recipients-allowed_example =
    resolve_recipients-allowed watched_db 10 1 NotificationEventType.comment_added (some 50)
      (some 2) none

abbrev told_db : Db
told_db = (create_notifications_for_event env commented watched_db).1

told_test : (create_notifications_for_event env commented watched_db).0 ≡ ok tt
unfolding create_notifications_for_event
told_test = refl

one_told : length told_db.notifications ≡ 1
unfolding create_notifications_for_event
one_told = refl

succeeded : create_notifications_for_event env commented watched_db ≡ (ok tt, told_db)
unfolding create_notifications_for_event
succeeded = refl

create_notifications_for_event-again_example :
    create_notifications_for_event env commented told_db ≡ (ok tt, told_db)
create_notifications_for_event-again_example =
    create_notifications_for_event-again env env commented watched_db told_db succeeded

-- A mail server that is down, at the last retry.
abbrev post : Post
post = record {
  frontend_base_url = codes "https://bugs.example";
  send_mail = λ _. some (record { type_name = codes "OSError"; text = codes "down" });
  retry = λ _ _. max_retries_exceeded;
  meanwhile = λ d. d;
}

abbrev awaited : Notification
awaited = record {
  organization = 10;
  recipient = 1;
  event_type = NotificationEventType.bug_assigned;
  actor = some 2;
  bug = 1;
  comment = none;
  dedup_key = (NotificationEventType.bug_assigned, 50);
  read_at = none;
  email_status = NotificationEmailStatus.email_pending;
  email_error = [];
  emailed_at = none;
}

abbrev awaited_db : Db
awaited_db = record db { notifications = (70, awaited) ∷ [] }

send_notification_email-Delivers_example :
    Delivers env post 5 70 awaited awaited_db (send_notification_email env post 5 70 awaited_db)
unfolding lookup is_email_sound
send_notification_email-Delivers_example =
    send_notification_email-Delivers env post 5 70 awaited awaited_db refl refl

given_up_test :
    (send_notification_email env post 5 70 awaited_db).1.notifications
    ≡ (
      70,
      record awaited {
        email_status = NotificationEmailStatus.email_failed;
        email_error = codes "OSError: down";
      },
    )
      ∷ []
unfolding send_notification_email
given_up_test = refl

mark_read-Marks_example :
    Marks env.now 70 awaited 70 awaited true true (mark_read env 10 1 70 awaited_db)
unfolding lookup
mark_read-Marks_example = mark_read-Marks env 10 1 70 awaited_db awaited 70 awaited refl refl

mark_all_read-unread_count_example :
    ((mark_all_read env 10 1 awaited_db).0 ≡ unread_count 10 1 awaited_db)
    × (unread_count 10 1 (mark_all_read env 10 1 awaited_db).1 ≡ 0)
    × (lookup 70 (mark_all_read env 10 1 awaited_db).1.notifications
        ≡ some (record awaited { read_at = some env.now }))
unfolding lookup
mark_all_read-unread_count_example = mark_all_read-unread_count env 10 1 awaited_db 70 awaited refl

one_marked : (mark_all_read env 10 1 awaited_db).0 ≡ 1
unfolding mark_all_read
one_marked = refl

-- Nobody else's
not_found_test : mark_read env 10 2 70 awaited_db ≡ (none, awaited_db)
unfolding mark_read
not_found_test = refl

abbrev muted : Table NotificationPreference
muted =
    (
      80,
      record {
        organization = 10;
        user = 1;
        event_type = NotificationEventType.mentioned;
        email_enabled = false;
      },
    )
    ∷ []

once :
    (event : NotificationEventType) → leb (count_rows (is_preference_for 10 1 event) muted) 1 ≡ true
unfolding count_rows
once NotificationEventType.bug_assigned = refl
once NotificationEventType.mentioned = refl
once NotificationEventType.comment_added = refl
once NotificationEventType.status_changed = refl
once NotificationEventType.bug_reopened = refl

list_resolved_preferences-is_email_enabled_example :
    list_resolved_preferences 10 1 muted
    ≡ map (λ event. (event, is_email_enabled muted 10 1 event)) event_types
list_resolved_preferences-is_email_enabled_example =
    list_resolved_preferences-is_email_enabled 10 1 muted once

unmuted_test :
    is_email_enabled
      (update_preference env 10 1 NotificationEventType.mentioned true muted)
      10
      1
      NotificationEventType.mentioned
    ≡ true
unfolding update_preference is_email_enabled
unmuted_test = refl

update_preference-Updated_example :
    (is_email_enabled
        (update_preference env 10 1 NotificationEventType.mentioned true muted)
        10
        1
        NotificationEventType.mentioned
      ≡ true)
    × (is_email_enabled
          (update_preference env 10 1 NotificationEventType.mentioned true muted)
          10
          2
          NotificationEventType.mentioned
        ≡ is_email_enabled muted 10 2 NotificationEventType.mentioned)
unfolding lookup
update_preference-Updated_example =
    update_preference-Updated 10 1 NotificationEventType.mentioned 10 2
      NotificationEventType.mentioned refl env true muted (refl, tt)
      (once NotificationEventType.mentioned)
