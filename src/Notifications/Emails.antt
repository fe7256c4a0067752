-- ===== src/Notifications/Emails.antt =====
-- `send_notification_email` of backend/apps/notifications/tasks.py. What the mail server answers,
-- what Celery makes of a retry and what others write to the database meanwhile come in as arguments.
pub mod Laws
use quorfix.Prelude.{
  ℕ, Bool, true, false, ◌&&◌, Option, none, some, List, [], ◌∷◌, ◌++◌, Text, codes, take,
  if◌then◌else◌, ◌==◌,
}
use quorfix.Env.{Env}
use quorfix.Table.{Table, lookup, update_where}
use quorfix.Models.{
  Db, User, Bug, Notification, NotificationEventType, NotificationEmailStatus, send_email,
}
use quorfix.Notifications.Tasks.{is_pending}

pub record Mail : Type 0 where
  pub recipient : Text
  pub subject : Text
  pub message : Text

-- An exception of `send_mail`.
pub record MailFailure : Type 0 where
  pub type_name : Text
  pub text : Text

-- What `self.retry(exc=exc)` raises: `Retry` with the task queued again, `MaxRetriesExceededError`,
-- or the exception it was given.
pub data Retried : Type 0 where
  task_queued : Retried
  max_retries_exceeded : Retried
  raised_again : Retried

-- `settings.FRONTEND_BASE_URL`, the mail server, Celery's `retry` on the run with that many retries
-- behind it, and the writes of others until the mail server has answered.
pub record Post : Type 0 where
  pub frontend_base_url : Text
  pub send_mail : Mail → Option MailFailure
  pub retry : ℕ → MailFailure → Retried
  pub meanwhile : Db → Db

-- `_EMAIL_SUBJECTS`, formatted
unfoldable pub subject_of : NotificationEventType → Text → Text
subject_of NotificationEventType.bug_assigned key = codes "You were assigned " ++ key
subject_of NotificationEventType.mentioned key = codes "You were mentioned on " ++ key
subject_of NotificationEventType.comment_added key = codes "New comment on " ++ key
subject_of NotificationEventType.status_changed key = key ++ codes " status changed"
subject_of NotificationEventType.bug_reopened key = key ++ codes " was reopened"

-- `_send_email`; 8212 is the dash.
unfoldable pub mail_of : Env → Post → Notification → Bug → User → Mail
unfolding subject_of
mail_of env post n bug user = record {
  recipient = user.email;
  subject = subject_of n.event_type bug.key;
  message =
      bug.key
      ++ (32 ∷ 8212 ∷ 32 ∷ bug.title)
      ++ (10 ∷ 10 ∷ post.frontend_base_url)
      ++ codes "/bugs/"
      ++ env.uuid_text n.bug;
}

-- `filter(pk=notification_id, email_status=PENDING)`
abbrev pub is_pending_row : ℕ → ℕ → Notification → Bool
is_pending_row pk k n = k == pk && is_pending (some n)

abbrev pub sent_row : ℕ → Notification → Notification
sent_row now n = record n {
  email_status = NotificationEmailStatus.email_sent;
  emailed_at = some now;
}

-- `safe_summary`
abbrev pub summary_of : MailFailure → Text
summary_of failure = failure.type_name ++ codes ": " ++ take 200 failure.text

abbrev pub failed_row : MailFailure → Notification → Notification
failed_row failure n = record n {
  email_status = NotificationEmailStatus.email_failed;
  email_error = summary_of failure;
}

unfoldable pub mark_sent : Env → ℕ → Db → Db
unfolding update_where
mark_sent env pk db = record db {
  notifications = update_where (is_pending_row pk) (sent_row env.now) db.notifications;
}

-- `_mark_email_failed`
unfoldable pub mark_email_failed : ℕ → MailFailure → Db → Db
unfolding update_where
mark_email_failed pk failure db = record db {
  notifications = update_where (is_pending_row pk) (failed_row failure) db.notifications;
}

-- What one run comes to.
pub data Delivery : Type 0 where
  nothing_to_do : Delivery
  delivered : Mail → Delivery
  queued_again : MailFailure → Delivery
  given_up : MailFailure → Delivery
  uncaught : MailFailure → Delivery

-- The handler of a failure, by what `retry` raises.
abbrev pub handle_failure : ℕ → MailFailure → Retried → Db → Delivery × Db
handle_failure pk failure task_queued db =
    (queued_again failure, record db { jobs = send_email pk ∷ db.jobs })
handle_failure pk failure max_retries_exceeded db =
    (given_up failure, mark_email_failed pk failure db)
handle_failure pk failure raised_again db = (uncaught failure, db)

-- The end of a run, by the answer of the mail server.
unfoldable pub conclude :
    Env → (ℕ → MailFailure → Retried) → ℕ → ℕ → Mail → Option MailFailure → Db → Delivery × Db
unfolding mark_sent mark_email_failed
conclude env retry retries pk mail none db = (delivered mail, mark_sent env pk db)
conclude env retry retries pk mail (some failure) db =
    handle_failure pk failure (retry retries failure) db

-- The rows that `select_related` joins.
abbrev pub joined : Db → Option Notification → Option (Notification × Bug × User)
joined db none = none
joined db (some n) = elim (lookup n.bug db.bugs) as (λ _. Option (Notification × Bug × User)) [
  | none ↦ none
  | some bug ↦ elim (lookup n.recipient db.users) as (λ _. Option (Notification × Bug × User)) [
    | none ↦ none
    | some user ↦ some (n, bug, user)
  ]
]

abbrev pub deliver : Env → Post → ℕ → ℕ → Option (Notification × Bug × User) → Db → Delivery × Db
deliver env post retries pk none db = (nothing_to_do, db)
deliver env post retries pk (some (n, bug, user)) db =
    if is_pending (some n)
    then conclude env post.retry retries pk (mail_of env post n bug user)
        (post.send_mail (mail_of env post n bug user)) (post.meanwhile db)
    else (nothing_to_do, db)

unfoldable pub send_notification_email : Env → Post → ℕ → ℕ → Db → Delivery × Db
unfolding lookup mail_of conclude
send_notification_email env post retries pk db =
    deliver env post retries pk (joined db (lookup pk db.notifications)) db
