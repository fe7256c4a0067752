-- ===== src/Notifications/Inbox.antt =====
-- The read marks of a user's notifications: backend/apps/notifications/selectors.py, services.py and
-- the endpoints of views.py, before the ordering of a list.
pub mod Laws
use quorfix.Prelude.{
  ℕ, Bool, true, false, ◌&&◌, Option, none, some, is_none, is_some, ◌==◌, if◌then◌else◌,
}
use quorfix.Env.{Env}
use quorfix.Table.{Table, lookup, filter_rows, count_rows, update_where}
use quorfix.Models.{Db, Notification, NotificationEventType}
use quorfix.Notifications.Tasks.{same_event}

-- `get_notifications_for_recipient`
abbrev pub is_for : ℕ → ℕ → Notification → Bool
is_for organization recipient n = n.organization == organization && n.recipient == recipient

-- `list_notifications`
abbrev pub has_read : Option Bool → Notification → Bool
has_read none n = true
has_read (some true) n = is_some n.read_at
has_read (some false) n = is_none n.read_at

abbrev pub has_type : Option NotificationEventType → Notification → Bool
has_type none n = true
has_type (some event) n = same_event n.event_type event

unfoldable pub list_notifications :
    ℕ → ℕ → Option Bool → Option NotificationEventType → Db → Table Notification
unfolding filter_rows
list_notifications organization recipient read event db =
    filter_rows (λ _ n. is_for organization recipient n && has_read read n && has_type event n)
      db.notifications

abbrev pub is_unread_for : ℕ → ℕ → ℕ → Notification → Bool
is_unread_for organization recipient _ n = is_for organization recipient n && is_none n.read_at

unfoldable pub unread_count : ℕ → ℕ → Db → ℕ
unfolding count_rows
unread_count organization recipient db =
    count_rows (is_unread_for organization recipient) db.notifications

abbrev pub read_row : ℕ → Notification → Notification
read_row now n = record n { read_at = some now }

-- `services.mark_read` of the row that the view has fetched; only `read_at` is saved.
abbrev pub mark_fetched : ℕ → ℕ → Notification → Bool → Db → Notification × Db
mark_fetched now pk n true db = (
  read_row now n,
  record db { notifications = update_where (λ k _. k == pk) (read_row now) db.notifications },
)
mark_fetched now pk n false db = (n, db)

-- `get_object`, which answers 404 where it finds nothing
abbrev pub own : ℕ → ℕ → Option Notification → Option Notification
own organization recipient none = none
own organization recipient (some n) = if is_for organization recipient n then some n else none

abbrev pub mark_found : ℕ → ℕ → Option Notification → Db → Option Notification × Db
mark_found now pk none db = (none, db)
mark_found now pk (some n) db =
    let marked = mark_fetched now pk n (is_none n.read_at) db in (some marked.0, marked.1)

unfoldable pub mark_read : Env → ℕ → ℕ → ℕ → Db → Option Notification × Db
unfolding lookup update_where
mark_read env organization recipient pk db =
    mark_found env.now pk (own organization recipient (lookup pk db.notifications)) db

unfoldable pub mark_all_read : Env → ℕ → ℕ → Db → ℕ × Db
unfolding count_rows update_where
mark_all_read env organization recipient db = (
  count_rows (is_unread_for organization recipient) db.notifications,
  record db {
    notifications =
        update_where (is_unread_for organization recipient) (read_row env.now) db.notifications;
  },
)
